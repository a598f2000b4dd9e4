-- ===== src/Scheduling/Task.antt =====
-- task_base.hpp and task_handle.hpp: the fields that every task and group has, the objects that
-- shared pointers reach, and the handles.
use mathlib.Core.Path.{fun_ext}
use oqpi.Base.{
  ℕ, ◌+◌, ◌%◌, ◌^◌, ◌≡◌, Bool, true, false, not, ◌&&◌, Option, none, some, if◌then◌else◌, ◌==◌,
  ==_refl, Bool-cases, inl, inr, update, arith,
}
use oqpi.Scheduling.Priority.{TaskPriority}

-- `parent` is spParentGroup_: the address of the group, or none for a null pointer.
pub record Task : Type 0 where
  pub uid : ℕ
  pub parent : Option ℕ
  pub priority : TaskPriority
  pub grabbed : Bool
  pub done : Bool

-- The objects by their addresses.
abbrev pub Store : Type 0
Store = ℕ → Task

abbrev pub invalid_task_uid : ℕ
invalid_task_uid = 0

-- The constructor, with the counter of uid_provider, which starts at 1 and wraps at 2 ^ 64.
unfoldable pub make_task_base : TaskPriority → ℕ → Task × ℕ
make_task_base priority uid_generator = (
  record { uid = uid_generator; parent = none; priority = priority; grabbed = false; done = false },
  (uid_generator + 1) % 2 ^ 64,
)

-- The move constructor: the new object, and the one that it is made of.
unfoldable pub move_construct : Task → Task × Task
move_construct other = (other, record other { parent = none })

-- The move assignment from another object: the assigned object, and the other one.
unfoldable pub move_assign : Task → Task → Task × Task
move_assign self rhs = (rhs, record rhs { uid = invalid_task_uid; parent = none })

-- `grabbed_.compare_exchange_strong(expected = false, true)`
unfoldable pub try_grab : Store → ℕ → Bool × Store
try_grab s t =
    if (s t).grabbed then (false, s) else (true, update s t (record (s t) { grabbed = true }))

unfoldable pub set_done : Store → ℕ → Store
set_done s t = update s t (record (s t) { done = true })

-- `spParentGroup_ = spParentGroup`, for a group, and its reset.
unfoldable pub set_parent : Store → ℕ → Option ℕ → Store
set_parent s t g = update s t (record (s t) { parent = g })

-- A task that a worker may still start.
unfoldable pub is_open : Store → ℕ → Bool
is_open s t = not (s t).grabbed && not (s t).done

-- A task_handle: the address of a task, or none for an invalid handle.
abbrev pub Handle : Type 0
Handle = Option ℕ

abbrev pub is_valid : Handle → Bool
is_valid none = false
is_valid (some t) = true

-- A grab closes the task for every other caller, and keeps all that it does not name.
pub open-try_grab :
    (s : Store) (t x : ℕ) → is_open (try_grab s t).1 x ≡ (is_open s x && not (t == x))
unfolding is_open try_grab
open-try_grab s t x = elim (Bool-cases (t == x)) [
  | inl same ↦ let e : t ≡ x = ground arith in rw (e, ==_refl x) (ground arith)
  | inr other ↦ ground arith
]

pub done-try_grab : (s : Store) (t x : ℕ) → ((try_grab s t).1 x).done ≡ (s x).done
unfolding try_grab
done-try_grab s t x = ground arith

-- What the test behind a grab finds, and what it leaves of a task that was not open.
pub won-open :
    (s : Store) (t : ℕ) → ((try_grab s t).0 && not ((try_grab s t).1 t).done) ≡ is_open s t
unfolding is_open try_grab
won-open s t = ground arith

pub open-try_grab_closed :
    (s : Store) (t : ℕ) → is_open s t ≡ false → is_open (try_grab s t).1 ≡ is_open s
open-try_grab_closed s t closed = fun_ext (λ x. ground (arith, open-try_grab s t x))

pub grabbed-try_grab : (s : Store) (t : ℕ) → ((try_grab s t).1 t).grabbed ≡ true
unfolding try_grab
grabbed-try_grab s t = ground arith
