-- ===== src/Scheduling/Result.antt =====
-- task_result.hpp and task.hpp: the results of tasks that return a value. `results` holds the member
-- result_ of each task, and `func` what the function of each task returns.
use oqpi.Base.{
  ℕ, ◌≡◌, refl, ap, ◌∙◌, true, false, [], ◌∷◌, if◌then◌else◌, update, ◌==◌, ==_refl, arith,
}
use oqpi.Scheduling.Priority.{TaskType, waitable}
use oqpi.Scheduling.Task.{Task, move_construct, move_assign}
use oqpi.Scheduling.Scheduler.{ensure, Outcome, ok, fault, ◌>>=◌}
use oqpi.Scheduling.Groups.{World, invoke, pre_execute, run_func, post_execute, notified}
use oqpi.Scheduling.Groups.Unit.{ensure-holds}
use oqpi.Scheduling.Groups.Single.Ran.{told}
use oqpi.Scheduling.Groups.Single.Laws.{invoked-Ran, invoked-AllDone, AllDone}
use oqpi.Scheduling.Groups.Wait.{returned, asleep, is_notified, wait}
use oqpi.Scheduling.Groups.Wait.Parallel.{is_notified-append}

-- What waitForResult comes to: the result, or the sleep of the caller.
pub data Awaited (A : Type 0) : Type 0 where
  result : A → Awaited A
  pending : World → Awaited A

module _ {A : Type 0} where
  -- `task_result::run`
  unfoldable pub run_result : (ℕ → A) → (ℕ → A) → ℕ → ℕ → A
  run_result func results t = update results t (func t)

  -- `task::invoke`, with the result.
  unfoldable pub invoke_result : (ℕ → A) → World → (ℕ → A) → ℕ → World × (ℕ → A)
  unfolding invoke run_result
  invoke_result func w results t = (invoke w t, run_result func results t)

  -- `task::getResult`: with checks the program stops if the task is not done.
  unfoldable pub get_result : World → (ℕ → A) → ℕ → Outcome A
  get_result w results t = if ensure w.build (w.store t).done then ok (results t) else fault

  -- `task::waitForResult`
  unfoldable pub wait_for_result : World → (ℕ → A) → ℕ → Outcome (Awaited A)
  unfolding wait get_result
  wait_for_result w results t = wait w t >>= λ waited. elim waited [
    | returned w' ↦ get_result w' results t >>= λ a. ok (result a)
    | asleep w' ↦ ok (pending w')
  ]

told-waitable : (w : World) (t : ℕ) → w.type t ≡ waitable → told w.type t ≡ notified t ∷ []
unfolding told
told-waitable w t e = rw (e, told) refl

-- A call of `invoke` sets the event of a waitable task.
invoked-notified : (w : World) (t : ℕ) → w.type t ≡ waitable → is_notified t (invoke w t).log ≡ true
unfolding is_notified
invoked-notified w t e =
    ap (is_notified t) (invoked-Ran w t).logged
    ∙ is_notified-append t w.log (pre_execute t ∷ run_func t ∷ post_execute t ∷ told w.type t)
    ∙ rw (told-waitable w t e) (rw (==_refl t) (ground arith))

module _ {A : Type 0} where
  -- A waitable task whose event is not set: waitForResult sleeps before the task runs. Once `invoke`
  -- has run it, getResult and waitForResult return what its function has returned, with and
  -- without checks, and the results of other tasks are kept.
  pub wait_for_result-invoked :
      (func : ℕ → A) (w : World) (results : ℕ → A) (t : ℕ)
      → w.type t ≡ waitable
      → is_notified t w.log ≡ false
      → (wait_for_result w results t ≡ ok (pending w))
        × (get_result (invoke_result func w results t).0 (invoke_result func w results t).1 t
            ≡ ok (func t))
        × (wait_for_result (invoke_result func w results t).0 (invoke_result func w results t).1 t
            ≡ ok (result (func t)))
        × ((x : ℕ) → (t == x) ≡ false → (invoke_result func w results t).1 x ≡ results x)
  unfolding wait_for_result get_result invoke_result run_result wait AllDone
  wait_for_result-invoked func w results t type quiet =
      let types = ap (λ (f : ℕ → TaskType). f t) (invoked-Ran w t).types ∙ type in
      let told_now = invoked-notified w t type in
      let over = invoked-AllDone w t t (==_refl t) in
      let got : get_result (invoke w t) (update results t (func t)) t ≡ ok (func t) =
        rw (over, ensure-holds (invoke w t).build) (rw (==_refl t) refl) in
      (
        rw (type, wait) (rw quiet refl),
        got,
        rw (types, wait) (rw told_now (rw got refl)),
        λ x out. rw out refl,
      )

-- A task object whole: `event` is the event of a waitable one.
pub record TaskObject (A F E : Type 0) : Type 0 where
  pub base : Task
  pub value : A
  pub event : E
  pub func : F

module _ {A F E : Type 0} where
  -- The move constructor and the move assignment from another object, each with the object moved
  -- from. `default` is the result of a new object, and `left_func` and `left_event` what a move leaves.
  unfoldable pub move_construct_task :
      A → (F → F) → (E → E) → TaskObject A F E → TaskObject A F E × TaskObject A F E
  unfolding move_construct
  move_construct_task default left_func left_event other =
      let (base, base') = move_construct other.base in
      (
        record { base = base; value = default; event = other.event; func = other.func },
        record {
          base = base';
          value = other.value;
          event = left_event other.event;
          func = left_func other.func;
        },
      )

  unfoldable pub move_assign_task :
      (F → F) → (E → E) → TaskObject A F E → TaskObject A F E → TaskObject A F E × TaskObject A F E
  unfolding move_assign
  move_assign_task left_func left_event self rhs =
      let (base, base') = move_assign self.base rhs.base in
      (
        record { base = base; value = self.value; event = rhs.event; func = rhs.func },
        record {
          base = base';
          value = rhs.value;
          event = left_event rhs.event;
          func = left_func rhs.func;
        },
      )

  -- A move leaves the result behind, also that of a task that is done.
  moved-result :
      (default : A) (left_func : F → F) (left_event : E → E) (self other : TaskObject A F E)
      → other.base.done ≡ true
      → ((move_construct_task default left_func left_event other).0.base.done ≡ true)
        × ((move_construct_task default left_func left_event other).0.value ≡ default)
        × ((move_assign_task left_func left_event self other).0.base.done ≡ true)
        × ((move_assign_task left_func left_event self other).0.value ≡ self.value)
  unfolding move_construct_task move_assign_task
  moved-result default left_func left_event self other over = (over, refl, over, refl)
