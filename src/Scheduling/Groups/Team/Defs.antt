-- ===== src/Scheduling/Groups/Team/Defs.antt =====
-- task.hpp and parallel_group.hpp: many threads that try the tasks of one parallel group without a
-- limit, each call of an atomic one step.
use oqpi.Base.{
  ℕ, suc, ◌≡◌, Bool, true, false, Option, none, some, List, [], ◌∷◌, ◌++◌, if◌then◌else◌, ◌==◌,
  update, contains,
}
use oqpi.Scheduling.Task.{Store, try_grab, set_done}
use oqpi.Scheduling.Groups.Exec.{decrement}

-- Where a thread is: between tasks, or with a task that it has grabbed, whose function it has called,
-- or which it has set done and not yet counted.
pub data Place : Type 0 where
  idle : Place
  holding running ran : ℕ → Place

-- The tasks that are counted are those whose end the group was told, and `ended` is how often
-- notifyGroupDone was called.
pub record Team : Type 0 where
  pub store : Store
  pub place : ℕ → Place
  pub active_tasks_count : ℕ
  pub counted : ℕ → Bool
  pub calls : List ℕ
  pub ended : ℕ

-- The steps of the thread `i`: `tryGrab`, the call of the function, `setDone`, and `fetch_sub`.
pub data Step (tasks : List ℕ) : Team → Team → Type 0 where
  grabs :
      (s : Team) (i t : ℕ)
      → s.place i ≡ idle
      → contains tasks t ≡ true
      → (try_grab s.store t).0 ≡ true
      → Step tasks s
          (record s { store = (try_grab s.store t).1; place = update s.place i (holding t) })
  fails :
      (s : Team) (i t : ℕ)
      → s.place i ≡ idle
      → contains tasks t ≡ true
      → (try_grab s.store t).0 ≡ false
      → Step tasks s (record s { store = (try_grab s.store t).1 })
  invokes :
      (s : Team) (i t : ℕ)
      → s.place i ≡ holding t
      → Step tasks s (record s { calls = s.calls ++ t ∷ []; place = update s.place i (running t) })
  finishes :
      (s : Team) (i t : ℕ)
      → s.place i ≡ running t
      → Step tasks s (record s { store = set_done s.store t; place = update s.place i (ran t) })
  counts :
      (s : Team) (i t : ℕ)
      → s.place i ≡ ran t
      → Step tasks s (record s {
        active_tasks_count = decrement s.active_tasks_count;
        counted = update s.counted t true;
        ended = if s.active_tasks_count == 1 then suc s.ended else s.ended;
        place = update s.place i idle;
      })

pub data Reach (tasks : List ℕ) (s : Team) : Team → Type 0 where
  here : Reach tasks s s
  next : {u v : Team} → Reach tasks s u → Step tasks u v → Reach tasks s v

-- The group when all of its tasks are open.
abbrev pub started : Store → ℕ → Team
started store count = record {
  store = store;
  place = λ i. idle;
  active_tasks_count = count;
  counted = λ t. false;
  calls = [];
  ended = 0;
}

-- The task that a thread has.
abbrev pub has_task : Place → Option ℕ
has_task idle = none
has_task (holding t) = some t
has_task (running t) = some t
has_task (ran t) = some t
