-- ===== src/Scheduling/Groups/Wait/Parallel.antt =====
-- parallel_group.hpp: `activeWait` of a parallel group without a limit.
use mathlib.Core.List.{append-nil, append_assoc}
use oqpi.Base.{
  ℕ, zero, suc, ◌+◌, ◌<◌, ◌≡◌, refl, sym, ap, ◌∙◌, true, false, ◌||◌, none, List, [], ◌∷◌, ◌++◌,
  if◌then◌else◌, arith, ◌==◌, ==_refl, contains, length,
}
use oqpi.Scheduling.Priority.{TaskType, fire_and_forget, waitable}
use oqpi.Scheduling.Task.{Task}
use oqpi.Scheduling.Scheduler.{ok}
use oqpi.Scheduling.Groups.Objects.{
  ParallelGroup, parallel_group, Event, pre_execute, run_func, post_execute, notified,
  group_pre_execute, group_post_execute, added_to_group, task_added, World,
}
use oqpi.Scheduling.Groups.Exec.{execute}
use oqpi.Scheduling.Groups.Single.Ran.{told}
use oqpi.Scheduling.Groups.Single.Trees.{leaf, trace, task_events}
use oqpi.Scheduling.Groups.Single.Laws.{AllDone}
use oqpi.Scheduling.Groups.Single.All.{done_by}
use oqpi.Scheduling.Groups.Members.{waits_for}
use oqpi.Scheduling.Groups.Ended.{group_end, is_part}
use oqpi.Scheduling.Groups.Wait.Defs.{returned, asleep, is_notified, wait, help, active_wait}
use oqpi.Scheduling.Groups.Wait.Loop.{AllMembers, free}
use oqpi.Scheduling.Groups.Wait.All.{helped_events, help-Helped}

pub is_notified-append :
    (t : ℕ) (a b : List Event) → is_notified t (a ++ b) ≡ (is_notified t a || is_notified t b)
unfolding is_notified
is_notified-append t [] b = refl
is_notified-append t (pre_execute x ∷ a) b = is_notified-append t a b
is_notified-append t (run_func x ∷ a) b = is_notified-append t a b
is_notified-append t (post_execute x ∷ a) b = is_notified-append t a b
is_notified-append t (notified x ∷ a) b = ground (arith, is_notified-append t a b)
is_notified-append t (group_pre_execute x ∷ a) b = is_notified-append t a b
is_notified-append t (group_post_execute x ∷ a) b = is_notified-append t a b
is_notified-append t (added_to_group x y ∷ a) b = is_notified-append t a b
is_notified-append t (task_added x y ∷ a) b = is_notified-append t a b

is_notified-told :
    (t x : ℕ) (type : ℕ → TaskType) (of_x : TaskType)
    → type x ≡ of_x
    → (x == t) ≡ false
    → is_notified t (told type x) ≡ false
unfolding is_notified told
is_notified-told t x type fire_and_forget e other = rw (e, told) refl
is_notified-told t x type waitable e other = rw (e, told) (rw other refl)

-- The tasks do not set the event of the group.
is_notified-task_events :
    (g : ℕ) (type : ℕ → TaskType) (ts : List ℕ)
    → contains ts g ≡ false
    → is_notified g (task_events type ts) ≡ false
unfolding is_notified task_events trace contains
is_notified-task_events g type [] out = refl
is_notified-task_events g type (t ∷ ts) out =
    let rest = is_notified-task_events g type ts (ground arith) in
    is_notified-append g (told type t) (task_events type ts)
    ∙ rw (is_notified-told g t type (type t) refl (ground arith), rest) refl

-- The end of a waitable group sets it.
is_notified-group_end :
    (g : ℕ) (type : ℕ → TaskType) (k : ℕ)
    → type g ≡ waitable
    → is_notified g (group_end type g k) ≡ (k == 0)
unfolding is_notified group_end told
is_notified-group_end g type zero e = rw (e, told) (rw (==_refl g) refl)
is_notified-group_end g type (suc k) e = ground arith

free-apart :
    (w : World) (g : ℕ) (ts : List ℕ) → AllMembers w g ts → contains (free w.store ts) g ≡ false
unfolding AllMembers free contains
free-apart w g [] members = refl
free-apart w g (t ∷ ts) (node, bound, other, once, members) =
    ground (arith, free-apart w g ts members)

helped_events-split :
    (type : ℕ → TaskType) (g k : ℕ) (ts : List ℕ)
    → 0 < k + length ts
    → helped_events type g k ts ≡ task_events type ts ++ group_end type g k
unfolding helped_events task_events group_end
helped_events-split type g zero [] some_left = absurd (omega arith)
helped_events-split type g (suc k) [] some_left = refl
helped_events-split type g k (t ∷ []) some_left =
    let left : k + 0 ≡ k = omega arith in
    append-nil (trace type (leaf t) ++ group_end type g (k + 0))
    ∙ ap (λ m. trace type (leaf t) ++ group_end type g m) left
    ∙ ap (λ l. l ++ group_end type g k) (sym (append-nil (trace type (leaf t))))
helped_events-split type g k (t ∷ x ∷ ts) some_left =
    let more : k + length (x ∷ ts) ≡ suc (k + length ts) = omega arith in
    let head = trace type (leaf t) in
    let rest = helped_events type g k (x ∷ ts) in
    ap (λ m. (head ++ group_end type g m) ++ rest) more
    ∙ ap (λ l. l ++ rest) (append-nil head)
    ∙ ap (λ l. head ++ l) (helped_events-split type g k (x ∷ ts) (omega arith))
    ∙ sym (append_assoc head (task_events type (x ∷ ts)) (group_end type g k))

module _ (up down k g : ℕ) (w : World) (p : ParallelGroup) where
  waited_lem :
      (w' : World)
      → w'.type g ≡ waitable
      → is_notified g w'.log ≡ (k == 0)
      → wait w' g ≡ ok (if k == 0 then returned w' else asleep w')
  unfolding wait
  waited_lem w' type told_now = rw (type, wait) (rw told_now refl)

  notified-Helped :
      w.type g ≡ waitable
      → is_notified g w.log ≡ false
      → AllMembers w g p.tasks
      → is_notified g (w.log ++ (task_events w.type (free w.store p.tasks) ++ group_end w.type g k))
        ≡ (k == 0)
  notified-Helped type quiet members =
      let own = free w.store p.tasks in
      let tasks = is_notified-task_events g w.type own (free-apart w g p.tasks members) in
      let first = is_notified-append g (task_events w.type own) (group_end w.type g k) in
      is_notified-append g w.log (task_events w.type own ++ group_end w.type g k)
      ∙ rw (quiet, first, tasks) (is_notified-group_end g w.type k type)

  active_wait_lem :
      (w' : World)
      → w.node g ≡ parallel_group p
      → help (execute up down) w p.tasks ≡ ok w'
      → active_wait up down w g ≡ wait w' g
  unfolding active_wait
  active_wait_lem w' node run = rw (node, active_wait) (rw run refl)

-- A waitable parallel group without a limit and in no group, of tasks in no other group, which has
-- not ended and waits for the tasks that no one has grabbed and for `k` others: activeWait runs the
-- tasks that no one has grabbed in their order, each once, in the calling thread, and touches neither
-- other tasks nor the scheduler. If there are no others, the group is done, with its end seen, and the
-- call returns; otherwise the group waits for the others and the call sleeps.
pub active_wait-parallel :
    (up down k g : ℕ) (w : World) (p : ParallelGroup)
    → w.node g ≡ parallel_group p
    → p.max_simultaneous_tasks ≡ 0
    → w.type g ≡ waitable
    → is_notified g w.log ≡ false
    → (w.store g).parent ≡ none
    → AllMembers w g p.tasks
    → 0 < p.active_tasks_count
    → p.active_tasks_count ≡ k + length (free w.store p.tasks)
    → (w' : World) × (active_wait (suc (suc up)) (suc down) w g
        ≡ ok (if k == 0 then returned w' else asleep w'))
      × (w'.log ≡ w.log ++ (task_events w.type (free w.store p.tasks) ++ group_end w.type g k))
      × (w'.node g ≡ waits_for p k)
      × ((x : ℕ)
          → (g == x) ≡ false
          → (w'.store x).done ≡ (contains (free w.store p.tasks) x || (w.store x).done))
      × (k ≡ 0 → (w'.store g).done ≡ true)
      × ((x : ℕ) → is_part g (free w.store p.tasks) x ≡ false → w'.store x ≡ w.store x)
      × (w'.scheduler ≡ w.scheduler)
unfolding AllDone is_part
active_wait-parallel up down k g w p node unlimited type quiet top members some_left count =
    let own = free w.store p.tasks in
    let waits : w.node g ≡ waits_for p (k + length own) = node ∙ ap (waits_for p) count in
    let (w', run, h) = help-Helped g p unlimited k p.tasks up down w members waits top in
    let log =
      h.ran.logged ∙ ap (λ l. w.log ++ l) (helped_events-split w.type g k own (omega arith)) in
    (
      w',
      active_wait_lem (suc (suc up)) (suc down) k g w p w' node run
          ∙ waited_lem up down k g w p w' (ap (λ (f : ℕ → TaskType). f g) h.ran.types ∙ type)
              (ap (is_notified g) log ∙ notified-Helped up down k g w p type quiet members),
      log,
      h.waits,
      λ x out.
          done_by (contains own x) (w.store x).done (w'.store x).done (h.all_done x)
            (λ o. ap (λ (t : Task). t.done) (h.ran.stores x (rw (out, o) refl))),
      λ z. h.group_done (omega arith) z,
      h.ran.stores,
      h.same_scheduler,
    )
