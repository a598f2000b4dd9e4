-- ===== src/Scheduling/Groups/Wait/Loop.antt =====
-- parallel_group.hpp: the loop of `activeWait` over the tasks of a group without a limit.
use oqpi.Base.{
  ℕ, suc, ◌≡◌, ap, ◌∙◌, false, none, some, List, [], ◌∷◌, ◌++◌, if◌then◌else◌, arith, ◌==◌,
  contains,
}
use oqpi.Scheduling.Task.{Store}
use oqpi.Scheduling.Scheduler.{ok}
use oqpi.Scheduling.Groups.Objects.{ParallelGroup, Node, unit_task, World, invoke}
use oqpi.Scheduling.Groups.Exec.{grab_and, execute}
use oqpi.Scheduling.Groups.Single.{grab}
use oqpi.Scheduling.Groups.Single.Ran.{Ran-trans, Ran-widen, only}
use oqpi.Scheduling.Groups.Single.Trees.{leaf, trace}
use oqpi.Scheduling.Groups.Single.Laws.{grab-Ran}
use oqpi.Scheduling.Groups.Unit.{invoked-parent, invoked-node, grabbed-grab, parent-grab, grab_lem}
use oqpi.Scheduling.Groups.Members.{waits_for, unparented, counted, execute-member}
use oqpi.Scheduling.Groups.Ended.{group_end, is_part, Ended, member-Ended}

-- The tasks belong to the group, and each is named once.
unfoldable pub AllMembers : World → ℕ → List ℕ → Type 0
unfolding contains
AllMembers w g [] = Unit {0}
AllMembers w g (t ∷ ts) =
    (w.node t ≡ unit_task)
    × ((w.store t).parent ≡ some g)
    × ((g == t) ≡ false)
    × (contains ts t ≡ false)
    × AllMembers w g ts

-- The tasks that no one has grabbed.
unfoldable pub free : Store → List ℕ → List ℕ
free s [] = []
free s (t ∷ ts) = if (s t).grabbed then free s ts else t ∷ free s ts

-- A task of the group that no one has grabbed runs.
module _ (g : ℕ) (p : ParallelGroup) (unlimited : p.max_simultaneous_tasks ≡ 0) where
  Ended-grab :
      (t n : ℕ) (w w' : World)
      → (w.store t).grabbed ≡ false
      → Ended g t p n (grab w t) w'
      → Ended g t p n w w'
  unfolding grab is_part contains
  Ended-grab t n w w' open_t e =
      let first = grab-Ran w t open_t in
      record {
        ran =
            Ran-trans (is_part g (t ∷ [])) [] (trace w.type (leaf t) ++ group_end w.type g n) w
              (grab w t) w'
              (Ran-widen (only t) (is_part g (t ∷ [])) [] w (grab w t) (λ x out. ground arith)
                first)
              e.ran;
        waits = e.waits;
        task_done = e.task_done;
        top = e.top;
        group_done = e.group_done;
        others = e.others;
        same_scheduler = e.same_scheduler;
      }

  pub member_runs :
      (up down : ℕ) (w : World) (t n : ℕ)
      → (w.store t).grabbed ≡ false
      → w.node t ≡ unit_task
      → (w.store t).parent ≡ some g
      → (g == t) ≡ false
      → w.node g ≡ waits_for p (suc n)
      → (w.store g).parent ≡ none
      → (w' : World) × (grab_and (execute (suc (suc up)) (suc down)) w t ≡ ok w')
        × Ended g t p n w w'
  unfolding grab
  member_runs up down w t n open_t node bound other waits top =
      let w₁ = grab w t in
      let top₁ = parent-grab w t g open_t ∙ top in
      (
        unparented (counted (invoke w₁ t) g p n) t,
        grab_lem (execute (suc (suc up)) (suc down)) w t open_t
            ∙ execute-member g p unlimited up down w₁ t n node (grabbed-grab w t open_t)
                (parent-grab w t t open_t ∙ bound)
                (ap (λ (f : ℕ → Node). f g) (invoked-node w₁ t) ∙ waits)
                (invoked-parent w₁ t g ∙ top₁),
        Ended-grab t n w _ open_t (member-Ended g t p n w₁ other top₁),
      )
