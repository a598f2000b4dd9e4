-- ===== src/Examples/Wait.antt =====
-- A group of three tasks of which another thread has taken one, and a parallel_for.
use oqpi.Base.{
  ℕ, ◌+◌, ◌≡◌, ◌<◌, ◌≤◌, ◌++◌, ◌||◌, refl, true, false, some, none, [], ◌∷◌, ◌==◌, if◌then◌else◌,
  contains, arith,
}
use oqpi.Base.Int.{pos, pos_part, ◌-ℤ◌}
use oqpi.Scheduling.Priority.{normal, same_priority}
use oqpi.Scheduling.Task.{Store}
use oqpi.Scheduling.Scheduler.{ok}
use oqpi.Scheduling.Groups.{World, unit_task, parallel_group}
use oqpi.Scheduling.Groups.Single.Trees.{task_events}
use oqpi.Scheduling.Groups.Ended.{group_end, is_part}
use oqpi.Scheduling.Groups.Members.{waits_for}
use oqpi.Scheduling.Groups.Wait.{returned, asleep, is_notified, active_wait}
use oqpi.Scheduling.Groups.Wait.Loop.{AllMembers, free}
use oqpi.Scheduling.Groups.Wait.Parallel.{active_wait-parallel}
use oqpi.Partition.Range.{BasePartitioner, make_base}
use oqpi.Helpers.ParallelFor.{parallel_for}
use oqpi.Helpers.ParallelFor.Tasks.{addresses}
use oqpi.Helpers.ParallelFor.Made.{calls}
use oqpi.Helpers.ParallelFor.Run.{
  batch_group, Queued, parallel_for-returns, parallel_for-no_batches,
}
use oqpi.Examples.Groups.{idle, three}
use oqpi.Examples.Helpers.{three_made, two_batches}

-- Task 2 is grabbed already.
abbrev members : Store
members t = record {
  uid = 1;
  parent = if t == 9 then none else some 9;
  priority = normal;
  grabbed = t == 2;
  done = false;
}

abbrev shared : World
shared = record idle {
  store = members;
  node = λ t. if t == 9 then parallel_group three else unit_task;
}

active_wait-parallel_example :
    (w' : World) × (active_wait 2 1 shared 9 ≡ ok (if 1 == 0 then returned w' else asleep w'))
    × (w'.log
        ≡ shared.log
          ++ (task_events shared.type (free members (1 ∷ 2 ∷ 3 ∷ [])) ++ group_end shared.type 9 1))
    × (w'.node 9 ≡ waits_for three 1)
    × ((x : ℕ)
        → (9 == x) ≡ false
        → (w'.store x).done ≡ (contains (free members (1 ∷ 2 ∷ 3 ∷ [])) x || (members x).done))
    × (◌≡◌ {A = ℕ} 1 0 → (w'.store 9).done ≡ true)
    × ((x : ℕ) → is_part 9 (free members (1 ∷ 2 ∷ 3 ∷ [])) x ≡ false → w'.store x ≡ members x)
    × (w'.scheduler ≡ shared.scheduler)
unfolding AllMembers free contains is_notified
active_wait-parallel_example =
    active_wait-parallel 0 0 1 9 shared three refl refl refl refl refl
      (refl, refl, refl, refl, (refl, refl, refl, refl, (refl, refl, refl, refl, tt))) (omega arith)
      refl

parallel_for-returns_example :
    (w : World) × (parallel_for 2 1 three_made 0 0 two_batches normal ≡ ok (returned w))
    × (calls w.log ≡ calls three_made.world.log ++ addresses 4 (pos_part two_batches.batch_count))
    × ((x : ℕ) → 3 ≤ x → x ≤ 3 + pos_part two_batches.batch_count → (w.store x).done ≡ true)
    × ((x : ℕ) → x < 3 → w.store x ≡ three_made.world.store x)
    × Queued normal 3 three_made.world.scheduler w.scheduler
unfolding same_priority is_notified ◌-ℤ◌
parallel_for-returns_example =
    parallel_for-returns 0 0 three_made 0 0 two_batches normal refl (omega arith) refl (omega arith)
      refl

-- As for a priority that no worker works on.
abbrev without_batches : BasePartitioner
without_batches = make_base (pos 0) (pos 3) (pos 0)

parallel_for-no_batches_example :
    (w : World) × (parallel_for 2 1 three_made 0 0 without_batches normal ≡ ok (asleep w))
    × (w.node 3 ≡ parallel_group (batch_group 3 0))
unfolding same_priority is_notified ◌-ℤ◌
parallel_for-no_batches_example =
    parallel_for-no_batches 2 1 three_made 0 0 without_batches normal refl refl refl (omega arith)
      refl
