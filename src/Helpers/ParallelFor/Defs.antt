-- ===== src/Helpers/ParallelFor/Defs.antt =====
-- include/oqpi/parallel_algorithms/parallel_for.hpp: parallel_for, which schedules its group and then
-- helps with it; and the overloads of scheduling_helpers.hpp.
use oqpi.Base.{ℕ, none, some}
use oqpi.Scheduling.Priority.{TaskPriority, waitable}
use oqpi.Scheduling.Scheduler.{Outcome, ok, ◌>>=◌}
use oqpi.Scheduling.Groups.{schedule}
use oqpi.Scheduling.Groups.Wait.{Waited, returned, active_wait}
use oqpi.Partition.Range.{BasePartitioner}
use oqpi.Helpers.Defs.{Program}
use oqpi.Helpers.Batches.{make_parallel_for_task_group}

-- `up` and `down` are the depths of the groups above and below.
unfoldable pub parallel_for :
    ℕ → ℕ → Program → ℕ → ℕ → BasePartitioner → TaskPriority → Outcome Waited
unfolding make_parallel_for_task_group schedule active_wait
parallel_for up down p group_context task_context partitioner priority =
    make_parallel_for_task_group p waitable group_context task_context partitioner priority
    >>= λ made. elim (made.1) [
      | none ↦ ok (returned made.0.world)
      | some g ↦ schedule made.0.world (some g) >>= λ w. active_wait up down w g
    ]
