-- ===== src/Helpers/Overloads.antt =====
-- include/oqpi/scheduling_helpers.hpp: the overloads of parallel_for and parallel_for_each, as they go
-- through the scheduler. The function and the container are in what the batch tasks do; a function
-- of the elements is called with an index, as Each has it.
use oqpi.Base.{ℕ, none, some}
use oqpi.Base.Int.{ℤ, pos}
use oqpi.Scheduling.Priority.{TaskPriority}
use oqpi.Scheduling.Scheduler.{Outcome, fault}
use oqpi.Scheduling.Groups.Wait.{Waited}
use oqpi.Partition.Range.{BasePartitioner}
use oqpi.Helpers.Defs.{Program, default_priority}
use oqpi.Helpers.Each.{range_partitioner}
use oqpi.Helpers.ParallelFor.{parallel_for}

-- A range of indices, with a batch for each worker; a fault where the partitioner divides by zero.
unfoldable pub parallel_for_indices : ℕ → ℕ → Program → ℕ → ℕ → ℤ → ℤ → Outcome Waited
unfolding range_partitioner parallel_for
parallel_for_indices up down p group_context task_context first last =
    elim (range_partitioner p.world.scheduler first last) [
      | none ↦ fault
      | some s ↦ parallel_for up down p group_context task_context s.base default_priority
    ]

-- The indices from 0 on.
unfoldable pub parallel_for_count : ℕ → ℕ → Program → ℕ → ℕ → ℤ → Outcome Waited
unfolding parallel_for_indices
parallel_for_count up down p group_context task_context count =
    parallel_for_indices up down p group_context task_context (pos 0) count

-- The elements of a container, by a partitioner of the caller.
unfoldable pub parallel_for_each_in :
    ℕ → ℕ → Program → ℕ → ℕ → BasePartitioner → TaskPriority → Outcome Waited
unfolding parallel_for
parallel_for_each_in up down p group_context task_context partitioner priority =
    parallel_for up down p group_context task_context partitioner priority

module _ (default_group_context default_task_context : ℕ) where
  unfoldable pub parallel_for_default :
      ℕ → ℕ → Program → BasePartitioner → TaskPriority → Outcome Waited
  unfolding parallel_for
  parallel_for_default up down p partitioner priority =
      parallel_for up down p default_group_context default_task_context partitioner priority

  unfoldable pub parallel_for_indices_default : ℕ → ℕ → Program → ℤ → ℤ → Outcome Waited
  unfolding parallel_for_indices
  parallel_for_indices_default up down p first last =
      parallel_for_indices up down p default_group_context default_task_context first last

  unfoldable pub parallel_for_count_default : ℕ → ℕ → Program → ℤ → Outcome Waited
  unfolding parallel_for_indices_default
  parallel_for_count_default up down p count = parallel_for_indices_default up down p (pos 0) count

  unfoldable pub parallel_for_each_default :
      ℕ → ℕ → Program → BasePartitioner → TaskPriority → Outcome Waited
  unfolding parallel_for_each_in
  parallel_for_each_default up down p partitioner priority =
      parallel_for_each_in up down p default_group_context default_task_context partitioner priority
