-- ===== src/Helpers/Batches.antt =====
-- include/oqpi/parallel_algorithms/parallel_for.hpp and the overloads of scheduling_helpers.hpp: the
-- group of the batch tasks of a parallel_for. What a batch task does is in Partition/Loop.
use oqpi.Base.{ℕ, zero, suc, not, Option, none, some, if◌then◌else◌}
use oqpi.Base.Int.{pos_part}
use oqpi.Scheduling.Priority.{TaskPriority, TaskType, fire_and_forget}
use oqpi.Scheduling.Scheduler.{Outcome, ok, ◌>>=◌}
use oqpi.Scheduling.Groups.{add_task}
use oqpi.Partition.Range.{BasePartitioner, is_valid}
use oqpi.Helpers.Defs.{Program, make_task, make_parallel_group}

-- The loop over the batches: each makes a task and adds it to the group.
unfoldable pub add_batches : Program → ℕ → ℕ → TaskPriority → ℕ → Outcome Program
unfolding make_task add_task
add_batches p g task_context priority zero = ok p
add_batches p g task_context priority (suc n) =
    let (p', t) = make_task p fire_and_forget task_context priority in
    add_task p'.world g (some t) >>= λ w.
    add_batches (record p' { world = w }) g task_context priority n

-- The group, or none for a partitioner that is not valid.
unfoldable pub make_parallel_for_task_group :
    Program → TaskType → ℕ → ℕ → BasePartitioner → TaskPriority → Outcome (Program × Option ℕ)
unfolding make_parallel_group add_batches
make_parallel_for_task_group p type group_context task_context partitioner priority =
    if not (is_valid partitioner)
    then ok (p, none)
    else (make_parallel_group p type group_context priority partitioner.batch_count 0 >>= λ made.
        add_batches made.0 made.1 task_context priority (pos_part partitioner.batch_count) >>= λ p'.
        ok (p', some made.1))

-- The overload with the default contexts.
unfoldable pub make_parallel_for_task_group_default :
    ℕ → ℕ → Program → TaskType → BasePartitioner → TaskPriority → Outcome (Program × Option ℕ)
unfolding make_parallel_for_task_group
make_parallel_for_task_group_default default_group_context default_task_context p type partitioner
      priority =
    make_parallel_for_task_group p type default_group_context default_task_context partitioner
      priority
