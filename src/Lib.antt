-- ===== src/Lib.antt =====
-- oqpi, a header-only C++ library for tasks that run on all cores: a model of its core, and theorems.
--
-- The program. A scheduler (include/oqpi/scheduling/scheduler.hpp) has one queue of tasks for each
-- priority and a set of workers (worker_base.hpp, worker.hpp), each a thread with a semaphore. `add`
-- puts a task into the queue of its priority and wakes the workers that may work on it; a worker
-- takes tasks by `waitForNextTask` and executes them. Tasks (task_base.hpp, task.hpp) are bound into
-- groups that run their tasks side by side (parallel_group.hpp) or one after the other
-- (sequence_group.hpp), and a task that ends tells its group (task_group_base.hpp). `parallel_for`
-- (include/oqpi/parallel_algorithms/parallel_for.hpp) makes such a group of batches, which take ranges
-- of indices from a shared partitioner. Semaphores, mutexes and events
-- (include/oqpi/synchronization) are classes over the system's own, and so are threads
-- (include/oqpi/threading). Programs mostly call the functions of scheduling_helpers.hpp.
--
-- The files.
--   Base: the names and lemmas that all share; Base/Int has int32_t as an integer without bounds,
--     and Base/Runs sequences of operations and when two components answer alike.
--   Partition: the partitioners. Range (base_partitioner.hpp), Simple (simple_partitioner.hpp), Atomic
--     (atomic_partitioner.hpp), Source (what the loop wants of a partitioner) and Loop (the batches of
--     parallel_for.hpp, as turns that the tasks take in any order). Each `get_next_valid_range` is
--     `getNextValidRange`: the partitioner afterwards and the range, if there is one. In
--     Atomic/Threads the load and the compare-exchange are steps of their own, of any number of
--     threads. Coverage joins the loop with the two partitioners.
--   Scheduling/Priority (task_type.hpp and the compatibility of worker_base.hpp), Scheduling/Task
--     (task_base.hpp: a store of objects by number; a handle is the number of an object or none) and
--     Scheduling/Scheduler: Defs has the workers and the scheduler with registration, `start`,
--     `stop`, `isIdle`, `add`, `resolveTaskPriority` and the waking of workers, and Pump the search of
--     `waitForNextTask` for a task. Sleep is the loop of `waitForNextTask` as steps of one worker
--     among the steps of all others, who push to a queue and notify the worker later, pop, grab,
--     finish or stop the scheduler; Wakeup is what holds then.
--   Scheduling/Groups: Objects has the objects of groups and `task::invoke`, Exec `execute` and
--     `oneTaskDone` of tasks and groups and `notifyParent`, and Done what the end of tasks does to a
--     parallel group. The function of a task and the functions of contexts are entries of a log.
--     Groups/Single is executeSingleThreaded, for a tree of groups within groups: Trees has the
--     trees, Ran what a part of a run leaves alone, and Laws, Run and All the run of all of it.
--     Groups/Wait is `wait` and `activeWait`, in the thread that calls them, with Unit, Members and
--     Ended for the run of one task of a parallel group, Sequel for that of one of a sequence, and
--     Limit is about the limit of a parallel group. Groups/Team is many threads at one group, in
--     atomic steps.
--   Scheduling/Scheduler/Registry: the calls of the scheduler in any order, and its counters.
--   Scheduling/Workers: Loop is the main loop of a worker (worker.hpp) with `signalAvailableWorker`, in
--     turns that end before the worker would sleep; Search is what it finds in the queues, Turn one
--     turn and Drain as many as there are tasks; Chain and Sequence are the turns with a sequence.
--   Scheduling/Handle: task_handle.hpp. Scheduling/Result: the results and the moves of tasks.
--     Workers/Object: the other operations of a worker object.
--   Scheduling/Contexts: context_container.hpp.
--   Synchronization: Api is semaphore.h, a record of functions with the laws that its manual states,
--     and Wrapper posix_semaphore_wrapper.hpp, of which Naming, Moves and Deadline prove the laws.
--     Mutex, Event, EventLaws and Semaphore are posix_mutex.hpp, posix_event.hpp and
--     posix_semaphore.hpp. WinSemaphore and WinLaws are win/win_semaphore.hpp, WinEvent is
--     win/win_event.hpp and WinMutex win/win_mutex.hpp, each over a record of functions of the
--     Windows API, and WinNames is about the constructors of the last two.
--   Threading: Attributes is thread_attributes.hpp. Posix/Defs is posix_thread.hpp over a record of
--     functions of pthread.h, Posix/Objects interface_thread.hpp over it, for thread objects at
--     addresses, and Posix/ThisThread what a thread does with itself; Posix/Ownership, Posix/Steps and
--     Owned are about who holds which thread, and Posix/Priority about priorities. Win/Defs is
--     win_thread.hpp over a record of functions of the Windows API, with Win/Affinity, Win/Priority
--     and Win/ThisThread. Base/Float has the single-precision numbers of the priorities.
--   Helpers: Defs is scheduling_helpers.hpp, each overload a function of its own; Bound and Groups
--     are about sequence_tasks and fork_tasks, and Each about parallel_for_each. Batches makes the
--     group of a parallel_for, as parallel_for.hpp does. ParallelFor is
--     parallel_for itself, with Tasks and Made for its batch tasks and Run for the whole call.
--     Overloads has its other overloads.
--   ErrorHandling: error_handling.hpp, what a failed check does. ConcurrentQueue: concurrent_queue.hpp.
--   Examples: the theorems at concrete inputs.
--
-- How it is modelled. A function that changes an object returns the object as it is afterwards.
-- Where the code would call through a null pointer, overflow a counter of workers or throw
-- std::length_error, the result is `fault`. Whether OQPI_ENABLE_CHECKS
-- is set is an argument (`Build`), as the macro oqpi_ensure tests its condition only then. Messages
-- are left out, and where a failed oqpi_check stops the program the result is `fault` too, while after a
-- failed oqpi_ensure, with what it reports, the code goes on. The groups
-- and the scheduler run one call at a time, and so do the semaphores, where
-- a call that has to wait is one that has not returned yet; the functions of a mutex or an event are
-- one step each, also those that make several calls.
--
-- Bounds and fuel. An int32_t of the partitioners is an integer without bounds, also the number of
-- workers that they are made with; a size that is cast to int32_t is cut to 32 bits. For the simple
-- partitioner Simple/Bounds shows that no value leaves the range of the arguments. The counter of a
-- parallel group wraps around at 2 ^ 64. `resolve_task_priority` and what runs up or down a tree of
-- groups have fuel for the depth of the tree, and `spent` is that it does not suffice: a chain of
-- groups that each rank above their parent needs no more than the rank, as Add shows. The loop
-- of `get_core_affinity_mask` on Windows has 65 turns, one more than the shifts that its mask
-- survives. The loop of `reset` is given as many turns as the semaphore counts, and its theorem shows
-- that they do. `execute_single_threaded` has a depth, and its theorem shows that the levels of the
-- tree are enough.
--
-- Not modelled: several workers in turns beyond Sleep and Team, the join of a worker, the function
-- that a thread runs, and the time that passes while something waits.
pub mod Base
pub mod Partition
pub mod Scheduling
pub mod Synchronization
pub mod Threading
pub mod Helpers
pub mod ErrorHandling
pub mod ConcurrentQueue
mod Examples
