-- ===== src/Scheduling.antt =====
-- include/oqpi/scheduling: tasks, groups of tasks, workers and the scheduler.
pub mod Priority
pub mod Task
pub mod Scheduler
pub mod Groups
pub mod Workers
pub mod Contexts
pub mod Handle
pub mod Result
