-- ===== src/Scheduling/Scheduler.antt =====
-- scheduler.hpp, worker_base.hpp and worker.hpp: the queues of tasks and who works on them.
mod Defs
pub mod Queued
pub mod Pump
pub mod Add
pub mod Registry
pub mod Sleep
pub mod Wakeup
unfoldable pub use Defs.*
