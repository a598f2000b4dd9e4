-- ===== src/Scheduling/Scheduler/Pump.antt =====
-- scheduler.hpp: how waitForNextTask takes a task off the queues.
mod Defs
mod Laws
unfoldable pub use Defs.*
pub use Laws.*
