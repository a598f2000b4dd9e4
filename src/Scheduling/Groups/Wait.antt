-- ===== src/Scheduling/Groups/Wait.antt =====
-- task.hpp, task_group.hpp, parallel_group.hpp and task_notifier.hpp: `wait` and `activeWait`.
mod Defs
pub mod Loop
pub mod All
pub mod Parallel
unfoldable pub use Defs.*
