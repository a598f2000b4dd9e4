-- ===== src/Scheduling/Groups.antt =====
-- task.hpp, task_group.hpp, parallel_group.hpp and sequence_group.hpp: how tasks and groups run.
mod Objects
mod Exec
pub mod Unit
pub mod Single
pub mod Done
pub mod Wait
pub mod Members
pub mod Ended
pub mod Sequel
pub mod Limit
pub mod Team
unfoldable pub use Objects.*
unfoldable pub use Exec.*
