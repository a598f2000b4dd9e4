-- ===== src/Scheduling/Groups/Team.antt =====
-- task.hpp and parallel_group.hpp: many threads at the tasks of one group.
mod Defs
pub mod Invariant
pub mod Once
unfoldable pub use Defs.*
