-- ===== src/Helpers/ParallelFor.antt =====
-- include/oqpi/parallel_algorithms/parallel_for.hpp: parallel_for, through the scheduler.
mod Defs
pub mod Tasks
pub mod Made
pub mod Run
unfoldable pub use Defs.*
