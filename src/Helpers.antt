-- ===== src/Helpers.antt =====
-- include/oqpi/scheduling_helpers.hpp: the functions by which a program makes and schedules tasks.
pub mod Defs
pub mod Bound
pub mod Groups
pub mod Each
pub mod Batches
pub mod ParallelFor
pub mod Overloads
