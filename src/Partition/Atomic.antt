-- ===== src/Partition/Atomic.antt =====
-- atomic_partitioner.hpp: a fixed number of indices for each call of getNextValidRange.
mod Defs
mod Laws
pub mod Threads
pub mod Tiling
unfoldable pub use Defs.*
unfoldable pub use Laws.*
