-- ===== src/Partition/Simple.antt =====
-- simple_partitioner.hpp: one batch of nearly equal size for each call of getNextValidRange.
mod Defs
mod Laws
pub mod Bounds
unfoldable pub use Defs.*
unfoldable pub use Laws.*
