-- ===== src/Partition.antt =====
-- include/oqpi/parallel_algorithms: how a range of indices is cut into batches and handed out to
-- the tasks of a parallel_for.
pub mod Range
pub mod Simple
pub mod Atomic
pub mod Source
pub mod Loop
pub mod Coverage
