-- ===== src/Threading/Win.antt =====
-- include/oqpi/threading/win_thread.hpp.
pub mod Defs
pub mod Affinity
pub mod Priority
pub mod ThisThread
