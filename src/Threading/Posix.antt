-- ===== src/Threading/Posix.antt =====
-- include/oqpi/threading/posix_thread.hpp and interface_thread.hpp.
pub mod Defs
pub mod Priority
pub mod Objects
pub mod Ownership
pub mod Steps
pub mod ThisThread
