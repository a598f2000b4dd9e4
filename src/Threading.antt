-- ===== src/Threading.antt =====
-- include/oqpi/threading: threads of posix systems and of Windows, and the interface over both.
pub mod Attributes
pub mod Owned
pub mod Posix
pub mod Win
