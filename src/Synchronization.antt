-- ===== src/Synchronization.antt =====
-- include/oqpi/synchronization: the semaphores, mutexes and events, of posix systems and of Windows.
pub mod Api
pub mod Wrapper
pub mod Naming
pub mod Moves
pub mod Deadline
pub mod Mutex
pub mod Event
pub mod EventLaws
pub mod Semaphore
pub mod WinSemaphore
pub mod WinLaws
pub mod WinEvent
pub mod WinMutex
pub mod WinNames
