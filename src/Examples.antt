-- ===== src/Examples.antt =====
-- The theorems at concrete inputs, and runs of the model.
mod Partitions
mod Queues
mod Groups
mod Sleep
mod Semaphores
mod WinSemaphores
mod Trees
mod Threads
mod WinThreads
mod Registry
mod Helpers
mod Workers
mod Wait
mod Sequences
mod Team
mod WinNames
