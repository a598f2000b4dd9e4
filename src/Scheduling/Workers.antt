-- ===== src/Scheduling/Workers.antt =====
-- worker.hpp and scheduler.hpp: the main loop of a worker, turn by turn.
pub mod Loop
pub mod Object
pub mod Search
pub mod Turn
pub mod Drain
pub mod Chain
pub mod Sequence
