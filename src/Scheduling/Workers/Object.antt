-- ===== src/Scheduling/Workers/Object.antt =====
-- worker_base.hpp and worker.hpp: the operations of a worker object besides its main loop.
use oqpi.Base.{ℕ, zero, suc, Bool, true, false, not, Option, none, some, if◌then◌else◌}
use oqpi.Base.Int.{pos, negsuc}
use oqpi.Scheduling.Task.{Handle, is_valid}
use oqpi.Scheduling.Scheduler.{Build, ensure, Outcome, ok, fault, Worker, stop_worker}

-- isAvailable
unfoldable pub is_available : Worker → Bool
is_available w = not (is_valid w.task)

-- `assign`; with checks a task for a busy worker stops the program.
unfoldable pub assign : Build → Worker → Handle → Outcome Worker
unfolding is_available
assign build w h = if ensure build (is_available w) then ok (record w { task = h }) else fault

-- The suffix that getName puts behind the name of the configuration.
unfoldable pub name_suffix : Worker → Option ℕ
name_suffix w = elim (w.id) [ pos n ↦ some n | negsuc n ↦ none ]

-- `wait` and `tryWait`, which take a token of the worker's semaphore; none where the caller sleeps.
unfoldable pub wait_worker : Worker → Option Worker
wait_worker w = elim (w.tokens) [ zero ↦ none | suc n ↦ some (record w { tokens = n }) ]

unfoldable pub try_wait_worker : Worker → Worker × Bool
try_wait_worker w = elim (w.tokens) [ zero ↦ (w, false) | suc n ↦ (record w { tokens = n }, true) ]

-- The destructor.
unfoldable pub destroy_worker : Worker → Worker
unfolding stop_worker
destroy_worker w = stop_worker w
