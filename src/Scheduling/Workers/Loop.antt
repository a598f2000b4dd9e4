-- ===== src/Scheduling/Workers/Loop.antt =====
-- worker.hpp and scheduler.hpp: `run` of a worker and `signalAvailableWorker`. A turn is a round of the
-- loop of `run`; it ends before the worker would sleep.
use oqpi.Base.{ℕ, zero, suc, Bool, false, not, none, some, List, [], ◌∷◌, ◌++◌, if◌then◌else◌}
use oqpi.Scheduling.Priority.{WorkerPriority}
use oqpi.Scheduling.Task.{Handle}
use oqpi.Scheduling.Scheduler.{ensure, Outcome, ok, fault, spent, ◌>>=◌}
use oqpi.Scheduling.Scheduler.Pump.{pump_task}
use oqpi.Scheduling.Groups.{World, execute}

-- The calls of the worker's context.
pub data WorkerEvent : Type 0 where
  worker_start worker_idle worker_active worker_stop : WorkerEvent
  worker_pre_execute worker_post_execute : ℕ → WorkerEvent

-- `task` is hTask_; `running` is running_, of the worker.
pub record WorkerRun : Type 0 where
  pub world : World
  pub seen : List WorkerEvent
  pub running : Bool
  pub task : Handle

-- Where `signalAvailableWorker` leaves the worker: with a task, without one since the scheduler has
-- stopped, or asleep in `wait`.
pub data Asked : Type 0 where
  assigned : World → ℕ → Asked
  stopped asleep : World → Asked

-- `pumpTask` as a change of the world: whether to stop waiting, and the task.
unfoldable pub pump_world : WorkerPriority → World → World × Bool × Handle
unfolding pump_task
pump_world priority w =
    let answer = pump_task priority w.store w.scheduler in
    (
      record w {
        store = answer.pumped.store;
        scheduler = record w.scheduler { pending = answer.pumped.queues };
      },
      answer.stop_waiting,
      answer.pumped.found,
    )

-- What `signalAvailableWorker` does with the answer; `again` is the next round. Without checks an
-- invalid handle is asked whether it is done.
unfoldable pub receive : Outcome Asked → World × Bool × Handle → Outcome Asked
receive again (w, stop_waiting, found) =
    if not stop_waiting
    then ok (asleep w)
    else if not w.scheduler.running
    then ok (stopped w)
    else elim found [
      | none ↦ if ensure w.build false then fault else again
      | some t ↦
          if ensure w.build (w.store t).grabbed
          then (if not (w.store t).done then ok (assigned w t) else again)
          else again
    ]

-- The loop of `signalAvailableWorker`, each round with one call of `waitForNextTask` that returns
-- without sleeping.
unfoldable pub signal_available_worker : ℕ → WorkerPriority → World → Outcome Asked
unfolding pump_world receive
signal_available_worker zero priority w = spent
signal_available_worker (suc rounds) priority w =
    receive (signal_available_worker rounds priority (pump_world priority w).0)
      (pump_world priority w)

-- What a turn comes to: the next one, the sleep of the worker, or the end of `run`.
pub data Turned : Type 0 where
  next_turn sleeping finished : WorkerRun → Turned

unfoldable pub see : WorkerRun → WorkerEvent → WorkerRun
see r e = record r { seen = r.seen ++ e ∷ [] }

-- `hTask_.execute()` between the calls of the context, and the reset of the handle.
unfoldable pub work_on : (World → ℕ → Outcome World) → WorkerRun → ℕ → Outcome Turned
unfolding see
work_on execute_task r t = execute_task r.world t >>= λ w. ok (
    next_turn (
      see (record (see r (worker_pre_execute t)) { world = w; task = none })
        (worker_post_execute t)))

-- The rest of a round, from the answer of `signalAvailableWorker` on. Where the scheduler has stopped
-- and the worker has not, oqpi_check stops the program; without checks the worker executes an invalid
-- handle.
unfoldable pub act : (World → ℕ → Outcome World) → WorkerRun → Asked → Outcome Turned
unfolding work_on see
act execute_task idle (asleep w) = ok (sleeping (record idle { world = w }))
act execute_task idle (stopped w) = fault
act execute_task idle (assigned w t) =
    work_on execute_task (see (record idle { world = w; task = some t }) worker_active) t

-- A round of the loop; `up` and `down` are the depths of the groups of the task.
unfoldable pub worker_turn : ℕ → ℕ → ℕ → WorkerPriority → WorkerRun → Outcome Turned
unfolding signal_available_worker act see execute
worker_turn rounds up down priority r =
    if not r.running
    then ok (finished (see (record r { task = none }) worker_stop))
    else (signal_available_worker rounds priority r.world
        >>= act (execute up down) (see r worker_idle))

-- So many turns, unless the worker sleeps or ends before.
unfoldable pub worker_turns : ℕ → ℕ → ℕ → ℕ → WorkerPriority → WorkerRun → Outcome Turned
unfolding worker_turn
worker_turns zero rounds up down priority r = ok (next_turn r)
worker_turns (suc n) rounds up down priority r = worker_turn rounds up down priority r >>= λ turned.
    elim turned [
      | next_turn r' ↦ worker_turns n rounds up down priority r'
      | sleeping r' ↦ ok (sleeping r')
      | finished r' ↦ ok (finished r')
    ]
