-- ===== src/Examples/Workers.antt =====
-- A worker on a high and two normal tasks.
use oqpi.Base.{contains, ℕ, suc, ◌≡◌, refl, ◌||◌, true, false, none, [], ◌∷◌, ◌++◌, arith}
use oqpi.Scheduling.Priority.{normal, fire_and_forget, wprio_any}
use oqpi.Scheduling.Scheduler.{checked, ok}
use oqpi.Scheduling.Groups.{unit_task, World}
use oqpi.Scheduling.Workers.Loop.{WorkerRun, next_turn, worker_turns}
use oqpi.Scheduling.Scheduler.Queued.{queued}
use oqpi.Scheduling.Groups.Single.Trees.{task_events}
use oqpi.Scheduling.Workers.Drain.{AllReady, turn_events, worker_turns-queued}

abbrev waiting_tasks : World
waiting_tasks = record {
  build = checked;
  store =
      λ t. record { uid = suc t; parent = none; priority = normal; grabbed = false; done = false };
  node = λ t. unit_task;
  type = λ t. fire_and_forget;
  scheduler = record {
    workers = [];
    workers_per_prio = [];
    pending = (4 ∷ []) ∷ [] ∷ (2 ∷ 7 ∷ []) ∷ [] ∷ [] ∷ [];
    running = true;
  };
  add_fuel = 3;
  log = [];
}

abbrev awake : WorkerRun
awake = record { world = waiting_tasks; seen = []; running = true; task = none }

waiting_tasks-AllReady : AllReady waiting_tasks (queued waiting_tasks.scheduler.pending)
unfolding AllReady queued contains
waiting_tasks-AllReady =
    (refl, refl, refl, refl, (refl, refl, refl, refl, (refl, refl, refl, refl, tt)))

worker_turns-queued_example :
    (r' : WorkerRun) × (worker_turns 3 1 1 1 wprio_any awake ≡ ok (next_turn r'))
    × (queued r'.world.scheduler.pending ≡ [])
    × (r'.world.log ≡ [] ++ task_events (λ t. fire_and_forget) (4 ∷ 2 ∷ 7 ∷ []))
    × (r'.seen ≡ [] ++ turn_events (4 ∷ 2 ∷ 7 ∷ []))
    × ((x : ℕ)
        → (r'.world.store x).done ≡ (contains (4 ∷ 2 ∷ 7 ∷ []) x || (waiting_tasks.store x).done))
unfolding queued
worker_turns-queued_example =
    worker_turns-queued 0 0 0 awake refl refl (omega arith) waiting_tasks-AllReady
