-- ===== src/Examples/Groups.antt =====
-- A waitable parallel group of three tasks, and contexts that write their number down.
use oqpi.Base.{List, ℕ, ◌≡◌, refl, true, false, none, [], ◌∷◌, ◌++◌}
use oqpi.Scheduling.Priority.{normal, waitable}
use oqpi.Scheduling.Task.{Store}
use oqpi.Scheduling.Scheduler.{checked, ok}
use oqpi.Scheduling.Contexts.{Context}
use oqpi.Scheduling.Groups.{ParallelGroup, unit_task, World, notify_parent}
use oqpi.Scheduling.Groups.Done.{tasks_done, waiting_for, finished, tasks_done-parallel}

abbrev pub fresh : Store
fresh t = record { uid = 1; parent = none; priority = normal; grabbed = false; done = false }

abbrev pub three : ParallelGroup
three = record {
  active_tasks_count = 3;
  tasks = 1 ∷ 2 ∷ 3 ∷ [];
  max_simultaneous_tasks = 0;
  current_task_index = 1;
}

abbrev pub idle : World
idle = record {
  build = checked;
  store = fresh;
  node = λ t. unit_task;
  type = λ t. waitable;
  scheduler = record { workers = []; workers_per_prio = []; pending = []; running = true };
  add_fuel = 3;
  log = [];
}

tasks_done-parallel_example :
    (tasks_done (notify_parent 1) 2 (waiting_for idle 9 three 3) 9
      ≡ ok (waiting_for idle 9 three 1))
    × (tasks_done (notify_parent 1) 3 (waiting_for idle 9 three 3) 9
        ≡ ok (finished (waiting_for idle 9 three 0) 9))
tasks_done-parallel_example = tasks_done-parallel 0 9 three idle 2 refl refl

abbrev writer : ℕ → Context ℕ (List ℕ)
writer n hook written = written ++ n ∷ []
