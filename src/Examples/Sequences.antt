-- ===== src/Examples/Sequences.antt =====
-- A sequence of three tasks of different priorities, and a group with a limit.
use oqpi.Base.{
  contains, ℕ, suc, ◌+◌, ◌≤◌, ◌<◌, ◌≡◌, refl, ◌||◌, true, false, none, some, [], ◌∷◌, ◌++◌, length,
  arith, if◌then◌else◌, ◌==◌,
}
use oqpi.Scheduling.Priority.{high, normal, low, waitable, wprio_any, same_priority}
use oqpi.Scheduling.Task.{is_open}
use oqpi.Scheduling.Scheduler.{checked, ok, ◌>>=◌}
use oqpi.Scheduling.Scheduler.Queued.{queued}
use oqpi.Scheduling.Groups.{
  ParallelGroup, unit_task, sequence_group, parallel_group, World, group_pre_execute,
  group_post_execute, from, set_node, fork, grab_and, execute,
}
use oqpi.Scheduling.Groups.Single.Ran.{told}
use oqpi.Scheduling.Groups.Single.Trees.{task_events}
use oqpi.Scheduling.Groups.Ended.{is_part}
use oqpi.Scheduling.Groups.Limit.{schedule_all, added, AllOpen, fork-adds}
use oqpi.Scheduling.Workers.Loop.{WorkerRun, next_turn, worker_turns}
use oqpi.Scheduling.Workers.Chain.{AllQueued}
use oqpi.Scheduling.Workers.Sequence.{worker_turns-sequence}

abbrev in_sequence : World
in_sequence = record {
  build = checked;
  store = λ t. record {
    uid = suc t;
    parent = if t == 9 then none else some 9;
    priority = if t == 1 then high else if t == 2 then low else normal;
    grabbed = false;
    done = false;
  };
  node = λ t. if t == 9 then sequence_group (1 ∷ 2 ∷ 3 ∷ []) else unit_task;
  type = λ t. waitable;
  scheduler = record {
    workers = [];
    workers_per_prio = [];
    pending = [] ∷ [] ∷ (9 ∷ []) ∷ [] ∷ [] ∷ [];
    running = true;
  };
  add_fuel = 3;
  log = [];
}

abbrev alone : WorkerRun
alone = record { world = in_sequence; seen = []; running = true; task = none }

worker_turns-sequence_example :
    (r' : WorkerRun) × (worker_turns 3 1 2 2 wprio_any alone ≡ ok (next_turn r'))
    × (queued r'.world.scheduler.pending ≡ [])
    × (r'.world.node 9 ≡ sequence_group [])
    × (r'.world.log
        ≡ []
          ++ group_pre_execute 9
            ∷ (task_events (λ t. waitable) (1 ∷ 2 ∷ 3 ∷ [])
                ++ (group_post_execute 9 ∷ told (λ t. waitable) 9)))
    × ((x : ℕ)
        → (r'.world.store x).done ≡ (is_part 9 (1 ∷ 2 ∷ 3 ∷ []) x || (in_sequence.store x).done))
unfolding queued AllQueued contains same_priority
worker_turns-sequence_example =
    worker_turns-sequence 0 0 0 9 1 (2 ∷ 3 ∷ []) alone refl refl refl refl refl refl refl (
      refl,
      refl,
      refl,
      refl,
      omega arith,
      refl,
      refl,
      (
        refl,
        refl,
        refl,
        refl,
        omega arith,
        refl,
        refl,
        (refl, refl, refl, refl, omega arith, refl, refl, tt),
      ),
    )

-- One at a time.
abbrev single_file : ParallelGroup
single_file = record {
  active_tasks_count = 3;
  tasks = 1 ∷ 2 ∷ 3 ∷ [];
  max_simultaneous_tasks = 1;
  current_task_index = 1;
}

fork-adds_example :
    ((index : ℕ) × (fork (execute 1 1) in_sequence 9 single_file ≡ (
        schedule_all in_sequence (added 1 (2 ∷ 3 ∷ [])) >>= λ w'.
        grab_and
          (execute 1 1)
          (set_node w' 9 (parallel_group (record single_file { current_task_index = index })))
          1))
      × (added 1 (2 ∷ 3 ∷ []) ++ from index (1 ∷ 2 ∷ 3 ∷ []) ≡ 2 ∷ 3 ∷ []))
    × (◌≡◌ {A = ℕ} 1 0 → added 1 (2 ∷ 3 ∷ []) ≡ 2 ∷ 3 ∷ [])
    × (2 ≤ 1 → length (added 1 (2 ∷ 3 ∷ [])) + 1 ≤ 1)
    × (◌≡◌ {A = ℕ} 1 1 → 0 < 2 → length (added 1 (2 ∷ 3 ∷ [])) + 1 ≡ 2)
unfolding AllOpen is_open
fork-adds_example =
    fork-adds (execute 1 1) in_sequence 9 single_file 1 (2 ∷ 3 ∷ []) refl refl (refl, (refl, tt))
