-- ===== src/Examples/Helpers.antt =====
-- A program with three tasks and a scheduler of two workers for any priority.
use oqpi.Base.{
  contains, ℕ, suc, ◌≤◌, ◌≡◌, ◌⊎◌, refl, true, false, none, some, List, [], ◌∷◌, map, arith,
}
use oqpi.Scheduling.Priority.{
  high, normal, waitable, wprio_any, same_priority, can_work_on_priority,
}
use oqpi.Scheduling.Scheduler.{
  checked, ok, Scheduler, make_scheduler, register_worker, start, count_workers, workers_count,
  WorkerConfig, make_worker, start_worker, all_int32, all_staffed, new_workers, ◌>>=◌,
}
use oqpi.Scheduling.Groups.{unit_task, sequence_group}
use oqpi.Base.Int.{pos, ◌+ℤ◌}
use oqpi.Partition.Range.{make_base, BasePartitioner}
use oqpi.Partition.Loop.{Loop, elements, turns}
use oqpi.Partition.Simple.{SimplePartitioner}
use oqpi.Helpers.Defs.{Program, sequence_tasks}
use oqpi.Helpers.Bound.{Unbound}
use oqpi.Helpers.Groups.{Scheduled, sequence_tasks-Scheduled}
use oqpi.Helpers.Each.{parallel_for_each, each, parallel_for_each-elements}

abbrev pub roamers : WorkerConfig
roamers = record { worker_prio = wprio_any; count = pos 2 }

abbrev pub team : Scheduler
team = record {
  workers = map start_worker (make_worker 0 roamers ∷ make_worker 1 roamers ∷ []);
  workers_per_prio = pos 2 ∷ pos 2 ∷ pos 2 ∷ pos 2 ∷ pos 2 ∷ [];
  pending = [] ∷ [] ∷ [] ∷ [] ∷ [] ∷ [];
  running = true;
}

team-started : (register_worker make_scheduler roamers >>= start checked) ≡ ok team
unfolding register_worker start make_scheduler count_workers all_int32 all_staffed ◌+ℤ◌ new_workers
    can_work_on_priority
team-started = refl

abbrev pub three_made : Program
three_made = record {
  world = record {
    build = checked;
    store = λ t. record {
      uid = suc t;
      parent = none;
      priority = normal;
      grabbed = false;
      done = false;
    };
    node = λ t. unit_task;
    type = λ t. waitable;
    scheduler = team;
    add_fuel = 3;
    log = [];
  };
  next = 3;
  uid_generator = 4;
  context = λ t. 0;
}

abbrev the_three : List ℕ
the_three = 0 ∷ 1 ∷ 2 ∷ []

the_three-Unbound : Unbound three_made.world.store the_three
unfolding Unbound contains
the_three-Unbound = (refl, refl, (refl, refl, (refl, refl, tt)))

sequence_tasks-Scheduled_example :
    (p' : Program) × (sequence_tasks three_made waitable 0 high the_three ≡ ok (p', some 3))
    × Scheduled three_made high the_three (sequence_group the_three) p'
unfolding contains same_priority
sequence_tasks-Scheduled_example =
    sequence_tasks-Scheduled three_made waitable 0 high the_three the_three-Unbound refl refl
      (omega arith)

abbrev letters : List ℕ
letters = 97 ∷ 98 ∷ 99 ∷ []

abbrev both_tasks : List ℕ
both_tasks = 1 ∷ 0 ∷ 0 ∷ []

parallel_for_each-elements_example :
    (l : Loop SimplePartitioner) × (parallel_for_each team 4 letters both_tasks ≡ some l)
    × ((b : ℕ) → (l.running b ≡ true) ⊎ (each letters (elements l.calls) ≡ map some letters))
    × ((b : ℕ) → (turns b both_tasks ≤ 3) ⊎ (l.running b ≡ false))
unfolding workers_count
parallel_for_each-elements_example =
    parallel_for_each-elements team 4 2 letters both_tasks (omega arith) (omega arith) refl
      (omega arith) (omega arith) (omega arith)

abbrev pub two_batches : BasePartitioner
two_batches = make_base (pos 0) (pos 3) (pos 2)
