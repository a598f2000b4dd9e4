-- ===== src/Helpers/Defs.antt =====
-- include/oqpi/scheduling_helpers.hpp. Of the overloads of a function, each named for the arguments
-- that its caller gives, most fill in a default and call the next.
use oqpi.Base.{ℕ, suc, some, List, [], ◌∷◌, update, length}
use oqpi.Base.Int.{ℤ, pos, negsuc}
use oqpi.Scheduling.Priority.{TaskPriority, normal, TaskType, fire_and_forget, waitable, wprio_any}
use oqpi.Scheduling.Task.{Handle, make_task_base}
use oqpi.Scheduling.Scheduler.{
  Outcome, ok, fault, ◌>>=◌, WorkerConfig, register_worker, start, stop,
}
use oqpi.Scheduling.Groups.{
  Node, unit_task, parallel_group, sequence_group, World, schedule, add_task,
}

-- The world of the objects with the counter of uid_provider; the next object is made at the address
-- `next`, and `context` says which of the context classes each object has.
pub record Program : Type 0 where
  pub world : World
  pub next : ℕ
  pub uid_generator : ℕ
  pub context : ℕ → ℕ

abbrev pub default_priority : TaskPriority
default_priority = normal

-- make_shared of a task or a group.
unfoldable pub make_object : Program → Node → TaskType → ℕ → TaskPriority → Program × ℕ
unfolding make_task_base
make_object p node type context priority =
    let (base, uid) = make_task_base priority p.uid_generator in
    let world = record p.world {
      store = update p.world.store p.next base;
      node = update p.world.node p.next node;
      type = update p.world.type p.next type;
    } in
    (
      record {
        world = world;
        next = suc p.next;
        uid_generator = uid;
        context = update p.context p.next context;
      },
      p.next,
    )

-- schedule_task of a handle.
unfoldable pub schedule_task : Program → Handle → Outcome (Program × Handle)
unfolding schedule
schedule_task p h = schedule p.world h >>= λ w. ok (record p { world = w }, h)

-- `oqpi::make_task` and the overloads of `make_task`.
unfoldable pub make_task : Program → TaskType → ℕ → TaskPriority → Program × ℕ
unfolding make_object
make_task p type context priority = make_object p unit_task type context priority

unfoldable pub make_task_of_type_and_context : Program → TaskType → ℕ → Program × ℕ
unfolding make_task
make_task_of_type_and_context p type context = make_task p type context default_priority

unfoldable pub make_waitable_task : Program → ℕ → TaskPriority → Program × ℕ
unfolding make_task
make_waitable_task p context priority = make_task p waitable context priority

unfoldable pub make_task_item : Program → ℕ → TaskPriority → Program × ℕ
unfolding make_task
make_task_item p context priority = make_task p fire_and_forget context priority

unfoldable pub make_waitable_in_context : Program → ℕ → Program × ℕ
unfolding make_waitable_task
make_waitable_in_context p context = make_waitable_task p context default_priority

unfoldable pub make_item_in_context : Program → ℕ → Program × ℕ
unfolding make_task_item
make_item_in_context p context = make_task_item p context default_priority

-- The overloads of `schedule_task` and `fire_and_forget_task` that make the task.
unfoldable pub schedule_new_task :
    Program → TaskType → ℕ → TaskPriority → Outcome (Program × Handle)
unfolding make_task schedule_task
schedule_new_task p type context priority =
    let (p', t) = make_task p type context priority in schedule_task p' (some t)

unfoldable pub schedule_waitable : Program → ℕ → TaskPriority → Outcome (Program × Handle)
unfolding schedule_new_task
schedule_waitable p context priority = schedule_new_task p waitable context priority

unfoldable pub schedule_in_context : Program → ℕ → Outcome (Program × Handle)
unfolding schedule_waitable
schedule_in_context p context = schedule_waitable p context default_priority

unfoldable pub fire_and_forget_task : Program → ℕ → TaskPriority → Outcome Program
unfolding schedule_new_task
fire_and_forget_task p context priority =
    schedule_new_task p fire_and_forget context priority >>= λ r. ok r.0

unfoldable pub fire_and_forget_in_context : Program → ℕ → Outcome Program
unfolding fire_and_forget_task
fire_and_forget_in_context p context = fire_and_forget_task p context default_priority

-- A parallel group as its constructor leaves it.
abbrev pub new_parallel : ℕ → Node
new_parallel max_simultaneous_tasks = parallel_group (record {
  active_tasks_count = 0;
  tasks = [];
  max_simultaneous_tasks = max_simultaneous_tasks;
  current_task_index = 1;
})

-- The groups. For a negative count of tasks `reserve` throws std::length_error.
unfoldable pub make_parallel_group :
    Program → TaskType → ℕ → TaskPriority → ℤ → ℕ → Outcome (Program × ℕ)
unfolding make_object
make_parallel_group p type context priority (pos task_count) max_simultaneous_tasks =
    ok (make_object p (new_parallel max_simultaneous_tasks) type context priority)
make_parallel_group p type context priority (negsuc n) max_simultaneous_tasks = fault

unfoldable pub make_sequence_group : Program → TaskType → ℕ → TaskPriority → Program × ℕ
unfolding make_object
make_sequence_group p type context priority =
    make_object p (sequence_group []) type context priority

-- add_to_group, one handle after the other.
unfoldable pub add_to_group : World → ℕ → List ℕ → Outcome World
unfolding add_task
add_to_group w g [] = ok w
add_to_group w g (t ∷ ts) = add_task w g (some t) >>= λ w'. add_to_group w' g ts

unfoldable pub add_and_schedule : Program → ℕ → List ℕ → Outcome (Program × Handle)
unfolding add_to_group schedule_task
add_and_schedule p g ts =
    add_to_group p.world g ts >>= λ w. schedule_task (record p { world = w }) (some g)

unfoldable pub sequence_tasks :
    Program → TaskType → ℕ → TaskPriority → List ℕ → Outcome (Program × Handle)
unfolding make_sequence_group add_and_schedule
sequence_tasks p type context priority ts =
    let (p', g) = make_sequence_group p type context priority in add_and_schedule p' g ts

unfoldable pub sequence_in_context : Program → TaskType → ℕ → List ℕ → Outcome (Program × Handle)
unfolding sequence_tasks
sequence_in_context p type context ts = sequence_tasks p type context default_priority ts

unfoldable pub fork_tasks :
    Program → TaskType → ℕ → TaskPriority → List ℕ → Outcome (Program × Handle)
unfolding make_parallel_group add_and_schedule
fork_tasks p type context priority ts =
    make_parallel_group p type context priority (pos (length ts)) 0 >>= λ made.
    add_and_schedule made.0 made.1 ts

-- What the default contexts are is an argument of the class.
module _ (default_group_context default_task_context : ℕ) where
  unfoldable pub make_task_of_type_and_priority : Program → TaskType → TaskPriority → Program × ℕ
  unfolding make_task
  make_task_of_type_and_priority p type priority = make_task p type default_task_context priority

  unfoldable pub make_task_of_type : Program → TaskType → Program × ℕ
  unfolding make_task_of_type_and_priority
  make_task_of_type p type = make_task_of_type_and_priority p type default_priority

  unfoldable pub make_waitable_with_priority : Program → TaskPriority → Program × ℕ
  unfolding make_waitable_task
  make_waitable_with_priority p priority = make_waitable_task p default_task_context priority

  unfoldable pub make_waitable_default : Program → Program × ℕ
  unfolding make_waitable_with_priority
  make_waitable_default p = make_waitable_with_priority p default_priority

  unfoldable pub make_item_with_priority : Program → TaskPriority → Program × ℕ
  unfolding make_task_item
  make_item_with_priority p priority = make_task_item p default_task_context priority

  unfoldable pub make_item_default : Program → Program × ℕ
  unfolding make_item_with_priority
  make_item_default p = make_item_with_priority p default_priority

  unfoldable pub make_parallel_group_default :
      Program → TaskType → TaskPriority → ℤ → ℕ → Outcome (Program × ℕ)
  unfolding make_parallel_group
  make_parallel_group_default p type priority task_count max =
      make_parallel_group p type default_group_context priority task_count max

  unfoldable pub make_sequence_group_default : Program → TaskType → TaskPriority → Program × ℕ
  unfolding make_sequence_group
  make_sequence_group_default p type priority =
      make_sequence_group p type default_group_context priority

  unfoldable pub schedule_with_priority : Program → TaskPriority → Outcome (Program × Handle)
  unfolding schedule_waitable
  schedule_with_priority p priority = schedule_waitable p default_task_context priority

  unfoldable pub schedule_default : Program → Outcome (Program × Handle)
  unfolding schedule_with_priority
  schedule_default p = schedule_with_priority p default_priority

  unfoldable pub fire_and_forget_with_priority : Program → TaskPriority → Outcome Program
  unfolding fire_and_forget_task
  fire_and_forget_with_priority p priority = fire_and_forget_task p default_task_context priority

  unfoldable pub fire_and_forget_default : Program → Outcome Program
  unfolding fire_and_forget_with_priority
  fire_and_forget_default p = fire_and_forget_with_priority p default_priority

  unfoldable pub sequence_with_priority :
      Program → TaskType → TaskPriority → List ℕ → Outcome (Program × Handle)
  unfolding sequence_tasks
  sequence_with_priority p type priority ts =
      sequence_tasks p type default_group_context priority ts

  unfoldable pub sequence_default : Program → TaskType → List ℕ → Outcome (Program × Handle)
  unfolding sequence_with_priority
  sequence_default p type ts = sequence_with_priority p type default_priority ts

  unfoldable pub fork_with_priority :
      Program → TaskType → TaskPriority → List ℕ → Outcome (Program × Handle)
  unfolding fork_tasks
  fork_with_priority p type priority ts = fork_tasks p type default_group_context priority ts

  unfoldable pub fork_default : Program → TaskType → List ℕ → Outcome (Program × Handle)
  unfolding fork_tasks
  fork_default p type ts = fork_tasks p type default_group_context default_priority ts

-- The scheduler of the class.
unfoldable pub start_default_scheduler : Program → ℤ → Outcome Program
unfolding register_worker start
start_default_scheduler p worker_count =
    let config : WorkerConfig = record { worker_prio = wprio_any; count = worker_count } in
    register_worker p.world.scheduler config >>= λ registered.
    start p.world.build registered >>= λ started.
    ok (record p { world = record p.world { scheduler = started } })

unfoldable pub stop_scheduler : Program → Program
unfolding stop
stop_scheduler p = record p { world = record p.world { scheduler = stop p.world.scheduler } }
