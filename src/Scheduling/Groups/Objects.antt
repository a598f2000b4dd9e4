-- ===== src/Scheduling/Groups/Objects.antt =====
-- task.hpp, task_group.hpp, task_notifier.hpp and task_context.hpp: the objects of tasks and groups
-- and what their contexts and events see. The function of a task is a call in the log.
use oqpi.Base.{
  ℕ, zero, suc, ◌+◌, Bool, true, false, Option, none, some, List, [], ◌∷◌, ◌++◌, if◌then◌else◌,
  update,
}
use oqpi.Scheduling.Priority.{TaskType, fire_and_forget, waitable}
use oqpi.Scheduling.Task.{Store, Handle, is_open, set_done, set_parent}
use oqpi.Scheduling.Scheduler.{Build, ensure, Outcome, ok, fault, ◌>>=◌, Scheduler, add}

-- The fields of parallel_group. `active_tasks_count` and `current_task_index` are size_t.
pub record ParallelGroup : Type 0 where
  pub active_tasks_count : ℕ
  pub tasks : List ℕ
  pub max_simultaneous_tasks : ℕ
  pub current_task_index : ℕ

-- What an object is besides its task_base: a task, a parallel group, or a sequence group with its
-- queue.
pub data Node : Type 0 where
  unit_task : Node
  parallel_group : ParallelGroup → Node
  sequence_group : List ℕ → Node

-- The calls that the outside sees: those of the contexts, of the task's function, and the signals of
-- the events of waitable objects.
pub data Event : Type 0 where
  pre_execute run_func post_execute notified : ℕ → Event
  group_pre_execute group_post_execute : ℕ → Event
  added_to_group task_added : ℕ → ℕ → Event

-- `add_fuel` bounds the chain of groups that `add` follows for a priority.
pub record World : Type 0 where
  pub build : Build
  pub store : Store
  pub node : ℕ → Node
  pub type : ℕ → TaskType
  pub scheduler : Scheduler
  pub add_fuel : ℕ
  pub log : List Event

unfoldable pub record_event : World → Event → World
record_event w e = record w { log = w.log ++ e ∷ [] }

-- notifier::notify: only waitable objects have an event.
unfoldable pub notify_event : World → ℕ → World
unfolding record_event
notify_event w t = elim (w.type t) [ fire_and_forget ↦ w | waitable ↦ record_event w (notified t) ]

unfoldable pub mark_done : World → ℕ → World
unfolding set_done
mark_done w t = record w { store = set_done w.store t }

-- `task::invoke`
unfoldable pub invoke : World → ℕ → World
unfolding notify_event mark_done record_event
invoke w t =
    let called = record_event (record_event w (pre_execute t)) (run_func t) in
    notify_event (record_event (mark_done called t) (post_execute t)) t

-- `scheduler_.add(hTask)`
unfoldable pub schedule : World → Handle → Outcome World
unfolding add
schedule w h = add w.add_fuel w.build w.store w.scheduler h >>= λ s. ok (record w { scheduler = s })

unfoldable pub set_node : World → ℕ → Node → World
set_node w g n = record w { node = update w.node g n }

-- `task_group::addTask`, with the addTaskImpl of the two groups. Without checks a task that is bound
-- to a group already is bound anew.
unfoldable pub add_task_impl : World → ℕ → ℕ → Outcome World
unfolding set_node
add_task_impl w g t = elim (w.node g) [
  | unit_task ↦ fault
  | parallel_group p ↦ ok (
      set_node w g (
        parallel_group
          (record p { tasks = p.tasks ++ t ∷ []; active_tasks_count = p.active_tasks_count + 1 })))
  | sequence_group q ↦ ok (set_node w g (sequence_group (q ++ t ∷ [])))
]

abbrev has_no_parent : Option ℕ → Bool
has_no_parent none = true
has_no_parent (some g) = false

unfoldable pub add_task : World → ℕ → Handle → Outcome World
unfolding add_task_impl record_event set_parent
add_task w g none = ok w
add_task w g (some t) =
    if ensure w.build (has_no_parent (w.store t).parent)
    then (add_task_impl
          (record_event (record w { store = set_parent w.store t (some g) }) (added_to_group t g)) g
          t
        >>= λ w'. ok (record_event w' (task_added g t)))
    else ok w

-- `while ((i = currentTaskIndex_.fetch_add(1)) < taskCount)` up to the first task that is neither
-- grabbed nor done: how often the index is moved on, and the task. The list is what stands from the
-- index on.
pub record Scan : Type 0 where
  pub moved : ℕ
  pub found : Option ℕ

unfoldable pub scan : Store → List ℕ → Scan
unfolding is_open
scan s [] = record { moved = 1; found = none }
scan s (t ∷ ts) =
    let further = scan s ts in
    if is_open s t
    then record { moved = 1; found = some t }
    else record further { moved = suc further.moved }

-- What is left of a list from an index on.
abbrev pub from : {A : Type 0} → ℕ → List A → List A
from zero xs = xs
from (suc i) [] = []
from (suc i) (x ∷ xs) = from i xs
