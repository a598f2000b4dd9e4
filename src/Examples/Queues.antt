-- ===== src/Examples/Queues.antt =====
-- scheduling: three tasks in the queues, and what the theorems say of them.
use mathlib.Core.Option
use oqpi.Base.{
  ◌⊎◌, ℕ, ◌≡◌, refl, Bool, true, false, Option, none, some, List, [], ◌∷◌, ◌++◌, map, arith,
  if◌then◌else◌, ◌==◌, get_elem?,
}
use oqpi.Base.Int.{pos, negsuc}
use oqpi.Scheduling.Priority.{
  TaskPriority, high, normal, low, inherit, to_int, levels, wprio_any, wprio_normal_or_low,
  promised, member, can_work_on_priority, can_work-promised, same_priority,
}
use oqpi.Scheduling.Task.{Task, Store, is_open, is_valid}
use oqpi.Scheduling.Scheduler.{
  checked, unchecked, ok, fault, Scheduler, notify, can_work, resolve_task_priority, add,
}
use oqpi.Scheduling.Scheduler.Pump.{pump_task, PumpOutcome, pump_task-outcome}
use oqpi.Scheduling.Scheduler.Add.{
  IsRanked, Effective, resolve_task_priority-Effective, AllInherit, Nearest,
  resolve_task_priority-unchecked, add-open,
}

-- Task 7 inherits its priority from group 9, which has none of its own and is in group 8; the tasks
-- 1 and 2 are in no group, and 1 is grabbed; task 5 is to inherit and is in no group.
abbrev plain : TaskPriority → Bool → Option ℕ → Task
plain p grabbed parent = record {
  uid = 1;
  parent = parent;
  priority = p;
  grabbed = grabbed;
  done = false;
}

abbrev objects : Store
objects t =
    if t == 7
    then plain inherit false (some 9)
    else if t == 9
    then plain inherit false (some 8)
    else if t == 8
    then plain low false none
    else if t == 1
    then plain high true none
    else if t == 5
    then plain inherit false none
    else plain normal false none

abbrev rank : ℕ → ℕ
rank t = if t == 7 then 2 else if t == 9 then 1 else 0

objects-IsRanked : IsRanked rank objects
objects-IsRanked g h e = ground arith

abbrev busy : Scheduler
busy = record {
  workers =
      record {
        id = negsuc 0;
        config = record { worker_prio = wprio_any; count = pos 1 };
        task = none;
        running = true;
        tokens = 0;
      }
      ∷ [];
  workers_per_prio = pos 1 ∷ pos 1 ∷ pos 1 ∷ pos 1 ∷ pos 1 ∷ [];
  pending = (1 ∷ []) ∷ [] ∷ (2 ∷ []) ∷ [] ∷ [] ∷ [];
  running = true;
}

can_work-promised_example :
    can_work_on_priority wprio_normal_or_low low ≡ member low (promised wprio_normal_or_low)
can_work-promised_example = can_work-promised wprio_normal_or_low low

pump_task-outcome_example :
    PumpOutcome wprio_any
      (is_open objects)
      levels
      busy.pending
      (pump_task wprio_any objects busy).pumped
    × ((pump_task wprio_any objects busy).stop_waiting
        ≡ is_valid (pump_task wprio_any objects busy).pumped.found)
pump_task-outcome_example = pump_task-outcome wprio_any objects busy refl

resolve_task_priority-Effective_example :
    (p : TaskPriority) × (resolve_task_priority 3 checked objects 7 ≡ ok p) × Effective objects 7 p
resolve_task_priority-Effective_example =
    resolve_task_priority-Effective rank objects 3 7 objects-IsRanked (omega arith)

resolve_task_priority-unchecked_example :
    ((resolve_task_priority 3 unchecked objects 5 ≡ fault)
      × (add 3 unchecked objects busy (some 5) ≡ fault)
      × AllInherit objects (some 5))
    ⊎ ((p : TaskPriority) × (resolve_task_priority 3 unchecked objects 5 ≡ ok p)
        × Nearest objects (some 5) p)
unfolding is_open
resolve_task_priority-unchecked_example =
    resolve_task_priority-unchecked rank objects busy 3 5 objects-IsRanked (omega arith) refl

add-open_example :
    (qs : List (List ℕ)) × (add 3 checked objects busy (some 7)
      ≡ ok (record busy {
        pending = qs;
        workers = map (λ w. if can_work w low then notify w else w) busy.workers;
      }))
    × ((i : ℕ)
        → get_elem? qs i ≡ (
            if i == to_int low
            then Option.map (λ q. q ++ 7 ∷ []) (get_elem? busy.pending i)
            else get_elem? busy.pending i))
unfolding is_open resolve_task_priority same_priority
add-open_example = add-open 3 checked objects busy 7 low refl refl (omega arith)
