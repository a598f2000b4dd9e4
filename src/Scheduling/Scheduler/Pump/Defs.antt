-- ===== src/Scheduling/Scheduler/Pump/Defs.antt =====
-- scheduler.hpp: `pumpTask`, the lambda of waitForNextTask.
use oqpi.Base.{ℕ, Bool, true, false, not, ◌&&◌, Option, none, some, List, [], ◌∷◌, if◌then◌else◌}
use oqpi.Scheduling.Priority.{TaskPriority, levels, WorkerPriority, can_work_on_priority}
use oqpi.Scheduling.Task.{Store, try_grab}
use oqpi.Scheduling.Scheduler.Defs.{Scheduler}

pub record Popped : Type 0 where
  pub found : Option ℕ
  pub store : Store
  pub rest : List ℕ

-- `while (pendingTasks_[prio].tryPop(hTask))`: a popped task that cannot be grabbed or is done is
-- dropped. The grab is made first, and stays on a task that is done.
unfoldable pub pop_loop : Store → List ℕ → Popped
unfolding try_grab
pop_loop s [] = record { found = none; store = s; rest = [] }
pop_loop s (t ∷ q) =
    let next = pop_loop (try_grab s t).1 q in
    if (try_grab s t).0 && not ((try_grab s t).1 t).done
    then record { found = some t; store = (try_grab s t).1; rest = q }
    else next

pub record Pumped : Type 0 where
  pub found : Option ℕ
  pub store : Store
  pub queues : List (List ℕ)

-- The loop over the priorities, with the queue of each.
unfoldable pub pump_levels : WorkerPriority → List TaskPriority → Store → List (List ℕ) → Pumped
unfolding pop_loop
pump_levels w [] s qs = record { found = none; store = s; queues = qs }
pump_levels w (p ∷ ps) s [] = record { found = none; store = s; queues = [] }
pump_levels w (p ∷ ps) s (q ∷ qs) =
    let skipped = pump_levels w ps s qs in
    let popped = pop_loop s q in
    let further = pump_levels w ps popped.store qs in
    if can_work_on_priority w p
    then elim popped.found [
      | some t ↦ record { found = some t; store = popped.store; queues = popped.rest ∷ qs }
      | none ↦ record further { queues = popped.rest ∷ further.queues }
    ]
    else record skipped { queues = q ∷ skipped.queues }

-- `pumpTask`: whether the worker is to stop waiting, and what it found.
pub record Answer : Type 0 where
  pub stop_waiting : Bool
  pub pumped : Pumped

unfoldable pub pump_task : WorkerPriority → Store → Scheduler → Answer
unfolding pump_levels
pump_task w s sched =
    let pumped = pump_levels w levels s sched.pending in
    if sched.running
    then record {
      stop_waiting = elim pumped.found [ none ↦ false | some t ↦ true ];
      pumped = pumped;
    }
    else record {
      stop_waiting = true;
      pumped = record { found = none; store = s; queues = sched.pending };
    }
