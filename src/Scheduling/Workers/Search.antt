-- ===== src/Scheduling/Workers/Search.antt =====
-- What pumpTask finds for a worker that may work on any priority.
use oqpi.Base.{ℕ, suc, ◌≤◌, ◌≡◌, refl, ap, ◌∙◌, true, some, List, [], ◌∷◌, ◌++◌, length, arith}
use oqpi.Scheduling.Priority.{TaskPriority, levels, WorkerPriority, wprio_any, can_work_on_priority}
use oqpi.Scheduling.Task.{Store, try_grab, is_open, won-open}
use oqpi.Scheduling.Scheduler.{Scheduler}
use oqpi.Scheduling.Scheduler.Queued.{queued}
use oqpi.Scheduling.Scheduler.Pump.{pop_loop, Pumped, pump_levels, pump_task}

-- The worker may work on each of these.
unfoldable pub AllWorkable : WorkerPriority → List TaskPriority → Type 0
AllWorkable worker [] = Unit {0}
AllWorkable worker (p ∷ ps) = (can_work_on_priority worker p ≡ true) × AllWorkable worker ps

unfoldable pub Finds : ℕ → List ℕ → ℕ → Store → Pumped → Type 0
unfolding queued try_grab
Finds t ts count s pumped =
    (pumped.found ≡ some t)
    × (pumped.store ≡ (try_grab s t).1)
    × (queued pumped.queues ≡ ts)
    × (length pumped.queues ≡ count)

pop_open :
    (s : Store) (t : ℕ) (q : List ℕ)
    → is_open s t ≡ true
    → pop_loop s (t ∷ q) ≡ record { found = some t; store = (try_grab s t).1; rest = q }
unfolding pop_loop
pop_open s t q free = rw (won-open s t, free) refl

pump_first :
    (worker : WorkerPriority) (s : Store) (t : ℕ) (p : TaskPriority) (ps : List TaskPriority)
    (q : List ℕ) (qs : List (List ℕ))
    → can_work_on_priority worker p ≡ true
    → is_open s t ≡ true
    → pump_levels worker (p ∷ ps) s ((t ∷ q) ∷ qs)
      ≡ record { found = some t; store = (try_grab s t).1; queues = q ∷ qs }
unfolding pump_levels
pump_first worker s t p ps q qs can free =
    rw (can, pop_open s t q free, pump_levels) (rw (pop_open s t q free) refl)

module _ (worker : WorkerPriority) (s : Store) (t : ℕ) (ts : List ℕ)
    (free : is_open s t ≡ true) where
  pump_levels-Finds :
      (ps : List TaskPriority) (qs : List (List ℕ))
      → AllWorkable worker ps
      → length qs ≤ length ps
      → queued qs ≡ t ∷ ts
      → Finds t ts (length qs) s (pump_levels worker ps s qs)
  unfolding Finds AllWorkable queued pump_levels
  pump_levels-Finds ps [] workable short e = cc e
  pump_levels-Finds [] (q ∷ qs) workable short e = absurd (omega arith)
  pump_levels-Finds (p ∷ ps) ([] ∷ qs) (can, workable) short e =
      let (found, store, rest, count) = pump_levels-Finds ps qs workable (omega arith) e in
      rw (can, pump_levels) (found, store, rest, ap suc count)
  pump_levels-Finds (p ∷ ps) ((x ∷ q) ∷ qs) (can, workable) short e =
      let same : x ≡ t = cc e in
      let rest : q ++ queued qs ≡ ts = cc e in
      let found = pump_first worker s x p ps q qs can (ap (is_open s) same ∙ free) in
      rw found (ap some same, ap (λ y. (try_grab s y).1) same, rest, refl)

-- The worker for any priority, while the scheduler runs.
pub pump_task-Finds :
    (s : Store) (sched : Scheduler) (t : ℕ) (ts : List ℕ)
    → is_open s t ≡ true
    → sched.running ≡ true
    → length sched.pending ≤ 5
    → queued sched.pending ≡ t ∷ ts
    → ((pump_task wprio_any s sched).stop_waiting ≡ true)
      × Finds t ts (length sched.pending) s (pump_task wprio_any s sched).pumped
unfolding pump_task AllWorkable can_work_on_priority Finds
pump_task-Finds s sched t ts free runs short e =
    let found =
      pump_levels-Finds wprio_any s t ts free levels sched.pending
        (refl, (refl, (refl, (refl, (refl, tt))))) short e in
    rw runs (rw found.0 refl, found)
