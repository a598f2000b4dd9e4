-- ===== src/Scheduling/Scheduler/Pump/Laws.antt =====
-- scheduler.hpp: `pumpTask` finds the first task that is free, of the highest priority that has one.
use oqpi.Base.{
  ℕ, ◌≡◌, refl, ◌⊎◌, inl, inr, Bool, true, false, not, ◌&&◌, Option, none, some, List, [], ◌∷◌,
  ◌==◌, Bool-cases,
}
use oqpi.Scheduling.Priority.{TaskPriority, levels, WorkerPriority, can_work_on_priority}
use oqpi.Scheduling.Task.{
  is_valid, Store, try_grab, is_open, open-try_grab, won-open, open-try_grab_closed,
  grabbed-try_grab,
}
use oqpi.Scheduling.Scheduler.Defs.{Scheduler}
use oqpi.Scheduling.Scheduler.Pump.Defs.{Popped, pop_loop, Pumped, pump_levels, pump_task}

abbrev pub AllClosed : (ℕ → Bool) → List ℕ → Type 0
AllClosed free [] = Unit {0}
AllClosed free (t ∷ q) = (free t ≡ false) × AllClosed free q

-- `t` is the first free task of the queue, and `rest` is what stands behind it.
abbrev pub FirstOpen : (ℕ → Bool) → List ℕ → ℕ → List ℕ → Type 0
FirstOpen free [] t rest = ⊥
FirstOpen free (x ∷ q) t rest =
    (free x ≡ true) × (x ≡ t) × (q ≡ rest) ⊎ (free x ≡ false) × FirstOpen free q t rest

-- The free tasks without `t`.
abbrev pub Without : (ℕ → Bool) → ℕ → (ℕ → Bool) → Type 0
Without before t after = (x : ℕ) → after x ≡ (before x && not (t == x))

abbrev pub PopOutcome : (ℕ → Bool) → List ℕ → Popped → Type 0
PopOutcome free q r =
    (r.found ≡ none) × (r.rest ≡ []) × AllClosed free q × (is_open r.store ≡ free)
    ⊎ ((t : ℕ) × (r.found ≡ some t)
        × FirstOpen free q t r.rest
        × Without free t (is_open r.store)
        × ((r.store t).grabbed ≡ true))

pub pop_loop-outcome : (s : Store) (q : List ℕ) → PopOutcome (is_open s) q (pop_loop s q)
unfolding pop_loop
pop_loop-outcome s [] = inl (refl, refl, tt, refl)
pop_loop-outcome s (t ∷ q) = elim (Bool-cases (is_open s t)) [
  | inl is_free ↦
      rw (won-open s t, is_free)
        (inr (t, refl, inl (refl, refl, refl), open-try_grab s t, grabbed-try_grab s t))
  | inr closed ↦
      let same = open-try_grab_closed s t closed in
      rw (won-open s t, closed)
        (elim (rw same at (pop_loop-outcome (try_grab s t).1 q)) [
          | inl (none_found, all_popped, all_closed, kept) ↦
              inl (none_found, all_popped, (refl, all_closed), kept)
          | inr (x, found, first, without, grabbed) ↦
              inr (x, found, inr (refl, first), without, grabbed)
        ])
]

-- A queue that is passed: a worker that may work on its priority has dropped all that was in it,
-- none of which was open, and another has left it alone.
abbrev pub Passed : Bool → (ℕ → Bool) → List ℕ → List ℕ → Type 0
Passed true free q q' = AllClosed free q × (q' ≡ [])
Passed false free q q' = q' ≡ q

-- Every queue is passed.
abbrev pub Exhausted :
    WorkerPriority → (ℕ → Bool) → List TaskPriority → List (List ℕ) → List (List ℕ) → Type 0
Exhausted w free (p ∷ ps) (q ∷ qs) (q' ∷ qs') =
    Passed (can_work_on_priority w p) free q q' × Exhausted w free ps qs qs'
Exhausted w free ps qs qs' = Unit {0}

-- `t` is the first open task of some queue that the worker may work on; the queues of higher
-- priorities are passed, those of lower ones are as they were.
abbrev pub Chosen :
    WorkerPriority → (ℕ → Bool) → ℕ → List TaskPriority → List (List ℕ) → List (List ℕ) → Type 0
Chosen w free t (p ∷ ps) (q ∷ qs) (q' ∷ qs') =
    (can_work_on_priority w p ≡ true) × FirstOpen free q t q' × (qs' ≡ qs)
    ⊎ Passed (can_work_on_priority w p) free q q' × Chosen w free t ps qs qs'
Chosen w free t ps qs qs' = ⊥

abbrev pub PumpOutcome :
    WorkerPriority → (ℕ → Bool) → List TaskPriority → List (List ℕ) → Pumped → Type 0
PumpOutcome w free ps qs r =
    (r.found ≡ none) × Exhausted w free ps qs r.queues × (is_open r.store ≡ free)
    ⊎ ((t : ℕ) × (r.found ≡ some t)
        × Chosen w free t ps qs r.queues
        × Without free t (is_open r.store)
        × ((r.store t).grabbed ≡ true))

Passed-false : {c : Bool} (free : ℕ → Bool) (q : List ℕ) → c ≡ false → Passed c free q q
Passed-false free q e = rw e refl

Passed-true :
    {c : Bool} (free : ℕ → Bool) (q q' : List ℕ)
    → c ≡ true
    → AllClosed free q
    → q' ≡ []
    → Passed c free q q'
Passed-true free q q' e closed popped = rw e (closed, popped)

pub pump_levels-outcome :
    (w : WorkerPriority) (ps : List TaskPriority) (s : Store) (qs : List (List ℕ))
    → PumpOutcome w (is_open s) ps qs (pump_levels w ps s qs)
unfolding pump_levels
pump_levels-outcome w [] s qs = inl (refl, tt, refl)
pump_levels-outcome w (p ∷ ps) s [] = inl (refl, tt, refl)
pump_levels-outcome w (p ∷ ps) s (q ∷ qs) = elim (Bool-cases (can_work_on_priority w p)) [
  | inr cannot ↦ rw cannot (elim (pump_levels-outcome w ps s qs) [
    | inl (none_found, exhausted, kept) ↦
        inl (none_found, (Passed-false (is_open s) q cannot, exhausted), kept)
    | inr (t, found, chosen, without, grabbed) ↦
        inr (t, found, inr (Passed-false (is_open s) q cannot, chosen), without, grabbed)
  ])
  | inl can ↦ elim (pop_loop-outcome s q) [
    | inr (t, found, first, without, grabbed) ↦
        rw (can, found) (inr (t, refl, inl (can, first, refl), without, grabbed))
    | inl (none_here, popped, closed, kept) ↦
        rw (can, none_here)
          (elim (rw kept at (pump_levels-outcome w ps (pop_loop s q).store qs)) [
            | inl (none_found, exhausted, kept') ↦
                inl (none_found, (Passed-true (is_open s) q _ can closed popped, exhausted), kept')
            | inr (t, found, chosen, without, grabbed) ↦ inr (
              t,
              found,
              inr (Passed-true (is_open s) q _ can closed popped, chosen),
              without,
              grabbed,
            )
          ])
  ]
]

-- `pumpTask` on a scheduler that runs: the worker stops waiting exactly when a task is found. What is
-- found is the first open task of the highest priority that has one and that the worker may work
-- on; it has been grabbed, and all other tasks are as open as before. If none is found, there was no
-- open task in any queue that the worker may work on. Only tasks that were not open are dropped.
pub pump_task-outcome :
    (w : WorkerPriority) (s : Store) (sched : Scheduler)
    → sched.running ≡ true
    → PumpOutcome w (is_open s) levels sched.pending (pump_task w s sched).pumped
      × ((pump_task w s sched).stop_waiting ≡ is_valid (pump_task w s sched).pumped.found)
unfolding pump_task
pump_task-outcome w s sched runs = rw runs (
  pump_levels-outcome w levels s sched.pending,
  found-is_valid (pump_levels w levels s sched.pending).found,
)
  where
    found-is_valid : (o : Option ℕ) → elim o [ none ↦ false | some t ↦ true ] ≡ is_valid o
    found-is_valid none = refl
    found-is_valid (some t) = refl
