-- ===== src/Scheduling/Scheduler/Registry.antt =====
-- scheduler.hpp: how many workers there are for each priority, through all that a scheduler goes
-- through.
use mathlib.Core.Path.{fun_ext}
use oqpi.Base.{
  ℕ, ◌⊎◌, none, some, subst, zero, suc, ◌+◌, ◌<◌, ◌≡◌, refl, ap, ◌∙◌, sym, not, true, ◌&&◌, List,
  [], ◌∷◌, ◌++◌, map, if◌then◌else◌, arith, Bool-cases, inl, inr,
}
use oqpi.Base.Int.{ℤ, pos, negsuc, pos_part, neg_part, ◌+ℤ◌, ◌-ℤ◌}
use oqpi.Scheduling.Priority.{
  TaskPriority, high, above_normal, normal, below_normal, low, count, inherit, to_int, levels,
  can_work_on_priority,
}
use oqpi.Scheduling.Task.{Store, Handle}
use oqpi.Scheduling.Scheduler.Defs.{
  Build, ensure, Outcome, ok, fault, spent, ◌>>=◌, WorkerConfig, Worker, Scheduler, make_scheduler,
  make_worker, can_work, count_workers, new_workers, register_worker, all_int32, all_staffed,
  notify, wake_up_all_workers, wake_up_workers_with_priority, start_worker, stop_worker, start,
  stop, workers_count, push, resolve_task_priority, add,
}

-- A call of the scheduler that may change its state.
pub data SchedulerOp : Type 0 where
  register : WorkerConfig → SchedulerOp
  begin finish : SchedulerOp
  schedule : ℕ → Store → Handle → SchedulerOp

unfoldable pub scheduler_step : Build → Scheduler → SchedulerOp → Outcome Scheduler
unfolding register_worker start stop add
scheduler_step build s (register config) = register_worker s config
scheduler_step build s begin = start build s
scheduler_step build s finish = ok (stop s)
scheduler_step build s (schedule fuel store h) = add fuel build store s h

unfoldable pub scheduler_run : Build → Scheduler → List SchedulerOp → Outcome Scheduler
unfolding scheduler_step
scheduler_run build s [] = ok s
scheduler_run build s (op ∷ ops) = scheduler_step build s op >>= λ s'. scheduler_run build s' ops

-- How many of the workers may work on a priority.
unfoldable pub capable : TaskPriority → List Worker → ℕ
unfolding can_work
capable p [] = 0
capable p (w ∷ ws) = if can_work w p then suc (capable p ws) else capable p ws

capable-append :
    (p : TaskPriority) (a b : List Worker) → capable p (a ++ b) ≡ capable p a + capable p b
unfolding capable
capable-append p [] b = omega arith
capable-append p (w ∷ a) b = ground (arith, capable-append p a b)

capable-new_workers :
    (p : TaskPriority) (config : WorkerConfig) (i n : ℕ)
    → capable p (new_workers config i n)
      ≡ (if can_work_on_priority config.worker_prio p then n else 0)
unfolding capable new_workers can_work make_worker
capable-new_workers p config i zero = ground arith
capable-new_workers p config i (suc n) = ground (arith, capable-new_workers p config (i + 1) n)

capable-map :
    (p : TaskPriority) (f : Worker → Worker) (ws : List Worker)
    → ((w : Worker) → can_work (f w) p ≡ can_work w p)
    → capable p (map f ws) ≡ capable p ws
unfolding capable
capable-map p f [] same = refl
capable-map p f (w ∷ ws) same = ground (arith, capable-map p f ws same, same w)

-- What the negative counts among the configurations take from the counter of a priority.
unfoldable pub missing : TaskPriority → List SchedulerOp → ℕ
missing p [] = 0
missing p (register config ∷ ops) =
    (if can_work_on_priority config.worker_prio p then neg_part config.count else 0) + missing p ops
missing p (begin ∷ ops) = missing p ops
missing p (finish ∷ ops) = missing p ops
missing p (schedule fuel store h ∷ ops) = missing p ops

-- The counter of a priority for so many workers, less `d`.
unfoldable pub counter : (TaskPriority → ℕ) → List Worker → TaskPriority → ℤ
counter d ws p = pos (capable p ws) -ℤ pos (d p)

-- What a configuration takes from them.
unfoldable pub less : WorkerConfig → (TaskPriority → ℕ) → TaskPriority → ℕ
less config d p =
    d p + (if can_work_on_priority config.worker_prio p then neg_part config.count else 0)

zero_plus : (n : ℕ) → 0 + n ≡ n
zero_plus n = omega arith

plus_zero : (n : ℕ) → n ≡ n + 0
plus_zero n = omega arith

counter_step :
    (c : ℤ) (a d : ℕ) → (pos a -ℤ pos d) +ℤ c ≡ pos (a + pos_part c) -ℤ pos (d + neg_part c)
unfolding ◌-ℤ◌ ◌+ℤ◌
counter_step (pos n) a d = ground arith
counter_step (negsuc n) a d = ground arith

counter-register :
    (config : WorkerConfig) (d : TaskPriority → ℕ) (ws : List Worker) (p : TaskPriority)
    → (if can_work_on_priority config.worker_prio p
        then counter d ws p +ℤ config.count
        else counter d ws p)
      ≡ counter (less config d) (ws ++ new_workers config 0 (pos_part config.count)) p
unfolding counter less
counter-register config d ws p =
    rw
      (
        capable-append p ws (new_workers config 0 (pos_part config.count)),
        capable-new_workers p config 0 (pos_part config.count),
      )
      (elim (Bool-cases (can_work_on_priority config.worker_prio p)) [
        | inl works ↦ rw works (counter_step config.count (capable p ws) (d p))
        | inr cannot ↦ rw cannot (
            ap (λ a. pos a -ℤ pos (d p)) (plus_zero (capable p ws))
            ∙ ap (λ b. pos (capable p ws + 0) -ℤ pos b) (plus_zero (d p)))
      ])

count_workers-capable :
    (config : WorkerConfig) (d : TaskPriority → ℕ) (ws : List Worker) (ps : List TaskPriority)
    → count_workers config ps (map (counter d ws) ps)
      ≡ map (counter (less config d) (ws ++ new_workers config 0 (pos_part config.count))) ps
unfolding count_workers
count_workers-capable config d ws [] = refl
count_workers-capable config d ws (p ∷ ps) = rw (count_workers-capable config d ws ps) (
    ap
      (λ n.
        n ∷ map (counter (less config d) (ws ++ new_workers config 0 (pos_part config.count))) ps)
      (counter-register config d ws p))

-- The counters say how many workers there are, less `d`.
unfoldable pub IsCounted : (TaskPriority → ℕ) → Scheduler → Type 0
IsCounted d s = s.workers_per_prio ≡ map (counter d s.workers) levels

-- An operation that leaves the counters and the configurations of the workers.
mapped-IsCounted :
    (d : TaskPriority → ℕ) (s s' : Scheduler) (f : Worker → Worker)
    → ((p : TaskPriority) (w : Worker) → can_work (f w) p ≡ can_work w p)
    → s'.workers_per_prio ≡ s.workers_per_prio
    → s'.workers ≡ map f s.workers
    → IsCounted d s
    → IsCounted d s'
unfolding IsCounted counter
mapped-IsCounted d s s' f same counts workers counted =
    counts
    ∙ counted
    ∙ sym (
        ap (λ (c : TaskPriority → ℤ). map c levels)
          (fun_ext (λ p.
            ap (λ n. pos n -ℤ pos (d p))
              (ap (capable p) workers ∙ capable-map p f s.workers (same p)))))

Outcome-cases : {A : Type 0} (o : Outcome A) → ((a : A) × (o ≡ ok a)) ⊎ (o ≡ fault) ⊎ (o ≡ spent)
Outcome-cases (ok a) = inl (a, refl)
Outcome-cases fault = inr (inl refl)
Outcome-cases spent = inr (inr refl)

start-IsCounted :
    (d : TaskPriority → ℕ) (build : Build) (s s' : Scheduler)
    → start build s ≡ ok s'
    → IsCounted d s
    → IsCounted d s'
unfolding start start_worker can_work
start-IsCounted d build s s' e counted = elim (Bool-cases (ensure build (not s.running))) [
  | inl still ↦ elim (Bool-cases (ensure build (all_staffed s.workers_per_prio))) [
    | inl staffed ↦ subst (IsCounted d) (ground arith) (
        mapped-IsCounted d s (record s { running = true; workers = map start_worker s.workers })
          start_worker (λ p w. refl) refl refl counted)
    | inr lacks ↦ ground arith
  ]
  | inr runs ↦ subst (IsCounted d) (ground arith) counted
]

stop-IsCounted : (d : TaskPriority → ℕ) (s : Scheduler) → IsCounted d s → IsCounted d (stop s)
unfolding stop wake_up_all_workers stop_worker notify can_work
stop-IsCounted d s counted =
    mapped-IsCounted d (record s { workers = map stop_worker s.workers }) (stop s) notify
      (λ p w. refl) refl refl (mapped-IsCounted d s _ stop_worker (λ p w. refl) refl refl counted)

-- What `add` may come to.
add_cases :
    (fuel : ℕ) (build : Build) (store : Store) (s s' : Scheduler) (h : Handle)
    → add fuel build store s h ≡ ok s'
    → (s ≡ s')
      ⊎ ((p : TaskPriority) × (qs : List (List ℕ)) × (record s {
        pending = qs;
        workers = wake_up_workers_with_priority s.workers p;
      }
            ≡ s'))
unfolding add
add_cases fuel build store s s' none e = ground arith
add_cases fuel build store s s' (some t) e =
    elim (Bool-cases (not (store t).grabbed && not (store t).done)) [
      | inr closed ↦ inl (ground arith)
      | inl free ↦ elim (Outcome-cases (resolve_task_priority fuel build store t)) [
        | inr (inl bad) ↦ inl (ground arith)
        | inr (inr bad) ↦ inl (ground arith)
        | inl (p, resolves) ↦ elim (Outcome-cases (push s.pending p t)) [
          | inr (inl bad) ↦ inl (ground arith)
          | inr (inr bad) ↦ inl (ground arith)
          | inl (qs, pushed) ↦ inr (p, qs, ground arith)
        ]
      ]
    ]

wake_up-IsCounted :
    (d : TaskPriority → ℕ) (s : Scheduler) (p : TaskPriority) (qs : List (List ℕ))
    → IsCounted d s
    → IsCounted d (record s { pending = qs; workers = wake_up_workers_with_priority s.workers p })
unfolding wake_up_workers_with_priority notify can_work
wake_up-IsCounted d s p qs counted =
    mapped-IsCounted d s _ (λ w. if can_work w p then notify w else w) (λ q w. ground arith) refl
      refl counted

ok_same : (a b : Scheduler) → ok a ≡ ok b → a ≡ b
ok_same a b e = cc e

registered :
    (s s' : Scheduler) (config : WorkerConfig)
    → all_int32 (count_workers config levels s.workers_per_prio) ≡ true
    → register_worker s config ≡ ok s'
    → record s {
      workers_per_prio = count_workers config levels s.workers_per_prio;
      workers = s.workers ++ new_workers config 0 (pos_part config.count);
    }
      ≡ s'
unfolding register_worker
registered s s' config fits e = ground arith

register_worker-IsCounted :
    (d : TaskPriority → ℕ) (s s' : Scheduler) (config : WorkerConfig)
    → register_worker s config ≡ ok s'
    → IsCounted d s
    → IsCounted (less config d) s'
unfolding IsCounted register_worker
register_worker-IsCounted d s s' config e counted =
    elim (Bool-cases (all_int32 (count_workers config levels s.workers_per_prio))) [
      | inl fits ↦ subst (IsCounted (less config d)) (registered s s' config fits e) (
          ap (count_workers config levels) counted
          ∙ count_workers-capable config d s.workers levels)
      | inr overflows ↦ ground arith
    ]

-- `d` with what the operations take away.
unfoldable pub later : (TaskPriority → ℕ) → List SchedulerOp → TaskPriority → ℕ
unfolding missing
later d ops p = d p + missing p ops

later-register :
    (d : TaskPriority → ℕ) (config : WorkerConfig) (ops : List SchedulerOp)
    → later (less config d) ops ≡ later d (register config ∷ ops)
unfolding later missing less
later-register d config ops = fun_ext (λ p. omega arith)

step_then :
    (build : Build) (op : SchedulerOp) (ops : List SchedulerOp) (d : TaskPriority → ℕ)
    (s s₁ s' : Scheduler)
    → scheduler_step build s op ≡ ok s₁
    → IsCounted d s
    → ((d₁ : TaskPriority → ℕ) → IsCounted d₁ s₁ → IsCounted (later d₁ ops) s')
    → IsCounted (later d (op ∷ ops)) s'
unfolding scheduler_step later missing
step_then build (register config) ops d s s₁ s' e counted rest =
    subst (λ (c : TaskPriority → ℕ). IsCounted c s') (later-register d config ops)
      (rest (less config d) (register_worker-IsCounted d s s₁ config e counted))
step_then build begin ops d s s₁ s' e counted rest = rest d (start-IsCounted d build s s₁ e counted)
step_then build finish ops d s s₁ s' e counted rest =
    rest d (subst (IsCounted d) (ok_same _ s₁ e) (stop-IsCounted d s counted))
step_then build (schedule fuel store h) ops d s s₁ s' e counted rest =
    rest d (elim (add_cases fuel build store s s₁ h e) [
      | inl same ↦ subst (IsCounted d) same counted
      | inr (p, qs, woken) ↦ subst (IsCounted d) woken (wake_up-IsCounted d s p qs counted)
    ])

scheduler_run-IsCounted :
    (build : Build) (ops : List SchedulerOp) (d : TaskPriority → ℕ) (s s' : Scheduler)
    → scheduler_run build s ops ≡ ok s'
    → IsCounted d s
    → IsCounted (later d ops) s'
unfolding scheduler_run scheduler_step later missing
scheduler_run-IsCounted build [] d s s' e counted =
    subst (λ (c : TaskPriority → ℕ). IsCounted c s') (fun_ext (λ p. plus_zero (d p)))
      (subst (IsCounted d) (ok_same s s' e) counted)
scheduler_run-IsCounted build (op ∷ ops) d s s' e counted =
    elim (Outcome-cases (scheduler_step build s op)) [
      | inl (s₁, stepped) ↦
          step_then build op ops d s s₁ s' stepped counted
            (λ d₁ now. scheduler_run-IsCounted build ops d₁ s₁ s' (ground arith) now)
      | inr (inl bad) ↦ ground arith
      | inr (inr bad) ↦ ground arith
    ]

make_scheduler-IsCounted : IsCounted (λ p. 0) make_scheduler
unfolding IsCounted make_scheduler capable counter ◌-ℤ◌
make_scheduler-IsCounted = refl

counted_at :
    (c : TaskPriority → ℤ) (s : Scheduler) (p : TaskPriority)
    → to_int p < 5
    → s.workers_per_prio ≡ map c levels
    → workers_count s p ≡ c p
unfolding workers_count
counted_at c s high small e = rw e refl
counted_at c s above_normal small e = rw e refl
counted_at c s normal small e = rw e refl
counted_at c s below_normal small e = rw e refl
counted_at c s low small e = rw e refl
counted_at c s count small e = absurd (omega arith)
counted_at c s inherit small e = absurd (omega arith)

-- Whatever registrations, starts, stops and adds, in any order, a new scheduler goes through without
-- undefined behaviour or a failed check: `workersCount` of a priority that has a queue is how many of
-- the registered workers may work on it, less what was registered with a negative count for it.
pub workers_count-capable :
    (build : Build) (ops : List SchedulerOp) (s : Scheduler) (p : TaskPriority)
    → scheduler_run build make_scheduler ops ≡ ok s
    → to_int p < 5
    → workers_count s p ≡ pos (capable p s.workers) -ℤ pos (missing p ops)
unfolding IsCounted later counter
workers_count-capable build ops s p e small =
    counted_at (counter (later (λ q. 0) ops) s.workers) s p small
      (scheduler_run-IsCounted build ops (λ q. 0) make_scheduler s e make_scheduler-IsCounted)
    ∙ ap (λ n. pos (capable p s.workers) -ℤ pos n) (zero_plus (missing p ops))
