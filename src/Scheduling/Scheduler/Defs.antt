-- ===== src/Scheduling/Scheduler/Defs.antt =====
-- scheduler.hpp and worker_base.hpp: the state of the scheduler and its operations on the queues. A
-- queue is the list of the handles in it, the next one to pop first; the handles are valid, since
-- `add` lets no other in.
use oqpi.Base.{
  ℕ, zero, suc, ◌+◌, Bool, true, false, not, ◌&&◌, Option, none, some, List, [], ◌∷◌, ◌++◌, map,
  length, set, get_elem?, if◌then◌else◌,
}
use oqpi.Base.Int.{ℤ, pos, negsuc, pos_part, ltb_ℤ, ◌+ℤ◌, is_int32}
use oqpi.Scheduling.Priority.{
  TaskPriority, normal, inherit, to_int, levels, WorkerPriority, can_work_on_priority,
  same_priority,
}
use oqpi.Scheduling.Task.{Store, Handle, is_valid}

-- How the checks of error_handling.hpp are built: with OQPI_ENABLE_CHECKS, where a failed
-- oqpi_ensure is reported and false, or without, where it is always true.
pub data Build : Type 0 where
  checked unchecked : Build

-- `oqpi_ensure(cond)`; `oqpi_failed(cond)` is its negation.
abbrev pub ensure : Build → Bool → Bool
ensure checked cond = cond
ensure unchecked cond = true

-- `fault`: undefined behaviour, such as a call through a null pointer or a signed overflow, or a stop of
-- the program, by a failed oqpi_check or an exception that nothing catches. `spent`: the fuel ran out.
pub data Outcome {ℓ} (A : Type ℓ) : Type ℓ where
  ok : A → Outcome A
  fault spent : Outcome A

infixl 5 ◌>>=◌
abbrev pub ◌>>=◌ {ℓ κ} : {A : Type ℓ} {B : Type κ} → Outcome A → (A → Outcome B) → Outcome B
ok a >>= f = f a
fault >>= f = fault
spent >>= f = spent

pub record WorkerConfig : Type 0 where
  pub worker_prio : WorkerPriority
  pub count : ℤ

-- `tokens` is the value of the worker's semaphore.
pub record Worker : Type 0 where
  pub id : ℤ
  pub config : WorkerConfig
  pub task : Handle
  pub running : Bool
  pub tokens : ℕ

pub record Scheduler : Type 0 where
  pub workers : List Worker
  pub workers_per_prio : List ℤ
  pub pending : List (List ℕ)
  pub running : Bool

unfoldable pub make_scheduler : Scheduler
make_scheduler = record {
  workers = [];
  workers_per_prio = map (λ p. pos 0) levels;
  pending = map (λ p. []) levels;
  running = false;
}

-- worker_base's constructor, with that of worker.
unfoldable pub make_worker : ℕ → WorkerConfig → Worker
make_worker id config = record {
  id = if ltb_ℤ (pos 1) config.count then pos id else negsuc 0;
  config = config;
  task = none;
  running = false;
  tokens = 0;
}

unfoldable pub can_work : Worker → TaskPriority → Bool
can_work w p = can_work_on_priority w.config.worker_prio p

-- The loop over the priorities in registerWorker.
unfoldable pub count_workers : WorkerConfig → List TaskPriority → List ℤ → List ℤ
count_workers config [] counts = counts
count_workers config (p ∷ ps) [] = []
count_workers config (p ∷ ps) (n ∷ ns) =
    (if can_work_on_priority config.worker_prio p then n +ℤ config.count else n)
    ∷ count_workers config ps ns

-- The loop over the new workers: `n` of them from number `i` on.
unfoldable pub new_workers : WorkerConfig → ℕ → ℕ → List Worker
new_workers config i zero = []
new_workers config i (suc n) = make_worker i config ∷ new_workers config (i + 1) n

-- Whether no counter has overflowed.
unfoldable pub all_int32 : List ℤ → Bool
unfolding is_int32
all_int32 [] = true
all_int32 (n ∷ ns) = is_int32 n && all_int32 ns

unfoldable pub register_worker : Scheduler → WorkerConfig → Outcome Scheduler
unfolding count_workers new_workers all_int32
register_worker s config =
    let counts = count_workers config levels s.workers_per_prio in
    if all_int32 counts
    then ok (record s {
      workers_per_prio = counts;
      workers = s.workers ++ new_workers config 0 (pos_part config.count);
    })
    else fault

-- registerWorkers
unfoldable pub register_workers : Scheduler → List WorkerConfig → Outcome Scheduler
unfolding register_worker
register_workers s [] = ok s
register_workers s (c ∷ cs) = register_worker s c >>= λ s'. register_workers s' cs

-- `upWorker->notify()`, which releases one token of the worker's semaphore.
unfoldable pub notify : Worker → Worker
notify w = record w { tokens = w.tokens + 1 }

unfoldable pub wake_up_all_workers : List Worker → List Worker
unfolding notify
wake_up_all_workers = map notify

unfoldable pub wake_up_workers_with_priority : List Worker → TaskPriority → List Worker
unfolding notify can_work
wake_up_workers_with_priority ws p = map (λ w. if can_work w p then notify w else w) ws

-- `worker::start`, which creates the thread too, and `worker::stop`.
unfoldable pub start_worker : Worker → Worker
start_worker w = record w { running = true }

unfoldable pub stop_worker : Worker → Worker
stop_worker w = record w { running = false }

-- The check of `start`: there is a worker for each priority.
unfoldable pub all_staffed : List ℤ → Bool
all_staffed [] = true
all_staffed (n ∷ ns) = ltb_ℤ (pos 0) n && all_staffed ns

unfoldable pub start : Build → Scheduler → Outcome Scheduler
unfolding start_worker all_staffed
start build s =
    if ensure build (not s.running)
    then (if ensure build (all_staffed s.workers_per_prio)
        then ok (record s { running = true; workers = map start_worker s.workers })
        else fault)
    else ok s

-- `stop`, up to the calls of `join`.
unfoldable pub stop : Scheduler → Scheduler
unfolding wake_up_all_workers stop_worker
stop s = record s { running = false; workers = wake_up_all_workers (map stop_worker s.workers) }

unfoldable pub all_empty : List (List ℕ) → Bool
all_empty [] = true
all_empty ([] ∷ qs) = all_empty qs
all_empty ((t ∷ q) ∷ qs) = false

unfoldable pub all_available : List Worker → Bool
all_available [] = true
all_available (w ∷ ws) = if is_valid w.task then false else all_available ws

unfoldable pub is_idle : Scheduler → Bool
unfolding all_empty all_available
is_idle s = if all_empty s.pending then all_available s.workers else false

unfoldable pub workers_total_count : Scheduler → ℕ
workers_total_count s = length s.workers

-- `workersCount`; past the queues, where the check fails, it is zero.
unfoldable pub workers_count : Scheduler → TaskPriority → ℤ
workers_count s p = elim (get_elem? s.workers_per_prio (to_int p)) [ none ↦ pos 0 | some n ↦ n ]

-- The loop of resolveTaskPriority: `g` is pParentGroup.
unfoldable pub resolve_loop : ℕ → Build → Store → Option ℕ → Outcome TaskPriority
unfolding same_priority
resolve_loop zero build store g = spent
resolve_loop (suc fuel) build store none = if ensure build false then fault else ok normal
resolve_loop (suc fuel) build store (some g) =
    let rest = resolve_loop fuel build store (store g).parent in
    if same_priority (store g).priority inherit then rest else ok (store g).priority

unfoldable pub resolve_task_priority : ℕ → Build → Store → ℕ → Outcome TaskPriority
unfolding resolve_loop
resolve_task_priority fuel build store t =
    if same_priority (store t).priority inherit
    then resolve_loop fuel build store (store t).parent
    else ok (store t).priority

-- `pendingTasks_[int(priority)].push(hTask)`; past the array it is a fault.
unfoldable pub push : List (List ℕ) → TaskPriority → ℕ → Outcome (List (List ℕ))
push qs p t = elim (get_elem? qs (to_int p)) [
  | none ↦ fault
  | some q ↦ ok (set qs (to_int p) (q ++ t ∷ []))
]

unfoldable pub add : ℕ → Build → Store → Scheduler → Handle → Outcome Scheduler
unfolding resolve_task_priority push wake_up_workers_with_priority
add fuel build store s none = ok s
add fuel build store s (some t) =
    if not (store t).grabbed && not (store t).done
    then elim (resolve_task_priority fuel build store t) [
      | fault ↦ fault
      | spent ↦ spent
      | ok p ↦ elim (push s.pending p t) [
        | fault ↦ fault
        | spent ↦ spent
        | ok qs ↦
            ok (record s { pending = qs; workers = wake_up_workers_with_priority s.workers p })
      ]
    ]
    else ok s
