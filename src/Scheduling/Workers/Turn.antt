-- ===== src/Scheduling/Workers/Turn.antt =====
-- A turn of a worker that may work on any priority, when there is a task for it.
use mathlib.Core.List.{append-nil}
use oqpi.Base.{
  ℕ, suc, ◌≤◌, ◌≡◌, refl, sym, ap, ◌∙◌, true, false, none, some, List, [], ◌∷◌, if◌then◌else◌,
  length, arith, ◌==◌, ==_refl,
}
use oqpi.Scheduling.Priority.{wprio_any}
use oqpi.Scheduling.Task.{Store, try_grab, is_open}
use oqpi.Scheduling.Scheduler.{ensure, Outcome, ok, ◌>>=◌}
use oqpi.Scheduling.Groups.{Node, unit_task, World, invoke, execute, notify_parent}
use oqpi.Scheduling.Groups.Unit.{ensure-holds, alone_lem, unit_lem, invoked-parent}
use oqpi.Scheduling.Groups.Single.Ran.{Ran, only}
use oqpi.Scheduling.Workers.Loop.{
  worker_idle, worker_active, worker_pre_execute, worker_post_execute, WorkerRun, Asked, assigned,
  act, pump_world, receive, signal_available_worker, next_turn, see, work_on, worker_turn,
  worker_turns,
}
use oqpi.Scheduling.Scheduler.Queued.{queued}
use oqpi.Scheduling.Workers.Search.{Finds, pump_task-Finds}

execute_lem :
    (up down : ℕ) (w : World) (t : ℕ)
    → w.node t ≡ unit_task
    → (w.store t).grabbed ≡ true
    → (w.store t).parent ≡ none
    → execute (suc up) (suc down) w t ≡ ok (invoke w t)
execute_lem up down w t node grabbed alone =
    unit_lem (suc up) down w t node
    ∙ ap (λ b. if b then notify_parent (suc up) (invoke w t) t else ok w)
        (ap (ensure w.build) grabbed ∙ ensure-holds w.build)
    ∙ alone_lem up (invoke w t) t (invoked-parent w t t ∙ alone)

assigned_lem :
    (again : Outcome Asked) (w : World) (t : ℕ)
    → w.scheduler.running ≡ true
    → (w.store t).grabbed ≡ true
    → (w.store t).done ≡ false
    → receive again (w, true, some t) ≡ ok (assigned w t)
unfolding receive
assigned_lem again w t runs grabbed undone = rw (runs, grabbed, ensure-holds w.build, undone) refl

-- The object of the worker after a turn with the task `t`.
unfoldable pub after_turn : WorkerRun → ℕ → World → WorkerRun
unfolding see
after_turn r t w =
    see
      (record (see (see (see r worker_idle) worker_active) (worker_pre_execute t)) {
        world = w;
        task = none;
      })
      (worker_post_execute t)

turn_runs :
    (rounds up down : ℕ) (r : WorkerRun)
    → r.running ≡ true
    → worker_turn rounds up down wprio_any r ≡ (
        signal_available_worker rounds wprio_any r.world
        >>= act (execute up down) (see r worker_idle))
unfolding worker_turn
turn_runs rounds up down r running = rw (running, worker_turn) refl

acted_lem :
    (execute_task : World → ℕ → Outcome World) (r : WorkerRun) (w w' : World) (t : ℕ)
    → execute_task w t ≡ ok w'
    → act execute_task (see r worker_idle) (assigned w t) ≡ ok (next_turn (after_turn r t w'))
unfolding act work_on see after_turn
acted_lem execute_task r w w' t e = rw e refl

pub turns_lem :
    (n rounds up down : ℕ) (r r' : WorkerRun)
    → worker_turn rounds up down wprio_any r ≡ ok (next_turn r')
    → worker_turns (suc n) rounds up down wprio_any r ≡ worker_turns n rounds up down wprio_any r'
unfolding worker_turns
turns_lem n rounds up down r r' e = rw (e, worker_turns) refl

-- The world after a search that finds `t`.
module _ (w : World) (t : ℕ) (ts : List ℕ) (free : is_open w.store t ≡ true)
    (runs : w.scheduler.running ≡ true) (short : length w.scheduler.pending ≤ 5)
    (queue : queued w.scheduler.pending ≡ t ∷ ts) where
  pub searched : World
  searched = (pump_world wprio_any w).0

  pub searched_lem :
      ((pump_world wprio_any w).1 ≡ true)
      × ((pump_world wprio_any w).2 ≡ some t)
      × (searched.store ≡ (try_grab w.store t).1)
      × (queued searched.scheduler.pending ≡ ts)
      × (length searched.scheduler.pending ≤ 5)
      × (searched.scheduler.running ≡ true)
  unfolding searched pump_world Finds
  searched_lem =
      let (stop, (found, store, rest, count)) =
        pump_task-Finds w.store w.scheduler t ts free runs short queue in
      (stop, found, store, rest, omega arith, runs)

  open_task : ((w.store t).grabbed ≡ false) × ((w.store t).done ≡ false)
  unfolding is_open
  open_task = (ground arith, ground arith)

  grabbed_at :
      (x : ℕ)
      → searched.store x ≡ (if t == x then record (w.store t) { grabbed = true } else w.store x)
  unfolding try_grab
  grabbed_at x = ap (λ (s : Store). s x) searched_lem.2 ∙ rw (open_task.0) refl

  answer :
      (pump_world wprio_any w).1 ≡ true
      → (pump_world wprio_any w).2 ≡ some t
      → pump_world wprio_any w ≡ (searched, true, some t)
  unfolding searched
  answer stop found = cc (stop, found)

  pub grabbed_now : (searched.store t).grabbed ≡ true
  grabbed_now = ap (λ o. o.grabbed) (grabbed_at t) ∙ rw (==_refl t) refl

  pub same_parent : (x : ℕ) → (searched.store x).parent ≡ (w.store x).parent
  same_parent x = ap (λ o. o.parent) (grabbed_at x) ∙ ground arith

  signal_lem :
      (rounds : ℕ) → signal_available_worker (suc rounds) wprio_any w ≡ ok (assigned searched t)
  unfolding searched signal_available_worker
  signal_lem rounds =
      let (stop, found, store, rest, few, on) = searched_lem in
      ap (receive (signal_available_worker rounds wprio_any searched)) (answer stop found)
      ∙ assigned_lem (signal_available_worker rounds wprio_any searched) searched t on grabbed_now
          (ap (λ o. o.done) (grabbed_at t) ∙ rw (==_refl t) open_task.1)

  pub searched-Ran : Ran (only t) [] w searched
  unfolding searched pump_world
  searched-Ran = record {
    types = refl;
    logged = sym (append-nil w.log);
    stores = λ x out. grabbed_at x ∙ rw out refl;
    nodes = λ x out. refl;
    stays_done = λ x d. ap (λ o. o.done) (grabbed_at x) ∙ ground arith;
  }

  pub searched-node : searched.node ≡ w.node
  unfolding searched pump_world
  searched-node = refl

  pub searched-levels : length searched.scheduler.pending ≡ length w.scheduler.pending
  unfolding searched pump_world Finds
  searched-levels =
      let (stop, (found, store, rest, count)) =
        pump_task-Finds w.store w.scheduler t ts free runs short queue in
      count

  -- The turn, from what the execution of the task comes to.
  pub turn_with :
      (rounds up down : ℕ) (r : WorkerRun) (w' : World)
      → r.world ≡ w
      → r.running ≡ true
      → execute up down searched t ≡ ok w'
      → worker_turn (suc rounds) up down wprio_any r ≡ ok (next_turn (after_turn r t w'))
  turn_with rounds up down r w' here running executed =
      turn_runs (suc rounds) up down r running
      ∙ ap (λ o. o >>= act (execute up down) (see r worker_idle))
          (ap (signal_available_worker (suc rounds) wprio_any) here ∙ signal_lem rounds)
      ∙ acted_lem (execute up down) r searched w' t executed

  pub turn_lem :
      (rounds up down : ℕ) (r : WorkerRun)
      → r.world ≡ w
      → r.running ≡ true
      → w.node t ≡ unit_task
      → (w.store t).parent ≡ none
      → worker_turn (suc rounds) (suc up) (suc down) wprio_any r
        ≡ ok (next_turn (after_turn r t (invoke searched t)))
  turn_lem rounds up down r here running node alone =
      turn_with rounds (suc up) (suc down) r (invoke searched t) here running (
        execute_lem up down searched t (ap (λ (f : ℕ → Node). f t) searched-node ∙ node) grabbed_now
          (same_parent t ∙ alone))
