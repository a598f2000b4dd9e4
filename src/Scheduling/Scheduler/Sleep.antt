-- ===== src/Scheduling/Scheduler/Sleep.antt =====
-- scheduler.hpp: how a worker goes to sleep in waitForNextTask while others add tasks, take them or stop
-- the scheduler. Each test of the queues, the flag or the semaphore is a step of its own.
use oqpi.Base.{ℕ, suc, ◌<◌, ◌≡◌, Bool, true, false, List, [], ◌∷◌, ◌++◌, update, if◌then◌else◌}
use oqpi.Scheduling.Task.{Store, is_open, try_grab}
use oqpi.Scheduling.Scheduler.Pump.{AllClosed}

-- Where the worker stands: at `while (w.tryWait());`, at the test of `running_`, at the queue of a
-- priority, at `w.wait()`, with a task that it has grabbed, or on the way out.
pub data Pc : Type 0 where
  draining checking : Pc
  scanning : ℕ → Pc
  waiting : Pc
  working : ℕ → Pc
  leaving : Pc

-- `tokens` is the count of the worker's semaphore, and `wakes` how many calls have changed the
-- scheduler and are still to notify this worker.
pub record Sleeper : Type 0 where
  pub pc : Pc
  pub store : Store
  pub queue : ℕ → List ℕ
  pub running : Bool
  pub tokens : ℕ
  pub wakes : ℕ

-- PRIO_COUNT
abbrev pub prio_count : ℕ
prio_count = 5

-- The steps of a worker that may work on the priorities of which `can` holds, and of the others.
pub data Step (can : ℕ → Bool) (s : Sleeper) : Sleeper → Type 0 where
  take_token : (n : ℕ) → s.pc ≡ draining → s.tokens ≡ suc n → Step can s (record s { tokens = n })
  no_token : s.pc ≡ draining → s.tokens ≡ 0 → Step can s (record s { pc = checking })
  check : s.pc ≡ checking → s.running ≡ true → Step can s (record s { pc = scanning 0 })
  leave : s.pc ≡ checking → s.running ≡ false → Step can s (record s { pc = leaving })
  skip_level :
      (i : ℕ) → s.pc ≡ scanning i → can i ≡ false → Step can s (record s { pc = scanning (suc i) })
  empty_level :
      (i : ℕ) → s.pc ≡ scanning i → s.queue i ≡ [] → Step can s (record s { pc = scanning (suc i) })
  drop :
      (i t : ℕ) (q : List ℕ)
      → s.pc ≡ scanning i
      → s.queue i ≡ t ∷ q
      → is_open s.store t ≡ false
      → Step can s (record s { store = (try_grab s.store t).1; queue = update s.queue i q })
  find :
      (i t : ℕ) (q : List ℕ)
      → s.pc ≡ scanning i
      → s.queue i ≡ t ∷ q
      → is_open s.store t ≡ true
      → Step can s
          (record s { pc = working t; store = (try_grab s.store t).1; queue = update s.queue i q })
  give_up : s.pc ≡ scanning prio_count → Step can s (record s { pc = waiting })
  wake_up :
      (n : ℕ)
      → s.pc ≡ waiting
      → s.tokens ≡ suc n
      → Step can s (record s { pc = draining; tokens = n })
  ask_again : (t : ℕ) → s.pc ≡ working t → Step can s (record s { pc = draining })
  -- `scheduler::add` by another thread: the queue first, and then the worker if it may work on it.
  pushed :
      (i t : ℕ)
      → Step can s (record s {
        queue = update s.queue i (s.queue i ++ t ∷ []);
        wakes = if can i then suc s.wakes else s.wakes;
      })
  -- `scheduler::stop`: the flag first, and then all workers.
  stopped : Step can s (record s { running = false; wakes = suc s.wakes })
  notified : (n : ℕ) → s.wakes ≡ suc n → Step can s (record s { tokens = suc s.tokens; wakes = n })
  -- Another worker pops the front of a queue.
  popped :
      (i t : ℕ) (q : List ℕ)
      → s.queue i ≡ t ∷ q
      → Step can s (record s { queue = update s.queue i q })
  -- Others grab tasks and finish them.
  closed :
      (store : Store)
      → ((t : ℕ) → is_open store t ≡ true → is_open s.store t ≡ true)
      → Step can s (record s { store = store })

pub data Steps (can : ℕ → Bool) (s : Sleeper) : Sleeper → Type 0 where
  start_there : Steps can s s
  and_then : {s' s'' : Sleeper} → Steps can s s' → Step can s' s'' → Steps can s s''

-- How many priorities the worker has been through since it last took its tokens.
unfoldable pub scanned : Pc → ℕ
scanned draining = 0
scanned checking = 0
scanned (scanning i) = i
scanned waiting = prio_count
scanned (working t) = 0
scanned leaving = 0

unfoldable pub is_past_check : Pc → Bool
is_past_check draining = false
is_past_check checking = false
is_past_check (scanning i) = true
is_past_check waiting = true
is_past_check (working t) = false
is_past_check leaving = false

-- A worker that has no token and will get none has missed nothing in the queues behind it.
unfoldable pub IsQuiet : (ℕ → Bool) → Sleeper → Type 0
IsQuiet can s =
    s.tokens ≡ 0
    → s.wakes ≡ 0
    → (i : ℕ) → can i ≡ true
    → i < scanned s.pc
    → AllClosed (is_open s.store) (s.queue i)

-- Nor has it missed that the scheduler stops.
unfoldable pub IsAlive : Sleeper → Type 0
IsAlive s = s.tokens ≡ 0 → s.wakes ≡ 0 → is_past_check s.pc ≡ true → s.running ≡ true
