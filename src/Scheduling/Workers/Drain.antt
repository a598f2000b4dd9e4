-- ===== src/Scheduling/Workers/Drain.antt =====
-- The turns of a worker that may work on any priority, on queues of tasks.
use mathlib.Core.List.{append_assoc, append-nil}
use oqpi.Base.{
  contains, ℕ, suc, ◌≤◌, ◌≡◌, refl, sym, ap, subst, ◌∙◌, true, false, not, ◌&&◌, ◌||◌, none, List,
  [], ◌∷◌, ◌++◌, length, arith, ◌==◌, Bool-cases, inl, inr,
}
use oqpi.Scheduling.Priority.{TaskType, wprio_any}
use oqpi.Scheduling.Task.{Task, is_open}
use oqpi.Scheduling.Scheduler.{ok}
use oqpi.Scheduling.Groups.{Node, unit_task, Event, World, invoke}
use oqpi.Scheduling.Groups.Single.Ran.{Ran, Ran-trans, Ran-none, Ran-widen, only}
use oqpi.Scheduling.Groups.Single.Trees.{leaf, trace, task_events}
use oqpi.Scheduling.Groups.Single.Laws.{invoked-Ran, invoked-AllDone, AllDone, or_false}
use oqpi.Scheduling.Groups.Single.All.{done_by}
use oqpi.Scheduling.Workers.Loop.{
  WorkerEvent, worker_idle, worker_active, worker_pre_execute, worker_post_execute, WorkerRun,
  next_turn, see, worker_turns,
}
use oqpi.Scheduling.Scheduler.Queued.{queued}
use oqpi.Scheduling.Workers.Turn.{
  turns_lem, after_turn, turn_lem, searched, searched_lem, searched-Ran, searched-node,
}
use oqpi.Scheduling.Groups.Unit.{invoked-scheduler, invoked-node}

-- The tasks are open, in no group, and each is named once.
unfoldable pub AllReady : World → List ℕ → Type 0
unfolding is_open
AllReady w [] = Unit {0}
AllReady w (t ∷ ts) =
    (w.node t ≡ unit_task)
    × (is_open w.store t ≡ true)
    × ((w.store t).parent ≡ none)
    × (contains ts t ≡ false)
    × AllReady w ts

-- What is to be seen by the context of the worker.
unfoldable pub turn_events : List ℕ → List WorkerEvent
turn_events [] = []
turn_events (t ∷ ts) =
    worker_idle ∷ worker_active ∷ worker_pre_execute t ∷ worker_post_execute t ∷ turn_events ts

module _ (t : ℕ) (events : List Event) (w w' : World) (ran : Ran (only t) events w w')
    (nodes : w'.node ≡ w.node) where
  AllReady-Ran : (ts : List ℕ) → contains ts t ≡ false → AllReady w ts → AllReady w' ts
  unfolding AllReady contains is_open
  AllReady-Ran [] other ready = tt
  AllReady-Ran (x ∷ ts) other (node, open_x, alone, once, ready) =
      let same = ran.stores x (ground arith) in
      (
        ap (λ (f : ℕ → Node). f x) nodes ∙ node,
        ap (λ (o : Task). not o.grabbed && not o.done) same ∙ open_x,
        ap (λ (o : Task). o.parent) same ∙ alone,
        once,
        AllReady-Ran ts (ground arith) ready,
      )

-- What one turn with `t` does to the world.
module _ (w : World) (t : ℕ) (ts : List ℕ) (free : is_open w.store t ≡ true)
    (runs : w.scheduler.running ≡ true) (short : length w.scheduler.pending ≤ 5)
    (queue : queued w.scheduler.pending ≡ t ∷ ts) where
  abbrev found : World
  found = searched w t ts free runs short queue

  turn-Ran : Ran (only t) (trace w.type (leaf t)) w (invoke found t)
  unfolding trace
  turn-Ran =
      let first = searched-Ran w t ts free runs short queue in
      subst (λ (ty : ℕ → TaskType). Ran (only t) (trace ty (leaf t)) w (invoke found t)) first.types
        (Ran-trans (only t) [] _ w found (invoke found t) first (invoked-Ran found t))

  turn-queues :
      (queued (invoke found t).scheduler.pending ≡ ts)
      × (length (invoke found t).scheduler.pending ≤ 5)
      × ((invoke found t).scheduler.running ≡ true)
  turn-queues =
      let (stop, f, store, rest, few, on) = searched_lem w t ts free runs short queue in
      rw (invoked-scheduler found t) (rest, few, on)

  turn-node : (invoke found t).node ≡ w.node
  turn-node = invoked-node found t ∙ searched-node w t ts free runs short queue

-- Where the worker is when all of `ts` has run.
Drained : List ℕ → WorkerRun → WorkerRun → Type 0
unfolding AllDone task_events turn_events queued
Drained ts r r' =
    Ran (contains ts) (task_events r.world.type ts) r.world r'.world
    × AllDone (contains ts) r'.world
    × (queued r'.world.scheduler.pending ≡ [])
    × (r'.seen ≡ r.seen ++ turn_events ts)

Drained-turn :
    (t : ℕ) (ts : List ℕ) (r r₁ r' : WorkerRun)
    → Ran (only t) (trace r.world.type (leaf t)) r.world r₁.world
    → AllDone (only t) r₁.world
    → r₁.seen
      ≡ r.seen ++ (worker_idle ∷ worker_active ∷ worker_pre_execute t ∷ worker_post_execute t ∷ [])
    → Drained ts r₁ r'
    → Drained (t ∷ ts) r r'
unfolding Drained AllDone contains task_events turn_events
Drained-turn t ts r r₁ r' ran done seen (rans, dones, empty, sees) = (
  Ran-trans (contains (t ∷ ts)) (trace r.world.type (leaf t)) (task_events r.world.type ts) r.world
      r₁.world r'.world
      (Ran-widen (only t) (contains (t ∷ ts)) (trace r.world.type (leaf t)) r.world r₁.world
        (λ x out. (or_false (t == x) (contains ts x) out).0) ran)
      (Ran-widen (contains ts) (contains (t ∷ ts)) (task_events r.world.type ts) r₁.world r'.world
        (λ x out. (or_false (t == x) (contains ts x) out).1)
        (subst (λ (ty : ℕ → TaskType). Ran (contains ts) (task_events ty ts) r₁.world r'.world)
          ran.types rans)),
  (λ x i. elim (Bool-cases (t == x)) [
    | inl same ↦ rans.stays_done x (done x same)
    | inr other ↦ dones x (ground arith)
  ]),
  empty,
  sees ∙ ap (λ l. l ++ turn_events ts) seen ∙ append_assoc r.seen _ (turn_events ts),
)

four_seen :
    (xs : List WorkerEvent) (a b c d : WorkerEvent)
    → (((xs ++ a ∷ []) ++ b ∷ []) ++ c ∷ []) ++ d ∷ [] ≡ xs ++ a ∷ b ∷ c ∷ d ∷ []
four_seen [] a b c d = refl
four_seen (x ∷ xs) a b c d = ap (λ l. x ∷ l) (four_seen xs a b c d)

after_turn-seen :
    (r : WorkerRun) (t : ℕ) (w : World)
    → (after_turn r t w).seen
      ≡ r.seen ++ (worker_idle ∷ worker_active ∷ worker_pre_execute t ∷ worker_post_execute t ∷ [])
unfolding after_turn see
after_turn-seen r t w =
    four_seen r.seen worker_idle worker_active (worker_pre_execute t) (worker_post_execute t)

worker_turns-Drained :
    (ts : List ℕ) (rounds up down : ℕ) (r : WorkerRun)
    → r.running ≡ true
    → r.world.scheduler.running ≡ true
    → length r.world.scheduler.pending ≤ 5
    → queued r.world.scheduler.pending ≡ ts
    → AllReady r.world ts
    → (r' : WorkerRun) × (worker_turns (length ts) (suc rounds) (suc up) (suc down) wprio_any r
        ≡ ok (next_turn r'))
      × Drained ts r r'
unfolding AllReady Drained AllDone contains task_events turn_events worker_turns after_turn see
worker_turns-Drained [] rounds up down r running runs short queue ready =
    (r, refl, (Ran-none (contains []) r.world, (λ x i. cc i), queue, sym (append-nil r.seen)))
worker_turns-Drained (t ∷ ts) rounds up down r running runs short queue
      (node, free, alone, once, ready) =
    let w = r.world in
    let w₁ = invoke (searched w t ts free runs short queue) t in
    let r₁ = after_turn r t w₁ in
    let turn = turn_lem w t ts free runs short queue rounds up down r refl running node alone in
    let ran = turn-Ran w t ts free runs short queue in
    let (rest, few, on) = turn-queues w t ts free runs short queue in
    let ready₁ =
      AllReady-Ran t (trace w.type (leaf t)) w w₁ ran (turn-node w t ts free runs short queue) ts
        once ready in
    let (r', run, drained) = worker_turns-Drained ts rounds up down r₁ running on few rest ready₁ in
    (
      r',
      turns_lem (length ts) (suc rounds) (suc up) (suc down) r r₁ turn ∙ run,
      Drained-turn t ts r r₁ r' ran (invoked-AllDone (searched w t ts free runs short queue) t)
          (after_turn-seen r t w₁) drained,
    )

-- A worker that may work on any priority, alone on queues of tasks that are open, in no group and
-- queued once, while the scheduler runs: after as many turns as there are tasks the queues are empty
-- and all of the tasks are done, and besides them only what was done before; the tasks ran in the
-- order of the priorities and, within one, of the queue, each once, and the context of the worker
-- saw it idle, active and around each task.
pub worker_turns-queued :
    (rounds up down : ℕ) (r : WorkerRun)
    → r.running ≡ true
    → r.world.scheduler.running ≡ true
    → length r.world.scheduler.pending ≤ 5
    → AllReady r.world (queued r.world.scheduler.pending)
    → (r' : WorkerRun) × (worker_turns
          (length (queued r.world.scheduler.pending))
          (suc rounds)
          (suc up)
          (suc down)
          wprio_any
          r
        ≡ ok (next_turn r'))
      × (queued r'.world.scheduler.pending ≡ [])
      × (r'.world.log ≡ r.world.log ++ task_events r.world.type (queued r.world.scheduler.pending))
      × (r'.seen ≡ r.seen ++ turn_events (queued r.world.scheduler.pending))
      × ((x : ℕ)
          → (r'.world.store x).done
            ≡ (contains (queued r.world.scheduler.pending) x || (r.world.store x).done))
unfolding Drained AllDone
worker_turns-queued rounds up down r running runs short ready =
    let ts = queued r.world.scheduler.pending in
    let (r', run, (ran, done, empty, seen)) =
      worker_turns-Drained ts rounds up down r running runs short refl ready in
    (
      r',
      run,
      empty,
      ran.logged,
      seen,
      λ x.
          done_by (contains ts x) (r.world.store x).done (r'.world.store x).done (done x)
            (λ out. ap (λ (o : Task). o.done) (ran.stores x out)),
    )
