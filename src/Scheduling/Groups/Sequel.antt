-- ===== src/Scheduling/Groups/Sequel.antt =====
-- sequence_group.hpp: the run of one task of a sequence, which puts the next one into its queue.
use oqpi.Base.{
  ℕ, zero, suc, ◌<◌, ◌≡◌, refl, ap, ◌∙◌, subst, Bool, true, false, not, ◌&&◌, none, some, List, [],
  ◌∷◌, ◌++◌, arith, ◌==◌, ==_refl, length, set, get_elem?, length-set,
}
use oqpi.Scheduling.Priority.{TaskType, inherit, to_int, same_priority}
use oqpi.Scheduling.Task.{Task, is_open, set_done}
use oqpi.Scheduling.Scheduler.{
  Scheduler, Outcome, ok, push, add, resolve_task_priority, wake_up_workers_with_priority,
}
use oqpi.Scheduling.Scheduler.Queued.{queued}
use oqpi.Scheduling.Groups.Objects.{
  Node, unit_task, sequence_group, Event, group_post_execute, World, invoke, set_node, schedule,
}
use oqpi.Scheduling.Groups.Exec.{sequence_task_done, one_task_done, notify_parent, execute}
use oqpi.Scheduling.Groups.Single.Ran.{Ran, only, told, set_node-Ran}
use oqpi.Scheduling.Groups.Single.Trees.{leaf, trace}
use oqpi.Scheduling.Groups.Single.Laws.{invoked-Ran}
use oqpi.Scheduling.Groups.Unit.{invoked-parent, invoked-node, invoked-scheduler}
use oqpi.Scheduling.Groups.Done.{finished, notify_group_done-top}
use oqpi.Scheduling.Groups.Members.{unparented, execute-in_group}
use oqpi.Scheduling.Groups.Ended.{
  is_part, finished-Ran, reset_facts, closing-Ran, closing-done, closing-top, closing-others,
}

-- A push onto queues that are empty.
set-queued :
    (qs : List (List ℕ)) (i t : ℕ)
    → queued qs ≡ []
    → i < length qs
    → (get_elem? qs i ≡ some []) × (queued (set qs i ([] ++ t ∷ [])) ≡ t ∷ [])
unfolding queued
set-queued [] i t empty l = absurd (omega arith)
set-queued ([] ∷ qs) zero t empty l = (refl, ap (λ r. t ∷ r) empty)
set-queued ([] ∷ qs) (suc i) t empty l = set-queued qs i t empty (omega arith)
set-queued ((x ∷ q) ∷ qs) i t empty l = cc empty

-- The queues with just `t`, in the queue of its priority.
pub schedule-alone :
    (w : World) (t : ℕ)
    → is_open w.store t ≡ true
    → same_priority (w.store t).priority inherit ≡ false
    → to_int (w.store t).priority < length w.scheduler.pending
    → queued w.scheduler.pending ≡ []
    → (s : Scheduler) × (schedule w (some t) ≡ ok (record w { scheduler = s }))
      × (queued s.pending ≡ t ∷ [])
      × (length s.pending ≡ length w.scheduler.pending)
      × (s.running ≡ w.scheduler.running)
unfolding schedule add resolve_task_priority push is_open
schedule-alone w t open_t own level empty =
    let p = (w.store t).priority in
    let (there, alone) = set-queued w.scheduler.pending (to_int p) t empty level in
    let qs : List (List ℕ) = set w.scheduler.pending (to_int p) ([] ++ t ∷ []) in
    (
      record w.scheduler {
        pending = qs;
        workers = wake_up_workers_with_priority w.scheduler.workers p;
      },
      rw (open_t, own, there) refl,
      alone,
      length-set w.scheduler.pending (to_int p) ([] ++ t ∷ []),
      refl,
    )

-- What the end of a task leaves in the queues and in the sequence, which holds `q`.
abbrev pub next_of : List ℕ → List ℕ
next_of [] = []
next_of (x ∷ q) = x ∷ []

abbrev pub rest_of : List ℕ → List ℕ
rest_of [] = []
rest_of (x ∷ q) = q

-- What is to be seen of the sequence at the end of a task: its own end, if no task is left.
unfoldable pub chain_end : (ℕ → TaskType) → ℕ → List ℕ → List Event
unfolding told
chain_end type g [] = group_post_execute g ∷ told type g
chain_end type g (x ∷ q) = []

-- The next task can be put into a queue.
abbrev pub CanFollow : World → ℕ → ℕ → List ℕ → Type 0
CanFollow w g t [] = Unit {0}
CanFollow w g t (x ∷ q) =
    (is_open w.store x ≡ true)
    × (same_priority (w.store x).priority inherit ≡ false)
    × (to_int (w.store x).priority < length w.scheduler.pending)
    × ((t == x) ≡ false)

-- `w'` is `w` when the task has run and the sequence has gone on to `q`.
pub record Passed (g t : ℕ) (q : List ℕ) (w w' : World) : Type 0 where
  pub ran : Ran (is_part g (t ∷ [])) (trace w.type (leaf t) ++ chain_end w.type g q) w w'
  pub node : w'.node g ≡ sequence_group (rest_of q)
  pub task_done : (w'.store t).done ≡ true
  pub top : (w'.store g).parent ≡ none
  pub group_done : q ≡ [] → (w'.store g).done ≡ true
  pub others : (x : ℕ) → (g == x) ≡ false → w'.node x ≡ w.node x
  pub queue : queued w'.scheduler.pending ≡ next_of q
  pub same_levels : length w'.scheduler.pending ≡ length w.scheduler.pending
  pub same_running : w'.scheduler.running ≡ w.scheduler.running

scheduler-Ran :
    (inside : ℕ → Bool) (events : List Event) (w w' : World) (s : Scheduler)
    → Ran inside events w w'
    → Ran inside events w (record w' { scheduler = s })
scheduler-Ran inside events w w' s r = record {
  types = r.types;
  logged = r.logged;
  stores = r.stores;
  nodes = r.nodes;
  stays_done = r.stays_done;
}

module _ (g t : ℕ) (w : World) (other : (g == t) ≡ false) (alone : (w.store g).parent ≡ none) where
  abbrev called : World
  called = invoke w t

  called-store : (x : ℕ) → (t == x) ≡ false → called.store x ≡ w.store x
  called-store x out = (invoked-Ran w t).stores x out

  -- The last task.
  end-Passed :
      (up : ℕ)
      → called.node g ≡ sequence_group []
      → queued w.scheduler.pending ≡ []
      → one_task_done (notify_parent (suc up)) called g ≡ ok (finished called g)
        × Passed g t [] w (unparented (finished called g) t)
  unfolding one_task_done sequence_task_done chain_end set_done
  end-Passed up node empty =
      let second : Ran (only g) (chain_end w.type g []) called (finished called g) =
        subst (λ (ty : ℕ → TaskType). Ran (only g) (chain_end ty g []) called (finished called g))
          (invoked-Ran w t).types (finished-Ran g called) in
      let events = chain_end w.type g [] in
      let w₂ = finished called g in
      let (nodes, store, scheduler) = reset_facts g t events w w₂ other second in
      (
        rw (node, one_task_done) (notify_group_done-top up called g (invoked-parent w t g ∙ alone)),
        record {
          ran = closing-Ran g t events w w₂ other second;
          node = ap (λ (f : ℕ → Node). f g) nodes ∙ node;
          task_done = closing-done g t events w w₂ other second;
          top = closing-top g t events w w₂ other second (rw (==_refl g) refl) alone;
          group_done = λ e. ap (λ (o : Task). o.done) store ∙ rw (==_refl g) refl;
          others = closing-others g t events w w₂ other second;
          queue =
              ap (λ (s : Scheduler). queued s.pending) (scheduler ∙ invoked-scheduler w t) ∙ empty;
          same_levels =
              ap (λ (s : Scheduler). length s.pending) (scheduler ∙ invoked-scheduler w t);
          same_running = ap (λ (s : Scheduler). s.running) (scheduler ∙ invoked-scheduler w t);
        },
      )

  -- A task that another one follows.
  next-Passed :
      (notify_up : World → ℕ → Outcome World) (x : ℕ) (q : List ℕ)
      → called.node g ≡ sequence_group (x ∷ q)
      → queued w.scheduler.pending ≡ []
      → CanFollow w g t (x ∷ q)
      → (w₂ : World) × (one_task_done notify_up called g ≡ ok w₂)
        × Passed g t (x ∷ q) w (unparented w₂ t)
  unfolding one_task_done sequence_task_done chain_end set_node is_open
  next-Passed notify_up x q node empty (open_x, own, level, apart) =
      let w₁ = set_node called g (sequence_group q) in
      let same = called-store x apart in
      let scheduler₁ = invoked-scheduler w t in
      let (s, added, alone_x, levels, runs) =
        schedule-alone w₁ x (ap (λ (o : Task). not o.grabbed && not o.done) same ∙ open_x)
          (ap (λ (o : Task). same_priority o.priority inherit) same ∙ own)
          (rw (same, scheduler₁) level)
          (ap (λ (c : Scheduler). queued c.pending) scheduler₁ ∙ empty) in
      let w₂ : World = record w₁ { scheduler = s } in
      let second =
        scheduler-Ran (only g) [] called w₁ s (set_node-Ran g called (sequence_group q)) in
      let (nodes, store, scheduler) = reset_facts g t [] w w₂ other second in
      (
        w₂,
        rw (node, one_task_done) added,
        record {
          ran = closing-Ran g t [] w w₂ other second;
          node = ap (λ (f : ℕ → Node). f g) nodes ∙ rw (==_refl g) refl;
          task_done = closing-done g t [] w w₂ other second;
          top = closing-top g t [] w w₂ other second refl alone;
          group_done = λ e. cc e;
          others = closing-others g t [] w w₂ other second;
          queue = ap (λ (c : Scheduler). queued c.pending) scheduler ∙ alone_x;
          same_levels =
              ap (λ (c : Scheduler). length c.pending) scheduler
              ∙ levels
              ∙ ap (λ (c : Scheduler). length c.pending) scheduler₁;
          same_running =
              ap (λ (c : Scheduler). c.running) scheduler
              ∙ runs
              ∙ ap (λ (c : Scheduler). c.running) scheduler₁;
        },
      )

  -- A task of the sequence that is grabbed runs.
  pub execute-Passed :
      (up down : ℕ) (q : List ℕ)
      → w.node t ≡ unit_task
      → (w.store t).grabbed ≡ true
      → (w.store t).parent ≡ some g
      → w.node g ≡ sequence_group q
      → queued w.scheduler.pending ≡ []
      → CanFollow w g t q
      → (w' : World) × (execute (suc (suc up)) (suc down) w t ≡ ok w') × Passed g t q w w'
  execute-Passed up down [] unit grabbed bound node empty follow =
      let (run, passed) =
        end-Passed up (ap (λ (f : ℕ → Node). f g) (invoked-node w t) ∙ node) empty in
      (_, execute-in_group g up down w t (finished called g) unit grabbed bound run, passed)
  execute-Passed up down (x ∷ q) unit grabbed bound node empty follow =
      let (w₂, run, passed) =
        next-Passed (notify_parent (suc up)) x q
          (ap (λ (f : ℕ → Node). f g) (invoked-node w t) ∙ node) empty follow in
      (_, execute-in_group g up down w t w₂ unit grabbed bound run, passed)
