-- ===== src/Scheduling/Workers/Chain.antt =====
-- The turns of a worker, alone with a sequence of tasks.
use mathlib.Core.List.{append_assoc, append-nil}
use oqpi.Base.{
  ℕ, suc, ◌<◌, ◌≤◌, ◌≡◌, refl, sym, ap, subst, ◌∙◌, true, false, not, ◌&&◌, none, some, List, [],
  ◌∷◌, ◌++◌, length, arith, ◌==◌, Bool-cases, inl, inr, contains,
}
use oqpi.Scheduling.Priority.{TaskType, wprio_any, inherit, to_int, same_priority}
use oqpi.Scheduling.Task.{Task, is_open}
use oqpi.Scheduling.Scheduler.{ok}
use oqpi.Scheduling.Scheduler.Queued.{queued}
use oqpi.Scheduling.Groups.{Node, unit_task, sequence_group, group_post_execute, World}
use oqpi.Scheduling.Groups.Single.Ran.{Ran, Ran-trans, Ran-widen, only, told}
use oqpi.Scheduling.Groups.Single.Trees.{leaf, trace, task_events}
use oqpi.Scheduling.Groups.Single.Laws.{AllDone}
use oqpi.Scheduling.Groups.Ended.{is_part}
use oqpi.Scheduling.Groups.Sequel.{chain_end, CanFollow, Passed, execute-Passed}
use oqpi.Scheduling.Workers.Loop.{WorkerRun, next_turn, worker_turn, worker_turns}
use oqpi.Scheduling.Workers.Turn.{
  turns_lem, after_turn, turn_with, searched, searched_lem, searched-Ran, searched-node,
  searched-levels, grabbed_now, same_parent,
}

-- The tasks belong to the sequence, each is named once, and each has a priority of its own.
unfoldable pub AllQueued : World → ℕ → List ℕ → Type 0
unfolding contains is_open
AllQueued w g [] = Unit {0}
AllQueued w g (t ∷ ts) =
    (w.node t ≡ unit_task)
    × ((w.store t).parent ≡ some g)
    × (is_open w.store t ≡ true)
    × (same_priority (w.store t).priority inherit ≡ false)
    × (to_int (w.store t).priority < 5)
    × ((g == t) ≡ false)
    × (contains ts t ≡ false)
    × AllQueued w g ts

-- `w'` is `w` when the rest of the sequence has run.
pub record Chained (g : ℕ) (ts : List ℕ) (w w' : World) : Type 0 where
  pub ran :
      Ran (is_part g ts) (task_events w.type ts ++ (group_post_execute g ∷ told w.type g)) w w'
  pub tasks_done : AllDone (contains ts) w'
  pub group_done : (w'.store g).done ≡ true
  pub node : w'.node g ≡ sequence_group []
  pub empty : queued w'.scheduler.pending ≡ []

-- The search of the worker before the task runs changes only the task.
Passed-from :
    (g t : ℕ) (q : List ℕ) (w w₁ w' : World)
    → Ran (only t) [] w w₁
    → w₁.node ≡ w.node
    → length w₁.scheduler.pending ≡ length w.scheduler.pending
    → w₁.scheduler.running ≡ w.scheduler.running
    → Passed g t q w₁ w'
    → Passed g t q w w'
unfolding is_part contains
Passed-from g t q w w₁ w' first nodes levels runs p =
    let events = λ (ty : ℕ → TaskType). trace ty (leaf t) ++ chain_end ty g q in
    let part = is_part g (t ∷ []) in
    record {
      ran =
          Ran-trans part [] (events w.type) w w₁ w'
            (Ran-widen (only t) part [] w w₁ (λ x out. ground arith) first)
            (subst (λ ty. Ran part (events ty) w₁ w') first.types p.ran);
      node = p.node;
      task_done = p.task_done;
      top = p.top;
      group_done = p.group_done;
      others = λ x out. p.others x out ∙ ap (λ (f : ℕ → Node). f x) nodes;
      queue = p.queue;
      same_levels = p.same_levels ∙ levels;
      same_running = p.same_running ∙ runs;
    }

-- What is kept of all but the sequence and one task.
module _ (g t : ℕ) (w w' : World)
    (stores : (x : ℕ) → (g == x) ≡ false → (t == x) ≡ false → w'.store x ≡ w.store x)
    (nodes : (x : ℕ) → (g == x) ≡ false → w'.node x ≡ w.node x) where
  pub AllQueued-kept : (ts : List ℕ) → contains ts t ≡ false → AllQueued w g ts → AllQueued w' g ts
  unfolding AllQueued contains is_open
  AllQueued-kept [] once all = tt
  AllQueued-kept (x ∷ ts) once (unit, bound, open_x, own, level, other, single, all) =
      let same = stores x other (ground arith) in
      (
        nodes x other ∙ unit,
        ap (λ (o : Task). o.parent) same ∙ bound,
        ap (λ (o : Task). not o.grabbed && not o.done) same ∙ open_x,
        ap (λ (o : Task). same_priority o.priority inherit) same ∙ own,
        rw same level,
        other,
        single,
        AllQueued-kept ts (ground arith) all,
      )

  pub follow :
      (q : List ℕ)
      → contains q t ≡ false
      → length w'.scheduler.pending ≡ 5
      → AllQueued w g q
      → CanFollow w' g t q
  unfolding AllQueued contains is_open
  follow [] once levels all = tt
  follow (x ∷ q) once levels (unit, bound, open_x, own, level, other, single, all) =
      let same = stores x other (ground arith) in
      (
        ap (λ (o : Task). not o.grabbed && not o.done) same ∙ open_x,
        ap (λ (o : Task). same_priority o.priority inherit) same ∙ own,
        rw (same, levels) level,
        ground arith,
      )

pub AllQueued-Passed :
    (g t : ℕ) (q : List ℕ) (w w' : World)
    → Passed g t q w w'
    → (ts : List ℕ) → contains ts t ≡ false
    → AllQueued w g ts
    → AllQueued w' g ts
unfolding is_part contains
AllQueued-Passed g t q w w' p ts once all =
    AllQueued-kept g t w w' (λ x a b. p.ran.stores x (rw (a, b) refl)) p.others ts once all

pub Chained-last : (g t : ℕ) (w w' : World) → Passed g t [] w w' → Chained g (t ∷ []) w w'
unfolding task_events chain_end AllDone contains
Chained-last g t w w' p =
    let part = is_part g (t ∷ []) in
    let head = trace w.type (leaf t) in
    record {
      ran =
          subst (λ l. Ran part (l ++ (group_post_execute g ∷ told w.type g)) w w')
            (sym (append-nil head)) p.ran;
      tasks_done = λ x i.
          let here : t ≡ x = ground arith in ap (λ y. (w'.store y).done) (sym here) ∙ p.task_done;
      group_done = p.group_done refl;
      node = p.node;
      empty = p.queue;
    }

pub Chained-step :
    (g t x : ℕ) (q : List ℕ) (w w₁ w' : World)
    → Passed g t (x ∷ q) w w₁
    → Chained g (x ∷ q) w₁ w'
    → Chained g (t ∷ x ∷ q) w w'
unfolding task_events chain_end AllDone contains is_part
Chained-step g t x q w w₁ w' p c =
    let ts = x ∷ q in
    let part = is_part g (t ∷ ts) in
    let head = trace w.type (leaf t) in
    let last = group_post_execute g ∷ told w.type g in
    let first =
      Ran-widen (is_part g (t ∷ [])) part (head ++ []) w w₁ (λ y out. ground arith) p.ran in
    let rest =
      subst
        (λ (ty : ℕ → TaskType).
          Ran part (task_events ty ts ++ (group_post_execute g ∷ told ty g)) w₁ w')
        p.ran.types
        (Ran-widen (is_part g ts) part
          (task_events w₁.type ts ++ (group_post_execute g ∷ told w₁.type g)) w₁ w'
          (λ y out. ground arith) c.ran) in
    record {
      ran =
          subst (λ es. Ran part es w w')
            (ap (λ l. l ++ (task_events w.type ts ++ last)) (append-nil head)
              ∙ sym (append_assoc head (task_events w.type ts) last))
            (Ran-trans part (head ++ []) (task_events w.type ts ++ last) w w₁ w' first rest);
      tasks_done = λ y i. elim (Bool-cases (t == y)) [
        | inl same ↦
            let here : t ≡ y = ground arith in
            c.ran.stays_done y (ap (λ z. (w₁.store z).done) (sym here) ∙ p.task_done)
        | inr other ↦ c.tasks_done y (ground arith)
      ];
      group_done = c.group_done;
      node = c.node;
      empty = c.empty;
    }

-- A turn with a task of the sequence.
member_turn :
    (rounds up down : ℕ) (r : WorkerRun) (g t : ℕ) (q : List ℕ)
    → r.running ≡ true
    → r.world.scheduler.running ≡ true
    → length r.world.scheduler.pending ≡ 5
    → queued r.world.scheduler.pending ≡ t ∷ []
    → r.world.node g ≡ sequence_group q
    → (r.world.store g).parent ≡ none
    → AllQueued r.world g (t ∷ q)
    → (w' : World) × (worker_turn (suc rounds) (suc (suc up)) (suc down) wprio_any r
        ≡ ok (next_turn (after_turn r t w')))
      × Passed g t q r.world w'
unfolding AllQueued
member_turn rounds up down r g t q running runs levels queue node top
      (unit, bound, free, own, level, other, once, all) =
    let w = r.world in
    let short : length w.scheduler.pending ≤ 5 = omega arith in
    let s = searched w t [] free runs short queue in
    let (stop, found, store, rest, few, on) = searched_lem w t [] free runs short queue in
    let first = searched-Ran w t [] free runs short queue in
    let nodes = searched-node w t [] free runs short queue in
    let count = searched-levels w t [] free runs short queue in
    let parents = same_parent w t [] free runs short queue in
    let (w', run, passed) =
      execute-Passed g t s other (parents g ∙ top) up down q
        (ap (λ (f : ℕ → Node). f t) nodes ∙ unit) (grabbed_now w t [] free runs short queue)
        (parents t ∙ bound) (ap (λ (f : ℕ → Node). f g) nodes ∙ node) rest
        (follow g t w s (λ x a b. first.stores x b) (λ x a. ap (λ (f : ℕ → Node). f x) nodes) q once
          (count ∙ levels) all) in
    (
      w',
      turn_with w t [] free runs short queue rounds (suc (suc up)) (suc down) r w' refl running run,
      Passed-from g t q w s w' first nodes count (on ∙ sym runs) passed,
    )

-- The turns with the tasks of the sequence, from its first on.
pub worker_turns-Chained :
    (q : List ℕ) (t rounds up down : ℕ) (r : WorkerRun) (g : ℕ)
    → r.running ≡ true
    → r.world.scheduler.running ≡ true
    → length r.world.scheduler.pending ≡ 5
    → queued r.world.scheduler.pending ≡ t ∷ []
    → r.world.node g ≡ sequence_group q
    → (r.world.store g).parent ≡ none
    → AllQueued r.world g (t ∷ q)
    → (r' : WorkerRun) × (worker_turns
          (length (t ∷ q))
          (suc rounds)
          (suc (suc up))
          (suc down)
          wprio_any
          r
        ≡ ok (next_turn r'))
      × Chained g (t ∷ q) r.world r'.world
unfolding AllQueued worker_turns after_turn
worker_turns-Chained [] t rounds up down r g running runs levels queue node top all =
    let (w', turn, p) =
      member_turn rounds up down r g t [] running runs levels queue node top all in
    (
      after_turn r t w',
      turns_lem 0 (suc rounds) (suc (suc up)) (suc down) r (after_turn r t w') turn,
      Chained-last g t r.world w' p,
    )
worker_turns-Chained (x ∷ q) t rounds up down r g running runs levels queue node top
      (unit, bound, free, own, level, other, once, all) =
    let (w', turn, p) =
      member_turn rounds up down r g t (x ∷ q) running runs levels queue node top
        (unit, bound, free, own, level, other, once, all) in
    let r₁ = after_turn r t w' in
    let (r', run, c) =
      worker_turns-Chained q x rounds up down r₁ g running (p.same_running ∙ runs)
        (p.same_levels ∙ levels) p.queue p.node p.top
        (AllQueued-Passed g t (x ∷ q) r.world w' p (x ∷ q) once all) in
    (
      r',
      turns_lem (length (x ∷ q)) (suc rounds) (suc (suc up)) (suc down) r r₁ turn ∙ run,
      Chained-step g t x q r.world w' r'.world p c,
    )
