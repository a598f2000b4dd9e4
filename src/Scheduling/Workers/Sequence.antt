-- ===== src/Scheduling/Workers/Sequence.antt =====
-- A sequence in the turns of a worker, from the turn that takes the group on.
use oqpi.Base.{
  ℕ, suc, ◌≤◌, ◌≡◌, refl, sym, ap, subst, ◌∙◌, true, false, ◌||◌, none, some, List, [], ◌∷◌, ◌++◌,
  length, arith, Bool-cases, inl, inr, ◌==◌, ==_refl, contains,
}
use oqpi.Scheduling.Priority.{TaskType, wprio_any}
use oqpi.Scheduling.Task.{Task, is_open}
use oqpi.Scheduling.Scheduler.{ok, Scheduler}
use oqpi.Scheduling.Scheduler.Queued.{queued}
use oqpi.Scheduling.Groups.{
  Node, sequence_group, group_pre_execute, group_post_execute, World, execute, record_event,
  set_node, run_next,
}
use oqpi.Scheduling.Groups.Unit.{grabbed-grab, parent-grab, grab_lem}
use oqpi.Scheduling.Groups.Single.{grab}
use oqpi.Scheduling.Groups.Single.Ran.{
  Ran, Ran-trans, Ran-widen, only, told, record_event-Ran, set_node-Ran,
}
use oqpi.Scheduling.Groups.Single.Trees.{task_events}
use oqpi.Scheduling.Groups.Single.Laws.{AllDone, grab-Ran}
use oqpi.Scheduling.Groups.Single.All.{done_by}
use oqpi.Scheduling.Groups.Ended.{is_part}
use oqpi.Scheduling.Groups.Sequel.{Passed, execute-Passed}
use oqpi.Scheduling.Workers.Loop.{WorkerRun, next_turn, worker_turn, worker_turns}
use oqpi.Scheduling.Workers.Turn.{
  turns_lem, after_turn, turn_with, searched, searched_lem, searched-Ran, searched-node,
  searched-levels, same_parent,
}
use oqpi.Scheduling.Workers.Chain.{
  AllQueued, AllQueued-kept, AllQueued-Passed, follow, Chained, Chained-last, Chained-step,
  worker_turns-Chained,
}

-- The sequence starts its first task.
module _ (g t : ℕ) (q : List ℕ) (w : World) where
  opened : World
  opened = set_node (record_event w (group_pre_execute g)) g (sequence_group q)

  started : World
  started = grab opened t

  execute-sequence :
      (up down : ℕ)
      → w.node g ≡ sequence_group (t ∷ q)
      → (w.store t).grabbed ≡ false
      → execute up (suc (suc down)) w g ≡ execute up (suc down) started t
  unfolding execute run_next started opened set_node record_event
  execute-sequence up down node free =
      rw (node, execute) (grab_lem (execute up (suc down)) opened t free)

  started-Ran :
      (w.store t).grabbed ≡ false → Ran (is_part g (t ∷ q)) (group_pre_execute g ∷ []) w started
  unfolding started opened is_part contains set_node record_event
  started-Ran free =
      let part = is_part g (t ∷ q) in
      let pre = record_event w (group_pre_execute g) in
      Ran-trans part (group_pre_execute g ∷ []) [] w opened started
        (Ran-trans part (group_pre_execute g ∷ []) [] w pre opened
          (record_event-Ran part w (group_pre_execute g))
          (Ran-widen (only g) part [] pre opened (λ x out. ground arith)
            (set_node-Ran g pre (sequence_group q))))
        (Ran-widen (only t) part [] opened started (λ x out. ground arith) (grab-Ran opened t free))

  started_facts :
      (w.store t).grabbed ≡ false
      → (started.node g ≡ sequence_group q)
        × ((started.store t).grabbed ≡ true)
        × ((x : ℕ) → (started.store x).parent ≡ (w.store x).parent)
        × (started.scheduler ≡ w.scheduler)
        × ((x : ℕ) → (t == x) ≡ false → started.store x ≡ w.store x)
        × ((x : ℕ) → (g == x) ≡ false → started.node x ≡ w.node x)
  unfolding started opened set_node record_event grab
  started_facts free = (
    rw (==_refl g) refl,
    grabbed-grab opened t free,
    λ x. parent-grab opened t x free,
    refl,
    λ x out. (grab-Ran opened t free).stores x out,
    λ x out. rw out refl,
  )

-- The turn that takes the group.
module _ (rounds up down g t : ℕ) (q : List ℕ) (r : WorkerRun) (running : r.running ≡ true)
    (runs : r.world.scheduler.running ≡ true) (levels : length r.world.scheduler.pending ≡ 5)
    (queue : queued r.world.scheduler.pending ≡ g ∷ [])
    (node : r.world.node g ≡ sequence_group (t ∷ q)) (free : is_open r.world.store g ≡ true)
    (top : (r.world.store g).parent ≡ none) (all : AllQueued r.world g (t ∷ q)) where
  group_turn :
      (w₁ w' : World) × Ran (is_part g (t ∷ q)) (group_pre_execute g ∷ []) r.world w₁
      × (worker_turn (suc rounds) (suc (suc up)) (suc (suc down)) wprio_any r
          ≡ ok (next_turn (after_turn r g w')))
      × Passed g t q w₁ w'
      × AllQueued w₁ g q
      × (length w₁.scheduler.pending ≡ 5)
      × (w₁.scheduler.running ≡ true)
  unfolding AllQueued is_part is_open
  group_turn =
      let (unit, bound, open_t, own, level, other, once, rest) = all in
      let w = r.world in
      let short : length w.scheduler.pending ≤ 5 = omega arith in
      let s = searched w g [] free runs short queue in
      let (stop, found, store, empty, few, on) = searched_lem w g [] free runs short queue in
      let first = searched-Ran w g [] free runs short queue in
      let nodes = searched-node w g [] free runs short queue in
      let count = searched-levels w g [] free runs short queue in
      let free_t : (s.store t).grabbed ≡ false =
        ap (λ (o : Task). o.grabbed) (first.stores t other) ∙ ground arith in
      let w₁ = started g t q s in
      let (node₁, grabbed, parents, scheduler, stores₁, nodes₁) = started_facts g t q s free_t in
      let stores =
        λ (x : ℕ) (a : (g == x) ≡ false) (b : (t == x) ≡ false). stores₁ x b ∙ first.stores x a in
      let nodes' =
        λ (x : ℕ) (a : (g == x) ≡ false). nodes₁ x a ∙ ap (λ (f : ℕ → Node). f x) nodes in
      let levels₁ = ap (λ (c : Scheduler). length c.pending) scheduler ∙ count ∙ levels in
      let at_t : (w₁.store t).parent ≡ some g =
        parents t ∙ ap (λ (o : Task). o.parent) (first.stores t other) ∙ bound in
      let top₁ : (w₁.store g).parent ≡ none =
        parents g ∙ same_parent w g [] free runs short queue g ∙ top in
      let (w', run, passed) =
        execute-Passed g t w₁ other top₁ up down q (nodes' t other ∙ unit) grabbed at_t node₁
          (ap (λ (c : Scheduler). queued c.pending) scheduler ∙ empty)
          (follow g t w w₁ stores nodes' q once levels₁ rest) in
      (
        w₁,
        w',
        Ran-trans (is_part g (t ∷ q)) [] (group_pre_execute g ∷ []) w s w₁
            (Ran-widen (only g) (is_part g (t ∷ q)) [] w s (λ x out. ground arith) first)
            (started-Ran g t q s free_t),
        turn_with w g [] free runs short queue rounds (suc (suc up)) (suc (suc down)) r w' refl
            running
            (execute-sequence g t q s (suc (suc up)) down (ap (λ (f : ℕ → Node). f g) nodes ∙ node)
                free_t
              ∙ run),
        passed,
        AllQueued-kept g t w w₁ stores nodes' q once rest,
        levels₁,
        ap (λ (c : Scheduler). c.running) scheduler ∙ on,
      )

after_group :
    (q : List ℕ) (t rounds up down : ℕ) (r : WorkerRun) (g : ℕ) (w₁ : World)
    → r.running ≡ true
    → contains q t ≡ false
    → AllQueued w₁ g q
    → length w₁.scheduler.pending ≡ 5
    → w₁.scheduler.running ≡ true
    → Passed g t q w₁ r.world
    → (r' : WorkerRun) × (worker_turns (length q) (suc rounds) (suc (suc up)) (suc down) wprio_any r
        ≡ ok (next_turn r'))
      × Chained g (t ∷ q) w₁ r'.world
unfolding worker_turns
after_group [] t rounds up down r g w₁ running once all levels on p =
    (r, refl, Chained-last g t w₁ r.world p)
after_group (x ∷ q) t rounds up down r g w₁ running once all levels on p =
    let (r', run, c) =
      worker_turns-Chained q x rounds up down r g running (p.same_running ∙ on)
        (p.same_levels ∙ levels) p.queue p.node p.top
        (AllQueued-Passed g t (x ∷ q) w₁ r.world p (x ∷ q) once all) in
    (r', run, Chained-step g t x q w₁ r.world r'.world p c)

done_in_part :
    (g : ℕ) (ts : List ℕ) (x : ℕ) (w : World)
    → (w.store g).done ≡ true
    → AllDone (contains ts) w
    → is_part g ts x ≡ true
    → (w.store x).done ≡ true
unfolding is_part AllDone
done_in_part g ts x w group tasks i = elim (Bool-cases (g == x)) [
  | inl same ↦ let here : g ≡ x = ground arith in ap (λ y. (w.store y).done) (sym here) ∙ group
  | inr other ↦ tasks x (ground arith)
]

-- A worker that may work on any priority, alone with a scheduler that runs and in whose queues there
-- is only a sequence, open and in no group, of tasks that are open, named once and of a priority of
-- their own: after as many turns as the sequence has tasks the queues are empty, all of the tasks and
-- the sequence are done, and besides them only what was done before. The function of each task ran
-- once, and each task began only when the one before it was done: what is to be seen are the
-- pre-execute call of the sequence, the tasks in their order, and then its post-execute call and its
-- event.
pub worker_turns-sequence :
    (rounds up down g t : ℕ) (q : List ℕ) (r : WorkerRun)
    → r.running ≡ true
    → r.world.scheduler.running ≡ true
    → length r.world.scheduler.pending ≡ 5
    → queued r.world.scheduler.pending ≡ g ∷ []
    → r.world.node g ≡ sequence_group (t ∷ q)
    → is_open r.world.store g ≡ true
    → (r.world.store g).parent ≡ none
    → AllQueued r.world g (t ∷ q)
    → (r' : WorkerRun) × (worker_turns
          (length (t ∷ q))
          (suc rounds)
          (suc (suc up))
          (suc (suc down))
          wprio_any
          r
        ≡ ok (next_turn r'))
      × (queued r'.world.scheduler.pending ≡ [])
      × (r'.world.node g ≡ sequence_group [])
      × (r'.world.log
          ≡ r.world.log
            ++ group_pre_execute g
              ∷ (task_events r.world.type (t ∷ q) ++ (group_post_execute g ∷ told r.world.type g)))
      × ((x : ℕ) → (r'.world.store x).done ≡ (is_part g (t ∷ q) x || (r.world.store x).done))
unfolding AllQueued AllDone is_part after_turn
worker_turns-sequence rounds up down g t q r running runs levels queue node free top all =
    let (w₁, w', pre, turn, p, rest, levels₁, on) =
      group_turn rounds up down g t q r running runs levels queue node free top all in
    let r₁ = after_turn r g w' in
    let (r', run, c) =
      after_group q t rounds up (suc down) r₁ g w₁ running all.6 rest levels₁ on p in
    let events =
      λ (ty : ℕ → TaskType). task_events ty (t ∷ q) ++ (group_post_execute g ∷ told ty g) in
    let ran =
      Ran-trans (is_part g (t ∷ q)) (group_pre_execute g ∷ []) (events r.world.type) r.world w₁
        r'.world pre
        (subst (λ ty. Ran (is_part g (t ∷ q)) (events ty) w₁ r'.world) pre.types c.ran) in
    (
      r',
      turns_lem (length q) (suc rounds) (suc (suc up)) (suc (suc down)) r r₁ turn ∙ run,
      c.empty,
      c.node,
      ran.logged,
      λ x.
          done_by (is_part g (t ∷ q) x) (r.world.store x).done (r'.world.store x).done
            (λ i. done_in_part g (t ∷ q) x r'.world c.group_done c.tasks_done i)
            (λ out. ap (λ (o : Task). o.done) (ran.stores x out)),
    )
