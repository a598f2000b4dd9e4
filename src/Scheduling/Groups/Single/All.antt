-- ===== src/Scheduling/Groups/Single/All.antt =====
-- executeSingleThreaded on a tree of groups: it ends, and all of the tree has run.
use oqpi.Base.{
  ℕ, zero, suc, ◌≤◌, ◌≡◌, refl, ap, ◌∙◌, Bool, true, false, ◌||◌, List, [], ◌++◌, arith, ◌==◌,
  Bool-cases, inl, inr, ◌⊎◌, length,
}
use oqpi.Scheduling.Priority.{TaskType}
use oqpi.Scheduling.Scheduler.{Outcome, ok, fault, spent, ◌>>=◌}
use oqpi.Scheduling.Groups.Objects.{
  ParallelGroup, parallel_group, sequence_group, Event, group_pre_execute, World, record_event,
  set_node, invoke,
}
use oqpi.Scheduling.Groups.Single.{
  grab, run_members, clear_tasks, run_queue, end_single, execute_single_threaded,
}
use oqpi.Scheduling.Groups.Single.Ran.{Ran, Ran-trans, Ran-none, Ran-widen, only, set_node-Ran}
use oqpi.Scheduling.Groups.Single.Trees.{
  Tree, leaf, fork, chain, Trees, end, branch, root, roots, has, has_any, levels_of, levels_below,
  trace, traces, IsTree, AreTrees,
}
use oqpi.Scheduling.Groups.Single.Laws.{
  AllDone, or_false, AreTrees-Ran, leaf_lem, run_parallel_lem, run_sequence_lem, invoke-Ran,
  invoke-AllDone, clear_tasks-Ran,
}
use oqpi.Scheduling.Groups.Single.Run.{
  Finishes, other_side, in_right, levels_split, Ran-events, group, entered, entered-Ran,
  entered-AreTrees, group-Finishes, group-of-only, group-of-members, not_it,
}

>>=-clear :
    (g : ℕ) (o : Outcome World)
    → ((o >>= λ v. ok (clear_tasks v g)) >>= λ v. ok (end_single v g))
      ≡ (o >>= λ v. ok (end_single (clear_tasks v g) g))
>>=-clear g (ok w) = refl
>>=-clear g fault = refl
>>=-clear g spent = refl

-- The fork's run by its members, and the chain's by its queue.
fork_lem :
    (depth g : ℕ) (p : ParallelGroup) (w : World)
    → w.node g ≡ parallel_group p
    → (w.store g).grabbed ≡ false
    → p.active_tasks_count ≡ length p.tasks
    → execute_single_threaded (suc depth) w g ≡ (
        run_members
          (execute_single_threaded depth)
          (grab (record_event w (group_pre_execute g)) g)
          p.tasks
        >>= λ v. ok (end_single (clear_tasks v g) g))
unfolding execute_single_threaded record_event
fork_lem depth g p w node free counts =
    rw
      (
        node,
        execute_single_threaded,
        run_parallel_lem (record_event w (group_pre_execute g)) g free _ p counts,
      )
      (>>=-clear g (
        run_members (execute_single_threaded depth) (grab (record_event w (group_pre_execute g)) g)
          p.tasks))

chain_lem :
    (depth g : ℕ) (q : List ℕ) (w : World)
    → w.node g ≡ sequence_group q
    → (w.store g).grabbed ≡ false
    → execute_single_threaded (suc depth) w g ≡ (
        run_queue
          (execute_single_threaded depth)
          (grab (record_event w (group_pre_execute g)) g)
          g
          q
        >>= λ v. ok (end_single v g))
unfolding execute_single_threaded record_event
chain_lem depth g q w node free =
    rw
      (
        node,
        execute_single_threaded,
        run_sequence_lem (record_event w (group_pre_execute g)) g free,
      )
      refl

below : {n d : ℕ} → suc n ≤ suc d → n ≤ d
below h = omega arith

in-group :
    (g : ℕ) (ts : Trees) (events : List Event) (w : World) (o : Outcome World)
    → Finishes (has_any ts) (has_any ts) events w o
    → Finishes (group g ts) (has_any ts) events w o
unfolding Finishes
in-group g ts events w o (v, returns, ran, done) =
    (v, returns, group-of-members g ts events w v ran, done)

both-AllDone :
    (a b : ℕ → Bool) (events : List Event) (inside : ℕ → Bool) (w w' : World)
    → Ran inside events w w'
    → AllDone a w
    → AllDone b w'
    → AllDone (λ x. a x || b x) w'
unfolding AllDone
both-AllDone a b events inside w w' ran first second x i = elim (Bool-cases (a x)) [
  | inl here ↦ ran.stays_done x (first x here)
  | inr there ↦ second x (in_right (a x) (b x) there i)
]

without_first : (a b c : Bool) → (a || (b || c)) ≡ false → (a || c) ≡ false
without_first a b c h = ground arith

mutual
  unfolding Finishes has has_any root roots trace traces IsTree AreTrees levels_of run_members
      run_queue AllDone entered

  tree-Finishes :
      (type : ℕ → TaskType) (t : Tree) (d : ℕ) (w : World)
      → levels_of t ≤ d
      → w.type ≡ type
      → IsTree w t
      → Finishes (has t) (has t) (trace type t) w (execute_single_threaded d w (root t))
  tree-Finishes type (leaf t) zero w enough typed tree = absurd (omega arith)
  tree-Finishes type (leaf t) (suc d) w enough typed (node, free) = (
    invoke (grab w t) t,
    leaf_lem w t free d node,
    Ran-events (only t) _ _ w (invoke (grab w t) t)
        (ap (λ (ty : ℕ → TaskType). trace ty (leaf t)) typed) (invoke-Ran w t free),
    invoke-AllDone w t free,
  )
  tree-Finishes type (fork g ts) zero w enough typed tree = absurd (omega arith)
  tree-Finishes type (fork g ts) (suc d) w enough typed
        ((p, node, tasks, counts), free, once, trees) =
      rw (fork_lem d g p w node free counts, tasks)
        (group-Finishes g ts type w
          (run_members (execute_single_threaded d) (entered g ts w) (roots ts))
          (λ v. clear_tasks v g) typed free (λ v. clear_tasks-Ran g v)
          (in-group g ts (traces type ts) (entered g ts w) _ (
            members-Finishes type ts d (entered g ts w) (below enough)
              ((entered-Ran g ts w free).types ∙ typed) (entered-AreTrees g ts w free once trees))))
  tree-Finishes type (chain g ts) zero w enough typed tree = absurd (omega arith)
  tree-Finishes type (chain g ts) (suc d) w enough typed (node, free, once, trees) =
      rw (chain_lem d g (roots ts) w node free) (
        group-Finishes g ts type w
          (run_queue (execute_single_threaded d) (entered g ts w) g (roots ts)) (λ v. v) typed free
          (λ v. Ran-none (only g) v)
          (queue-Finishes type ts d g (entered g ts w) (below enough) once
            ((entered-Ran g ts w free).types ∙ typed) (entered-AreTrees g ts w free once trees)))

  members-Finishes :
      (type : ℕ → TaskType) (ts : Trees) (d : ℕ) (w : World)
      → levels_below ts ≤ d
      → w.type ≡ type
      → AreTrees w ts
      → Finishes
          (has_any ts)
          (has_any ts)
          (traces type ts)
          w
          (run_members (execute_single_threaded d) w (roots ts))
  members-Finishes type end d w enough typed trees =
      (w, refl, Ran-none (has_any end) w, λ x i. cc i)
  members-Finishes type (branch t ts) d w enough typed (tree, disjoint, trees) =
      let (low, rest_low) = levels_split t ts d enough in
      let (w₁, returns₁, ran₁, done₁) = tree-Finishes type t d w low typed tree in
      let trees₁ =
        AreTrees-Ran (has t) (trace type t) w w₁ ran₁ ts
          (λ x i. other_side (has t x) (has_any ts x) (disjoint x) i) trees in
      let (w₂, returns₂, ran₂, done₂) =
        members-Finishes type ts d w₁ rest_low (ran₁.types ∙ typed) trees₁ in
      (
        w₂,
        rw returns₁ returns₂,
        Ran-trans (has_any (branch t ts)) (trace type t) (traces type ts) w w₁ w₂
            (Ran-widen (has t) (has_any (branch t ts)) (trace type t) w w₁
              (λ x out. (or_false (has t x) (has_any ts x) out).0) ran₁)
            (Ran-widen (has_any ts) (has_any (branch t ts)) (traces type ts) w₁ w₂
              (λ x out. (or_false (has t x) (has_any ts x) out).1) ran₂),
        both-AllDone (has t) (has_any ts) (traces type ts) (has_any ts) w₁ w₂ ran₂ done₁ done₂,
      )

  queue-Finishes :
      (type : ℕ → TaskType) (ts : Trees) (d g : ℕ) (w : World)
      → levels_below ts ≤ d
      → has_any ts g ≡ false
      → w.type ≡ type
      → AreTrees w ts
      → Finishes
          (group g ts)
          (has_any ts)
          (traces type ts)
          w
          (run_queue (execute_single_threaded d) w g (roots ts))
  queue-Finishes type end d g w enough once typed trees =
      (w, refl, Ran-none (group g end) w, λ x i. cc i)
  queue-Finishes type (branch t ts) d g w enough once typed trees =
      let w₀ = set_node w g (sequence_group (roots ts)) in
      let set = set_node-Ran g w (sequence_group (roots ts)) in
      let (low, rest_low) = levels_split t ts d enough in
      let (out_of_t, out_of_ts) = or_false (has t g) (has_any ts g) once in
      let (tree, disjoint, rest) =
        AreTrees-Ran (only g) [] w w₀ set (branch t ts) (λ x i. not_it g (branch t ts) x once i)
          trees in
      let (w₁, returns₁, ran₁, done₁) = tree-Finishes type t d w₀ low (set.types ∙ typed) tree in
      let rest₁ =
        AreTrees-Ran (has t) (trace type t) w₀ w₁ ran₁ ts
          (λ x i. other_side (has t x) (has_any ts x) (disjoint x) i) rest in
      let (w₂, returns₂, ran₂, done₂) =
        queue-Finishes type ts d g w₁ rest_low out_of_ts (ran₁.types ∙ set.types ∙ typed) rest₁ in
      (
        w₂,
        rw returns₁ returns₂,
        Ran-trans (group g (branch t ts)) (trace type t) (traces type ts) w w₁ w₂
            (Ran-trans (group g (branch t ts)) [] (trace type t) w w₀ w₁
              (group-of-only g (branch t ts) [] w w₀ set)
              (Ran-widen (has t) (group g (branch t ts)) (trace type t) w₀ w₁
                (λ x out.
                  (or_false (has t x) (has_any ts x)
                    (or_false (g == x) (has_any (branch t ts) x) out).1).0)
                ran₁))
            (Ran-widen (group g ts) (group g (branch t ts)) (traces type ts) w₁ w₂
              (λ x out. without_first (g == x) (has t x) (has_any ts x) out) ran₂),
        both-AllDone (has t) (has_any ts) (traces type ts) (group g ts) w₁ w₂ ran₂ done₁ done₂,
      )

pub done_by :
    (inside done done' : Bool)
    → (inside ≡ true → done' ≡ true)
    → (inside ≡ false → done' ≡ done)
    → done' ≡ (inside || done)
done_by true done done' forced kept = forced refl
done_by false done done' forced kept = kept refl

-- A task, or a tree of groups with every object in it once, none grabbed yet, and each parallel group
-- with as many active tasks as it has tasks: run in the thread that calls it, with a depth of at least the levels that the tree has, executeSingleThreaded
-- returns; done are then the objects of the tree and those that were done before; what was seen is
-- the trace of the tree, each group around its members in their order; and no object outside of the
-- tree has changed.
pub execute_single_threaded-tree :
    (t : Tree) (depth : ℕ) (w : World)
    → levels_of t ≤ depth
    → IsTree w t
    → (w' : World) × (execute_single_threaded depth w (root t) ≡ ok w')
      × (w'.log ≡ w.log ++ trace w.type t)
      × ((x : ℕ) → (w'.store x).done ≡ (has t x || (w.store x).done))
      × ((x : ℕ) → (has t x ≡ true) ⊎ (w'.store x ≡ w.store x))
unfolding Finishes AllDone
execute_single_threaded-tree t depth w enough tree =
    let (w', returns, ran, done) = tree-Finishes w.type t depth w enough refl tree in
    (
      w',
      returns,
      ran.logged,
      λ x.
          done_by (has t x) (w.store x).done (w'.store x).done (done x)
            (λ out. ap (λ o. o.done) (ran.stores x out)),
      λ x. elim (Bool-cases (has t x)) [ inl i ↦ inl i | inr out ↦ inr (ran.stores x out) ],
    )
