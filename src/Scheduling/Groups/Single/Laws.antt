-- ===== src/Scheduling/Groups/Single/Laws.antt =====
-- executeSingleThreaded on a tree of groups.
use oqpi.Base.{
  ℕ, suc, ◌≡◌, refl, sym, ap, ◌∙◌, Bool, true, false, ◌||◌, List, [], ◌∷◌, arith, if◌then◌else◌,
  ◌==◌, update, ==_refl, length,
}
use oqpi.Scheduling.Task.{try_grab}
use oqpi.Scheduling.Scheduler.{Build, checked, unchecked, ensure, Outcome, ok, fault, ◌>>=◌}
use oqpi.Scheduling.Groups.Objects.{
  ParallelGroup, Node, unit_task, parallel_group, sequence_group, Event, pre_execute, run_func,
  post_execute, group_post_execute, World, record_event, notify_event, mark_done, invoke,
}
use oqpi.Scheduling.Groups.Single.{
  grab, has_tasks, run_members, clear_tasks, run_parallel, run_queue, run_sequence, end_single,
  execute_single_threaded,
}
use oqpi.Scheduling.Groups.Single.Ran.{
  Ran, Ran-trans, Ran-none, record_event-Ran, told, notify_event-Ran, only, set_node-Ran, store-Ran,
  mark_done-Ran, mark_done-done,
}
use oqpi.Scheduling.Groups.Single.Trees.{
  Tree, leaf, fork, chain, Trees, end, branch, has, has_any, IsTree, AreTrees,
}

-- All objects in `inside` are done.
unfoldable pub AllDone : (ℕ → Bool) → World → Type 0
AllDone inside w = (x : ℕ) → inside x ≡ true → (w.store x).done ≡ true

pub or_left : (a b : Bool) → a ≡ true → (a || b) ≡ true
or_left a b e = ground arith

pub or_right : (a b : Bool) → b ≡ true → (a || b) ≡ true
or_right a b e = ground arith

pub or_false : (a b : Bool) → (a || b) ≡ false → (a ≡ false) × (b ≡ false)
or_false a b e = ground arith

-- A part of the tree is still one when only other objects were changed.
module _ (inside : ℕ → Bool) (events : List Event) (w w' : World) (r : Ran inside events w w') where
  mutual
    unfolding IsTree AreTrees has has_any

    IsTree-Ran :
        (t : Tree) → ((x : ℕ) → has t x ≡ true → inside x ≡ false) → IsTree w t → IsTree w' t
    IsTree-Ran (leaf t) apart (node, free) =
        let out = apart t (==_refl t) in
        (r.nodes t out ∙ node, ap (λ o. o.grabbed) (r.stores t out) ∙ free)
    IsTree-Ran (fork g ts) apart ((p, node, tasks, counts), free, once, trees) =
        let out = apart g (or_left (g == g) (has_any ts g) (==_refl g)) in
        (
          (p, r.nodes g out ∙ node, tasks, counts),
          ap (λ o. o.grabbed) (r.stores g out) ∙ free,
          once,
          AreTrees-Ran ts (λ x i. apart x (or_right (g == x) (has_any ts x) i)) trees,
        )
    IsTree-Ran (chain g ts) apart (node, free, once, trees) =
        let out = apart g (or_left (g == g) (has_any ts g) (==_refl g)) in
        (
          r.nodes g out ∙ node,
          ap (λ o. o.grabbed) (r.stores g out) ∙ free,
          once,
          AreTrees-Ran ts (λ x i. apart x (or_right (g == x) (has_any ts x) i)) trees,
        )

    pub AreTrees-Ran :
        (ts : Trees)
        → ((x : ℕ) → has_any ts x ≡ true → inside x ≡ false)
        → AreTrees w ts
        → AreTrees w' ts
    AreTrees-Ran end apart h = tt
    AreTrees-Ran (branch t ts) apart (tree, disjoint, trees) = (
      IsTree-Ran t (λ x i. apart x (or_left (has t x) (has_any ts x) i)) tree,
      disjoint,
      AreTrees-Ran ts (λ x i. apart x (or_right (has t x) (has_any ts x) i)) trees,
    )

-- An empty group is refused with checks, and has nothing to run without.
members_or_none :
    (build : Build) (execute : World → ℕ → Outcome World) (w : World) (g : ℕ) (ts : List ℕ)
    → (if ensure build (has_tasks ts)
        then (if ensure build true
            then (run_members execute w ts >>= λ w'. ok (clear_tasks w' g))
            else fault)
        else ok (clear_tasks w g))
      ≡ (run_members execute w ts >>= λ w'. ok (clear_tasks w' g))
unfolding has_tasks run_members
members_or_none checked execute w g [] = refl
members_or_none unchecked execute w g [] = refl
members_or_none checked execute w g (t ∷ ts) = refl
members_or_none unchecked execute w g (t ∷ ts) = refl

-- A task that runs.
module _ (w : World) (t : ℕ) where
  pub invoked-Ran :
      Ran (only t) (pre_execute t ∷ run_func t ∷ post_execute t ∷ told w.type t) w (invoke w t)
  unfolding invoke record_event mark_done
  invoked-Ran =
      let w₂ = record_event w (pre_execute t) in
      let w₃ = record_event w₂ (run_func t) in
      let w₄ = mark_done w₃ t in
      let w₅ = record_event w₄ (post_execute t) in
      let step = Ran-trans (only t) in
      step (pre_execute t ∷ []) _ w w₂ _ (record_event-Ran (only t) w (pre_execute t)) (
        step (run_func t ∷ []) _ w₂ w₃ _ (record_event-Ran (only t) w₂ (run_func t)) (
          step [] _ w₃ w₄ _ (mark_done-Ran t w₃) (
            step (post_execute t ∷ []) _ w₄ w₅ _ (record_event-Ran (only t) w₄ (post_execute t))
              (notify_event-Ran (only t) w₅ t))))

  pub invoked-AllDone : AllDone (only t) (invoke w t)
  unfolding invoke AllDone
  invoked-AllDone x same =
      let w₃ = record_event (record_event w (pre_execute t)) (run_func t) in
      let w₄ = mark_done w₃ t in
      let w₅ = record_event w₄ (post_execute t) in
      let e : t ≡ x = ground arith in
      (Ran-trans (only t) _ _ w₄ w₅ (notify_event w₅ t)
          (record_event-Ran (only t) w₄ (post_execute t))
          (notify_event-Ran (only t) w₅ t)).stays_done
        x (ap (λ y. (w₄.store y).done) (sym e) ∙ mark_done-done t w₃)

-- Grabbing what is free.
module _ (w : World) (t : ℕ) (free : (w.store t).grabbed ≡ false) where
  pub grab-Ran : Ran (only t) [] w (grab w t)
  unfolding grab try_grab
  grab-Ran = rw free (
      store-Ran t w (update w.store t (record (w.store t) { grabbed = true }))
        (λ x out. rw out refl) (λ x d. ground arith))

  pub leaf_lem :
      (depth : ℕ)
      → w.node t ≡ unit_task
      → execute_single_threaded (suc depth) w t ≡ ok (invoke (grab w t) t)
  unfolding execute_single_threaded try_grab
  leaf_lem depth node = rw (node, execute_single_threaded, free) refl

  pub run_parallel_lem :
      (execute : World → ℕ → Outcome World) (p : ParallelGroup)
      → p.active_tasks_count ≡ length p.tasks
      → run_parallel execute w t p
        ≡ (run_members execute (grab w t) p.tasks >>= λ w'. ok (clear_tasks w' t))
  unfolding run_parallel try_grab
  run_parallel_lem execute p counts =
      rw (free, counts, ==_refl (length p.tasks))
        (members_or_none w.build execute
          (record w { store = update w.store t (record (w.store t) { grabbed = true }) }) t p.tasks)

  pub run_sequence_lem :
      (execute : World → ℕ → Outcome World) (q : List ℕ)
      → run_sequence execute w t q ≡ run_queue execute (grab w t) t q
  unfolding run_sequence try_grab
  run_sequence_lem execute q = rw free refl

  pub invoke-Ran :
      Ran
        (only t)
        (pre_execute t ∷ run_func t ∷ post_execute t ∷ told w.type t)
        w
        (invoke (grab w t) t)
  unfolding grab
  invoke-Ran = Ran-trans (only t) [] _ w (grab w t) _ grab-Ran (invoked-Ran (grab w t) t)

  pub invoke-AllDone : AllDone (only t) (invoke (grab w t) t)
  invoke-AllDone = invoked-AllDone (grab w t) t

-- What a group does after its members.
module _ (g : ℕ) where
  clear_node-Ran : (w : World) (n : Node) → w.node g ≡ n → Ran (only g) [] w (clear_tasks w g)
  unfolding clear_tasks
  clear_node-Ran w unit_task e = rw (e, clear_tasks) (Ran-none (only g) w)
  clear_node-Ran w (parallel_group p) e =
      rw (e, clear_tasks) (set_node-Ran g w (parallel_group (record p { tasks = [] })))
  clear_node-Ran w (sequence_group q) e = rw (e, clear_tasks) (Ran-none (only g) w)

  pub clear_tasks-Ran : (w : World) → Ran (only g) [] w (clear_tasks w g)
  clear_tasks-Ran w = clear_node-Ran w (w.node g) refl

  pub end_single-Ran :
      (w : World) → Ran (only g) (group_post_execute g ∷ told w.type g) w (end_single w g)
  unfolding end_single record_event mark_done
  end_single-Ran w =
      let w₁ = record_event w (group_post_execute g) in
      let w₂ = mark_done w₁ g in
      Ran-trans (only g) (group_post_execute g ∷ []) _ w w₁ _
        (record_event-Ran (only g) w (group_post_execute g))
        (Ran-trans (only g) [] _ w₁ w₂ _ (mark_done-Ran g w₁) (notify_event-Ran (only g) w₂ g))

  pub end_single-done : (w : World) → ((end_single w g).store g).done ≡ true
  unfolding end_single
  end_single-done w =
      let w₂ = mark_done (record_event w (group_post_execute g)) g in
      (notify_event-Ran (only g) w₂ g).stays_done g
        (mark_done-done g (record_event w (group_post_execute g)))
