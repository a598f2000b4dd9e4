-- ===== src/Scheduling/Groups/Ended.antt =====
-- parallel_group.hpp: what the run of one task of a parallel group leaves alone.
use mathlib.Core.List.{append-nil}
use oqpi.Base.{
  ℕ, zero, suc, ◌≡◌, refl, ap, ◌∙◌, subst, Bool, true, false, ◌||◌, none, List, [], ◌∷◌, ◌++◌,
  arith, ◌==◌, ==_refl, contains,
}
use oqpi.Scheduling.Priority.{TaskType, fire_and_forget, waitable}
use oqpi.Scheduling.Task.{Task, set_parent, set_done}
use oqpi.Scheduling.Groups.Objects.{
  ParallelGroup, Node, Event, group_post_execute, World, invoke, set_node,
}
use oqpi.Scheduling.Groups.Single.Ran.{
  Ran, Ran-trans, Ran-widen, only, told, set_node-Ran, store-Ran,
}
use oqpi.Scheduling.Groups.Single.Trees.{leaf, trace}
use oqpi.Scheduling.Groups.Single.Laws.{invoked-Ran, invoked-AllDone, AllDone}
use oqpi.Scheduling.Groups.Unit.{invoked-parent, invoked-node, invoked-scheduler}
use oqpi.Scheduling.Groups.Done.{finished, group_done_events}
use oqpi.Scheduling.Groups.Members.{waits_for, unparented, counted}

-- What is to be seen of a group that waits for `n` tasks from now on: its end, if these are none.
unfoldable pub group_end : (ℕ → TaskType) → ℕ → ℕ → List Event
unfolding told
group_end type g zero = group_post_execute g ∷ told type g
group_end type g (suc n) = []

-- The group or one of the tasks.
unfoldable pub is_part : ℕ → List ℕ → ℕ → Bool
unfolding contains
is_part g ts x = g == x || contains ts x

done_events_typed :
    (w : World) (g : ℕ) (type : TaskType)
    → w.type g ≡ type
    → group_done_events w g ≡ group_post_execute g ∷ told w.type g
unfolding group_done_events told
done_events_typed w g fire_and_forget e = rw (e, group_done_events, told) refl
done_events_typed w g waitable e = rw (e, group_done_events, told) refl

module _ (g : ℕ) where
  pub finished-Ran :
      (w : World) → Ran (only g) (group_post_execute g ∷ told w.type g) w (finished w g)
  unfolding set_done
  finished-Ran w = record {
    types = refl;
    logged = ap (λ l. w.log ++ l) (done_events_typed w g (w.type g) refl);
    stores = λ x out. rw out refl;
    nodes = λ x out. refl;
    stays_done = λ x d. ground arith;
  }

  counted-Ran :
      (w : World) (p : ParallelGroup) (n : ℕ)
      → Ran (only g) (group_end w.type g n) w (counted w g p n)
  unfolding counted group_end
  counted-Ran w p zero =
      let w₁ = set_node w g (waits_for p 0) in
      Ran-trans (only g) [] (group_end w.type g 0) w w₁ (finished w₁ g)
        (set_node-Ran g w (waits_for p 0)) (finished-Ran w₁)
  counted-Ran w p (suc n) = set_node-Ran g w (waits_for p (suc n))

  counted_facts :
      (w : World) (p : ParallelGroup) (n : ℕ)
      → ((counted w g p n).node g ≡ waits_for p n)
        × (((counted w g p n).store g).parent ≡ (w.store g).parent)
        × ((counted w g p n).scheduler ≡ w.scheduler)
        × (n ≡ 0 → ((counted w g p n).store g).done ≡ true)
  unfolding counted set_node set_done
  counted_facts w p zero =
      (rw (==_refl g) refl, rw (==_refl g) refl, refl, λ e. rw (==_refl g) refl)
  counted_facts w p (suc n) = (rw (==_refl g) refl, refl, refl, λ e. absurd (omega arith))

-- `w'` is `w` when the task has run and the group waits for `n` tasks.
pub record Ended (g t : ℕ) (p : ParallelGroup) (n : ℕ) (w w' : World) : Type 0 where
  pub ran : Ran (is_part g (t ∷ [])) (trace w.type (leaf t) ++ group_end w.type g n) w w'
  pub waits : w'.node g ≡ waits_for p n
  pub task_done : (w'.store t).done ≡ true
  pub top : (w'.store g).parent ≡ none
  pub group_done : n ≡ 0 → (w'.store g).done ≡ true
  pub others : (x : ℕ) → (g == x) ≡ false → w'.node x ≡ w.node x
  pub same_scheduler : w'.scheduler ≡ w.scheduler

-- A task that runs, `events` of its group, and the reset of its parent.
module _ (g t : ℕ) (events : List Event) (w w₂ : World) (other : (g == t) ≡ false)
    (second : Ran (only g) events (invoke w t) w₂) where
  reset-Ran : Ran (only t) [] w₂ (unparented w₂ t)
  unfolding unparented set_parent
  reset-Ran =
      store-Ran t w₂ (set_parent w₂.store t none) (λ x out. rw out refl) (λ x d. ground arith)

  pub reset_facts :
      ((unparented w₂ t).node ≡ w₂.node)
      × ((unparented w₂ t).store g ≡ w₂.store g)
      × ((unparented w₂ t).scheduler ≡ w₂.scheduler)
  unfolding unparented set_parent
  reset_facts = (refl, ground arith, refl)

  in_task : (x : ℕ) → is_part g (t ∷ []) x ≡ false → only t x ≡ false
  unfolding is_part contains
  in_task x out = ground arith

  in_group : (x : ℕ) → is_part g (t ∷ []) x ≡ false → only g x ≡ false
  unfolding is_part
  in_group x out = ground arith

  told-Ran : Ran (is_part g (t ∷ [])) (trace w.type (leaf t) ++ events) w w₂
  unfolding trace
  told-Ran =
      Ran-trans (is_part g (t ∷ [])) (trace w.type (leaf t)) events w (invoke w t) w₂
        (Ran-widen (only t) (is_part g (t ∷ [])) (trace w.type (leaf t)) w (invoke w t) in_task
          (invoked-Ran w t))
        (Ran-widen (only g) (is_part g (t ∷ [])) events (invoke w t) w₂ in_group second)

  pub closing-Ran : Ran (is_part g (t ∷ [])) (trace w.type (leaf t) ++ events) w (unparented w₂ t)
  closing-Ran =
      let all = trace w.type (leaf t) ++ events in
      subst (λ es. Ran (is_part g (t ∷ [])) es w (unparented w₂ t)) (append-nil all)
        (Ran-trans (is_part g (t ∷ [])) all [] w w₂ (unparented w₂ t) told-Ran
          (Ran-widen (only t) (is_part g (t ∷ [])) [] w₂ (unparented w₂ t) in_task reset-Ran))

  pub closing-done : ((unparented w₂ t).store t).done ≡ true
  unfolding AllDone
  closing-done = reset-Ran.stays_done t (second.stays_done t (invoked-AllDone w t t (==_refl t)))

  pub closing-top :
      (w₂.store g).parent ≡ ((invoke w t).store g).parent
      → (w.store g).parent ≡ none
      → ((unparented w₂ t).store g).parent ≡ none
  closing-top kept alone =
      ap (λ (o : Task). o.parent) reset_facts.1 ∙ kept ∙ invoked-parent w t g ∙ alone

  pub closing-others : (x : ℕ) → (g == x) ≡ false → (unparented w₂ t).node x ≡ w.node x
  closing-others x out =
      ap (λ (f : ℕ → Node). f x) reset_facts.0
      ∙ second.nodes x out
      ∙ ap (λ (f : ℕ → Node). f x) (invoked-node w t)

module _ (g t : ℕ) (p : ParallelGroup) (n : ℕ) (w : World) (other : (g == t) ≡ false)
    (alone : (w.store g).parent ≡ none) where
  abbrev told_world : World
  told_world = counted (invoke w t) g p n

  pub member-Ended : Ended g t p n w (unparented told_world t)
  member-Ended =
      let events = group_end w.type g n in
      let second =
        subst (λ (ty : ℕ → TaskType). Ran (only g) (group_end ty g n) (invoke w t) told_world)
          (invoked-Ran w t).types (counted-Ran g (invoke w t) p n) in
      let (node, store, scheduler) = reset_facts g t events w told_world other second in
      let (waits, parent, same, done) = counted_facts g (invoke w t) p n in
      record {
        ran = closing-Ran g t events w told_world other second;
        waits = ap (λ (f : ℕ → Node). f g) node ∙ waits;
        task_done = closing-done g t events w told_world other second;
        top = closing-top g t events w told_world other second parent alone;
        group_done = λ e. ap (λ (o : Task). o.done) store ∙ done e;
        others = closing-others g t events w told_world other second;
        same_scheduler = scheduler ∙ same ∙ invoked-scheduler w t;
      }
