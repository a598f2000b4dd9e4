-- ===== src/Scheduling/Groups/Members.antt =====
-- parallel_group.hpp: the run of one task of a parallel group without a limit.
use oqpi.Base.{ℕ, zero, suc, ◌≡◌, refl, ap, ◌∙◌, true, none, some, if◌then◌else◌}
use oqpi.Scheduling.Task.{set_parent}
use oqpi.Scheduling.Scheduler.{ensure, ok}
use oqpi.Scheduling.Groups.Objects.{
  ParallelGroup, Node, unit_task, parallel_group, World, invoke, set_node,
}
use oqpi.Scheduling.Groups.Exec.{parallel_task_done, one_task_done, notify_parent, execute}
use oqpi.Scheduling.Groups.Unit.{ensure-holds, unit_lem, invoked-parent}
use oqpi.Scheduling.Groups.Done.{finished, notify_group_done-top, more==one, decrement-suc}

-- The group with `n` tasks still to be done.
abbrev pub waits_for : ParallelGroup → ℕ → Node
waits_for p n = parallel_group (record p { active_tasks_count = n })

-- `spParentGroup_.reset()`
unfoldable pub unparented : World → ℕ → World
unfolding set_parent
unparented w t = record w { store = set_parent w.store t none }

-- The world in which the group waits for `n` tasks, and is done if these are none.
unfoldable pub counted : World → ℕ → ParallelGroup → ℕ → World
unfolding set_node
counted w g p zero = finished (set_node w g (waits_for p 0)) g
counted w g p (suc n) = set_node w g (waits_for p (suc n))

-- A task of a group, which is grabbed: the task runs, and the group is told.
pub execute-in_group :
    (g up down : ℕ) (w : World) (t : ℕ) (w₂ : World)
    → w.node t ≡ unit_task
    → (w.store t).grabbed ≡ true
    → (w.store t).parent ≡ some g
    → one_task_done (notify_parent (suc up)) (invoke w t) g ≡ ok w₂
    → execute (suc (suc up)) (suc down) w t ≡ ok (unparented w₂ t)
unfolding notify_parent unparented
execute-in_group g up down w t w₂ node grabbed bound told =
    unit_lem (suc (suc up)) down w t node
    ∙ ap (λ b. if b then notify_parent (suc (suc up)) (invoke w t) t else ok w)
        (ap (ensure w.build) grabbed ∙ ensure-holds w.build)
    ∙ rw (invoked-parent w t t ∙ bound, notify_parent) (rw told refl)

module _ (g : ℕ) (p : ParallelGroup) (unlimited : p.max_simultaneous_tasks ≡ 0) where
  one_task_done-counted :
      (up : ℕ) (w : World) (n : ℕ)
      → w.node g ≡ waits_for p (suc n)
      → (w.store g).parent ≡ none
      → one_task_done (notify_parent (suc up)) w g ≡ ok (counted w g p n)
  unfolding one_task_done parallel_task_done counted set_node
  one_task_done-counted up w zero node top =
      rw (node, one_task_done) (notify_group_done-top up (set_node w g (waits_for p 0)) g top)
  one_task_done-counted up w (suc n) node top =
      rw (node, one_task_done) (rw (unlimited, more==one n, decrement-suc (suc n)) refl)

  -- A task of the group that is grabbed.
  pub execute-member :
      (up down : ℕ) (w : World) (t n : ℕ)
      → w.node t ≡ unit_task
      → (w.store t).grabbed ≡ true
      → (w.store t).parent ≡ some g
      → (invoke w t).node g ≡ waits_for p (suc n)
      → ((invoke w t).store g).parent ≡ none
      → execute (suc (suc up)) (suc down) w t ≡ ok (unparented (counted (invoke w t) g p n) t)
  execute-member up down w t n node grabbed bound waits top =
      execute-in_group g up down w t (counted (invoke w t) g p n) node grabbed bound
        (one_task_done-counted up (invoke w t) n waits top)
