-- ===== src/Helpers/ParallelFor/Made.antt =====
-- parallel_for.hpp: the whole group of a parallel_for, with its batch tasks.
use oqpi.Base.{
  ℕ, zero, suc, ◌+◌, ◌<◌, ◌≤◌, ◌≡◌, refl, sym, ap, subst, ◌∙◌, false, some, List, [], ◌∷◌, ◌++◌,
  arith, ◌==◌, ==_refl, Bool-cases, inl, inr,
}
use mathlib.Core.List.{append-nil, append_assoc}
use oqpi.Scheduling.Priority.{TaskPriority}
use oqpi.Scheduling.Task.{Task}
use oqpi.Scheduling.Scheduler.{ok}
use oqpi.Scheduling.Groups.{
  ParallelGroup, parallel_group, unit_task, World, Event, pre_execute, run_func, post_execute,
  notified, group_pre_execute, group_post_execute, added_to_group, task_added,
}
use oqpi.Scheduling.Groups.Wait.{is_notified}
use oqpi.Scheduling.Groups.Wait.Parallel.{is_notified-append}
use oqpi.Helpers.Defs.{Program}
use oqpi.Helpers.Bound.{node_with}
use oqpi.Helpers.Batches.{add_batches}
use oqpi.Helpers.ParallelFor.Tasks.{
  addresses, with_tasks, one_batch, batch_task, batch_lem, store_lem, node_lem, rest_lem,
}

-- The tasks whose function was called, in order.
unfoldable pub calls : List Event → List ℕ
calls [] = []
calls (run_func t ∷ es) = t ∷ calls es
calls (e ∷ es) = calls es

pub calls-append : (a b : List Event) → calls (a ++ b) ≡ calls a ++ calls b
unfolding calls
calls-append [] b = refl
calls-append (pre_execute x ∷ a) b = calls-append a b
calls-append (run_func x ∷ a) b = ap (λ l. x ∷ l) (calls-append a b)
calls-append (post_execute x ∷ a) b = calls-append a b
calls-append (notified x ∷ a) b = calls-append a b
calls-append (group_pre_execute x ∷ a) b = calls-append a b
calls-append (group_post_execute x ∷ a) b = calls-append a b
calls-append (added_to_group x y ∷ a) b = calls-append a b
calls-append (task_added x y ∷ a) b = calls-append a b

-- The task was made for the group.
abbrev pub IsMade : World → ℕ → ℕ → Type 0
IsMade w g t =
    (w.node t ≡ unit_task)
    × ((w.store t).parent ≡ some g)
    × ((w.store t).grabbed ≡ false)
    × ((w.store t).done ≡ false)

-- `p'` is `p` with `n` tasks more in the group `g`, from the address `first` on.
pub record Batched (g first n : ℕ) (q : ParallelGroup) (w w' : World) : Type 0 where
  pub older : (x : ℕ) → x < first → w'.store x ≡ w.store x
  pub old_nodes : (x : ℕ) → x < first → (g == x) ≡ false → w'.node x ≡ w.node x
  pub old_types : (x : ℕ) → x < first → w'.type x ≡ w.type x
  pub newer : (x : ℕ) → first ≤ x → x < first + n → IsMade w' g x
  pub group : w'.node g ≡ with_tasks q (q.tasks ++ addresses first n) (q.active_tasks_count + n)
  pub quiet : (t : ℕ) → is_notified t w'.log ≡ is_notified t w.log
  pub called : calls w'.log ≡ calls w.log
  pub same_scheduler : w'.scheduler ≡ w.scheduler
  pub same_build : w'.build ≡ w.build
  pub same_fuel : w'.add_fuel ≡ w.add_fuel

Batched-none :
    (g first : ℕ) (q : ParallelGroup) (w : World)
    → w.node g ≡ parallel_group q
    → Batched g first 0 q w w
unfolding addresses
Batched-none g first q w node = record {
  older = λ x l. refl;
  old_nodes = λ x l o. refl;
  old_types = λ x l. refl;
  newer = λ x l h. absurd (omega arith);
  group =
      node
      ∙ node_with q q.tasks (q.tasks ++ []) q.active_tasks_count (q.active_tasks_count + 0)
          (sym (append-nil q.tasks)) (omega arith);
  quiet = λ t. refl;
  called = refl;
  same_scheduler = refl;
  same_build = refl;
  same_fuel = refl;
}

module _ (p : Program) (g context : ℕ) (priority : TaskPriority) (q : ParallelGroup)
    (node : p.world.node g ≡ parallel_group q) (older : g < p.next) where
  abbrev after : World
  after = (one_batch p g context priority q).world

  abbrev pub one_more : ParallelGroup
  one_more = record q {
    tasks = q.tasks ++ p.next ∷ [];
    active_tasks_count = q.active_tasks_count + 1;
  }

  new_task :
      ((after.store p.next).parent ≡ some g)
      × ((after.store p.next).grabbed ≡ false)
      × ((after.store p.next).done ≡ false)
      × (after.node p.next ≡ unit_task)
  new_task =
      let at : after.store p.next ≡ batch_task p g priority =
        store_lem p g context priority q node older p.next ∙ rw (==_refl p.next) refl in
      let apart : (g == p.next) ≡ false = ground arith in
      (
        ap (λ (o : Task). o.parent) at,
        ap (λ (o : Task). o.grabbed) at,
        ap (λ (o : Task). o.done) at,
        node_lem p g context priority q node older p.next ∙ rw (apart, ==_refl p.next) refl,
      )

  step_quiet : (t : ℕ) → is_notified t after.log ≡ is_notified t p.world.log
  unfolding is_notified
  step_quiet t =
      let log = (rest_lem p g context priority q node older).1 in
      ap (is_notified t) log
      ∙ is_notified-append t (p.world.log ++ added_to_group p.next g ∷ [])
          (task_added g p.next ∷ [])
      ∙ rw (is_notified-append t p.world.log (added_to_group p.next g ∷ [])) (ground arith)

  step_called : calls after.log ≡ calls p.world.log
  unfolding calls
  step_called =
      let log = (rest_lem p g context priority q node older).1 in
      ap calls log
      ∙ calls-append (p.world.log ++ added_to_group p.next g ∷ []) (task_added g p.next ∷ [])
      ∙ append-nil (calls (p.world.log ++ added_to_group p.next g ∷ []))
      ∙ calls-append p.world.log (added_to_group p.next g ∷ [])
      ∙ append-nil (calls p.world.log)

  -- One task more.
  Batched-step :
      (n : ℕ) (w' : World)
      → Batched g (suc p.next) n one_more after w'
      → Batched g p.next (suc n) q p.world w'
  unfolding addresses
  Batched-step n w' b =
      let at = store_lem p g context priority q node older in
      let (types, log, scheduler, build, fuel, next) = rest_lem p g context priority q node older in
      let (bound, open_t, undone, unit) = new_task in
      record {
        older = λ x l. b.older x (omega arith) ∙ at x ∙ ground arith;
        old_nodes = λ x l o.
            b.old_nodes x (omega arith) o
            ∙ node_lem p g context priority q node older x
            ∙ ground arith;
        old_types = λ x l. b.old_types x (omega arith) ∙ types x ∙ ground arith;
        newer = λ x l h. elim (Bool-cases (p.next == x)) [
          | inl same ↦
              let here : p.next ≡ x = ground arith in
              let kept = b.older p.next (omega arith) in
              subst (IsMade w' g) here (
                b.old_nodes p.next (omega arith) (ground arith) ∙ unit,
                ap (λ (o : Task). o.parent) kept ∙ bound,
                ap (λ (o : Task). o.grabbed) kept ∙ open_t,
                ap (λ (o : Task). o.done) kept ∙ undone,
              )
          | inr other ↦ b.newer x (ground arith) (omega arith)
        ];
        group =
            b.group
            ∙ node_with q ((q.tasks ++ p.next ∷ []) ++ addresses (suc p.next) n)
                (q.tasks ++ addresses p.next (suc n)) (q.active_tasks_count + 1 + n)
                (q.active_tasks_count + suc n)
                (append_assoc q.tasks (p.next ∷ []) (addresses (suc p.next) n)) (omega arith);
        quiet = λ t. b.quiet t ∙ step_quiet t;
        called = b.called ∙ step_called;
        same_scheduler = b.same_scheduler ∙ scheduler;
        same_build = b.same_build ∙ build;
        same_fuel = b.same_fuel ∙ fuel;
      }

pub add_batches-Batched :
    (n : ℕ) (p : Program) (g context : ℕ) (priority : TaskPriority) (q : ParallelGroup)
    → p.world.node g ≡ parallel_group q
    → g < p.next
    → (p' : Program) × (add_batches p g context priority n ≡ ok p')
      × Batched g p.next n q p.world p'.world
unfolding add_batches
add_batches-Batched zero p g context priority q node older =
    (p, refl, Batched-none g p.next q p.world node)
add_batches-Batched (suc n) p g context priority q node older =
    let p₁ = one_batch p g context priority q in
    let node₁ : p₁.world.node g ≡ parallel_group (one_more p g context priority q node older) =
      node_lem p g context priority q node older g ∙ rw (==_refl g) refl in
    let next : p₁.next ≡ suc p.next = (rest_lem p g context priority q node older).5 in
    let (p', run, b) =
      add_batches-Batched n p₁ g context priority (one_more p g context priority q node older) node₁
        (omega arith) in
    (
      p',
      batch_lem p g context priority q node older n ∙ run,
      Batched-step p g context priority q node older n p'.world (
          subst (λ m. Batched g m n (one_more p g context priority q node older) p₁.world p'.world)
            next b),
    )
