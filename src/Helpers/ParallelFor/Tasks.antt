-- ===== src/Helpers/ParallelFor/Tasks.antt =====
-- parallel_for.hpp: the batch tasks that are made for the group of a parallel_for.
use oqpi.Base.{
  ℕ, zero, suc, ◌+◌, ◌<◌, ◌≡◌, refl, ap, false, some, List, [], ◌∷◌, ◌++◌, if◌then◌else◌, arith,
  ◌==◌, ==_refl, Bool-cases, inl, inr,
}
use oqpi.Scheduling.Priority.{TaskPriority, fire_and_forget}
use oqpi.Scheduling.Task.{Task, make_task_base, set_parent}
use oqpi.Scheduling.Scheduler.{◌>>=◌}
use oqpi.Scheduling.Groups.{
  ParallelGroup, Node, parallel_group, unit_task, World, added_to_group, task_added, set_node,
  record_event,
}
use oqpi.Helpers.Defs.{Program, make_object, make_task}
use oqpi.Helpers.Bound.{joined, joined_world, is_group, add_task-joined}
use oqpi.Helpers.Batches.{add_batches}

-- So many addresses from one on.
unfoldable pub addresses : ℕ → ℕ → List ℕ
addresses first zero = []
addresses first (suc n) = first ∷ addresses (suc first) n

-- The group `q` with more tasks.
abbrev pub with_tasks : ParallelGroup → List ℕ → ℕ → Node
with_tasks q ts n = parallel_group (record q { tasks = ts; active_tasks_count = n })

-- The program with a new task in the group.
pub one_batch : Program → ℕ → ℕ → TaskPriority → ParallelGroup → Program
unfolding make_task
one_batch p g context priority q =
    let made = (make_task p fire_and_forget context priority).0 in
    record made { world = joined_world made.world g p.next (joined (parallel_group q) p.next) }

abbrev pub batch_task : Program → ℕ → TaskPriority → Task
batch_task p g priority = record {
  uid = p.uid_generator;
  parent = some g;
  priority = priority;
  grabbed = false;
  done = false;
}

module _ (p : Program) (g context : ℕ) (priority : TaskPriority) (q : ParallelGroup)
    (node : p.world.node g ≡ parallel_group q) (older : g < p.next) where
  abbrev made : World
  made = (make_task p fire_and_forget context priority).0.world

  pub batch_lem :
      (n : ℕ)
      → add_batches p g context priority (suc n)
        ≡ add_batches (one_batch p g context priority q) g context priority n
  unfolding add_batches make_task make_object make_task_base joined joined_world is_group one_batch
  batch_lem n =
      let other : (p.next == g) ≡ false = ground arith in
      let added =
        add_task-joined made g p.next (parallel_group q) (rw other node) refl
          (rw (==_refl p.next) refl) in
      ap
        (λ o. o >>= λ w.
          add_batches (record (make_task p fire_and_forget context priority).0 { world = w }) g
            context priority n)
        added

  pub store_lem :
      (x : ℕ)
      → (one_batch p g context priority q).world.store x
        ≡ (if p.next == x then batch_task p g priority else p.world.store x)
  unfolding one_batch make_task make_object make_task_base joined_world set_parent record_event
      set_node
  store_lem x = elim (Bool-cases (p.next == x)) [
    | inl same ↦ rw (same, ==_refl p.next) refl
    | inr other ↦ rw other refl
  ]

  pub node_lem :
      (x : ℕ)
      → (one_batch p g context priority q).world.node x ≡ (
          if g == x
          then with_tasks q (q.tasks ++ p.next ∷ []) (q.active_tasks_count + 1)
          else if p.next == x
          then unit_task
          else p.world.node x)
  unfolding one_batch make_task make_object joined_world joined set_parent record_event set_node
  node_lem x = refl

  pub rest_lem :
      ((x : ℕ)
        → (one_batch p g context priority q).world.type x
          ≡ (if p.next == x then fire_and_forget else p.world.type x))
      × ((one_batch p g context priority q).world.log
          ≡ (p.world.log ++ added_to_group p.next g ∷ []) ++ task_added g p.next ∷ [])
      × ((one_batch p g context priority q).world.scheduler ≡ p.world.scheduler)
      × ((one_batch p g context priority q).world.build ≡ p.world.build)
      × ((one_batch p g context priority q).world.add_fuel ≡ p.world.add_fuel)
      × ((one_batch p g context priority q).next ≡ suc p.next)
  unfolding one_batch make_task make_object joined_world joined set_parent record_event set_node
  rest_lem = (λ x. refl, refl, refl, refl, refl, refl)
