-- ===== src/Examples/Trees.antt =====
-- A fork of a chain of two tasks and of a third task, run in the thread that calls it.
use oqpi.Base.{
  ℕ, ◌≡◌, refl, ◌||◌, ◌⊎◌, true, false, arith, none, [], ◌∷◌, ◌++◌, if◌then◌else◌, ◌==◌,
}
use oqpi.Scheduling.Priority.{normal, waitable}
use oqpi.Scheduling.Scheduler.{checked, ok}
use oqpi.Scheduling.Groups.{Node, unit_task, parallel_group, sequence_group, World}
use oqpi.Scheduling.Groups.Single.{execute_single_threaded}
use oqpi.Scheduling.Groups.Single.Trees.{
  Tree, leaf, fork, chain, end, branch, root, has, levels_of, trace, IsTree,
}
use oqpi.Scheduling.Groups.Single.All.{execute_single_threaded-tree}

abbrev both : Tree
both = fork 1 (branch (chain 2 (branch (leaf 3) (branch (leaf 4) end))) (branch (leaf 5) end))

abbrev objects : ℕ → Node
objects n =
    if n == 1
    then parallel_group (record {
      active_tasks_count = 2;
      tasks = 2 ∷ 5 ∷ [];
      max_simultaneous_tasks = 0;
      current_task_index = 1;
    })
    else if n == 2
    then sequence_group (3 ∷ 4 ∷ [])
    else unit_task

abbrev before : World
before = record {
  build = checked;
  store = λ t. record { uid = t; parent = none; priority = normal; grabbed = false; done = false };
  node = objects;
  type = λ t. waitable;
  scheduler = record { workers = []; workers_per_prio = []; pending = []; running = true };
  add_fuel = 3;
  log = [];
}

before-IsTree : IsTree before both
unfolding IsTree has root
before-IsTree = (
  (
    record {
      active_tasks_count = 2;
      tasks = 2 ∷ 5 ∷ [];
      max_simultaneous_tasks = 0;
      current_task_index = 1;
    },
    refl,
    refl,
    refl,
  ),
  refl,
  refl,
  (
    (refl, refl, refl, ((refl, refl), (λ x i. ground arith), ((refl, refl), (λ x i. refl), tt))),
    (λ x i. ground arith),
    ((refl, refl), (λ x i. refl), tt),
  ),
)

execute_single_threaded-tree_example :
    (w' : World) × (execute_single_threaded 3 before 1 ≡ ok w')
    × (w'.log ≡ [] ++ trace (λ t. waitable) both)
    × ((x : ℕ) → (w'.store x).done ≡ (has both x || (before.store x).done))
    × ((x : ℕ) → (has both x ≡ true) ⊎ (w'.store x ≡ before.store x))
unfolding root levels_of
execute_single_threaded-tree_example =
    execute_single_threaded-tree both 3 before (omega arith) before-IsTree
