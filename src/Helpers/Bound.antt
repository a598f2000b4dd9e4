-- ===== src/Helpers/Bound.antt =====
-- What sequence_tasks and fork_tasks make of the tasks.
use mathlib.Core.List.{append_assoc, append-nil}
use oqpi.Base.{
  contains, ℕ, suc, ◌+◌, ◌≡◌, refl, sym, ap, ◌∙◌, Bool, true, false, none, some, List, [], ◌∷◌,
  ◌++◌, if◌then◌else◌, ◌==◌, ==_refl, length, arith, Bool-cases, inl, inr,
}
use oqpi.Scheduling.Task.{Store, Handle, set_parent}
use oqpi.Scheduling.Scheduler.{ok}
use oqpi.Scheduling.Groups.{
  ParallelGroup, Node, unit_task, parallel_group, sequence_group, World, added_to_group, task_added,
  set_node, record_event, add_task, add_task_impl,
}
use oqpi.Scheduling.Groups.Unit.{ensure-holds}
use oqpi.Helpers.Defs.{add_to_group}

-- The tasks are in no group, and each is named once.
unfoldable pub Unbound : Store → List ℕ → Type 0
unfolding contains
Unbound store [] = Unit {0}
Unbound store (t ∷ ts) = ((store t).parent ≡ none) × (contains ts t ≡ false) × Unbound store ts

-- The node of a group with one more task.
unfoldable pub joined : Node → ℕ → Node
joined unit_task t = unit_task
joined (parallel_group p) t =
    parallel_group
      (record p { tasks = p.tasks ++ t ∷ []; active_tasks_count = p.active_tasks_count + 1 })
joined (sequence_group q) t = sequence_group (q ++ t ∷ [])

unfoldable pub is_group : Node → Bool
is_group unit_task = false
is_group (parallel_group p) = true
is_group (sequence_group q) = true

-- The world after `addTask`.
unfoldable pub joined_world : World → ℕ → ℕ → Node → World
unfolding set_parent record_event set_node
joined_world w g t n =
    record_event
      (set_node
        (record_event (record w { store = set_parent w.store t (some g) }) (added_to_group t g)) g
        n)
      (task_added g t)

pub add_task-joined :
    (w : World) (g t : ℕ) (n : Node)
    → w.node g ≡ n
    → is_group n ≡ true
    → (w.store t).parent ≡ none
    → add_task w g (some t) ≡ ok (joined_world w g t (joined n t))
unfolding add_task add_task_impl joined_world joined is_group record_event
add_task-joined w g t unit_task e group free = cc group
add_task-joined w g t (parallel_group p) e group free =
    rw (free, ensure-holds w.build, e, add_task_impl) refl
add_task-joined w g t (sequence_group q) e group free =
    rw (free, ensure-holds w.build, e, add_task_impl) refl

pub joined_all : Node → List ℕ → Node
unfolding joined
joined_all n [] = n
joined_all n (t ∷ ts) = joined_all (joined n t) ts

-- `w'` is `w` with the tasks in the group, whose node is `n` now.
pub record IsBound (g : ℕ) (ts : List ℕ) (n : Node) (w w' : World) : Type 0 where
  pub same_build : w'.build ≡ w.build
  pub same_scheduler : w'.scheduler ≡ w.scheduler
  pub same_fuel : w'.add_fuel ≡ w.add_fuel
  pub same_types : w'.type ≡ w.type
  pub group : w'.node g ≡ n
  pub nodes : (x : ℕ) → (g == x) ≡ false → w'.node x ≡ w.node x
  pub stores :
      (x : ℕ)
      → w'.store x ≡ (if contains ts x then record (w.store x) { parent = some g } else w.store x)

joined-is_group : (n : Node) (t : ℕ) → is_group n ≡ true → is_group (joined n t) ≡ true
unfolding joined is_group
joined-is_group unit_task t e = e
joined-is_group (parallel_group p) t e = refl
joined-is_group (sequence_group q) t e = refl

-- A change of a task that is not named.
Unbound-set_parent :
    (s : Store) (t : ℕ) (g : Handle) (ts : List ℕ)
    → contains ts t ≡ false
    → Unbound s ts
    → Unbound (set_parent s t g) ts
unfolding Unbound contains set_parent
Unbound-set_parent s t g [] other free = tt
Unbound-set_parent s t g (x ∷ ts) other (alone, once, free) =
    (ground arith, once, Unbound-set_parent s t g ts (ground arith) free)

store_at :
    (s : Store) (g t : ℕ) (ts : List ℕ) (x : ℕ)
    → contains ts t ≡ false
    → (if contains ts x
        then record (set_parent s t (some g) x) { parent = some g }
        else set_parent s t (some g) x)
      ≡ (if contains (t ∷ ts) x then record (s x) { parent = some g } else s x)
unfolding set_parent contains
store_at s g t ts x once = elim (Bool-cases (t == x)) [
  | inl same ↦ let e : t ≡ x = ground arith in rw (sym e, once, ==_refl t) refl
  | inr other ↦ rw (other) refl
]

pub add_to_group-IsBound :
    (w : World) (g : ℕ) (n : Node) (ts : List ℕ)
    → w.node g ≡ n
    → is_group n ≡ true
    → Unbound w.store ts
    → (w' : World) × (add_to_group w g ts ≡ ok w') × IsBound g ts (joined_all n ts) w w'
unfolding add_to_group joined_all Unbound contains joined_world record_event set_node set_parent
add_to_group-IsBound w g n [] e group free = (
  w,
  refl,
  record {
    same_build = refl;
    same_scheduler = refl;
    same_fuel = refl;
    same_types = refl;
    group = e;
    nodes = λ x o. refl;
    stores = λ x. refl;
  },
)
add_to_group-IsBound w g n (t ∷ ts) e group (alone, once, free) =
    let w₁ = joined_world w g t (joined n t) in
    let (w', run, b) =
      add_to_group-IsBound w₁ g (joined n t) ts (rw (==_refl g) refl) (joined-is_group n t group)
        (Unbound-set_parent w.store t (some g) ts once free) in
    (
      w',
      rw (add_task-joined w g t n e group alone) run,
      record {
        same_build = b.same_build;
        same_scheduler = b.same_scheduler;
        same_fuel = b.same_fuel;
        same_types = b.same_types;
        group = b.group;
        nodes = λ x o. b.nodes x o ∙ rw o refl;
        stores = λ x. b.stores x ∙ store_at w.store g t ts x once;
      },
    )

pub joined_all-sequence :
    (q ts : List ℕ) → joined_all (sequence_group q) ts ≡ sequence_group (q ++ ts)
unfolding joined_all joined
joined_all-sequence q [] = ap sequence_group (sym (append-nil q))
joined_all-sequence q (t ∷ ts) =
    joined_all-sequence (q ++ t ∷ []) ts ∙ ap sequence_group (append_assoc q (t ∷ []) ts)

pub node_with :
    (p : ParallelGroup) (a b : List ℕ) (m n : ℕ)
    → a ≡ b
    → m ≡ n
    → parallel_group (record p { tasks = a; active_tasks_count = m })
      ≡ parallel_group (record p { tasks = b; active_tasks_count = n })
node_with p a b m n e f = cc (e, f)

pub joined_all-parallel :
    (p : ParallelGroup) (ts : List ℕ)
    → joined_all (parallel_group p) ts
      ≡ parallel_group (record p {
        tasks = p.tasks ++ ts;
        active_tasks_count = p.active_tasks_count + length ts;
      })
unfolding joined_all joined
joined_all-parallel p [] =
    node_with p (p.tasks) (p.tasks ++ []) p.active_tasks_count (p.active_tasks_count + 0)
      (sym (append-nil p.tasks)) (omega arith)
joined_all-parallel p (t ∷ ts) =
    joined_all-parallel
      (record p { tasks = p.tasks ++ t ∷ []; active_tasks_count = p.active_tasks_count + 1 }) ts
    ∙ node_with p (p.tasks ++ t ∷ [] ++ ts) (p.tasks ++ t ∷ ts)
        (p.active_tasks_count + 1 + length ts) (p.active_tasks_count + suc (length ts))
        (append_assoc p.tasks (t ∷ []) ts) (omega arith)
