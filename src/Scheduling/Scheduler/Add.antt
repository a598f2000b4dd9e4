-- ===== src/Scheduling/Scheduler/Add.antt =====
-- scheduler.hpp: what `add` does, and the priority that it finds.
use mathlib.Core.Option
use oqpi.Base.{
  ℕ, zero, suc, ◌≤◌, ◌<◌, ◌≡◌, refl, ◌⊎◌, inl, inr, true, false, Option, none, some, List, [], ◌∷◌,
  ◌++◌, map, length, ◌==◌, set, get_elem?, if◌then◌else◌, arith, Bool-cases,
}
use oqpi.Scheduling.Priority.{TaskPriority, normal, inherit, to_int, same_priority}
use oqpi.Scheduling.Task.{Store, is_open}
use oqpi.Scheduling.Scheduler.Defs.{
  Build, checked, unchecked, ok, fault, Scheduler, notify, can_work, resolve_loop,
  resolve_task_priority, add,
}

-- `Inherits s g p`: `p` is the priority of the first group from `g` upwards that has one of its own,
-- and `normal` where the groups end.
pub data Inherits (s : Store) : Option ℕ → TaskPriority → Type 0 where
  orphan : Inherits s none normal
  own :
      {g : ℕ} {p : TaskPriority}
      → p ≡ (s g).priority
      → same_priority (s g).priority inherit ≡ false
      → Inherits s (some g) p
  above :
      {g : ℕ} {p : TaskPriority}
      → same_priority (s g).priority inherit ≡ true
      → Inherits s (s g).parent p
      → Inherits s (some g) p

-- `rank` falls from a group to its parent, so the chain of the parents ends.
abbrev pub IsRanked : (ℕ → ℕ) → Store → Type 0
IsRanked rank s = (g h : ℕ) → (s g).parent ≡ some h → rank h < rank g

abbrev pub height : (ℕ → ℕ) → Option ℕ → ℕ
height rank none = 0
height rank (some g) = suc (rank g)

height-parent :
    (rank : ℕ → ℕ) (s : Store) (g : ℕ) (o : Option ℕ)
    → IsRanked rank s
    → (s g).parent ≡ o
    → height rank o ≤ rank g
height-parent rank s g none ranked e = omega arith
height-parent rank s g (some h) ranked e = ranked g h e

resolve_loop-Inherits :
    (rank : ℕ → ℕ) (s : Store)
    → IsRanked rank s
    → (fuel : ℕ) (g : Option ℕ) → height rank g < fuel
    → (p : TaskPriority) × (resolve_loop fuel checked s g ≡ ok p) × Inherits s g p
unfolding resolve_loop
resolve_loop-Inherits rank s ranked zero g h = absurd (omega arith)
resolve_loop-Inherits rank s ranked (suc fuel) none h = (normal, refl, orphan)
resolve_loop-Inherits rank s ranked (suc fuel) (some g) h =
    elim (Bool-cases (same_priority (s g).priority inherit)) [
      | inr has ↦ ((s g).priority, rw has refl, Inherits.own refl has)
      | inl asks ↦
          let (p, e, i) =
            resolve_loop-Inherits rank s ranked fuel (s g).parent
              (omega (arith, height-parent rank s g (s g).parent ranked refl)) in
          (p, rw asks e, Inherits.above asks i)
    ]

-- The priority that a handle is queued with.
abbrev pub Effective : Store → ℕ → TaskPriority → Type 0
Effective s t p =
    (p ≡ (s t).priority) × (same_priority (s t).priority inherit ≡ false)
    ⊎ (same_priority (s t).priority inherit ≡ true) × Inherits s (s t).parent p

-- In a build with checks, where a failed oqpi_ensure is reported and the code goes on, resolveTaskPriority
-- ends for every task whose chain of groups ends, once the fuel is more than the rank of the task. It finds the task's own priority or, where that is `inherit`,
-- that of the nearest group above that has one, and `normal` where there is none.
pub resolve_task_priority-Effective :
    (rank : ℕ → ℕ) (s : Store) (fuel t : ℕ)
    → IsRanked rank s
    → rank t < fuel
    → (p : TaskPriority) × (resolve_task_priority fuel checked s t ≡ ok p) × Effective s t p
unfolding resolve_task_priority
resolve_task_priority-Effective rank s fuel t ranked enough =
    elim (Bool-cases (same_priority (s t).priority inherit)) [
      | inr has ↦ ((s t).priority, rw has refl, inl (refl, has))
      | inl asks ↦
          let (p, e, i) =
            resolve_loop-Inherits rank s ranked fuel (s t).parent
              (omega (arith, height-parent rank s t (s t).parent ranked refl)) in
          (p, rw asks e, inr (asks, i))
    ]

-- `Nearest s g p`: `p` is the priority of the first group from `g` upwards that has one of its own.
pub data Nearest (s : Store) : Option ℕ → TaskPriority → Type 0 where
  own :
      {g : ℕ} {p : TaskPriority}
      → p ≡ (s g).priority
      → same_priority (s g).priority inherit ≡ false
      → Nearest s (some g) p
  above :
      {g : ℕ} {p : TaskPriority}
      → same_priority (s g).priority inherit ≡ true
      → Nearest s (s g).parent p
      → Nearest s (some g) p

-- All objects from `g` upwards are to inherit.
pub data AllInherit (s : Store) : Option ℕ → Type 0 where
  top : AllInherit s none
  inherits :
      {g : ℕ}
      → same_priority (s g).priority inherit ≡ true
      → AllInherit s (s g).parent
      → AllInherit s (some g)

resolve_loop-unchecked :
    (rank : ℕ → ℕ) (s : Store)
    → IsRanked rank s
    → (fuel : ℕ) (g : Option ℕ) → height rank g < fuel
    → ((resolve_loop fuel unchecked s g ≡ fault) × AllInherit s g)
      ⊎ ((p : TaskPriority) × (resolve_loop fuel unchecked s g ≡ ok p) × Nearest s g p)
unfolding resolve_loop
resolve_loop-unchecked rank s ranked zero g h = absurd (omega arith)
resolve_loop-unchecked rank s ranked (suc fuel) none h = inl (refl, top)
resolve_loop-unchecked rank s ranked (suc fuel) (some g) h =
    elim (Bool-cases (same_priority (s g).priority inherit)) [
      | inr has ↦ inr ((s g).priority, rw has refl, Nearest.own refl has)
      | inl asks ↦
          elim (resolve_loop-unchecked rank s ranked fuel (s g).parent
            (omega (arith, height-parent rank s g (s g).parent ranked refl))) [
              | inl (e, i) ↦ inl (rw asks e, inherits asks i)
              | inr (p, e, i) ↦ inr (p, rw asks e, Nearest.above asks i)
            ]
    ]

-- Without checks, for an open task whose chain of groups ends and enough fuel: either the task and all
-- groups above it are to inherit, and then resolveTaskPriority calls through a null pointer, and `add`
-- of the task with it; or it finds the priority of the nearest of them that has one.
pub resolve_task_priority-unchecked :
    (rank : ℕ → ℕ) (s : Store) (sched : Scheduler) (fuel t : ℕ)
    → IsRanked rank s
    → rank t < fuel
    → is_open s t ≡ true
    → ((resolve_task_priority fuel unchecked s t ≡ fault)
        × (add fuel unchecked s sched (some t) ≡ fault)
        × AllInherit s (some t))
      ⊎ ((p : TaskPriority) × (resolve_task_priority fuel unchecked s t ≡ ok p)
          × Nearest s (some t) p)
unfolding add resolve_task_priority is_open
resolve_task_priority-unchecked rank s sched fuel t ranked enough free =
    elim (Bool-cases (same_priority (s t).priority inherit)) [
      | inr has ↦ inr ((s t).priority, rw has refl, Nearest.own refl has)
      | inl asks ↦
          elim (resolve_loop-unchecked rank s ranked fuel (s t).parent
            (omega (arith, height-parent rank s t (s t).parent ranked refl))) [
              | inl (e, i) ↦ inl (rw asks e, rw (free, asks, e) refl, inherits asks i)
              | inr (p, e, i) ↦ inr (p, rw asks e, Nearest.above asks i)
            ]
    ]

get_elem?-in :
    {A : Type 0} (qs : List A) (i : ℕ) → i < length qs → (q : A) × (get_elem? qs i ≡ some q)
get_elem?-in [] i h = elim h [ ]
get_elem?-in (q ∷ qs) zero h = (q, refl)
get_elem?-in (q ∷ qs) (suc i) h = get_elem?-in qs i (omega arith)

get_elem?-set :
    {A : Type 0} (xs : List A) (i j : ℕ) (v : A)
    → i < length xs
    → get_elem? (set xs i v) j ≡ (if j == i then some v else get_elem? xs j)
get_elem?-set [] i j v h = elim h [ ]
get_elem?-set (x ∷ xs) zero zero v h = refl
get_elem?-set (x ∷ xs) zero (suc j) v h = ground arith
get_elem?-set (x ∷ xs) (suc i) zero v h = ground arith
get_elem?-set (x ∷ xs) (suc i) (suc j) v h = ground (arith, get_elem?-set xs i j v)

-- `add` of an open task whose priority resolves to one that has a queue: the handle goes behind those
-- that are in the queue of that priority, the other queues stay, and each worker gets one more token
-- exactly if it may work on that priority; all else of the scheduler stays.
pub add-open :
    (fuel : ℕ) (build : Build) (s : Store) (sched : Scheduler) (t : ℕ) (p : TaskPriority)
    → is_open s t ≡ true
    → resolve_task_priority fuel build s t ≡ ok p
    → to_int p < length sched.pending
    → (qs : List (List ℕ)) × (add fuel build s sched (some t)
        ≡ ok (record sched {
          pending = qs;
          workers = map (λ w. if can_work w p then notify w else w) sched.workers;
        }))
      × ((i : ℕ)
          → get_elem? qs i ≡ (
              if i == to_int p
              then Option.map (λ q. q ++ t ∷ []) (get_elem? sched.pending i)
              else get_elem? sched.pending i))
unfolding add is_open
add-open fuel build s sched t p free resolves level =
    let (q, there) = get_elem?-in sched.pending (to_int p) level in
    (
      set sched.pending (to_int p) (q ++ t ∷ []),
      rw (free, resolves, there) refl,
      λ i.
          rw (get_elem?-set sched.pending (to_int p) i (q ++ t ∷ []) level)
            (elim (Bool-cases (i == to_int p)) [
              | inl here ↦ let e : i ≡ to_int p = ground arith in rw (here, e, there) refl
              | inr away ↦ rw away refl
            ]),
    )

-- `add` of an invalid handle, or of a task that is grabbed or done, changes nothing.
add-closed :
    (fuel : ℕ) (build : Build) (s : Store) (sched : Scheduler) (t : ℕ)
    → is_open s t ≡ false
    → (add fuel build s sched none ≡ ok sched) × (add fuel build s sched (some t) ≡ ok sched)
unfolding add is_open
add-closed fuel build s sched t closed = (refl, rw closed refl)
