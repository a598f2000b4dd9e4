-- ===== src/Scheduling/Groups/Single/Trees.antt =====
-- executeSingleThreaded on a tree of groups.
use oqpi.Base.{
  ℕ, suc, ◌≡◌, Bool, true, false, ◌||◌, List, [], ◌∷◌, ◌++◌, if◌then◌else◌, ◌==◌, ltb, length,
}
use oqpi.Scheduling.Priority.{TaskType}
use oqpi.Scheduling.Groups.Objects.{
  ParallelGroup, unit_task, parallel_group, sequence_group, Event, pre_execute, run_func,
  post_execute, group_pre_execute, group_post_execute, World,
}
use oqpi.Scheduling.Groups.Single.Ran.{told}

mutual
  -- A task, a parallel group or a sequence, by the number of the object.
  pub data Tree : Type 0 where
    leaf : ℕ → Tree
    fork : ℕ → Trees → Tree
    chain : ℕ → Trees → Tree

  pub data Trees : Type 0 where
    end : Trees
    branch : Tree → Trees → Trees

unfoldable pub root : Tree → ℕ
root (leaf t) = t
root (fork g ts) = g
root (chain g ts) = g

unfoldable pub roots : Trees → List ℕ
unfolding root
roots end = []
roots (branch t ts) = root t ∷ roots ts

unfoldable mutual
  pub has : Tree → ℕ → Bool
  has (leaf t) x = t == x
  has (fork g ts) x = g == x || has_any ts x
  has (chain g ts) x = g == x || has_any ts x

  pub has_any : Trees → ℕ → Bool
  has_any end x = false
  has_any (branch t ts) x = has t x || has_any ts x

-- The levels of a tree.
unfoldable mutual
  pub levels_of : Tree → ℕ
  levels_of (leaf t) = 1
  levels_of (fork g ts) = suc (levels_below ts)
  levels_of (chain g ts) = suc (levels_below ts)

  pub levels_below : Trees → ℕ
  levels_below end = 0
  levels_below (branch t ts) =
      if ltb (levels_of t) (levels_below ts) then levels_below ts else levels_of t

-- What is to be seen: each group from its pre-execute call to its post-execute call and its event,
-- its members in between, in order, and each task from its pre-execute call to its event.
unfoldable mutual
  unfolding told

  pub trace : (ℕ → TaskType) → Tree → List Event
  trace type (leaf t) = pre_execute t ∷ run_func t ∷ post_execute t ∷ told type t
  trace type (fork g ts) =
      group_pre_execute g ∷ (traces type ts ++ (group_post_execute g ∷ told type g))
  trace type (chain g ts) =
      group_pre_execute g ∷ (traces type ts ++ (group_post_execute g ∷ told type g))

  pub traces : (ℕ → TaskType) → Trees → List Event
  traces type end = []
  traces type (branch t ts) = trace type t ++ traces type ts

-- The objects of the world form the tree, each object is in it once, and none has been grabbed.
unfoldable mutual
  unfolding has has_any roots

  pub IsTree : World → Tree → Type 0
  IsTree w (leaf t) = (w.node t ≡ unit_task) × ((w.store t).grabbed ≡ false)
  IsTree w (fork g ts) =
      ((p : ParallelGroup) × (w.node g ≡ parallel_group p)
        × (p.tasks ≡ roots ts)
        × (p.active_tasks_count ≡ length p.tasks))
      × ((w.store g).grabbed ≡ false)
      × (has_any ts g ≡ false)
      × AreTrees w ts
  IsTree w (chain g ts) =
      (w.node g ≡ sequence_group (roots ts))
      × ((w.store g).grabbed ≡ false)
      × (has_any ts g ≡ false)
      × AreTrees w ts

  pub AreTrees : World → Trees → Type 0
  AreTrees w end = Unit {0}
  AreTrees w (branch t ts) =
      IsTree w t × ((x : ℕ) → has t x ≡ true → has_any ts x ≡ false) × AreTrees w ts

-- What is to be seen of tasks that run one after the other.
unfoldable pub task_events : (ℕ → TaskType) → List ℕ → List Event
unfolding trace
task_events type [] = []
task_events type (t ∷ ts) = trace type (leaf t) ++ task_events type ts
