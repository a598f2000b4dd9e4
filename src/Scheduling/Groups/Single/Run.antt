-- ===== src/Scheduling/Groups/Single/Run.antt =====
-- executeSingleThreaded on a tree of groups: it ends, and all of the tree has run.
use oqpi.Base.{
  ℕ, ◌≤◌, ◌≡◌, refl, sym, ap, subst, ◌∙◌, Bool, true, false, ◌||◌, List, [], ◌∷◌, ◌++◌, arith, ◌==◌,
  Bool-cases, inl, inr,
}
use oqpi.Scheduling.Priority.{TaskType}
use oqpi.Scheduling.Scheduler.{Outcome, ok, ◌>>=◌}
use oqpi.Scheduling.Groups.Objects.{
  Event, group_pre_execute, group_post_execute, World, record_event,
}
use oqpi.Scheduling.Groups.Single.{grab, end_single}
use oqpi.Scheduling.Groups.Single.Ran.{Ran, Ran-trans, record_event-Ran, Ran-widen, told, only}
use oqpi.Scheduling.Groups.Single.Trees.{
  Tree, Trees, branch, has_any, levels_of, levels_below, traces, AreTrees,
}
use oqpi.Scheduling.Groups.Single.Laws.{
  AllDone, or_false, AreTrees-Ran, grab-Ran, end_single-Ran, end_single-done,
}

-- The code returns; only the objects in `inside` have changed, and all of those in `finished` are
-- done.
unfoldable pub Finishes : (ℕ → Bool) → (ℕ → Bool) → List Event → World → Outcome World → Type 0
unfolding AllDone
Finishes inside finished events w o =
    (w' : World) × (o ≡ ok w') × Ran inside events w w' × AllDone finished w'

pub in_right : (a b : Bool) → a ≡ false → (a || b) ≡ true → b ≡ true
in_right a b e h = ground arith

pub Ran-events :
    (inside : ℕ → Bool) (a b : List Event) (w w' : World)
    → a ≡ b
    → Ran inside a w w'
    → Ran inside b w w'
Ran-events inside a b w w' e r = subst (λ (l : List Event). Ran inside l w w') e r

pub other_side : (a b : Bool) → (a ≡ true → b ≡ false) → b ≡ true → a ≡ false
other_side true b h e = ground (arith, h refl)
other_side false b h e = refl

pub levels_split :
    (t : Tree) (ts : Trees) (d : ℕ)
    → levels_below (branch t ts) ≤ d
    → (levels_of t ≤ d) × (levels_below ts ≤ d)
unfolding levels_below
levels_split t ts d h = (ground arith, ground arith)

module _ (g : ℕ) (ts : Trees) where
  abbrev pub group : ℕ → Bool
  group x = g == x || has_any ts x

  pub group-of-only :
      (events : List Event) (w w' : World) → Ran (only g) events w w' → Ran group events w w'
  group-of-only events w w' =
      Ran-widen (only g) group events w w' (λ x out. (or_false (g == x) (has_any ts x) out).0)

  pub group-of-members :
      (events : List Event) (w w' : World) → Ran (has_any ts) events w w' → Ran group events w w'
  group-of-members events w w' =
      Ran-widen (has_any ts) group events w w' (λ x out. (or_false (g == x) (has_any ts x) out).1)

  pub not_it : (x : ℕ) → has_any ts g ≡ false → has_any ts x ≡ true → (g == x) ≡ false
  not_it x once i = elim (Bool-cases (g == x)) [
    | inl same ↦ let e : g ≡ x = ground arith in cc (once, i, ap (has_any ts) e)
    | inr other ↦ other
  ]

  -- Before the members run.
  unfoldable pub entered : World → World
  entered w = grab (record_event w (group_pre_execute g)) g

  pub entered-Ran :
      (w : World)
      → (w.store g).grabbed ≡ false
      → Ran (only g) (group_pre_execute g ∷ []) w (entered w)
  unfolding entered record_event
  entered-Ran w free =
      Ran-trans (only g) (group_pre_execute g ∷ []) [] w (record_event w (group_pre_execute g))
        (entered w) (record_event-Ran (only g) w (group_pre_execute g))
        (grab-Ran (record_event w (group_pre_execute g)) g free)

  pub entered-AreTrees :
      (w : World)
      → (w.store g).grabbed ≡ false
      → has_any ts g ≡ false
      → AreTrees w ts
      → AreTrees (entered w) ts
  entered-AreTrees w free once trees =
      AreTrees-Ran (only g) (group_pre_execute g ∷ []) w (entered w) (entered-Ran w free) ts
        (λ x i. not_it x once i) trees

  -- After them; in between, the group may have changed itself.
  left-Ran :
      (type : ℕ → TaskType) (w w' : World)
      → w'.type ≡ type
      → Ran (only g) [] w w'
      → Ran (only g) (group_post_execute g ∷ told type g) w (end_single w' g)
  left-Ran type w w' typed cleared =
      Ran-events (only g) (group_post_execute g ∷ told w'.type g)
        (group_post_execute g ∷ told type g) w (end_single w' g)
        (ap (λ (ty : ℕ → TaskType). group_post_execute g ∷ told ty g) typed)
        (Ran-trans (only g) [] (group_post_execute g ∷ told w'.type g) w w' (end_single w' g)
          cleared (end_single-Ran g w'))

  left-AllDone :
      (w w' : World)
      → Ran (only g) [] w w'
      → AllDone (has_any ts) w
      → AllDone group (end_single w' g)
  unfolding AllDone
  left-AllDone w w' cleared done x in_group = elim (Bool-cases (g == x)) [
    | inl same ↦
        let e : g ≡ x = ground arith in
        ap (λ y. ((end_single w' g).store y).done) (sym e) ∙ end_single-done g w'
    | inr other ↦
        (end_single-Ran g w').stays_done x
          (cleared.stays_done x (done x (in_right (g == x) (has_any ts x) other in_group)))
  ]

  -- All of a group, from what its members do.
  pub group-Finishes :
      (type : ℕ → TaskType) (w : World) (run : Outcome World) (finish : World → World)
      → w.type ≡ type
      → (w.store g).grabbed ≡ false
      → ((v : World) → Ran (only g) [] v (finish v))
      → Finishes group (has_any ts) (traces type ts) (entered w) run
      → Finishes group group
          (group_pre_execute g ∷ (traces type ts ++ (group_post_execute g ∷ told type g)))
          w
          (run >>= λ v. ok (end_single (finish v) g))
  unfolding Finishes
  group-Finishes type w run finish typed free cleared (v, returns, ran, done) = (
    end_single (finish v) g,
    rw returns refl,
    Ran-trans group (group_pre_execute g ∷ [])
        (traces type ts ++ (group_post_execute g ∷ told type g)) w (entered w) _
        (group-of-only _ w (entered w) (entered-Ran w free))
        (Ran-trans group (traces type ts) (group_post_execute g ∷ told type g) (entered w) v _ ran (
          group-of-only _ v _ (
            left-Ran type v (finish v)
              ((cleared v).types ∙ ran.types ∙ (entered-Ran w free).types ∙ typed) (cleared v)))),
    left-AllDone v (finish v) (cleared v) done,
  )
