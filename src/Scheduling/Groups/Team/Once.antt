-- ===== src/Scheduling/Groups/Team/Once.antt =====
-- Each task of a group runs once, whichever threads try it.
use oqpi.Base.{
  ℕ, suc, ◌<◌, ◌≡◌, ◌⊎◌, inl, inr, refl, ap, Bool, true, false, ◌||◌, some, List, [], ◌∷◌, ◌==◌,
  ==_refl, contains, Bool-cases, arith, length,
}
use oqpi.Scheduling.Task.{Store, is_open}
use oqpi.Scheduling.Groups.Team.Defs.{idle, Team, Reach, here, next, started, has_task}
use oqpi.Scheduling.Groups.Team.Invariant.{AllOnce, uncounted, IsSound, Step-IsSound}

uncounted-all : (ts : List ℕ) → uncounted (λ t. false) ts ≡ length ts
unfolding uncounted
uncounted-all [] = refl
uncounted-all (t ∷ ts) = ap suc (uncounted-all ts)

-- When none is left uncounted, each is counted.
all-counted :
    (counted : ℕ → Bool) (ts : List ℕ) (x : ℕ)
    → uncounted counted ts ≡ 0
    → contains ts x ≡ true
    → counted x ≡ true
unfolding uncounted contains
all-counted counted [] x none inside = cc inside
all-counted counted (t ∷ ts) x none inside = elim (Bool-cases (t == x)) [
  | inl same ↦ let e : t ≡ x = ground arith in ground (arith, ap counted e)
  | inr other ↦ all-counted counted ts x (ground arith) (ground arith)
]

or_true : (a : Bool) → (a || true) ≡ true
or_true a = ground arith

some-uncounted :
    (counted : ℕ → Bool) (ts : List ℕ)
    → ((t : ℕ) → contains ts t ≡ true → counted t ≡ true)
    → uncounted counted ts ≡ 0
unfolding uncounted contains
some-uncounted counted [] all = refl
some-uncounted counted (t ∷ ts) all =
    rw (all t (rw (==_refl t) refl))
      (some-uncounted counted ts (λ x i. all x (rw i (or_true (t == x)))))

module _ (tasks : List ℕ) (store : Store) (once : AllOnce tasks) (some_task : 0 < length tasks)
    (open_all : (t : ℕ) → contains tasks t ≡ true → is_open store t ≡ true) where
  started-IsSound : IsSound tasks (started store (length tasks))
  unfolding is_open contains AllOnce
  started-IsSound = record {
    own = λ i t h. cc h;
    alone = λ i j t a b. cc a;
    taken = λ t inside g. ground (arith, open_all t);
    not_called = λ i t h. refl;
    called = λ t c. cc c;
    was_called = λ i t h. cc h;
    done_called = λ t inside d. ground (arith, open_all t);
    ran_done = λ i t h. cc h;
    counted_done = λ t c. cc c;
    once = tt;
    count = ground (arith, uncounted-all tasks);
    ends = ground arith;
  }

  reached-IsSound : (s : Team) → Reach tasks (started store (length tasks)) s → IsSound tasks s
  reached-IsSound s here = started-IsSound
  reached-IsSound s (next r st) = Step-IsSound tasks once st (reached-IsSound _ r)

ends-done :
    (tasks : List ℕ) (s : Team)
    → IsSound tasks s
    → (s.ended ≡ 0)
      ⊎ ((s.ended ≡ 1)
          × ((t : ℕ)
              → contains tasks t ≡ true
              → ((s.store t).done ≡ true) × (contains s.calls t ≡ true)))
ends-done tasks s v = elim (Bool-cases (s.active_tasks_count == 0)) [
  | inl zero_left ↦
      let counted = λ (t : ℕ) (inside : contains tasks t ≡ true).
        v.counted_done t (all-counted s.counted tasks t (ground (arith, v.count)) inside) in
      inr (
        ground (arith, v.ends),
        λ t inside. ((counted t inside).0, v.done_called t inside (counted t inside).0),
      )
  | inr some_left ↦ inl (ground (arith, v.ends))
]

at_rest :
    (tasks : List ℕ) (s : Team)
    → IsSound tasks s
    → ((i : ℕ) → s.place i ≡ idle)
    → ((t : ℕ) → contains tasks t ≡ true → (s.store t).grabbed ≡ true)
    → s.ended ≡ 1
at_rest tasks s v rest taken =
    let none_left = some-uncounted s.counted tasks (λ t inside.
      elim (v.taken t inside (taken t inside)) [
        | inl c ↦ c
        | inr (i, at_i) ↦ ground (arith, rest i)
      ]) in
    ground (arith, v.count, none_left, v.ends)

-- However many threads try the tasks of a group that are all open, each named once, and however the
-- atomic steps of `tryGrab`, of the tasks and of the count of the group interleave: no two threads
-- have the same task, and the function of no task is called twice. The group ends once at most, and
-- not before all of its tasks have been called and are done. When all tasks are grabbed and no
-- thread has one any more, the group has ended.
pub team-once :
    (tasks : List ℕ) (store : Store) (s : Team)
    → AllOnce tasks
    → 0 < length tasks
    → ((t : ℕ) → contains tasks t ≡ true → is_open store t ≡ true)
    → Reach tasks (started store (length tasks)) s
    → ((i j t : ℕ) → has_task (s.place i) ≡ some t → has_task (s.place j) ≡ some t → i ≡ j)
      × AllOnce s.calls
      × ((s.ended ≡ 0)
          ⊎ ((s.ended ≡ 1)
              × ((t : ℕ)
                  → contains tasks t ≡ true
                  → ((s.store t).done ≡ true) × (contains s.calls t ≡ true))))
      × (((i : ℕ) → s.place i ≡ idle)
          → ((t : ℕ) → contains tasks t ≡ true → (s.store t).grabbed ≡ true)
          → s.ended ≡ 1)
team-once tasks store s once some_task open_all r =
    let v = reached-IsSound tasks store once some_task open_all s r in
    (v.alone, v.once, ends-done tasks s v, at_rest tasks s v)
