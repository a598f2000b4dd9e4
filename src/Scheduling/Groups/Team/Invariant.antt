-- ===== src/Scheduling/Groups/Team/Invariant.antt =====
-- What holds of the threads between any two steps.
use oqpi.Base.{
  ℕ, suc, ◌≡◌, ◌⊎◌, inl, inr, refl, sym, ap, ◌∙◌, subst, Bool, true, false, ◌||◌, some, List, [],
  ◌∷◌, ◌++◌, if◌then◌else◌, ◌==◌, update, contains, Bool-cases, arith,
}
use oqpi.Scheduling.Task.{Store, try_grab, set_done}
use oqpi.Scheduling.Groups.Exec.{decrement}
use oqpi.Scheduling.Groups.Team.Defs.{
  idle, holding, running, ran, Team, Step, grabs, fails, invokes, finishes, counts, has_task,
}

-- Each number stands in the list once at most.
unfoldable pub AllOnce : List ℕ → Type 0
unfolding contains
AllOnce [] = Unit {0}
AllOnce (t ∷ ts) = (contains ts t ≡ false) × AllOnce ts

-- How many of the tasks are not counted yet.
unfoldable pub uncounted : (ℕ → Bool) → List ℕ → ℕ
uncounted counted [] = 0
uncounted counted (t ∷ ts) = if counted t then uncounted counted ts else suc (uncounted counted ts)

pub record IsSound (tasks : List ℕ) (s : Team) : Type 0 where
  pub own :
      (i t : ℕ)
      → has_task (s.place i) ≡ some t
      → (contains tasks t ≡ true) × ((s.store t).grabbed ≡ true) × (s.counted t ≡ false)
  pub alone : (i j t : ℕ) → has_task (s.place i) ≡ some t → has_task (s.place j) ≡ some t → i ≡ j
  pub taken :
      (t : ℕ)
      → contains tasks t ≡ true
      → (s.store t).grabbed ≡ true
      → (s.counted t ≡ true) ⊎ ((i : ℕ) × (has_task (s.place i) ≡ some t))
  pub not_called : (i t : ℕ) → s.place i ≡ holding t → contains s.calls t ≡ false
  pub called : (t : ℕ) → contains s.calls t ≡ true → (s.store t).grabbed ≡ true
  pub was_called : (i t : ℕ) → s.place i ≡ running t → contains s.calls t ≡ true
  pub done_called :
      (t : ℕ) → contains tasks t ≡ true → (s.store t).done ≡ true → contains s.calls t ≡ true
  pub ran_done : (i t : ℕ) → s.place i ≡ ran t → (s.store t).done ≡ true
  pub counted_done :
      (t : ℕ) → s.counted t ≡ true → ((s.store t).done ≡ true) × ((s.store t).grabbed ≡ true)
  pub once : AllOnce s.calls
  pub count : s.active_tasks_count ≡ uncounted s.counted tasks
  pub ends : s.ended ≡ (if s.active_tasks_count == 0 then 1 else 0)

contains-append : (ts : List ℕ) (t x : ℕ) → contains (ts ++ t ∷ []) x ≡ (contains ts x || t == x)
unfolding contains
contains-append [] t x = ground arith
contains-append (y ∷ ts) t x = ground (arith, contains-append ts t x)

AllOnce-append : (ts : List ℕ) (t : ℕ) → AllOnce ts → contains ts t ≡ false → AllOnce (ts ++ t ∷ [])
unfolding AllOnce contains
AllOnce-append [] t once out = (refl, tt)
AllOnce-append (x ∷ ts) t (out_x, once) out =
    (ground (arith, contains-append ts t x), AllOnce-append ts t once (ground arith))

module _ (tasks : List ℕ) (s : Team) (v : IsSound tasks s) (i t : ℕ) where
  grabs-IsSound :
      s.place i ≡ idle
      → contains tasks t ≡ true
      → (try_grab s.store t).0 ≡ true
      → IsSound tasks
          (record s { store = (try_grab s.store t).1; place = update s.place i (holding t) })
  unfolding try_grab
  grabs-IsSound free inside won = record {
    own = λ j x h. ground (arith, v.own j x, v.counted_done t);
    alone = λ j k x a b. ground (arith, v.alone j k x, v.own j x, v.own k x);
    taken = λ x inside_x g. elim (Bool-cases (t == x)) [
      | inl same ↦ inr (i, ground arith)
      | inr other ↦ elim (v.taken x inside_x (ground arith)) [
        | inl c ↦ inl c
        | inr (j, at_j) ↦ inr (j, ground arith)
      ]
    ];
    not_called = λ j x h. ground (arith, v.not_called j x, v.called x);
    called = λ x c. ground (arith, v.called x);
    was_called = λ j x h. ground (arith, v.was_called j x);
    done_called = λ x inside_x d. ground (arith, v.done_called x);
    ran_done = λ j x h. ground (arith, v.ran_done j x);
    counted_done = λ x c. ground (arith, v.counted_done x);
    once = v.once;
    count = v.count;
    ends = v.ends;
  }

  fails-IsSound :
      (try_grab s.store t).0 ≡ false → IsSound tasks (record s { store = (try_grab s.store t).1 })
  unfolding try_grab
  fails-IsSound lost =
      let same : (try_grab s.store t).1 ≡ s.store = ground arith in
      subst (λ (o : Store). IsSound tasks (record s { store = o })) (sym same) v

  invokes-IsSound :
      s.place i ≡ holding t
      → IsSound tasks (record s { calls = s.calls ++ t ∷ []; place = update s.place i (running t) })
  invokes-IsSound at = record {
    own = λ j x h. ground (arith, v.own j x, v.own i t);
    alone = λ j k x a b. ground (arith, v.alone j k x, v.alone i k x, v.alone j i x);
    taken = λ x inside_x g. elim (v.taken x inside_x g) [
      | inl c ↦ inl c
      | inr (j, at_j) ↦ inr (j, ground arith)
    ];
    not_called =
        λ j x h. ground (arith, v.not_called j x, v.alone i j x, contains-append s.calls t x);
    called = λ x c. ground (arith, v.called x, v.own i t, contains-append s.calls t x);
    was_called = λ j x h. ground (arith, v.was_called j x, contains-append s.calls t x);
    done_called = λ x inside_x d. ground (arith, v.done_called x, contains-append s.calls t x);
    ran_done = λ j x h. ground (arith, v.ran_done j x);
    counted_done = v.counted_done;
    once = AllOnce-append s.calls t v.once (v.not_called i t at);
    count = v.count;
    ends = v.ends;
  }

  finishes-IsSound :
      s.place i ≡ running t
      → IsSound tasks (record s { store = set_done s.store t; place = update s.place i (ran t) })
  unfolding set_done
  finishes-IsSound at = record {
    own = λ j x h. ground (arith, v.own j x, v.own i t);
    alone = λ j k x a b. ground (arith, v.alone j k x, v.alone i k x, v.alone j i x);
    taken = λ x inside_x g. elim (v.taken x inside_x (ground arith)) [
      | inl c ↦ inl c
      | inr (j, at_j) ↦ inr (j, ground arith)
    ];
    not_called = λ j x h. ground (arith, v.not_called j x);
    called = λ x c. ground (arith, v.called x);
    was_called = λ j x h. ground (arith, v.was_called j x);
    done_called = λ x inside_x d. ground (arith, v.done_called x, v.was_called i t);
    ran_done = λ j x h. ground (arith, v.ran_done j x);
    counted_done = λ x c. ground (arith, v.counted_done x);
    once = v.once;
    count = v.count;
    ends = v.ends;
  }

uncounted-out :
    (counted : ℕ → Bool) (t : ℕ) (ts : List ℕ)
    → contains ts t ≡ false
    → uncounted (update counted t true) ts ≡ uncounted counted ts
unfolding uncounted contains
uncounted-out counted t [] out = refl
uncounted-out counted t (x ∷ ts) out = ground (arith, uncounted-out counted t ts)

uncounted-in :
    (counted : ℕ → Bool) (t : ℕ) (ts : List ℕ)
    → AllOnce ts
    → contains ts t ≡ true
    → counted t ≡ false
    → uncounted counted ts ≡ suc (uncounted (update counted t true) ts)
unfolding uncounted contains AllOnce
uncounted-in counted t [] once inside new = cc inside
uncounted-in counted t (x ∷ ts) (out, once) inside new = elim (Bool-cases (t == x)) [
  | inl same ↦
      let here : t ≡ x = ground arith in
      let rest = uncounted-out counted t ts (ap (contains ts) here ∙ out) in
      ground (arith, rest, ap counted here)
  | inr other ↦ let rest = uncounted-in counted t ts once (ground arith) new in ground (arith, rest)
]

module _ (tasks : List ℕ) (once_each : AllOnce tasks) (s : Team) (v : IsSound tasks s) (i t : ℕ)
    (at : s.place i ≡ ran t) where
  fewer : s.active_tasks_count ≡ suc (uncounted (update s.counted t true) tasks)
  fewer =
      let (inside, held, new) = v.own i t (rw at refl) in
      v.count ∙ uncounted-in s.counted t tasks once_each inside new

  counts-IsSound : IsSound tasks (record s {
    active_tasks_count = decrement s.active_tasks_count;
    counted = update s.counted t true;
    ended = if s.active_tasks_count == 1 then suc s.ended else s.ended;
    place = update s.place i idle;
  })
  unfolding decrement
  counts-IsSound =
      let left = fewer in
      record {
        own = λ j x h. ground (arith, v.own j x, v.alone i j x);
        alone = λ j k x a b. ground (arith, v.alone j k x);
        taken = λ x inside_x g. elim (Bool-cases (t == x)) [
          | inl same ↦ inl (ground arith)
          | inr other ↦ elim (v.taken x inside_x g) [
            | inl c ↦ inl (ground arith)
            | inr (j, at_j) ↦ inr (j, ground arith)
          ]
        ];
        not_called = λ j x h. ground (arith, v.not_called j x);
        called = v.called;
        was_called = λ j x h. ground (arith, v.was_called j x);
        done_called = v.done_called;
        ran_done = λ j x h. ground (arith, v.ran_done j x);
        counted_done = λ x c. ground (arith, v.counted_done x, v.ran_done i t, v.own i t);
        once = v.once;
        count = ground (arith, left);
        ends = ground (arith, left, v.ends);
      }

pub Step-IsSound :
    (tasks : List ℕ) {u w : Team}
    → AllOnce tasks
    → Step tasks u w
    → IsSound tasks u
    → IsSound tasks w
Step-IsSound tasks once (grabs s i t free inside won) v =
    grabs-IsSound tasks s v i t free inside won
Step-IsSound tasks once (fails s i t free inside lost) v = fails-IsSound tasks s v i t lost
Step-IsSound tasks once (invokes s i t at) v = invokes-IsSound tasks s v i t at
Step-IsSound tasks once (finishes s i t at) v = finishes-IsSound tasks s v i t at
Step-IsSound tasks once (counts s i t at) v = counts-IsSound tasks once s v i t at
