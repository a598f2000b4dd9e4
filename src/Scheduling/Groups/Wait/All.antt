-- ===== src/Scheduling/Groups/Wait/All.antt =====
-- parallel_group.hpp: what the loop of `activeWait` comes to.
use oqpi.Base.{
  ℕ, suc, ◌+◌, ◌<◌, ◌≡◌, refl, sym, ap, ◌∙◌, subst, true, false, none, List, [], ◌∷◌, ◌++◌, arith,
  ◌==◌, contains, Bool-cases, inl, inr, length,
}
use oqpi.Scheduling.Priority.{TaskType}
use oqpi.Scheduling.Task.{Store, Task}
use oqpi.Scheduling.Scheduler.{ok}
use oqpi.Scheduling.Groups.Objects.{ParallelGroup, Event, World}
use oqpi.Scheduling.Groups.Exec.{execute}
use oqpi.Scheduling.Groups.Single.Ran.{Ran, Ran-trans, Ran-none, Ran-widen}
use oqpi.Scheduling.Groups.Single.Trees.{leaf, trace}
use oqpi.Scheduling.Groups.Single.Laws.{AllDone}
use oqpi.Scheduling.Groups.Unit.{taken_lem}
use oqpi.Scheduling.Groups.Members.{waits_for}
use oqpi.Scheduling.Groups.Ended.{group_end, is_part, Ended}
use oqpi.Scheduling.Groups.Wait.Defs.{help}
use oqpi.Scheduling.Groups.Wait.Loop.{AllMembers, free, member_runs}

-- What is to be seen of the tasks and of the group, which waits for `k` tasks more than these.
unfoldable pub helped_events : (ℕ → TaskType) → ℕ → ℕ → List ℕ → List Event
unfolding trace group_end
helped_events type g k [] = []
helped_events type g k (t ∷ ts) =
    (trace type (leaf t) ++ group_end type g (k + length ts)) ++ helped_events type g k ts

-- `w'` is `w` when the tasks `ts` have run and the group waits for `k` others.
pub record Helped (g : ℕ) (p : ParallelGroup) (k : ℕ) (ts : List ℕ) (w w' : World) : Type 0 where
  pub ran : Ran (is_part g ts) (helped_events w.type g k ts) w w'
  pub all_done : AllDone (contains ts) w'
  pub waits : w'.node g ≡ waits_for p k
  pub others : (x : ℕ) → (g == x) ≡ false → w'.node x ≡ w.node x
  pub group_done : 0 < length ts → k ≡ 0 → (w'.store g).done ≡ true
  pub top : (w'.store g).parent ≡ none
  pub same_scheduler : w'.scheduler ≡ w.scheduler

module _ (g : ℕ) (p : ParallelGroup) (k t n : ℕ) (w w₁ : World) (e : Ended g t p n w w₁) where
  same_store : (x : ℕ) → (g == x) ≡ false → (t == x) ≡ false → w₁.store x ≡ w.store x
  unfolding is_part contains
  same_store x a b = e.ran.stores x (rw (a, b) refl)

  pub AllMembers-Ended :
      (ts : List ℕ) → contains ts t ≡ false → AllMembers w g ts → AllMembers w₁ g ts
  unfolding AllMembers contains
  AllMembers-Ended [] once members = tt
  AllMembers-Ended (x ∷ ts) once (node, bound, other, single, members) =
      let apart : (t == x) ≡ false = ground arith in
      (
        e.others x other ∙ node,
        ap (λ (o : Task). o.parent) (same_store x other apart) ∙ bound,
        other,
        single,
        AllMembers-Ended ts (ground arith) members,
      )

  pub free-Ended :
      (ts : List ℕ) → contains ts t ≡ false → AllMembers w g ts → free w₁.store ts ≡ free w.store ts
  unfolding free AllMembers contains
  free-Ended [] once members = refl
  free-Ended (x ∷ ts) once (node, bound, other, single, members) =
      let apart : (t == x) ≡ false = ground arith in
      let rest = free-Ended ts (ground arith) members in
      let same = ap (λ (o : Task). o.grabbed) (same_store x other apart) in rw (same, rest) refl

  Helped-step :
      (ts : List ℕ) (w' : World)
      → n ≡ k + length ts
      → Helped g p k ts w₁ w'
      → Helped g p k (t ∷ ts) w w'
  unfolding helped_events is_part contains AllDone
  Helped-step ts w' count h =
      let part = is_part g (t ∷ ts) in
      let rest =
        subst (λ (ty : ℕ → TaskType). Ran part (helped_events ty g k ts) w₁ w') e.ran.types
          (Ran-widen (is_part g ts) part (helped_events w₁.type g k ts) w₁ w'
            (λ x out. ground arith) h.ran) in
      let first =
        Ran-widen (is_part g (t ∷ [])) part (trace w.type (leaf t) ++ group_end w.type g n) w w₁
          (λ x out. ground arith) e.ran in
      record {
        ran =
            subst
              (λ m.
                Ran part
                  ((trace w.type (leaf t) ++ group_end w.type g m) ++ helped_events w.type g k ts) w
                  w')
              count
              (Ran-trans part (trace w.type (leaf t) ++ group_end w.type g n)
                (helped_events w.type g k ts) w w₁ w' first rest);
        all_done = λ x i. elim (Bool-cases (t == x)) [
          | inl same ↦
              let here : t ≡ x = ground arith in
              h.ran.stays_done x (ap (λ y. (w₁.store y).done) (sym here) ∙ e.task_done)
          | inr other ↦ h.all_done x (ground arith)
        ];
        waits = h.waits;
        others = λ x o. h.others x o ∙ e.others x o;
        group_done = λ m z. elim (Bool-cases (length ts == 0)) [
          | inl none_left ↦ h.ran.stays_done g (e.group_done (ground arith))
          | inr more ↦ h.group_done (ground arith) z
        ];
        top = h.top;
        same_scheduler = h.same_scheduler ∙ e.same_scheduler;
      }

free-none : (s : Store) → free s [] ≡ []
unfolding free
free-none s = refl

free-open :
    (s : Store) (t : ℕ) (ts : List ℕ) → (s t).grabbed ≡ false → free s (t ∷ ts) ≡ t ∷ free s ts
unfolding free
free-open s t ts e = rw e refl

free-taken : (s : Store) (t : ℕ) (ts : List ℕ) → (s t).grabbed ≡ true → free s (t ∷ ts) ≡ free s ts
unfolding free
free-taken s t ts e = rw e refl

module _ (g : ℕ) (p : ParallelGroup) (unlimited : p.max_simultaneous_tasks ≡ 0) (k : ℕ) where
  Helped-none :
      (w : World) → w.node g ≡ waits_for p (k + 0) → (w.store g).parent ≡ none → Helped g p k [] w w
  unfolding helped_events AllDone contains
  Helped-none w waits top = record {
    ran = Ran-none (is_part g []) w;
    all_done = λ x i. cc i;
    waits = waits ∙ ap (waits_for p) (omega arith);
    others = λ x o. refl;
    group_done = λ m z. absurd (omega arith);
    top = top;
    same_scheduler = refl;
  }

  -- The loop over all of the tasks.
  pub help-Helped :
      (ts : List ℕ) (up down : ℕ) (w : World)
      → AllMembers w g ts
      → w.node g ≡ waits_for p (k + length (free w.store ts))
      → (w.store g).parent ≡ none
      → (w' : World) × (help (execute (suc (suc up)) (suc down)) w ts ≡ ok w')
        × Helped g p k (free w.store ts) w w'
  unfolding help AllMembers
  help-Helped [] up down w members waits top =
      let left = free-none w.store in
      (
        w,
        refl,
        subst (λ l. Helped g p k l w w) (sym left)
            (Helped-none w (waits ∙ ap (λ l. waits_for p (k + length l)) left) top),
      )
  help-Helped (t ∷ ts) up down w (node, bound, other, once, members) waits top =
      elim (Bool-cases ((w.store t).grabbed)) [
        | inl taken ↦
            let left = free-taken w.store t ts taken in
            let (w', run, h) =
              help-Helped ts up down w members (waits ∙ ap (λ l. waits_for p (k + length l)) left)
                top in
            (
              w',
              rw (taken_lem (execute (suc (suc up)) (suc down)) w t taken) run,
              subst (λ l. Helped g p k l w w') (sym left) h,
            )
        | inr open_t ↦
            let n = k + length (free w.store ts) in
            let left = free-open w.store t ts open_t in
            let waits' : w.node g ≡ waits_for p (suc n) =
              waits ∙ ap (λ l. waits_for p (k + length l)) left ∙ ap (waits_for p) (omega arith) in
            let (w₁, ran, e) =
              member_runs g p unlimited up down w t n open_t node bound other waits' top in
            let same = free-Ended g p k t n w w₁ e ts once members in
            let (w', run, h) =
              help-Helped ts up down w₁ (AllMembers-Ended g p k t n w w₁ e ts once members)
                (e.waits ∙ ap (λ l. waits_for p (k + length l)) (sym same)) e.top in
            (
              w',
              rw ran run,
              subst (λ l. Helped g p k l w w') (sym left)
                  (Helped-step g p k t n w w₁ e (free w.store ts) w' refl
                    (subst (λ l. Helped g p k l w₁ w') same h)),
            )
      ]
