-- ===== src/Scheduling/Scheduler/Wakeup.antt =====
-- scheduler.hpp: no wake-up is lost.
use oqpi.Base.{
  ℕ_discrete, ℕ, suc, ◌<◌, ◌≡◌, refl, sym, ap, ◌∙◌, ◌⊎◌, inl, inr, Bool, true, false, List, [], ◌∷◌,
  update, Bool-cases, ◌==◌, arith,
}
use oqpi.Scheduling.Task.{Store, is_open, try_grab, open-try_grab}
use oqpi.Scheduling.Scheduler.Pump.{AllClosed}
use oqpi.Scheduling.Scheduler.Sleep.{
  draining, waiting, Sleeper, prio_count, Step, take_token, no_token, check, leave, skip_level,
  empty_level, drop, find, give_up, wake_up, ask_again, pushed, stopped, notified, popped, closed,
  Steps, start_there, and_then, scanned, is_past_check, IsQuiet, IsAlive,
}

not_both : (b : Bool) → b ≡ false → b ≡ true → ⊥
not_both b f t = grind arith

AllClosed-mono :
    (free free' : ℕ → Bool) (q : List ℕ)
    → ((t : ℕ) → free' t ≡ true → free t ≡ true)
    → AllClosed free q
    → AllClosed free' q
AllClosed-mono free free' [] fewer h = tt
AllClosed-mono free free' (t ∷ q) fewer (shut, h) = (
  elim (Bool-cases (free' t)) [
    | inl t_open ↦ absurd (not_both (free t) shut (fewer t t_open))
    | inr t_shut ↦ t_shut
  ],
  AllClosed-mono free free' q fewer h,
)

AllClosed-tail :
    (free : ℕ → Bool) (t : ℕ) (q whole : List ℕ)
    → whole ≡ t ∷ q
    → AllClosed free whole
    → AllClosed free q
AllClosed-tail free t q whole e h = (rw e at h).1

AllClosed-update :
    (free : ℕ → Bool) (queue : ℕ → List ℕ) (i j t : ℕ) (q : List ℕ)
    → queue i ≡ t ∷ q
    → AllClosed free (queue j)
    → AllClosed free (update queue i q j)
AllClosed-update free queue i j t q e h = elim (Bool-cases (i == j)) [
  | inl same ↦
      let here : i ≡ j = ground arith in
      rw same (AllClosed-tail free t q (queue j) (ap queue (sym here) ∙ e) h)
  | inr other ↦ rw other h
]

grab_mono : (s : Store) (t x : ℕ) → is_open (try_grab s t).1 x ≡ true → is_open s x ≡ true
grab_mono s t x e = let both = open-try_grab s t x in ground arith

below_suc : (i j : ℕ) → i < suc j → (i ≡ j) ⊎ (i < j)
below_suc i j below = elim (ℕ_discrete i j) [ yes e ↦ inl e | no apart ↦ inr (omega arith) ]

false≢true : false ≡ true → ⊥
false≢true e = not_both true (sym e) refl

suc_not_zero : (n : ℕ) → suc n ≡ 0 → ⊥
suc_not_zero n e = omega arith

module _ (can : ℕ → Bool) where
  other_level : (j i : ℕ) → can j ≡ false → can i ≡ true → (j == i) ≡ false
  other_level j i cannot may = elim (Bool-cases (j == i)) [
    | inl same ↦ let e : j ≡ i = ground arith in absurd (not_both (can j) cannot (ap can e ∙ may))
    | inr other ↦ other
  ]

  Step-IsQuiet : (s s' : Sleeper) → Step can s s' → IsQuiet can s → IsQuiet can s'
  unfolding IsQuiet scanned
  Step-IsQuiet s _ (take_token n pc tokens) h z w i c below =
      let start = ap scanned pc in absurd (omega arith)
  Step-IsQuiet s _ (no_token pc tokens) h z w i c below = absurd (omega arith)
  Step-IsQuiet s _ (check pc runs) h z w i c below = absurd (omega arith)
  Step-IsQuiet s _ (leave pc stops) h z w i c below = absurd (omega arith)
  Step-IsQuiet s _ (skip_level j pc cannot) h z w i c below = elim (below_suc i j below) [
    | inl last ↦ absurd (not_both (can j) cannot (ap can (sym last) ∙ c))
    | inr before ↦ let at = ap scanned pc in h z w i c (omega arith)
  ]
  Step-IsQuiet s _ (empty_level j pc empty) h z w i c below = elim (below_suc i j below) [
    | inl last ↦ rw (ap s.queue last ∙ empty) tt
    | inr before ↦ let at = ap scanned pc in h z w i c (omega arith)
  ]
  Step-IsQuiet s _ (drop j t q pc front shut) h z w i c below =
      AllClosed-mono (is_open s.store) (is_open (try_grab s.store t).1) (update s.queue j q i)
        (grab_mono s.store t)
        (AllClosed-update (is_open s.store) s.queue j i t q front (h z w i c below))
  Step-IsQuiet s _ (find j t q pc front free) h z w i c below = absurd (omega arith)
  Step-IsQuiet s _ (give_up pc) h z w i c below = let at = ap scanned pc in h z w i c (omega arith)
  Step-IsQuiet s _ (wake_up n pc tokens) h z w i c below = absurd (omega arith)
  Step-IsQuiet s _ (ask_again t pc) h z w i c below = absurd (omega arith)
  Step-IsQuiet s _ (pushed j t) h z w i c below = elim (Bool-cases (can j)) [
    | inl may ↦ absurd (suc_not_zero s.wakes (rw may at w))
    | inr may_not ↦ rw (other_level j i may_not c) (h z (rw may_not at w) i c below)
  ]
  Step-IsQuiet s _ stopped h z w i c below = absurd (omega arith)
  Step-IsQuiet s _ (notified n wakes) h z w i c below = absurd (omega arith)
  Step-IsQuiet s _ (popped j t q front) h z w i c below =
      AllClosed-update (is_open s.store) s.queue j i t q front (h z w i c below)
  Step-IsQuiet s _ (closed store fewer) h z w i c below =
      AllClosed-mono (is_open s.store) (is_open store) (s.queue i) fewer (h z w i c below)

  Step-IsAlive : (s s' : Sleeper) → Step can s s' → IsAlive s → IsAlive s'
  unfolding IsAlive is_past_check
  Step-IsAlive s _ (take_token n pc tokens) h z w past =
      absurd (not_both (is_past_check s.pc) (ap is_past_check pc) past)
  Step-IsAlive s _ (no_token pc tokens) h z w past = absurd (false≢true past)
  Step-IsAlive s _ (check pc runs) h z w past = runs
  Step-IsAlive s _ (leave pc stops) h z w past = absurd (false≢true past)
  Step-IsAlive s _ (skip_level j pc cannot) h z w past = h z w (ap is_past_check pc)
  Step-IsAlive s _ (empty_level j pc empty) h z w past = h z w (ap is_past_check pc)
  Step-IsAlive s _ (drop j t q pc front shut) h z w past = h z w past
  Step-IsAlive s _ (find j t q pc front free) h z w past = absurd (false≢true past)
  Step-IsAlive s _ (give_up pc) h z w past = h z w (ap is_past_check pc)
  Step-IsAlive s _ (wake_up n pc tokens) h z w past = absurd (false≢true past)
  Step-IsAlive s _ (ask_again t pc) h z w past = absurd (false≢true past)
  Step-IsAlive s _ (pushed j t) h z w past = elim (Bool-cases (can j)) [
    | inl may ↦ absurd (suc_not_zero s.wakes (rw may at w))
    | inr may_not ↦ h z (rw may_not at w) past
  ]
  Step-IsAlive s _ stopped h z w past = absurd (omega arith)
  Step-IsAlive s _ (notified n wakes) h z w past = absurd (omega arith)
  Step-IsAlive s _ (popped j t q front) h z w past = h z w past
  Step-IsAlive s _ (closed store fewer) h z w past = h z w past

  start-IsQuiet : (s : Sleeper) → s.pc ≡ draining → IsQuiet can s
  unfolding IsQuiet scanned
  start-IsQuiet s pc z w i c below = let start = ap scanned pc in absurd (omega arith)

  start-IsAlive : (s : Sleeper) → s.pc ≡ draining → IsAlive s
  unfolding IsAlive is_past_check
  start-IsAlive s pc z w past = absurd (not_both (is_past_check s.pc) (ap is_past_check pc) past)

  Steps-IsQuiet : (s s' : Sleeper) → s.pc ≡ draining → Steps can s s' → IsQuiet can s'
  Steps-IsQuiet s _ pc start_there = start-IsQuiet s pc
  Steps-IsQuiet s s'' pc (and_then {s'} steps step) =
      Step-IsQuiet s' s'' step (Steps-IsQuiet s s' pc steps)

  Steps-IsAlive : (s s' : Sleeper) → s.pc ≡ draining → Steps can s s' → IsAlive s'
  Steps-IsAlive s _ pc start_there = start-IsAlive s pc
  Steps-IsAlive s s'' pc (and_then {s'} steps step) =
      Step-IsAlive s' s'' step (Steps-IsAlive s s' pc steps)

-- No wake-up is lost, in any interleaving of a worker with threads that add tasks, take or finish
-- them or stop the scheduler: whenever the worker waits, with no token and no notification still
-- to come, the scheduler runs, and every task in the queues that the worker may work on has been
-- grabbed or is done.
pub waiting-AllClosed :
    (can : ℕ → Bool) (s s' : Sleeper) (i : ℕ)
    → s.pc ≡ draining
    → Steps can s s'
    → s'.pc ≡ waiting
    → s'.tokens ≡ 0
    → s'.wakes ≡ 0
    → can i ≡ true
    → i < prio_count
    → (s'.running ≡ true) × AllClosed (is_open s'.store) (s'.queue i)
unfolding IsQuiet IsAlive scanned is_past_check
waiting-AllClosed can s s' i pc steps waits z w may below =
    let at = ap scanned waits in
    (
      Steps-IsAlive can s s' pc steps z w (ap is_past_check waits),
      Steps-IsQuiet can s s' pc steps z w i may (omega arith),
    )
