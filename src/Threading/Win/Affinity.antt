-- ===== src/Threading/Win/Affinity.antt =====
-- The cores of a thread on Windows, which can only be read by setting others.
use oqpi.Base.{
  ℕ, zero, suc, ◌+◌, ◌-◌, ◌*◌, ◌%◌, ◌^◌, ◌≤◌, ◌<◌, ◌≡◌, ◌≢◌, refl, sym, ap, ◌∙◌, subst, Bool, true,
  false, arith, Bool-cases, inl, inr, ◌==◌,
}
use oqpi.Threading.Win.Defs.{WinThreadApi, affinity_loop, get_win_affinity}

pow_pos : (k : ℕ) → 0 < 2 ^ k
pow_pos zero = omega arith
pow_pos (suc k) = let h = pow_pos k in omega arith

pow_le : (d k m : ℕ) → d + k ≡ m → 2 ^ k ≤ 2 ^ m
pow_le zero k m e = subst (λ n. 2 ^ k ≤ 2 ^ n) e' (omega arith)
  where
    e' : k ≡ m
    e' = omega arith
pow_le (suc d) k zero e = absurd (omega arith)
pow_le (suc d) k (suc m) e = let h = pow_le d k m (omega arith) in omega arith

-- The next mask, while 64 bits hold it.
next_mask : (k : ℕ) → suc k < 64 → 2 ^ k * 2 % 2 ^ 64 ≡ 2 ^ suc k
next_mask k small =
    let h : 2 ^ suc k ≤ 2 ^ 63 = pow_le (62 - k) (suc k) 63 (omega arith) in grind arith

-- What the documentation says: `affinity os h` is the mask of the thread with the handle, and
-- `accepted` are the masks within that of the process. A mask that is not accepted is an invalid
-- parameter.
pub record WinThreadLaws (api : WinThreadApi) : Type 0 where
  pub affinity : api.Os → ℕ → ℕ
  pub accepted : ℕ → Bool
  pub held-accepted : (os : api.Os) (h : ℕ) → affinity os h ≢ 0 → accepted (affinity os h) ≡ true
  pub set-accepted :
      (os : api.Os) (h mask : ℕ)
      → affinity os h ≢ 0
      → accepted mask ≡ true
      → ((api.set_affinity os h mask).1 ≡ affinity os h)
        × (affinity (api.set_affinity os h mask).0 h ≡ mask)
  pub set-refused :
      (os : api.Os) (h mask : ℕ)
      → affinity os h ≢ 0
      → accepted mask ≡ false
      → ((api.set_affinity os h mask).1 ≡ 0)
        × ((api.set_affinity os h mask).2 ≡ true)
        × (affinity (api.set_affinity os h mask).0 h ≡ affinity os h)

same_core : (k : ℕ) → k ≡ 0 + k
same_core k = omega arith

shifted : (d k : ℕ) → d + suc k ≡ suc d + k
shifted d k = omega arith

add_zero : (n : ℕ) → n + 0 ≡ n
add_zero n = omega arith

module _ (api : WinThreadApi) (laws : WinThreadLaws api) (h : ℕ) where
  turn_reads :
      (turns : ℕ) (os : api.Os) (mask a : ℕ)
      → (mask == 0) ≡ false
      → (a == 0) ≡ false
      → (api.set_affinity os h mask).1 ≡ a
      → affinity_loop api (suc turns) os h mask
        ≡ ((api.set_affinity (api.set_affinity os h mask).0 h a).0, a)
  unfolding affinity_loop
  turn_reads turns os mask a some_core held previous =
      rw (some_core, previous, held, affinity_loop) refl

  turn_refused :
      (turns : ℕ) (os : api.Os) (mask : ℕ)
      → (mask == 0) ≡ false
      → (api.set_affinity os h mask).1 ≡ 0
      → (api.set_affinity os h mask).2 ≡ true
      → affinity_loop api (suc turns) os h mask
        ≡ affinity_loop api turns (api.set_affinity os h mask).0 h (mask * 2 % 2 ^ 64)
  unfolding affinity_loop
  turn_refused turns os mask some_core previous invalid =
      rw (some_core, previous, invalid, affinity_loop) refl

  -- The mask is the thread's, and the thread has it still.
  RestoresTo : api.Os × ℕ → ℕ → Type 0
  RestoresTo r a = (r.1 ≡ a) × (laws.affinity r.0 h ≡ a)

  accepted-RestoresTo :
      (turns : ℕ) (os : api.Os) (mask a : ℕ)
      → laws.affinity os h ≡ a
      → a ≢ 0
      → 0 < mask
      → laws.accepted mask ≡ true
      → RestoresTo (affinity_loop api (suc turns) os h mask) a
  unfolding RestoresTo
  accepted-RestoresTo turns os mask a is_a held some_core core =
      let still : laws.affinity os h ≢ 0 = λ e. held (sym is_a ∙ e) in
      let set = laws.set-accepted os h mask still core in
      let accepted_a : laws.accepted a ≡ true =
        ap laws.accepted (sym is_a) ∙ laws.held-accepted os h still in
      let set_back =
        laws.set-accepted (api.set_affinity os h mask).0 h a (λ e. ground (arith, sym set.1 ∙ e))
          accepted_a in
      rw (turn_reads turns os mask a (ground arith) (ground arith) (set.0 ∙ is_a))
        (refl, set_back.1)

  -- From the mask of one core on, with `d` cores to try before one that is accepted.
  affinity_loop-RestoresTo :
      (d k turns : ℕ) (os : api.Os) (a : ℕ)
      → laws.affinity os h ≡ a
      → a ≢ 0
      → d + k < 64
      → d < turns
      → laws.accepted (2 ^ (d + k)) ≡ true
      → RestoresTo (affinity_loop api turns os h (2 ^ k)) a
  affinity_loop-RestoresTo d k zero os a is_a held inside enough core = absurd (omega arith)
  affinity_loop-RestoresTo zero k (suc turns) os a is_a held inside enough core =
      accepted-RestoresTo turns os (2 ^ k) a is_a held (pow_pos k)
        (ap (λ n. laws.accepted (2 ^ n)) (same_core k) ∙ core)
  affinity_loop-RestoresTo (suc d) k (suc turns) os a is_a held inside enough core =
      elim (Bool-cases (laws.accepted (2 ^ k))) [
        | inl now ↦ accepted-RestoresTo turns os (2 ^ k) a is_a held (pow_pos k) now
        | inr later ↦
            let some_core = pow_pos k in
            let (none_before, invalid, kept) =
              laws.set-refused os h (2 ^ k) (λ e. held (sym is_a ∙ e)) later in
            rw
              (
                turn_refused turns os (2 ^ k) (ground arith) none_before invalid,
                next_mask k (omega arith),
              )
              (affinity_loop-RestoresTo d (suc k) turns (api.set_affinity os h (2 ^ k)).0 a
                (kept ∙ is_a) held (omega arith) (omega arith)
                (ap (λ n. laws.accepted (2 ^ n)) (shifted d k) ∙ core))
      ]

-- Where the documented behaviour of SetThreadAffinityMask holds, for the handle of a thread that has
-- a core, in a process that may run on some core below 64: `getCoreAffinityMask` ends and returns the
-- mask of the thread, cut to 32 bits, and afterwards the thread has its mask again.
pub get_win_affinity-affinity :
    (api : WinThreadApi) (laws : WinThreadLaws api) (os : api.Os) (handle core : ℕ)
    → laws.affinity os handle ≢ 0
    → core < 64
    → laws.accepted (2 ^ core) ≡ true
    → ((get_win_affinity api os handle).1 ≡ laws.affinity os handle % 2 ^ 32)
      × (laws.affinity (get_win_affinity api os handle).0 handle ≡ laws.affinity os handle)
unfolding get_win_affinity RestoresTo
get_win_affinity-affinity api laws os handle core held small runs =
    let (mask, after) =
      affinity_loop-RestoresTo api laws handle core 0 65 os (laws.affinity os handle) refl held
        (omega arith) (omega arith) (ap (λ n. laws.accepted (2 ^ n)) (add_zero core) ∙ runs) in
    (ap (λ m. m % 2 ^ 32) mask, after)
