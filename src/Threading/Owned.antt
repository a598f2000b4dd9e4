-- ===== src/Threading/Owned.antt =====
-- Objects that own a thread each: of those that hold a handle, each holds that of a thread that can
-- be joined, and no two hold the same.
use oqpi.Base.{ℕ, ◌≡◌, ◌≢◌, ◌∙◌, Bool, true, false, not, ◌&&◌, ◌||◌, arith, ◌==◌, update}

-- `live` are the handles of threads that are neither joined nor detached; 0 is no handle.
unfoldable pub IsOwned : (ℕ → Bool) → (ℕ → ℕ) → Type 0
IsOwned live handle =
    ((i : ℕ) → handle i ≢ 0 → live (handle i) ≡ true)
    × ((i j : ℕ) → handle i ≢ 0 → handle i ≡ handle j → i ≡ j)

module _ (live : ℕ → Bool) (handle : ℕ → ℕ) (owned : IsOwned live handle) where
  -- The threads are the same.
  pub same-IsOwned : (live' : ℕ → Bool) → ((x : ℕ) → live' x ≡ live x) → IsOwned live' handle
  unfolding IsOwned
  same-IsOwned live' same = (λ i h. same (handle i) ∙ owned.0 i h, owned.1)

  -- An object has kept its thread.
  pub kept-IsOwned : (i : ℕ) → IsOwned live (update handle i (handle i))
  unfolding IsOwned
  kept-IsOwned i = (
    λ x h. ground (arith, owned.0 x, owned.0 i),
    λ x y h e. ground (arith, owned.1 x y, owned.1 i y, owned.1 x i),
  )

  -- An object has given up its thread.
  pub dropped-IsOwned : (i : ℕ) → IsOwned live (update handle i 0)
  unfolding IsOwned
  dropped-IsOwned i = (λ x h. ground (arith, owned.0 x), λ x y h e. ground (arith, owned.1 x y))

  -- An object has given up its thread, which is over.
  pub released-IsOwned :
      (i : ℕ) (live' : ℕ → Bool)
      → ((x : ℕ) → live' x ≡ (live x && not (handle i == x)))
      → IsOwned live' (update handle i 0)
  unfolding IsOwned
  released-IsOwned i live' over = (
    λ x h. ground (arith, owned.0 x, owned.1 i x, over (handle x)),
    λ x y h e. ground (arith, owned.1 x y),
  )

  -- An object without a thread has one that was made.
  pub acquired-IsOwned :
      (i h : ℕ) (live' : ℕ → Bool)
      → live h ≡ false
      → ((x : ℕ) → live' x ≡ (h == x || live x))
      → IsOwned live' (update handle i h)
  unfolding IsOwned
  acquired-IsOwned i h live' fresh made = (
    λ x k. ground (arith, owned.0 x, made (handle x), made h),
    λ x y k e. ground (arith, owned.1 x y, fresh, owned.0 x, owned.0 y),
  )

  -- An object has taken the thread of another.
  pub moved-IsOwned :
      (i j : ℕ) → (i == j) ≡ false → IsOwned live (update (update handle i (handle j)) j 0)
  unfolding IsOwned
  moved-IsOwned i j apart = (
    λ x h. ground (arith, owned.0 x, owned.0 j),
    λ x y h e. ground (arith, owned.1 x y, owned.1 j y, owned.1 j x),
  )
