-- ===== src/Partition/Source.antt =====
-- What parallel_for.hpp relies on in a partitioner: `getNextValidRange` hands out one range of
-- indices after the other, without a gap, until all are handed out.
use oqpi.Base.{ℕ, suc, ◌+◌, ◌≤◌, ◌<◌, ◌≡◌, ◌⊎◌, Option, none, some}
use oqpi.Base.Int.{ℤ, pos, ◌+ℤ◌}
use oqpi.Partition.Range.{Range}

-- The range of the indices number `a` up to `b`, counted from `first`.
abbrev pub range_of : ℤ → ℕ → ℕ → Range
range_of first a b = record { from = first +ℤ pos a; to = first +ℤ pos b }

-- What one call may do: hand out a range that is not empty, from the position on, or nothing, once
-- all is handed out.
abbrev pub Hands {ℓ} : {S : Type ℓ} → (S → Option Range × S) → ℤ → ℕ → (S → ℕ) → S → Type 0
Hands next first total position s =
    (position s ≡ total) × ((next s).0 ≡ none) × (position (next s).1 ≡ total)
    ⊎ ((w : ℕ) × (0 < w)
        × (position s + w ≤ total)
        × ((next s).0 ≡ some (range_of first (position s) (position s + w)))
        × (position (next s).1 ≡ position s + w))

-- `IsReady n s`: the laws cover the next `n` calls from `s`.
pub record Source : Type 1 where
  pub State : Type 0
  pub next : State → Option Range × State
  pub first : ℤ
  pub total : ℕ
  pub position : State → ℕ
  pub IsReady : ℕ → State → Type 0
  pub hands_out : (n : ℕ) (s : State) → IsReady (suc n) s → Hands next first total position s
  pub stays_ready : (n : ℕ) (s : State) → IsReady (suc n) s → IsReady n (next s).1
  pub fewer : (n : ℕ) (s : State) → IsReady (suc n) s → IsReady n s
