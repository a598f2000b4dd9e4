-- ===== src/Partition/Range.antt =====
-- base_partitioner.hpp, and the index loop of the tasks of parallel_for.hpp.
use Prim.Native.Nat.add
use oqpi.Base.{
  ℕ, zero, suc, ◌+◌, ◌<◌, ◌≡◌, Bool, Option, none, some, List, [], ◌∷◌, ◌++◌, arith, if◌then◌else◌,
}
use oqpi.Base.Int.{ℤ, pos, ◌+ℤ◌, ◌-ℤ◌, ltb_ℤ, eqb_ℤ, +ℤ-zero, +ℤ-suc, +ℤ_parts}

-- The two reference parameters that a successful call sets: [from; to[.
pub record Range : Type 0 where
  pub from : ℤ
  pub to : ℤ

pub record BasePartitioner : Type 0 where
  pub first_index : ℤ
  pub last_index : ℤ
  pub element_count : ℤ
  pub batch_count : ℤ

abbrev pub make_base : ℤ → ℤ → ℤ → BasePartitioner
make_base first last max_batches =
    let count = last -ℤ first in
    record {
      first_index = first;
      last_index = last;
      element_count = count;
      batch_count = if ltb_ℤ count max_batches then count else max_batches;
    }

abbrev pub is_valid : BasePartitioner → Bool
is_valid p = ltb_ℤ (pos 0) p.element_count

-- `for (elementIndex = first; elementIndex != last; ++elementIndex)`: the indices in the order of
-- the calls. `none` means that the fuel ran out before the indices met.
unfoldable pub element_loop : ℕ → ℤ → ℤ → Option (List ℤ)
element_loop zero i last = none
element_loop (suc fuel) i last =
    let rest = element_loop fuel (i +ℤ pos 1) last in
    if eqb_ℤ i last then some [] else elim rest [ none ↦ none | some is ↦ some (i ∷ is) ]

-- The indices first, first + 1, …, first + n - 1.
unfoldable pub span : ℤ → ℕ → List ℤ
span first zero = []
span first (suc n) = first ∷ span (first +ℤ pos 1) n

pub element_loop-span :
    (fuel n : ℕ) (i : ℤ) → n < fuel → element_loop fuel i (i +ℤ pos n) ≡ some (span i n)
unfolding element_loop span
element_loop-span zero n i h = absurd (omega arith)
element_loop-span (suc fuel) zero i h = ground (arith, +ℤ-zero i)
element_loop-span (suc fuel) (suc n) i h =
    rw (← +ℤ-suc i n)
      (ground (arith, element_loop-span fuel n (i +ℤ pos 1), +ℤ-suc i n, +ℤ_parts i (pos (suc n))))

pub span-append :
    (first : ℤ) (m n : ℕ) → span first m ++ span (first +ℤ pos m) n ≡ span first (m + n)
unfolding span
span-append first zero n = rw (+ℤ-zero first, add.zero n)
span-append first (suc m) n = rw (← +ℤ-suc first m, add.suc m n, span-append (first +ℤ pos 1) m n)
