-- ===== src/Partition/Simple/Bounds.antt =====
-- simple_partitioner.hpp: the sizes of the batches, and the ranges of the intermediate values.
use native.Mathlib.Nat.{div-add-mod, mul_comm, mul-le-mul_right}
use oqpi.Base.{
  ℕ, suc, ◌+◌, ◌*◌, ◌/◌, ◌%◌, ◌≤◌, ◌<◌, ◌≡◌, refl, ap, some, arith, if◌then◌else◌, ltb, lt→ltb,
}
use oqpi.Base.Int.{ℤ, pos, ◌+ℤ◌, ◌*ℤ◌, ◌≤ℤ◌, pos-+ℤ, pos-*ℤ, +ℤ_add, int_laws}
use oqpi.Partition.Range.{Range}
use oqpi.Partition.Simple.Defs.{
  int32_max, get_next_valid_range, first_index_of_batch, last_index_of_batch,
}
use oqpi.Partition.Simple.Laws.{
  at_batch, cut, cut-suc, cut-le, next-at_batch, first_index-cut, last_index-cut,
}

-- The call for batch `k` of `n` returns a range that begins where batch `k - 1` ends and has e / n
-- indices, or one more in the first e % n batches; it moves the counter on and changes nothing else.
pub batch_range :
    (first : ℤ) (e n k : ℕ)
    → k < n
    → k < int32_max
    → (r : Range) × (get_next_valid_range (at_batch first e n k)
        ≡ (some r, at_batch first e n (suc k)))
      × (r.from ≡ first_index_of_batch (at_batch first e n k) (pos k))
      × (r.to ≡ r.from +ℤ pos (e / n + (if ltb k (e % n) then 1 else 0)))
      × (first_index_of_batch (at_batch first e n k) (pos (suc k)) ≡ r.to)
batch_range first e n k h room = (
  record { from = first +ℤ pos (cut e n k); to = first +ℤ pos (cut e n (suc k)) },
  rw (next-at_batch first e n k room, lt→ltb k n h) refl,
  rw (first_index-cut first e n k k) refl,
  rw (+ℤ_add first (cut e n k), cut-suc e n k) (ap (λ t. first +ℤ pos t) (omega arith)),
  rw (first_index-cut first e n k (suc k)) refl,
)

-- No value that lastIndexOfBatch computes on the way leaves the range of the partitioner: the product
-- is at most the number of elements, and both sums lie between the first and the last index. So if
-- these fit in an int32_t, nothing overflows.
pub batch_bounds :
    (first : ℤ) (e n k : ℕ)
    → 0 < n
    → k < n
    → let p = at_batch first e n k in
      let product = (pos k +ℤ pos 1) *ℤ p.nb_elements_per_batch in
      (pos 0 ≤ℤ product)
      × (product ≤ℤ p.element_count)
      × (p.first_index ≤ℤ p.first_index +ℤ product)
      × (p.first_index +ℤ product ≤ℤ p.last_index)
      × (p.first_index ≤ℤ last_index_of_batch p (pos k))
      × (last_index_of_batch p (pos k) ≤ℤ p.last_index)
batch_bounds first e n k hn h =
    let fits : (k + 1) * (e / n) ≤ e = omega (
      arith,
      mul-le-mul_right {m = k + 1} {n = n} (e / n) (omega arith),
      div-add-mod e n,
      mul_comm n (e / n),
    ) in
    rw (last_index-cut first e n k k, pos-+ℤ k 1, pos-*ℤ (k + 1) (e / n))
      (
        omega arith,
        omega (arith, fits),
        omega int_laws,
        omega (int_laws, fits),
        omega int_laws,
        omega (int_laws, cut-le e n (suc k) hn h),
      )
