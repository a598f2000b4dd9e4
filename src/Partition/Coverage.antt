-- ===== src/Partition/Coverage.antt =====
-- parallel_for.hpp over each of the two partitioners: which indices the function is called with.
use mathlib.Core.Bool.{true, false≢true}
use mathlib.Core.Logic.{◌⊎◌, inl, inr}
use oqpi.Base.{
  ℕ, zero, subst, suc, ◌≤◌, ◌<◌, ◌≡◌, refl, sym, ◌∙◌, ap, ◌≢◌, some, false, List, arith, length,
}
use oqpi.Base.Int.{ℤ, pos, negsuc, ◌+ℤ◌, ◌-ℤ◌, +ℤ-zero, +ℤ_cancel_left}
use oqpi.Partition.Range.{span}
use oqpi.Partition.Loop.{Loop, start, run, elements, turns, run-calls}
use oqpi.Partition.Simple.{
  SimplePartitioner, make_simple, int32_max, least, cut, cut-zero, at_batch, make_simple-at_batch,
  simple_source,
}
use oqpi.Partition.Simple
use oqpi.Partition.Atomic.{make_atomic, atomic_total, after, atomic_source}
use oqpi.Partition.Atomic

least-le : (e m : ℕ) → least e m ≤ e
least-le e m = ground arith

least-pos : (e m : ℕ) → 0 < e → 0 < m → 0 < least e m
least-pos e m he hm = ground arith

-- Over a simple partitioner of `e` indices from `first`, for at most `m` batches, with both positive:
-- the constructor does not fault, any schedule of at most 2 ^ 31 - 1 turns runs to its end, a task
-- that has had more than `e` turns has left its loop, and once some task has, the indices that the
-- function was called with are first, …, first + e - 1, each once and in this order.
pub simple-run :
    (first : ℤ) (e m fuel : ℕ) (bs : List ℕ)
    → 0 < e
    → 0 < m
    → e < fuel
    → length bs ≤ int32_max
    → (p : SimplePartitioner) × (make_simple first (first +ℤ pos e) (pos m) ≡ some p)
      × (l : Loop SimplePartitioner) × (run Simple.get_next_valid_range fuel (start p) bs ≡ some l)
      × ((b : ℕ) → (l.running b ≡ true) ⊎ (elements l.calls ≡ span first e))
      × ((b : ℕ) → (turns b bs ≤ e) ⊎ (l.running b ≡ false))
unfolding simple_source
simple-run first e m fuel bs he hm enough short =
    let n = least e m in
    let (l, ran, _, all, ends) =
      run-calls (simple_source first e n (least-pos e m he hm) (least-le e m)) fuel
        (at_batch first e n 0) bs enough (ground (arith, cut-zero e n)) (0, refl, omega arith) in
    (at_batch first e n 0, make_simple-at_batch first e m he hm, l, ran, all, ends)

pub atomic-run :
    (first m : ℤ) (e g fuel : ℕ) (bs : List ℕ)
    → 0 < e
    → 0 < g
    → atomic_total first e < fuel
    → (l : Loop Atomic.AtomicPartitioner) × (run Atomic.get_next_valid_range fuel
          (start (make_atomic first (first +ℤ pos e) (pos g) m))
          bs
        ≡ some l)
      × ((b : ℕ) → (l.running b ≡ true) ⊎ (elements l.calls ≡ span first (atomic_total first e)))
      × ((b : ℕ) → (turns b bs ≤ atomic_total first e) ⊎ (l.running b ≡ false))
unfolding atomic_source make_atomic
atomic-run first m e g fuel bs he hg enough =
    let (l, ran, _, all, ends) =
      run-calls (atomic_source first e g m hg) fuel (after first e g m 0) bs enough
        (rw (+ℤ_cancel_left first 0) refl) (0, refl, omega arith) in
    (l, rw (+ℤ-zero first) at ran, all, ends)

length-span : (first : ℤ) (n : ℕ) → length (span first n) ≡ n
unfolding span
length-span first zero = refl
length-span first (suc n) = ap suc (length-span (first +ℤ pos 1) n)

atomic_total-ne : (first : ℤ) (e : ℕ) → 0 < e → first ≢ pos 0 → atomic_total first e ≢ e
unfolding ◌-ℤ◌
atomic_total-ne (pos zero) e he other = absurd (other refl)
atomic_total-ne (pos (suc n)) e he other = ground arith
atomic_total-ne (negsuc n) e he other = ground arith

-- A parallel_for over an atomic partitioner whose first index is not zero never calls the function
-- with just the indices of its range, however many turns its tasks have: not when some task has left
-- its loop.
pub atomic-run_misses :
    (first m : ℤ) (e g fuel b : ℕ) (bs : List ℕ) (l : Loop Atomic.AtomicPartitioner)
    → 0 < e
    → 0 < g
    → atomic_total first e < fuel
    → first ≢ pos 0
    → run Atomic.get_next_valid_range fuel (start (make_atomic first (first +ℤ pos e) (pos g) m)) bs
      ≡ some l
    → l.running b ≡ false
    → elements l.calls ≢ span first e
atomic-run_misses first m e g fuel b bs l he hg enough other ran left claimed =
    let (l', ran', all, _) = atomic-run first m e g fuel bs he hg enough in
    let same : l' ≡ l = cc (sym ran' ∙ ran) in
    let called : elements l.calls ≡ span first (atomic_total first e) =
      subst (λ k. elements k.calls ≡ span first (atomic_total first e)) same
        (elim (all b) [ inl on ↦ absurd (false≢true (sym (rw same left) ∙ on)) | inr e ↦ e ]) in
    atomic_total-ne first e he other (
      sym (length-span first (atomic_total first e))
      ∙ ap length (sym called ∙ claimed)
      ∙ length-span first e)
