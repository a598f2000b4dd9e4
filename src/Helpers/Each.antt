-- ===== src/Helpers/Each.antt =====
-- include/oqpi/scheduling_helpers.hpp: parallel_for over a range and parallel_for_each over a
-- container, by a simple partitioner for at most as many batches as there are workers for the default
-- priority.
use oqpi.Base.{
  ℕ, suc, ◌+◌, ◌≤◌, ◌<◌, ◌≡◌, refl, sym, ap, ◌∙◌, subst, ◌⊎◌, inl, inr, true, false, Option, none,
  some, List, [], ◌∷◌, map, length, get_elem?, if◌then◌else◌, arith,
}
use oqpi.Base.Int.{ℤ, pos, negsuc, ◌+ℤ◌, ◌-ℤ◌, to_int32, to_int32-small}
use oqpi.Scheduling.Priority.{normal}
use oqpi.Scheduling.Scheduler.{Scheduler, workers_count}
use oqpi.Partition.Range.{is_valid, span, make_base}
use oqpi.Partition.Loop.{Loop, start, run, elements, turns}
use oqpi.Partition.Simple.{SimplePartitioner, make_simple, int32_max, get_next_valid_range}
use oqpi.Partition.Coverage.{simple-run}
use oqpi.Helpers.Defs.{default_priority}

-- The partitioner of `parallel_for(name, firstIndex, lastIndex, func)`, none where its constructor
-- divides by zero.
unfoldable pub range_partitioner : Scheduler → ℤ → ℤ → Option SimplePartitioner
unfolding make_simple workers_count
range_partitioner s first last = make_simple first last (workers_count s default_priority)

-- The calls of the function, by a schedule of the batch tasks: none at all for an empty range.
unfoldable pub parallel_for_range : Scheduler → ℕ → ℤ → ℤ → List ℕ → Option (Loop SimplePartitioner)
unfolding range_partitioner run get_next_valid_range
parallel_for_range s fuel first last bs = elim (range_partitioner s first last) [
  | none ↦ none
  | some p ↦ if is_valid p.base then run get_next_valid_range fuel (start p) bs else some (start p)
]

moved : (k j : ℕ) → suc k + j ≡ k + suc j
moved k j = omega arith

zero_add : (j : ℕ) → 0 + j ≡ j
zero_add j = omega arith

add_zero : (k : ℕ) → k ≡ k + 0
add_zero k = omega arith

next_index : (k : ℕ) → pos k +ℤ pos 1 ≡ pos (suc k)
unfolding ◌+ℤ◌
next_index k = ground arith

from_zero : (n : ℕ) → pos 0 +ℤ pos n ≡ pos n
unfolding ◌+ℤ◌
from_zero n = ground arith

module _ {A : Type 0} where
  -- `container[elementIndex]`, none for an index that is outside.
  unfoldable pub element : List A → ℤ → Option A
  element c (pos n) = get_elem? c n
  element c (negsuc n) = none

  -- What the user's function is called with.
  unfoldable pub each : List A → List ℤ → List (Option A)
  unfolding element
  each c is = map (element c) is

  unfoldable pub parallel_for_each :
      Scheduler → ℕ → List A → List ℕ → Option (Loop SimplePartitioner)
  unfolding parallel_for_range to_int32
  parallel_for_each s fuel c bs = parallel_for_range s fuel (pos 0) (to_int32 (length c)) bs

  each-span :
      (f : ℤ → Option A) (k : ℕ) (c : List A)
      → ((j : ℕ) → f (pos (k + j)) ≡ get_elem? c j)
      → map f (span (pos k) (length c)) ≡ map some c
  unfolding span
  each-span f k [] at = refl
  each-span f k (x ∷ c) at =
      rw (next_index k, each-span f (suc k) c (λ j. ap (λ n. f (pos n)) (moved k j) ∙ at (suc j)))
        (ap (λ (y : Option A). y ∷ map some c) (ap (λ n. f (pos n)) (add_zero k) ∙ at 0))

made_base :
    (first last max : ℤ) (p : SimplePartitioner)
    → make_simple first last max ≡ some p
    → make_base first last max ≡ p.base
unfolding make_simple
made_base first last max p e = ground arith

made_valid : (n m : ℕ) → 0 < n → is_valid (make_base (pos 0) (pos n) (pos m)) ≡ true
unfolding ◌-ℤ◌
made_valid n m h = ground arith

runs_valid :
    (s : Scheduler) (fuel : ℕ) (first last : ℤ) (bs : List ℕ) (p : SimplePartitioner)
    → range_partitioner s first last ≡ some p
    → is_valid p.base ≡ true
    → parallel_for_range s fuel first last bs ≡ run get_next_valid_range fuel (start p) bs
unfolding parallel_for_range
runs_valid s fuel first last bs p made valid = rw (made, parallel_for_range, valid) refl

made_range :
    (s : Scheduler) (n m : ℕ) (p : SimplePartitioner)
    → workers_count s normal ≡ pos m
    → make_simple (pos 0) (pos 0 +ℤ pos n) (pos m) ≡ some p
    → range_partitioner s (pos 0) (pos n) ≡ some p
unfolding range_partitioner
made_range s n m p workers made =
    rw workers (subst (λ z. make_simple (pos 0) z (pos m) ≡ some p) (from_zero n) made)

range_valid :
    (s : Scheduler) (n m : ℕ) (p : SimplePartitioner)
    → 0 < n
    → workers_count s normal ≡ pos m
    → range_partitioner s (pos 0) (pos n) ≡ some p
    → is_valid p.base ≡ true
unfolding range_partitioner
range_valid s n m p some_element workers made =
    ap is_valid (sym (made_base (pos 0) (pos n) (pos m) p (rw workers at made)))
    ∙ made_valid n m some_element

-- Over a container that is not empty and whose size int32_t holds, where workersCount of the default
-- priority is positive: the partitioner is made, any schedule of at most 2 ^ 31 - 1 turns of the batch tasks runs to its end,
-- a task that has had more turns than there are elements has left its loop, and once some task has,
-- the function was called with each element of the container once, in their order, and with nothing
-- outside of it.
pub parallel_for_each-elements :
    {A : Type 0} (s : Scheduler) (fuel m : ℕ) (c : List A) (bs : List ℕ)
    → 0 < length c
    → length c ≤ int32_max
    → workers_count s normal ≡ pos m
    → 0 < m
    → length c < fuel
    → length bs ≤ int32_max
    → (l : Loop SimplePartitioner) × (parallel_for_each s fuel c bs ≡ some l)
      × ((b : ℕ) → (l.running b ≡ true) ⊎ (each c (elements l.calls) ≡ map some c))
      × ((b : ℕ) → (turns b bs ≤ length c) ⊎ (l.running b ≡ false))
unfolding parallel_for_each each element
parallel_for_each-elements s fuel m c bs some_element small workers some_worker enough short =
    let (p, made, l, ran, all, ends) =
      simple-run (pos 0) (length c) m fuel bs some_element some_worker enough short in
    let made' = made_range s (length c) m p workers made in
    let valid = range_valid s (length c) m p some_element workers made' in
    (
      l,
      rw (to_int32-small (length c) small)
          (runs_valid s fuel (pos 0) (pos (length c)) bs p made' valid ∙ ran),
      λ b. elim (all b) [
        | inl on ↦ inl on
        | inr called ↦ inr (
            ap (map (element c)) called
            ∙ each-span (element c) 0 c (λ j. ap (get_elem? c) (zero_add j)))
      ],
      ends,
    )
