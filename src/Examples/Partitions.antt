-- ===== src/Examples/Partitions.antt =====
-- parallel_algorithms: small partitioners, and what their theorems say of them.
use oqpi.Base.{
  ℕ, ◌+◌, ◌/◌, ◌%◌, ◌≤◌, ◌≡◌, refl, ◌≢◌, ◌⊎◌, true, false, some, List, [], ◌∷◌, map, arith,
  if◌then◌else◌, ltb, length, update,
}
use oqpi.Base.Int.{pos, negsuc, ◌+ℤ◌, ◌-ℤ◌, ◌*ℤ◌, ◌≤ℤ◌}
use oqpi.Partition.Range.{Range, span}
use oqpi.Partition.Loop.{Loop, start, turn, run, elements, turns}
use oqpi.Partition.Simple
use oqpi.Partition.Simple.{
  SimplePartitioner, make_simple, at_batch, first_index_of_batch, last_index_of_batch,
}
use oqpi.Partition.Simple.Bounds.{batch_range, batch_bounds}
use oqpi.Partition.Atomic
use oqpi.Partition.Atomic.{AtomicPartitioner, make_atomic, grab_count, atomic_total}
use oqpi.Partition.Atomic.Threads
use oqpi.Partition.Atomic.Threads.{
  Threads, Reach, here, next, load, win, give_up, calls, granted-calls, exited, ranges,
}
use oqpi.Partition.Atomic.Tiling.{indices, indices-granted}
use oqpi.Partition.Coverage.{simple-run, atomic-run_misses}

abbrev four_turns : List ℕ
four_turns = 0 ∷ 1 ∷ 0 ∷ 1 ∷ []

simple-run_example :
    (p : SimplePartitioner) × (make_simple (negsuc 2) (negsuc 2 +ℤ pos 5) (pos 2) ≡ some p)
    × (l : Loop SimplePartitioner) × (run Simple.get_next_valid_range 6 (start p) four_turns
        ≡ some l)
    × ((b : ℕ) → (l.running b ≡ true) ⊎ (elements l.calls ≡ span (negsuc 2) 5))
    × ((b : ℕ) → (turns b four_turns ≤ 5) ⊎ (l.running b ≡ false))
simple-run_example =
    simple-run (negsuc 2) 5 2 6 four_turns (omega arith) (omega arith) (omega arith) (omega arith)

-- Of the indices 5 up to 10 the only task gets none, and leaves its loop.
abbrev nothing_left : Loop AtomicPartitioner
nothing_left = record (start (make_atomic (pos 5) (pos 5 +ℤ pos 5) (pos 2) (pos 4))) {
  running = update (λ b. true) 0 false;
}

atomic-run_misses_example : elements nothing_left.calls ≢ span (pos 5) 5
unfolding run turn make_atomic Atomic.get_next_valid_range grab_count ◌+ℤ◌ ◌-ℤ◌
atomic-run_misses_example =
    atomic-run_misses (pos 5) (pos 4) 5 2 9 0 (0 ∷ []) nothing_left (omega arith) (omega arith)
      (omega arith) (λ e. cc) refl refl

batch_range_example :
    (r : Range) × (Simple.get_next_valid_range (at_batch (pos 0) 10 4 1)
      ≡ (some r, at_batch (pos 0) 10 4 2))
    × (r.from ≡ first_index_of_batch (at_batch (pos 0) 10 4 1) (pos 1))
    × (r.to ≡ r.from +ℤ pos (10 / 4 + (if ltb 1 (10 % 4) then 1 else 0)))
    × (first_index_of_batch (at_batch (pos 0) 10 4 1) (pos 2) ≡ r.to)
batch_range_example = batch_range (pos 0) 10 4 1 (omega arith) (omega arith)

batch_bounds_example :
    let p = at_batch (pos 0) 10 4 3 in
    let product = (pos 3 +ℤ pos 1) *ℤ p.nb_elements_per_batch in
    (pos 0 ≤ℤ product)
    × (product ≤ℤ p.element_count)
    × (p.first_index ≤ℤ p.first_index +ℤ product)
    × (p.first_index +ℤ product ≤ℤ p.last_index)
    × (p.first_index ≤ℤ last_index_of_batch p (pos 3))
    × (last_index_of_batch p (pos 3) ≤ℤ p.last_index)
batch_bounds_example = batch_bounds (pos 0) 10 4 3 (omega arith) (omega arith)

-- Three indices, two at a time: thread 0 loads, thread 1 loads and wins, thread 0 loses and loads
-- again.
abbrev small : AtomicPartitioner
small = make_atomic (pos 0) (pos 0 +ℤ pos 2) (pos 2) (pos 4)

abbrev all_taken : Threads
all_taken = record {
  partitioner = record small { shared_index = pos 2 };
  pc =
      update
        (update (update (update (λ i. Threads.idle) 0 (Threads.loaded (pos 0))) 0 Threads.idle) 1
          (Threads.loaded (pos 2)))
        1 exited;
  granted = (0, record { from = pos 0; to = pos 2 }) ∷ [];
}

race : Reach small all_taken
unfolding make_atomic grab_count ◌+ℤ◌ ◌-ℤ◌
race =
    next (next (next (next here (load 0 refl)) (win 0 (pos 0) refl refl refl)) (load 1 refl))
      (give_up 1 (pos 2) refl refl)

granted-calls_example :
    (map (λ g. some g.1) all_taken.granted ≡ (calls (length all_taken.granted) small).0)
    × (all_taken.partitioner ≡ (calls (length all_taken.granted) small).1)
granted-calls_example = granted-calls race

indices-granted_example :
    (a : ℕ) × (indices (ranges all_taken.granted) ≡ span (pos 0) a) × (a ≤ atomic_total (pos 0) 2)
indices-granted_example = indices-granted (pos 0) 2 2 (pos 4) (omega arith) race
