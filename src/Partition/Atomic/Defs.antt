-- ===== src/Partition/Atomic/Defs.antt =====
-- atomic_partitioner.hpp
use oqpi.Base.{◌≡◌, refl, Option, none, some, if◌then◌else◌}
use oqpi.Base.Int.{ℤ, pos, ◌+ℤ◌, ◌-ℤ◌, ltb_ℤ}
use oqpi.Partition.Range.{Range, BasePartitioner, make_base}

pub record AtomicPartitioner : Type 0 where
  pub base : BasePartitioner
  pub open base use *
  pub indices_to_grab : ℤ
  pub shared_index : ℤ

unfoldable pub make_atomic : ℤ → ℤ → ℤ → ℤ → AtomicPartitioner
make_atomic first last indices_to_grab max_batches = record {
  base = make_base first last max_batches;
  indices_to_grab = indices_to_grab;
  shared_index = first;
}

-- `std::min<int32_t>(elementCount_ - expectedIndex, indicesToGrab_)`
unfoldable pub grab_count : AtomicPartitioner → ℤ → ℤ
grab_count p expected =
    let available = p.element_count -ℤ expected in
    if ltb_ℤ p.indices_to_grab available then p.indices_to_grab else available

-- A round of the loop that no other thread interferes with: the compare-exchange succeeds. Threads
-- has the rounds of several threads, step by step.
unfoldable pub get_next_valid_range : AtomicPartitioner → Option Range × AtomicPartitioner
get_next_valid_range p =
    let expected = p.shared_index in
    let count = grab_count p expected in
    if ltb_ℤ (pos 0) count
    then (
      some (record { from = expected; to = expected +ℤ count }),
      record p { shared_index = expected +ℤ count },
    )
    else (none, p)

-- Of the indices 5 up to 15 the first call gets four, and the second the one that is left of 10.
second_grab :
    (get_next_valid_range (get_next_valid_range (make_atomic (pos 5) (pos 15) (pos 4) (pos 8))).1).0
    ≡ some (record { from = pos 9; to = pos 10 })
unfolding make_atomic get_next_valid_range grab_count ◌+ℤ◌ ◌-ℤ◌
second_grab = refl
