-- ===== src/Partition/Simple/Defs.antt =====
-- simple_partitioner.hpp. The fields are mathematical integers; Laws has the ranges in which the
-- `int32_t` arithmetic of the source agrees. The atomic counter wraps as `std::atomic` does.
pub use oqpi.Base.Int.{int32_max}
use mathlib.Core.Option
use oqpi.Base.{◌≡◌, refl, Option, none, some, if◌then◌else◌}
use oqpi.Base.Int.{ℤ, pos, negsuc, ◌+ℤ◌, ◌-ℤ◌, ◌*ℤ◌, quot, rem, ltb_ℤ, leb_ℤ, eqb_ℤ}
use oqpi.Partition.Range.{Range, BasePartitioner, make_base}

pub record SimplePartitioner : Type 0 where
  pub base : BasePartitioner
  pub open base use *
  pub nb_elements_per_batch : ℤ
  pub remainder : ℤ
  pub batch_index : ℤ

-- The constructor; `none` is its division by zero, which the language leaves undefined.
unfoldable pub make_simple : ℤ → ℤ → ℤ → Option SimplePartitioner
make_simple first last max_batches =
    let base = make_base first last max_batches in
    if leb_ℤ max_batches base.element_count
    then if eqb_ℤ base.batch_count (pos 0)
      then none
      else some (record {
        base = base;
        nb_elements_per_batch = quot base.element_count base.batch_count;
        remainder = rem base.element_count base.batch_count;
        batch_index = pos 0;
      })
    else some (record {
      base = base;
      nb_elements_per_batch = pos 1;
      remainder = pos 0;
      batch_index = pos 0;
    })

-- `++` of a `std::atomic<int32_t>`.
unfoldable pub increment : ℤ → ℤ
increment i = if eqb_ℤ i (pos int32_max) then negsuc int32_max else i +ℤ pos 1

unfoldable pub last_index_of_batch : SimplePartitioner → ℤ → ℤ
last_index_of_batch p batch_index =
    let offset = if ltb_ℤ batch_index p.remainder then batch_index +ℤ pos 1 else p.remainder in
    p.first_index +ℤ (batch_index +ℤ pos 1) *ℤ p.nb_elements_per_batch +ℤ offset

unfoldable pub first_index_of_batch : SimplePartitioner → ℤ → ℤ
first_index_of_batch p batch_index =
    if ltb_ℤ (pos 0) batch_index
    then last_index_of_batch p (batch_index -ℤ pos 1)
    else p.first_index

unfoldable pub get_next_valid_range : SimplePartitioner → Option Range × SimplePartitioner
get_next_valid_range p =
    let batch_index = p.batch_index in
    (
      if leb_ℤ p.batch_count batch_index
          then none
          else some (record {
            from = first_index_of_batch p batch_index;
            to = last_index_of_batch p batch_index;
          }),
      record p { batch_index = increment batch_index },
    )

-- Ten indices from -3 in four batches: the second is [0; 3[.
second_batch :
    Option.map
      (λ p. (get_next_valid_range (get_next_valid_range p).1).0)
      (make_simple (negsuc 2) (pos 7) (pos 4))
    ≡ some (some (record { from = pos 0; to = pos 3 }))
unfolding make_simple get_next_valid_range first_index_of_batch last_index_of_batch increment quot
    rem ◌+ℤ◌ ◌-ℤ◌ ◌*ℤ◌
second_batch = refl
