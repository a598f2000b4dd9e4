-- ===== src/Partition/Loop/Defs.antt =====
-- parallel_for.hpp: the state of the batch tasks, and one turn of a task.
use oqpi.Base.{
  ℕ, Bool, true, false, Option, none, some, List, [], ◌∷◌, ◌++◌, map, if◌then◌else◌, update,
}
use oqpi.Base.Int.{ℤ}
use oqpi.Partition.Range.{Range, element_loop}

-- `running b` is false once task `b` has left its `while` loop. `calls` are the calls of the user's
-- function: the batch index and the element index of each.
pub record Loop (S : Type 0) : Type 0 where
  pub partitioner : S
  pub running : ℕ → Bool
  pub calls : List (ℕ × ℤ)

module _ {S : Type 0} where
  abbrev pub start : S → Loop S
  start s = record { partitioner = s; running = λ b. true; calls = [] }

  -- `while (getNextValidRange(first, last)) for (…) func(batchIndex, elementIndex);`, one round.
  -- `none` means that an index loop ran out of its fuel.
  unfoldable pub turn : (S → Option Range × S) → ℕ → Loop S → ℕ → Option (Loop S)
  turn next fuel l b =
      if l.running b
      then elim (next l.partitioner).0 [
        | none ↦
            some (record l {
              partitioner = (next l.partitioner).1;
              running = update l.running b false;
            })
        | some r ↦ elim (element_loop fuel r.from r.to) [
          | none ↦ none
          | some is ↦ some (record l {
            partitioner = (next l.partitioner).1;
            calls = l.calls ++ map (λ i. (b, i)) is;
          })
        ]
      ]
      else some l

  unfoldable pub run : (S → Option Range × S) → ℕ → Loop S → List ℕ → Option (Loop S)
  run next fuel l [] = some l
  run next fuel l (b ∷ bs) = elim (turn next fuel l b) [
    | none ↦ none
    | some l' ↦ run next fuel l' bs
  ]
