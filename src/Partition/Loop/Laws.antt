-- ===== src/Partition/Loop/Laws.antt =====
-- parallel_for.hpp: which calls of the user's function the batch tasks make, in any order of turns.
use mathlib.Core.List.{map-append}
use oqpi.Base.{
  ℕ, suc, ◌+◌, ◌≤◌, ◌<◌, ◌≡◌, refl, inl, inr, ◌⊎◌, ◌==◌, if◌then◌else◌, true, false, some, List, [],
  ◌∷◌, ◌++◌, map, arith, length, update, Bool-cases,
}
use oqpi.Base.Int.{ℤ, pos, ◌+ℤ◌, +ℤ_add}
use oqpi.Partition.Range.{element_loop, span, element_loop-span, span-append}
use oqpi.Partition.Source.{Source}
use oqpi.Partition.Loop.Defs.{Loop, start, turn, run}

-- The element indices of the calls, in the order of the calls.
abbrev pub elements : List (ℕ × ℤ) → List ℤ
elements = map (λ c. c.1)

elements-batch : (b : ℕ) (is : List ℤ) → elements (map (λ i. (b, i)) is) ≡ is
elements-batch b [] = refl
elements-batch b (i ∷ is) = rw (elements-batch b is)

-- How many turns task `b` has in a schedule.
pub turns : ℕ → List ℕ → ℕ
turns b [] = 0
turns b (c ∷ cs) = (if c == b then 1 else 0) + turns b cs

module _ (src : Source) where
  open src use {State, next, first, total, position, IsReady, hands_out, stays_ready, fewer}

  record IsExact (l : Loop State) : Type 0 where
    called : elements l.calls ≡ span first (position l.partitioner)
    within : position l.partitioner ≤ total
    left : (b : ℕ) → l.running b ≡ false → position l.partitioner ≡ total

  start-IsExact : (s : State) → position s ≡ 0 → IsExact (start s)
  unfolding span
  start-IsExact s h = record { called = rw h refl; within = omega arith; left = λ b e. cc }

  range_loop :
      (fuel a w : ℕ)
      → w < fuel
      → element_loop fuel (first +ℤ pos a) (first +ℤ pos (a + w)) ≡ some (span (first +ℤ pos a) w)
  range_loop fuel a w h = rw (← +ℤ_add first a w) (element_loop-span fuel w (first +ℤ pos a) h)

  -- What a turn of task `b` does for each task `c`: those that have left their loop stay out of it,
  -- and the turn ends the loop of `c` or moves the position on, if `c` is `b`.
  record Advance (b : ℕ) (l l' : Loop State) : Type 0 where
    stays : (c : ℕ) → l.running c ≡ false → l'.running c ≡ false
    moves :
        (c : ℕ)
        → (l'.running c ≡ false)
          ⊎ (position l.partitioner + (if b == c then 1 else 0) ≤ position l'.partitioner)

  record Turned (n b : ℕ) (l l' : Loop State) : Type 0 where
    exact : IsExact l'
    ready : IsReady n l'.partitioner
    advance : Advance b l l'

  turn-Turned :
      (fuel n : ℕ) (l : Loop State) (b : ℕ)
      → total < fuel
      → IsReady (suc n) l.partitioner
      → IsExact l
      → (l' : Loop State) × (turn next fuel l b ≡ some l') × Turned n b l l'
  unfolding turn
  turn-Turned fuel n l b enough ready ok = elim (Bool-cases (l.running b)) [
    | inr off ↦ (
      l,
      rw (off, turn) refl,
      record {
        exact = ok;
        ready = fewer n l.partitioner ready;
        advance = record { stays = λ c h. h; moves = λ c. ground arith };
      },
    )
    | inl on ↦ elim (hands_out n l.partitioner ready) [
      | inl (all, e, same) ↦ (
        record l { partitioner = (next l.partitioner).1; running = update l.running b false },
        rw (on, e) refl,
        record {
          exact = record {
            called = rw same (rw all at ok.called);
            within = omega (arith, same);
            left = λ c h. same;
          };
          ready = stays_ready n l.partitioner ready;
          advance = record { stays = λ c h. ground arith; moves = λ c. ground arith };
        },
      )
      | inr (w, grows, fits, e, further) ↦ (
        record l {
          partitioner = (next l.partitioner).1;
          calls = l.calls ++ map (λ i. (b, i)) (span (first +ℤ pos (position l.partitioner)) w);
        },
        rw (on, e, range_loop fuel (position l.partitioner) w (omega arith)) refl,
        record {
          exact = record {
            called = rw (further, map-append, ok.called, elements-batch b, span-append) refl;
            within = omega (arith, further);
            left = λ c h. absurd (omega (arith, ok.left c h));
          };
          ready = stays_ready n l.partitioner ready;
          advance = record { stays = λ c h. h; moves = λ c. inr (ground arith) };
        },
      )
    ]
  ]

  record Ran (bs : List ℕ) (l l' : Loop State) : Type 0 where
    exact : IsExact l'
    stays : (c : ℕ) → l.running c ≡ false → l'.running c ≡ false
    moves :
        (c : ℕ)
        → (l'.running c ≡ false) ⊎ (position l.partitioner + turns c bs ≤ position l'.partitioner)

  run-Ran :
      (fuel : ℕ) (bs : List ℕ) (l : Loop State)
      → total < fuel
      → IsReady (length bs) l.partitioner
      → IsExact l
      → (l' : Loop State) × (run next fuel l bs ≡ some l') × Ran bs l l'
  unfolding run turns
  run-Ran fuel [] l enough ready ok =
      (l, refl, record { exact = ok; stays = λ c h. h; moves = λ c. inr (omega arith) })
  run-Ran fuel (b ∷ bs) l enough ready ok =
      let (l', e, t) = turn-Turned fuel (length bs) l b enough ready ok in
      let (l'', e', r) = run-Ran fuel bs l' enough t.ready t.exact in
      (
        l'',
        rw (e, run) e',
        record {
          exact = r.exact;
          stays = λ c h. r.stays c (t.advance.stays c h);
          moves = λ c. ground (arith, t.advance.moves c, r.moves c, r.stays c);
        },
      )

  -- From a fresh partitioner any schedule that the laws cover runs to its end, with more fuel than
  -- indices. The indices that the function was called with are then first, first + 1, … up to the
  -- position, each once and in this order; once some task has left its loop they are all the
  -- indices; and a task that had more turns than there are indices has left its loop.
  pub run-calls :
      (fuel : ℕ) (s : State) (bs : List ℕ)
      → total < fuel
      → position s ≡ 0
      → IsReady (length bs) s
      → (l : Loop State) × (run next fuel (start s) bs ≡ some l)
        × (elements l.calls ≡ span first (position l.partitioner))
        × ((b : ℕ) → (l.running b ≡ true) ⊎ (elements l.calls ≡ span first total))
        × ((b : ℕ) → (turns b bs ≤ total) ⊎ (l.running b ≡ false))
  run-calls fuel s bs enough zeroed ready =
      let (l, e, r) = run-Ran fuel bs (start s) enough ready (start-IsExact s zeroed) in
      (
        l,
        e,
        r.exact.called,
        λ b. elim (Bool-cases (l.running b)) [
          | inl on ↦ inl on
          | inr off ↦ inr (rw (r.exact.left b off) at r.exact.called)
        ],
        λ b. ground (arith, r.moves b, r.exact.within),
      )
