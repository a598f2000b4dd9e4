-- ===== src/Partition/Atomic/Tiling.antt =====
-- atomic_partitioner.hpp: what the threads get between them, in every interleaving.
use mathlib.Core.List.{map-append, append-nil, append_assoc}
use native.Mathlib.Nat.{le_refl}
use oqpi.Base.{
  ℕ, ◌+◌, ◌≤◌, ◌<◌, ◌≡◌, refl, sym, ap, ◌∙◌, true, List, [], ◌∷◌, ◌++◌, arith, update, ltb, ltb→lt,
  ltb→le, inl, inr, Bool-cases, ◌==◌,
}
use oqpi.Base.Int.{ℤ, pos, pos_part, ◌+ℤ◌, ◌-ℤ◌, +ℤ_add, +ℤ-zero, +ℤ_cancel_left}
use oqpi.Partition.Range.{Range, span, span-append}
use oqpi.Partition.Atomic.Defs.{AtomicPartitioner, make_atomic, grab_count}
use oqpi.Partition.Atomic.Laws.{atomic_total, after, taken, grab_count-more, grab_count-none}
use oqpi.Partition.Atomic.Threads.{
  idle, loaded, exited, Threads, start, some_left, grabbed_range, Step, load, win, lose, give_up,
  Reach, here, next, ranges,
}

-- The indices of the ranges, in order.
pub indices : List Range → List ℤ
indices [] = []
indices (r ∷ rs) = span r.from (pos_part (r.to -ℤ r.from)) ++ indices rs

indices-snoc :
    (rs : List Range) (r : Range)
    → indices (rs ++ r ∷ []) ≡ indices rs ++ span r.from (pos_part (r.to -ℤ r.from))
unfolding indices
indices-snoc [] r = append-nil _
indices-snoc (q ∷ rs) r = rw (indices-snoc rs r) (sym (append_assoc _ (indices rs) _))

module _ (first : ℤ) (e g : ℕ) (m : ℤ) (hg : 0 < g) where
  abbrev total : ℕ
  total = atomic_total first e

  abbrev initial : AtomicPartitioner
  initial = make_atomic first (first +ℤ pos e) (pos g) m

  -- The partitioner has handed out `a` indices, and every copy of its index is one that it had.
  record Inv (s : Threads) : Type 0 where
    a : ℕ
    state : s.partitioner ≡ after first e g m a
    within : a ≤ total
    tiled : indices (ranges s.granted) ≡ span first a
    copies : (i : ℕ) (x : ℤ) → s.pc i ≡ loaded x → (b : ℕ) × (x ≡ first +ℤ pos b) × (b ≤ a)
    finished : (i : ℕ) → s.pc i ≡ exited → a ≡ total

  start-Inv : Inv (start initial)
  unfolding indices span make_atomic
  start-Inv = record {
    a = 0;
    state = rw (+ℤ-zero first) refl;
    within = omega arith;
    tiled = refl;
    copies = λ i x h. cc;
    finished = λ i h. cc;
  }

  left_iff :
      (p : AtomicPartitioner) (x : ℤ) (a b : ℕ)
      → p ≡ after first e g m a
      → x ≡ first +ℤ pos b
      → some_left p x ≡ ltb b total
  left_iff p x a b is_p is_x = elim (Bool-cases (ltb b total)) [
    | inl more ↦
        let w = taken first e g b in
        rw (is_p, is_x, more, grab_count-more first e g a b m (ltb→lt b total more)) (ground arith)
    | inr over ↦ rw (is_p, is_x, over, grab_count-none first e g a b m (ltb→le b total over)) refl
  ]

  win-Inv :
      (s : Threads) (i : ℕ) (x : ℤ)
      → some_left s.partitioner x ≡ true
      → s.partitioner.shared_index ≡ x
      → Inv s
      → Inv (record {
        partitioner = record (s.partitioner) { shared_index = x +ℤ grab_count s.partitioner x };
        pc = update s.pc i idle;
        granted = s.granted ++ (i, grabbed_range s.partitioner x) ∷ [];
      })
  win-Inv s i x more same v =
      let is_x : x ≡ first +ℤ pos v.a =
        sym same ∙ ap (λ (p : AtomicPartitioner). p.shared_index) v.state in
      let below : v.a < total =
        ltb→lt v.a total (sym (left_iff s.partitioner x v.a v.a v.state is_x) ∙ more) in
      let w = taken first e g v.a in
      let count : grab_count s.partitioner x ≡ pos w =
        rw (v.state, is_x) (grab_count-more first e g v.a v.a m below) in
      record {
        a = v.a + w;
        state =
            rw (count, is_x, +ℤ_add first v.a w)
              (ap (λ (p : AtomicPartitioner). record p { shared_index = first +ℤ pos (v.a + w) })
                v.state);
        within = ground arith;
        tiled =
            rw
              (
                map-append,
                indices-snoc,
                count,
                v.tiled,
                is_x,
                +ℤ_cancel_left (first +ℤ pos v.a) w,
                span-append,
              )
              refl;
        copies = λ j y h. elim (Bool-cases (i == j)) [
          | inl mine ↦ absurd (ground (arith, h))
          | inr other ↦
              let (b, is_b, le) = v.copies j y (ground (arith, h)) in (b, is_b, omega arith)
        ];
        finished = λ j h. elim (Bool-cases (i == j)) [
          | inl mine ↦ absurd (ground (arith, h))
          | inr other ↦ absurd (omega (arith, v.finished j (ground (arith, h))))
        ];
      }

  Step-Inv : {s t : Threads} → Step s t → Inv s → Inv t
  Step-Inv {s} (load i at_head) v = record {
    a = v.a;
    state = v.state;
    within = v.within;
    tiled = v.tiled;
    copies = λ j x h. elim (Bool-cases (i == j)) [
      | inl mine ↦ (v.a, ground (arith, ap (λ p. p.shared_index) v.state), le_refl v.a)
      | inr other ↦ v.copies j x (rw other at h)
    ];
    finished = λ j h. v.finished j (ground arith);
  }
  Step-Inv {s} (win i x has more same) v = win-Inv s i x more same v
  Step-Inv {s} (lose i x has more other) v = record {
    a = v.a;
    state = v.state;
    within = v.within;
    tiled = v.tiled;
    copies = λ j y h. v.copies j y (ground arith);
    finished = λ j h. v.finished j (ground arith);
  }
  Step-Inv {s} (give_up i x has done) v = record {
    a = v.a;
    state = v.state;
    within = v.within;
    tiled = v.tiled;
    copies = λ j y h. v.copies j y (ground arith);
    finished = λ j h. elim (Bool-cases (i == j)) [
      | inl mine ↦
          let (b, is_b, below) = v.copies i x has in
          ground (arith, left_iff s.partitioner x v.a b v.state is_b, v.within)
      | inr other ↦ v.finished j (rw other at h)
    ];
  }

  Reach-Inv : {s : Threads} → Reach initial s → Inv s
  Reach-Inv here = start-Inv
  Reach-Inv (next r st) = Step-Inv st (Reach-Inv r)

  -- In every interleaving of any number of threads, the ranges that the calls returned, in the order
  -- of the compare-exchanges, are the indices from the first one on, without a gap and each once, and
  -- no more of them than the number of the elements less the first index.
  pub indices-granted :
      {s : Threads}
      → Reach initial s
      → (a : ℕ) × (indices (ranges s.granted) ≡ span first a) × (a ≤ atomic_total first e)
  indices-granted r = let v = Reach-Inv r in (v.a, v.tiled, v.within)
