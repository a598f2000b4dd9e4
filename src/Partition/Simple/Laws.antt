-- ===== src/Partition/Simple/Laws.antt =====
-- simple_partitioner.hpp: the batches tile the range, and their sizes differ by one at most.
use native.Mathlib.Nat.{mul-le-mul_right, div-eq-sub-div, div-add-mod, div_self, mul_comm}
use oqpi.Base.{
  ℕ, zero, suc, ◌+◌, ◌-◌, ◌*◌, ◌/◌, ◌%◌, ◌≤◌, ◌<◌, ◌≡◌, refl, ap, sym, subst, ltb→lt, inl, inr,
  none, some, arith, if◌then◌else◌, ltb, Bool-cases,
}
use oqpi.Base.Int.{
  ℤ, pos, pos_part, ◌+ℤ◌, quot, rem, pred_pos, +ℤ_cancel_left, ltb_pos, leb_pos, pos-+ℤ, pos-*ℤ,
  +ℤ_add, +ℤ-zero,
}
use oqpi.Partition.Source.{Source, range_of, Hands}
use oqpi.Partition.Simple.Defs.{
  SimplePartitioner, make_simple, int32_max, increment, last_index_of_batch, first_index_of_batch,
  get_next_valid_range,
}

abbrev pub least : ℕ → ℕ → ℕ
least a b = if ltb a b then a else b

-- Where batch `k` of `n` begins, counted from the first of `e` indices.
pub cut : ℕ → ℕ → ℕ → ℕ
cut e n k = k * (e / n) + least k (e % n)

-- The partitioner of `e` indices in `n` batches, at batch `k`.
abbrev pub at_batch : ℤ → ℕ → ℕ → ℕ → SimplePartitioner
at_batch first e n k = record {
  base = record {
    first_index = first;
    last_index = first +ℤ pos e;
    element_count = pos e;
    batch_count = pos n;
  };
  nb_elements_per_batch = pos (e / n);
  remainder = pos (e % n);
  batch_index = pos k;
}

pub make_simple-at_batch :
    (first : ℤ) (e m : ℕ)
    → 0 < e
    → 0 < m
    → make_simple first (first +ℤ pos e) (pos m) ≡ some (at_batch first e (least e m) 0)
unfolding make_simple quot rem
make_simple-at_batch first e m he hm =
    rw (+ℤ_cancel_left first e, ltb_pos e m, leb_pos m e)
      (elim (Bool-cases (ltb e m)) [
        | inl small ↦ rw small (ground (arith, div_self he))
        | inr big ↦ rw big (ground arith)
      ])

pub cut-zero : (e n : ℕ) → cut e n 0 ≡ 0
unfolding cut
cut-zero e n = ground arith

pub cut-all : (e n : ℕ) → 0 < n → cut e n n ≡ e
unfolding cut
cut-all e n h = ground (arith, div-add-mod e n, mul_comm n (e / n))

pub cut-suc : (e n k : ℕ) → cut e n (suc k) ≡ cut e n k + e / n + (if ltb k (e % n) then 1 else 0)
unfolding cut
cut-suc e n k = ground arith

pub last_index-cut :
    (first : ℤ) (e n j k : ℕ)
    → last_index_of_batch (at_batch first e n j) (pos k) ≡ first +ℤ pos (cut e n (suc k))
unfolding last_index_of_batch cut
last_index-cut first e n j k =
    rw (pos-+ℤ k 1, pos-*ℤ (k + 1) (e / n), ltb_pos k (e % n))
      (elim (Bool-cases (ltb k (e % n))) [
        | inl inside ↦ rw (inside, +ℤ_add) (ap (λ t. first +ℤ pos t) (ground arith))
        | inr beyond ↦ rw (beyond, +ℤ_add) (ap (λ t. first +ℤ pos t) (ground arith))
      ])

pub first_index-cut :
    (first : ℤ) (e n j k : ℕ)
    → first_index_of_batch (at_batch first e n j) (pos k) ≡ first +ℤ pos (cut e n k)
unfolding first_index_of_batch
first_index-cut first e n j zero = rw (cut-zero e n, +ℤ-zero first) refl
first_index-cut first e n j (suc k) = rw (pred_pos k) (ground (arith, last_index-cut first e n j k))

increment_pos : (k : ℕ) → k < int32_max → increment (pos k) ≡ pos (suc k)
unfolding increment
increment_pos k h = ground (arith, pos-+ℤ k 1)

pub cut-le : (e n k : ℕ) → 0 < n → k ≤ n → cut e n k ≤ e
unfolding cut
cut-le e n k hn h = ground (arith, div-add-mod e n, mul_comm n (e / n), mul-le-mul_right (e / n) h)

pub cut-lt_suc : (e n k : ℕ) → 0 < n → n ≤ e → cut e n k < cut e n (suc k)
cut-lt_suc e n k hn h = omega (arith, cut-suc e n k, div-eq-sub-div hn h)

-- One call at batch `k`.
pub next-at_batch :
    (first : ℤ) (e n k : ℕ)
    → k < int32_max
    → get_next_valid_range (at_batch first e n k) ≡ (
      if ltb k n then some (range_of first (cut e n k) (cut e n (suc k))) else none,
      at_batch first e n (suc k),
    )
unfolding get_next_valid_range
next-at_batch first e n k h =
    rw (first_index-cut first e n k k, last_index-cut first e n k k, increment_pos k h, leb_pos n k)
      (ground arith)

-- How many indices are handed out before batch `k`.
abbrev pub handed_out : ℕ → ℕ → ℕ → ℕ
handed_out e n k = if ltb k n then cut e n k else e

abbrev pub simple_position : ℕ → ℕ → SimplePartitioner → ℕ
simple_position e n p = handed_out e n (pos_part p.batch_index)

handed_out-suc : (e n k : ℕ) → k < n → handed_out e n (suc k) ≡ cut e n (suc k)
handed_out-suc e n k h = elim (Bool-cases (ltb (suc k) n)) [
  | inl more ↦ rw more refl
  | inr last ↦
      let is_last : suc k ≡ n = ground arith in rw (last, is_last) (sym (cut-all e n (omega arith)))
]

pub Hands-at_batch :
    (first : ℤ) (e n k : ℕ)
    → 0 < n
    → n ≤ e
    → k < int32_max
    → Hands get_next_valid_range first e (simple_position e n) (at_batch first e n k)
Hands-at_batch first e n k hn h room =
    rw (next-at_batch first e n k room) (elim (Bool-cases (ltb k n)) [
      | inl more ↦
          let below : k < n = ltb→lt k n more in
          let width = cut e n (suc k) - cut e n k in
          let ends : cut e n k + width ≡ cut e n (suc k) = omega (arith, cut-lt_suc e n k hn h) in
          inr (
            width,
            omega (arith, cut-lt_suc e n k hn h),
            rw (more, ends) (cut-le e n (suc k) hn below),
            rw (more, ends) refl,
            rw (more, ends) (handed_out-suc e n k below),
          )
      | inr over ↦ inl (rw over refl, rw over refl, ground arith)
    ])

-- The partitioner of `e` indices in `n` batches has the laws of a source, up to the wrap of its
-- counter.
unfoldable pub simple_source : ℤ → (e n : ℕ) → 0 < n → n ≤ e → Source
simple_source first e n hn h = record {
  State = SimplePartitioner;
  next = get_next_valid_range;
  first = first;
  total = e;
  position = simple_position e n;
  IsReady = λ c p. (k : ℕ) × (p ≡ at_batch first e n k) × (k + c ≤ int32_max);
  hands_out = λ c p (k, is_k, room).
      subst (Hands get_next_valid_range first e (simple_position e n)) (sym is_k)
        (Hands-at_batch first e n k hn h (omega arith));
  stays_ready = λ c p (k, is_k, room).
      (suc k, rw (is_k, next-at_batch first e n k (omega arith)) refl, omega arith);
  fewer = λ c p (k, is_k, room). (k, is_k, omega arith);
}
