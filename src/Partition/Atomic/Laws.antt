-- ===== src/Partition/Atomic/Laws.antt =====
-- atomic_partitioner.hpp: which indices are handed out. The number of indices that are left is
-- computed from the count of the elements, not from the last index, so the range that is handed
-- out ends at `lastIndex - firstIndex`.
use oqpi.Base.{
  ℕ, ◌+◌, ◌-◌, ◌≤◌, ◌<◌, ◌≡◌, refl, sym, subst, ◌⊎◌, inl, inr, none, some, arith, false,
  if◌then◌else◌, ltb, Bool-cases, ltb→lt, ltb→le, lt→ltb,
}
use oqpi.Base.Int.{
  ℤ, pos, negsuc, pos_part, neg_part, ◌+ℤ◌, ◌-ℤ◌, ltb_ℤ, int_laws, +ℤ_add, -ℤ_parts, +ℤ_cancel_left,
  ltb_pos,
}
use oqpi.Partition.Source.{Source, range_of, Hands}
use oqpi.Partition.Atomic.Defs.{AtomicPartitioner, make_atomic, grab_count, get_next_valid_range}

-- How many indices are handed out in all.
abbrev pub atomic_total : ℤ → ℕ → ℕ
atomic_total first e = pos_part (pos e -ℤ first)

-- The partitioner after `a` indices, for `e` indices of which a call takes `g`.
abbrev pub after : ℤ → ℕ → ℕ → ℤ → ℕ → AtomicPartitioner
after first e g max_batches a = record (make_atomic first (first +ℤ pos e) (pos g) max_batches) {
  shared_index = first +ℤ pos a;
}

parts_apart : (a : ℤ) → (pos_part a ≡ 0) ⊎ (neg_part a ≡ 0)
parts_apart (pos n) = inr refl
parts_apart (negsuc n) = inl refl

available-pos :
    (first : ℤ) (e a : ℕ)
    → a < atomic_total first e
    → pos e -ℤ (first +ℤ pos a) ≡ pos (atomic_total first e - a)
available-pos first e a h = omega (int_laws, -ℤ_parts, parts_apart (pos e -ℤ first))

available-none :
    (first : ℤ) (e a : ℕ) → atomic_total first e ≤ a → pos_part (pos e -ℤ (first +ℤ pos a)) ≡ 0
available-none first e a h =
    omega
      (int_laws, -ℤ_parts, parts_apart (pos e -ℤ first), parts_apart (pos e -ℤ (first +ℤ pos a)))

-- How many indices a call takes after `a` of them.
abbrev pub taken : ℤ → ℕ → ℕ → ℕ → ℕ
taken first e g a = let left = atomic_total first e - a in if ltb g left then g else left

pub grab_count-more :
    (first : ℤ) (e g c a : ℕ) (m : ℤ)
    → a < atomic_total first e
    → grab_count (after first e g m c) (first +ℤ pos a) ≡ pos (taken first e g a)
unfolding grab_count make_atomic
grab_count-more first e g c a m h =
    rw (+ℤ_cancel_left first e, available-pos first e a h, ltb_pos g (atomic_total first e - a))
      (elim (Bool-cases (ltb g (atomic_total first e - a))) [
        | inl b ↦ rw b refl
        | inr b ↦ rw b refl
      ])

pub grab_count-none :
    (first : ℤ) (e g c a : ℕ) (m : ℤ)
    → atomic_total first e ≤ a
    → ltb_ℤ (pos 0) (grab_count (after first e g m c) (first +ℤ pos a)) ≡ false
unfolding grab_count make_atomic
grab_count-none first e g c a m h =
    let left = pos e -ℤ (first +ℤ pos a) in
    let none_left = available-none first e a h in
    let small : ltb (pos_part (pos g) + neg_part left) (pos_part left + neg_part (pos g)) ≡ false =
      ground (arith, none_left) in
    rw (+ℤ_cancel_left first e, small) (ground (arith, none_left))

pub next-more :
    (first : ℤ) (e g a : ℕ) (m : ℤ)
    → 0 < g
    → a < atomic_total first e
    → get_next_valid_range (after first e g m a)
      ≡ (some (range_of first a (a + taken first e g a)), after first e g m (a + taken first e g a))
unfolding get_next_valid_range
next-more first e g a m hg h =
    let some_left : 0 < taken first e g a = ground arith in
    rw
      (
        grab_count-more first e g a a m h,
        +ℤ_add first a (taken first e g a),
        ltb_pos 0 (taken first e g a),
        lt→ltb 0 (taken first e g a) some_left,
      )
      refl

pub next-none :
    (first : ℤ) (e g a : ℕ) (m : ℤ)
    → atomic_total first e ≤ a
    → get_next_valid_range (after first e g m a) ≡ (none, after first e g m a)
unfolding get_next_valid_range
next-none first e g a m h = rw (grab_count-none first e g a a m h) refl

abbrev pub atomic_position : ℤ → AtomicPartitioner → ℕ
atomic_position first p = pos_part (p.shared_index -ℤ first)

position-after : (first : ℤ) (a : ℕ) → pos_part (first +ℤ pos a -ℤ first) ≡ a
position-after first a = rw (+ℤ_cancel_left first a) refl

pub Hands-after :
    (first : ℤ) (e g a : ℕ) (m : ℤ)
    → 0 < g
    → a ≤ atomic_total first e
    → Hands get_next_valid_range first
        (atomic_total first e)
        (atomic_position first)
        (after first e g m a)
Hands-after first e g a m hg h = elim (Bool-cases (ltb a (atomic_total first e))) [
  | inl more ↦
      let w = taken first e g a in
      rw
        (
          next-more first e g a m hg (ltb→lt a _ more),
          position-after first a,
          position-after first (a + w),
        )
        (inr (w, ground arith, ground arith, refl, refl))
  | inr over ↦
      rw (next-none first e g a m (ltb→le a _ over), position-after first a)
        (inl (ground arith, refl, ground arith))
]

pub stays-after :
    (first : ℤ) (e g a : ℕ) (m : ℤ)
    → 0 < g
    → a ≤ atomic_total first e
    → (b : ℕ) × ((get_next_valid_range (after first e g m a)).1 ≡ after first e g m b)
      × (b ≤ atomic_total first e)
stays-after first e g a m hg h = elim (Bool-cases (ltb a (atomic_total first e))) [
  | inl more ↦
      (a + taken first e g a, rw (next-more first e g a m hg (ltb→lt a _ more)) refl, ground arith)
  | inr over ↦ (a, rw (next-none first e g a m (ltb→le a _ over)) refl, h)
]

-- The partitioner has the laws of a source, for the indices that it hands out.
unfoldable pub atomic_source : ℤ → (e g : ℕ) → ℤ → 0 < g → Source
atomic_source first e g m hg = record {
  State = AtomicPartitioner;
  next = get_next_valid_range;
  first = first;
  total = atomic_total first e;
  position = atomic_position first;
  IsReady = λ c p. (a : ℕ) × (p ≡ after first e g m a) × (a ≤ atomic_total first e);
  hands_out = λ c p (a, is_a, within).
      subst (Hands get_next_valid_range first (atomic_total first e) (atomic_position first))
        (sym is_a) (Hands-after first e g a m hg within);
  stays_ready = λ c p (a, is_a, within). rw is_a (stays-after first e g a m hg within);
  fewer = λ c p ready. ready;
}
