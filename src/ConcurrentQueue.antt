-- ===== src/ConcurrentQueue.antt =====
-- include/oqpi/concurrent_queue.hpp: the queue of handles of each priority. A call of `push` or
-- `tryPop` holds the lock from its beginning to its end, so it is one step; the queue is a list, the
-- front first.
use oqpi.Base.{
  ℕ, zero, suc, ◌≡◌, refl, ap, ◌∙◌, sym, Bool, true, false, Option, none, some, List, [], ◌∷◌, ◌++◌,
  length,
}
use mathlib.Core.List.{append_assoc, append-nil}

module _ {A : Type 0} where
  unfoldable pub push_item : List A → A → List A
  push_item q a = q ++ a ∷ []

  -- `tryPop`: the queue afterwards, and what `v` is assigned, none for the result false.
  unfoldable pub try_pop : List A → List A × Option A
  try_pop [] = ([], none)
  try_pop (a ∷ q) = (q, some a)

  unfoldable pub is_queue_empty : List A → Bool
  is_queue_empty [] = true
  is_queue_empty (a ∷ q) = false

  push_all : List A → List A → List A
  unfolding push_item
  push_all q [] = q
  push_all q (a ∷ xs) = push_all (push_item q a) xs

  pop_all : ℕ → List A → List (Option A)
  unfolding try_pop
  pop_all zero q = []
  pop_all (suc n) q = (try_pop q).1 ∷ pop_all n (try_pop q).0

  pushed_lem : (q xs : List A) → push_all q xs ≡ q ++ xs
  unfolding push_all push_item
  pushed_lem q [] = sym (append-nil q)
  pushed_lem q (a ∷ xs) = pushed_lem (push_item q a) xs ∙ append_assoc q (a ∷ []) xs

  somes : List A → List (Option A)
  somes [] = []
  somes (a ∷ xs) = some a ∷ somes xs

  popped_lem : (q : List A) → pop_all (length q) q ≡ somes q
  unfolding pop_all try_pop somes
  popped_lem [] = refl
  popped_lem (a ∷ q) = ap (λ l. some a ∷ l) (popped_lem q)

  -- What was pushed comes out first in, first out.
  popped-pushed : (xs : List A) → pop_all (length (push_all [] xs)) (push_all [] xs) ≡ somes xs
  popped-pushed xs = popped_lem (push_all [] xs) ∙ ap somes (pushed_lem [] xs)
