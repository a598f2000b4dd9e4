-- ===== src/Examples/WinSemaphores.antt =====
-- The theorems on the semaphores of Windows at a system with one semaphore, whose maximum is 2.
use oqpi.Base.{
  ℕ, zero, suc, ◌+◌, ◌≤◌, ◌<◌, ◌≡◌, refl, ap, Bool, true, false, Option, none, some, [], ◌∷◌,
  if◌then◌else◌, ◌==◌, ltb, arith,
}
use oqpi.Base.Runs.{answers}
use oqpi.Synchronization.Semaphore.{notify, notify_all, try_take, take}
use oqpi.Synchronization.WinSemaphore.{
  WinApi, WinLaws, WinSemaphore, WaitResult, object_0, timed_out, pending, win_step, notify_all_win,
}
use oqpi.Synchronization.WinLaws.{bounded_step, answers-win_semaphore, notify_all_win-refused}

abbrev released : ℕ → ℕ → ℕ × Bool
released os count = if ltb 2 (os + count) then (os, false) else (os + count, true)

abbrev waited : ℕ → Option ℕ → ℕ × WaitResult
waited zero none = (0, pending)
waited zero (some time) = (0, timed_out)
waited (suc n) time = (n, object_0)

abbrev two_at_most : WinApi
two_at_most = record {
  Os = ℕ;
  Handle = ℕ;
  null = 0;
  same = ◌==◌;
  open_semaphore = λ os name. (os, 1);
  create_semaphore = λ os init_count max_count name. (init_count, 1, false);
  close_handle = λ os h. os;
  release_semaphore = λ os h count. released os count;
  wait_for_single_object = λ os h time. waited os time;
}

some_injective : (a b : ℕ) → some a ≡ some b → a ≡ b
some_injective a b e = cc

released-fits :
    (os n count : ℕ) → os ≡ n → n + count ≤ 2 → some (released os count).0 ≡ some (n + count)
released-fits os n count e fits = ground arith

released-exceeds : (os n count : ℕ) → os ≡ n → 2 < n + count → some (released os count).0 ≡ some n
released-exceeds os n count e over = ground arith

waited-positive :
    (os n : ℕ) (time : Option ℕ)
    → os ≡ suc n
    → ((waited os time).1 ≡ object_0) × (some (waited os time).0 ≡ some n)
waited-positive os n time e = rw e (refl, refl)

waited-zero : (os : ℕ) (time : Option ℕ) → os ≡ 0 → waited os time ≡ waited 0 time
waited-zero os time e = ap (λ os. waited os time) e

abbrev win_laws : WinLaws two_at_most
win_laws = record {
  value = λ os h. some os;
  maximum = 2;
  release-fits = λ os h n count e fits. released-fits os n count (some_injective os n e) fits;
  release-exceeds = λ os h n count e over. released-exceeds os n count (some_injective os n e) over;
  wait-positive = λ os h n time e. waited-positive os n time (some_injective os (suc n) e);
  wait-infinite = λ os h e. rw (some_injective os 0 e) (refl, refl);
  wait-none = λ os h e. rw (some_injective os 0 e) (refl, refl);
}

abbrev of_two : WinSemaphore two_at_most
of_two = record { init_count = 1; max_count = 2; handle = 1 }

answers-win_semaphore_example :
    answers
      (win_step two_at_most of_two)
      1
      (notify_all ∷ notify 1 ∷ take ∷ take ∷ try_take ∷ take ∷ notify_all ∷ [])
    ≡ answers
        (bounded_step 2 2)
        1
        (notify_all ∷ notify 1 ∷ take ∷ take ∷ try_take ∷ take ∷ notify_all ∷ [])
answers-win_semaphore_example =
    answers-win_semaphore two_at_most win_laws of_two
      (notify_all ∷ notify 1 ∷ take ∷ take ∷ try_take ∷ take ∷ notify_all ∷ []) 1 1 refl

notify_all_win-refused_example : some (notify_all_win two_at_most 1 of_two) ≡ some 1
notify_all_win-refused_example = notify_all_win-refused two_at_most win_laws of_two 1 0 refl refl
