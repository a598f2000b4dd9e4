-- ===== src/Examples/Semaphores.antt =====
-- The theorems on semaphores at a system that has one semaphore, which counts up to 3.
use oqpi.Base.{
  ℕ, suc, ◌+◌, ◌-◌, ◌≤◌, ◌<◌, ◌≡◌, refl, Bool, true, false, some, [], ◌∷◌, if◌then◌else◌, ◌==◌, ltb,
  arith, ap, lt→ltb,
}
use oqpi.Base.Runs.{answers}
use oqpi.Synchronization.Api.{SemApi, SemLaws, Waited, taken, failed, blocked}
use oqpi.Synchronization.Wrapper.{Wrapper, wait_for, slash}
use oqpi.Synchronization.Naming.{NameLaws}
use oqpi.Synchronization.Deadline.{wait_for-carry}
use oqpi.Synchronization.Mutex.{
  init_count, lock, try_lock, unlock, mutex_step, lock_step, answers-mutex,
}
use oqpi.Synchronization.EventLaws.{
  notify, wait_for_it, reset, event_step, flag_step, answers-manual_reset,
}
use oqpi.Synchronization.Semaphore.{
  Semaphore, semaphore_step, counter_step, try_take, take, notify_all, answers-semaphore,
}

record OneSemaphore : Type 0 where
  there : Bool
  count : ℕ

abbrev posted : OneSemaphore → OneSemaphore × Bool
posted os = if ltb os.count 3 then (record os { count = os.count + 1 }, true) else (os, false)

abbrev taken_from : OneSemaphore → Waited → OneSemaphore × Waited
taken_from os otherwise =
    if ltb 0 os.count then (record os { count = os.count - 1 }, taken) else (os, otherwise)

abbrev tried : OneSemaphore → OneSemaphore × Bool
tried os = if ltb 0 os.count then (record os { count = os.count - 1 }, true) else (os, false)

abbrev opened : OneSemaphore → Bool → ℕ → OneSemaphore × ℕ
opened os exclusive n =
    if os.there
    then (if exclusive then (os, 0) else (os, 1))
    else (record { there = true; count = n }, 1)

-- The one semaphore is at the address 1.
abbrev one_semaphore : SemApi
one_semaphore = record {
  Os = OneSemaphore;
  Ptr = ℕ;
  null = 0;
  sem_failed = 0;
  same = ◌==◌;
  new_sem = λ os. (os, 1);
  delete_sem = λ os p. os;
  sem_init = λ os p n. (record os { count = n }, true);
  sem_open = λ os name exclusive n. opened os exclusive n;
  sem_destroy = λ os p. os;
  sem_close = λ os p. os;
  sem_unlink = λ os name. record os { there = false };
  sem_post = λ os p. posted os;
  sem_wait = λ os p. taken_from os blocked;
  sem_trywait = λ os p. tried os;
  sem_timedwait = λ os p secs nanos. taken_from os failed;
  sem_getvalue = λ os p. os.count;
  clock_gettime = λ os. some (100, 900000000);
  name_max = 255;
}

some_injective : (a b : ℕ) → some a ≡ some b → a ≡ b
some_injective a b e = cc

posted-below :
    (os : OneSemaphore) (n : ℕ) → os.count ≡ n → n < 3 → some (posted os).0.count ≡ some (suc n)
posted-below os n e below = rw (e, lt→ltb n 3 below) (ap some (omega arith))

not_below : (n : ℕ) → 3 ≤ n → ltb n 3 ≡ false
not_below n full = ground arith

posted-full : (os : OneSemaphore) (n : ℕ) → os.count ≡ n → 3 ≤ n → some (posted os).0.count ≡ some n
posted-full os n e full = rw (e, not_below n full) refl

taken_from-positive :
    (os : OneSemaphore) (n : ℕ)
    → os.count ≡ suc n
    → ((taken_from os blocked).1 ≡ taken) × (some (taken_from os blocked).0.count ≡ some n)
taken_from-positive os n e = rw (e, lt→ltb 0 (suc n) (omega arith)) (refl, ap some (omega arith))

taken_from-zero :
    (os : OneSemaphore) (other : Waited) → os.count ≡ 0 → taken_from os other ≡ (os, other)
taken_from-zero os other e = rw e refl

tried-positive :
    (os : OneSemaphore) (n : ℕ)
    → os.count ≡ suc n
    → ((tried os).1 ≡ true) × (some (tried os).0.count ≡ some n)
tried-positive os n e = rw (e, lt→ltb 0 (suc n) (omega arith)) (refl, ap some (omega arith))

tried-zero : (os : OneSemaphore) → os.count ≡ 0 → tried os ≡ (os, false)
tried-zero os e = rw e refl

abbrev sem_laws : SemLaws one_semaphore
sem_laws = record {
  value = λ os p. some os.count;
  sem_value_max = 3;
  max-positive = omega arith;
  post-below = λ os p n e below. posted-below os n (some_injective os.count n e) below;
  post-overflow = λ os p n e full. posted-full os n (some_injective os.count n e) full;
  wait-positive = λ os p n e. taken_from-positive os n (some_injective os.count (suc n) e);
  wait-zero = λ os p e. rw (taken_from-zero os blocked (some_injective os.count 0 e)) (refl, e);
  trywait-positive = λ os p n e. tried-positive os n (some_injective os.count (suc n) e);
  trywait-zero = λ os p e. rw (tried-zero os (some_injective os.count 0 e)) (refl, e);
  getvalue-value = λ os p n e. some_injective os.count n e;
}

opened-new :
    (os : OneSemaphore) (n : ℕ)
    → os.there ≡ false
    → opened os true n ≡ (record { there = true; count = n }, 1)
opened-new os n e = rw e refl

opened-present :
    (os : OneSemaphore) (exclusive : Bool) (n : ℕ)
    → os.there ≡ true
    → opened os exclusive n ≡ (if exclusive then (os, 0) else (os, 1))
opened-present os exclusive n e = rw e refl

abbrev name_laws : NameLaws one_semaphore
name_laws = record {
  exists = λ os name. os.there;
  sem_value_max = 3;
  null-same = refl;
  failed-same = refl;
  failed-null = refl;
  open-new =
      λ os name count valid fits absent. rw (opened-new os count absent) (refl, (refl, refl));
  open-exclusive = λ os name count present. opened-present os true count present;
  open-again =
      λ os name count present. rw (opened-present os false count present) (refl, (refl, present));
  unlink-exists = λ os name. refl;
}

abbrev free_semaphore : OneSemaphore
free_semaphore = record { there = true; count = 1 }

abbrev empty_semaphore : OneSemaphore
empty_semaphore = record { there = true; count = 0 }

abbrev at_one : Wrapper one_semaphore
at_one = record { handle = 1; name = slash ∷ 120 ∷ [] }

abbrev at_null : Wrapper one_semaphore
at_null = record { handle = 0; name = [] }

answers-mutex_example :
    answers
      (mutex_step one_semaphore at_one)
      free_semaphore
      (try_lock ∷ try_lock ∷ lock ∷ unlock ∷ unlock ∷ lock ∷ [])
    ≡ answers lock_step false (try_lock ∷ try_lock ∷ lock ∷ unlock ∷ unlock ∷ lock ∷ [])
unfolding init_count
answers-mutex_example =
    answers-mutex one_semaphore sem_laws at_one
      (try_lock ∷ try_lock ∷ lock ∷ unlock ∷ unlock ∷ lock ∷ []) free_semaphore false refl

answers-manual_reset_example :
    answers
      (event_step one_semaphore at_one)
      empty_semaphore
      (wait_for_it ∷ notify ∷ notify ∷ wait_for_it ∷ wait_for_it ∷ reset ∷ wait_for_it ∷ [])
    ≡ answers flag_step false
        (wait_for_it ∷ notify ∷ notify ∷ wait_for_it ∷ wait_for_it ∷ reset ∷ wait_for_it ∷ [])
answers-manual_reset_example =
    answers-manual_reset one_semaphore sem_laws at_one
      (wait_for_it ∷ notify ∷ notify ∷ wait_for_it ∷ wait_for_it ∷ reset ∷ wait_for_it ∷ [])
      empty_semaphore 0 refl

abbrev semaphore_of_two : Semaphore one_semaphore
semaphore_of_two = record { max_count = 2; sem = at_one }

answers-semaphore_example :
    answers
      (semaphore_step one_semaphore semaphore_of_two)
      free_semaphore
      (try_take ∷ take ∷ notify_all ∷ notify_all ∷ take ∷ [])
    ≡ answers (counter_step 3 2) 1 (try_take ∷ take ∷ notify_all ∷ notify_all ∷ take ∷ [])
answers-semaphore_example =
    answers-semaphore one_semaphore sem_laws semaphore_of_two
      (try_take ∷ take ∷ notify_all ∷ notify_all ∷ take ∷ []) free_semaphore 1 refl (omega arith)

wait_for-carry_example :
    wait_for one_semaphore empty_semaphore at_one 250000000 ≡ (empty_semaphore, some false)
wait_for-carry_example =
    wait_for-carry one_semaphore sem_laws empty_semaphore at_one (100, 900000000) 250000000
      (λ os p secs nanos e b. taken_from-zero os failed (some_injective os.count 0 e)) refl refl
      (omega arith)
