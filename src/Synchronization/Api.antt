-- ===== src/Synchronization/Api.antt =====
-- The semaphores of the operating system (semaphore.h), which
-- include/oqpi/synchronization/posix/posix_semaphore_wrapper.hpp calls: a parameter of the models of
-- this folder, and what is relied on of it.
use oqpi.Base.{ℕ, suc, ◌≤◌, ◌<◌, ◌≡◌, Bool, true, false, Option, some, List}

-- How a call ends that may wait. A call that does not return yet is `blocked`.
pub data Waited : Type 0 where
  taken failed blocked : Waited

-- `Os` is the state of the system and `Ptr` the type of pointers to semaphores. Calls that return 0
-- or -1 return whether they succeed; `sem_open` takes whether O_EXCL is set besides O_CREAT.
pub record SemApi : Type 1 where
  pub Os : Type 0
  pub Ptr : Type 0
  pub null : Ptr
  pub sem_failed : Ptr
  pub same : Ptr → Ptr → Bool
  pub new_sem : Os → Os × Ptr
  pub delete_sem : Os → Ptr → Os
  pub sem_init : Os → Ptr → ℕ → Os × Bool
  pub sem_open : Os → List ℕ → Bool → ℕ → Os × Ptr
  pub sem_destroy : Os → Ptr → Os
  pub sem_close : Os → Ptr → Os
  pub sem_unlink : Os → List ℕ → Os
  pub sem_post : Os → Ptr → Os × Bool
  pub sem_wait : Os → Ptr → Os × Waited
  pub sem_trywait : Os → Ptr → Os × Bool
  pub sem_timedwait : Os → Ptr → ℕ → ℕ → Os × Waited
  pub sem_getvalue : Os → Ptr → ℕ
  pub clock_gettime : Os → Option (ℕ × ℕ)
  pub name_max : ℕ

-- What the manual says of the calls on a semaphore: `value os p` is the count of the semaphore that
-- `p` points to, if it points to one, and `sem_value_max` is SEM_VALUE_MAX.
pub record SemLaws (api : SemApi) : Type 0 where
  pub value : api.Os → api.Ptr → Option ℕ
  pub sem_value_max : ℕ
  pub max-positive : 0 < sem_value_max
  pub post-below :
      (os : api.Os) (p : api.Ptr) (n : ℕ)
      → value os p ≡ some n
      → n < sem_value_max
      → value (api.sem_post os p).0 p ≡ some (suc n)
  pub post-overflow :
      (os : api.Os) (p : api.Ptr) (n : ℕ)
      → value os p ≡ some n
      → sem_value_max ≤ n
      → value (api.sem_post os p).0 p ≡ some n
  pub wait-positive :
      (os : api.Os) (p : api.Ptr) (n : ℕ)
      → value os p ≡ some (suc n)
      → ((api.sem_wait os p).1 ≡ taken) × (value (api.sem_wait os p).0 p ≡ some n)
  pub wait-zero :
      (os : api.Os) (p : api.Ptr)
      → value os p ≡ some 0
      → ((api.sem_wait os p).1 ≡ blocked) × (value (api.sem_wait os p).0 p ≡ some 0)
  pub trywait-positive :
      (os : api.Os) (p : api.Ptr) (n : ℕ)
      → value os p ≡ some (suc n)
      → ((api.sem_trywait os p).1 ≡ true) × (value (api.sem_trywait os p).0 p ≡ some n)
  pub trywait-zero :
      (os : api.Os) (p : api.Ptr)
      → value os p ≡ some 0
      → ((api.sem_trywait os p).1 ≡ false) × (value (api.sem_trywait os p).0 p ≡ some 0)
  pub getvalue-value :
      (os : api.Os) (p : api.Ptr) (n : ℕ) → value os p ≡ some n → api.sem_getvalue os p ≡ n
