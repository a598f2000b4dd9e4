-- ===== src/Synchronization/Naming.antt =====
-- posix_semaphore_wrapper.hpp: the constructor of a semaphore with a name.
use oqpi.Base.{ℕ, ◌≤◌, ◌≡◌, Bool, true, false, not, List}
use oqpi.Scheduling.Scheduler.{Build}
use oqpi.Synchronization.Api.{SemApi}
use oqpi.Synchronization.Wrapper.{
  CreationOption, create_if_nonexistent, open_existing, open_or_create, is_name_valid, Wrapper,
  is_valid, init_global_semaphore, keep_or_release,
}

-- What the manual says of names: `exists os name` is whether there is a semaphore of that name.
-- SEM_FAILED is the null pointer, as in glibc, and `sem_value_max` is SEM_VALUE_MAX. The calls do not
-- fail for want of memory, descriptors or permissions.
pub record NameLaws (api : SemApi) : Type 0 where
  pub exists : api.Os → List ℕ → Bool
  pub sem_value_max : ℕ
  pub null-same : api.same api.null api.null ≡ true
  pub failed-same : api.same api.sem_failed api.sem_failed ≡ true
  pub failed-null : api.same api.sem_failed api.null ≡ true
  pub open-new :
      (os : api.Os) (name : List ℕ) (count : ℕ)
      → is_name_valid api.name_max name ≡ true
      → count ≤ sem_value_max
      → exists os name ≡ false
      → (api.same (api.sem_open os name true count).1 api.sem_failed ≡ false)
        × ((api.same (api.sem_open os name true count).1 api.null ≡ false)
            × (exists (api.sem_open os name true count).0 name ≡ true))
  pub open-exclusive :
      (os : api.Os) (name : List ℕ) (count : ℕ)
      → exists os name ≡ true
      → api.sem_open os name true count ≡ (os, api.sem_failed)
  pub open-again :
      (os : api.Os) (name : List ℕ) (count : ℕ)
      → exists os name ≡ true
      → (api.same (api.sem_open os name false count).1 api.sem_failed ≡ false)
        × ((api.same (api.sem_open os name false count).1 api.null ≡ false)
            × (exists (api.sem_open os name false count).0 name ≡ true))
  pub unlink-exists : (os : api.Os) (name : List ℕ) → exists (api.sem_unlink os name) name ≡ false

-- Whether the constructor yields a semaphore, by whether one of the name exists.
unfoldable pub is_granted : CreationOption → Bool → Bool
is_granted create_if_nonexistent there = not there
is_granted open_existing there = there
is_granted open_or_create there = true

-- Whether a semaphore of the name exists afterwards.
pub exists_after : CreationOption → Bool → Bool
exists_after create_if_nonexistent there = true
exists_after open_existing there = there
exists_after open_or_create there = true

module _ (build : Build) (api : SemApi) (laws : NameLaws api) (os : api.Os) (name : List ℕ)
    (count : ℕ) where
  made : CreationOption → api.Os × Wrapper api
  made option =
      keep_or_release api
        (init_global_semaphore api build os (record { handle = api.null; name = name }) option
          count)
        name

  pub Granted : CreationOption → Bool → Type 0
  Granted option there =
      (is_valid api (made option).1 ≡ is_granted option there)
      × (laws.exists (made option).0 name ≡ exists_after option there)
