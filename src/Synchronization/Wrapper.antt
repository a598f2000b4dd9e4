-- ===== src/Synchronization/Wrapper.antt =====
-- include/oqpi/synchronization/posix/posix_semaphore_wrapper.hpp. Error messages are left out.
use oqpi.Base.{
  ℕ, ◌+◌, ◌/◌, ◌%◌, Bool, true, false, not, ◌&&◌, Option, none, some, List, [], ◌∷◌, if◌then◌else◌,
  ◌==◌, ltb, length,
}
use oqpi.Scheduling.Scheduler.{Build, ensure}
use oqpi.Synchronization.Api.{SemApi, Waited, taken, failed, blocked}

-- sync_common.hpp
pub data CreationOption : Type 0 where
  create_if_nonexistent open_existing open_or_create : CreationOption

unfoldable pub opens_existing : CreationOption → Bool
opens_existing create_if_nonexistent = false
opens_existing open_existing = true
opens_existing open_or_create = false

-- `creationOption == open_existing || creationOption == open_or_create`
unfoldable pub may_reuse : CreationOption → Bool
may_reuse create_if_nonexistent = false
may_reuse open_existing = true
may_reuse open_or_create = true

unfoldable pub is_empty : List ℕ → Bool
is_empty [] = true
is_empty (c ∷ cs) = false

-- The character `/`.
abbrev pub slash : ℕ
slash = 47

unfoldable pub has_no_slash : List ℕ → Bool
has_no_slash [] = true
has_no_slash (c ∷ cs) = if c == slash then false else has_no_slash cs

unfoldable pub first_is_slash : List ℕ → Bool
first_is_slash [] = false
first_is_slash (c ∷ cs) = c == slash

unfoldable pub rest : List ℕ → List ℕ
rest [] = []
rest (c ∷ cs) = cs

unfoldable pub is_name_valid : ℕ → List ℕ → Bool
unfolding has_no_slash first_is_slash rest
is_name_valid name_max name =
    ltb (length name) name_max
    && (ltb 1 (length name) && (first_is_slash name && has_no_slash (rest name)))

-- The name that is kept: `name.empty() ? "" : "/" + name`.
unfoldable pub kept_name : List ℕ → List ℕ
unfolding is_empty
kept_name name = if is_empty name then [] else slash ∷ name

-- What `sem_wait` and `sem_timedwait` make of a call: whether it returned, and what.
unfoldable pub wait_result : Waited → Option Bool
wait_result taken = some true
wait_result failed = some false
wait_result blocked = none

abbrev pub billion : ℕ
billion = 1000000000

module _ (api : SemApi) where
  -- The fields of posix_semaphore_wrapper.
  pub record Wrapper : Type 0 where
    pub handle : api.Ptr
    pub name : List ℕ

  unfoldable pub is_valid : Wrapper → Bool
  is_valid s = not (api.same s.handle api.null)

  unfoldable pub release_local : api.Os → api.Ptr → api.Os
  release_local os p = api.delete_sem (api.sem_destroy os p) p

  unfoldable pub release_global : api.Os → Wrapper → api.Os
  release_global os s = api.sem_unlink (api.sem_close os s.handle) s.name

  -- Also the destructor.
  unfoldable pub release : api.Os → Wrapper → api.Os × Wrapper
  unfolding is_valid release_local release_global is_empty
  release os s =
      if is_valid s
      then (
        (if is_empty s.name then release_local os s.handle else release_global os s),
        record s { handle = api.null },
      )
      else (os, s)

  -- What the two functions that make a semaphore leave behind: the state, the handle, and whether
  -- they succeed.
  pub record Made : Type 0 where
    pub os : api.Os
    pub handle : api.Ptr
    pub success : Bool

  unfoldable pub init_local_semaphore : api.Os → ℕ → Made
  init_local_semaphore os init_count =
      let allocated = api.new_sem os in
      let initialised = api.sem_init allocated.0 allocated.1 init_count in
      record { os = initialised.0; handle = allocated.1; success = initialised.1 }

  -- The second `sem_open`, of a semaphore that exists.
  unfoldable pub reopen : api.Os → List ℕ → api.Ptr → CreationOption → api.Os × api.Ptr
  unfolding may_reuse
  reopen os name p option =
      if api.same p api.sem_failed && may_reuse option
      then api.sem_open os name false 0
      else (os, p)

  unfoldable pub init_global_semaphore : Build → api.Os → Wrapper → CreationOption → ℕ → Made
  unfolding is_name_valid opens_existing reopen
  init_global_semaphore build os s option init_count =
      let created = api.sem_open os s.name true init_count in
      let opened = reopen created.0 s.name created.1 option in
      if not (ensure build (is_name_valid api.name_max s.name))
      then record { os = os; handle = s.handle; success = false }
      else if not (api.same created.1 api.sem_failed) && opens_existing option
      then record { os = created.0; handle = created.1; success = false }
      else record {
        os = opened.0;
        handle = opened.1;
        success = not (api.same opened.1 api.sem_failed);
      }

  unfoldable pub keep_or_release : Made → List ℕ → api.Os × Wrapper
  unfolding release
  keep_or_release m name =
      if m.success
      then (m.os, record { handle = m.handle; name = name })
      else release m.os (record { handle = m.handle; name = name })

  -- The constructor. A local object has no name.
  unfoldable pub make_wrapper : Build → api.Os → List ℕ → CreationOption → ℕ → api.Os × Wrapper
  unfolding kept_name is_empty opens_existing init_local_semaphore init_global_semaphore
      keep_or_release
  make_wrapper build os name option init_count =
      let kept = kept_name name in
      if is_empty kept && not (opens_existing option)
      then keep_or_release (init_local_semaphore os init_count) kept
      else keep_or_release
          (init_global_semaphore build os (record { handle = api.null; name = kept }) option
            init_count)
          kept

  -- The new object and what is left of the other.
  unfoldable pub move_construct : Wrapper → Wrapper × Wrapper
  move_construct other = (other, record other { handle = api.null })

  -- `*this` and `rhs` after the assignment, for two different objects.
  unfoldable pub move_assign : Wrapper → Wrapper → Wrapper × Wrapper
  unfolding is_valid
  move_assign self rhs =
      if is_valid self then (self, rhs) else (rhs, record rhs { handle = api.null })

  unfoldable pub post : api.Os → Wrapper → api.Os
  post os s = (api.sem_post os s.handle).0

  unfoldable pub try_wait : api.Os → Wrapper → api.Os × Bool
  try_wait os s = api.sem_trywait os s.handle

  unfoldable pub wait : api.Os → Wrapper → api.Os × Option Bool
  unfolding wait_result
  wait os s = ((api.sem_wait os s.handle).0, wait_result (api.sem_wait os s.handle).1)

  -- `waitFor` of a time in nanoseconds that is not negative.
  unfoldable pub wait_for : api.Os → Wrapper → ℕ → api.Os × Option Bool
  unfolding wait_result
  wait_for os s nanoseconds = elim (api.clock_gettime os) [
    | none ↦ (os, some false)
    | some now ↦
        let waited =
          api.sem_timedwait os s.handle (now.0 + nanoseconds / billion)
            (now.1 + nanoseconds % billion) in
        (waited.0, wait_result waited.1)
  ]

  unfoldable pub get_value : api.Os → Wrapper → ℕ
  get_value os s = api.sem_getvalue os s.handle
