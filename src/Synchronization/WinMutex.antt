-- ===== src/Synchronization/WinMutex.antt =====
-- include/oqpi/synchronization/win/win_mutex.hpp, and the calls of the Windows API that it makes, which
-- are a parameter. The messages of failed checks are left out.
use oqpi.Base.{ℕ, ◌%◌, Bool, not, ◌&&◌, Option, none, some, List, if◌then◌else◌}
use oqpi.Scheduling.Scheduler.{Build, ensure, Outcome, ok, fault}
use oqpi.Synchronization.Wrapper.{CreationOption, opens_existing, is_empty}
use oqpi.Synchronization.WinSemaphore.{WaitResult, is_object_0, creates_only}

-- The calls that depend on the thread that makes them take its number. `create_mutex` is passed
-- whether that thread is to hold the mutex, and also says whether GetLastError is
-- ERROR_ALREADY_EXISTS then. The time of a wait is `none` for INFINITE.
pub record WinMutexApi : Type 1 where
  pub Os : Type 0
  pub Handle : Type 0
  pub null : Handle
  pub same : Handle → Handle → Bool
  pub open_mutex : Os → List ℕ → Os × Handle
  pub create_mutex : ℕ → Os → Bool → List ℕ → Os × Handle × Bool
  pub close_handle : Os → Handle → Os
  pub release_mutex : ℕ → Os → Handle → Os × Bool
  pub wait_for_single_object : ℕ → Os → Handle → Option ℕ → Os × WaitResult

module _ (api : WinMutexApi) where
  -- The constructor, called by `thread`; with checks it stops the program when it is to open what has no
  -- name.
  unfoldable pub make_win_mutex :
      Build → ℕ → api.Os → List ℕ → CreationOption → Bool → Outcome (api.Os × api.Handle)
  unfolding is_empty opens_existing creates_only
  make_win_mutex build thread os name option lock_on_creation =
      let created = api.create_mutex thread os lock_on_creation name in
      if opens_existing option
      then (if ensure build (not (is_empty name)) then ok (api.open_mutex os name) else fault)
      else if not (api.same created.1 api.null) && (creates_only option && created.2)
      then ok (api.close_handle created.0 created.1, api.null)
      else ok (created.0, created.1)

  -- The destructor.
  unfoldable pub destroy_win_mutex : api.Os → api.Handle → api.Os × api.Handle
  destroy_win_mutex os h =
      if not (api.same h api.null) then (api.close_handle os h, api.null) else (os, h)

  -- The handles of `*this` and `rhs` after the assignment, for two different objects.
  unfoldable pub move_assign_win_mutex : api.Handle → api.Handle → api.Handle × api.Handle
  move_assign_win_mutex self rhs = (rhs, api.null)

  unfoldable pub internal_wait_mutex : ℕ → api.Os → api.Handle → Option ℕ → api.Os × Option Bool
  unfolding is_object_0
  internal_wait_mutex thread os h time =
      let waited = api.wait_for_single_object thread os h time in (waited.0, is_object_0 waited.1)

  unfoldable pub lock_win_mutex : ℕ → api.Os → api.Handle → api.Os × Option Bool
  unfolding internal_wait_mutex
  lock_win_mutex thread os h = internal_wait_mutex thread os h none

  unfoldable pub try_lock_win_mutex : ℕ → api.Os → api.Handle → api.Os × Option Bool
  unfolding internal_wait_mutex
  try_lock_win_mutex thread os h = internal_wait_mutex thread os h (some 0)

  -- `tryLockFor`, the milliseconds cut to 32 bits.
  unfoldable pub try_lock_for_win_mutex : ℕ → api.Os → api.Handle → ℕ → api.Os × Option Bool
  unfolding internal_wait_mutex
  try_lock_for_win_mutex thread os h milliseconds =
      internal_wait_mutex thread os h (some (milliseconds % 4294967296))

  unfoldable pub unlock_win_mutex : ℕ → api.Os → api.Handle → api.Os
  unlock_win_mutex thread os h = (api.release_mutex thread os h).0
