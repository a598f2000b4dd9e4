-- ===== src/Synchronization/WinSemaphore.antt =====
-- include/oqpi/synchronization/win/win_semaphore.hpp, and the calls of the Windows API that it makes,
-- which are a parameter. The messages of failed checks are left out.
use oqpi.Base.{
  ℕ, suc, ◌+◌, ◌%◌, ◌≤◌, ◌<◌, ◌≡◌, Bool, true, false, not, ◌&&◌, Option, none, some, List,
  if◌then◌else◌,
}
use oqpi.Scheduling.Scheduler.{Build, ensure, Outcome, ok, fault}
use oqpi.Synchronization.Wrapper.{
  CreationOption, create_if_nonexistent, open_existing, open_or_create, opens_existing, is_empty,
}
use oqpi.Synchronization.Semaphore.{
  SemaphoreOp, notify, notify_all, try_take, take, SemaphoreReply, no_result, take_reply,
}

-- What WaitForSingleObjectEx returns, or that it does not return yet. `other_result` is that it
-- fails or that the thread was alerted.
pub data WaitResult : Type 0 where
  object_0 timed_out other_result pending : WaitResult

-- `create_semaphore` also says whether GetLastError is ERROR_ALREADY_EXISTS then. The time of a wait
-- is `none` for INFINITE, and otherwise in milliseconds.
pub record WinApi : Type 1 where
  pub Os : Type 0
  pub Handle : Type 0
  pub null : Handle
  pub same : Handle → Handle → Bool
  pub open_semaphore : Os → List ℕ → Os × Handle
  pub create_semaphore : Os → ℕ → ℕ → List ℕ → Os × Handle × Bool
  pub close_handle : Os → Handle → Os
  pub release_semaphore : Os → Handle → ℕ → Os × Bool
  pub wait_for_single_object : Os → Handle → Option ℕ → Os × WaitResult

-- What the documentation says of the calls on a semaphore with the count `value` and the maximum
-- `maximum`.
pub record WinLaws (api : WinApi) : Type 0 where
  pub value : api.Os → api.Handle → Option ℕ
  pub maximum : ℕ
  pub release-fits :
      (os : api.Os) (h : api.Handle) (n count : ℕ)
      → value os h ≡ some n
      → n + count ≤ maximum
      → value (api.release_semaphore os h count).0 h ≡ some (n + count)
  pub release-exceeds :
      (os : api.Os) (h : api.Handle) (n count : ℕ)
      → value os h ≡ some n
      → maximum < n + count
      → value (api.release_semaphore os h count).0 h ≡ some n
  pub wait-positive :
      (os : api.Os) (h : api.Handle) (n : ℕ) (time : Option ℕ)
      → value os h ≡ some (suc n)
      → ((api.wait_for_single_object os h time).1 ≡ object_0)
        × (value (api.wait_for_single_object os h time).0 h ≡ some n)
  pub wait-infinite :
      (os : api.Os) (h : api.Handle)
      → value os h ≡ some 0
      → ((api.wait_for_single_object os h none).1 ≡ pending)
        × (value (api.wait_for_single_object os h none).0 h ≡ some 0)
  pub wait-none :
      (os : api.Os) (h : api.Handle)
      → value os h ≡ some 0
      → ((api.wait_for_single_object os h (some 0)).1 ≡ timed_out)
        × (value (api.wait_for_single_object os h (some 0)).0 h ≡ some 0)

unfoldable pub is_object_0 : WaitResult → Option Bool
is_object_0 object_0 = some true
is_object_0 timed_out = some false
is_object_0 other_result = some false
is_object_0 pending = none

unfoldable pub creates_only : CreationOption → Bool
creates_only create_if_nonexistent = true
creates_only open_existing = false
creates_only open_or_create = false

module _ (api : WinApi) where
  -- The fields of win_semaphore.
  pub record WinSemaphore : Type 0 where
    pub init_count : ℕ
    pub max_count : ℕ
    pub handle : api.Handle

  unfoldable pub is_valid_win : WinSemaphore → Bool
  is_valid_win s = not (api.same s.handle api.null)

  unfoldable pub with_handle : ℕ → ℕ → api.Handle → WinSemaphore
  with_handle init_count max_count h = record {
    init_count = init_count;
    max_count = max_count;
    handle = h;
  }

  -- The constructor; with checks it stops the program when it is to open what has no name.
  unfoldable pub make_win_semaphore :
      Build → api.Os → List ℕ → CreationOption → ℕ → ℕ → Outcome (api.Os × WinSemaphore)
  unfolding is_empty opens_existing creates_only with_handle
  make_win_semaphore build os name option init_count max_count =
      let opened = api.open_semaphore os name in
      let created = api.create_semaphore os init_count max_count name in
      let made = with_handle init_count max_count in
      if opens_existing option
      then (if ensure build (not (is_empty name)) then ok (opened.0, made opened.1) else fault)
      else if creates_only option && (created.2 && not (api.same created.1 api.null))
      then ok (api.close_handle created.0 created.1, made api.null)
      else ok (created.0, made created.1)

  -- The destructor.
  unfoldable pub destroy_win : api.Os → WinSemaphore → api.Os × WinSemaphore
  unfolding is_valid_win
  destroy_win os s =
      if is_valid_win s
      then (api.close_handle os s.handle, record s { handle = api.null })
      else (os, s)

  -- The new object and what is left of the other.
  unfoldable pub move_construct_win : WinSemaphore → WinSemaphore × WinSemaphore
  move_construct_win other = (other, record other { handle = api.null })

  -- `*this` and `rhs` after the assignment, for two different objects.
  unfoldable pub move_assign_win : WinSemaphore → WinSemaphore → WinSemaphore × WinSemaphore
  move_assign_win self rhs = (rhs, record rhs { handle = api.null })

  unfoldable pub internal_wait : api.Os → WinSemaphore → Option ℕ → api.Os × Option Bool
  unfolding is_object_0
  internal_wait os s time =
      let waited = api.wait_for_single_object os s.handle time in (waited.0, is_object_0 waited.1)

  unfoldable pub notify_win : api.Os → WinSemaphore → ℕ → api.Os
  notify_win os s count = (api.release_semaphore os s.handle count).0

  unfoldable pub notify_all_win : api.Os → WinSemaphore → api.Os
  unfolding notify_win
  notify_all_win os s = notify_win os s s.max_count

  unfoldable pub try_wait_win : api.Os → WinSemaphore → api.Os × Option Bool
  unfolding internal_wait
  try_wait_win os s = internal_wait os s (some 0)

  unfoldable pub wait_win : api.Os → WinSemaphore → api.Os × Option Bool
  unfolding internal_wait
  wait_win os s = internal_wait os s none

  -- `waitFor`, the milliseconds cut to 32 bits.
  unfoldable pub wait_for_win : api.Os → WinSemaphore → ℕ → api.Os × Option Bool
  unfolding internal_wait
  wait_for_win os s milliseconds = internal_wait os s (some (milliseconds % 4294967296))

  unfoldable pub win_step : WinSemaphore → api.Os → SemaphoreOp → api.Os × SemaphoreReply
  unfolding notify_win notify_all_win try_wait_win wait_win take_reply
  win_step s os (notify count) = (notify_win os s count, no_result)
  win_step s os notify_all = (notify_all_win os s, no_result)
  win_step s os try_take = ((try_wait_win os s).0, take_reply (try_wait_win os s).1)
  win_step s os take = ((wait_win os s).0, take_reply (wait_win os s).1)
