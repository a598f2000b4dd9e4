-- ===== src/Synchronization/WinEvent.antt =====
-- include/oqpi/synchronization/win/win_event.hpp, and the calls of the Windows API that it makes, which
-- are a parameter. The messages of failed checks are left out.
use oqpi.Base.{ℕ, ◌%◌, Bool, not, ◌&&◌, Option, none, some, List, if◌then◌else◌}
use oqpi.Scheduling.Scheduler.{Build, ensure, Outcome, ok, fault}
use oqpi.Synchronization.Wrapper.{CreationOption, opens_existing, is_empty}
use oqpi.Synchronization.Event.{ResetPolicy, is_manual_reset_enabled}
use oqpi.Synchronization.WinSemaphore.{WaitResult, is_object_0, creates_only}

-- `create_event` is passed whether the event is reset by hand and whether it is set, and also says
-- whether GetLastError is ERROR_ALREADY_EXISTS then. The time of a wait is `none` for INFINITE.
pub record WinEventApi : Type 1 where
  pub Os : Type 0
  pub Handle : Type 0
  pub null : Handle
  pub same : Handle → Handle → Bool
  pub open_event : Os → List ℕ → Os × Handle
  pub create_event : Os → Bool → Bool → List ℕ → Os × Handle × Bool
  pub close_handle : Os → Handle → Os
  pub set_event : Os → Handle → Os
  pub clear_event : Os → Handle → Os
  pub wait_for_single_object : Os → Handle → Option ℕ → Os × WaitResult

module _ (api : WinEventApi) where
  -- `close`, which the destructor calls.
  unfoldable pub close_win_event : api.Os → api.Handle → api.Os × api.Handle
  close_win_event os h =
      if not (api.same h api.null) then (api.close_handle os h, api.null) else (os, h)

  -- The constructor; with checks it stops the program when it is to open what has no name.
  unfoldable pub make_win_event :
      Build → ResetPolicy → api.Os → List ℕ → CreationOption → Bool → Outcome (api.Os × api.Handle)
  unfolding is_empty is_manual_reset_enabled opens_existing creates_only close_win_event
  make_win_event build policy os name option initial_state =
      let created = api.create_event os (is_manual_reset_enabled policy) initial_state name in
      if opens_existing option
      then (if ensure build (not (is_empty name)) then ok (api.open_event os name) else fault)
      else if creates_only option && created.2
      then ok ((close_win_event created.0 created.1).0, api.null)
      else ok (created.0, created.1)

  -- The handles of `*this` and `rhs` after the assignment, for two different objects.
  unfoldable pub move_assign_win_event : api.Handle → api.Handle → api.Handle × api.Handle
  move_assign_win_event self rhs = (rhs, api.null)

  unfoldable pub notify_win_event : api.Os → api.Handle → api.Os
  notify_win_event os h = api.set_event os h

  unfoldable pub internal_wait_event : api.Os → api.Handle → Option ℕ → api.Os × Option Bool
  unfolding is_object_0
  internal_wait_event os h time =
      let waited = api.wait_for_single_object os h time in (waited.0, is_object_0 waited.1)

  unfoldable pub wait_win_event : api.Os → api.Handle → api.Os × Option Bool
  unfolding internal_wait_event
  wait_win_event os h = internal_wait_event os h none

  -- `waitFor`, the milliseconds cut to 32 bits.
  unfoldable pub wait_for_win_event : api.Os → api.Handle → ℕ → api.Os × Option Bool
  unfolding internal_wait_event
  wait_for_win_event os h milliseconds = internal_wait_event os h (some (milliseconds % 4294967296))

  -- win_event_manual_reset_policy::reset
  unfoldable pub reset_win_event : api.Os → api.Handle → api.Os
  reset_win_event os h = api.clear_event os h
