-- ===== src/Synchronization/Event.antt =====
-- include/oqpi/synchronization/posix/posix_event.hpp, whose functions are those of
-- interface/interface_event.hpp.
use oqpi.Base.{ℕ, zero, suc, Bool, true, false, Option, none, some, List, if◌then◌else◌, ◌==◌}
use oqpi.Scheduling.Scheduler.{Build}
use oqpi.Synchronization.Api.{SemApi}
use oqpi.Synchronization.Wrapper.{
  CreationOption, Wrapper, make_wrapper, post, wait, wait_for, get_value,
}

-- The reset policies: posix_event_manual_reset_policy and event_auto_reset_policy_impl.
pub data ResetPolicy : Type 0 where
  manual_reset auto_reset : ResetPolicy

unfoldable pub is_manual_reset_enabled : ResetPolicy → Bool
is_manual_reset_enabled manual_reset = true
is_manual_reset_enabled auto_reset = false

-- What a call of an event leaves, or that it did not return in as many turns of its loop as were
-- given.
pub data Reset (Os : Type 0) : Type 0 where
  reset_to : Os → Reset Os
  reset_waits : Os → Reset Os
  out_of_turns : Reset Os

module _ (api : SemApi) where
  unfoldable pub make_event : Build → api.Os → List ℕ → CreationOption → Bool → api.Os × Wrapper api
  unfolding make_wrapper
  make_event build os name option initial_state =
      make_wrapper api build os name option (if initial_state then 1 else 0)

  unfoldable pub notify_event : api.Os → Wrapper api → api.Os
  unfolding post
  notify_event os s = post api os s

  -- `wait` and `waitFor` after the wait on the semaphore.
  unfoldable pub after_wait :
      ResetPolicy → Wrapper api → api.Os × Option Bool → api.Os × Option Bool
  unfolding is_manual_reset_enabled post
  after_wait policy s waited = elim waited.1 [
    | none ↦ waited
    | some b ↦
        if b
        then (if is_manual_reset_enabled policy
            then (post api waited.0 s, some true)
            else (waited.0, some true))
        else (waited.0, some false)
  ]

  unfoldable pub wait_event : ResetPolicy → api.Os → Wrapper api → api.Os × Option Bool
  unfolding after_wait wait
  wait_event policy os s = after_wait policy s (wait api os s)

  unfoldable pub wait_event_for : ResetPolicy → api.Os → Wrapper api → ℕ → api.Os × Option Bool
  unfolding after_wait wait_for
  wait_event_for policy os s nanoseconds = after_wait policy s (wait_for api os s nanoseconds)

  -- posix_event_manual_reset_policy::reset, of at most `turns` turns.
  unfoldable pub reset_event : ℕ → api.Os → Wrapper api → Reset api.Os
  unfolding get_value wait
  reset_event zero os s = if get_value api os s == 0 then reset_to os else out_of_turns
  reset_event (suc turns) os s =
      let waited = wait api os s in
      let again = reset_event turns waited.0 s in
      if get_value api os s == 0 then reset_to os else elim waited.1 [
        | none ↦ reset_waits waited.0
        | some b ↦ if b then again else reset_to waited.0
      ]
