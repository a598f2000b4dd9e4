-- ===== src/Synchronization/EventLaws.antt =====
-- posix_event.hpp: a manual-reset event is a flag.
use oqpi.Base.{
  ℕ, zero, suc, ◌≤◌, ◌≡◌, refl, ap, ◌∙◌, inl, inr, Bool, true, false, Option, none, some, List,
  if◌then◌else◌, ◌==◌, ltb, Bool-cases, ltb→lt, ltb→le, lt→ltb, arith,
}
use oqpi.Base.Runs.{answers, answers-simulated}
use oqpi.Synchronization.Api.{SemApi, SemLaws, taken, blocked}
use oqpi.Synchronization.Wrapper.{Wrapper, post, wait, get_value, wait_result}
use oqpi.Synchronization.Event.{
  manual_reset, is_manual_reset_enabled, Reset, reset_to, reset_waits, out_of_turns, notify_event,
  after_wait, wait_event, reset_event,
}

pub data EventOp : Type 0 where
  notify wait_for_it reset : EventOp

-- What a call returns. A `wait` that has not returned yet is `waiting`, and a `reset` that has not
-- is `resetting`.
pub data EventReply : Type 0 where
  returned : Bool → EventReply
  waiting : EventReply
  resetting : EventReply
  no_result : EventReply

unfoldable pub wait_reply : Option Bool → EventReply
wait_reply none = waiting
wait_reply (some b) = returned b

module _ (api : SemApi) where
  unfoldable pub reset_answer : api.Os → Reset api.Os → api.Os × EventReply
  reset_answer os (reset_to os') = (os', no_result)
  reset_answer os (reset_waits os') = (os', resetting)
  reset_answer os out_of_turns = (os, resetting)

  -- The loop of `reset` is given as many turns as the semaphore counts.
  unfoldable pub event_step : Wrapper api → api.Os → EventOp → api.Os × EventReply
  unfolding notify_event wait_event reset_event wait_reply reset_answer
  event_step s os notify = (notify_event api os s, no_result)
  event_step s os wait_for_it =
      ((wait_event api manual_reset os s).0, wait_reply (wait_event api manual_reset os s).1)
  event_step s os reset = reset_answer os (reset_event api (get_value api os s) os s)

unfoldable pub flag_step : Bool → EventOp → Bool × EventReply
flag_step flag notify = (true, no_result)
flag_step flag wait_for_it = (flag, if flag then returned true else waiting)
flag_step flag reset = (false, no_result)

suc==0 : (n : ℕ) → (suc n == 0) ≡ false
suc==0 n = ground arith

module _ (api : SemApi) (laws : SemLaws api) (s : Wrapper api) where
  -- The semaphore of an event counts more than 0 just while it is signalled.
  pub IsFlag : api.Os → Bool → Type 0
  IsFlag os flag = (n : ℕ) × (laws.value os s.handle ≡ some n) × (ltb 0 n ≡ flag)

  positive : (n : ℕ) → laws.sem_value_max ≤ n → ltb 0 n ≡ true
  positive n full = let above = laws.max-positive in lt→ltb 0 n (omega arith)

  post-IsFlag :
      (os : api.Os) (n : ℕ) → laws.value os s.handle ≡ some n → IsFlag (post api os s) true
  unfolding post IsFlag
  post-IsFlag os n e = elim (Bool-cases (ltb n laws.sem_value_max)) [
    | inl below ↦ (
      suc n,
      laws.post-below os s.handle n e (ltb→lt n laws.sem_value_max below),
      lt→ltb 0 (suc n) (omega arith),
    )
    | inr full ↦ (
      n,
      laws.post-overflow os s.handle n e (ltb→le n laws.sem_value_max full),
      positive n (ltb→le n laws.sem_value_max full),
    )
  ]

  -- `reset` has an end, in as many turns as the semaphore counts.
  reset-ends :
      (n : ℕ) (os : api.Os)
      → laws.value os s.handle ≡ some n
      → (os' : api.Os) × (reset_event api n os s ≡ reset_to os') × IsFlag os' false
  unfolding reset_event get_value wait wait_result IsFlag
  reset-ends zero os e = (os, rw (laws.getvalue-value os s.handle 0 e) refl, (0, e, refl))
  reset-ends (suc n) os e =
      let waited = laws.wait-positive os s.handle n e in
      let further = reset-ends n (api.sem_wait os s.handle).0 waited.1 in
      (
        further.0,
        rw (laws.getvalue-value os s.handle (suc n) e, waited.0, suc==0 n) further.1,
        further.2,
      )

  wait_event-taken :
      (os : api.Os)
      → (api.sem_wait os s.handle).1 ≡ taken
      → wait_event api manual_reset os s ≡ (post api (api.sem_wait os s.handle).0 s, some true)
  unfolding wait_event after_wait wait wait_result is_manual_reset_enabled
  wait_event-taken os e = rw e refl

  wait_event-blocked :
      (os : api.Os)
      → (api.sem_wait os s.handle).1 ≡ blocked
      → wait_event api manual_reset os s ≡ ((api.sem_wait os s.handle).0, none)
  unfolding wait_event after_wait wait wait_result
  wait_event-blocked os e = rw e refl

  wait-IsFlag :
      (os : api.Os) (flag : Bool)
      → IsFlag os flag
      → (wait_reply (wait_event api manual_reset os s).1
          ≡ (if flag then returned true else waiting))
        × IsFlag (wait_event api manual_reset os s).0 flag
  unfolding wait_reply IsFlag
  wait-IsFlag os flag (zero, e, f) =
      let waited = laws.wait-zero os s.handle e in
      rw (wait_event-blocked os waited.0, ← f) (refl, (0, waited.1, refl))
  wait-IsFlag os flag (suc n, e, f) =
      let waited = laws.wait-positive os s.handle n e in
      rw (wait_event-taken os waited.0, ← f, lt→ltb 0 (suc n) (omega arith))
        (refl, post-IsFlag (api.sem_wait os s.handle).0 n waited.1)

  reset_step :
      (os os' : api.Os) (n : ℕ)
      → api.sem_getvalue os s.handle ≡ n
      → reset_event api n os s ≡ reset_to os'
      → event_step api s os reset ≡ (os', no_result)
  unfolding event_step get_value reset_answer
  reset_step os os' n e ends =
      ap (λ turns. reset_answer api os (reset_event api turns os s)) e
      ∙ ap (reset_answer api os) ends

  reset-IsFlag :
      (os : api.Os) (flag : Bool)
      → IsFlag os flag
      → ((event_step api s os reset).1 ≡ no_result) × IsFlag (event_step api s os reset).0 false
  unfolding IsFlag
  reset-IsFlag os flag (n, e, f) =
      let ends = reset-ends n os e in
      rw (reset_step os ends.0 n (laws.getvalue-value os s.handle n e) ends.1) (refl, ends.2)

  event_step-flag_step :
      (os : api.Os) (flag : Bool) (op : EventOp)
      → IsFlag os flag
      → ((event_step api s os op).1 ≡ (flag_step flag op).1)
        × IsFlag (event_step api s os op).0 (flag_step flag op).0
  unfolding event_step flag_step notify_event IsFlag
  event_step-flag_step os flag notify (n, e, f) = (refl, post-IsFlag os n e)
  event_step-flag_step os flag wait_for_it h = wait-IsFlag os flag h
  event_step-flag_step os flag reset h = reset-IsFlag os flag h

  -- All sequences of calls of `notify`, `wait` and `reset` of a manual-reset event, by whatever
  -- threads, are answered as by a flag: once notified, the event lets every wait return until it is
  -- reset, and then none until it is notified again; the loop of `reset` ends after as many turns
  -- as the semaphore counts, without waiting. This also holds when the count reaches its maximum.
  pub answers-manual_reset :
      (ops : List EventOp) (os : api.Os) (n : ℕ)
      → laws.value os s.handle ≡ some n
      → answers (event_step api s) os ops ≡ answers flag_step (ltb 0 n) ops
  unfolding IsFlag
  answers-manual_reset ops os n e =
      answers-simulated (event_step api s) flag_step IsFlag event_step-flag_step ops os (ltb 0 n)
        (n, e, refl)
