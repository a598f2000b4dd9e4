-- ===== src/Synchronization/Semaphore.antt =====
-- include/oqpi/synchronization/posix/posix_semaphore.hpp, whose functions are those of
-- interface/interface_semaphore.hpp.
use oqpi.Base.{
  ℕ, zero, suc, ◌+◌, ◌<◌, ◌≤◌, ◌≡◌, refl, ap, inl, inr, Bool, true, false, Option, none, some, List,
  if◌then◌else◌, ltb, Bool-cases, ltb→lt, ltb→le, arith,
}
use oqpi.Base.Runs.{answers, answers-simulated}
use oqpi.Scheduling.Scheduler.{Build}
use oqpi.Synchronization.Api.{SemApi, SemLaws}
use oqpi.Synchronization.Wrapper.{
  CreationOption, Wrapper, make_wrapper, move_assign, post, try_wait, wait, wait_result,
}

-- A call of `notify` is with a count that is not negative: a negative one does nothing, as 0.
pub data SemaphoreOp : Type 0 where
  notify : ℕ → SemaphoreOp
  notify_all try_take take : SemaphoreOp

-- What a call returns. A `wait` that has not returned yet is `waiting`.
pub data SemaphoreReply : Type 0 where
  returned : Bool → SemaphoreReply
  waiting : SemaphoreReply
  no_result : SemaphoreReply

unfoldable pub take_reply : Option Bool → SemaphoreReply
take_reply none = waiting
take_reply (some b) = returned b

module _ (api : SemApi) where
  -- The fields of posix_semaphore.
  pub record Semaphore : Type 0 where
    pub max_count : ℕ
    pub sem : Wrapper api

  unfoldable pub make_semaphore :
      Build → api.Os → List ℕ → CreationOption → ℕ → ℕ → api.Os × Semaphore
  unfolding make_wrapper
  make_semaphore build os name option init_count max_count =
      let made = make_wrapper api build os name option init_count in
      (made.0, record { max_count = max_count; sem = made.1 })

  -- `*this` and `rhs` after the assignment, for two different objects. The count is taken also if
  -- the handle is not.
  unfoldable pub move_assign_semaphore : Semaphore → Semaphore → Semaphore × Semaphore
  unfolding move_assign
  move_assign_semaphore self rhs =
      let moved = move_assign api self.sem rhs.sem in
      (record { max_count = rhs.max_count; sem = moved.0 }, record rhs { sem = moved.1 })

  unfoldable pub notify_semaphore : ℕ → api.Os → Semaphore → api.Os
  unfolding post
  notify_semaphore zero os s = os
  notify_semaphore (suc count) os s = notify_semaphore count (post api os s.sem) s

  unfoldable pub semaphore_step : Semaphore → api.Os → SemaphoreOp → api.Os × SemaphoreReply
  unfolding notify_semaphore try_wait wait take_reply
  semaphore_step s os (notify count) = (notify_semaphore count os s, no_result)
  semaphore_step s os notify_all = (notify_semaphore s.max_count os s, no_result)
  semaphore_step s os try_take = ((try_wait api os s.sem).0, returned (try_wait api os s.sem).1)
  semaphore_step s os take = ((wait api os s.sem).0, take_reply (wait api os s.sem).1)

-- `n` and `count` together, or `limit` if that is less.
pub raised : ℕ → ℕ → ℕ → ℕ
raised limit n count = if ltb (n + count) limit then n + count else limit

raised-zero : (limit n : ℕ) → n ≤ limit → raised limit n 0 ≡ n
unfolding raised
raised-zero limit n fits = ground arith

raised-below :
    (limit n count : ℕ) → n < limit → raised limit n (suc count) ≡ raised limit (suc n) count
unfolding raised
raised-below limit n count below = ground arith

raised-full :
    (limit n count : ℕ) → limit ≤ n → n ≤ limit → raised limit n (suc count) ≡ raised limit n count
unfolding raised
raised-full limit n count full fits = ground arith

-- A counter. `limit` is the most that it counts, and `max_count` what `notify_all` adds.
pub counter_step : ℕ → ℕ → ℕ → SemaphoreOp → ℕ × SemaphoreReply
unfolding raised
counter_step limit max_count n (notify count) = (raised limit n count, no_result)
counter_step limit max_count n notify_all = (raised limit n max_count, no_result)
counter_step limit max_count zero try_take = (0, returned false)
counter_step limit max_count (suc n) try_take = (n, returned true)
counter_step limit max_count zero take = (0, waiting)
counter_step limit max_count (suc n) take = (n, returned true)

module _ (api : SemApi) (laws : SemLaws api) (s : Semaphore api) where
  pub Counts : api.Os → ℕ → Type 0
  Counts os n = (laws.value os s.sem.handle ≡ some n) × (n ≤ laws.sem_value_max)

  notify-Counts :
      (count : ℕ) (os : api.Os) (n : ℕ)
      → Counts os n
      → Counts (notify_semaphore api count os s) (raised laws.sem_value_max n count)
  unfolding notify_semaphore post raised Counts
  notify-Counts zero os n (e, fits) = rw (raised-zero laws.sem_value_max n fits) (e, fits)
  notify-Counts (suc count) os n (e, fits) = elim (Bool-cases (ltb n laws.sem_value_max)) [
    | inl is_below ↦
        let below = ltb→lt n laws.sem_value_max is_below in
        rw (raised-below laws.sem_value_max n count below) (
          notify-Counts count (api.sem_post os s.sem.handle).0 (suc n)
            (laws.post-below os s.sem.handle n e below, omega arith))
    | inr is_full ↦
        let full = ltb→le n laws.sem_value_max is_full in
        rw (raised-full laws.sem_value_max n count full fits) (
          notify-Counts count (api.sem_post os s.sem.handle).0 n
            (laws.post-overflow os s.sem.handle n e full, fits))
  ]

  try_take-Counts :
      (os : api.Os) (n : ℕ)
      → Counts os n
      → ((semaphore_step api s os try_take).1
          ≡ (counter_step laws.sem_value_max s.max_count n try_take).1)
        × Counts
            (semaphore_step api s os try_take).0
            (counter_step laws.sem_value_max s.max_count n try_take).0
  unfolding semaphore_step try_wait counter_step Counts
  try_take-Counts os zero (e, fits) =
      let waited = laws.trywait-zero os s.sem.handle e in (ap returned waited.0, (waited.1, fits))
  try_take-Counts os (suc n) (e, fits) =
      let waited = laws.trywait-positive os s.sem.handle n e in
      (ap returned waited.0, (waited.1, omega arith))

  take-Counts :
      (os : api.Os) (n : ℕ)
      → Counts os n
      → ((semaphore_step api s os take).1 ≡ (counter_step laws.sem_value_max s.max_count n take).1)
        × Counts
            (semaphore_step api s os take).0
            (counter_step laws.sem_value_max s.max_count n take).0
  unfolding semaphore_step wait wait_result take_reply counter_step Counts
  take-Counts os zero (e, fits) =
      let waited = laws.wait-zero os s.sem.handle e in
      (ap (λ w. take_reply (wait_result w)) waited.0, (waited.1, fits))
  take-Counts os (suc n) (e, fits) =
      let waited = laws.wait-positive os s.sem.handle n e in
      (ap (λ w. take_reply (wait_result w)) waited.0, (waited.1, omega arith))

  semaphore_step-counter_step :
      (os : api.Os) (n : ℕ) (op : SemaphoreOp)
      → Counts os n
      → ((semaphore_step api s os op).1 ≡ (counter_step laws.sem_value_max s.max_count n op).1)
        × Counts (semaphore_step api s os op).0 (counter_step laws.sem_value_max s.max_count n op).0
  unfolding semaphore_step counter_step
  semaphore_step-counter_step os n (notify count) h = (refl, notify-Counts count os n h)
  semaphore_step-counter_step os n notify_all h = (refl, notify-Counts s.max_count os n h)
  semaphore_step-counter_step os n try_take h = try_take-Counts os n h
  semaphore_step-counter_step os n take h = take-Counts os n h

  -- All sequences of calls of `notify`, `notifyAll`, `tryWait` and `wait` of a semaphore, by
  -- whatever threads, are answered as by a counter: each wait takes one and returns true, and at 0
  -- `tryWait` returns false and `wait` waits; `notify` adds its count and `notifyAll` the maximum
  -- of the semaphore. The counter stops at SEM_VALUE_MAX, and not at the maximum of the semaphore.
  pub answers-semaphore :
      (ops : List SemaphoreOp) (os : api.Os) (n : ℕ)
      → laws.value os s.sem.handle ≡ some n
      → n ≤ laws.sem_value_max
      → answers (semaphore_step api s) os ops
        ≡ answers (counter_step laws.sem_value_max s.max_count) n ops
  unfolding Counts
  answers-semaphore ops os n e fits =
      answers-simulated (semaphore_step api s) (counter_step laws.sem_value_max s.max_count) Counts
        semaphore_step-counter_step ops os n (e, fits)
