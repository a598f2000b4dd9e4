-- ===== src/Synchronization/Deadline.antt =====
-- posix_semaphore_wrapper.hpp: the time that waitFor passes on.
use oqpi.Base.{ℕ, ◌+◌, ◌*◌, ◌/◌, ◌%◌, ◌≤◌, ◌≡◌, refl, false, some, arith}
use oqpi.Synchronization.Api.{SemApi, SemLaws, failed}
use oqpi.Synchronization.Wrapper.{Wrapper, billion, wait_for, wait_result}

-- A time of `timespec` in nanoseconds.
pub in_nanoseconds : ℕ × ℕ → ℕ
in_nanoseconds t = t.0 * billion + t.1

-- Without a clock `waitFor` fails. With one, the time that it passes to `sem_timedwait` is the
-- present and the duration taken together, whatever the two are.
wait_for-deadline :
    (api : SemApi) (os : api.Os) (s : Wrapper api) (now : ℕ × ℕ) (nanoseconds : ℕ)
    → api.clock_gettime os ≡ some now
    → (deadline : ℕ × ℕ) × (in_nanoseconds deadline ≡ in_nanoseconds now + nanoseconds)
      × (wait_for api os s nanoseconds ≡ (
        (api.sem_timedwait os s.handle deadline.0 deadline.1).0,
        wait_result (api.sem_timedwait os s.handle deadline.0 deadline.1).1,
      ))
unfolding wait_for in_nanoseconds
wait_for-deadline api os s now nanoseconds e = (
  (now.0 + nanoseconds / billion, now.1 + nanoseconds % billion),
  omega arith,
  rw (e, wait_for) refl,
)

-- But its nanoseconds are not carried over into its seconds. `sem_timedwait` refuses a time with a
-- billion nanoseconds or more when it would have to wait: so for every duration whose nanoseconds
-- make up a second with those of the present, `waitFor` returns false at once on a semaphore that
-- counts 0, however long it was to wait.
pub wait_for-carry :
    (api : SemApi) (laws : SemLaws api) (os : api.Os) (s : Wrapper api) (now : ℕ × ℕ)
    (nanoseconds : ℕ)
    → ((os : api.Os) (p : api.Ptr) (secs nanos : ℕ)
        → laws.value os p ≡ some 0
        → billion ≤ nanos
        → api.sem_timedwait os p secs nanos ≡ (os, failed))
    → api.clock_gettime os ≡ some now
    → laws.value os s.handle ≡ some 0
    → billion ≤ now.1 + nanoseconds % billion
    → wait_for api os s nanoseconds ≡ (os, some false)
unfolding wait_for wait_result
wait_for-carry api laws os s now nanoseconds refuses e zero carry =
    rw
      (
        e,
        wait_for,
        refuses os s.handle (now.0 + nanoseconds / billion) (now.1 + nanoseconds % billion) zero
            carry,
      )
      refl
