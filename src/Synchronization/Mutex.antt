-- ===== src/Synchronization/Mutex.antt =====
-- include/oqpi/synchronization/posix/posix_mutex.hpp, whose functions are those of
-- interface/interface_mutex.hpp.
use oqpi.Base.{ℕ, ◌≡◌, refl, Bool, true, false, Option, none, some, List, [], if◌then◌else◌, leb}
use oqpi.Base.Runs.{answers, answers-simulated}
use oqpi.Scheduling.Scheduler.{Build}
use oqpi.Synchronization.Api.{SemApi, SemLaws}
use oqpi.Synchronization.Wrapper.{
  CreationOption, Wrapper, make_wrapper, move_assign, release, post, try_wait, wait, wait_for,
  get_value, wait_result,
}

pub data MutexOp : Type 0 where
  lock try_lock unlock : MutexOp

-- What a call returns. A `lock` that waits has not returned yet.
pub data MutexReply : Type 0 where
  returned : Bool → MutexReply
  waiting : MutexReply
  no_result : MutexReply

unfoldable pub lock_reply : Option Bool → MutexReply
lock_reply none = waiting
lock_reply (some b) = returned b

unfoldable pub init_count : Bool → ℕ
init_count lock_on_creation = if lock_on_creation then 0 else 1

module _ (api : SemApi) where
  -- `sem_` starts out empty and is assigned a temporary, which is destroyed.
  unfoldable pub make_mutex : Build → api.Os → List ℕ → CreationOption → Bool → api.Os × Wrapper api
  unfolding init_count make_wrapper move_assign release
  make_mutex build os name option lock_on_creation =
      let made = make_wrapper api build os name option (init_count lock_on_creation) in
      let assigned = move_assign api (record { handle = api.null; name = [] }) made.1 in
      ((release api made.0 assigned.1).0, assigned.0)

  unfoldable pub lock_mutex : api.Os → Wrapper api → api.Os × Option Bool
  unfolding wait
  lock_mutex os s = wait api os s

  unfoldable pub try_lock_mutex : api.Os → Wrapper api → api.Os × Bool
  unfolding try_wait
  try_lock_mutex os s = try_wait api os s

  unfoldable pub try_lock_for : api.Os → Wrapper api → ℕ → api.Os × Option Bool
  unfolding wait_for
  try_lock_for os s nanoseconds = wait_for api os s nanoseconds

  unfoldable pub unlock_mutex : api.Os → Wrapper api → api.Os
  unfolding get_value post
  unlock_mutex os s = if leb 1 (get_value api os s) then os else post api os s

  unfoldable pub mutex_step : Wrapper api → api.Os → MutexOp → api.Os × MutexReply
  unfolding lock_mutex try_lock_mutex unlock_mutex lock_reply
  mutex_step s os lock = ((lock_mutex os s).0, lock_reply (lock_mutex os s).1)
  mutex_step s os try_lock = ((try_lock_mutex os s).0, returned (try_lock_mutex os s).1)
  mutex_step s os unlock = (unlock_mutex os s, no_result)

-- A lock that is held or not.
pub lock_step : Bool → MutexOp → Bool × MutexReply
lock_step held lock = (true, if held then waiting else returned true)
lock_step held try_lock = (true, if held then returned false else returned true)
lock_step held unlock = (false, no_result)

module _ (api : SemApi) (laws : SemLaws api) (s : Wrapper api) where
  pub IsMutex : api.Os → Bool → Type 0
  IsMutex os held = laws.value os s.handle ≡ some (init_count held)

  unlock-IsMutex :
      (os : api.Os) (held : Bool) → IsMutex os held → IsMutex (unlock_mutex api os s) false
  unfolding unlock_mutex get_value post IsMutex init_count
  unlock-IsMutex os true e =
      rw (laws.getvalue-value os s.handle 0 e) (laws.post-below os s.handle 0 e laws.max-positive)
  unlock-IsMutex os false e = rw (laws.getvalue-value os s.handle 1 e) e

  lock-IsMutex :
      (os : api.Os) (held : Bool)
      → IsMutex os held
      → (lock_reply (lock_mutex api os s).1 ≡ (if held then waiting else returned true))
        × IsMutex (lock_mutex api os s).0 true
  unfolding lock_mutex wait wait_result lock_reply IsMutex init_count
  lock-IsMutex os true e = let zero = laws.wait-zero os s.handle e in (rw (zero.0) refl, zero.1)
  lock-IsMutex os false e =
      let positive = laws.wait-positive os s.handle 0 e in (rw (positive.0) refl, positive.1)

  try_lock-IsMutex :
      (os : api.Os) (held : Bool)
      → IsMutex os held
      → ((try_lock_mutex api os s).1 ≡ (if held then false else true))
        × IsMutex (try_lock_mutex api os s).0 true
  unfolding try_lock_mutex try_wait IsMutex init_count
  try_lock-IsMutex os true e = laws.trywait-zero os s.handle e
  try_lock-IsMutex os false e = laws.trywait-positive os s.handle 0 e

  mutex_step-lock_step :
      (os : api.Os) (held : Bool) (op : MutexOp)
      → IsMutex os held
      → ((mutex_step api s os op).1 ≡ (lock_step held op).1)
        × IsMutex (mutex_step api s os op).0 (lock_step held op).0
  unfolding mutex_step lock_step
  mutex_step-lock_step os held lock e = lock-IsMutex os held e
  mutex_step-lock_step os true try_lock e =
      let kept = try_lock-IsMutex os true e in (rw (kept.0) refl, kept.1)
  mutex_step-lock_step os false try_lock e =
      let kept = try_lock-IsMutex os false e in (rw (kept.0) refl, kept.1)
  mutex_step-lock_step os held unlock e = (refl, unlock-IsMutex os held e)

  -- On a semaphore of value 1, or 0 for a mutex that is locked from the start, all sequences of
  -- calls of the mutex's functions, by whatever threads, are answered as by a lock that is held
  -- or not: never two callers hold it, `lock` waits and `tryLock` fails just while it is held, and
  -- to unlock it more often than it was locked has no effect.
  pub answers-mutex :
      (ops : List MutexOp) (os : api.Os) (held : Bool)
      → laws.value os s.handle ≡ some (init_count held)
      → answers (mutex_step api s) os ops ≡ answers lock_step held ops
  unfolding IsMutex
  answers-mutex = answers-simulated (mutex_step api s) lock_step IsMutex mutex_step-lock_step
