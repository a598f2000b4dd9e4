-- ===== src/Synchronization/WinLaws.antt =====
-- win_semaphore.hpp: a counter with a maximum.
use oqpi.Base.{
  ℕ, zero, suc, ◌+◌, ◌≡◌, refl, ap, inl, inr, true, false, none, some, List, if◌then◌else◌, ltb,
  Bool-cases, ltb→lt, ltb→le, arith,
}
use oqpi.Base.Runs.{answers, answers-simulated}
use oqpi.Synchronization.Semaphore.{
  SemaphoreOp, notify, notify_all, try_take, take, SemaphoreReply, returned, waiting, no_result,
  take_reply,
}
use oqpi.Synchronization.WinSemaphore.{
  WinApi, WinLaws, WinSemaphore, is_object_0, win_step, notify_win, notify_all_win, try_wait_win,
  wait_win, internal_wait,
}

-- All of `count` is added, or nothing.
pub raised_whole : ℕ → ℕ → ℕ → ℕ
raised_whole limit n count = if ltb limit (n + count) then n else n + count

pub bounded_step : ℕ → ℕ → ℕ → SemaphoreOp → ℕ × SemaphoreReply
unfolding raised_whole
bounded_step limit max_count n (notify count) = (raised_whole limit n count, no_result)
bounded_step limit max_count n notify_all = (raised_whole limit n max_count, no_result)
bounded_step limit max_count zero try_take = (0, returned false)
bounded_step limit max_count (suc n) try_take = (n, returned true)
bounded_step limit max_count zero take = (0, waiting)
bounded_step limit max_count (suc n) take = (n, returned true)

module _ (api : WinApi) (laws : WinLaws api) (s : WinSemaphore api) where
  pub HasCount : api.Os → ℕ → Type 0
  HasCount os n = laws.value os s.handle ≡ some n

  notify-HasCount :
      (os : api.Os) (n count : ℕ)
      → HasCount os n
      → HasCount (notify_win api os s count) (raised_whole laws.maximum n count)
  unfolding notify_win raised_whole HasCount
  notify-HasCount os n count e = elim (Bool-cases (ltb laws.maximum (n + count))) [
    | inl over ↦
        rw over (laws.release-exceeds os s.handle n count e (ltb→lt laws.maximum (n + count) over))
    | inr fits ↦
        rw fits (laws.release-fits os s.handle n count e (ltb→le laws.maximum (n + count) fits))
  ]

  take-HasCount :
      (os : api.Os) (n : ℕ)
      → HasCount os n
      → ((win_step api s os take).1 ≡ (bounded_step laws.maximum s.max_count n take).1)
        × HasCount (win_step api s os take).0 (bounded_step laws.maximum s.max_count n take).0
  unfolding win_step wait_win internal_wait is_object_0 take_reply bounded_step HasCount
  take-HasCount os zero e =
      let waited = laws.wait-infinite os s.handle e in
      (ap (λ w. take_reply (is_object_0 w)) waited.0, waited.1)
  take-HasCount os (suc n) e =
      let waited = laws.wait-positive os s.handle n none e in
      (ap (λ w. take_reply (is_object_0 w)) waited.0, waited.1)

  try_take-HasCount :
      (os : api.Os) (n : ℕ)
      → HasCount os n
      → ((win_step api s os try_take).1 ≡ (bounded_step laws.maximum s.max_count n try_take).1)
        × HasCount
            (win_step api s os try_take).0
            (bounded_step laws.maximum s.max_count n try_take).0
  unfolding win_step try_wait_win internal_wait is_object_0 take_reply bounded_step HasCount
  try_take-HasCount os zero e =
      let waited = laws.wait-none os s.handle e in
      (ap (λ w. take_reply (is_object_0 w)) waited.0, waited.1)
  try_take-HasCount os (suc n) e =
      let waited = laws.wait-positive os s.handle n (some 0) e in
      (ap (λ w. take_reply (is_object_0 w)) waited.0, waited.1)

  win_step-bounded_step :
      (os : api.Os) (n : ℕ) (op : SemaphoreOp)
      → HasCount os n
      → ((win_step api s os op).1 ≡ (bounded_step laws.maximum s.max_count n op).1)
        × HasCount (win_step api s os op).0 (bounded_step laws.maximum s.max_count n op).0
  unfolding win_step bounded_step notify_all_win
  win_step-bounded_step os n (notify count) e = (refl, notify-HasCount os n count e)
  win_step-bounded_step os n notify_all e = (refl, notify-HasCount os n s.max_count e)
  win_step-bounded_step os n try_take e = try_take-HasCount os n e
  win_step-bounded_step os n take e = take-HasCount os n e

  -- All sequences of calls of `notify`, `notifyAll`, `tryWait` and `wait` of a semaphore on Windows,
  -- by whatever threads, are answered as by a counter with the maximum of the system's object: each
  -- wait takes one and returns true, and at 0 `tryWait` returns false and `wait` waits; `notify`
  -- adds its whole count, or nothing if that would pass the maximum.
  pub answers-win_semaphore :
      (ops : List SemaphoreOp) (os : api.Os) (n : ℕ)
      → laws.value os s.handle ≡ some n
      → answers (win_step api s) os ops ≡ answers (bounded_step laws.maximum s.max_count) n ops
  unfolding HasCount
  answers-win_semaphore =
      answers-simulated (win_step api s) (bounded_step laws.maximum s.max_count) HasCount
        win_step-bounded_step

  -- `notifyAll`, whose count is the maximum of the semaphore, adds nothing at all to a count above 0.
  pub notify_all_win-refused :
      (os : api.Os) (n : ℕ)
      → laws.maximum ≡ s.max_count
      → laws.value os s.handle ≡ some (suc n)
      → laws.value (notify_all_win api os s) s.handle ≡ some (suc n)
  unfolding notify_all_win notify_win
  notify_all_win-refused os n bound e =
      laws.release-exceeds os s.handle (suc n) s.max_count e (rw bound (omega arith))
