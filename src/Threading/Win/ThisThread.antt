-- ===== src/Threading/Win/ThisThread.antt =====
-- include/oqpi/threading/win_thread.hpp, namespace this_thread: what a thread does with itself.
use oqpi.Base.{ℕ, ◌%◌, ◌^◌, List}
use oqpi.Threading.Attributes.{ThreadPriority}
use oqpi.Threading.Win.Defs.{WinThreadApi, set_win_name, set_win_priority, set_win_affinity}

-- `sleep_for`: the milliseconds that SleepEx is given, cut to 32 bits.
unfoldable pub win_sleep_for : ℕ → ℕ
win_sleep_for milliseconds = milliseconds % 2 ^ 32

module _ (api : WinThreadApi) where
  unfoldable pub set_own_win_name : api.Os → List ℕ → api.Os
  unfolding set_win_name
  set_own_win_name os name = set_win_name api os api.current_thread name

  unfoldable pub set_own_win_priority : api.Os → ThreadPriority → api.Os
  unfolding set_win_priority
  set_own_win_priority os priority = set_win_priority api os api.current_thread priority

  unfoldable pub set_own_win_affinity : api.Os → ℕ → api.Os
  unfolding set_win_affinity
  set_own_win_affinity os mask = set_win_affinity api os api.current_thread mask
