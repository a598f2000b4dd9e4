-- ===== src/Threading/Win/Priority.antt =====
-- The priority of a thread on Windows.
use oqpi.Base.{ℕ, ◌≡◌, refl, some}
use oqpi.Threading.Attributes.{
  ThreadPriority, lowest, below_normal, normal, above_normal, highest, time_critical, count,
  priority_of,
}
use oqpi.Threading.Win.Defs.{
  WinThreadApi, Level, level_number, win_thread_priority, find_priority, set_win_priority,
  get_win_priority,
}

found : (p : ThreadPriority) → find_priority count 0 (win_thread_priority p) ≡ p
unfolding find_priority win_thread_priority level_number priority_of
found lowest = refl
found below_normal = refl
found normal = refl
found above_normal = refl
found highest = refl
found time_critical = refl

-- Where the level that is set is the one that is read, `getPriority` after `setPriority` is the
-- priority that was set, for each of the six.
get_win_priority-set_win_priority :
    (api : WinThreadApi) (os : api.Os) (handle : ℕ) (p : ThreadPriority)
    → ((level : Level)
        → api.get_priority_of (api.set_priority_of os handle level) handle ≡ some level)
    → get_win_priority api (set_win_priority api os handle p) handle ≡ p
unfolding get_win_priority set_win_priority
get_win_priority-set_win_priority api os handle p reads =
    rw (reads (win_thread_priority p), get_win_priority) (found p)
