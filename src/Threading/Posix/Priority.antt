-- ===== src/Threading/Posix/Priority.antt =====
-- The priority of a posix thread, as Linux has it: the round-robin priorities go from 1 to 99.
use oqpi.Base.{ℕ, ◌≤◌, ◌≡◌, refl, some, arith}
use oqpi.Threading.Attributes.{
  ThreadPriority, lowest, below_normal, normal, above_normal, highest, time_critical,
}
use oqpi.Threading.Posix.Defs.{
  PosixApi, posix_thread_priority, priority_steps, priority_of_posix, set_priority, get_priority,
}

module _ (api : PosixApi) (least : api.min_priority ≡ 1) (most : api.max_priority ≡ 99) where
  round_trip : (p : ThreadPriority) → priority_of_posix api (posix_thread_priority api p) ≡ some p
  unfolding priority_of_posix posix_thread_priority priority_steps
  round_trip lowest = rw (least, most) refl
  round_trip below_normal = rw (least, most) refl
  round_trip normal = rw (least, most) refl
  round_trip above_normal = rw (least, most) refl
  round_trip highest = rw (least, most) refl
  round_trip time_critical = rw (least, most) refl

  in_range :
      (p : ThreadPriority) → (1 ≤ posix_thread_priority api p) × (posix_thread_priority api p ≤ 99)
  unfolding posix_thread_priority
  in_range lowest = rw (least, most) (omega arith, omega arith)
  in_range below_normal = rw (least, most) (omega arith, omega arith)
  in_range normal = rw (least, most) (omega arith, omega arith)
  in_range above_normal = rw (least, most) (omega arith, omega arith)
  in_range highest = rw (least, most) (omega arith, omega arith)
  in_range time_critical = rw (least, most) (omega arith, omega arith)

  -- On a system whose round-robin priorities are those of Linux, 1 to 99, for a thread on which each
  -- of these is read back when it has been set: `getPriority` after `setPriority` is the priority
  -- that was set, for each of the six, with the rounding of the floats in between.
  pub get_priority-set_priority :
      (os : api.Os) (handle : ℕ) (p : ThreadPriority)
      → ((q : ℕ)
          → 1 ≤ q
          → q ≤ 99
          → api.get_sched_param (api.set_sched_prio os handle q) handle ≡ some q)
      → get_priority api (set_priority api os handle p) handle ≡ some p
  unfolding get_priority set_priority
  get_priority-set_priority os handle p reads =
      let (low, high) = in_range p in
      rw (reads (posix_thread_priority api p) low high, get_priority) (round_trip p)

  -- On the same system a thread of the default policy, whose priority is 0 and which refuses another,
  -- is read as of the lowest priority, whatever was set.
  pub get_priority_default :
      (os : api.Os) (handle : ℕ) (p : ThreadPriority)
      → ((q : ℕ) → api.set_sched_prio os handle q ≡ os)
      → api.get_sched_param os handle ≡ some 0
      → get_priority api (set_priority api os handle p) handle ≡ some lowest
  unfolding get_priority set_priority priority_of_posix priority_steps
  get_priority_default os handle p refused plain =
      rw (refused (posix_thread_priority api p), plain, get_priority, least, most) refl
