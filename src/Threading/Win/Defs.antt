-- ===== src/Threading/Win/Defs.antt =====
-- include/oqpi/threading/win_thread.hpp: a thread object is its handle, 0 for null, and its id. The
-- calls of the Windows API are a parameter. Messages, and checks that only print, are left out.
use oqpi.Base.{
  ℕ, zero, suc, ◌+◌, ◌*◌, ◌%◌, ◌^◌, Bool, true, false, not, ◌&&◌, Option, none, some, List,
  if◌then◌else◌, ◌==◌,
}
use oqpi.Scheduling.Scheduler.{Build, ensure}
use oqpi.Threading.Attributes.{
  ThreadPriority, lowest, below_normal, normal, above_normal, highest, time_critical, count,
  priority_of, ThreadAttributes,
}

-- The THREAD_PRIORITY constants that the code names, and any other value.
pub data Level : Type 0 where
  lowest_level below_normal_level normal_level above_normal_level highest_level
        time_critical_level :
      Level
  other_level : ℕ → Level

unfoldable pub level_number : Level → ℕ
level_number lowest_level = 0
level_number below_normal_level = 1
level_number normal_level = 2
level_number above_normal_level = 3
level_number highest_level = 4
level_number time_critical_level = 5
level_number (other_level n) = 6 + n

-- `create_thread` returns the handle and the id, `get_priority_of` none for
-- THREAD_PRIORITY_ERROR_RETURN, `set_affinity` the mask before, 0 if it fails, and whether
-- GetLastError is ERROR_INVALID_PARAMETER, and `to_wide` is mbstowcs_s, cut to the buffer of 256. The
-- others return whether they have not failed.
pub record WinThreadApi : Type 1 where
  pub Os : Type 0
  pub active_processors : ℕ
  pub current_thread_id : Os → ℕ
  pub current_thread : ℕ
  pub create_thread : Os → ℕ → Os × ℕ × ℕ
  pub wait_infinite : Os → ℕ → Os × Bool
  pub close_handle : Os → ℕ → Os × Bool
  pub terminate_thread : Os → ℕ → Os × Bool
  pub cancel_synchronous_io : Os → ℕ → Os
  pub set_priority_of : Os → ℕ → Level → Os
  pub get_priority_of : Os → ℕ → Option Level
  pub set_affinity : Os → ℕ → ℕ → Os × ℕ × Bool
  pub to_wide : List ℕ → List ℕ
  pub set_description : Os → ℕ → List ℕ → Os

pub record WinThread : Type 0 where
  pub handle : ℕ
  pub id : ℕ

abbrev pub no_thread : WinThread
no_thread = record { handle = 0; id = 0 }

abbrev pub is_none : WinThread → Bool
is_none t = t.handle == 0 && t.id == 0

-- `*this` and `rhs` after the assignment, for two different objects; the new object and `other`
-- after the construction.
unfoldable pub move_assign_win_thread : Build → WinThread → WinThread → WinThread × WinThread
move_assign_win_thread build self rhs =
    if ensure build (is_none self) then (rhs, no_thread) else (self, rhs)

unfoldable pub move_construct_win_thread : WinThread → WinThread × WinThread
move_construct_win_thread other = (other, no_thread)

unfoldable pub win_thread_priority : ThreadPriority → Level
win_thread_priority lowest = lowest_level
win_thread_priority below_normal = below_normal_level
win_thread_priority normal = normal_level
win_thread_priority above_normal = above_normal_level
win_thread_priority highest = highest_level
win_thread_priority time_critical = time_critical_level

-- The loop over the priorities from `i` on, of which there are `tries`.
unfoldable pub find_priority : ℕ → ℕ → Level → ThreadPriority
unfolding win_thread_priority priority_of level_number
find_priority zero i level = normal
find_priority (suc tries) i level =
    let further = find_priority tries (suc i) level in
    elim (priority_of i) [
      | none ↦ normal
      | some p ↦ if level_number level == level_number (win_thread_priority p) then p else further
    ]

module _ (api : WinThreadApi) where
  unfoldable pub set_win_priority : api.Os → ℕ → ThreadPriority → api.Os
  unfolding win_thread_priority
  set_win_priority os handle priority = api.set_priority_of os handle (win_thread_priority priority)

  unfoldable pub get_win_priority : api.Os → ℕ → ThreadPriority
  unfolding find_priority
  get_win_priority os handle = elim (api.get_priority_of os handle) [
    | none ↦ normal
    | some level ↦ find_priority count 0 level
  ]

  unfoldable pub set_win_affinity : api.Os → ℕ → ℕ → api.Os
  set_win_affinity os handle mask = (api.set_affinity os handle mask).0

  unfoldable pub set_win_name : api.Os → ℕ → List ℕ → api.Os
  set_win_name os handle name = api.set_description os handle (api.to_wide name)

  unfoldable pub cancel_win_io : api.Os → WinThread → api.Os
  cancel_win_io os t = api.cancel_synchronous_io os t.handle

  -- The loop of `get_core_affinity_mask`; `turns` is more than the shifts that a mask of 64 bits
  -- survives.
  unfoldable pub affinity_loop : ℕ → api.Os → ℕ → ℕ → api.Os × ℕ
  affinity_loop zero os handle mask = (os, 0)
  affinity_loop (suc turns) os handle mask =
      let (os', previous, invalid) = api.set_affinity os handle mask in
      let further = affinity_loop turns os' handle (mask * 2 % 2 ^ 64) in
      if mask == 0
      then (os, 0)
      else if not (previous == 0)
      then ((api.set_affinity os' handle previous).0, previous)
      else if not invalid
      then (os', 0)
      else further

  unfoldable pub get_win_affinity : api.Os → ℕ → api.Os × ℕ
  unfolding affinity_loop
  get_win_affinity os handle =
      let found = affinity_loop 65 os handle 1 in (found.0, found.1 % 2 ^ 32)

  -- `create`: whether a thread was made, and the object.
  unfoldable pub create_win_thread : api.Os → ThreadAttributes → api.Os × Bool × WinThread
  unfolding set_win_priority set_win_affinity
  create_win_thread os attributes =
      let (os', handle, id) = api.create_thread os attributes.stack_size in
      if handle == 0 then (os', false, record { handle = handle; id = id }) else (
        set_win_affinity (set_win_priority os' handle attributes.priority) handle
            attributes.core_affinity_mask,
        true,
        record { handle = handle; id = id },
      )

  unfoldable pub detach_win_thread : api.Os → WinThread → api.Os × WinThread
  detach_win_thread os t =
      let closed = api.close_handle os t.handle in
      if t.handle == 0 then (os, t) else if closed.1 then (closed.0, no_thread) else (closed.0, t)

  unfoldable pub join_win_thread : api.Os → WinThread → api.Os × WinThread
  unfolding detach_win_thread
  join_win_thread os t =
      let waited = api.wait_infinite os t.handle in
      if t.handle == 0
      then (os, t)
      else if t.id == api.current_thread_id os
      then (os, t)
      else if waited.1
      then detach_win_thread waited.0 t
      else (waited.0, t)

  unfoldable pub terminate_win_thread : api.Os → WinThread → api.Os × WinThread
  terminate_win_thread os t =
      let ended = api.terminate_thread os t.handle in
      if t.handle == 0 then (os, t) else if ended.1 then (ended.0, no_thread) else (ended.0, t)
