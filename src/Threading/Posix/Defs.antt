-- ===== src/Threading/Posix/Defs.antt =====
-- include/oqpi/threading/posix_thread.hpp: a thread object is its handle, 0 for no thread. The calls
-- of pthread.h and of the system are a parameter. Messages, and checks that only print, are left out.
use oqpi.Base.{
  ℕ, ◌-◌, ◌%◌, ◌^◌, Bool, true, false, not, Option, none, some, List, ltb, ◌==◌, if◌then◌else◌,
}
use oqpi.Base.Float.{of_int, add_float, mul_float, div_float, ceil, truncated}
use oqpi.Scheduling.Scheduler.{Build, ensure}
use oqpi.Threading.Attributes.{
  ThreadPriority, normal, count, priority_number, priority_of, ThreadAttributes,
}

-- `Attr` is pthread_attr_t; a setter that fails returns the attributes as they are then, since the
-- code only prints the error. `init` is none where pthread_attr_init fails. The priorities of the
-- round-robin policy are from `min_priority` to `max_priority`. `create` returns whether it has
-- made a thread, and the variable of the handle, of which the manual says nothing when it has not.
-- The others that can fail return whether they have done it; `get_sched_param` and `get_affinity`
-- are none on an error.
pub record PosixApi : Type 1 where
  pub Os : Type 0
  pub Attr : Type 0
  pub self : Os → ℕ
  pub logical_processors : ℕ
  pub min_priority : ℕ
  pub max_priority : ℕ
  pub init : Option Attr
  pub set_detach_state_joinable : Attr → Attr
  pub set_sched_policy_rr : Attr → Attr
  pub set_sched_param : Attr → ℕ → Attr
  pub set_inherit_sched_explicit : Attr → Attr
  pub set_stack_size : Attr → ℕ → Attr
  pub rtprio_limit : Os → ℕ
  pub create : Os → Option Attr → ℕ → Os × Bool × ℕ
  pub destroy : Os → Attr → Os
  pub join : Os → ℕ → Os × Bool
  pub detach : Os → ℕ → Os × Bool
  pub cancel : Os → ℕ → Os × Bool
  pub set_affinity : Os → ℕ → ℕ → Os
  pub get_affinity : Os → ℕ → Option ℕ
  pub set_sched_prio : Os → ℕ → ℕ → Os
  pub get_sched_param : Os → ℕ → Option ℕ
  pub set_name_of : Os → ℕ → List ℕ → Os

module _ (api : PosixApi) where
  -- The share of a priority in the range from 0 to 1, and with it the range of the system, as floats.
  unfoldable pub posix_thread_priority : ThreadPriority → ℕ
  unfolding priority_number of_int div_float mul_float add_float ceil
  posix_thread_priority priority =
      let share = div_float (of_int (priority_number priority)) (of_int (count - 1)) in
      let scaled = mul_float share (of_int (api.max_priority - api.min_priority)) in
      ceil (add_float (of_int api.min_priority) scaled)

  -- The number of steps of a priority above the least one, or below it, cut to an integer.
  unfoldable pub priority_steps : ℕ → ℕ
  unfolding of_int div_float mul_float truncated
  priority_steps distance =
      let share = div_float (of_int distance) (of_int (api.max_priority - api.min_priority)) in
      truncated (mul_float share (of_int (count - 1)))

  -- The cast of the product to thread_priority, none where it is no enumerator.
  unfoldable pub priority_of_posix : ℕ → Option ThreadPriority
  unfolding priority_steps priority_of
  priority_of_posix q =
      if ltb q api.min_priority
      then (if priority_steps (api.min_priority - q) == 0 then priority_of 0 else none)
      else priority_of (priority_steps (q - api.min_priority))

  unfoldable pub set_priority : api.Os → ℕ → ThreadPriority → api.Os
  unfolding posix_thread_priority
  set_priority os handle priority = api.set_sched_prio os handle (posix_thread_priority priority)

  unfoldable pub get_priority : api.Os → ℕ → Option ThreadPriority
  unfolding priority_of_posix
  get_priority os handle = elim (api.get_sched_param os handle) [
    | none ↦ some normal
    | some q ↦ priority_of_posix q
  ]

  -- The four bytes of the mask are the first of the set of cores.
  unfoldable pub set_core_affinity_mask : api.Os → ℕ → ℕ → api.Os
  set_core_affinity_mask os handle mask = api.set_affinity os handle mask

  -- None where the set of cores is read though nothing has been written to it.
  unfoldable pub get_core_affinity_mask : api.Os → ℕ → Option ℕ
  get_core_affinity_mask os handle = elim (api.get_affinity os handle) [
    | none ↦ none
    | some cores ↦ some (cores % 2 ^ 32)
  ]

  unfoldable pub set_name : api.Os → ℕ → List ℕ → api.Os
  set_name os handle name = api.set_name_of os handle name

  -- The attributes that `create` passes on, none for the null pointer.
  unfoldable pub scheduled : api.Os → ThreadAttributes → api.Attr → api.Attr
  unfolding posix_thread_priority
  scheduled os attributes attr =
      if not (api.rtprio_limit os == 0)
      then api.set_inherit_sched_explicit
          (api.set_sched_param attr (posix_thread_priority attributes.priority))
      else attr

  unfoldable pub sized : ThreadAttributes → api.Attr → api.Attr
  sized attributes attr =
      if ltb 0 attributes.stack_size then api.set_stack_size attr attributes.stack_size else attr

  unfoldable pub thread_attr : api.Os → ThreadAttributes → Option api.Attr
  unfolding scheduled sized
  thread_attr os attributes = elim api.init [
    | none ↦ none
    | some attr ↦ some (
        sized attributes
          (scheduled os attributes (api.set_sched_policy_rr (api.set_detach_state_joinable attr))))
  ]

  unfoldable pub destroy_attr : api.Os → Option api.Attr → api.Os
  destroy_attr os none = os
  destroy_attr os (some attr) = api.destroy os attr

  -- `create`: whether a thread was made, and the handle.
  unfoldable pub create : api.Os → ℕ → ThreadAttributes → api.Os × Bool × ℕ
  unfolding thread_attr destroy_attr set_core_affinity_mask
  create os handle attributes =
      let attr = thread_attr os attributes in
      let (os', made, handle') = api.create os attr handle in
      if made
      then (
        set_core_affinity_mask (destroy_attr os' attr) handle' attributes.core_affinity_mask,
        true,
        handle',
      )
      else (os', false, handle')

  -- The state of the system and of the handle after the call.
  unfoldable pub join_thread : api.Os → ℕ → api.Os × ℕ
  join_thread os handle =
      let joined = api.join os handle in
      if handle == 0
      then (os, handle)
      else if handle == api.self os
      then (os, handle)
      else if joined.1
      then (joined.0, 0)
      else (joined.0, handle)

  unfoldable pub detach_thread : api.Os → ℕ → api.Os × ℕ
  detach_thread os handle =
      let detached = api.detach os handle in
      if handle == 0
      then (os, handle)
      else if detached.1
      then (detached.0, 0)
      else (detached.0, handle)

  unfoldable pub terminate_thread : api.Os → ℕ → api.Os × ℕ
  terminate_thread os handle =
      let cancelled = api.cancel os handle in
      if handle == 0
      then (os, handle)
      else if cancelled.1
      then (cancelled.0, 0)
      else (cancelled.0, handle)

-- The handles of the new object and of `other`.
unfoldable pub move_construct : ℕ → ℕ × ℕ
move_construct other = (other, 0)

-- The handles of `*this` and of `rhs`, for two different objects.
unfoldable pub move_assign : Build → ℕ → ℕ → ℕ × ℕ
move_assign build self rhs = if ensure build (self == 0) then (rhs, 0) else (self, rhs)

unfoldable pub joinable : ℕ → Bool
joinable handle = not (handle == 0)
