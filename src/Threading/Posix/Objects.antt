-- ===== src/Threading/Posix/Objects.antt =====
-- include/oqpi/threading/interface_thread.hpp over the posix threads: thread objects at addresses. None
-- is where std::terminate ends the program.
use oqpi.Base.{
  ℕ, Bool, true, false, Option, none, some, List, if◌then◌else◌, ◌==◌, ltb, ◌^◌, update,
}
use oqpi.Scheduling.Scheduler.{Build}
use oqpi.Threading.Attributes.{ThreadAttributes, named_attributes}
use oqpi.Threading.Posix.Defs.{
  PosixApi, create, join_thread, detach_thread, terminate_thread, move_construct, move_assign,
  joinable, set_core_affinity_mask, set_name,
}

-- The handle of the object at each address, 0 where there is no object.
pub record ThreadObjects (api : PosixApi) : Type 0 where
  pub os : api.Os
  pub handle : ℕ → ℕ

module _ (api : PosixApi) where
  abbrev pub with_handle : ThreadObjects api → ℕ → api.Os × ℕ → ThreadObjects api
  with_handle s i (os, h) = record { os = os; handle = update s.handle i h }

  -- What `launch` leaves: the objects, and whether the launcher is still the caller's, who frees it
  -- then; else it is the new thread's.
  pub record Launched : Type 0 where
    pub threads : ThreadObjects api
    pub frees_launcher : Bool

  -- `launch`, for an object that has just been made.
  unfoldable pub launch : ThreadObjects api → ℕ → ThreadAttributes → Launched
  unfolding create
  launch s i attributes =
      let (os, made, h) = create api s.os 0 attributes in
      if made
      then (record { threads = with_handle s i (os, h); frees_launcher = false })
      else (record { threads = with_handle s i (os, h); frees_launcher = true })

  -- The constructor of which only the name is given.
  unfoldable pub launch_named : ThreadObjects api → ℕ → List ℕ → Launched
  unfolding launch named_attributes
  launch_named s i name = launch s i (named_attributes name)

  -- What the new thread does first.
  unfoldable pub name_itself : ThreadObjects api → ThreadAttributes → ThreadObjects api
  unfolding set_name
  name_itself s attributes = record s { os = set_name api s.os (api.self s.os) attributes.name }

  unfoldable pub destroy : ThreadObjects api → ℕ → Option (ThreadObjects api)
  unfolding joinable
  destroy s i =
      if joinable (s.handle i) then none else some (record s { handle = update s.handle i 0 })

  unfoldable pub move_construct_from : ThreadObjects api → ℕ → ℕ → ThreadObjects api
  unfolding move_construct
  move_construct_from s i j =
      let (self, other) = move_construct (s.handle j) in
      record s { handle = update (update s.handle i self) j other }

  unfoldable pub move_assign_from : Build → ThreadObjects api → ℕ → ℕ → Option (ThreadObjects api)
  unfolding joinable move_assign
  move_assign_from build s i j =
      let (self, rhs) = move_assign build (s.handle i) (s.handle j) in
      if i == j
      then some s
      else if joinable (s.handle i)
      then none
      else some (record s { handle = update (update s.handle i self) j rhs })

  unfoldable pub join : ThreadObjects api → ℕ → ThreadObjects api
  unfolding join_thread
  join s i = with_handle s i (join_thread api s.os (s.handle i))

  unfoldable pub detach : ThreadObjects api → ℕ → ThreadObjects api
  unfolding detach_thread
  detach s i = with_handle s i (detach_thread api s.os (s.handle i))

  unfoldable pub terminate : ThreadObjects api → ℕ → ThreadObjects api
  unfolding terminate_thread
  terminate s i = with_handle s i (terminate_thread api s.os (s.handle i))

  -- `setCoreAffinity`: the shift has no defined value for a core that an int has no bit for.
  unfoldable pub set_core_affinity : ThreadObjects api → ℕ → ℕ → Option (ThreadObjects api)
  unfolding set_core_affinity_mask
  set_core_affinity s i core =
      if ltb core 32
      then some (record s { os = set_core_affinity_mask api s.os (s.handle i) (2 ^ core) })
      else none
