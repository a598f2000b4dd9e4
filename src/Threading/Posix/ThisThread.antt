-- ===== src/Threading/Posix/ThisThread.antt =====
-- include/oqpi/threading/posix_thread.hpp, namespace this_thread: what a thread does with itself.
use oqpi.Base.{ℕ, ◌/◌, ◌%◌, List}
use oqpi.Threading.Attributes.{ThreadPriority}
use oqpi.Threading.Posix.Defs.{PosixApi, set_name, set_priority, set_core_affinity_mask}

-- `sleep_for`: the seconds and the nanoseconds that nanosleep is given.
unfoldable pub sleep_for : ℕ → ℕ × ℕ
sleep_for nanoseconds = (nanoseconds / 1000000000, nanoseconds % 1000000000)

module _ (api : PosixApi) where
  unfoldable pub set_own_name : api.Os → List ℕ → api.Os
  unfolding set_name
  set_own_name os name = set_name api os (api.self os) name

  unfoldable pub set_own_priority : api.Os → ThreadPriority → api.Os
  unfolding set_priority
  set_own_priority os priority = set_priority api os (api.self os) priority

  unfoldable pub set_own_affinity_mask : api.Os → ℕ → api.Os
  unfolding set_core_affinity_mask
  set_own_affinity_mask os mask = set_core_affinity_mask api os (api.self os) mask
