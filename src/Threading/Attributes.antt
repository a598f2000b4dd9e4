-- ===== src/Threading/Attributes.antt =====
-- include/oqpi/threading/thread_attributes.hpp: the priority and the cores of a thread.
use oqpi.Base.{ℕ, zero, suc, Option, none, some, List}

pub data ThreadPriority : Type 0 where
  lowest below_normal normal above_normal highest time_critical : ThreadPriority

-- `thread_priority::count`
abbrev pub count : ℕ
count = 6

-- The number of an enumerator, and the enumerator of a number; other numbers are none.
unfoldable pub priority_number : ThreadPriority → ℕ
priority_number lowest = 0
priority_number below_normal = 1
priority_number normal = 2
priority_number above_normal = 3
priority_number highest = 4
priority_number time_critical = 5

unfoldable pub priority_of : ℕ → Option ThreadPriority
priority_of zero = some lowest
priority_of (suc zero) = some below_normal
priority_of (suc (suc zero)) = some normal
priority_of (suc (suc (suc zero))) = some above_normal
priority_of (suc (suc (suc (suc zero)))) = some highest
priority_of (suc (suc (suc (suc (suc zero))))) = some time_critical
priority_of (suc (suc (suc (suc (suc (suc n)))))) = none

-- A `core_affinity` is a number of 32 bits, one for each core.
abbrev pub all_cores : ℕ
all_cores = 4294967295

-- The name is its characters.
pub record ThreadAttributes : Type 0 where
  pub name : List ℕ
  pub stack_size : ℕ
  pub core_affinity_mask : ℕ
  pub priority : ThreadPriority

-- The constructor of which only the name is given.
unfoldable pub named_attributes : List ℕ → ThreadAttributes
named_attributes name = record {
  name = name;
  stack_size = 0;
  core_affinity_mask = all_cores;
  priority = normal;
}
