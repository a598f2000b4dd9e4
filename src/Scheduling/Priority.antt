-- ===== src/Scheduling/Priority.antt =====
-- task_type.hpp and the priorities of worker_base.hpp.
use Prim.Native.Nat.{bit_and, bit_or}
use oqpi.Base.{ℕ, ◌^◌, ◌≡◌, refl, Bool, true, false, not, ◌==◌, if◌then◌else◌, List, [], ◌∷◌}

pub data TaskPriority : Type 0 where
  high above_normal normal below_normal low count inherit : TaskPriority

pub data TaskType : Type 0 where
  fire_and_forget waitable : TaskType

-- `int(priority)`
abbrev pub to_int : TaskPriority → ℕ
to_int high = 0
to_int above_normal = 1
to_int normal = 2
to_int below_normal = 3
to_int low = 4
to_int count = 5
to_int inherit = 6

pub data WorkerPriority : Type 0 where
  wprio_high wprio_above_normal wprio_normal wprio_below_normal wprio_low : WorkerPriority
  wprio_any_normal wprio_normal_or_low wprio_normal_or_high wprio_any : WorkerPriority

-- The values of the enumeration.
unfoldable pub bits : WorkerPriority → ℕ
bits wprio_high = 2 ^ to_int high
bits wprio_above_normal = 2 ^ to_int above_normal
bits wprio_normal = 2 ^ to_int normal
bits wprio_below_normal = 2 ^ to_int below_normal
bits wprio_low = 2 ^ to_int low
bits wprio_any_normal = bit_or (bit_or (2 ^ 1) (2 ^ 2)) (2 ^ 3)
bits wprio_normal_or_low = bit_or (2 ^ 4) (bit_or (bit_or (2 ^ 1) (2 ^ 2)) (2 ^ 3))
bits wprio_normal_or_high = bit_or (bit_or (bit_or (2 ^ 1) (2 ^ 2)) (2 ^ 3)) (2 ^ 0)
bits wprio_any = bit_or (bit_or (2 ^ 0) (bit_or (bit_or (2 ^ 1) (2 ^ 2)) (2 ^ 3))) (2 ^ 4)

unfoldable pub can_work_on_priority : WorkerPriority → TaskPriority → Bool
unfolding bits
can_work_on_priority worker task = not (bit_and (2 ^ to_int task) (bits worker) == 0)

-- The priorities that have a queue, in the order in which the scheduler looks at them.
abbrev pub levels : List TaskPriority
levels = high ∷ above_normal ∷ normal ∷ below_normal ∷ low ∷ []

-- The task priorities that the name of a worker priority promises.
pub promised : WorkerPriority → List TaskPriority
promised wprio_high = high ∷ []
promised wprio_above_normal = above_normal ∷ []
promised wprio_normal = normal ∷ []
promised wprio_below_normal = below_normal ∷ []
promised wprio_low = low ∷ []
promised wprio_any_normal = above_normal ∷ normal ∷ below_normal ∷ []
promised wprio_normal_or_low = above_normal ∷ normal ∷ below_normal ∷ low ∷ []
promised wprio_normal_or_high = high ∷ above_normal ∷ normal ∷ below_normal ∷ []
promised wprio_any = levels

unfoldable pub same_priority : TaskPriority → TaskPriority → Bool
same_priority a b = to_int a == to_int b

pub member : TaskPriority → List TaskPriority → Bool
unfolding same_priority
member p [] = false
member p (q ∷ qs) = if same_priority p q then true else member p qs

-- A worker may take a task of a priority exactly when its own priority names that one; `count` and
-- `inherit` are for no worker.
pub can_work-promised :
    (worker : WorkerPriority) (task : TaskPriority)
    → can_work_on_priority worker task ≡ member task (promised worker)
unfolding can_work_on_priority promised member
can_work-promised wprio_high high = refl
can_work-promised wprio_high above_normal = refl
can_work-promised wprio_high normal = refl
can_work-promised wprio_high below_normal = refl
can_work-promised wprio_high low = refl
can_work-promised wprio_high count = refl
can_work-promised wprio_high inherit = refl
can_work-promised wprio_above_normal high = refl
can_work-promised wprio_above_normal above_normal = refl
can_work-promised wprio_above_normal normal = refl
can_work-promised wprio_above_normal below_normal = refl
can_work-promised wprio_above_normal low = refl
can_work-promised wprio_above_normal count = refl
can_work-promised wprio_above_normal inherit = refl
can_work-promised wprio_normal high = refl
can_work-promised wprio_normal above_normal = refl
can_work-promised wprio_normal normal = refl
can_work-promised wprio_normal below_normal = refl
can_work-promised wprio_normal low = refl
can_work-promised wprio_normal count = refl
can_work-promised wprio_normal inherit = refl
can_work-promised wprio_below_normal high = refl
can_work-promised wprio_below_normal above_normal = refl
can_work-promised wprio_below_normal normal = refl
can_work-promised wprio_below_normal below_normal = refl
can_work-promised wprio_below_normal low = refl
can_work-promised wprio_below_normal count = refl
can_work-promised wprio_below_normal inherit = refl
can_work-promised wprio_low high = refl
can_work-promised wprio_low above_normal = refl
can_work-promised wprio_low normal = refl
can_work-promised wprio_low below_normal = refl
can_work-promised wprio_low low = refl
can_work-promised wprio_low count = refl
can_work-promised wprio_low inherit = refl
can_work-promised wprio_any_normal high = refl
can_work-promised wprio_any_normal above_normal = refl
can_work-promised wprio_any_normal normal = refl
can_work-promised wprio_any_normal below_normal = refl
can_work-promised wprio_any_normal low = refl
can_work-promised wprio_any_normal count = refl
can_work-promised wprio_any_normal inherit = refl
can_work-promised wprio_normal_or_low high = refl
can_work-promised wprio_normal_or_low above_normal = refl
can_work-promised wprio_normal_or_low normal = refl
can_work-promised wprio_normal_or_low below_normal = refl
can_work-promised wprio_normal_or_low low = refl
can_work-promised wprio_normal_or_low count = refl
can_work-promised wprio_normal_or_low inherit = refl
can_work-promised wprio_normal_or_high high = refl
can_work-promised wprio_normal_or_high above_normal = refl
can_work-promised wprio_normal_or_high normal = refl
can_work-promised wprio_normal_or_high below_normal = refl
can_work-promised wprio_normal_or_high low = refl
can_work-promised wprio_normal_or_high count = refl
can_work-promised wprio_normal_or_high inherit = refl
can_work-promised wprio_any high = refl
can_work-promised wprio_any above_normal = refl
can_work-promised wprio_any normal = refl
can_work-promised wprio_any below_normal = refl
can_work-promised wprio_any low = refl
can_work-promised wprio_any count = refl
can_work-promised wprio_any inherit = refl
