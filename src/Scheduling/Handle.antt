-- ===== src/Scheduling/Handle.antt =====
-- task_handle.hpp: the operations of a handle. A call on an invalid handle is a fault: with checks
-- `validate` stops the program, and without it is a call through a null pointer.
use oqpi.Base.{ℕ, Bool, Option, none, some, if◌then◌else◌}
use oqpi.Scheduling.Priority.{TaskPriority}
use oqpi.Scheduling.Task.{Handle, is_valid, try_grab, set_parent}
use oqpi.Scheduling.Scheduler.{ensure, Outcome, ok, fault, ◌>>=◌}
use oqpi.Scheduling.Groups.{World, execute, record_event, added_to_group}
use oqpi.Scheduling.Groups.Single.{execute_single_threaded}
use oqpi.Scheduling.Groups.Wait.{Waited, wait, active_wait}

-- Two handles after a move or a copy of the second: to a new one, or by assignment, which leaves a
-- handle as it is when it is assigned to itself.
unfoldable pub move_handle : Handle → Handle × Handle
move_handle rhs = (rhs, none)

unfoldable pub move_assign_handle : Bool → Handle → Handle → Handle × Handle
move_assign_handle same self rhs = if same then (self, self) else (rhs, none)

unfoldable pub copy_handle : Handle → Handle × Handle
copy_handle rhs = (rhs, rhs)

unfoldable pub copy_assign_handle : Bool → Handle → Handle → Handle × Handle
copy_assign_handle same self rhs = if same then (self, self) else (rhs, rhs)

-- reset
unfoldable pub reset_handle : Handle → Handle
reset_handle h = none

-- `validate(); spTask_->`
unfoldable pub reached : World → Handle → Outcome ℕ
reached w h = if ensure w.build (is_valid h) then elim h [ none ↦ fault | some t ↦ ok t ] else fault

-- A task that is not grabbed stops the program, with checks.
unfoldable pub execute_handle : ℕ → ℕ → World → Handle → Outcome World
unfolding reached execute
execute_handle up down w h =
    reached w h >>= λ t. if ensure w.build (w.store t).grabbed then execute up down w t else fault

unfoldable pub execute_handle_single : ℕ → World → Handle → Outcome World
unfolding reached execute_single_threaded
execute_handle_single depth w h = reached w h >>= λ t. execute_single_threaded depth w t

unfoldable pub wait_handle : World → Handle → Outcome Waited
unfolding reached wait
wait_handle w h = reached w h >>= λ t. wait w t

unfoldable pub active_wait_handle : ℕ → ℕ → World → Handle → Outcome Waited
unfolding reached active_wait
active_wait_handle up down w h = reached w h >>= λ t. active_wait up down w t

unfoldable pub is_handle_done : World → Handle → Outcome Bool
unfolding reached
is_handle_done w h = reached w h >>= λ t. ok (w.store t).done

unfoldable pub try_grab_handle : World → Handle → Outcome (World × Bool)
unfolding reached try_grab
try_grab_handle w h =
    reached w h >>= λ t. ok (record w { store = (try_grab w.store t).1 }, (try_grab w.store t).0)

unfoldable pub is_handle_grabbed : World → Handle → Outcome Bool
unfolding reached
is_handle_grabbed w h = reached w h >>= λ t. ok (w.store t).grabbed

unfoldable pub handle_priority : World → Handle → Outcome TaskPriority
unfolding reached
handle_priority w h = reached w h >>= λ t. ok (w.store t).priority

-- setParentGroup of a group, with the call of the context.
unfoldable pub set_handle_parent : World → Handle → ℕ → Outcome World
unfolding reached set_parent record_event
set_handle_parent w h g = reached w h >>= λ t.
    ok (record_event (record w { store = set_parent w.store t (some g) }) (added_to_group t g))

unfoldable pub handle_parent : World → Handle → Outcome (Option ℕ)
unfolding reached
handle_parent w h = reached w h >>= λ t. ok (w.store t).parent

unfoldable pub handle_uid : World → Handle → Outcome ℕ
unfolding reached
handle_uid w h = reached w h >>= λ t. ok (w.store t).uid
