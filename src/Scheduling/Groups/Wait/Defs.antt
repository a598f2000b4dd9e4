-- ===== src/Scheduling/Groups/Wait/Defs.antt =====
-- task.hpp, task_group.hpp, parallel_group.hpp and task_notifier.hpp: `wait` and `activeWait`. The event
-- of a waitable object is set from the first time that it is notified on, since nothing resets it.
use oqpi.Base.{ℕ, Bool, false, List, [], ◌∷◌, ◌||◌, if◌then◌else◌, ◌==◌}
use oqpi.Scheduling.Priority.{fire_and_forget, waitable}
use oqpi.Scheduling.Task.{try_grab}
use oqpi.Scheduling.Scheduler.{ensure, Outcome, ok, fault, ◌>>=◌}
use oqpi.Scheduling.Groups.Objects.{
  unit_task, parallel_group, sequence_group, Event, notified, World,
}
use oqpi.Scheduling.Groups.Exec.{grab_and, execute}
use oqpi.Scheduling.Groups.Single.{grab}

-- A call that returns, or one that is asleep until the event is set.
pub data Waited : Type 0 where
  returned asleep : World → Waited

unfoldable pub is_notified : ℕ → List Event → Bool
is_notified t [] = false
is_notified t (notified x ∷ es) = x == t || is_notified t es
is_notified t (e ∷ es) = is_notified t es

-- `notifier::wait`. An object that is not waitable has no event: a failed oqpi_check stops the
-- program, and without checks the call returns at once.
unfoldable pub wait : World → ℕ → Outcome Waited
unfolding is_notified
wait w t = elim (w.type t) [
  | fire_and_forget ↦ if ensure w.build false then ok (returned w) else fault
  | waitable ↦ ok (if is_notified t w.log then returned w else asleep w)
]

-- The loop of `parallel_group::activeWait` over the tasks.
unfoldable pub help : (World → ℕ → Outcome World) → World → List ℕ → Outcome World
unfolding grab_and
help execute_task w [] = ok w
help execute_task w (t ∷ ts) = grab_and execute_task w t >>= λ w'. help execute_task w' ts

-- `activeWait`, by the class of the object.
unfoldable pub active_wait : ℕ → ℕ → World → ℕ → Outcome Waited
unfolding wait help execute grab try_grab
active_wait up down w t = elim (w.node t) [
  | unit_task ↦
      if (try_grab w.store t).0
      then (execute up down (grab w t) t >>= λ w'. ok (returned w'))
      else wait w t
  | parallel_group p ↦ help (execute up down) w p.tasks >>= λ w'. wait w' t
  | sequence_group q ↦ if ensure w.build false then wait w t else fault
]
