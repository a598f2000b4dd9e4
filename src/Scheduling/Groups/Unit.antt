-- ===== src/Scheduling/Groups/Unit.antt =====
-- task.hpp: what the run of a single task leaves alone, and what its execute comes to.
use oqpi.Base.{ℕ, suc, ◌≡◌, refl, ap, ◌∙◌, true, false, none, ==_refl, if◌then◌else◌, arith}
use oqpi.Scheduling.Priority.{TaskType, fire_and_forget, waitable}
use oqpi.Scheduling.Task.{Store, set_done, try_grab}
use oqpi.Scheduling.Scheduler.{Build, checked, unchecked, ensure, Outcome, ok}
use oqpi.Scheduling.Groups.Objects.{
  unit_task, pre_execute, run_func, post_execute, World, record_event, notify_event, mark_done,
  invoke,
}
use oqpi.Scheduling.Groups.Exec.{execute, notify_parent, grab_and}
use oqpi.Scheduling.Groups.Single.{grab}

-- A task that runs leaves the scheduler and the groups of tasks alone.
notified-scheduler :
    (w : World) (t : ℕ) (type : TaskType)
    → w.type t ≡ type
    → ((notify_event w t).scheduler ≡ w.scheduler)
      × ((notify_event w t).store ≡ w.store)
      × ((notify_event w t).node ≡ w.node)
unfolding notify_event record_event
notified-scheduler w t fire_and_forget e = rw (e, notify_event) (refl, refl, refl)
notified-scheduler w t waitable e = rw (e, notify_event) (refl, refl, refl)

-- Before the event is notified.
before_notify : World → ℕ → World
unfolding record_event mark_done
before_notify w t =
    record_event (mark_done (record_event (record_event w (pre_execute t)) (run_func t)) t)
      (post_execute t)

pub invoked-scheduler : (w : World) (t : ℕ) → (invoke w t).scheduler ≡ w.scheduler
unfolding invoke record_event mark_done before_notify
invoked-scheduler w t = (notified-scheduler (before_notify w t) t (w.type t) refl).0

pub invoked-node : (w : World) (t : ℕ) → (invoke w t).node ≡ w.node
unfolding invoke record_event mark_done before_notify
invoked-node w t = (notified-scheduler (before_notify w t) t (w.type t) refl).2

set_done-parent : (s : Store) (t x : ℕ) → (set_done s t x).parent ≡ (s x).parent
unfolding set_done
set_done-parent s t x = ground arith

pub invoked-parent : (w : World) (t x : ℕ) → ((invoke w t).store x).parent ≡ (w.store x).parent
unfolding invoke record_event mark_done before_notify
invoked-parent w t x =
    ap (λ (s : Store). (s x).parent) (notified-scheduler (before_notify w t) t (w.type t) refl).1
    ∙ set_done-parent w.store t x

pub alone_lem :
    (up : ℕ) (w : World) (t : ℕ) → (w.store t).parent ≡ none → notify_parent (suc up) w t ≡ ok w
unfolding notify_parent
alone_lem up w t alone = rw (alone, notify_parent) refl

pub ensure-holds : (build : Build) → ensure build true ≡ true
ensure-holds checked = refl
ensure-holds unchecked = refl

-- A task without a group, which is grabbed.
pub unit_lem :
    (up down : ℕ) (w : World) (t : ℕ)
    → w.node t ≡ unit_task
    → execute up (suc down) w t
      ≡ (if ensure w.build (w.store t).grabbed then notify_parent up (invoke w t) t else ok w)
unfolding execute
unit_lem up down w t node = rw (node, execute) refl

-- A task that no one has grabbed, and one that is grabbed.
pub grabbed-grab :
    (w : World) (t : ℕ) → (w.store t).grabbed ≡ false → ((grab w t).store t).grabbed ≡ true
unfolding grab try_grab
grabbed-grab w t open_t = rw open_t (rw (==_refl t) refl)

pub parent-grab :
    (w : World) (t x : ℕ)
    → (w.store t).grabbed ≡ false
    → ((grab w t).store x).parent ≡ (w.store x).parent
unfolding grab try_grab
parent-grab w t x open_t = rw open_t (ground arith)

pub grab_lem :
    (execute_task : World → ℕ → Outcome World) (w : World) (t : ℕ)
    → (w.store t).grabbed ≡ false
    → grab_and execute_task w t ≡ execute_task (grab w t) t
unfolding grab_and grab try_grab
grab_lem execute_task w t open_t = rw open_t refl

pub taken_lem :
    (execute_task : World → ℕ → Outcome World) (w : World) (t : ℕ)
    → (w.store t).grabbed ≡ true
    → grab_and execute_task w t ≡ ok w
unfolding grab_and try_grab
taken_lem execute_task w t taken = rw taken refl
