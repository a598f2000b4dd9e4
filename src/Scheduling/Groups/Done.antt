-- ===== src/Scheduling/Groups/Done.antt =====
-- parallel_group.hpp and task_group.hpp: when a parallel group is done, and who is told.
use mathlib.Core.Path.{fun_ext}
use mathlib.Core.List.{append_assoc}
use oqpi.Base.{
  ℕ, zero, suc, ◌≡◌, refl, ap, false, none, List, [], ◌∷◌, ◌++◌, arith, ◌==◌, update, ==_refl, ◌∙◌,
}
use oqpi.Scheduling.Priority.{TaskType, fire_and_forget, waitable}
use oqpi.Scheduling.Task.{Store, set_done}
use oqpi.Scheduling.Scheduler.{Outcome, ok, fault, spent, ◌>>=◌}
use oqpi.Scheduling.Groups.Objects.{
  ParallelGroup, Node, parallel_group, Event, group_post_execute, notified, World, record_event,
  notify_event, mark_done, set_node,
}
use oqpi.Scheduling.Groups.Exec.{
  decrement, notify_group_done, parallel_task_done, one_task_done, notify_parent,
}

-- `n` tasks of group `g` are done, one after the other.
pub tasks_done : (World → ℕ → Outcome World) → ℕ → World → ℕ → Outcome World
tasks_done notify zero w g = ok w
tasks_done notify (suc n) w g = one_task_done notify w g >>= λ w'. tasks_done notify n w' g

-- The world with `n` tasks of the group still to be done.
abbrev pub waiting_for : World → ℕ → ParallelGroup → ℕ → World
waiting_for w g p n = set_node w g (parallel_group (record p { active_tasks_count = n }))

update-update : (f : ℕ → Node) (i : ℕ) (a b : Node) → update (update f i a) i b ≡ update f i b
update-update f i a b = fun_ext (λ j. ground arith)

update_self : (f : ℕ → Node) (i : ℕ) (a : Node) → update f i a i ≡ a
update_self f i a = rw (==_refl i) refl

one_task_done-parallel :
    (notify : World → ℕ → Outcome World) (w : World) (g : ℕ) (p : ParallelGroup)
    → w.node g ≡ parallel_group p
    → one_task_done notify w g ≡ parallel_task_done notify w g p
unfolding one_task_done
one_task_done-parallel notify w g p e = rw (e, one_task_done) refl

node-waiting_for :
    (w : World) (g : ℕ) (p : ParallelGroup) (n : ℕ)
    → (waiting_for w g p n).node g ≡ parallel_group (record p { active_tasks_count = n })
unfolding set_node
node-waiting_for w g p n =
    update_self w.node g (parallel_group (record p { active_tasks_count = n }))

pub more==one : (n : ℕ) → (suc (suc n) == 1) ≡ false
more==one n = ground arith

pub decrement-suc : (n : ℕ) → decrement (suc n) ≡ n
unfolding decrement
decrement-suc n = ground arith

module _ (notify : World → ℕ → Outcome World) (g : ℕ) (p : ParallelGroup) where
  done_in : World → ℕ → Outcome World
  done_in w n =
      parallel_task_done notify (waiting_for w g p n) g (record p { active_tasks_count = n })

  one_task_done-waiting_for :
      (w : World) (n : ℕ) → one_task_done notify (waiting_for w g p n) g ≡ done_in w n
  unfolding done_in
  one_task_done-waiting_for w n =
      one_task_done-parallel notify (waiting_for w g p n) g (record p { active_tasks_count = n })
        (node-waiting_for w g p n)

  one_more :
      (w : World) (n : ℕ)
      → p.max_simultaneous_tasks ≡ 0
      → done_in w (suc (suc n)) ≡ ok (waiting_for w g p (suc n))
  unfolding parallel_task_done done_in set_node
  one_more w n unlimited =
      rw (unlimited, more==one n, decrement-suc (suc n), update-update w.node g) refl

  last_one : (w : World) → done_in w 1 ≡ notify_group_done notify (waiting_for w g p 0) g
  unfolding parallel_task_done done_in set_node
  last_one w =
      ap (λ (f : ℕ → Node). notify_group_done notify (record w { node = f }) g)
        (update-update w.node g (parallel_group (record p { active_tasks_count = 1 }))
          (parallel_group (record p { active_tasks_count = 0 })))

  -- While more than one task of a group without a limit is not done yet, the end of a task only
  -- counts: whatever the tasks that end, the group is not done and no one is told.
  pub one_task_done-more :
      (w : World) (n : ℕ)
      → p.max_simultaneous_tasks ≡ 0
      → one_task_done notify (waiting_for w g p (suc (suc n))) g ≡ ok (waiting_for w g p (suc n))
  one_task_done-more w n unlimited =
      one_task_done-waiting_for w (suc (suc n)) ∙ one_more w n unlimited

>>=-ok : (o : Outcome World) → (o >>= ok) ≡ o
>>=-ok (ok w) = refl
>>=-ok fault = refl
>>=-ok spent = refl

module _ (notify : World → ℕ → Outcome World) (g : ℕ) (p : ParallelGroup) where
  tasks_done-waiting :
      (w : World) (n : ℕ)
      → p.max_simultaneous_tasks ≡ 0
      → tasks_done notify n (waiting_for w g p (suc n)) g ≡ ok (waiting_for w g p 1)
  unfolding tasks_done
  tasks_done-waiting w zero unlimited = refl
  tasks_done-waiting w (suc n) unlimited =
      rw (one_task_done-more notify g p w n unlimited) (tasks_done-waiting w n unlimited)

  tasks_done-all :
      (w : World) (n : ℕ)
      → p.max_simultaneous_tasks ≡ 0
      → tasks_done notify (suc n) (waiting_for w g p (suc n)) g
        ≡ notify_group_done notify (waiting_for w g p 0) g
  unfolding tasks_done
  tasks_done-all w zero unlimited =
      rw (one_task_done-waiting_for notify g p w 1, last_one notify g p w)
        (>>=-ok (notify_group_done notify (waiting_for w g p 0) g))
  tasks_done-all w (suc n) unlimited =
      rw (one_task_done-more notify g p w n unlimited) (tasks_done-all w n unlimited)

-- What the outside sees of the end of a group: its context and, if it is waitable, its event.
unfoldable pub group_done_events : World → ℕ → List Event
group_done_events w g = elim (w.type g) [
  | fire_and_forget ↦ group_post_execute g ∷ []
  | waitable ↦ group_post_execute g ∷ notified g ∷ []
]

-- The world in which group `g` is done and its end is seen.
abbrev pub finished : World → ℕ → World
finished w g = record w { store = set_done w.store g; log = w.log ++ group_done_events w g }

notify_event-typed :
    (w : World) (g : ℕ) (t : TaskType)
    → w.type g ≡ t
    → notify_event (record_event (mark_done w g) (group_post_execute g)) g ≡ finished w g
unfolding record_event mark_done notify_event group_done_events
notify_event-typed w g fire_and_forget e = rw (e, notify_event, group_done_events) refl
notify_event-typed w g waitable e = rw (e, notify_event, group_done_events, append_assoc) refl

parent-set_done : (s : Store) (g : ℕ) → (set_done s g g).parent ≡ (s g).parent
unfolding set_done
parent-set_done s g = rw (==_refl g) refl

notify_parent-top :
    (up : ℕ) (w : World) (g : ℕ) → (w.store g).parent ≡ none → notify_parent (suc up) w g ≡ ok w
unfolding notify_parent
notify_parent-top up w g top = rw (top, notify_parent) refl

pub notify_group_done-top :
    (up : ℕ) (w : World) (g : ℕ)
    → (w.store g).parent ≡ none
    → notify_group_done (notify_parent (suc up)) w g ≡ ok (finished w g)
unfolding notify_group_done
notify_group_done-top up w g top =
    rw (notify_event-typed w g (w.type g) refl)
      (notify_parent-top up (finished w g) g (parent-set_done w.store g ∙ top))

-- A parallel group without a limit and without a parent that waits for `n + 1` tasks is done when
-- as many tasks have told it their end, and not before the last of them: then the post-execute
-- call of its contexts is made, and the event set if the group is waitable, once each. The end of
-- the last task leaves all else as it is.
pub tasks_done-parallel :
    (up : ℕ) (g : ℕ) (p : ParallelGroup) (w : World) (n : ℕ)
    → p.max_simultaneous_tasks ≡ 0
    → (w.store g).parent ≡ none
    → (tasks_done (notify_parent (suc up)) n (waiting_for w g p (suc n)) g
        ≡ ok (waiting_for w g p 1))
      × (tasks_done (notify_parent (suc up)) (suc n) (waiting_for w g p (suc n)) g
          ≡ ok (finished (waiting_for w g p 0) g))
unfolding set_node
tasks_done-parallel up g p w n unlimited top = (
  tasks_done-waiting (notify_parent (suc up)) g p w n unlimited,
  tasks_done-all (notify_parent (suc up)) g p w n unlimited
      ∙ notify_group_done-top up (waiting_for w g p 0) g top,
)
