-- ===== src/Helpers/Groups.antt =====
-- What sequence_tasks and fork_tasks make of the tasks and of the scheduler.
use mathlib.Core.Option
use oqpi.Base.{
  contains, ℕ, ◌<◌, ◌≡◌, refl, ap, subst, ◌∙◌, true, false, none, some, List, [], ◌∷◌, ◌++◌, map,
  if◌then◌else◌, ◌==◌, update, ==_refl, length, get_elem?, arith,
}
use oqpi.Scheduling.Priority.{TaskPriority, inherit, to_int, same_priority, TaskType}
use oqpi.Scheduling.Task.{Task, Store, make_task_base, is_open}
use oqpi.Scheduling.Scheduler.{ok, Scheduler, can_work, notify, resolve_task_priority}
use oqpi.Scheduling.Scheduler.Add.{add-open}
use oqpi.Scheduling.Groups.{Node, parallel_group, sequence_group, World, schedule}
use oqpi.Helpers.Defs.{
  Program, make_object, schedule_task, make_parallel_group, make_sequence_group, add_and_schedule,
  sequence_tasks, fork_tasks,
}
use oqpi.Helpers.Bound.{
  Unbound, joined_all, is_group, add_to_group-IsBound, joined_all-sequence, joined_all-parallel,
}

-- After the call the new group `g` has the node `n`, the tasks are in it, it stands behind the others
-- in the queue of its priority, and the workers that may work on that one have a token more.
pub record Scheduled (p : Program) (priority : TaskPriority) (ts : List ℕ) (n : Node) (p' : Program)
    : Type 0 where
  pub group : p'.world.node p.next ≡ n
  pub parents :
      (x : ℕ)
      → (p'.world.store x).parent ≡ (
          if contains ts x
          then some p.next
          else if p.next == x
          then none
          else (p.world.store x).parent)
  pub workers :
      p'.world.scheduler.workers
      ≡ map (λ w. if can_work w priority then notify w else w) p.world.scheduler.workers
  pub queues :
      (i : ℕ)
      → get_elem? p'.world.scheduler.pending i ≡ (
          if i == to_int priority
          then Option.map (λ q. q ++ p.next ∷ []) (get_elem? p.world.scheduler.pending i)
          else get_elem? p.world.scheduler.pending i)

Unbound-made :
    (s : Store) (g : ℕ) (made : Task) (ts : List ℕ)
    → contains ts g ≡ false
    → Unbound s ts
    → Unbound (update s g made) ts
unfolding Unbound contains
Unbound-made s g made [] other free = tt
Unbound-made s g made (x ∷ ts) other (alone, once, free) =
    (ground arith, once, Unbound-made s g made ts (ground arith) free)

module _ (p : Program) (n : Node) (type : TaskType) (context : ℕ) (priority : TaskPriority)
    (ts : List ℕ) (group : is_group n ≡ true) (free : Unbound p.world.store ts)
    (other : contains ts p.next ≡ false) (own : same_priority priority inherit ≡ false)
    (queue : to_int priority < length p.world.scheduler.pending) where
  group-Scheduled :
      (p' : Program) × (add_and_schedule (make_object p n type context priority).0 p.next ts
        ≡ ok (p', some p.next))
      × Scheduled p priority ts (joined_all n ts) p'
  unfolding add_and_schedule schedule_task schedule make_object make_task_base resolve_task_priority
      is_open
  group-Scheduled =
      let made = (make_object p n type context priority).0 in
      let (w, run, b) =
        add_to_group-IsBound made.world p.next n ts (rw (==_refl p.next) refl) group (
          Unbound-made p.world.store p.next (make_task_base priority p.uid_generator).0 ts other
            free) in
      let is_new : w.store p.next ≡ (make_task_base priority p.uid_generator).0 =
        b.stores p.next ∙ rw (other, ==_refl p.next) refl in
      let (qs, added, queues) =
        add-open w.add_fuel w.build w.store w.scheduler p.next priority (rw is_new refl)
          (rw (is_new, own) refl) (rw b.same_scheduler queue) in
      let scheduler : Scheduler = record w.scheduler {
        pending = qs;
        workers = map (λ v. if can_work v priority then notify v else v) w.scheduler.workers;
      } in
      let world : World = record w { scheduler = scheduler } in
      let p' : Program = record made { world = world } in
      (
        p',
        rw (run, added) refl,
        record {
          group = b.group;
          parents = λ x. ap (λ (o : Task). o.parent) (b.stores x) ∙ ground arith;
          workers =
              ap
                (λ (s : Scheduler).
                  map (λ v. if can_work v priority then notify v else v) s.workers)
                b.same_scheduler;
          queues = λ i.
              queues i
              ∙ ap
                  (λ (s : Scheduler).
                    if i == to_int priority
                    then Option.map (λ q. q ++ p.next ∷ []) (get_elem? s.pending i)
                    else get_elem? s.pending i)
                  b.same_scheduler;
        },
      )

-- The tasks are in no group, each is named once, and the priority of the group is one that has a
-- queue: `sequence_tasks` makes a sequence with just these tasks, in their order, which are bound to
-- it, and schedules it and nothing else.
pub sequence_tasks-Scheduled :
    (p : Program) (type : TaskType) (context : ℕ) (priority : TaskPriority) (ts : List ℕ)
    → Unbound p.world.store ts
    → contains ts p.next ≡ false
    → same_priority priority inherit ≡ false
    → to_int priority < length p.world.scheduler.pending
    → (p' : Program) × (sequence_tasks p type context priority ts ≡ ok (p', some p.next))
      × Scheduled p priority ts (sequence_group ts) p'
unfolding sequence_tasks make_sequence_group is_group
sequence_tasks-Scheduled p type context priority ts free other own queue =
    let (p', made, scheduled) =
      group-Scheduled p (sequence_group []) type context priority ts refl free other own queue in
    (p', made, subst (λ n. Scheduled p priority ts n p') (joined_all-sequence [] ts) scheduled)

-- The node of a fork of the tasks, of which none has been added to the scheduler yet.
unfoldable pub forked : List ℕ → Node
forked ts = parallel_group (record {
  active_tasks_count = length ts;
  tasks = ts;
  max_simultaneous_tasks = 0;
  current_task_index = 1;
})

-- Under the same conditions `fork_tasks` makes a parallel group that waits for just these tasks,
-- which are bound to it, and schedules it and nothing else.
fork_tasks-Scheduled :
    (p : Program) (type : TaskType) (context : ℕ) (priority : TaskPriority) (ts : List ℕ)
    → Unbound p.world.store ts
    → contains ts p.next ≡ false
    → same_priority priority inherit ≡ false
    → to_int priority < length p.world.scheduler.pending
    → (p' : Program) × (fork_tasks p type context priority ts ≡ ok (p', some p.next))
      × Scheduled p priority ts (forked ts) p'
unfolding fork_tasks make_parallel_group forked is_group
fork_tasks-Scheduled p type context priority ts free other own queue =
    let (p', made, scheduled) =
      group-Scheduled p (forked []) type context priority ts refl free other own queue in
    (
      p',
      made,
      subst (λ n. Scheduled p priority ts n p')
          (joined_all-parallel
              (record {
                active_tasks_count = 0;
                tasks = [];
                max_simultaneous_tasks = 0;
                current_task_index = 1;
              })
              ts
            ∙ ap
                (λ (m : ℕ). parallel_group (record {
                  active_tasks_count = m;
                  tasks = ts;
                  max_simultaneous_tasks = 0;
                  current_task_index = 1;
                }))
                (omega arith))
          scheduled,
    )
