-- ===== src/Helpers/ParallelFor/Run.antt =====
-- parallel_for.hpp: a whole parallel_for, from the making of its group to the end of its activeWait.
use mathlib.Core.List.{append-nil}
use mathlib.Core.Option
use oqpi.Base.{
  ℕ, zero, suc, ◌+◌, ◌<◌, ◌≤◌, ◌≡◌, refl, sym, ap, ◌∙◌, subst, true, false, ◌||◌, none, some, List,
  [], ◌∷◌, ◌++◌, if◌then◌else◌, arith, ◌==◌, ==_refl, Bool-cases, inl, inr, contains, length, map,
  get_elem?,
}
use oqpi.Base.Int.{ℤ, pos, negsuc, pos_part}
use oqpi.Scheduling.Priority.{
  TaskPriority, inherit, to_int, same_priority, TaskType, fire_and_forget, waitable,
}
use oqpi.Scheduling.Task.{Task, is_open, make_task_base}
use oqpi.Scheduling.Scheduler.{Scheduler, ok, can_work, notify, resolve_task_priority}
use oqpi.Scheduling.Scheduler.Add.{add-open}
use oqpi.Scheduling.Groups.{ParallelGroup, parallel_group, World, schedule}
use oqpi.Scheduling.Groups.Single.Ran.{told}
use oqpi.Scheduling.Groups.Single.Trees.{trace, task_events}
use oqpi.Scheduling.Groups.Ended.{group_end, is_part}
use oqpi.Scheduling.Groups.Wait.{returned, asleep, is_notified, wait, help, active_wait}
use oqpi.Scheduling.Groups.Wait.Loop.{AllMembers, free}
use oqpi.Scheduling.Groups.Wait.Parallel.{active_wait-parallel}
use oqpi.Partition.Range.{BasePartitioner, is_valid}
use oqpi.Helpers.Defs.{Program, make_object, new_parallel, make_parallel_group}
use oqpi.Helpers.Batches.{make_parallel_for_task_group}
use oqpi.Helpers.ParallelFor.Defs.{parallel_for}
use oqpi.Helpers.ParallelFor.Tasks.{addresses}
use oqpi.Helpers.ParallelFor.Made.{calls, calls-append, IsMade, add_batches-Batched}

-- The addresses.
addresses-below : (n first x : ℕ) → x < first → contains (addresses first n) x ≡ false
unfolding addresses contains
addresses-below zero first x l = refl
addresses-below (suc n) first x l = ground (arith, addresses-below n (suc first) x)

addresses-within :
    (n first x : ℕ) → first ≤ x → x < first + n → contains (addresses first n) x ≡ true
unfolding addresses contains
addresses-within zero first x l h = absurd (omega arith)
addresses-within (suc n) first x l h = ground (arith, addresses-within n (suc first) x)

length-addresses : (n first : ℕ) → length (addresses first n) ≡ n
unfolding addresses
length-addresses zero first = refl
length-addresses (suc n) first = ap suc (length-addresses n (suc first))

-- The tasks that were made for the group are its members, and no one has grabbed them.
made-AllMembers :
    (n first g : ℕ) (w : World)
    → g < first
    → ((x : ℕ) → first ≤ x → x < first + n → IsMade w g x)
    → AllMembers w g (addresses first n) × (free w.store (addresses first n) ≡ addresses first n)
unfolding addresses AllMembers free
made-AllMembers zero first g w older made = (tt, refl)
made-AllMembers (suc n) first g w older made =
    let (node, bound, open_t, undone) = made first (omega arith) (omega arith) in
    let (members, left) =
      made-AllMembers n (suc first) g w (omega arith)
        (λ x l h. made x (omega arith) (omega arith)) in
    (
      (node, bound, ground arith, addresses-below n (suc first) first (omega arith), members),
      rw open_t (ap (λ l. first ∷ l) left),
    )

-- The calls of the functions among what is to be seen of the tasks.
calls-told :
    (type : ℕ → TaskType) (t : ℕ) (of_t : TaskType) → type t ≡ of_t → calls (told type t) ≡ []
unfolding calls told
calls-told type t fire_and_forget e = rw (e, told) refl
calls-told type t waitable e = rw (e, told) refl

calls-task_events : (type : ℕ → TaskType) (ts : List ℕ) → calls (task_events type ts) ≡ ts
unfolding calls task_events trace
calls-task_events type [] = refl
calls-task_events type (t ∷ ts) =
    ap (λ l. t ∷ l)
      (calls-append (told type t) (task_events type ts)
        ∙ rw (calls-told type t (type t) refl) (calls-task_events type ts))

calls-group_end : (type : ℕ → TaskType) (g k : ℕ) → calls (group_end type g k) ≡ []
unfolding calls group_end
calls-group_end type g zero = calls-told type g (type g) refl
calls-group_end type g (suc k) = refl

-- What is left of `add` in a scheduler: the handle of `g` behind those in the queue of its priority,
-- and one more token at each worker that may work on that priority.
unfoldable pub Queued : TaskPriority → ℕ → Scheduler → Scheduler → Type 0
Queued priority g s s' =
    (qs : List (List ℕ)) × (s' ≡ record s {
      pending = qs;
      workers = map (λ w. if can_work w priority then notify w else w) s.workers;
    })
    × ((i : ℕ)
        → get_elem? qs i ≡ (
            if i == to_int priority
            then Option.map (λ q. q ++ g ∷ []) (get_elem? s.pending i)
            else get_elem? s.pending i))

-- `add` of a new object.
schedule-new :
    (w : World) (g uid : ℕ) (priority : TaskPriority)
    → w.store g ≡ (make_task_base priority uid).0
    → same_priority priority inherit ≡ false
    → to_int priority < length w.scheduler.pending
    → (s : Scheduler) × (schedule w (some g) ≡ ok (record w { scheduler = s }))
      × Queued priority g w.scheduler s
unfolding schedule make_task_base resolve_task_priority is_open Queued
schedule-new w g uid priority is_new own queue =
    let (qs, added, queues) =
      add-open w.add_fuel w.build w.store w.scheduler g priority (rw is_new refl)
        (rw (is_new, own) refl) queue in
    (
      record w.scheduler {
        pending = qs;
        workers = map (λ v. if can_work v priority then notify v else v) w.scheduler.workers;
      },
      rw added refl,
      (qs, refl, queues),
    )

-- The group of a parallel_for with so many batches.
abbrev pub batch_group : ℕ → ℕ → ParallelGroup
batch_group g n = record {
  active_tasks_count = n;
  tasks = addresses (suc g) n;
  max_simultaneous_tasks = 0;
  current_task_index = 1;
}

made_group :
    (p : Program) (context : ℕ) (z : ℤ) (n : ℕ) (priority : TaskPriority)
    → z ≡ pos n
    → make_parallel_group p waitable context priority z 0
      ≡ ok (make_object p (new_parallel 0) waitable context priority)
unfolding make_parallel_group
made_group p context z n priority e = rw e refl

positive-count : (z : ℤ) → 0 < pos_part z → z ≡ pos (pos_part z)
positive-count (pos n) h = refl
positive-count (negsuc n) h = absurd (omega arith)

-- The world where activeWait is called: the group `g` with its `n` tasks is made and scheduled.
record Ready (priority : TaskPriority) (g n : ℕ) (before w : World) : Type 0 where
  group : w.node g ≡ parallel_group (batch_group g n)
  waits : w.type g ≡ waitable
  quiet : is_notified g w.log ≡ false
  top : (w.store g).parent ≡ none
  tasks : (x : ℕ) → suc g ≤ x → x < suc g + n → IsMade w g x
  older : (x : ℕ) → x < g → w.store x ≡ before.store x
  called : calls w.log ≡ calls before.log
  queued : Queued priority g before.scheduler w.scheduler

module _ (p : Program) (group_context task_context : ℕ) (partitioner : BasePartitioner)
    (priority : TaskPriority) (valid : is_valid partitioner ≡ true)
    (count : partitioner.batch_count ≡ pos (pos_part partitioner.batch_count))
    (own : same_priority priority inherit ≡ false)
    (queue : to_int priority < length p.world.scheduler.pending)
    (quiet : is_notified p.next p.world.log ≡ false) where
  abbrev batches : ℕ
  batches = pos_part partitioner.batch_count

  ready :
      (w : World) × Ready priority p.next batches p.world w
      × ((up down : ℕ)
          → parallel_for up down p group_context task_context partitioner priority
            ≡ active_wait up down w p.next)
  unfolding parallel_for make_parallel_for_task_group make_parallel_group make_object make_task_base
  ready =
      let g = p.next in
      let made = (make_object p (new_parallel 0) waitable group_context priority).0 in
      let (p', run, b) =
        add_batches-Batched batches made g task_context priority
          (record {
            active_tasks_count = 0;
            tasks = [];
            max_simultaneous_tasks = 0;
            current_task_index = 1;
          })
          (rw (==_refl g) refl) (omega arith) in
      let is_new : p'.world.store g ≡ (make_task_base priority p.uid_generator).0 =
        b.older g (omega arith) ∙ rw (==_refl g) refl in
      let (s, scheduled, queued) = schedule-new p'.world g p.uid_generator priority is_new own (
        subst (λ (t : Scheduler). to_int priority < length t.pending) (sym b.same_scheduler)
          queue) in
      (
        record p'.world { scheduler = s },
        record {
          group =
              b.group
              ∙ ap (λ m. parallel_group (record (batch_group g batches) { active_tasks_count = m }))
                  (omega arith);
          waits = b.old_types g (omega arith) ∙ rw (==_refl g) refl;
          quiet = b.quiet g ∙ quiet;
          top = ap (λ (o : Task). o.parent) is_new;
          tasks = λ x l h. b.newer x l h;
          older = λ x l. b.older x (omega arith) ∙ ground arith;
          called = b.called;
          queued = subst (λ (t : Scheduler). Queued priority g t s) b.same_scheduler queued;
        },
        λ up down.
            rw (valid, made_group p group_context partitioner.batch_count batches priority count)
              (rw run (rw scheduled refl)),
      )

-- parallel_for in the calling thread alone, while no worker takes a task of it, for a partitioner that
-- is valid and has a batch, a priority that has a queue, and a new address whose event has not been
-- set: the call returns, and by then the functions of its batch tasks, as many as there are
-- batches, have been called, each once, in the order of the batches, and no others; the tasks and the
-- group are done, no object that was there before has changed, and of the scheduler only what `add` of
-- the group leaves: its handle, done by then, behind the others in the queue of its priority, and a
-- token at each worker that may work on that priority.
pub parallel_for-returns :
    (up down : ℕ) (p : Program) (group_context task_context : ℕ) (partitioner : BasePartitioner)
    (priority : TaskPriority)
    → is_valid partitioner ≡ true
    → 0 < pos_part partitioner.batch_count
    → same_priority priority inherit ≡ false
    → to_int priority < length p.world.scheduler.pending
    → is_notified p.next p.world.log ≡ false
    → (w : World) × (parallel_for
          (suc (suc up))
          (suc down)
          p
          group_context
          task_context
          partitioner
          priority
        ≡ ok (returned w))
      × (calls w.log
          ≡ calls p.world.log ++ addresses (suc p.next) (pos_part partitioner.batch_count))
      × ((x : ℕ)
          → p.next ≤ x
          → x ≤ p.next + pos_part partitioner.batch_count
          → (w.store x).done ≡ true)
      × ((x : ℕ) → x < p.next → w.store x ≡ p.world.store x)
      × Queued priority p.next p.world.scheduler w.scheduler
unfolding is_part
parallel_for-returns up down p group_context task_context partitioner priority valid some_batch own
      queue quiet =
    let g = p.next in
    let n = pos_part partitioner.batch_count in
    let (w, r, start) =
      ready p group_context task_context partitioner priority valid
        (positive-count partitioner.batch_count some_batch) own queue quiet in
    let (members, left) = made-AllMembers n (suc g) g w (omega arith) r.tasks in
    let counts : n ≡ 0 + length (free w.store (addresses (suc g) n)) =
      sym (length-addresses n (suc g)) ∙ ap length (sym left) ∙ omega arith in
    let (w', run, log, node, done, over, kept, scheduler) =
      active_wait-parallel up down 0 g w (batch_group g n) r.group refl r.waits r.quiet r.top
        members some_batch counts in
    (
      w',
      start (suc (suc up)) (suc down) ∙ run,
      ap calls log
          ∙ calls-append w.log _
          ∙ ap (λ l. calls w.log ++ l)
              (calls-append (task_events w.type (free w.store (addresses (suc g) n)))
                  (group_end w.type g 0)
                ∙ rw (calls-group_end w.type g 0) (
                    append-nil _
                    ∙ calls-task_events w.type (free w.store (addresses (suc g) n))
                    ∙ left))
          ∙ ap (λ l. l ++ addresses (suc g) n) r.called,
      λ x low high. elim (Bool-cases (g == x)) [
        | inl same ↦
            let here : g ≡ x = ground arith in
            subst (λ y. (w'.store y).done ≡ true) here (over refl)
        | inr other ↦
            done x other
            ∙ ap (λ l. contains l x || (w.store x).done) left
            ∙ rw (addresses-within n (suc g) x (ground arith) (omega arith)) refl
      ],
      λ x l.
          kept x (rw (left, addresses-below n (suc g) x (omega arith)) (ground arith))
          ∙ r.older x l,
      subst (λ (t : Scheduler). Queued priority p.next p.world.scheduler t) (sym scheduler)
          r.queued,
    )

-- For a partitioner that is valid but whose count of batches is zero, a priority that has a queue and a
-- new address whose event has not been set, parallel_for does not return in the calling thread: it
-- sleeps on the event of an empty group.
pub parallel_for-no_batches :
    (up down : ℕ) (p : Program) (group_context task_context : ℕ) (partitioner : BasePartitioner)
    (priority : TaskPriority)
    → is_valid partitioner ≡ true
    → partitioner.batch_count ≡ pos 0
    → same_priority priority inherit ≡ false
    → to_int priority < length p.world.scheduler.pending
    → is_notified p.next p.world.log ≡ false
    → (w : World) × (parallel_for up down p group_context task_context partitioner priority
        ≡ ok (asleep w))
      × (w.node p.next ≡ parallel_group (batch_group p.next 0))
unfolding active_wait help wait addresses
parallel_for-no_batches up down p group_context task_context partitioner priority valid no_batch own
      queue quiet =
    let (w, r, start) =
      ready p group_context task_context partitioner priority valid
        (no_batch ∙ ap (λ z. pos (pos_part z)) (sym no_batch)) own queue quiet in
    let group : w.node p.next ≡ parallel_group (batch_group p.next 0) =
      r.group ∙ ap (λ z. parallel_group (batch_group p.next (pos_part z))) no_batch in
    (w, start up down ∙ rw (group, active_wait) (rw (r.waits, wait) (rw r.quiet refl)), group)
