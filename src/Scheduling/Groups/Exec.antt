-- ===== src/Scheduling/Groups/Exec.antt =====
-- task.hpp, task_group.hpp, parallel_group.hpp and sequence_group.hpp: the running of tasks and
-- groups. What is done to a parent is bounded by the fuel `up`, and what is done to the members of
-- a group by the fuel `down`: the depths of the tree of groups above and below.
use oqpi.Base.{
  ℕ, zero, suc, ◌+◌, ◌-◌, ◌^◌, Bool, false, none, some, List, [], ◌∷◌, if◌then◌else◌, ◌==◌, ltb,
  leb,
}
use oqpi.Scheduling.Task.{try_grab, set_parent, is_open}
use oqpi.Scheduling.Scheduler.{ensure, Outcome, ok, fault, spent, ◌>>=◌}
use oqpi.Scheduling.Groups.Objects.{
  ParallelGroup, unit_task, parallel_group, sequence_group, group_pre_execute, group_post_execute,
  World, record_event, notify_event, mark_done, invoke, schedule, set_node, scan, from,
}

-- `activeTasksCount_.fetch_sub(1)`
unfoldable pub decrement : ℕ → ℕ
decrement n = if n == 0 then 2 ^ 64 - 1 else n - 1

-- `task_group::notifyGroupDone`; `notify` is notifyParent.
unfoldable pub notify_group_done : (World → ℕ → Outcome World) → World → ℕ → Outcome World
unfolding mark_done record_event notify_event
notify_group_done notify w g =
    notify (notify_event (record_event (mark_done w g) (group_post_execute g)) g) g

-- `parallel_group::oneTaskDone`
unfoldable pub parallel_task_done :
    (World → ℕ → Outcome World) → World → ℕ → ParallelGroup → Outcome World
unfolding notify_group_done decrement schedule set_node scan
parallel_task_done notify w g p =
    let p' = record p { active_tasks_count = decrement p.active_tasks_count } in
    let s = scan w.store (from p.current_task_index p.tasks) in
    if p.active_tasks_count == 1
    then notify_group_done notify (set_node w g (parallel_group p')) g
    else if ltb 0 p.max_simultaneous_tasks
    then (let w' =
          set_node w g
            (parallel_group (record p' { current_task_index = p.current_task_index + s.moved })) in
        elim s.found [ none ↦ ok w' | some t ↦ schedule w' (some t) ])
    else ok (set_node w g (parallel_group p'))

-- `sequence_group::oneTaskDone`
unfoldable pub sequence_task_done : (World → ℕ → Outcome World) → World → ℕ → List ℕ → Outcome World
unfolding notify_group_done schedule set_node
sequence_task_done notify w g [] = notify_group_done notify w g
sequence_task_done notify w g (t ∷ q) = schedule (set_node w g (sequence_group q)) (some t)

-- `oneTaskDone`, by the class of the group. A task that is no group has no such function.
unfoldable pub one_task_done : (World → ℕ → Outcome World) → World → ℕ → Outcome World
unfolding parallel_task_done sequence_task_done
one_task_done notify w g = elim (w.node g) [
  | unit_task ↦ fault
  | parallel_group p ↦ parallel_task_done notify w g p
  | sequence_group q ↦ sequence_task_done notify w g q
]

-- `task_base::notifyParent`
unfoldable pub notify_parent : ℕ → World → ℕ → Outcome World
unfolding one_task_done set_parent
notify_parent zero w t = spent
notify_parent (suc up) w t =
    let notify = notify_parent up in
    elim (w.store t).parent [
      | none ↦ ok w
      | some g ↦
          one_task_done notify w g >>= λ w'. ok (record w' { store = set_parent w'.store t none })
    ]

-- The loop of parallel_group::executeImpl over the tasks from the index on, of which `scheduled` have
-- been added so far: how often the index is moved on, and the world with the tasks added.
pub record Forked : Type 0 where
  pub moved : ℕ
  pub world : World

-- `if (maxSimultaneousTasks_ > 0 && ++scheduledTasks >= maxSimultaneousTasks_-1) break;`
unfoldable pub is_enough : ℕ → ℕ → Bool
is_enough max scheduled = if ltb 0 max then leb (max - 1) (scheduled + 1) else false

unfoldable pub fork_loop : ℕ → ℕ → World → List ℕ → Outcome Forked
unfolding is_enough schedule is_open
fork_loop max scheduled w [] = ok (record { moved = 1; world = w })
fork_loop max scheduled w (t ∷ ts) =
    let skip = fork_loop max scheduled w ts >>= λ f. ok (record f { moved = suc f.moved }) in
    let go_on = λ (w' : World).
      fork_loop max (scheduled + 1) w' ts >>= λ f. ok (record f { moved = suc f.moved }) in
    if is_open w.store t
    then (schedule w (some t) >>= λ w'.
        let further = go_on w' in
        if is_enough max scheduled then ok (record { moved = 1; world = w' }) else further)
    else skip

-- `if (hTask.tryGrab()) hTask.execute();`
unfoldable pub grab_and : (World → ℕ → Outcome World) → World → ℕ → Outcome World
unfolding try_grab
grab_and execute w t =
    let after = record w { store = (try_grab w.store t).1 } in
    if (try_grab w.store t).0 then execute after t else ok w

-- `parallel_group::executeImpl`. Without checks an empty group reaches `tasks_[0]`.
unfoldable pub fork : (World → ℕ → Outcome World) → World → ℕ → ParallelGroup → Outcome World
unfolding fork_loop grab_and set_node
fork execute w g p = elim p.tasks [
  | [] ↦ if ensure w.build false then fault else ok w
  | t₀ ∷ ts ↦ fork_loop p.max_simultaneous_tasks 0 w (from p.current_task_index p.tasks) >>= λ f.
      grab_and execute
        (set_node f.world g
          (parallel_group (record p { current_task_index = p.current_task_index + f.moved })))
        t₀
]

-- `sequence_group::executeImpl`. Of an empty queue popTask gives an invalid handle, or takes the
-- front of the empty queue without checks; either way what follows is undefined.
unfoldable pub run_next : (World → ℕ → Outcome World) → World → ℕ → List ℕ → Outcome World
unfolding grab_and set_node
run_next execute w g [] = fault
run_next execute w g (t ∷ q) = grab_and execute (set_node w g (sequence_group q)) t

-- `execute`, by the class of the object.
unfoldable pub execute : ℕ → ℕ → World → ℕ → Outcome World
unfolding invoke notify_parent fork run_next record_event
execute up zero w t = spent
execute up (suc down) w t =
    let execute_member = execute up down in
    elim (w.node t) [
      | unit_task ↦
          if ensure w.build (w.store t).grabbed then notify_parent up (invoke w t) t else ok w
      | parallel_group p ↦ fork execute_member (record_event w (group_pre_execute t)) t p
      | sequence_group q ↦ run_next execute_member (record_event w (group_pre_execute t)) t q
    ]
