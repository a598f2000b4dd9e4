-- ===== src/Scheduling/Groups/Single.antt =====
-- task.hpp, task_group.hpp, parallel_group.hpp and sequence_group.hpp: executeSingleThreaded, which runs
-- a task or a whole tree of groups in the thread that calls it. `depth` bounds the tree below.
use oqpi.Base.{ℕ, zero, suc, Bool, true, false, not, List, [], ◌∷◌, if◌then◌else◌, length, ◌==◌}
use oqpi.Scheduling.Task.{try_grab}
use oqpi.Scheduling.Scheduler.{ensure, Outcome, ok, fault, spent, ◌>>=◌}
use oqpi.Scheduling.Groups.Objects.{
  ParallelGroup, Node, unit_task, parallel_group, sequence_group, group_pre_execute,
  group_post_execute, World, record_event, notify_event, mark_done, invoke, set_node,
}
pub mod Ran
pub mod Trees
pub mod Laws
pub mod Run
pub mod All

-- `tryGrab()` as a change of the world.
unfoldable pub grab : World → ℕ → World
unfolding try_grab
grab w t = record w { store = (try_grab w.store t).1 }

unfoldable pub has_tasks : List ℕ → Bool
has_tasks [] = false
has_tasks (t ∷ ts) = true

-- The loop over the tasks of a parallel group.
unfoldable pub run_members : (World → ℕ → Outcome World) → World → List ℕ → Outcome World
run_members execute w [] = ok w
run_members execute w (t ∷ ts) = execute w t >>= λ w'. run_members execute w' ts

-- `tasks_.clear()`
unfoldable pub clear_tasks : World → ℕ → World
unfolding set_node
clear_tasks w g = elim (w.node g) [
  | unit_task ↦ w
  | parallel_group p ↦ set_node w g (parallel_group (record p { tasks = [] }))
  | sequence_group q ↦ w
]

-- `parallel_group::executeSingleThreadedImpl`; with checks a group that counts other tasks than it has
-- stops the program.
unfoldable pub run_parallel :
    (World → ℕ → Outcome World) → World → ℕ → ParallelGroup → Outcome World
unfolding grab has_tasks run_members clear_tasks try_grab
run_parallel execute w g p =
    if (try_grab w.store g).0
    then (if ensure w.build (has_tasks p.tasks)
        then (if ensure w.build (length p.tasks == p.active_tasks_count)
            then (run_members execute (grab w g) p.tasks >>= λ w'. ok (clear_tasks w' g))
            else fault)
        else ok (clear_tasks (grab w g) g))
    else ok w

-- The loop over the queue of a sequence: each task is popped before it runs.
unfoldable pub run_queue : (World → ℕ → Outcome World) → World → ℕ → List ℕ → Outcome World
unfolding set_node
run_queue execute w g [] = ok w
run_queue execute w g (t ∷ q) =
    execute (set_node w g (sequence_group q)) t >>= λ w'. run_queue execute w' g q

-- `sequence_group::executeSingleThreadedImpl`
unfoldable pub run_sequence : (World → ℕ → Outcome World) → World → ℕ → List ℕ → Outcome World
unfolding grab run_queue try_grab
run_sequence execute w g q =
    if (try_grab w.store g).0 then run_queue execute (grab w g) g q else ok w

-- What `task_group::executeSingleThreaded` does after the tasks.
unfoldable pub end_single : World → ℕ → World
unfolding notify_event mark_done record_event
end_single w g = notify_event (mark_done (record_event w (group_post_execute g)) g) g

-- `executeSingleThreaded`, by the class of the object.
unfoldable pub execute_single_threaded : ℕ → World → ℕ → Outcome World
unfolding try_grab grab invoke run_parallel run_sequence end_single record_event
execute_single_threaded zero w t = spent
execute_single_threaded (suc depth) w t =
    let member = execute_single_threaded depth in
    elim (w.node t) [
      | unit_task ↦ if (try_grab w.store t).0 then ok (invoke (grab w t) t) else ok w
      | parallel_group p ↦ run_parallel member (record_event w (group_pre_execute t)) t p >>= λ w'.
          ok (end_single w' t)
      | sequence_group q ↦ run_sequence member (record_event w (group_pre_execute t)) t q >>= λ w'.
          ok (end_single w' t)
    ]
