-- ===== src/Scheduling/Contexts.antt =====
-- scheduling/context_container.hpp: a container of contexts passes each call on to all of them.
use oqpi.Base.{List, [], ◌∷◌}

-- The calls of context_container, each with the name that the container has for it. What a call is passed, a task or a group, is an `A`.
pub data Hook (A : Type 0) : Type 0 where
  worker_on_start worker_on_stop worker_on_idle worker_on_active : Hook A
  worker_on_pre_execute worker_on_post_execute : A → Hook A
  group_on_added_to_group group_on_task_added : A → Hook A
  group_on_pre_execute group_on_post_execute : Hook A
  task_on_added_to_group : A → Hook A
  task_on_pre_execute task_on_post_execute : Hook A

-- A context is what its functions do to a state of type `S`.
abbrev pub Context : Type 0 → Type 0 → Type 0
Context A S = Hook A → S → S

-- The recursion over the list of contexts, which is the same for every call.
unfoldable pub call_contexts : {A S : Type 0} → List (Context A S) → Hook A → S → S
call_contexts [] hook s = s
call_contexts (context ∷ contexts) hook s = call_contexts contexts hook (context hook s)

-- The functions of the container itself: worker_onStart calls worker_on_start, which calls onStart of
-- every context, and so on for the others.
unfoldable pub context_container : {A S : Type 0} → List (Context A S) → Hook A → S → S
unfolding call_contexts
context_container contexts hook s = call_contexts contexts hook s
