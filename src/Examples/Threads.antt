-- ===== src/Examples/Threads.antt =====
-- A posix system with room for two threads, and a program with three thread objects.
use oqpi.Base.{
  ℕ, ◌≡◌, ◌≢◌, refl, Bool, true, false, not, ◌&&◌, ◌||◌, some, [], ◌∷◌, arith, if◌then◌else◌, ◌==◌,
  update, Bool-cases, inl, inr, Option,
}
use oqpi.Scheduling.Scheduler.{checked}
use oqpi.Threading.Attributes.{ThreadAttributes, lowest, normal, above_normal, named_attributes}
use oqpi.Threading.Posix.Defs.{
  PosixApi, get_priority, set_priority, create, thread_attr, scheduled, sized, destroy_attr,
  set_core_affinity_mask, move_construct, join_thread,
}
use oqpi.Threading.Posix.Priority.{get_priority-set_priority, get_priority_default}
use oqpi.Threading.Posix.Objects.{ThreadObjects, launch, move_construct_from, join}
use oqpi.Threading.Posix.Ownership.{PosixLaws}
use oqpi.Threading.Posix.Steps.{Reaches, here, after, launched, moved, joined, handles-owned}

pub record System : Type 0 where
  pub alive : ℕ → Bool
  pub priority : ℕ → ℕ

-- The first handle that is not in use, if any is.
abbrev free_handle : (ℕ → Bool) → ℕ
free_handle alive = if alive 7 then 8 else 7

abbrev ended : System → ℕ → System × Bool
ended s h = (record s { alive = λ x. s.alive x && not (h == x) }, true)

abbrev linux : Bool → PosixApi
linux real_time = record {
  Os = System;
  Attr = ℕ;
  self = λ os. 1;
  logical_processors = 4;
  min_priority = 1;
  max_priority = 99;
  init = some 0;
  set_detach_state_joinable = λ a. a;
  set_sched_policy_rr = λ a. a;
  set_sched_param = λ a q. a;
  set_inherit_sched_explicit = λ a. a;
  set_stack_size = λ a n. a;
  rtprio_limit = λ os. 0;
  create = λ os a h. if os.alive 7 && os.alive 8 then (os, false, h) else (
    record os { alive = λ x. free_handle os.alive == x || os.alive x },
    true,
    free_handle os.alive,
  );
  destroy = λ os a. os;
  join = ended;
  detach = ended;
  cancel = λ os h. (os, true);
  set_affinity = λ os h mask. os;
  get_affinity = λ os h. some 15;
  set_sched_prio =
      λ os h q. if real_time then record os { priority = update os.priority h q } else os;
  get_sched_param = λ os h. some (os.priority h);
  set_name_of = λ os h name. os;
}

free_handle_free :
    (alive : ℕ → Bool) → (alive 7 && alive 8) ≡ false → alive (free_handle alive) ≡ false
free_handle_free alive room = elim (Bool-cases (alive 7)) [
  | inl first ↦ rw first (ground arith)
  | inr first ↦ rw first first
]

linux-create :
    (real_time : Bool) (os : System) (a : Option ℕ) (h : ℕ)
    → ((linux real_time).create os a h).1 ≡ true
    → (os.alive ((linux real_time).create os a h).2 ≡ false)
      × ((x : ℕ)
          → ((linux real_time).create os a h).0.alive x
            ≡ (((linux real_time).create os a h).2 == x || os.alive x))
linux-create real_time os a h made = elim (Bool-cases (os.alive 7 && os.alive 8)) [
  | inl full ↦ ground arith
  | inr room ↦ rw room (free_handle_free os.alive room, λ x. refl)
]

linux-PosixLaws : (real_time : Bool) → PosixLaws (linux real_time)
linux-PosixLaws real_time = record {
  live = λ os. os.alive;
  create-live = linux-create real_time;
  destroy-live = λ os a x. refl;
  set_affinity-live = λ os h mask x. refl;
  join-live = λ os h l x. refl;
  detach-live = λ os h l x. refl;
  cancel-live = λ os h l x. refl;
}

abbrev worker_attributes : ThreadAttributes
worker_attributes = named_attributes (119 ∷ [])

abbrev started : ThreadObjects (linux true)
started = record { os = record { alive = λ x. false; priority = λ h. 0 }; handle = λ i. 0 }

abbrev one_thread : ThreadObjects (linux true)
one_thread = (launch (linux true) started 1 worker_attributes).threads

abbrev two_threads : ThreadObjects (linux true)
two_threads = (launch (linux true) one_thread 2 worker_attributes).threads

-- The thread of the first object is moved to a third, and the second one's is joined.
abbrev one_left : ThreadObjects (linux true)
one_left = join (linux true) (move_construct_from (linux true) two_threads 3 1) 2

one_left-Reaches : Reaches (linux true) (linux-PosixLaws true) checked started one_left
unfolding launch create thread_attr scheduled sized destroy_attr set_core_affinity_mask
    move_construct_from move_construct named_attributes
one_left-Reaches =
    after started (move_construct_from (linux true) two_threads 3 1) one_left
      (after started two_threads _
        (after started one_thread two_threads
          (after started started one_thread (here started)
            (launched started 1 worker_attributes refl refl))
          (launched one_thread 2 worker_attributes refl refl))
        (moved two_threads 3 1 refl refl))
      (joined _ 2)

handles-owned_example :
    ((one_left.os).alive (one_left.handle 3) ≡ true) × (one_left.handle 3 ≢ one_left.handle 1)
unfolding launch create thread_attr scheduled sized destroy_attr set_core_affinity_mask
    move_construct_from move_construct join join_thread linux-PosixLaws
handles-owned_example =
    handles-owned (linux true) (linux-PosixLaws true) checked started one_left 3 1 (λ k. refl)
      one_left-Reaches refl (λ e. ground arith)

get_priority-set_priority_example :
    get_priority (linux true) (set_priority (linux true) started.os 7 above_normal) 7
    ≡ some above_normal
get_priority-set_priority_example =
    get_priority-set_priority (linux true) refl refl started.os 7 above_normal (λ q low high. refl)

get_priority_default_example :
    get_priority (linux false) (set_priority (linux false) started.os 7 normal) 7 ≡ some lowest
get_priority_default_example =
    get_priority_default (linux false) refl refl started.os 7 normal (λ q. refl) refl
