-- ===== src/Scheduling/Groups/Limit.antt =====
-- parallel_group.hpp: how many tasks of a group executeImpl puts into the queues.
use mathlib.Core.List.{append-nil}
use oqpi.Base.{
  ℕ, zero, suc, ◌+◌, ◌-◌, ◌<◌, ◌≤◌, ◌≡◌, refl, sym, ap, subst, ◌∙◌, true, false, some, List, [],
  ◌∷◌, ◌++◌, if◌then◌else◌, arith, leb, ◌==◌, Bool-cases, inl, inr, length, take,
}
use oqpi.Scheduling.Task.{Store, is_open}
use oqpi.Scheduling.Scheduler.{Scheduler, add, Outcome, ok, fault, spent, ◌>>=◌}
use oqpi.Scheduling.Groups.Objects.{ParallelGroup, World, schedule, set_node, parallel_group, from}
use oqpi.Scheduling.Groups.Exec.{Forked, is_enough, fork_loop, fork, grab_and}

-- The tasks go into the queues, one after the other.
unfoldable pub schedule_all : World → List ℕ → Outcome World
unfolding schedule
schedule_all w [] = ok w
schedule_all w (t ∷ ts) = schedule w (some t) >>= λ w'. schedule_all w' ts

unfoldable pub AllOpen : Store → List ℕ → Type 0
AllOpen s [] = Unit {0}
AllOpen s (t ∷ ts) = (is_open s t ≡ true) × AllOpen s ts

-- How many tasks the loop still adds when it has added so many.
unfoldable pub room : ℕ → ℕ → ℕ
room max scheduled = if leb (max - 1) (scheduled + 1) then 1 else max - 1 - scheduled

-- How far the index moves over so many tasks.
unfoldable pub moves : ℕ → ℕ → ℕ
moves room tasks = if leb room tasks then room else suc tasks

>>=-assoc {ℓ} :
    {A B C : Type ℓ} (m : Outcome A) (f : A → Outcome B) (k : B → Outcome C)
    → ((m >>= f) >>= k) ≡ (m >>= λ a. f a >>= k)
>>=-assoc (ok a) f k = refl
>>=-assoc fault f k = refl
>>=-assoc spent f k = refl

room-more :
    (max scheduled : ℕ)
    → leb (max - 1) (scheduled + 1) ≡ false
    → room max scheduled ≡ suc (room max (scheduled + 1))
unfolding room
room-more max scheduled more = ground arith

room-last : (max scheduled : ℕ) → leb (max - 1) (scheduled + 1) ≡ true → room max scheduled ≡ 1
unfolding room
room-last max scheduled last = rw last refl

moves-suc : (n tasks : ℕ) → suc (moves n tasks) ≡ moves (suc n) (suc tasks)
unfolding moves
moves-suc n tasks = ground arith

-- What follows an `add` has to be known only for worlds with another scheduler.
bind-scheduled {ℓ} :
    {B : Type ℓ} (w : World) (o : Outcome Scheduler) (f k : World → Outcome B)
    → ((s : Scheduler) → f (record w { scheduler = s }) ≡ k (record w { scheduler = s }))
    → ((o >>= λ s. ok (record w { scheduler = s })) >>= f)
      ≡ ((o >>= λ s. ok (record w { scheduler = s })) >>= k)
bind-scheduled w (ok s) f k same = same s
bind-scheduled w fault f k same = refl
bind-scheduled w spent f k same = refl

after_schedule {ℓ} :
    {B : Type ℓ} (w : World) (t : ℕ) (f k : World → Outcome B)
    → ((s : Scheduler) → f (record w { scheduler = s }) ≡ k (record w { scheduler = s }))
    → (schedule w (some t) >>= f) ≡ (schedule w (some t) >>= k)
unfolding schedule
after_schedule w t f k same =
    bind-scheduled w (add w.add_fuel w.build w.store w.scheduler (some t)) f k same

-- The index and the world.
abbrev forked_to : ℕ → World → Outcome Forked
forked_to n w = ok (record { moved = n; world = w })

abbrev bump : Forked → Outcome Forked
bump f = ok (record f { moved = suc f.moved })

nothing_left :
    (n : ℕ) (w : World)
    → 0 < n
    → forked_to 1 w ≡ (schedule_all w (take n []) >>= forked_to (moves n 0))
unfolding schedule_all moves
nothing_left zero w l = absurd (omega arith)
nothing_left (suc n) w l = ground arith

loop_lem :
    (max scheduled : ℕ) (w : World) (t : ℕ) (ts : List ℕ)
    → is_open w.store t ≡ true
    → fork_loop max scheduled w (t ∷ ts) ≡ (
        schedule w (some t) >>= λ w'.
        if is_enough max scheduled
        then forked_to 1 w'
        else (fork_loop max (scheduled + 1) w' ts >>= bump))
unfolding fork_loop
loop_lem max scheduled w t ts free = rw free refl

-- One task more.
one_more :
    (max scheduled n m : ℕ) (w : World) (t : ℕ) (ts ss : List ℕ)
    → is_enough max scheduled ≡ false
    → is_open w.store t ≡ true
    → suc n ≡ m
    → ((s : Scheduler)
        → fork_loop max (scheduled + 1) (record w { scheduler = s }) ts
          ≡ (schedule_all (record w { scheduler = s }) ss >>= forked_to n))
    → fork_loop max scheduled w (t ∷ ts) ≡ (schedule_all w (t ∷ ss) >>= forked_to m)
unfolding schedule_all
one_more max scheduled n m w t ts ss more free count rest =
    loop_lem max scheduled w t ts free
    ∙ after_schedule w t _ (λ w'. schedule_all w' ss >>= forked_to (suc n))
        (λ s. rw more (
          ap (λ o. o >>= bump) (rest s)
          ∙ >>=-assoc (schedule_all (record w { scheduler = s }) ss) (forked_to n) bump))
    ∙ sym (>>=-assoc (schedule w (some t)) (λ w'. schedule_all w' ss) (forked_to (suc n)))
    ∙ ap (λ k. schedule_all w (t ∷ ss) >>= forked_to k) count

fork_loop-unlimited :
    (scheduled : ℕ) (w : World) (ts : List ℕ)
    → AllOpen w.store ts
    → fork_loop 0 scheduled w ts ≡ (schedule_all w ts >>= forked_to (suc (length ts)))
unfolding AllOpen schedule_all is_enough fork_loop
fork_loop-unlimited scheduled w [] all = refl
fork_loop-unlimited scheduled w (t ∷ ts) (free, all) =
    one_more 0 scheduled (suc (length ts)) (suc (suc (length ts))) w t ts ts refl free refl
      (λ s. fork_loop-unlimited (scheduled + 1) (record w { scheduler = s }) ts all)

room-pos : (max scheduled : ℕ) → 0 < room max scheduled
unfolding room
room-pos max scheduled = ground arith

enough_lem : (max scheduled : ℕ) → 0 < max → is_enough max scheduled ≡ leb (max - 1) (scheduled + 1)
unfolding is_enough
enough_lem max scheduled l = ground arith

moves-one : (n : ℕ) → moves 1 (suc n) ≡ 1
unfolding moves
moves-one n = ground arith

fork_loop-limited :
    (max scheduled : ℕ) (w : World) (ts : List ℕ)
    → 0 < max
    → AllOpen w.store ts
    → fork_loop max scheduled w ts ≡ (
        schedule_all w (take (room max scheduled) ts)
        >>= forked_to (moves (room max scheduled) (length ts)))
unfolding AllOpen schedule_all fork_loop
fork_loop-limited max scheduled w [] some_room all =
    nothing_left (room max scheduled) w (room-pos max scheduled)
fork_loop-limited max scheduled w (t ∷ ts) some_room (free, all) =
    let added =
      λ (n : ℕ). schedule_all w (take n (t ∷ ts)) >>= forked_to (moves n (suc (length ts))) in
    elim (Bool-cases (leb (max - 1) (scheduled + 1))) [
      | inl last ↦
          loop_lem max scheduled w t ts free
          ∙ after_schedule w t _ (forked_to 1)
              (λ s. rw (enough_lem max scheduled some_room, last) refl)
          ∙ ap (λ n. schedule w (some t) >>= forked_to n) (sym (moves-one (length ts)))
          ∙ sym (
              >>=-assoc (schedule w (some t)) (λ w'. ok w') (forked_to (moves 1 (suc (length ts)))))
          ∙ ap added (sym (room-last max scheduled last))
      | inr more ↦
          one_more max scheduled (moves (room max (scheduled + 1)) (length ts))
            (moves (suc (room max (scheduled + 1))) (suc (length ts))) w t ts
            (take (room max (scheduled + 1)) ts) (enough_lem max scheduled some_room ∙ more) free
            (moves-suc (room max (scheduled + 1)) (length ts))
            (λ s.
              fork_loop-limited max (scheduled + 1) (record w { scheduler = s }) ts some_room all)
          ∙ ap added (sym (room-more max scheduled more))
    ]

-- The tasks that the loop adds, of those behind the first one.
unfoldable pub added : ℕ → List ℕ → List ℕ
unfolding room
added max ts = if max == 0 then ts else take (room max 0) ts

from-behind : (ts : List ℕ) → from (suc (length ts)) ts ≡ []
from-behind [] = refl
from-behind (t ∷ ts) = from-behind ts

moves-zero : (n : ℕ) → moves 0 n ≡ 0
unfolding moves
moves-zero n = ground arith

moves-empty : (n : ℕ) → moves (suc n) 0 ≡ 1
unfolding moves
moves-empty n = ground arith

take-from : (n : ℕ) (ts : List ℕ) → take n ts ++ from (moves n (length ts)) ts ≡ ts
unfolding moves
take-from zero ts = ap (λ k. from k ts) (moves-zero (length ts))
take-from (suc n) [] = ap (λ k. from k []) (moves-empty n)
take-from (suc n) (t ∷ ts) =
    ap (λ k. t ∷ (take n ts ++ from k (t ∷ ts))) (sym (moves-suc n (length ts)))
    ∙ ap (λ l. t ∷ l) (take-from n ts)

length-take_le : (n : ℕ) (ts : List ℕ) → length (take n ts) ≤ n
length-take_le zero ts = omega arith
length-take_le (suc n) [] = omega arith
length-take_le (suc n) (t ∷ ts) = omega (arith, length-take_le n ts)

one_add : (n : ℕ) → 1 + n ≡ suc n
one_add n = omega arith

added-unlimited : (max : ℕ) (ts : List ℕ) → max ≡ 0 → added max ts ≡ ts
unfolding added
added-unlimited max ts none = rw none refl

added-limited : (max : ℕ) (ts : List ℕ) → 2 ≤ max → length (added max ts) + 1 ≤ max
unfolding added room
added-limited max ts some_room = ground (arith, length-take_le (room max 0) ts)

added-one : (max : ℕ) (ts : List ℕ) → max ≡ 1 → 0 < length ts → length (added max ts) + 1 ≡ 2
unfolding added room
added-one max [] one some_task = absurd (omega arith)
added-one max (x ∷ ts) one some_task = rw one refl

module _ (execute : World → ℕ → Outcome World) (w : World) (g : ℕ) (p : ParallelGroup) (t : ℕ)
    (ts : List ℕ) (tasks : p.tasks ≡ t ∷ ts) (index : p.current_task_index ≡ 1)
    (all : AllOpen w.store ts) where
  abbrev after : ℕ → World → Outcome World
  after n w' =
      grab_and execute (set_node w' g (parallel_group (record p { current_task_index = n }))) t

  fork_lem :
      fork execute w g p
      ≡ (fork_loop p.max_simultaneous_tasks 0 w ts >>= λ f. after (1 + f.moved) f.world)
  unfolding fork
  fork_lem =
      let started : ParallelGroup = record p { tasks = t ∷ ts; current_task_index = 1 } in
      let shape : started ≡ p =
        λ i. record p { tasks = sym tasks i; current_task_index = sym index i } in
      subst
        (λ q. fork execute w g q ≡ (
          fork_loop q.max_simultaneous_tasks 0 w ts >>= λ f.
          grab_and execute
            (set_node f.world g (parallel_group (record q { current_task_index = 1 + f.moved })))
            t))
        shape refl

  fork_index :
      (n : ℕ) × (fork execute w g p
        ≡ (schedule_all w (added p.max_simultaneous_tasks ts) >>= after n))
      × (added p.max_simultaneous_tasks ts ++ from n p.tasks ≡ ts)
  unfolding added
  fork_index = elim (Bool-cases (p.max_simultaneous_tasks == 0)) [
    | inl none ↦ (
      1 + suc (length ts),
      fork_lem
          ∙ ap (λ o. o >>= λ f. after (1 + f.moved) f.world)
              (ap (λ m. fork_loop m 0 w ts)
                  (let e : p.max_simultaneous_tasks ≡ 0 = ground arith in e)
                ∙ fork_loop-unlimited 0 w ts all)
          ∙ rw none (
              >>=-assoc (schedule_all w ts) (forked_to (suc (length ts)))
                (λ f. after (1 + f.moved) f.world)),
      rw (none, tasks)
          (ap (λ k. ts ++ from k (t ∷ ts)) (one_add (suc (length ts)))
            ∙ ap (λ l. ts ++ l) (from-behind ts)
            ∙ append-nil ts),
    )
    | inr limited ↦ (
      1 + moves (room p.max_simultaneous_tasks 0) (length ts),
      fork_lem
          ∙ ap (λ o. o >>= λ f. after (1 + f.moved) f.world)
              (fork_loop-limited p.max_simultaneous_tasks 0 w ts (ground arith) all)
          ∙ rw limited (
              >>=-assoc (schedule_all w (take (room p.max_simultaneous_tasks 0) ts))
                (forked_to (moves (room p.max_simultaneous_tasks 0) (length ts)))
                (λ f. after (1 + f.moved) f.world)),
      rw (limited, tasks)
          (ap (λ k. take (room p.max_simultaneous_tasks 0) ts ++ from k (t ∷ ts))
              (one_add (moves (room p.max_simultaneous_tasks 0) (length ts)))
            ∙ take-from (room p.max_simultaneous_tasks 0) ts),
    )
  ]

-- A parallel group that starts, with its tasks behind the first one open: executeImpl puts the first
-- of these into the queues, in order, moves the index just behind them, and then runs the first
-- task itself if no one has grabbed it. Without a limit it adds all of them. With a limit of at
-- least two these and the first task are no more than the limit; but with a limit of one, and more
-- than one task, they are two.
pub fork-adds :
    (execute : World → ℕ → Outcome World) (w : World) (g : ℕ) (p : ParallelGroup) (t : ℕ)
    (ts : List ℕ)
    → p.tasks ≡ t ∷ ts
    → p.current_task_index ≡ 1
    → AllOpen w.store ts
    → ((index : ℕ) × (fork execute w g p ≡ (
          schedule_all w (added p.max_simultaneous_tasks ts) >>= λ w'.
          grab_and execute
            (set_node w' g (parallel_group (record p { current_task_index = index })))
            t))
        × (added p.max_simultaneous_tasks ts ++ from index p.tasks ≡ ts))
      × (p.max_simultaneous_tasks ≡ 0 → added p.max_simultaneous_tasks ts ≡ ts)
      × (2 ≤ p.max_simultaneous_tasks
          → length (added p.max_simultaneous_tasks ts) + 1 ≤ p.max_simultaneous_tasks)
      × (p.max_simultaneous_tasks ≡ 1
          → 0 < length ts
          → length (added p.max_simultaneous_tasks ts) + 1 ≡ 2)
fork-adds execute w g p t ts tasks index all = (
  fork_index execute w g p t ts tasks index all,
  added-unlimited p.max_simultaneous_tasks ts,
  added-limited p.max_simultaneous_tasks ts,
  added-one p.max_simultaneous_tasks ts,
)
