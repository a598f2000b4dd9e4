-- ===== src/Examples/Sleep.antt =====
-- A worker goes to sleep on empty queues, after a task that another worker has grabbed was dropped.
use oqpi.Base.{
  ℕ, ◌≡◌, refl, Bool, true, false, none, List, [], ◌∷◌, update, if◌then◌else◌, ◌==◌, arith,
}
use oqpi.Scheduling.Priority.{normal}
use oqpi.Scheduling.Task.{Store, is_open, try_grab}
use oqpi.Scheduling.Scheduler.Pump.{AllClosed}
use oqpi.Scheduling.Scheduler.Sleep.{
  Sleeper, draining, waiting, Steps, start_there, and_then, no_token, check, skip_level,
  empty_level, drop, give_up,
}
use oqpi.Scheduling.Scheduler.Wakeup.{waiting-AllClosed}

abbrev all_grabbed : Store
all_grabbed t = record { uid = 1; parent = none; priority = normal; grabbed = true; done = false }

abbrev not_first : ℕ → Bool
not_first i = if i == 0 then false else true

abbrev one_queued : ℕ → List ℕ
one_queued i = if i == 1 then 7 ∷ [] else []

abbrev awake : Sleeper
awake = record {
  pc = draining;
  store = all_grabbed;
  queue = one_queued;
  running = true;
  tokens = 0;
  wakes = 0;
}

abbrev asleep : Sleeper
asleep = record awake {
  pc = waiting;
  store = (try_grab all_grabbed 7).1;
  queue = update one_queued 1 [];
}

falls_asleep : Steps not_first awake asleep
unfolding is_open try_grab
falls_asleep =
    and_then
      (and_then
        (and_then
          (and_then
            (and_then
              (and_then
                (and_then (and_then (and_then start_there (no_token refl refl)) (check refl refl))
                  (skip_level 0 refl refl))
                (drop 1 7 [] refl refl refl))
              (empty_level 1 refl refl))
            (empty_level 2 refl refl))
          (empty_level 3 refl refl))
        (empty_level 4 refl refl))
      (give_up refl)

waiting-AllClosed_example : (true ≡ true) × AllClosed (is_open asleep.store) (asleep.queue 1)
waiting-AllClosed_example =
    waiting-AllClosed not_first awake asleep 1 refl falls_asleep refl refl refl refl (omega arith)
