-- ===== src/Examples/Team.antt =====
-- Two threads at two tasks: the second thread first tries the task that the first one has.
use oqpi.Base.{ℕ, ◌≡◌, ◌⊎◌, refl, true, some, [], ◌∷◌, contains, update, arith, List}
use oqpi.Scheduling.Task.{try_grab, is_open}
use oqpi.Scheduling.Groups.Team.{
  idle, holding, Team, grabs, fails, Reach, here, next, started, has_task,
}
use oqpi.Scheduling.Groups.Team.Invariant.{AllOnce}
use oqpi.Scheduling.Groups.Team.Once.{team-once}
use oqpi.Examples.Groups.{fresh}

abbrev pair : List ℕ
pair = 1 ∷ 2 ∷ []

abbrev at_start : Team
at_start = started fresh 2

abbrev first_grabs : Team
first_grabs = record at_start {
  store = (try_grab fresh 1).1;
  place = update at_start.place 0 (holding 1);
}

abbrev second_fails : Team
second_fails = record first_grabs { store = (try_grab first_grabs.store 1).1 }

abbrev second_grabs : Team
second_grabs = record second_fails {
  store = (try_grab second_fails.store 2).1;
  place = update second_fails.place 1 (holding 2);
}

both_at_work : Reach pair at_start second_grabs
unfolding try_grab contains
both_at_work =
    next
      (next (next here (grabs at_start 0 1 refl refl refl)) (fails first_grabs 1 1 refl refl refl))
      (grabs second_fails 1 2 refl refl refl)

fresh-open : (t : ℕ) → contains pair t ≡ true → is_open fresh t ≡ true
unfolding is_open
fresh-open t inside = refl

team-once_example :
    ((i j t : ℕ)
      → has_task (second_grabs.place i) ≡ some t
      → has_task (second_grabs.place j) ≡ some t
      → i ≡ j)
    × AllOnce second_grabs.calls
    × ((second_grabs.ended ≡ 0)
        ⊎ ((second_grabs.ended ≡ 1)
            × ((t : ℕ)
                → contains pair t ≡ true
                → ((second_grabs.store t).done ≡ true) × (contains second_grabs.calls t ≡ true))))
    × (((i : ℕ) → second_grabs.place i ≡ idle)
        → ((t : ℕ) → contains pair t ≡ true → (second_grabs.store t).grabbed ≡ true)
        → second_grabs.ended ≡ 1)
unfolding AllOnce contains
team-once_example =
    team-once pair fresh second_grabs (refl, (refl, tt)) (omega arith) fresh-open both_at_work
