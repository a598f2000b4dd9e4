-- ===== src/Examples/Registry.antt =====
-- Two workers for any priority and one for the high priority, started; a configuration with the
-- count -1 comes before that.
use oqpi.Base.{◌≡◌, refl, List, [], ◌∷◌, ◌++◌, map, arith}
use oqpi.Base.Int.{pos, negsuc, ◌+ℤ◌, ◌-ℤ◌}
use oqpi.Examples.Helpers.{roamers, team}
use oqpi.Scheduling.Priority.{high, wprio_high, can_work_on_priority}
use oqpi.Scheduling.Scheduler.{
  checked, ok, Scheduler, WorkerConfig, make_scheduler, register_worker, start, workers_count,
  count_workers, make_worker, start_worker, all_int32, all_staffed, new_workers,
}
use oqpi.Scheduling.Scheduler.Registry.{
  SchedulerOp, register, begin, scheduler_run, scheduler_step, capable, missing,
  workers_count-capable,
}

abbrev specialist : WorkerConfig
specialist = record { worker_prio = wprio_high; count = pos 1 }

-- One that the source does not refuse.
abbrev mistaken : WorkerConfig
mistaken = record { worker_prio = wprio_high; count = negsuc 0 }

abbrev crew : Scheduler
crew = record team { workers = team.workers ++ map start_worker (make_worker 0 specialist ∷ []) }

abbrev crew_calls : List SchedulerOp
crew_calls = register roamers ∷ register specialist ∷ register mistaken ∷ begin ∷ []

crew-run : scheduler_run checked make_scheduler crew_calls ≡ ok crew
unfolding scheduler_run scheduler_step register_worker start make_scheduler count_workers all_int32
    all_staffed ◌+ℤ◌ new_workers can_work_on_priority
crew-run = refl

workers_count-capable_example :
    workers_count crew high ≡ pos (capable high crew.workers) -ℤ pos (missing high crew_calls)
workers_count-capable_example =
    workers_count-capable checked crew_calls crew high crew-run (omega arith)
