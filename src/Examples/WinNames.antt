-- ===== src/Examples/WinNames.antt =====
-- The theorems on the names of Windows at a system with one event and one mutex, both of one name.
use oqpi.Base.{
  ℕ, ◌+◌, ◌-◌, ◌≡◌, refl, Bool, true, false, not, [], ◌∷◌, ◌==◌, if◌then◌else◌, arith, ltb, length,
}
use oqpi.Scheduling.Scheduler.{checked, ok}
use oqpi.Synchronization.Wrapper.{create_if_nonexistent, open_existing}
use oqpi.Synchronization.Event.{manual_reset}
use oqpi.Synchronization.Naming.{is_granted}
use oqpi.Synchronization.WinSemaphore.{pending}
use oqpi.Synchronization.WinEvent.{WinEventApi, make_win_event}
use oqpi.Synchronization.WinMutex.{WinMutexApi, make_win_mutex}
use oqpi.Synchronization.WinNames.{NamedLaws, make_win_event-granted, make_win_mutex-granted}

record Named : Type 0 where
  there : Bool
  handles : ℕ

-- The object is at the handle 1.
abbrev created : Named → Named × ℕ × Bool
created os = (record { there = true; handles = os.handles + 1 }, 1, os.there)

abbrev found : Named → Named × ℕ
found os = if os.there then (record os { handles = os.handles + 1 }, 1) else (os, 0)

abbrev closed : Named → Named
closed os = record os { handles = os.handles - 1 }

abbrev events : WinEventApi
events = record {
  Os = Named;
  Handle = ℕ;
  null = 0;
  same = ◌==◌;
  open_event = λ os name. found os;
  create_event = λ os by_hand initial name. created os;
  close_handle = λ os h. closed os;
  set_event = λ os h. os;
  clear_event = λ os h. os;
  wait_for_single_object = λ os h time. (os, pending);
}

abbrev mutexes : WinMutexApi
mutexes = record {
  Os = Named;
  Handle = ℕ;
  null = 0;
  same = ◌==◌;
  open_mutex = λ os name. found os;
  create_mutex = λ thread os lock_on_creation name. created os;
  close_handle = λ os h. closed os;
  release_mutex = λ thread os h. (os, true);
  wait_for_single_object = λ thread os h time. (os, pending);
}

abbrev named_laws :
    NamedLaws {Os = Named} {Handle = ℕ} 0 ◌==◌
      (λ os name. found os)
      (λ os name. created os)
      (λ os h. closed os)
named_laws = record {
  fits = λ name. ltb (length name) 260;
  exists = λ os name. os.there;
  is_open = λ os h. h == 1;
  opened = λ os. os.handles;
  null-same = refl;
  open-found = λ os name fit there. rw there (refl, omega arith);
  open-missing = λ os name fit absent. rw absent (refl, refl);
  create-opened = λ os name fit. (refl, refl, refl, omega arith);
  close-opened = λ os h open_now. refl;
}

abbrev one_there : Named
one_there = record { there = true; handles = 1 }

make_win_event-granted_example :
    (made : Named × ℕ) × (make_win_event events checked manual_reset one_there
        (120 ∷ [])
        create_if_nonexistent
        false
      ≡ ok made)
    × (not (made.1 == 0) ≡ false)
    × (made.0.handles ≡ 1)
unfolding is_granted
make_win_event-granted_example =
    make_win_event-granted events checked manual_reset false named_laws create_if_nonexistent
      one_there 120 [] refl

make_win_mutex-granted_example :
    (made : Named × ℕ) × (make_win_mutex mutexes checked 7 one_there (120 ∷ []) open_existing false
      ≡ ok made)
    × (not (made.1 == 0) ≡ true)
    × (made.0.handles ≡ 2)
unfolding is_granted
make_win_mutex-granted_example =
    make_win_mutex-granted mutexes checked 7 false named_laws open_existing one_there 120 [] refl
