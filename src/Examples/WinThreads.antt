-- ===== src/Examples/WinThreads.antt =====
-- A system of Windows whose process may run on its third and fourth core only.
use oqpi.Base.{
  ℕ, ◌≡◌, ◌≢◌, refl, ◌%◌, ◌^◌, Bool, true, false, ◌||◌, some, arith, if◌then◌else◌, ◌==◌,
}
use oqpi.Threading.Win.Defs.{WinThreadApi, Level, normal_level, get_win_affinity}
use oqpi.Threading.Win.Affinity.{WinThreadLaws, get_win_affinity-affinity}

pub record WinSystem : Type 0 where
  pub mask : ℕ
  pub level : Level

abbrev of_process : ℕ → Bool
of_process mask = mask == 4 || mask == 8 || mask == 12

abbrev mask_of : WinSystem → ℕ
mask_of os = if of_process os.mask then os.mask else 0

abbrev windows : WinThreadApi
windows = record {
  Os = WinSystem;
  active_processors = 4;
  current_thread_id = λ os. 1;
  current_thread = 99;
  create_thread = λ os stack. (os, 3, 5);
  wait_infinite = λ os h. (os, true);
  close_handle = λ os h. (os, true);
  terminate_thread = λ os h. (os, true);
  cancel_synchronous_io = λ os h. os;
  set_priority_of = λ os h level. record os { level = level };
  get_priority_of = λ os h. some os.level;
  set_affinity = λ os h mask.
      if of_process mask then (record os { mask = mask }, mask_of os, false) else (os, 0, true);
  to_wide = λ name. name;
  set_description = λ os h name. os;
}

mask_of-of_process : (os : WinSystem) → mask_of os ≢ 0 → of_process (mask_of os) ≡ true
mask_of-of_process os held = ground arith

windows-WinThreadLaws : WinThreadLaws windows
windows-WinThreadLaws = record {
  affinity = λ os h. mask_of os;
  accepted = of_process;
  held-accepted = λ os h held. mask_of-of_process os held;
  set-accepted = λ os h mask held yes. rw yes (refl, rw yes refl);
  set-refused = λ os h mask held no. rw no (refl, refl, refl);
}

abbrev on_fourth : WinSystem
on_fourth = record { mask = 8; level = normal_level }

get_win_affinity-affinity_example :
    ((get_win_affinity windows on_fourth 3).1 ≡ 8 % 2 ^ 32)
    × (mask_of (get_win_affinity windows on_fourth 3).0 ≡ 8)
unfolding windows-WinThreadLaws
get_win_affinity-affinity_example =
    get_win_affinity-affinity windows windows-WinThreadLaws on_fourth 3 2 (λ e. ground arith)
      (omega arith) refl
