-- ===== src/Synchronization/WinNames.antt =====
-- win_event.hpp and win_mutex.hpp: what their constructors make of a name, and that
-- they leave no handle open but their own.
use oqpi.Base.{
  ℕ, suc, ◌+◌, ◌-◌, ◌≡◌, refl, ◌∙◌, inl, inr, Bool, true, false, not, ◌&&◌, List, ◌∷◌,
  if◌then◌else◌, arith, Bool-cases,
}
use oqpi.Scheduling.Scheduler.{Build, checked, unchecked, ensure, ok}
use oqpi.Synchronization.Wrapper.{
  CreationOption, create_if_nonexistent, open_existing, open_or_create, opens_existing, is_empty,
}
use oqpi.Synchronization.Naming.{is_granted}
use oqpi.Synchronization.WinSemaphore.{creates_only}
use oqpi.Synchronization.WinEvent.{WinEventApi, close_win_event, make_win_event}
use oqpi.Synchronization.WinMutex.{WinMutexApi, make_win_mutex}
use oqpi.Synchronization.Event.{ResetPolicy, is_manual_reset_enabled}

-- What the documentation of Open…, Create… and CloseHandle says, for calls that do not fail for want
-- of memory or rights: `fits name` is whether the name is one that they take, of at most MAX_PATH
-- characters and with no backslash behind its prefix; `exists os name` is whether there is an object of that name and kind, and no
-- object of another kind has the name; `is_open os h` is whether `h` is an open handle of the process,
-- and `opened os` the number of those. Create… opens an object that exists, and tells so.
pub record NamedLaws {Os Handle : Type 0} (null : Handle) (same : Handle → Handle → Bool)
    (open_named : Os → List ℕ → Os × Handle) (create_named : Os → List ℕ → Os × Handle × Bool)
    (close_handle : Os → Handle → Os) : Type 0 where
  pub fits : List ℕ → Bool
  pub exists : Os → List ℕ → Bool
  pub is_open : Os → Handle → Bool
  pub opened : Os → ℕ
  pub null-same : same null null ≡ true
  pub open-found :
      (os : Os) (name : List ℕ)
      → fits name ≡ true
      → exists os name ≡ true
      → (same (open_named os name).1 null ≡ false)
        × (opened (open_named os name).0 ≡ suc (opened os))
  pub open-missing :
      (os : Os) (name : List ℕ)
      → fits name ≡ true
      → exists os name ≡ false
      → (same (open_named os name).1 null ≡ true) × (opened (open_named os name).0 ≡ opened os)
  pub create-opened :
      (os : Os) (name : List ℕ)
      → fits name ≡ true
      → (same (create_named os name).1 null ≡ false)
        × ((create_named os name).2 ≡ exists os name)
        × (is_open (create_named os name).0 (create_named os name).1 ≡ true)
        × (opened (create_named os name).0 ≡ suc (opened os))
  pub close-opened :
      (os : Os) (h : Handle) → is_open os h ≡ true → opened (close_handle os h) ≡ opened os - 1

module _ {Os Handle : Type 0} (null : Handle) (open_named : Os → List ℕ → Os × Handle)
    (create_named : Os → List ℕ → Os × Handle × Bool) (close_handle : Os → Handle → Os) where
  -- What the two constructors do.
  unfoldable pub make_named : CreationOption → Os → List ℕ → Os × Handle
  unfolding opens_existing creates_only
  make_named option os name =
      let created = create_named os name in
      if opens_existing option
      then open_named os name
      else if creates_only option && created.2
      then (close_handle created.0 created.1, null)
      else (created.0, created.1)

module _ {Os Handle : Type 0} (null : Handle) (same : Handle → Handle → Bool)
    (open_named : Os → List ℕ → Os × Handle) (create_named : Os → List ℕ → Os × Handle × Bool)
    (close_handle : Os → Handle → Os)
    (laws : NamedLaws null same open_named create_named close_handle) where
  -- The handle is valid just if the option says so, and then the only one more that is open.
  abbrev pub OpensGranted : CreationOption → Os → List ℕ → Os × Handle → Type 0
  OpensGranted option os name made =
      (not (same made.1 null) ≡ is_granted option (laws.exists os name))
      × (laws.opened made.0
          ≡ laws.opened os + (if is_granted option (laws.exists os name) then 1 else 0))

  pub make_named-OpensGranted :
      (option : CreationOption) (os : Os) (name : List ℕ)
      → laws.fits name ≡ true
      → OpensGranted option os name
          (make_named null open_named create_named close_handle option os name)
  unfolding make_named is_granted opens_existing creates_only
  make_named-OpensGranted create_if_nonexistent os name fit =
      let (real, told, open_now, more) = laws.create-opened os name fit in
      elim (Bool-cases (laws.exists os name)) [
        | inl there ↦
            rw (told, there, laws.null-same)
              (refl, laws.close-opened _ _ open_now ∙ omega (arith, more))
        | inr absent ↦ rw (told, absent, real) (refl, omega (arith, more))
      ]
  make_named-OpensGranted open_existing os name fit = elim (Bool-cases (laws.exists os name)) [
    | inl there ↦
        let (real, more) = laws.open-found os name fit there in
        rw (there, real) (refl, omega (arith, more))
    | inr absent ↦
        let (none_found, kept) = laws.open-missing os name fit absent in
        rw (absent, none_found) (refl, omega (arith, kept))
  ]
  make_named-OpensGranted open_or_create os name fit =
      let (real, told, open_now, more) = laws.create-opened os name fit in
      rw real (refl, omega (arith, more))

ok_if :
    {A : Type 0} (a b : Bool) (x y z : A)
    → (if a then ok x else if b then ok y else ok z) ≡ ok (if a then x else if b then y else z)
ok_if true b x y z = refl
ok_if false true x y z = refl
ok_if false false x y z = refl

-- The laws at events of one policy and first state.
abbrev pub EventNameLaws : WinEventApi → ResetPolicy → Bool → Type 0
EventNameLaws api policy initial_state =
    NamedLaws api.null api.same api.open_event
      (λ os name. api.create_event os (is_manual_reset_enabled policy) initial_state name)
      api.close_handle

ensure-true : (build : Build) → ensure build true ≡ true
ensure-true checked = refl
ensure-true unchecked = refl

-- The constructor of an event with a name, for every name that the system takes: with
-- create_if_nonexistent it yields a valid event just if none of the name exists, with open_existing
-- just if one does, and with open_or_create always; and there is one open handle more just if it does.
pub make_win_event-granted :
    (api : WinEventApi) (build : Build) (policy : ResetPolicy) (initial_state : Bool)
    (laws : EventNameLaws api policy initial_state) (option : CreationOption) (os : api.Os) (c : ℕ)
    (cs : List ℕ)
    → laws.fits (c ∷ cs) ≡ true
    → (made : api.Os × api.Handle) × (make_win_event api build policy os
          (c ∷ cs)
          option
          initial_state
        ≡ ok made)
      × (not (api.same made.1 api.null) ≡ is_granted option (laws.exists os (c ∷ cs)))
      × (laws.opened made.0
          ≡ laws.opened os + (if is_granted option (laws.exists os (c ∷ cs)) then 1 else 0))
unfolding make_win_event make_named close_win_event is_empty
make_win_event-granted api build policy initial_state laws option os c cs fit =
    let create = λ (o : api.Os) (n : List ℕ).
      api.create_event o (is_manual_reset_enabled policy) initial_state n in
    let granted =
      make_named-OpensGranted api.null api.same api.open_event create api.close_handle laws option
        os (c ∷ cs) fit in
    (
      make_named api.null api.open_event create api.close_handle option os (c ∷ cs),
      rw ((laws.create-opened os (c ∷ cs) fit).0, ensure-true build)
          (ok_if (opens_existing option) (creates_only option && (create os (c ∷ cs)).2) _ _ _),
      granted.0,
      granted.1,
    )

-- The laws at mutexes.
abbrev pub MutexNameLaws : WinMutexApi → ℕ → Bool → Type 0
MutexNameLaws api thread lock_on_creation =
    NamedLaws api.null api.same api.open_mutex
      (λ os name. api.create_mutex thread os lock_on_creation name) api.close_handle

-- The constructor of a mutex with a name, in any thread and for every name that the system takes: with
-- create_if_nonexistent it yields a valid mutex just if none of the name exists, with open_existing
-- just if one does, and with open_or_create always; and there is one open handle more just if it does.
pub make_win_mutex-granted :
    (api : WinMutexApi) (build : Build) (thread : ℕ) (lock_on_creation : Bool)
    (laws : MutexNameLaws api thread lock_on_creation) (option : CreationOption) (os : api.Os)
    (c : ℕ) (cs : List ℕ)
    → laws.fits (c ∷ cs) ≡ true
    → (made : api.Os × api.Handle) × (make_win_mutex api build thread os
          (c ∷ cs)
          option
          lock_on_creation
        ≡ ok made)
      × (not (api.same made.1 api.null) ≡ is_granted option (laws.exists os (c ∷ cs)))
      × (laws.opened made.0
          ≡ laws.opened os + (if is_granted option (laws.exists os (c ∷ cs)) then 1 else 0))
unfolding make_win_mutex make_named is_empty
make_win_mutex-granted api build thread lock_on_creation laws option os c cs fit =
    let create = λ (o : api.Os) (n : List ℕ). api.create_mutex thread o lock_on_creation n in
    let granted =
      make_named-OpensGranted api.null api.same api.open_mutex create api.close_handle laws option
        os (c ∷ cs) fit in
    (
      make_named api.null api.open_mutex create api.close_handle option os (c ∷ cs),
      rw ((laws.create-opened os (c ∷ cs) fit).0, ensure-true build)
          (ok_if (opens_existing option) (creates_only option && (create os (c ∷ cs)).2) _ _ _),
      granted.0,
      granted.1,
    )
