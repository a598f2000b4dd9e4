-- ===== src/Threading/Posix/Ownership.antt =====
-- What each operation on thread objects does to the ownership of threads.
use oqpi.Base.{
  ℕ, ◌⊎◌, ◌≡◌, ◌≢◌, refl, sym, ◌∙◌, Bool, true, false, not, ◌&&◌, ◌||◌, Option, none, some, arith,
  subst, if◌then◌else◌, ◌==◌, update, Bool-cases, inl, inr,
}
use oqpi.Scheduling.Scheduler.{Build, checked, unchecked}
use oqpi.Threading.Attributes.{ThreadAttributes}
use oqpi.Threading.Owned.{
  IsOwned, kept-IsOwned, same-IsOwned, dropped-IsOwned, released-IsOwned, acquired-IsOwned,
  moved-IsOwned,
}
use oqpi.Threading.Posix.Defs.{
  PosixApi, create, thread_attr, destroy_attr, set_core_affinity_mask, join_thread, detach_thread,
  terminate_thread, move_assign, joinable,
}
use oqpi.Threading.Posix.Objects.{ThreadObjects, with_handle, launch, move_assign_from}

-- What the manual says of the calls: `live os` are the threads that are neither joined nor detached. A
-- call that fails changes none of them, and neither does a cancellation. The manual leaves undefined
-- what joining, detaching or cancelling another handle does, and so do the laws.
pub record PosixLaws (api : PosixApi) : Type 0 where
  pub live : api.Os → ℕ → Bool
  pub create-live :
      (os : api.Os) (attr : Option api.Attr) (h : ℕ)
      → (api.create os attr h).1 ≡ true
      → (live os (api.create os attr h).2 ≡ false)
        × ((x : ℕ) → live (api.create os attr h).0 x ≡ ((api.create os attr h).2 == x || live os x))
  pub destroy-live :
      (os : api.Os) (attr : api.Attr) (x : ℕ) → live (api.destroy os attr) x ≡ live os x
  pub set_affinity-live :
      (os : api.Os) (h mask x : ℕ) → live (api.set_affinity os h mask) x ≡ live os x
  pub join-live :
      (os : api.Os) (h : ℕ)
      → live os h ≡ true
      → (x : ℕ)
      → live (api.join os h).0 x
        ≡ (if (api.join os h).1 then live os x && not (h == x) else live os x)
  pub detach-live :
      (os : api.Os) (h : ℕ)
      → live os h ≡ true
      → (x : ℕ)
      → live (api.detach os h).0 x
        ≡ (if (api.detach os h).1 then live os x && not (h == x) else live os x)
  pub cancel-live :
      (os : api.Os) (h : ℕ) → live os h ≡ true → (x : ℕ) → live (api.cancel os h).0 x ≡ live os x

module _ (api : PosixApi) (laws : PosixLaws api) where
  unfoldable pub Owned : ThreadObjects api → Type 0
  unfolding IsOwned
  Owned s = IsOwned (laws.live s.os) s.handle

  -- What a call leaves of the thread of one object: all as it was, or nothing, and the thread is over or
  -- runs on.
  pub data GivenUp (os : api.Os) (h : ℕ) (r : api.Os × ℕ) : Type 0 where
    kept : r.1 ≡ h → ((x : ℕ) → laws.live r.0 x ≡ laws.live os x) → GivenUp os h r
    over : r.1 ≡ 0 → ((x : ℕ) → laws.live r.0 x ≡ (laws.live os x && not (h == x))) → GivenUp os h r
    dropped : r.1 ≡ 0 → ((x : ℕ) → laws.live r.0 x ≡ laws.live os x) → GivenUp os h r

  GivenUp-Owned :
      (s : ThreadObjects api) (i : ℕ) (r : api.Os × ℕ)
      → GivenUp s.os (s.handle i) r
      → Owned s
      → IsOwned (laws.live r.0) (update s.handle i r.1)
  unfolding Owned
  GivenUp-Owned s i r (kept e same) owned = rw e (
      same-IsOwned (laws.live s.os) (update s.handle i (s.handle i))
        (kept-IsOwned (laws.live s.os) s.handle owned i) (laws.live r.0) same)
  GivenUp-Owned s i r (over e ended) owned =
      rw e (released-IsOwned (laws.live s.os) s.handle owned i (laws.live r.0) ended)
  GivenUp-Owned s i r (dropped e same) owned = rw e (
      same-IsOwned (laws.live s.os) (update s.handle i 0)
        (dropped-IsOwned (laws.live s.os) s.handle owned i) (laws.live r.0) same)

  -- A call that ends the ownership if it succeeds.
  ended-GivenUp :
      (os : api.Os) (h : ℕ) (r : api.Os × Bool)
      → ((x : ℕ)
          → laws.live r.0 x ≡ (if r.1 then laws.live os x && not (h == x) else laws.live os x))
      → GivenUp os h (if r.1 then (r.0, 0) else (r.0, h))
  ended-GivenUp os h (os', true) live = over refl live
  ended-GivenUp os h (os', false) live = kept refl live

  module _ (os : api.Os) (h : ℕ) (owned : h ≢ 0 → laws.live os h ≡ true) where
    none-GivenUp : GivenUp os h (os, h)
    none-GivenUp = kept refl (λ x. refl)

    is_live : (h == 0) ≡ false → laws.live os h ≡ true
    is_live e = owned (ground arith)

    pub join-GivenUp : GivenUp os h (join_thread api os h)
    unfolding join_thread
    join-GivenUp = elim (Bool-cases (h == 0)) [
      | inl e ↦ rw e none-GivenUp
      | inr e ↦ rw e (elim (Bool-cases (h == api.self os)) [
        | inl own ↦ rw own none-GivenUp
        | inr others ↦
            rw others (ended-GivenUp os h (api.join os h) (laws.join-live os h (is_live e)))
      ])
    ]

    pub detach-GivenUp : GivenUp os h (detach_thread api os h)
    unfolding detach_thread
    detach-GivenUp = elim (Bool-cases (h == 0)) [
      | inl e ↦ rw e none-GivenUp
      | inr e ↦ rw e (ended-GivenUp os h (api.detach os h) (laws.detach-live os h (is_live e)))
    ]

    cancelled-GivenUp :
        (r : api.Os × Bool)
        → ((x : ℕ) → laws.live r.0 x ≡ laws.live os x)
        → GivenUp os h (if r.1 then (r.0, 0) else (r.0, h))
    cancelled-GivenUp (os', true) live = dropped refl live
    cancelled-GivenUp (os', false) live = kept refl live

    pub terminate-GivenUp : GivenUp os h (terminate_thread api os h)
    unfolding terminate_thread
    terminate-GivenUp = elim (Bool-cases (h == 0)) [
      | inl e ↦ rw e none-GivenUp
      | inr e ↦ rw e (cancelled-GivenUp (api.cancel os h) (laws.cancel-live os h (is_live e)))
    ]

  pub with_handle-Owned :
      (s : ThreadObjects api) (i : ℕ) (r : api.Os × ℕ)
      → GivenUp s.os (s.handle i) r
      → Owned s
      → Owned (with_handle api s i r)
  unfolding Owned
  with_handle-Owned s i (os, h) given owned = GivenUp-Owned s i (os, h) given owned

  destroyed_attr-live :
      (os : api.Os) (attr : Option api.Attr) (x : ℕ)
      → laws.live (destroy_attr api os attr) x ≡ laws.live os x
  unfolding destroy_attr
  destroyed_attr-live os none x = refl
  destroyed_attr-live os (some attr) x = laws.destroy-live os attr x

  made-Owned :
      (s : ThreadObjects api) (i : ℕ) (attr : Option api.Attr) (mask : ℕ)
      → (api.create s.os attr 0).1 ≡ true
      → Owned s
      → IsOwned
          (laws.live (
            set_core_affinity_mask api
              (destroy_attr api (api.create s.os attr 0).0 attr)
              (api.create s.os attr 0).2
              mask))
          (update s.handle i (api.create s.os attr 0).2)
  unfolding Owned set_core_affinity_mask
  made-Owned s i attr mask made owned =
      let (os, ok, h) = api.create s.os attr 0 in
      let (fresh, live) = laws.create-live s.os attr 0 made in
      acquired-IsOwned (laws.live s.os) s.handle owned i (api.create s.os attr 0).2 _ fresh (λ x.
        laws.set_affinity-live (destroy_attr api (api.create s.os attr 0).0 attr)
          (api.create s.os attr 0).2 mask x
        ∙ destroyed_attr-live (api.create s.os attr 0).0 attr x
        ∙ live x)

  launch_made :
      (s : ThreadObjects api) (i : ℕ) (attributes : ThreadAttributes) (attr : Option api.Attr)
      → thread_attr api s.os attributes ≡ attr
      → (api.create s.os attr 0).1 ≡ true
      → (launch api s i attributes).threads
        ≡ with_handle api s i (
          set_core_affinity_mask api
              (destroy_attr api (api.create s.os attr 0).0 attr)
              (api.create s.os attr 0).2
              attributes.core_affinity_mask,
          (api.create s.os attr 0).2,
        )
  unfolding launch create
  launch_made s i attributes attr e made = rw (e, made, launch, create) refl

  launch_failed :
      (s : ThreadObjects api) (i : ℕ) (attributes : ThreadAttributes)
      → (api.create s.os (thread_attr api s.os attributes) 0).1 ≡ false
      → (launch api s i attributes).frees_launcher ≡ true
  unfolding launch create
  launch_failed s i attributes failed = rw (failed, launch, create) refl

  pub launch-Owned :
      (s : ThreadObjects api) (i : ℕ) (attributes : ThreadAttributes)
      → (launch api s i attributes).frees_launcher ≡ false
      → Owned s
      → Owned (launch api s i attributes).threads
  unfolding Owned IsOwned
  launch-Owned s i attributes made owned =
      let attr = thread_attr api s.os attributes in
      elim (Bool-cases (api.create s.os attr 0).1) [
        | inl created ↦
            subst Owned (sym (launch_made s i attributes attr refl created))
              (made-Owned s i attr attributes.core_affinity_mask created owned)
        | inr failed ↦ cc (made, launch_failed s i attributes failed)
      ]

  assigned_cases :
      (build : Build) (s s' : ThreadObjects api) (i j : ℕ)
      → move_assign_from api build s i j ≡ some s'
      → (s ≡ s')
        ⊎ (((i == j) ≡ false)
            × (record { os = s.os; handle = update (update s.handle i (s.handle j)) j 0 } ≡ s'))
  unfolding move_assign_from move_assign joinable
  assigned_cases checked s s' i j e = ground arith
  assigned_cases unchecked s s' i j e = ground arith

  pub move_assign-Owned :
      (build : Build) (s s' : ThreadObjects api) (i j : ℕ)
      → move_assign_from api build s i j ≡ some s'
      → Owned s
      → Owned s'
  unfolding Owned IsOwned
  move_assign-Owned build s s' i j e owned = elim (assigned_cases build s s' i j e) [
    | inl same ↦ subst Owned same owned
    | inr (apart, moved_to) ↦
        subst Owned moved_to (moved-IsOwned (laws.live s.os) s.handle owned i j apart)
  ]
