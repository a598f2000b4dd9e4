-- ===== src/Threading/Posix/Steps.antt =====
-- Who owns the threads, in any sequence of operations on the thread objects of a program.
use oqpi.Base.{ℕ, ◌≡◌, ◌≢◌, subst, update, true, false, some, arith, ◌==◌}
use oqpi.Scheduling.Scheduler.{Build}
use oqpi.Threading.Attributes.{ThreadAttributes}
use oqpi.Threading.Owned.{IsOwned, same-IsOwned, dropped-IsOwned, moved-IsOwned}
use oqpi.Threading.Posix.Defs.{PosixApi, move_construct, joinable}
use oqpi.Threading.Posix.Objects.{
  ThreadObjects, launch, destroy, move_construct_from, move_assign_from, join, detach, terminate,
}
use oqpi.Threading.Posix.Ownership.{
  PosixLaws, Owned, join-GivenUp, detach-GivenUp, terminate-GivenUp, with_handle-Owned,
  launch-Owned, move_assign-Owned,
}

-- An operation of the program on one or two of its objects, or a change of the system that is not one
-- of these calls and leaves alone which threads can be joined. A constructor is called where there
-- is no object, and a creation is one that succeeds.
pub data Step (api : PosixApi) (laws : PosixLaws api) (build : Build)
    : ThreadObjects api → ThreadObjects api → Type 0 where
  launched :
      (s : ThreadObjects api) (i : ℕ) (attributes : ThreadAttributes)
      → s.handle i ≡ 0
      → (launch api s i attributes).frees_launcher ≡ false
      → Step api laws build s (launch api s i attributes).threads
  moved :
      (s : ThreadObjects api) (i j : ℕ)
      → s.handle i ≡ 0
      → (i == j) ≡ false
      → Step api laws build s (move_construct_from api s i j)
  assigned :
      (s s' : ThreadObjects api) (i j : ℕ)
      → move_assign_from api build s i j ≡ some s'
      → Step api laws build s s'
  destroyed :
      (s s' : ThreadObjects api) (i : ℕ) → destroy api s i ≡ some s' → Step api laws build s s'
  joined : (s : ThreadObjects api) (i : ℕ) → Step api laws build s (join api s i)
  detached : (s : ThreadObjects api) (i : ℕ) → Step api laws build s (detach api s i)
  terminated : (s : ThreadObjects api) (i : ℕ) → Step api laws build s (terminate api s i)
  other :
      (s : ThreadObjects api) (os : api.Os)
      → ((x : ℕ) → laws.live os x ≡ laws.live s.os x)
      → Step api laws build s (record s { os = os })

pub data Reaches (api : PosixApi) (laws : PosixLaws api) (build : Build)
    : ThreadObjects api → ThreadObjects api → Type 0 where
  here : (s : ThreadObjects api) → Reaches api laws build s s
  after :
      (s s' s'' : ThreadObjects api)
      → Reaches api laws build s s'
      → Step api laws build s' s''
      → Reaches api laws build s s''

module _ (api : PosixApi) (laws : PosixLaws api) (build : Build) where
  destroyed_is :
      (s s' : ThreadObjects api) (i : ℕ)
      → destroy api s i ≡ some s'
      → record { os = s.os; handle = update s.handle i 0 } ≡ s'
  unfolding destroy joinable
  destroyed_is s s' i e = ground arith

  destroy-Owned :
      (s s' : ThreadObjects api) (i : ℕ)
      → destroy api s i ≡ some s'
      → Owned api laws s
      → Owned api laws s'
  unfolding destroy Owned IsOwned
  destroy-Owned s s' i e owned =
      subst (Owned api laws) (destroyed_is s s' i e)
        (dropped-IsOwned (laws.live s.os) s.handle owned i)

  Step-Owned :
      (s s' : ThreadObjects api) → Step api laws build s s' → Owned api laws s → Owned api laws s'
  unfolding Owned IsOwned join detach terminate move_construct_from move_construct
  Step-Owned _ _ (launched s i attributes free made) owned =
      launch-Owned api laws s i attributes made owned
  Step-Owned _ _ (moved s i j free apart) owned =
      moved-IsOwned (laws.live s.os) s.handle owned i j apart
  Step-Owned _ _ (assigned s s' i j e) owned = move_assign-Owned api laws build s s' i j e owned
  Step-Owned _ _ (destroyed s s' i e) owned = destroy-Owned s s' i e owned
  Step-Owned _ _ (joined s i) owned =
      with_handle-Owned api laws s i _ (join-GivenUp api laws s.os (s.handle i) (owned.0 i)) owned
  Step-Owned _ _ (detached s i) owned =
      with_handle-Owned api laws s i _ (detach-GivenUp api laws s.os (s.handle i) (owned.0 i)) owned
  Step-Owned _ _ (terminated s i) owned =
      with_handle-Owned api laws s i _ (terminate-GivenUp api laws s.os (s.handle i) (owned.0 i))
        owned
  Step-Owned _ _ (other s os same) owned =
      same-IsOwned (laws.live s.os) s.handle owned (laws.live os) same

  Reaches-Owned :
      (s s' : ThreadObjects api)
      → Reaches api laws build s s'
      → Owned api laws s
      → Owned api laws s'
  Reaches-Owned _ _ (here s) owned = owned
  Reaches-Owned _ _ (after s s₁ s' earlier step) owned =
      Step-Owned s₁ s' step (Reaches-Owned s s₁ earlier owned)

  -- However a program that begins without thread objects makes threads (each creation a success),
  -- moves, assigns, joins, detaches, terminates and destroys the objects, in any order: an object that
  -- holds a handle holds that of a thread that is neither joined nor detached, and none at another
  -- address holds the same. So no call of `join`, `detach` or `terminate` passes on another handle.
  pub handles-owned :
      (s s' : ThreadObjects api) (i j : ℕ)
      → ((k : ℕ) → s.handle k ≡ 0)
      → Reaches api laws build s s'
      → (i == j) ≡ false
      → s'.handle i ≢ 0
      → (laws.live s'.os (s'.handle i) ≡ true) × (s'.handle i ≢ s'.handle j)
  unfolding Owned IsOwned
  handles-owned s s' i j none run apart holds =
      let owned =
        Reaches-Owned s s' run (λ k h. absurd (h (none k)), λ k l h e. absurd (h (none k))) in
      (owned.0 i holds, λ e. ground (arith, owned.1 i j holds e))
