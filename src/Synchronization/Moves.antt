-- ===== src/Synchronization/Moves.antt =====
-- posix_semaphore_wrapper.hpp: moving the objects and destroying them.
use oqpi.Base.{◌≡◌, refl, ap, inl, inr, true, false, not, Bool-cases}
use oqpi.Synchronization.Api.{SemApi}
use oqpi.Synchronization.Wrapper.{Wrapper, is_valid, release, move_construct, move_assign}

module _ (api : SemApi) (null-same : api.same api.null api.null ≡ true) where
  release-empty :
      (os : api.Os) (s : Wrapper api) → is_valid api s ≡ false → (release api os s).0 ≡ os
  unfolding release
  release-empty os s e = rw e refl

  -- A semaphore whose object was moved from is released once, when the new object is destroyed,
  -- whichever of the two is destroyed first.
  release-move_construct :
      (os : api.Os) (s : Wrapper api)
      → ((release api (release api os (move_construct api s).1).0 (move_construct api s).0).0
          ≡ (release api os s).0)
        × ((release api (release api os (move_construct api s).0).0 (move_construct api s).1).0
            ≡ (release api os s).0)
  unfolding move_construct is_valid
  release-move_construct os s =
      let left = record s { handle = api.null } in
      (
        rw (release-empty os left (ap not null-same)) refl,
        release-empty (release api os s).0 left (ap not null-same),
      )

  -- After an assignment by moving, the destruction of both objects releases what it would have
  -- released before it, and nothing twice: an object that has a semaphore keeps it, and so does
  -- then the other.
  release-move_assign :
      (os : api.Os) (self rhs : Wrapper api)
      → (release api (release api os (move_assign api self rhs).0).0 (move_assign api self rhs).1).0
        ≡ (release api (release api os self).0 rhs).0
  unfolding move_assign is_valid
  release-move_assign os self rhs = elim (Bool-cases (is_valid api self)) [
    | inl valid ↦ rw valid refl
    | inr empty ↦
        rw (empty, release-empty os self empty)
          (release-empty (release api os rhs).0 (record rhs { handle = api.null })
            (ap not null-same))
  ]
