-- ===== src/Base/Runs.antt =====
-- Runs of operations one after the other, and when two components answer alike.
use mathlib.Core.Path.{◌≡◌, refl}
use mathlib.Core.List.{List, [], ◌∷◌}

-- The answers to a list of operations, the state passed on from each to the next.
pub answers {ℓ} : {S Op Answer : Type ℓ} → (S → Op → S × Answer) → S → List Op → List Answer
answers step s [] = []
answers step s (op ∷ ops) = (step s op).1 ∷ answers step (step s op).0 ops

-- A relation between the states that each operation keeps, and under which the answers are the
-- same, makes the answers to all lists of operations the same.
pub answers-simulated {ℓ} :
    {S T Op Answer : Type ℓ} (concrete : S → Op → S × Answer) (abstract_step : T → Op → T × Answer)
    (Rel : S → T → Type ℓ)
    → ((s : S) (t : T) (op : Op)
        → Rel s t
        → ((concrete s op).1 ≡ (abstract_step t op).1)
          × Rel (concrete s op).0 (abstract_step t op).0)
    → (ops : List Op) (s : S) (t : T) → Rel s t
    → answers concrete s ops ≡ answers abstract_step t ops
unfolding answers
answers-simulated concrete abstract_step Rel keeps [] s t rel = refl
answers-simulated concrete abstract_step Rel keeps (op ∷ ops) s t rel =
    let kept = keeps s t op rel in
    rw
      (
        kept.0,
        answers-simulated concrete abstract_step Rel keeps ops (concrete s op).0
            (abstract_step t op).0 kept.1,
      )
      refl
