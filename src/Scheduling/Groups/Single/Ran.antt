-- ===== src/Scheduling/Groups/Single/Ran.antt =====
-- What a run of part of the code leaves alone: the objects outside of a set, the types, and what is
-- done already.
use mathlib.Core.List.{append_assoc, append-nil}
use oqpi.Base.{
  ℕ, ◌≡◌, refl, sym, ap, ◌∙◌, Bool, true, false, List, [], ◌∷◌, ◌++◌, arith, ◌==◌, ==_refl,
}
use oqpi.Scheduling.Priority.{TaskType, fire_and_forget, waitable}
use oqpi.Scheduling.Task.{Store, set_done}
use oqpi.Scheduling.Groups.Objects.{
  Node, Event, notified, World, record_event, notify_event, mark_done, set_node,
}

-- From `w` to `w'` only objects in `inside` were changed, and `events` were seen.
pub record Ran (inside : ℕ → Bool) (events : List Event) (w w' : World) : Type 0 where
  pub types : w'.type ≡ w.type
  pub logged : w'.log ≡ w.log ++ events
  pub stores : (x : ℕ) → inside x ≡ false → w'.store x ≡ w.store x
  pub nodes : (x : ℕ) → inside x ≡ false → w'.node x ≡ w.node x
  pub stays_done : (x : ℕ) → (w.store x).done ≡ true → (w'.store x).done ≡ true

module _ (inside : ℕ → Bool) where
  pub Ran-trans :
      (a b : List Event) (w w' w'' : World)
      → Ran inside a w w'
      → Ran inside b w' w''
      → Ran inside (a ++ b) w w''
  Ran-trans a b w w' w'' r s = record {
    types = s.types ∙ r.types;
    logged = s.logged ∙ ap (λ l. l ++ b) r.logged ∙ append_assoc w.log a b;
    stores = λ x out. s.stores x out ∙ r.stores x out;
    nodes = λ x out. s.nodes x out ∙ r.nodes x out;
    stays_done = λ x d. s.stays_done x (r.stays_done x d);
  }

  pub Ran-none : (w : World) → Ran inside [] w w
  Ran-none w = record {
    types = refl;
    logged = sym (append-nil w.log);
    stores = λ x out. refl;
    nodes = λ x out. refl;
    stays_done = λ x d. d;
  }

  pub record_event-Ran : (w : World) (e : Event) → Ran inside (e ∷ []) w (record_event w e)
  unfolding record_event
  record_event-Ran w e = record {
    types = refl;
    logged = refl;
    stores = λ x out. refl;
    nodes = λ x out. refl;
    stays_done = λ x d. d;
  }

pub Ran-widen :
    (inside more : ℕ → Bool) (events : List Event) (w w' : World)
    → ((x : ℕ) → more x ≡ false → inside x ≡ false)
    → Ran inside events w w'
    → Ran more events w w'
Ran-widen inside more events w w' wider r = record {
  types = r.types;
  logged = r.logged;
  stores = λ x out. r.stores x (wider x out);
  nodes = λ x out. r.nodes x (wider x out);
  stays_done = r.stays_done;
}

-- The event of a waitable object.
unfoldable pub told : (ℕ → TaskType) → ℕ → List Event
told type t = elim (type t) [ fire_and_forget ↦ [] | waitable ↦ notified t ∷ [] ]

notify_event-typed :
    (inside : ℕ → Bool) (w : World) (t : ℕ) (type : TaskType)
    → w.type t ≡ type
    → Ran inside (told w.type t) w (notify_event w t)
unfolding notify_event told record_event
notify_event-typed inside w t fire_and_forget e = rw (e, notify_event, told) (Ran-none inside w)
notify_event-typed inside w t waitable e =
    rw (e, notify_event, told) (record_event-Ran inside w (notified t))

pub notify_event-Ran :
    (inside : ℕ → Bool) (w : World) (t : ℕ) → Ran inside (told w.type t) w (notify_event w t)
notify_event-Ran inside w t = notify_event-typed inside w t (w.type t) refl

module _ (g : ℕ) where
  -- The set of one object.
  abbrev pub only : ℕ → Bool
  only x = g == x

  pub set_node-Ran : (w : World) (n : Node) → Ran only [] w (set_node w g n)
  unfolding set_node
  set_node-Ran w n = record {
    types = refl;
    logged = sym (append-nil w.log);
    stores = λ x out. refl;
    nodes = λ x out. rw out refl;
    stays_done = λ x d. d;
  }

  pub store-Ran :
      (w : World) (s : Store)
      → ((x : ℕ) → only x ≡ false → s x ≡ w.store x)
      → ((x : ℕ) → (w.store x).done ≡ true → (s x).done ≡ true)
      → Ran only [] w (record w { store = s })
  store-Ran w s kept done = record {
    types = refl;
    logged = sym (append-nil w.log);
    stores = kept;
    nodes = λ x out. refl;
    stays_done = done;
  }

  pub mark_done-Ran : (w : World) → Ran only [] w (mark_done w g)
  unfolding mark_done set_done
  mark_done-Ran w = store-Ran w (set_done w.store g) (λ x out. rw out refl) (λ x d. ground arith)

  pub mark_done-done : (w : World) → ((mark_done w g).store g).done ≡ true
  unfolding mark_done set_done
  mark_done-done w = rw (==_refl g) refl
