-- ===== src/Partition/Atomic/Threads.antt =====
-- atomic_partitioner.hpp: several threads in the loop of getNextValidRange, which interleave at the
-- load of the shared index and at the compare-exchange.
use mathlib.Core.List.{map-append}
use oqpi.Base.{
  ℕ, zero, suc, ◌≡◌, refl, ◌≢◌, Bool, true, false, Option, some, List, [], ◌∷◌, ◌++◌, map, arith,
  length, length-append, update,
}
use oqpi.Base.Int.{ℤ, pos, ◌+ℤ◌, ltb_ℤ}
use oqpi.Partition.Range.{Range}
use oqpi.Partition.Atomic.Defs.{AtomicPartitioner, grab_count, get_next_valid_range}

-- Where a thread stands: at the head of the loop, behind the load with its copy of the index, or
-- behind a call that returned false.
pub data Pc : Type 0 where
  idle : Pc
  loaded : ℤ → Pc
  exited : Pc

-- `granted`: the calls that returned true, with their threads, the first call first.
pub record Threads : Type 0 where
  pub partitioner : AtomicPartitioner
  pub pc : ℕ → Pc
  pub granted : List (ℕ × Range)

abbrev pub start : AtomicPartitioner → Threads
start p = record { partitioner = p; pc = λ i. idle; granted = [] }

-- `count > 0`, for the copy `expected` of the shared index.
abbrev pub some_left : AtomicPartitioner → ℤ → Bool
some_left p expected = ltb_ℤ (pos 0) (grab_count p expected)

abbrev pub grabbed_range : AtomicPartitioner → ℤ → Range
grabbed_range p expected = record { from = expected; to = expected +ℤ grab_count p expected }

pub data Step (s : Threads) : Threads → Type 0 where
  load :
      (i : ℕ)
      → s.pc i ≡ idle
      → Step s (record s { pc = update s.pc i (loaded s.partitioner.shared_index) })
  win :
      (i : ℕ) (expected : ℤ)
      → s.pc i ≡ loaded expected
      → some_left s.partitioner expected ≡ true
      → s.partitioner.shared_index ≡ expected
      → Step s (record {
        partitioner = record (s.partitioner) {
          shared_index = expected +ℤ grab_count s.partitioner expected;
        };
        pc = update s.pc i idle;
        granted = s.granted ++ (i, grabbed_range s.partitioner expected) ∷ [];
      })
  lose :
      (i : ℕ) (expected : ℤ)
      → s.pc i ≡ loaded expected
      → some_left s.partitioner expected ≡ true
      → s.partitioner.shared_index ≢ expected
      → Step s (record s { pc = update s.pc i idle })
  give_up :
      (i : ℕ) (expected : ℤ)
      → s.pc i ≡ loaded expected
      → some_left s.partitioner expected ≡ false
      → Step s (record s { pc = update s.pc i exited })

pub data Reach (p : AtomicPartitioner) : Threads → Type 0 where
  here : Reach p (start p)
  next : {s t : Threads} → Reach p s → Step s t → Reach p t

-- `n` calls of getNextValidRange, one after the other, with their results.
pub calls : ℕ → AtomicPartitioner → List (Option Range) × AtomicPartitioner
calls zero p = ([], p)
calls (suc n) p =
    let (rs, q) = calls n p in let (r, q') = get_next_valid_range q in (rs ++ r ∷ [], q')

abbrev pub ranges : List (ℕ × Range) → List Range
ranges = map (λ g. g.1)

abbrev results : List (ℕ × Range) → List (Option Range)
results = map (λ g. some g.1)

record Refines (p : AtomicPartitioner) (s : Threads) : Type 0 where
  same_results : results s.granted ≡ (calls (length s.granted) p).0
  same_state : s.partitioner ≡ (calls (length s.granted) p).1

-- A successful compare-exchange is one whole call of getNextValidRange.
next-win :
    (p : AtomicPartitioner) (expected : ℤ)
    → some_left p expected ≡ true
    → p.shared_index ≡ expected
    → get_next_valid_range p ≡ (
      some (grabbed_range p expected),
      record p { shared_index = expected +ℤ grab_count p expected },
    )
unfolding get_next_valid_range
next-win p expected more same = simp (same, more)

module _ {p : AtomicPartitioner} where
  win-Refines :
      (s : Threads) (i : ℕ) (expected : ℤ) (pc : ℕ → Pc)
      → some_left s.partitioner expected ≡ true
      → s.partitioner.shared_index ≡ expected
      → Refines p s
      → Refines p (record {
        partitioner = record (s.partitioner) {
          shared_index = expected +ℤ grab_count s.partitioner expected;
        };
        pc = pc;
        granted = s.granted ++ (i, grabbed_range s.partitioner expected) ∷ [];
      })
  unfolding calls
  win-Refines s i expected pc more same r =
      let now = next-win s.partitioner expected more same in
      let one_more : length (s.granted ++ (i, grabbed_range s.partitioner expected) ∷ [])
          ≡ suc (length s.granted) =
        omega (arith, length-append s.granted ((i, grabbed_range s.partitioner expected) ∷ [])) in
      record {
        same_results = rw (one_more, map-append, r.same_results, ← r.same_state, now) refl;
        same_state = rw (one_more, ← r.same_state, now) refl;
      }

  Step-Refines : {s t : Threads} → Step s t → Refines p s → Refines p t
  Step-Refines (load i at_head) r = record {
    same_results = r.same_results;
    same_state = r.same_state;
  }
  Step-Refines {s} (win i expected has more same) r = win-Refines s i expected _ more same r
  Step-Refines (lose i expected has more other) r = record {
    same_results = r.same_results;
    same_state = r.same_state;
  }
  Step-Refines (give_up i expected has done) r = record {
    same_results = r.same_results;
    same_state = r.same_state;
  }

  Reach-Refines : {s : Threads} → Reach p s → Refines p s
  unfolding calls
  Reach-Refines here = record { same_results = refl; same_state = refl }
  Reach-Refines (next r st) = Step-Refines st (Reach-Refines r)

  -- Whatever the interleaving, the calls that returned true had the results that as many calls of
  -- getNextValidRange have one after the other, and they left the partitioner in the same state.
  pub granted-calls :
      {s : Threads}
      → Reach p s
      → (map (λ g. some g.1) s.granted ≡ (calls (length s.granted) p).0)
        × (s.partitioner ≡ (calls (length s.granted) p).1)
  granted-calls r = let f = Reach-Refines r in (f.same_results, f.same_state)
