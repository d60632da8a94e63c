-- ===== src/Queue/Sample.antt =====
-- A concrete queue for the tests of src/ltask/queue.c.
use grt.Base.{
  ℕ, zero, suc, get_elem?, get_or, ◌<◌, ◌%◌, ◌+◌, ◌≡◌, ◌≢◌, refl, List, [], ◌∷◌, none, some, arith,
}
use grt.Queue.{Queue, Pointer}
use grt.Queue.Shape.{Stores}

-- 8, then 9, round the end of the storage
abbrev pub wrapped : Queue
wrapped = record { n = 3; head = 2; tail = 1; cells = some 9 ∷ none ∷ some 8 ∷ [] }

-- what it stores
abbrev pub two : List Pointer
two = 8 ∷ 9 ∷ []

pub wrapped-Stores : Stores wrapped two
wrapped-Stores = record {
  sized = refl;
  head_in = omega arith;
  tail_at = refl;
  roomy = omega arith;
  holds = entry;
  non_null = nonzero;
}
  where
    entry : (i : ℕ) → i < 2 → get_elem? wrapped.cells ((2 + i) % 3) ≡ some (some (get_or two i 0))
    entry zero h = refl
    entry (suc zero) h = refl
    entry (suc (suc i)) h = absurd (omega arith)

    nonzero : (i : ℕ) → i < 2 → get_or two i 0 ≢ 0
    nonzero zero h = omega arith
    nonzero (suc zero) h = omega arith
    nonzero (suc (suc i)) h = absurd (omega arith)
