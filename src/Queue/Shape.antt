-- ===== src/Queue/Shape.antt =====
-- What the cells of a queue hold: the representation of src/ltask/queue.c against a list.
use grt.Base.{ℕ, ◌+◌, ◌%◌, ◌<◌, ◌≡◌, ◌≢◌, List, some, length, get_elem?, get_or}
use grt.Queue.{Queue, Pointer, Cell}

-- From `h` on, going round at `n`, the cells hold the entries of `xs`.
abbrev pub Holds : List Cell → ℕ → ℕ → List Pointer → Type 0
Holds cells n h xs =
    (i : ℕ) → i < length xs → get_elem? cells ((h + i) % n) ≡ some (some (get_or xs i 0))

-- The queue stores exactly `xs`, oldest first, and has room for one more.
pub record Stores (q : Queue) (xs : List Pointer) : Type 0 where
  pub sized : q.n ≡ length q.cells
  pub head_in : q.head < q.n
  pub tail_at : q.tail ≡ (q.head + length xs) % q.n
  pub roomy : length xs < q.n
  pub holds : Holds q.cells q.n q.head xs
  pub non_null : (i : ℕ) → i < length xs → get_or xs i 0 ≢ 0
