-- ===== src/Queue.antt =====
-- src/ltask/queue.c: the growing ring of pointers. An operation that writes `*q` returns the new
-- queue. The spin lock makes each operation one step. `malloc` never fails here, and a cell that was
-- never written is `none`.
pub mod Shape
pub mod Copy
pub mod Fifo
pub mod Refine
pub mod Sample
mod Tests
use grt.Base.{
  ℕ, zero, suc, ◌+◌, ◌-◌, ◌*◌, ◌%◌, Bool, true, false, not, Option, none, some, List, [], ◌∷◌, leb,
  ltb, ◌==◌, if◌then◌else◌, length, replicate,
}
use grt.Base.Run.{Run, ok, wild, ◌>>=◌, ◌>>◌, assert, or_wild, load, store}

-- A `void *`; 0 is NULL.
abbrev pub Pointer : Type 0
Pointer = ℕ

-- A cell of `data`: `none` until it is written.
abbrev pub Cell : Type 0
Cell = Option Pointer

abbrev pub default_len : ℕ
default_len = 16

pub record Queue : Type 0 where
  pub n : ℕ
  pub head : ℕ
  pub tail : ℕ
  pub cells : List Cell

unfoldable pub queue_create : Queue
queue_create = record { n = default_len; head = 0; tail = 0; cells = replicate default_len none }

-- `data[i]`, of a cell that was written
abbrev pub read : List Cell → ℕ → Run Pointer
read cells i = load cells i >>= or_wild

-- The loop of queue_release, over `i = head .. tail - 1`: what `dtor` is called on, in order.
pub release_loop : List Cell → ℕ → ℕ → ℕ → Run (List Pointer)
release_loop cells n zero i = ok []
release_loop cells n (suc rounds) i = do
  p ← read cells (i % n)
  rest ← release_loop cells n rounds (i + 1)
  ok (p ∷ rest)

-- Without a destructor no call is made. The storage is freed, so no queue is returned.
unfoldable pub queue_release : Queue → Bool → Run (List Pointer)
queue_release q dtor =
    let tail = if ltb q.tail q.head then q.tail + q.n else q.tail in
    if dtor then release_loop q.cells q.n (tail - q.head) q.head else ok []

-- The loop that moves `rounds` cells of the old storage to the new one, from index `i`.
pub copy_loop : List Cell → ℕ → ℕ → ℕ → ℕ → List Cell → Run (List Cell)
copy_loop old n zero i head cells = ok cells
copy_loop old n (suc rounds) i head cells = do
  c ← load old (head % n)
  moved ← store cells i c
  copy_loop old n rounds (i + 1) (head + 1) moved

-- The branch of queue_push that finds the ring full.
pub expand : Queue → List Cell → Run Queue
expand q cells = do
  moved ← copy_loop cells q.n q.n 0 q.head (replicate (q.n * 2) none)
  ok (record { n = q.n * 2; head = 0; tail = q.n; cells = moved })

unfoldable pub queue_push : Queue → Pointer → Run Queue
unfolding expand
queue_push q ud = do
  assert (not (ud == 0))
  cells ← store q.cells q.tail (some ud)
  let tail = if leb q.n (q.tail + 1) then 0 else q.tail + 1
  if tail == q.head then expand q cells else ok (record q { cells = cells; tail = tail })

-- NULL from an empty queue. The second test under the lock repeats the first.
unfoldable pub queue_pop : Queue → Run (Pointer × Queue)
queue_pop q = if q.head == q.tail then ok (0, q) else if q.head == q.tail then ok (0, q) else do
  ret ← read q.cells q.head
  let head = if q.head + 1 == q.n then 0 else q.head + 1
  ok (ret, record q { head = head })

unfoldable pub queue_empty : Queue → Bool
queue_empty q = q.head == q.tail
