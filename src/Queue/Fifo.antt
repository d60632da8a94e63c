-- ===== src/Queue/Fifo.antt =====
-- src/ltask/queue.c behaves as a first-in first-out list of pointers.
use native.Mathlib.Nat.{mod-lt}
use grt.Base.{
  ℕ, suc, ◌+◌, ◌*◌, ◌%◌, ◌<◌, ◌≡◌, ◌≢◌, refl, List, [], ◌∷◌, ◌++◌, none, some, true, arith, length,
  get_elem?, get_or, set, length-set, length-append, length-replicate, get_elem?-set, get_or-append,
  get_or-append_last, mod_wrap, replicate, ap, ℕ_discrete, ◌==◌, leb, ◌⊎◌, ◌↔◌, inl, inr, subst,
  if◌then◌else◌,
}
use grt.Base.Run.{ok, store-ok, load-ok}
use grt.Queue.{
  Queue, Pointer, Cell, queue_create, queue_push, queue_pop, queue_empty, expand, release_loop,
  queue_release,
}
use grt.Queue.Shape.{Holds, Stores}
use grt.Queue.Copy.{copy_loop-Filled}

-- A new queue is empty.
pub queue_create-Stores : Stores queue_create []
unfolding queue_create
queue_create-Stores = record {
  sized = refl;
  head_in = omega arith;
  tail_at = refl;
  roomy = omega arith;
  holds = λ i h. absurd (omega arith);
  non_null = λ i h. absurd (omega arith);
}

-- The test of queue_empty: head meets tail exactly when nothing is stored.
pub head-eq-tail : {q : Queue} {xs : List Pointer} → Stores q xs → q.head ≡ q.tail → length xs ≡ 0
head-eq-tail {q} {xs} s e = ground (arith, mod_wrap (q.head + length xs) q.n (omega arith))

pub tail_of_empty : {q : Queue} → Stores q [] → q.head ≡ q.tail
tail_of_empty {q} s = ground (arith, mod_wrap (q.head + 0) q.n (omega arith))

-- The `i`-th entry of `xs` followed by `ud`.
snoc_entry :
    (xs : List Pointer) (ud i : ℕ)
    → i < length (xs ++ ud ∷ [])
    → ((i < length xs) × (get_or (xs ++ ud ∷ []) i 0 ≡ get_or xs i 0))
      ⊎ ((i ≡ length xs) × (get_or (xs ++ ud ∷ []) i 0 ≡ ud))
snoc_entry xs ud i h = elim (ℕ_discrete i (length xs)) [
  | yes e ↦ inr (e, rw e (get_or-append_last xs ud 0))
  | no ne ↦
      let lt : i < length xs = omega (arith, length-append xs (ud ∷ [])) in
      inl (lt, get_or-append xs (ud ∷ []) i 0 lt)
]

module _ {q : Queue} {xs : List Pointer} (ud : Pointer) (s : Stores q xs) (nz : ud ≢ 0) where
  -- what the write at `tail` leaves
  abbrev written : List Cell
  written = set q.cells q.tail (some ud)

  tail_in : q.tail < q.n
  tail_in = omega (arith, s.tail_at, mod-lt (q.head + length xs) {m = q.n} (omega arith))

  written-Holds : Holds written q.n q.head (xs ++ ud ∷ [])
  written-Holds i h = elim (snoc_entry xs ud i h) [
    | inl (lt, e) ↦ ground (
      arith,
      e,
      s.holds i lt,
      get_elem?-set q.cells q.tail ((q.head + i) % q.n) (some ud),
      mod_wrap (q.head + i) q.n (omega arith),
      mod_wrap (q.head + length xs) q.n (omega arith),
    )
    | inr (at, e) ↦ ground (
      arith,
      e,
      ap (λ (t : ℕ). (q.head + t) % q.n) at,
      get_elem?-set q.cells q.tail ((q.head + i) % q.n) (some ud),
    )
  ]

  snoc_non_null : (i : ℕ) → i < length (xs ++ ud ∷ []) → get_or (xs ++ ud ∷ []) i 0 ≢ 0
  snoc_non_null i h = elim (snoc_entry xs ud i h) [
    | inl (lt, e) ↦ rw e (s.non_null i lt)
    | inr (at, e) ↦ rw e nz
  ]

  -- The size of the list after the push.
  size : length (xs ++ ud ∷ []) ≡ length xs + 1
  size = length-append xs (ud ∷ [])

  -- the tail after the write, before it is compared with the head
  abbrev next_tail : ℕ
  next_tail = if leb q.n (q.tail + 1) then 0 else q.tail + 1

  -- Room is left after the write.
  kept-Stores :
      next_tail ≢ q.head → Stores (record q { cells = written; tail = next_tail }) (xs ++ ud ∷ [])
  kept-Stores ne = record {
    sized = omega (arith, s.sized, length-set q.cells q.tail (some ud));
    head_in = s.head_in;
    tail_at = ground (
      arith,
      s.tail_at,
      size,
      mod_wrap (q.head + length xs) q.n (omega arith),
      mod_wrap (q.head + length (xs ++ ud ∷ [])) q.n (omega (arith, size)),
    );
    roomy = ground (arith, s.tail_at, size, mod_wrap (q.head + length xs) q.n (omega arith));
    holds = written-Holds;
    non_null = snoc_non_null;
  }

  -- The write filled the last free cell.
  full : next_tail ≡ q.head → length (xs ++ ud ∷ []) ≡ q.n
  full e = ground (arith, s.tail_at, size, s.roomy, mod_wrap (q.head + length xs) q.n (omega arith))

  expand-Stores :
      next_tail ≡ q.head → (q' : Queue) × (expand q written ≡ ok q') × Stores q' (xs ++ ud ∷ [])
  unfolding expand
  expand-Stores e =
      let blank : List Cell = replicate (q.n * 2) none in
      let room : length blank ≡ q.n * 2 = length-replicate (q.n * 2) none in
      let (moved, run, long, filled) =
        copy_loop-Filled written q.n q.head q.n 0 q.head blank (omega arith)
          (omega (arith, s.sized, length-set q.cells q.tail (some ud))) (omega (arith, room))
          (omega arith) (λ j h. absurd (omega arith)) in
      (
        record { n = q.n * 2; head = 0; tail = q.n; cells = moved },
        rw run,
        record {
          sized = omega (arith, long, room);
          head_in = omega arith;
          tail_at = ground (
            arith,
            full e,
            mod_wrap (0 + length (xs ++ ud ∷ [])) (q.n * 2) (omega (arith, full e)),
          );
          roomy = omega (arith, full e);
          holds = λ i h. ground (
            arith,
            full e,
            filled i (omega (arith, full e)),
            written-Holds i h,
            mod_wrap (0 + i) (q.n * 2) (omega (arith, full e)),
          );
          non_null = snoc_non_null;
        },
      )

  -- On a queue that stores a list, queue_push of a pointer other than NULL ends well with a queue
  -- that stores the list with the pointer at its end, whether or not the ring has to be doubled.
  pub queue_push-Stores : (q' : Queue) × (queue_push q ud ≡ ok q') × Stores q' (xs ++ ud ∷ [])
  unfolding queue_push
  queue_push-Stores =
      let in_cells : q.tail < length q.cells = omega (arith, s.sized, tail_in) in
      elim (ℕ_discrete next_tail q.head) [
        | yes e ↦
            let (q', run, stores) = expand-Stores e in
            (q', ground (arith, store-ok q.cells q.tail (some ud) in_cells, run, e), stores)
        | no ne ↦ (
          record q { cells = written; tail = next_tail },
          ground (arith, store-ok q.cells q.tail (some ud) in_cells, ne),
          kept-Stores ne,
        )
      ]

-- Popping an empty queue gives NULL and changes nothing.
pub queue_pop-nil : {q : Queue} → Stores q [] → queue_pop q ≡ ok (0, q)
unfolding queue_pop
queue_pop-nil {q} s = ground (arith, tail_of_empty s)

-- On a queue that stores a list with a first entry, queue_pop ends well with that entry and leaves
-- a queue that stores the rest.
pub queue_pop-Stores :
    {q : Queue} (x : Pointer) (xs : List Pointer)
    → Stores q (x ∷ xs)
    → (q' : Queue) × (queue_pop q ≡ ok (x, q')) × Stores q' xs
unfolding queue_pop
queue_pop-Stores {q} x xs s =
    let head' : ℕ = if q.head + 1 == q.n then 0 else q.head + 1 in
    let first : get_elem? q.cells q.head ≡ some (some x) =
      ground (arith, s.holds 0 (omega arith), mod_wrap (q.head + 0) q.n (omega arith)) in
    let apart : q.head ≢ q.tail = λ e. absurd (omega (arith, head-eq-tail s e)) in
    (
      record q { head = head' },
      ground (arith, first, apart),
      record {
        sized = s.sized;
        head_in = ground arith;
        tail_at = ground (
          arith,
          s.tail_at,
          mod_wrap (q.head + length (x ∷ xs)) q.n (omega arith),
          mod_wrap (head' + length xs) q.n (ground arith),
        );
        roomy = omega arith;
        holds = λ i h. ground (
          arith,
          s.holds (suc i) (omega arith),
          mod_wrap (q.head + suc i) q.n (omega arith),
          mod_wrap (head' + i) q.n (ground arith),
        );
        non_null = λ i h. s.non_null (suc i) (omega arith);
      },
    )

-- queue_empty tells whether anything is stored.
pub queue_empty_lem :
    {q : Queue} (xs : List Pointer) → Stores q xs → (queue_empty q ≡ true) ↔ (length xs ≡ 0)
unfolding queue_empty
queue_empty_lem {q} [] s = ground (arith, tail_of_empty s)
queue_empty_lem {q} (x ∷ xs) s = ground (arith, head-eq-tail s)

release_loop-Holds :
    (cells : List Cell) (n h : ℕ) (xs : List Pointer)
    → Holds cells n h xs
    → release_loop cells n (length xs) h ≡ ok xs
unfolding release_loop
release_loop-Holds cells n h [] holds = refl
release_loop-Holds cells n h (x ∷ xs) holds =
    let first : get_elem? cells (h % n) ≡ some (some x) =
      subst (λ t. get_elem? cells (t % n) ≡ some (some x)) (omega arith) (holds 0 (omega arith)) in
    let rest = release_loop-Holds cells n (h + 1) xs (λ i lt.
      subst (λ t. get_elem? cells (t % n) ≡ some (some (get_or xs i 0))) (omega arith)
        (holds (suc i) (omega arith))) in
    rw (load-ok cells (h % n) first, rest)

-- On a queue that stores a list, queue_release with a destructor ends well and calls it on the
-- entries of the list, in their order.
pub queue_release-Stores :
    {q : Queue} (xs : List Pointer) → Stores q xs → queue_release q true ≡ ok xs
unfolding queue_release
queue_release-Stores {q} xs s =
    subst (λ k. release_loop q.cells q.n k q.head ≡ ok xs)
      (ground (arith, mod_wrap (q.head + length xs) q.n (omega arith)))
      (release_loop-Holds q.cells q.n q.head xs s.holds)
