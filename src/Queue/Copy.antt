-- ===== src/Queue/Copy.antt =====
-- The loop of queue_push (src/ltask/queue.c) that moves a full ring to larger storage.
use native.Mathlib.Nat.{mod-lt}
use grt.Base.{
  ℕ, zero, suc, ◌+◌, ◌%◌, ◌≤◌, ◌<◌, ◌≡◌, refl, List, none, some, arith, length, get_elem?, get_or,
  set, length-set, get_elem?-set, get_elem?-get_or, ap, sym, ◌∙◌, ℕ_discrete,
}
use grt.Base.Run.{ok, store-ok, load-ok}
use grt.Queue.{Cell, copy_loop}

-- The first `i` new cells are the old ones from `h` on, going round at `n`.
abbrev pub Filled : List Cell → ℕ → ℕ → ℕ → List Cell → Type 0
Filled old n h i cells = (j : ℕ) → j < i → get_elem? cells j ≡ get_elem? old ((h + j) % n)

-- One round of the loop keeps what is filled and fills one more cell.
fill_one :
    (old cells : List Cell) (n h i : ℕ) (c : Cell)
    → i < length cells
    → get_elem? old ((h + i) % n) ≡ some c
    → Filled old n h i cells
    → Filled old n h (i + 1) (set cells i c)
fill_one old cells n h i c hi hc f j hj = elim (ℕ_discrete i j) [
  | yes e ↦ ground (arith, get_elem?-set cells i j c, e, ap (λ (t : ℕ). (h + t) % n) e)
  | no ne ↦ ground (arith, get_elem?-set cells i j c, f j)
]

-- The loop ends well, and fills as many cells as it makes rounds.
pub copy_loop-Filled :
    (old : List Cell) (n h rounds i head : ℕ) (cells : List Cell)
    → 0 < n
    → n ≤ length old
    → i + rounds ≤ length cells
    → head ≡ h + i
    → Filled old n h i cells
    → (moved : List Cell) × (copy_loop old n rounds i head cells ≡ ok moved)
      × (length moved ≡ length cells)
      × Filled old n h (i + rounds) moved
unfolding copy_loop
copy_loop-Filled old n h zero i head cells pos fits room e f =
    (cells, refl, refl, λ j hj. f j (omega arith))
copy_loop-Filled old n h (suc rounds) i head cells pos fits room e f =
    let c = get_or old (head % n) none in
    let inside : head % n < length old = omega (arith, mod-lt head pos) in
    let got : get_elem? old (head % n) ≡ some c = get_elem?-get_or old (head % n) none inside in
    let (moved, run, size, filled) =
      copy_loop-Filled old n h rounds (i + 1) (head + 1) (set cells i c) pos fits
        (omega (arith, length-set cells i c)) (omega arith)
        (fill_one old cells n h i c (omega arith) (sym (ap (λ t. get_elem? old (t % n)) e) ∙ got)
          f) in
    (
      moved,
      rw (load-ok old (head % n) got, store-ok cells i c (omega arith)) run,
      omega (arith, size, length-set cells i c),
      λ j hj. filled j (omega arith),
    )
