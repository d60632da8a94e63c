-- ===== src/Timer/Tally.antt =====
-- Sums over the first cells of the heap of src/timer/timer.c: `f k` is the event in cell `k`, and each
-- event has a weight. The weight `one_if p` counts the cells that hold `p`.
use grt.Base.{
  ℕ, zero, suc, ◌+◌, ◌<◌, ◌≤◌, ◌≡◌, ◌≢◌, refl, inl, inr, arith, Bool-cases, ◌==◌, if◌then◌else◌, ap,
}

-- 1 for the event that is counted
abbrev pub one_if : ℕ → ℕ → ℕ
one_if p x = if x == p then 1 else 0

abbrev pub tally : (ℕ → ℕ) → ℕ → (ℕ → ℕ) → ℕ
tally f zero p = 0
tally f (suc n) p = p (f n) + tally f n p

pub tally-ext :
    (f g : ℕ → ℕ) (n : ℕ) (p : ℕ → ℕ) → ((k : ℕ) → k < n → f k ≡ g k) → tally f n p ≡ tally g n p
tally-ext f g zero p same = refl
tally-ext f g (suc n) p same =
    let first = ap p (same n (omega arith)) in
    omega (arith, first, tally-ext f g n p (λ k lt. same k (omega arith)))

abbrev pub put_cell : (ℕ → ℕ) → ℕ → ℕ → ℕ → ℕ
put_cell f i a k = if i == k then a else f k

pub tally-put_cell :
    (f : ℕ → ℕ) (i a n : ℕ) (p : ℕ → ℕ)
    → i < n
    → tally (put_cell f i a) n p + p (f i) ≡ tally f n p + p a
tally-put_cell f i a zero p lt = absurd (omega arith)
tally-put_cell f i a (suc n) p lt = elim (Bool-cases (i == n)) [
  | inl e ↦
      let same : i ≡ n = ground arith in
      let below = tally-ext (put_cell f i a) f n p (λ k lt_k. ground arith) in
      let old = ap (λ j. p (f j)) same in rw e (omega (arith, below, old))
  | inr e ↦
      let before : i < n = ground arith in rw e (omega (arith, tally-put_cell f i a n p before))
]

-- Two cells that change places leave every count.
pub tally-swap :
    (f g : ℕ → ℕ) (i m n : ℕ) (p : ℕ → ℕ)
    → i < n
    → m < n
    → i ≢ m
    → ((k : ℕ) → g k ≡ (if m == k then f i else if i == k then f m else f k))
    → tally g n p ≡ tally f n p
tally-swap f g i m n p lt_i lt_m ne cells =
    let once = tally-put_cell f i (f m) n p lt_i in
    let twice = tally-put_cell (put_cell f i (f m)) m (f i) n p lt_m in
    let other : put_cell f i (f m) m ≡ f m = ground arith in
    let old = ap p other in
    let same = tally-ext g (put_cell (put_cell f i (f m)) m (f i)) n p (λ k lt. cells k) in
    omega (arith, once, twice, old, same)

-- Each weight may be split over the same cells.
pub tally-add :
    (f : ℕ → ℕ) (n : ℕ) (p d q : ℕ → ℕ)
    → ((x : ℕ) → p x + d x ≤ q x)
    → tally f n p + tally f n d ≤ tally f n q
tally-add f zero p d q h = omega arith
tally-add f (suc n) p d q h = omega (arith, h (f n), tally-add f n p d q h)

pub tally-cell : (f : ℕ → ℕ) (n k : ℕ) (p : ℕ → ℕ) → k < n → p (f k) ≤ tally f n p
tally-cell f zero k p lt = absurd (omega arith)
tally-cell f (suc n) k p lt = elim (Bool-cases (k == n)) [
  | inl e ↦ let same : k ≡ n = ground arith in omega (arith, ap (λ j. p (f j)) same)
  | inr e ↦ let before : k < n = ground arith in omega (arith, tally-cell f n k p before)
]

-- What is counted once stands in one cell.
pub tally_once :
    (f : ℕ → ℕ) (n i j : ℕ) → tally f n (one_if (f j)) ≤ 1 → i < n → j < n → f i ≡ f j → i ≡ j
tally_once f zero i j h lt_i lt_j e = absurd (omega arith)
tally_once f (suc n) i j h lt_i lt_j e = elim (Bool-cases (i == n)) [
  | inl at_i ↦ elim (Bool-cases (j == n)) [
    | inl at_j ↦ ground arith
    | inr below ↦
        let here : i ≡ n = ground arith in
        let below_j : j < n = ground arith in
        absurd (
          omega (
            arith,
            h,
            ap (λ k. one_if (f j) (f k)) here,
            counted i e,
            counted j refl,
            tally-cell f n j (one_if (f j)) below_j,
          ))
  ]
  | inr below ↦
      let below_i : i < n = ground arith in
      elim (Bool-cases (j == n)) [
        | inl at_j ↦
            let here : j ≡ n = ground arith in
            absurd (
              omega (
                arith,
                h,
                ap (λ k. one_if (f j) (f k)) here,
                counted i e,
                counted j refl,
                tally-cell f n i (one_if (f j)) below_i,
              ))
        | inr below' ↦ tally_once f n i j (omega (arith, h)) below_i (ground arith) e
      ]
]
  where
    counted : (k : ℕ) → f k ≡ f j → one_if (f j) (f k) ≡ 1
    counted k same = ground arith

pub tally-found : (f : ℕ → ℕ) (n p : ℕ) → 0 < tally f n (one_if p) → (k : ℕ) × (k < n) × (f k ≡ p)
tally-found f zero p h = absurd (omega arith)
tally-found f (suc n) p h = elim (Bool-cases (f n == p)) [
  | inl e ↦ (n, omega arith, ground arith)
  | inr e ↦
      let before : 0 < tally f n (one_if p) = ground arith in
      let (k, lt, at) = tally-found f n p before in (k, omega arith, at)
]
