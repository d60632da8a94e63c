-- ===== src/Timer/Order.antt =====
-- The order that the heap of src/timer/timer.c keeps: `w k` is the time of the event in cell `k`.
use grt.Base.{
  ℕ, zero, suc, ◌+◌, ◌-◌, ◌/◌, ◌≤◌, ◌<◌, ◌≡◌, ◌≢◌, ◌⊎◌, inl, inr, true, arith, Bool-cases, ◌==◌,
  if◌then◌else◌, ap, sym, subst,
}

abbrev pub parent : ℕ → ℕ
parent k = (k - 1) / 2

abbrev pub Ordered : (ℕ → ℕ) → ℕ → Type 0
Ordered w n = (k : ℕ) → 0 < k → k < n → w (parent k) ≤ w k

-- Cell `i` may be earlier than its parent; all else is in order, its children with its parent too.
pub record Rising (w : ℕ → ℕ) (n i : ℕ) : Type 0 where
  pub rest : (k : ℕ) → 0 < k → k < n → k ≢ i → w (parent k) ≤ w k
  pub skip : (k : ℕ) → 0 < k → k < n → 0 < i → parent k ≡ i → w (parent i) ≤ w k

pub Rising-stop :
    {w : ℕ → ℕ} {n i : ℕ} → Rising w n i → (i ≡ 0) ⊎ (w (parent i) ≤ w i) → Ordered w n
Rising-stop {w} {n} {i} v at k pos_k lt = elim (Bool-cases (k == i)) [
  | inr other ↦ v.rest k pos_k lt (ground arith)
  | inl same ↦ elim at [
    | inl e ↦ absurd (ground arith)
    | inr le ↦ subst (λ j. w (parent j) ≤ w j) (sym (same_as same)) le
  ]
]
  where
    same_as : (k == i) ≡ true → k ≡ i
    same_as e = ground arith

unfoldable pub swapped : (ℕ → ℕ) → ℕ → ℕ → ℕ
swapped w i k = if k == i then w (parent i) else if k == parent i then w i else w k

parent-lt : (k : ℕ) → 0 < k → parent k < k
parent-lt k h = omega arith

module _ (w : ℕ → ℕ) (i k : ℕ) where
  swapped-here : k ≡ i → swapped w i k ≡ w (parent i)
  unfolding swapped
  swapped-here e = ground arith

  swapped-parent : k ≢ i → k ≡ parent i → swapped w i k ≡ w i
  unfolding swapped
  swapped-parent ne e = ground arith

  swapped-other : k ≢ i → k ≢ parent i → swapped w i k ≡ w k
  unfolding swapped
  swapped-other ne ne' = ground arith

module _ {w : ℕ → ℕ} {n i : ℕ} (v : Rising w n i) (pos_i : 0 < i) (lt_i : i < n)
    (early : w i < w (parent i)) where
  -- a child of the parent of `i`, and a child of `i`
  at_child : (k : ℕ) → 0 < k → k < n → k ≢ i → parent k ≡ parent i → w (parent i) ≤ w k
  at_child k pos_k lt ne e = subst (λ j. w j ≤ w k) e (v.rest k pos_k lt ne)

  swapped-rest : (k : ℕ) → 0 < k → k < n → k ≢ parent i → swapped w i (parent k) ≤ swapped w i k
  swapped-rest k pos_k lt ne = elim (Bool-cases (k == i)) [
    | inl e ↦
        let same : k ≡ i = ground arith in
        omega (
          arith,
          swapped-here w i k same,
          swapped-parent w i (parent k) (ne_self (parent k) (ap parent same)) (ap parent same),
          early,
        )
    | inr e ↦
        let other : k ≢ i = ground arith in
        let here = swapped-other w i k other ne in
        elim (Bool-cases (parent k == i)) [
          | inl e' ↦
              let child : parent k ≡ i = ground arith in
              omega (arith, here, swapped-here w i (parent k) child, v.skip k pos_k lt pos_i child)
          | inr e' ↦
              let not_child : parent k ≢ i = ground arith in
              elim (Bool-cases (parent k == parent i)) [
                | inl e'' ↦
                    let sibling : parent k ≡ parent i = ground arith in
                    omega (
                      arith,
                      here,
                      swapped-parent w i (parent k) not_child sibling,
                      at_child k pos_k lt other sibling,
                      early,
                    )
                | inr e'' ↦
                    let apart : parent k ≢ parent i = ground arith in
                    omega (
                      arith,
                      here,
                      swapped-other w i (parent k) not_child apart,
                      v.rest k pos_k lt other,
                    )
              ]
        ]
  ]
    where
      ne_self : (j : ℕ) → j ≡ parent i → j ≢ i
      ne_self j e same = omega (arith, parent-lt i pos_i, e, same)

  swapped-skip :
      (k : ℕ)
      → 0 < k
      → k < n
      → 0 < parent i
      → parent k ≡ parent i
      → swapped w i (parent (parent i)) ≤ swapped w i k
  swapped-skip k pos_k lt pos_p e =
      let up = parent-lt i pos_i in
      let up' = parent-lt (parent i) pos_p in
      let above = swapped-other w i (parent (parent i)) (omega arith) (omega arith) in
      let grand = v.rest (parent i) pos_p (omega arith) (omega arith) in
      elim (Bool-cases (k == i)) [
        | inl e' ↦ omega (arith, above, grand, swapped-here w i k (ground arith))
        | inr e' ↦
            let other : k ≢ i = ground arith in
            let below = parent-lt k pos_k in
            omega (
              arith,
              above,
              grand,
              swapped-other w i k other (omega arith),
              at_child k pos_k lt other e,
            )
      ]

  pub Rising-swapped : Rising (swapped w i) n (parent i)
  Rising-swapped = record { rest = swapped-rest; skip = swapped-skip }

-- Only the values of `w` matter.
pub Rising-ext : {w w' : ℕ → ℕ} {n i : ℕ} → ((k : ℕ) → w' k ≡ w k) → Rising w n i → Rising w' n i
Rising-ext {i} same v = record {
  rest = λ k pos_k lt ne. omega (arith, same k, same (parent k), v.rest k pos_k lt ne);
  skip = λ k pos_k lt pos_i e. omega (arith, same k, same (parent i), v.skip k pos_k lt pos_i e);
}

-- Nothing is earlier than the root.
root_first : {w : ℕ → ℕ} {n : ℕ} (fuel k : ℕ) → Ordered w n → k < fuel → k < n → w 0 ≤ w k
root_first zero k o h lt = absurd (omega arith)
root_first (suc fuel) zero o h lt = omega arith
root_first (suc fuel) (suc k) o h lt = omega (
  arith,
  o (suc k) (omega arith) lt,
  root_first fuel (parent (suc k)) o (omega arith) (omega arith),
)

pub Ordered-root : {w : ℕ → ℕ} {n : ℕ} (k : ℕ) → Ordered w n → k < n → w 0 ≤ w k
Ordered-root k o lt = root_first (k + 1) k o (omega arith) lt
