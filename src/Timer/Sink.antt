-- ===== src/Timer/Sink.antt =====
-- The order of the heap of src/timer/timer.c while timer_siftdown moves an event down: `w k` is the
-- time of cell `k`, with the moved event in the cell it has reached.
use grt.Base.{
  ℕ, ◌≤◌, ◌<◌, ◌≡◌, ◌≢◌, inl, inr, arith, Bool-cases, ◌==◌, if◌then◌else◌, ap, sym, subst,
}
use grt.Timer.Order.{parent, Ordered}

-- Cell `i` may be later than its children; all else is in order, its children with its parent too.
pub record Sinking (w : ℕ → ℕ) (n i : ℕ) : Type 0 where
  pub edges : (k : ℕ) → 0 < k → k < n → parent k ≢ i → w (parent k) ≤ w k
  pub bridge : (k : ℕ) → 0 < k → k < n → 0 < i → parent k ≡ i → w (parent i) ≤ w k

-- No child of `i` is earlier than `m`.
abbrev pub Least : (ℕ → ℕ) → ℕ → ℕ → ℕ → Type 0
Least w n i m = (k : ℕ) → 0 < k → k < n → parent k ≡ i → w m ≤ w k

pub Sinking-stop : {w : ℕ → ℕ} {n i : ℕ} → Sinking w n i → Least w n i i → Ordered w n
Sinking-stop {w} {n} {i} v low k pos_k lt = elim (Bool-cases (parent k == i)) [
  | inl e ↦
      let child : parent k ≡ i = ground arith in
      subst (λ j. w j ≤ w k) (sym child) (low k pos_k lt child)
  | inr e ↦ v.edges k pos_k lt (ground arith)
]

pub Ordered-Sinking : {w : ℕ → ℕ} {n i : ℕ} → i < n → Ordered w n → Sinking w n i
Ordered-Sinking {w} {n} {i} lt_i o = record {
  edges = λ k pos_k lt ne. o k pos_k lt;
  bridge = λ k pos_k lt pos_i e.
      let below = subst (λ j. w j ≤ w k) e (o k pos_k lt) in omega (arith, o i pos_i lt_i, below);
}

unfoldable pub lowered : (ℕ → ℕ) → ℕ → ℕ → ℕ → ℕ
lowered w i m k = if k == m then w i else if k == i then w m else w k

module _ (w : ℕ → ℕ) (i m k : ℕ) where
  pub lowered-child : k ≡ m → lowered w i m k ≡ w i
  unfolding lowered
  lowered-child e = ground arith

  pub lowered-here : k ≢ m → k ≡ i → lowered w i m k ≡ w m
  unfolding lowered
  lowered-here ne e = ground arith

  pub lowered-other : k ≢ m → k ≢ i → lowered w i m k ≡ w k
  unfolding lowered
  lowered-other ne ne' = ground arith

module _ {w : ℕ → ℕ} {n i m : ℕ} (v : Sinking w n i) (pos_m : 0 < m) (lt_m : m < n)
    (child : parent m ≡ i) (low : Least w n i m) (late : w m ≤ w i) where
  below : i < m
  below = omega (arith, child)

  lowered-edges :
      (k : ℕ) → 0 < k → k < n → parent k ≢ m → lowered w i m (parent k) ≤ lowered w i m k
  lowered-edges k pos_k lt ne = elim (Bool-cases (k == m)) [
    | inl e ↦
        let same : k ≡ m = ground arith in
        let up : parent k ≡ i = omega (arith, ap parent same, child) in
        omega (arith, lowered-child w i m k same, lowered-here w i m (parent k) ne up, late)
    | inr e ↦
        let other : k ≢ m = ground arith in
        elim (Bool-cases (k == i)) [
          | inl e' ↦
              let same : k ≡ i = ground arith in
              let pos_i : 0 < i = omega arith in
              let above : parent k ≡ parent i = ap parent same in
              let apart : parent k ≢ i = omega (arith, above) in
              omega (
                arith,
                lowered-here w i m k other same,
                lowered-other w i m (parent k) ne apart,
                ap w above,
                v.bridge m pos_m lt_m pos_i child,
              )
          | inr e' ↦
              let here = lowered-other w i m k other (ground arith) in
              elim (Bool-cases (parent k == i)) [
                | inl e'' ↦
                    let sibling : parent k ≡ i = ground arith in
                    omega (
                      arith,
                      here,
                      lowered-here w i m (parent k) ne sibling,
                      low k pos_k lt sibling,
                    )
                | inr e'' ↦
                    let apart : parent k ≢ i = ground arith in
                    omega (
                      arith,
                      here,
                      lowered-other w i m (parent k) ne apart,
                      v.edges k pos_k lt apart,
                    )
              ]
        ]
  ]

  lowered-bridge :
      (k : ℕ) → 0 < k → k < n → 0 < m → parent k ≡ m → lowered w i m (parent m) ≤ lowered w i m k
  lowered-bridge k pos_k lt pos e =
      let far : m < k = omega (arith, e) in
      let grand : w m ≤ w k =
        subst (λ j. w j ≤ w k) e (v.edges k pos_k lt (omega (arith, e, below))) in
      omega (
        arith,
        lowered-here w i m (parent m) (omega (arith, child, below)) child,
        lowered-other w i m k (omega arith) (omega (arith, below)),
        grand,
      )

  pub Sinking-lowered : Sinking (lowered w i m) n m
  Sinking-lowered = record { edges = lowered-edges; bridge = lowered-bridge }

-- Only the values of `w` matter.
pub Sinking-ext : {w w' : ℕ → ℕ} {n i : ℕ} → ((k : ℕ) → w' k ≡ w k) → Sinking w n i → Sinking w' n i
Sinking-ext {i} same v = record {
  edges = λ k pos_k lt ne. omega (arith, same k, same (parent k), v.edges k pos_k lt ne);
  bridge =
      λ k pos_k lt pos_i e. omega (arith, same k, same (parent i), v.bridge k pos_k lt pos_i e);
}
