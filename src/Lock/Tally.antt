-- ===== src/Lock/Tally.antt =====
-- How many threads of src/ltask/simplelock.h stand where: sums of a weight over a list.
use grt.Base.{
  ℕ, zero, suc, ◌+◌, ◌≤◌, ◌≡◌, ◌≢◌, refl, List, [], ◌∷◌, some, arith, get_elem?, set, replicate, ap,
}

module _ {A : Type 0} where
  abbrev pub tally : (A → ℕ) → List A → ℕ
  tally f [] = 0
  tally f (x ∷ xs) = f x + tally f xs

  pub tally-set :
      (f : A → ℕ) (xs : List A) (i : ℕ) (old new : A)
      → get_elem? xs i ≡ some old
      → tally f (set xs i new) + f old ≡ tally f xs + f new
  tally-set f [] i old new h = absurd (ground arith)
  tally-set f (x ∷ xs) zero old new h = let e : x ≡ old = ground arith in omega (arith, ap f e)
  tally-set f (x ∷ xs) (suc i) old new h = omega (arith, tally-set f xs i old new h)

  pub tally-get_elem? :
      (f : A → ℕ) (xs : List A) (i : ℕ) {x : A} → get_elem? xs i ≡ some x → f x ≤ tally f xs
  tally-get_elem? f [] i h = absurd (ground arith)
  tally-get_elem? f (y ∷ xs) zero {x} h = let e : y ≡ x = ground arith in omega (arith, ap f e)
  tally-get_elem? f (y ∷ xs) (suc i) h = omega (arith, tally-get_elem? f xs i h)

  -- Two places of a list weigh together at most what all weigh.
  pub tally-two :
      (f : A → ℕ) (xs : List A) (i j : ℕ) {x y : A}
      → get_elem? xs i ≡ some x
      → get_elem? xs j ≡ some y
      → i ≢ j
      → f x + f y ≤ tally f xs
  tally-two f [] i j h k ne = absurd (ground arith)
  tally-two f (z ∷ xs) zero zero h k ne = absurd (ne refl)
  tally-two f (z ∷ xs) zero (suc j) {x} h k ne =
      let e : z ≡ x = ground arith in omega (arith, ap f e, tally-get_elem? f xs j k)
  tally-two f (z ∷ xs) (suc i) zero {y} h k ne =
      let e : z ≡ y = ground arith in omega (arith, ap f e, tally-get_elem? f xs i h)
  tally-two f (z ∷ xs) (suc i) (suc j) h k ne =
      omega (arith, tally-two f xs i j h k (λ e. ne (ap suc e)))

  pub tally-replicate : (f : A → ℕ) (n : ℕ) (x : A) → f x ≡ 0 → tally f (replicate n x) ≡ 0
  tally-replicate f zero x e = refl
  tally-replicate f (suc n) x e = omega (arith, e, tally-replicate f n x e)

  pub tally-le : (f g : A → ℕ) → ((x : A) → f x ≤ g x) → (xs : List A) → tally f xs ≤ tally g xs
  tally-le f g h [] = omega arith
  tally-le f g h (x ∷ xs) = omega (arith, h x, tally-le f g h xs)
