-- ===== src/Base/Slices.antt =====
-- Cutting lists at a length, and chains of blocks of one size.
use Prim.Native.Nat.{ℕ, zero, suc, ◌+◌, ◌≤◌}
use mathlib.Core.Path.{◌≡◌, refl, sym, ap, ◌∙◌}
use mathlib.Core.List.{List, [], ◌∷◌, ◌++◌, append_assoc}
use native.Mathlib.Omega.{arith}
use grt.Base.Arrays.{length, take, drop}

module _ {ℓ} {A : Type ℓ} where
  pub take-append_left : (xs ys : List A) (n : ℕ) → n ≤ length xs → take n (xs ++ ys) ≡ take n xs
  take-append_left xs ys zero h = refl
  take-append_left [] ys (suc n) h = elim h [ ]
  take-append_left (x ∷ xs) ys (suc n) h = ap (◌∷◌ x) (take-append_left xs ys n (omega arith))

  pub take_all : (xs : List A) (n : ℕ) → length xs ≤ n → take n xs ≡ xs
  take_all [] zero h = refl
  take_all [] (suc n) h = refl
  take_all (x ∷ xs) zero h = elim h [ ]
  take_all (x ∷ xs) (suc n) h = ap (◌∷◌ x) (take_all xs n (omega arith))

  pub drop_all : (xs : List A) (n : ℕ) → length xs ≤ n → drop n xs ≡ []
  drop_all [] zero h = refl
  drop_all [] (suc n) h = refl
  drop_all (x ∷ xs) zero h = elim h [ ]
  drop_all (x ∷ xs) (suc n) h = drop_all xs n (omega arith)

  pub drop-append_left :
      (xs ys : List A) (n : ℕ) → n ≤ length xs → drop n (xs ++ ys) ≡ drop n xs ++ ys
  drop-append_left xs ys zero h = refl
  drop-append_left [] ys (suc n) h = elim h [ ]
  drop-append_left (x ∷ xs) ys (suc n) h = drop-append_left xs ys n (omega arith)

  pub take_exact : (xs ys : List A) (n : ℕ) → n ≡ length xs → take n (xs ++ ys) ≡ xs
  take_exact xs ys n e = take-append_left xs ys n (omega arith) ∙ take_all xs n (omega arith)

  pub drop_exact : (xs ys : List A) (n : ℕ) → n ≡ length xs → drop n (xs ++ ys) ≡ ys
  drop_exact xs ys n e =
      drop-append_left xs ys n (omega arith) ∙ ap (λ t. t ++ ys) (drop_all xs n (omega arith))

  pub drop-drop : (a b : ℕ) (xs : List A) → drop b (drop a xs) ≡ drop (a + b) xs
  drop-drop a b xs = sym (drop_sum a b (a + b) xs refl)
    where
      drop_sum : (a b c : ℕ) (xs : List A) → c ≡ a + b → drop c xs ≡ drop b (drop a xs)
      drop_sum zero b c xs e = ap (λ t. drop t xs) (omega arith)
      drop_sum (suc a) zero zero xs e = absurd (omega arith)
      drop_sum (suc a) (suc b) zero xs e = absurd (omega arith)
      drop_sum (suc a) zero (suc c) [] e = refl
      drop_sum (suc a) (suc b) (suc c) [] e = refl
      drop_sum (suc a) b (suc c) (x ∷ xs) e = drop_sum a b c xs (omega arith)

  -- Of two cuts of one list the shorter front begins the longer.
  pub split_append :
      (xs ys bs tl : List A)
      → xs ++ ys ≡ bs ++ tl
      → length xs ≤ length bs
      → (mid : List A) × (bs ≡ xs ++ mid) × (ys ≡ mid ++ tl)
  split_append [] ys bs tl e h = (bs, refl, e)
  split_append (x ∷ xs) ys [] tl e h = elim h [ ]
  split_append (x ∷ xs) ys (b ∷ bs) tl e h =
      let (mid, front, back) = split_append xs ys bs tl (ground arith) (omega arith) in
      (mid, ground (arith, front), back)

  abbrev pub concat : List (List A) → List A
  concat [] = []
  concat (xs ∷ rest) = xs ++ concat rest

  pub concat-append : (a b : List (List A)) → concat (a ++ b) ≡ concat a ++ concat b
  concat-append [] b = refl
  concat-append (xs ∷ a) b =
      ap (λ t. xs ++ t) (concat-append a b) ∙ sym (append_assoc xs (concat a) (concat b))

  -- Every block has `n` entries.
  abbrev pub AllSized : ℕ → List (List A) → Type 0
  AllSized n [] = Unit
  AllSized n (xs ∷ rest) = (length xs ≡ n) × AllSized n rest

  pub AllSized-append :
      (n : ℕ) (a b : List (List A)) → AllSized n a → AllSized n b → AllSized n (a ++ b)
  AllSized-append n [] b p q = q
  AllSized-append n (xs ∷ a) b p q = (p.0, AllSized-append n a b p.1 q)
