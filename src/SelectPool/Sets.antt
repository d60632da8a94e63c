-- ===== src/SelectPool/Sets.antt =====
-- The sets of sockets that src/async/socket_select.h gives to select, and how many sockets select counts
-- in them.
use grt.Base.{
  ℕ, zero, suc, ◌+◌, ◌≡◌, refl, true, false, ◌&&◌, ◌||◌, arith, List, [], ◌∷◌, ◌++◌, append-nil,
  append_assoc, take, drop, ◌==◌, if◌then◌else◌, Bool-cases, inl, inr, sym, ◌∙◌, subst,
}
use grt.SelectPool.{SocketFd}
use grt.SelectPool.Wait.{Selected, contains}
use grt.SelectPool.Window.{fds, writers, add_all, hits, window}

-- No number stands twice in the list.
abbrev pub Distinct : List ℕ → Type 0
Distinct [] = Unit {0}
Distinct (x ∷ xs) = (contains xs x ≡ false) × Distinct xs

-- None of the numbers is in the set.
abbrev Clear : List ℕ → List ℕ → Type 0
Clear set [] = Unit {0}
Clear set (x ∷ xs) = (contains set x ≡ false) × Clear set xs

contains-snoc : (set : List ℕ) (x y : ℕ) → contains (set ++ x ∷ []) y ≡ contains set y || (x == y)
contains-snoc [] x y = ground arith
contains-snoc (z ∷ set) x y = ground (arith, contains-snoc set x y)

Clear-snoc :
    (set xs : List ℕ) (x : ℕ) → Clear set xs → contains xs x ≡ false → Clear (set ++ x ∷ []) xs
Clear-snoc set [] x c e = tt
Clear-snoc set (y ∷ xs) x (now, later) e =
    (ground (arith, contains-snoc set x y, now, e), Clear-snoc set xs x later (ground (arith, e)))

add_all-Distinct : (set xs : List ℕ) → Clear set xs → Distinct xs → add_all set xs ≡ set ++ xs
add_all-Distinct set [] c d = sym (append-nil set)
add_all-Distinct set (x ∷ xs) (now, later) (new, d) = rw now (
    add_all-Distinct (set ++ x ∷ []) xs (Clear-snoc set xs x later new) d
    ∙ append_assoc set (x ∷ []) xs)

Clear-nil : (xs : List ℕ) → Clear [] xs
Clear-nil [] = tt
Clear-nil (x ∷ xs) = (refl, Clear-nil xs)

-- Sockets that are all different fill a set one by one.
pub add_all-nil : (xs : List ℕ) → Distinct xs → add_all [] xs ≡ xs
add_all-nil xs d = add_all-Distinct [] xs (Clear-nil xs) d

contains-writers :
    (ys : List SocketFd) (x : ℕ)
    → contains (fds ys) x ≡ false
    → contains (fds (writers ys)) x ≡ false
contains-writers [] x e = refl
contains-writers (y ∷ ys) x e = elim (Bool-cases y.write) [
  | inl on ↦ rw on (ground (arith, e, contains-writers ys x))
  | inr off ↦ rw off (contains-writers ys x (ground (arith, e)))
]

pub Distinct-writers : (ys : List SocketFd) → Distinct (fds ys) → Distinct (fds (writers ys))
Distinct-writers [] d = tt
Distinct-writers (y ∷ ys) (new, d) = elim (Bool-cases y.write) [
  | inl on ↦ rw on (contains-writers ys y.fd new, Distinct-writers ys d)
  | inr off ↦ rw off (Distinct-writers ys d)
]

contains-take :
    (n : ℕ) (ys : List SocketFd) (x : ℕ)
    → contains (fds ys) x ≡ false
    → contains (fds (take n ys)) x ≡ false
contains-take zero ys x e = refl
contains-take (suc n) [] x e = refl
contains-take (suc n) (y ∷ ys) x e = ground (arith, e, contains-take n ys x)

Distinct-take : (n : ℕ) (ys : List SocketFd) → Distinct (fds ys) → Distinct (fds (take n ys))
Distinct-take zero ys d = tt
Distinct-take (suc n) [] d = tt
Distinct-take (suc n) (y ∷ ys) (new, d) = (contains-take n ys y.fd new, Distinct-take n ys d)

Distinct-drop : (n : ℕ) (ys : List SocketFd) → Distinct (fds ys) → Distinct (fds (drop n ys))
Distinct-drop zero ys d = d
Distinct-drop (suc n) [] d = tt
Distinct-drop (suc n) (y ∷ ys) (new, d) = Distinct-drop n ys d

pub Distinct-window :
    (n from : ℕ) (xs : List SocketFd) → Distinct (fds xs) → Distinct (fds (window n from xs))
Distinct-window n from xs d = Distinct-take n (drop from xs) (Distinct-drop from xs d)

-- how many sockets of a set `kept` contains
abbrev pub marks : List ℕ → List ℕ → ℕ
marks kept [] = 0
marks kept (fd ∷ rest) = (if contains kept fd then 1 else 0) + marks kept rest

-- how many sockets of a list select found ready both to read and to write
abbrev pub both : Selected → List SocketFd → ℕ
both found [] = 0
both found (x ∷ xs) =
    (if contains found.rd x.fd && contains found.wt x.fd then 1 else 0) + both found xs

-- Of the sockets of a list, the set has only those that are polled for output.
abbrev OnlyWriters : List ℕ → List SocketFd → Type 0
OnlyWriters set [] = Unit {0}
OnlyWriters set (y ∷ ys) = (contains set y.fd ≡ true → y.write ≡ true) × OnlyWriters set ys

OnlyWriters-cons :
    (set : List ℕ) (x : ℕ) (ys : List SocketFd)
    → contains (fds ys) x ≡ false
    → OnlyWriters set ys
    → OnlyWriters (x ∷ set) ys
OnlyWriters-cons set x [] e o = tt
OnlyWriters-cons set x (y ∷ ys) e (now, later) =
    (λ h. now (ground (arith, h, e)), OnlyWriters-cons set x ys (ground (arith, e)) later)

OnlyWriters-writers : (ys : List SocketFd) → Distinct (fds ys) → OnlyWriters (fds (writers ys)) ys
OnlyWriters-writers [] d = tt
OnlyWriters-writers (y ∷ ys) (new, d) =
    let rest = OnlyWriters-writers ys d in
    elim (Bool-cases y.write) [
      | inl on ↦
          let all : fds (writers (y ∷ ys)) ≡ y.fd ∷ fds (writers ys) = rw on refl in
          subst (λ set. OnlyWriters set (y ∷ ys)) (sym all)
            (λ h. on, OnlyWriters-cons (fds (writers ys)) y.fd ys new rest)
      | inr off ↦
          let all : fds (writers (y ∷ ys)) ≡ fds (writers ys) = rw off refl in
          subst (λ set. OnlyWriters set (y ∷ ys)) (sym all)
            (λ h. absurd (ground (arith, h, contains-writers ys y.fd new)), rest)
    ]

OnlyWriters-less :
    (set kept : List ℕ) (ys : List SocketFd)
    → ((fd : ℕ) → contains kept fd ≡ true → contains set fd ≡ true)
    → OnlyWriters set ys
    → OnlyWriters kept ys
OnlyWriters-less set kept [] part o = tt
OnlyWriters-less set kept (y ∷ ys) part (now, later) =
    (λ h. now (part y.fd h), OnlyWriters-less set kept ys part later)

counted :
    (found : Selected) (ys : List SocketFd)
    → OnlyWriters found.wt ys
    → marks found.rd (fds ys) + marks found.wt (fds (writers ys))
      ≡ hits found (fds ys) + both found ys
counted found [] o = refl
counted found (y ∷ ys) (now, later) = elim (Bool-cases y.write) [
  | inl on ↦ rw on (ground (arith, counted found ys later))
  | inr off ↦ rw off (ground (arith, counted found ys later, now, off))
]

-- A count of both sets counts the ready sockets, and those once more that are ready both ways.
pub marks-both :
    (found : Selected) (ys : List SocketFd)
    → Distinct (fds ys)
    → ((fd : ℕ) → contains found.wt fd ≡ true → contains (fds (writers ys)) fd ≡ true)
    → marks found.rd (fds ys) + marks found.wt (fds (writers ys))
      ≡ hits found (fds ys) + both found ys
marks-both found ys d part =
    counted found ys
      (OnlyWriters-less (fds (writers ys)) found.wt ys part (OnlyWriters-writers ys d))
