-- ===== src/HandleMap/Expand.antt =====
-- expand_map of src/ltask/handlemap.c: what the wider map finds.
use native.Mathlib.Nat.{mod-lt, pow-suc, dvd-mul_right, mod-mod_of_dvd}
use grt.Base.{
  ℕ, zero, suc, ◌+◌, ◌*◌, ◌%◌, ◌^◌, ◌<◌, ◌≤◌, ◌≡◌, ◌≢◌, inl, inr, refl, sym, ap, ◌∙◌, subst, List,
  [], ◌∷◌, Bool, Option, none, some, true, false, arith, length, get_elem?, get_or,
  get_elem?-get_or, set, length-set, length-replicate, get_elem?-set, get_elem?-lt,
  get_elem?-replicate, replicate, Bool-cases, ℕ_discrete, ◌==◌, if◌then◌else◌, Option-cases,
}
use grt.Base.Run.{ok, store-ok}
use grt.HandleMap.{HandleMap, HandleId, Slot, blank, index, move_loop, expand_map}
use grt.HandleMap.Shape.{IsMap, Placed, used, used-set, index_in, index_lem, index_pow, cap_pos}
use grt.HandleMap.Find.{find}

-- The last of two writes to a slot stays.
abbrev pub latest : Option Slot → Option Slot → Option Slot
latest (some t) o = some t
latest none o = o

-- The last slot of the list that expand_map writes at index `k`, with capacity `wide`.
pub last_at : ℕ → List Slot → ℕ → Option Slot
last_at wide [] k = none
last_at wide (s ∷ rest) k =
    latest (last_at wide rest k) (if index s.id wide == k then some s else none)

module _ (cap : ℕ) (inside : (id : ℕ) → index id (cap * 2) < cap * 2) where
  -- The loop ends well; each new slot is the last one written there, or what was there before.
  pub move_loop-last_at :
      (slots to : List Slot)
      → length to ≡ cap * 2
      → (to' : List Slot) × (move_loop cap slots to ≡ ok to')
        × (length to' ≡ cap * 2)
        × (used to' ≤ used to + used slots)
        × ((k : ℕ) → get_elem? to' k ≡ latest (last_at (cap * 2) slots k) (get_elem? to k))
  unfolding move_loop last_at
  move_loop-last_at [] to size = (to, refl, size, omega arith, λ k. refl)
  move_loop-last_at (s ∷ rest) to size =
      let i = index s.id (cap * 2) in
      let lt : i < length to = omega (arith, inside s.id, size) in
      let next = set to i s in
      let (to', run, size', few, at) = move_loop-last_at rest next (length-set to i s ∙ size) in
      let old = get_or to i blank in
      (
        to',
        rw (store-ok to i s lt) run,
        size',
        ground (arith, few, used-set to i old s (get_elem?-get_or to i blank lt)),
        λ k.
            at k
            ∙ ap (latest (last_at (cap * 2) rest k)) (get_elem?-set to i k s lt)
            ∙ latest_choice (last_at (cap * 2) rest k) (i == k) s (get_elem? to k),
      )
    where
      latest_choice :
          (o : Option Slot) (b : Bool) (s : Slot) (p : Option Slot)
          → latest o (if b then some s else p) ≡ latest (latest o (if b then some s else none)) p
      latest_choice (some t) b s p = refl
      latest_choice none true s p = refl
      latest_choice none false s p = refl

-- Such a slot is one of the list, and belongs at `k`.
pub last_at-some :
    (wide : ℕ) (slots : List Slot) (k : ℕ) {t : Slot}
    → last_at wide slots k ≡ some t
    → (i : ℕ) × (get_elem? slots i ≡ some t) × (index t.id wide ≡ k)
unfolding last_at
last_at-some wide [] k e = absurd (ground arith)
last_at-some wide (s ∷ rest) k {t} e = elim (Option-cases (last_at wide rest k)) [
  | inl gone ↦ (0, ground (arith, gone), ground (arith, gone))
  | inr (u, there) ↦
      let same : u ≡ t = ground (arith, there) in
      let (i, at, idx) = last_at-some wide rest k (there ∙ ap some same) in (suc i, at, idx)
]

abbrev pub only : ℕ → ℕ → Option Slot → Option Slot
only wide k none = none
only wide k (some s) = if index s.id wide == k then some s else none

latest-none : (o : Option Slot) → latest o none ≡ o
latest-none (some t) = refl
latest-none none = refl

-- Slots from position `o` on, where only an id of position `p` can go to `k`.
module _ (cap wide k p : ℕ)
    (back : (id : ℕ) → index id wide ≡ k → (id ≢ 0) × (index id cap ≡ p)) where
  abbrev Stands : ℕ → List Slot → Type 0
  Stands o slots =
      (i : ℕ) (s : Slot) → get_elem? slots i ≡ some s → s.id ≢ 0 → index s.id cap ≡ o + i

  Stands-tail : (o : ℕ) (s : Slot) (rest : List Slot) → Stands o (s ∷ rest) → Stands (o + 1) rest
  Stands-tail o s rest st i t at ne = omega (arith, st (suc i) t at ne)

  last_at-past : (o : ℕ) (slots : List Slot) → p < o → Stands o slots → last_at wide slots k ≡ none
  unfolding last_at
  last_at-past o [] lt st = refl
  last_at-past o (s ∷ rest) lt st = ground (
    arith,
    last_at-past (o + 1) rest (omega arith) (Stands-tail o s rest st),
    back s.id,
    st 0 s refl,
  )

  last_at-only :
      (o d : ℕ) (slots : List Slot)
      → p ≡ o + d
      → Stands o slots
      → last_at wide slots k ≡ only wide k (get_elem? slots d)
  unfolding last_at
  last_at-only o d [] e st = refl
  last_at-only o zero (s ∷ rest) e st =
      ap (λ t. latest t (if index s.id wide == k then some s else none))
        (last_at-past (o + 1) rest (omega arith) (Stands-tail o s rest st))
  last_at-only o (suc d) (s ∷ rest) e st = elim (Bool-cases (index s.id wide == k)) [
    | inl yes_k ↦ absurd (ground (arith, back s.id, st 0 s refl))
    | inr no_k ↦ rw no_k (
        latest-none (last_at wide rest k)
        ∙ last_at-only (o + 1) d rest (omega arith) (Stands-tail o s rest st))
  ]

-- A free slot among the later ones takes index 0.
last_at-free :
    (wide : ℕ) (slots : List Slot)
    → index 0 wide ≡ 0
    → used slots < length slots
    → (t : Slot) × (last_at wide slots 0 ≡ some t)
unfolding last_at
last_at-free wide [] z h = elim h [ ]
last_at-free wide (s ∷ rest) z h = elim (Option-cases (last_at wide rest 0)) [
  | inr (u, e) ↦ (u, ground (arith, e))
  | inl e ↦ elim (ℕ_discrete (index s.id wide) 0) [
    | yes at ↦ (s, ground (arith, e, at))
    | no ne ↦
        let busy : s.id ≢ 0 = λ q. ne (ap (λ t. index t wide) q ∙ z) in
        let (t, there) = last_at-free wide rest z (ground arith) in
        absurd (ground (arith, e, there))
  ]
]

-- Where only the first slot may hold an id that goes to 0, a free slot ends up there.
zero_freed :
    (wide : ℕ) (slots : List Slot)
    → index 0 wide ≡ 0
    → used slots < length slots
    → ((i : ℕ) (t : Slot) → get_elem? slots i ≡ some t → t.id ≢ 0 → index t.id wide ≡ 0 → i ≡ 0)
    → (t : Slot) × (last_at wide slots 0 ≡ some t) × (t.id ≡ 0)
unfolding last_at
zero_freed wide [] z h first = elim h [ ]
zero_freed wide (s ∷ rest) z h first = elim (Option-cases (last_at wide rest 0)) [
  | inr (u, e) ↦
      let (i, at, idx) = last_at-some wide rest 0 e in
      (
        u,
        ground (arith, e),
        elim (ℕ_discrete u.id 0) [
          | yes q ↦ q
          | no nz ↦ absurd (omega (arith, first (suc i) u at nz idx))
        ],
      )
  | inl e ↦ elim (ℕ_discrete s.id 0) [
    | yes q ↦ (s, ground (arith, e, q, z, ap (λ (t : ℕ). index t wide) q), q)
    | no nz ↦
        let (t, there) = last_at-free wide rest z (ground arith) in
        absurd (ground (arith, e, there))
  ]
]

used-replicate : (n : ℕ) → used (replicate n blank) ≡ 0
used-replicate zero = refl
used-replicate (suc n) = omega (arith, used-replicate n)

-- expand_map on a well-formed map whose capacity can be doubled.
module _ {m : HandleMap} (v : IsMap m) (small : m.cap ≤ 2 ^ 29) where
  abbrev wide : ℕ
  wide = m.cap * 2

  wide_pow : wide ≡ 2 ^ suc v.width
  wide_pow = omega (arith, pow-suc 2 v.width, v.cap_pow)

  index-wide : (id : ℕ) → index id wide ≡ id % wide
  index-wide id = index_pow id wide (suc v.width) wide_pow

  index-wide_in : (id : ℕ) → index id wide < wide
  index-wide_in id = omega (arith, index-wide id, mod-lt id {m = wide} (omega (arith, cap_pos v)))

  -- The old index is the new one, modulo the old capacity.
  index_back : (id : ℕ) → index id m.cap ≡ index id wide % m.cap
  index_back id =
      index_lem id v
      ∙ sym (ap (λ t. t % m.cap) (index-wide id) ∙ mod-mod_of_dvd m.cap id (dvd-mul_right m.cap 2))

  index_zero : index 0 wide ≡ 0
  index_zero = omega (arith, index-wide 0)

  moved :
      (to : List Slot) × (move_loop m.cap m.slots (replicate wide blank) ≡ ok to)
      × (length to ≡ wide)
      × (used to ≤ used (replicate wide blank) + used m.slots)
      × ((k : ℕ)
          → get_elem? to k ≡ latest (last_at wide m.slots k) (get_elem? (replicate wide blank) k))
  moved =
      move_loop-last_at m.cap index-wide_in m.slots (replicate wide blank)
        (length-replicate wide blank)

  -- the map after expand_map
  abbrev expanded : HandleMap
  expanded = record { lastid = m.lastid; cap = wide; n = m.n; slots = moved.0 }

  expanded_at :
      (k : ℕ) → k < wide → get_elem? moved.0 k ≡ latest (last_at wide m.slots k) (some blank)
  expanded_at k lt =
      moved.4 k ∙ ap (latest (last_at wide m.slots k)) (get_elem?-replicate wide blank k lt)

  -- A handle that does not go to slot 0 is found as before.
  find-expanded : (j : HandleId) → index j wide ≢ 0 → find expanded j ≡ find m j
  unfolding find
  find-expanded j ne =
      let k = index j wide in
      let p = index j m.cap in
      let back : (id : ℕ) → index id wide ≡ k → (id ≢ 0) × (index id m.cap ≡ p) = λ id e. (
        λ z. ne (sym e ∙ (ap (λ t. index t wide) z ∙ index_zero)),
        index_back id ∙ (ap (λ t. t % m.cap) e ∙ sym (index_back j)),
      ) in
      let here = get_or m.slots p blank in
      ground (
        arith,
        expanded_at k (index-wide_in j),
        last_at-only m.cap wide k p back 0 p m.slots (omega arith)
            (λ i s at nz. omega (arith, v.placed i s at nz)),
        get_elem?-get_or m.slots p blank (index_in j v),
        ap (λ (t : ℕ). index t wide) {x = here.id} {y = j},
      )

  -- A handle that goes to slot 0 is lost, if some slot was free.
  find-expanded_zero :
      (j : HandleId) → used m.slots < m.cap → index j wide ≡ 0 → find expanded j ≡ none
  unfolding find
  find-expanded_zero j free e =
      let first : (i : ℕ) (t : Slot)
          → get_elem? m.slots i ≡ some t
          → t.id ≢ 0
          → index t.id wide ≡ 0
          → i ≡ 0 =
        λ i t at nz idx.
          omega (arith, v.placed i t at nz, index_back t.id, ap (λ (x : ℕ). x % m.cap) idx) in
      let (t, there, gone) = zero_freed wide m.slots index_zero (omega (arith, v.sized)) first in
      ground
        (arith, expanded_at 0 (omega (arith, cap_pos v)), there, gone, ap (get_elem? moved.0) e)

  halved : (k : ℕ) → m.cap * 2 ^ k ≡ 2 ^ 32 → (k' : ℕ) × (wide * 2 ^ k' ≡ 2 ^ 32)
  halved zero e = absurd (omega (arith, small))
  halved (suc k) e = (k, omega (arith, e, ap (λ (t : ℕ). m.cap * t) (pow-suc 2 k)))

  expanded-IsMap : IsMap expanded
  expanded-IsMap = record {
    width = suc v.width;
    spare = (halved v.spare v.cap_fits).0;
    cap_pow = wide_pow;
    cap_fits = (halved v.spare v.cap_fits).1;
    small = omega (arith, small);
    sized = moved.2;
    last_in = v.last_in;
    placed = placed;
    counted = omega (arith, moved.3, used-replicate wide, v.counted);
    bounded = omega (arith, v.bounded);
  }
    where
      placed : Placed wide moved.0
      placed k s at nz = elim (Option-cases (last_at wide m.slots k)) [
        | inl gone ↦
            let lt : k < wide = omega (arith, get_elem?-lt moved.0 k at, moved.2) in
            absurd (ground (arith, expanded_at k lt, gone))
        | inr (u, there) ↦
            let lt : k < wide = omega (arith, get_elem?-lt moved.0 k at, moved.2) in
            let (i, from, idx) = last_at-some wide m.slots k there in
            let same : u ≡ s = ground (arith, expanded_at k lt, there) in
            subst (λ (t : Slot). t.id ≢ 0 → (index t.id wide ≡ k) × (t.id < 2 ^ 32)) same
              (λ ne. (idx, (v.placed i u from ne).1)) nz
      ]

  -- expand_map ends well on a well-formed map; the map is well formed and twice as wide. A handle
  -- that is no multiple of the new capacity is found as before. One that is a multiple is lost,
  -- if some slot was free.
  pub expand_map-all :
      (w : HandleMap) × (expand_map m ≡ ok w)
      × IsMap w
      × (w.cap ≡ m.cap * 2)
      × (w.n ≡ m.n)
      × ((j : HandleId) → j % (m.cap * 2) ≢ 0 → find w j ≡ find m j)
      × (used m.slots < m.cap → (j : HandleId) → j % (m.cap * 2) ≡ 0 → find w j ≡ none)
  unfolding expand_map
  expand_map-all = (
    expanded,
    rw moved.1,
    expanded-IsMap,
    refl,
    refl,
    λ j ne. find-expanded j (λ e. ne (sym (index-wide j) ∙ e)),
    λ free j e. find-expanded_zero j free (index-wide j ∙ e),
  )

  -- expand_map on a well-formed map of capacity at most 2^29 ends well with a well-formed map of
  -- twice the capacity and the same `n`; a handle that is no multiple of the new capacity finds
  -- what it found.
  pub expand_map-Wide :
      (w : HandleMap) × (expand_map m ≡ ok w)
      × IsMap w
      × (w.cap ≡ m.cap * 2)
      × (w.n ≡ m.n)
      × ((j : HandleId) → j % (m.cap * 2) ≢ 0 → find w j ≡ find m j)
  expand_map-Wide =
      let (w, run, v, wide, n, keeps, loses) = expand_map-all in (w, run, v, wide, n, keeps)
