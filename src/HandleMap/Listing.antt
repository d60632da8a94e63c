-- ===== src/HandleMap/Listing.antt =====
-- handlemap_list of src/ltask/handlemap.c against the abstract view of a handle map.
use grt.Base.{
  ℕ, zero, suc, ◌+◌, ◌≤◌, ◌≡◌, ◌≢◌, refl, sym, ◌∙◌, ap, List, [], ◌∷◌, some, arith, length,
  get_elem?, take, ◌==◌, if◌then◌else◌, Bool, Bool-cases, inl, inr,
}
use grt.HandleMap.{HandleMap, HandleId, Slot, index, list_loop, handlemap_list}
use grt.HandleMap.Shape.{IsMap, used}
use grt.HandleMap.Find.{find, find-slot}

-- The ids of the slots in use.
abbrev ids_of : List Slot → List HandleId
ids_of [] = []
ids_of (s ∷ rest) = if s.id == 0 then ids_of rest else s.id ∷ ids_of rest

list_loop-take : (slots : List Slot) (room : ℕ) → list_loop slots room ≡ take room (ids_of slots)
unfolding list_loop
list_loop-take [] zero = refl
list_loop-take [] (suc room) = refl
list_loop-take (s ∷ rest) zero = refl
list_loop-take (s ∷ rest) (suc room) = elim (Bool-cases (s.id == 0)) [
  | inl e ↦ rw (e, list_loop-take rest (suc room)) refl
  | inr e ↦ rw (e, list_loop-take rest room) refl
]

length-ids_of : (slots : List Slot) → length (ids_of slots) ≡ used slots
length-ids_of [] = refl
length-ids_of (s ∷ rest) = ground (arith, length-ids_of rest)

-- An entry of the list belongs to the slots behind a free one, is the first, or comes after it.
data Entry (s : Slot) (rest : List Slot) (i : ℕ) (j : HandleId) : Type 0 where
  behind : s.id ≡ 0 → get_elem? (ids_of rest) i ≡ some j → Entry s rest i j
  first : s.id ≢ 0 → i ≡ 0 → s.id ≡ j → Entry s rest i j
  after : s.id ≢ 0 → (k : ℕ) → i ≡ suc k → get_elem? (ids_of rest) k ≡ some j → Entry s rest i j

entry :
    (s : Slot) (rest : List Slot) (i : ℕ) {j : HandleId}
    → get_elem? (ids_of (s ∷ rest)) i ≡ some j
    → Entry s rest i j
entry s rest i {j} at = elim (Bool-cases (s.id == 0)) [
  | inl e ↦
      behind (ground arith) (
        ap (λ (b : Bool). get_elem? (if b then ids_of rest else s.id ∷ ids_of rest) i) (sym e) ∙ at)
  | inr e ↦
      in_use i (ground arith) (
        ap (λ (b : Bool). get_elem? (if b then ids_of rest else s.id ∷ ids_of rest) i) (sym e) ∙ at)
]
  where
    in_use : (i : ℕ) → s.id ≢ 0 → get_elem? (s.id ∷ ids_of rest) i ≡ some j → Entry s rest i j
    in_use zero nz at = first nz refl (ground arith)
    in_use (suc k) nz at = after nz k refl at

-- What is listed is the id of a slot in use.
listed :
    (slots : List Slot) (i : ℕ) {j : HandleId}
    → get_elem? (ids_of slots) i ≡ some j
    → (o : ℕ) × (s : Slot) × (get_elem? slots o ≡ some s) × (s.id ≡ j) × (j ≢ 0)
listed [] i at = absurd (ground arith)
listed (s ∷ rest) i at = elim (entry s rest i at) [
  | behind z at' ↦ let (o, t, found, is, nz) = listed rest i at' in (suc o, t, found, is, nz)
  | first nz z same ↦ (0, s, refl, same, ground arith)
  | after nz k e at' ↦ let (o, t, found, is, nz') = listed rest k at' in (suc o, t, found, is, nz')
]

-- Every slot in use is listed.
lists :
    (slots : List Slot) (o : ℕ) {s : Slot}
    → get_elem? slots o ≡ some s
    → s.id ≢ 0
    → (i : ℕ) × (get_elem? (ids_of slots) i ≡ some s.id)
lists [] o at nz = absurd (ground arith)
lists (t ∷ rest) zero at nz = (zero, ground arith)
lists (t ∷ rest) (suc o) at nz =
    let (i, here) = lists rest o at nz in
    elim (Bool-cases (t.id == 0)) [ inl e ↦ (i, rw e here) | inr e ↦ (suc i, rw e here) ]

-- No id is listed twice when each stands at its index, here from `o` on.
listed_once :
    (cap o : ℕ) (slots : List Slot) (i i' : ℕ) {j : HandleId}
    → ((k : ℕ) (s : Slot) → get_elem? slots k ≡ some s → s.id ≢ 0 → index s.id cap ≡ o + k)
    → get_elem? (ids_of slots) i ≡ some j
    → get_elem? (ids_of slots) i' ≡ some j
    → i ≡ i'
listed_once cap o [] i i' placed at at' = absurd (ground arith)
listed_once cap o (s ∷ rest) i i' {j} placed at at' =
    both (entry s rest i at) (entry s rest i' at')
      (λ k k' h h'. listed_once cap (o + 1) rest k k' later h h')
  where
    later : (k : ℕ) (t : Slot) → get_elem? rest k ≡ some t → t.id ≢ 0 → index t.id cap ≡ o + 1 + k
    later k t h nz = omega (arith, placed (suc k) t h nz)

    clash : (k : ℕ) → s.id ≢ 0 → s.id ≡ j → get_elem? (ids_of rest) k ≡ some j → ⊥
    clash k nz same h =
        let (p, t, found, is, nz') = listed rest k h in
        omega (
          arith,
          placed zero s refl nz,
          later p t found (ground arith),
          ap (λ (x : ℕ). index x cap) (same ∙ sym is),
        )

    both :
        Entry s rest i j
        → Entry s rest i' j
        → ((k k' : ℕ)
            → get_elem? (ids_of rest) k ≡ some j
            → get_elem? (ids_of rest) k' ≡ some j
            → k ≡ k')
        → i ≡ i'
    both (behind z h) (behind z' h') again = again i i' h h'
    both (behind z h) (first nz e same) again = absurd (nz z)
    both (behind z h) (after nz k e h') again = absurd (nz z)
    both (first nz e same) (behind z h) again = absurd (nz z)
    both (first nz e same) (first nz' e' same') again = e ∙ sym e'
    both (first nz e same) (after nz' k e' h) again = absurd (clash k nz same h)
    both (after nz k e h) (behind z h') again = absurd (nz z)
    both (after nz k e h) (first nz' e' same) again = absurd (clash k nz same h)
    both (after nz k e h) (after nz' k' e' h') again = e ∙ ap suc (again k k' h h') ∙ sym e'

slot-find :
    (m : HandleMap)
    → IsMap m
    → (o : ℕ) (s : Slot) → get_elem? m.slots o ≡ some s
    → {j : HandleId} → s.id ≡ j
    → j ≢ 0
    → find m j ≡ some s
unfolding find
slot-find m v o s at {j} is nz =
    let (e, _) = v.placed o s at (ground arith) in
    let there : get_elem? m.slots (index j m.cap) ≡ some s =
      ap (get_elem? m.slots) (ap (λ (x : ℕ). index x m.cap) (sym is) ∙ e) ∙ at in
    ground (arith, there)

-- The ids of the live handles, each of them once.
pub record Lists (m : HandleMap) (ids : List HandleId) : Type 0 where
  pub live : (i : ℕ) (j : HandleId) → get_elem? ids i ≡ some j → (s : Slot) × (find m j ≡ some s)
  pub all : (j : HandleId) (s : Slot) → find m j ≡ some s → (i : ℕ) × (get_elem? ids i ≡ some j)
  pub once :
      (i i' : ℕ) (j : HandleId) → get_elem? ids i ≡ some j → get_elem? ids i' ≡ some j → i ≡ i'

-- On a well-formed map there is a list of ids, no longer than `n`, that has each handle that is
-- found and no other, each of them once, and handlemap_list with room for any number of ids writes
-- a front part of it, as long as fits, and returns `n`.
pub handlemap_list-Lists :
    (m : HandleMap)
    → IsMap m
    → (ids : List HandleId) × Lists m ids
      × (length ids ≤ m.n)
      × ((room : ℕ) → handlemap_list m room ≡ (take room ids, m.n))
unfolding handlemap_list
handlemap_list-Lists m v = (
  ids_of m.slots,
  record { live = live; all = all; once = λ i i' j. listed_once m.cap 0 m.slots i i' here },
  omega (arith, length-ids_of m.slots, v.counted),
  λ room. rw (list_loop-take m.slots room) refl,
)
  where
    here : (k : ℕ) (s : Slot) → get_elem? m.slots k ≡ some s → s.id ≢ 0 → index s.id m.cap ≡ 0 + k
    here k s at nz = omega (arith, (v.placed k s at nz).0)

    live :
        (i : ℕ) (j : HandleId)
        → get_elem? (ids_of m.slots) i ≡ some j
        → (s : Slot) × (find m j ≡ some s)
    live i j at =
        let (o, s, found, is, nz) = listed m.slots i at in (s, slot-find m v o s found is nz)

    all :
        (j : HandleId) (s : Slot)
        → find m j ≡ some s
        → (i : ℕ) × (get_elem? (ids_of m.slots) i ≡ some j)
    all j s f =
        let (nz, at, is) = find-slot m j f in
        let (i, e) = lists m.slots (index j m.cap) at (ground arith) in (i, e ∙ ap some is)
