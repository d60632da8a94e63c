-- ===== src/HandleMap/Find.antt =====
-- The abstract view of a handle map (src/ltask/handlemap.c): a partial function from handles to
-- slots, and what a write of one slot does to it.
use grt.Base.{
  ℕ, ◌^◌, ◌<◌, ◌≤◌, ◌≡◌, ◌≢◌, ◌⊎◌, Option, none, some, arith, get_elem?, set, get_elem?-set,
  get_elem?-lt, length-set, ℕ_discrete, ◌==◌, if◌then◌else◌, ap, ◌∙◌,
}
use grt.HandleMap.{HandleMap, HandleId, Slot, index}
use grt.HandleMap.Shape.{IsMap, Placed, used, index_in}

abbrev pub matching : HandleId → Option Slot → Option Slot
matching id none = none
matching id (some s) = if s.id == id then some s else none

-- The slot of a live handle.
unfoldable pub find : HandleMap → HandleId → Option Slot
find m id = if id == 0 then none else matching id (get_elem? m.slots (index id m.cap))

-- What a live handle says of the slots.
pub find-slot :
    (m : HandleMap) (id : HandleId) {s : Slot}
    → find m id ≡ some s
    → (id ≢ 0) × (get_elem? m.slots (index id m.cap) ≡ some s) × (s.id ≡ id)
unfolding find
find-slot m id h = ground arith

-- A live handle's new slot, or a free slot's first, changes what this handle finds and no other.
pub find-write :
    {m : HandleMap} (id : HandleId) (old new : Slot)
    → IsMap m
    → id ≢ 0
    → get_elem? m.slots (index id m.cap) ≡ some old
    → (old.id ≡ id) ⊎ (old.id ≡ 0)
    → new.id ≡ id
    → (last n : ℕ) (j : HandleId)
    → find
        (record { lastid = last; cap = m.cap; n = n; slots = set m.slots (index id m.cap) new })
        j
      ≡ (if id == j then some new else find m j)
unfolding find
find-write {m} id old new v nz at was is last n j = ground (
  arith,
  get_elem?-set m.slots (index id m.cap) (index j m.cap) new (index_in id v),
  ap (λ (t : ℕ). index t m.cap) {x = id} {y = j},
)

-- Freeing a live handle's slot makes this handle find nothing, and no other.
pub find-free :
    {m : HandleMap} (id : HandleId) (old new : Slot)
    → IsMap m
    → find m id ≡ some old
    → new.id ≡ 0
    → (n : ℕ) (j : HandleId)
    → find (record m { n = n; slots = set m.slots (index id m.cap) new }) j
      ≡ (if id == j then none else find m j)
unfolding find
find-free {m} id old new v live is n j = ground (
  arith,
  find-slot m id live,
  get_elem?-set m.slots (index id m.cap) (index j m.cap) new (index_in id v),
  ap (λ (t : ℕ). index t m.cap) {x = id} {y = j},
)

-- A write of a slot that belongs where it stands keeps the map well formed.
pub write-IsMap :
    {m : HandleMap} (i : ℕ) (old new : Slot)
    → IsMap m
    → get_elem? m.slots i ≡ some old
    → (new.id ≢ 0 → (index new.id m.cap ≡ i) × (new.id < 2 ^ 32))
    → (last n : ℕ) → last < 2 ^ 32
    → used (set m.slots i new) ≤ n
    → n ≤ m.cap
    → IsMap (record { lastid = last; cap = m.cap; n = n; slots = set m.slots i new })
write-IsMap {m} i old new v at fits last n last_in counted bounded = record {
  width = v.width;
  spare = v.spare;
  cap_pow = v.cap_pow;
  cap_fits = v.cap_fits;
  small = v.small;
  sized = length-set m.slots i new ∙ v.sized;
  last_in = last_in;
  placed = placed;
  counted = counted;
  bounded = bounded;
}
  where
    placed : Placed m.cap (set m.slots i new)
    placed j s h nz = elim (ℕ_discrete i j) [
      | yes e ↦ ground (arith, get_elem?-set m.slots i j new (get_elem?-lt m.slots i at), fits)
      | no ne ↦
          v.placed j s (ground (arith, get_elem?-set m.slots i j new (get_elem?-lt m.slots i at)))
            nz
    ]
