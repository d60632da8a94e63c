-- ===== src/HandleMap/New.antt =====
-- handlemap_new of src/ltask/handlemap.c.
use grt.Base.{
  ◌*◌, ◌/◌, ◌%◌, ◌^◌, ◌<◌, ◌≤◌, ◌≡◌, ◌≢◌, ◌⊎◌, inl, inr, Bool, none, some, true, false, arith,
  get_elem?-lt, Bool-cases, ◌==◌,
}
use grt.Base.Run.{ok}
use grt.HandleMap.{HandleMap, HandleId, Pointer, handlemap_new, probe, is_crowded}
use grt.HandleMap.Shape.{IsMap, used, free_slot, cap_pos}
use grt.HandleMap.Find.{find}
use grt.HandleMap.Probe.{Added, first_slot, ahead, probe-Added}
use grt.HandleMap.Expand.{expand_map-all}

module _ (m : HandleMap) (small : m.cap ≤ 2 ^ 29) where
  few-is_crowded : m.n < m.cap * 3 / 4 → is_crowded m ≡ false
  few-is_crowded few = ground arith

  many-is_crowded : m.cap * 3 / 4 ≤ m.n → is_crowded m ≡ true
  many-is_crowded many = ground arith

-- On a well-formed map with `n` below the capacity the loop of handlemap_new ends within two
-- rounds over the slots, with a new live handle.
pub probe-total :
    (m : HandleMap) (ud : Pointer)
    → IsMap m
    → m.n < m.cap
    → (m' : HandleMap) × (id : HandleId) × (probe (m.cap * 2) m ud ≡ ok (m', id)) × Added m m' id ud
probe-total m ud v room =
    let (r, s, at, e) = free_slot m.slots (omega (arith, v.counted, v.sized)) in
    let lt : r < m.cap = omega (arith, get_elem?-lt m.slots r at, v.sized) in
    let (d, way, le) = ahead m.cap m.lastid r (cap_pos v) v.small v.last_in lt in
    probe-Added (m.cap * 2) r d m ud v room at e way le

-- On a well-formed map of capacity at most 2^29 with `n` below three quarters of the capacity,
-- handlemap_new of a pointer other than NULL ends well with a handle other than 0 that was not
-- live; the new map is well formed, finds the pointer with one reference at that handle, and finds
-- at every other handle what the old map found.
pub handlemap_new-Added :
    (mem : Bool) (m : HandleMap) (ud : Pointer)
    → IsMap m
    → ud ≢ 0
    → m.cap ≤ 2 ^ 29
    → m.n < m.cap * 3 / 4
    → (m' : HandleMap) × (id : HandleId) × (handlemap_new mem m ud ≡ ok (m', id)) × Added m m' id ud
unfolding handlemap_new
handlemap_new-Added mem m ud v nz small few =
    let (m', id, run, added) = probe-total m ud v (omega arith) in
    (m', id, ground (arith, run, few-is_crowded m small few), added)

-- On a well-formed map of capacity at most 2^29 with `n` at three quarters of the capacity or
-- above, handlemap_new of a pointer other than NULL, with memory, ends well with a new live handle
-- in a well-formed map, and every other handle that is no multiple of the doubled capacity finds
-- what it found.
pub handlemap_new-wide :
    (m : HandleMap) (ud : Pointer)
    → IsMap m
    → ud ≢ 0
    → m.cap * 3 / 4 ≤ m.n
    → m.cap ≤ 2 ^ 29
    → (m' : HandleMap) × (id : HandleId) × (handlemap_new true m ud ≡ ok (m', id))
      × IsMap m'
      × (id ≢ 0)
      × (find m' id ≡ some (first_slot id ud))
      × ((j : HandleId) → j % (m.cap * 2) ≢ 0 → id ≢ j → find m' j ≡ find m j)
unfolding handlemap_new
handlemap_new-wide m ud v nz many small =
    let (w, widened, wv, wide, same_n, keeps, loses) = expand_map-all v small in
    let (m', id, run, added) = probe-total w ud wv (omega (arith, v.bounded, cap_pos v)) in
    (
      m',
      id,
      ground (arith, widened, run, many-is_crowded m small many),
      added.valid,
      added.nonzero,
      ground (arith, added.finds id),
      λ j ne other. ground (arith, added.finds j, keeps j ne),
    )

-- On such a map with a free slot, a handle that is a multiple of the doubled capacity is not found
-- any more after handlemap_new has doubled the map, unless it is the new handle itself.
pub handlemap_new-loses :
    (m : HandleMap) (ud : Pointer) (j : HandleId)
    → IsMap m
    → ud ≢ 0
    → m.cap * 3 / 4 ≤ m.n
    → m.cap ≤ 2 ^ 29
    → used m.slots < m.cap
    → j % (m.cap * 2) ≡ 0
    → (m' : HandleMap) × (id : HandleId) × (handlemap_new true m ud ≡ ok (m', id))
      × ((id ≡ j) ⊎ (find m' j ≡ none))
unfolding handlemap_new
handlemap_new-loses m ud j v nz many small free e =
    let (w, widened, wv, wide, same_n, keeps, loses) = expand_map-all v small in
    let (m', id, run, added) = probe-total w ud wv (omega (arith, v.bounded, cap_pos v)) in
    (
      m',
      id,
      ground (arith, widened, run, many-is_crowded m small many),
      elim (Bool-cases (id == j)) [
        | inl same ↦ inl (ground arith)
        | inr other ↦ inr (ground (arith, added.finds j, loses free j e))
      ],
    )

-- Without memory for the wider map, or with NULL, no handle is given and nothing changes.
pub handlemap_new-fails :
    (m : HandleMap) (ud : Pointer)
    → m.cap ≤ 2 ^ 29
    → (ud ≡ 0) ⊎ (m.cap * 3 / 4 ≤ m.n)
    → handlemap_new false m ud ≡ ok (m, 0)
unfolding handlemap_new
handlemap_new-fails m ud small (inl e) = ground arith
handlemap_new-fails m ud small (inr h) = ground (arith, many-is_crowded m small h)
