-- ===== src/HandleMap/Fresh.antt =====
-- The map of handlemap_init in src/ltask/handlemap.c.
use grt.Base.{
  ℕ, zero, suc, ◌≡◌, ◌≢◌, refl, Option, none, some, arith, get_elem?, replicate, ◌==◌, Bool-cases,
  inl, inr,
}
use grt.HandleMap.{HandleMap, HandleId, Slot, blank, index}
use grt.HandleMap.Shape.{IsMap}
use grt.HandleMap.Find.{find, matching}

abbrev pub fresh_map : HandleMap
fresh_map = record { lastid = 0; cap = 16; n = 0; slots = replicate 16 blank }

blanks : (n i : ℕ) {s : Slot} → get_elem? (replicate n blank) i ≡ some s → s.id ≡ 0
blanks zero i at = absurd (ground arith)
blanks (suc n) zero at = ground arith
blanks (suc n) (suc i) at = blanks n i at

pub fresh_map-IsMap : IsMap fresh_map
fresh_map-IsMap = record {
  width = 4;
  spare = 28;
  cap_pow = refl;
  cap_fits = refl;
  small = omega arith;
  sized = refl;
  last_in = omega arith;
  placed = λ i s at nz. absurd (nz (blanks 16 i at));
  counted = omega arith;
  bounded = omega arith;
}

pub find-fresh_map : (id : HandleId) → find fresh_map id ≡ none
unfolding find
find-fresh_map id = elim (Bool-cases (id == 0)) [
  | inl e ↦ rw e refl
  | inr e ↦ rw e (
      unmatched (get_elem? fresh_map.slots (index id 16)) (ground arith)
        (λ s at. blanks 16 (index id 16) at))
]
  where
    unmatched :
        (o : Option Slot) → id ≢ 0 → ((s : Slot) → o ≡ some s → s.id ≡ 0) → matching id o ≡ none
    unmatched none nz h = refl
    unmatched (some s) nz h = let free = h s refl in ground arith
