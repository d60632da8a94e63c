-- ===== src/HandleMap/Sample.antt =====
-- Concrete handle maps for the tests, and a test for well-placed slots.
use grt.Base.{
  ℕ, zero, suc, ◌+◌, ◌^◌, ◌<◌, ◌≡◌, ◌≢◌, refl, List, [], ◌∷◌, Bool, some, true, ◌&&◌, ◌||◌, arith,
  get_elem?, replicate, ◌==◌, ltb,
}
use grt.HandleMap.Count.{pos}
use grt.HandleMap.{HandleMap, HandleId, Slot, blank, index}
use grt.HandleMap.Shape.{IsMap}

-- A test for `Placed`, from position `o` on.
unfoldable pub placed_from : ℕ → ℕ → List Slot → Bool
placed_from cap o [] = true
placed_from cap o (s ∷ rest) =
    (s.id == 0 || (index s.id cap == o && ltb s.id (2 ^ 32))) && placed_from cap (o + 1) rest

pub placed_from_sound :
    (cap o : ℕ) (slots : List Slot)
    → placed_from cap o slots ≡ true
    → (i : ℕ) (s : Slot) → get_elem? slots i ≡ some s
    → s.id ≢ 0
    → (index s.id cap ≡ o + i) × (s.id < 2 ^ 32)
unfolding placed_from
placed_from_sound cap o [] h i s at nz = absurd (ground arith)
placed_from_sound cap o (s ∷ rest) h zero t at nz = ground arith
placed_from_sound cap o (s ∷ rest) h (suc i) t at nz =
    ground (arith, placed_from_sound cap (o + 1) rest (ground arith) i t at nz)

abbrev pub slot : HandleId → Slot
slot id = record { id = id; ref = pos 1; ud = 100 + id }

-- Twelve of sixteen slots are in use; 32 stands in slot 0, and slots 12 to 15 are free.
abbrev pub twelve : List Slot
twelve =
    slot 32
    ∷ slot 1
    ∷ slot 2
    ∷ slot 3
    ∷ slot 4
    ∷ slot 5
    ∷ slot 6
    ∷ slot 7
    ∷ slot 8
    ∷ slot 9
    ∷ slot 10
    ∷ slot 27
    ∷ blank
    ∷ blank
    ∷ blank
    ∷ blank
    ∷ []

abbrev pub crowded : HandleMap
crowded = record { lastid = 32; cap = 16; n = 12; slots = twelve }

pub crowded-IsMap : IsMap crowded
unfolding placed_from
crowded-IsMap = record {
  width = 4;
  spare = 28;
  cap_pow = refl;
  cap_fits = refl;
  small = omega arith;
  sized = refl;
  last_in = omega arith;
  placed = λ i s at nz.
      let (e, lt) = placed_from_sound 16 0 twelve refl i s at nz in (omega (arith, e), lt);
  counted = omega arith;
  bounded = omega arith;
}

abbrev pub three : HandleMap
three = record { lastid = 2; cap = 16; n = 2; slots = blank ∷ slot 1 ∷ slot 2 ∷ replicate 13 blank }

pub three-IsMap : IsMap three
unfolding placed_from
three-IsMap = record {
  width = 4;
  spare = 28;
  cap_pow = refl;
  cap_fits = refl;
  small = omega arith;
  sized = refl;
  last_in = omega arith;
  placed = λ i s at nz.
      let (e, lt) = placed_from_sound 16 0 three.slots refl i s at nz in (omega (arith, e), lt);
  counted = omega arith;
  bounded = omega arith;
}

-- Handles 1 and 2 point to 1 and 2.
abbrev pub pair_map : HandleMap
pair_map = record {
  lastid = 2;
  cap = 16;
  n = 2;
  slots =
      blank
      ∷ record { id = 1; ref = pos 1; ud = 1 }
      ∷ record { id = 2; ref = pos 1; ud = 2 }
      ∷ replicate 13 blank;
}

pub pair_map-IsMap : IsMap pair_map
unfolding placed_from
pair_map-IsMap = record {
  width = 4;
  spare = 28;
  cap_pow = refl;
  cap_fits = refl;
  small = omega arith;
  sized = refl;
  last_in = omega arith;
  placed = λ i s at nz.
      let (e, lt) = placed_from_sound 16 0 pair_map.slots refl i s at nz in (omega (arith, e), lt);
  counted = omega arith;
  bounded = omega arith;
}
