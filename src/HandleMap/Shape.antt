-- ===== src/HandleMap/Shape.antt =====
-- The well-formedness of a handle map (src/ltask/handlemap.c).
use native.Mathlib.Nat.{one-le-pow, mod-lt, dvd-mul_right, mod-mod_of_dvd}
use Prim.Native.Nat.{◌∣◌}
use mathlib.Core.Path.{subst}
use grt.Base.{
  ℕ, zero, suc, ◌+◌, ◌*◌, ◌%◌, ◌^◌, ◌≤◌, ◌<◌, ◌≡◌, ◌≢◌, refl, sym, List, [], ◌∷◌, some, arith,
  length, get_elem?, set, ℕ_discrete, ◌==◌, if◌then◌else◌,
}
use grt.Base.Bits.{bit_and_low}
use grt.HandleMap.{HandleMap, HandleId, Slot, index}

-- The number of slots in use.
abbrev pub used : List Slot → ℕ
used [] = 0
used (s ∷ rest) = (if s.id == 0 then 0 else 1) + used rest

-- A slot in use holds an id that belongs there.
abbrev pub Placed : ℕ → List Slot → Type 0
Placed cap slots =
    (i : ℕ) (s : Slot)
    → get_elem? slots i ≡ some s
    → s.id ≢ 0
    → (index s.id cap ≡ i) × (s.id < 2 ^ 32)

-- The capacity is a power of two that divides the range of ids, the slots are that many, each id
-- stands at its index, and `n` is no less than the slots in use.
pub record IsMap (m : HandleMap) : Type 0 where
  pub width : ℕ
  pub spare : ℕ
  pub cap_pow : m.cap ≡ 2 ^ width
  pub cap_fits : m.cap * 2 ^ spare ≡ 2 ^ 32
  pub small : m.cap ≤ 2 ^ 30
  pub sized : length m.slots ≡ m.cap
  pub last_in : m.lastid < 2 ^ 32
  pub placed : Placed m.cap m.slots
  pub counted : used m.slots ≤ m.n
  pub bounded : m.n ≤ m.cap

pub cap_pos : {m : HandleMap} → IsMap m → 0 < m.cap
cap_pos v = omega (arith, v.cap_pow, one-le-pow v.width 2 (omega arith))

pub index_pow : (id cap width : ℕ) → cap ≡ 2 ^ width → index id cap ≡ id % cap
index_pow id cap width e = subst (λ c. index id c ≡ id % c) (sym e) (bit_and_low width id)

pub index_lem : {m : HandleMap} (id : HandleId) → IsMap m → index id m.cap ≡ id % m.cap
index_lem {m} id v = index_pow id m.cap v.width v.cap_pow

-- The index is inside the slots.
pub index_in : {m : HandleMap} (id : HandleId) → IsMap m → index id m.cap < length m.slots
index_in {m} id v = omega (arith, index_lem id v, mod-lt id (cap_pos v), v.sized)

-- Wrapping at 32 bits does not change an index.
pub mod_wrap_cap : (cap spare x : ℕ) → cap * 2 ^ spare ≡ 2 ^ 32 → x % 2 ^ 32 % cap ≡ x % cap
mod_wrap_cap cap spare x e =
    mod-mod_of_dvd cap x (subst (λ (t : ℕ). cap ∣ t) e (dvd-mul_right cap (2 ^ spare)))

used_le : (slots : List Slot) → used slots ≤ length slots
used_le [] = omega arith
used_le (s ∷ rest) = ground (arith, used_le rest)

-- A free slot, if not all are in use.
pub free_slot :
    (slots : List Slot)
    → used slots < length slots
    → (i : ℕ) × (s : Slot) × (get_elem? slots i ≡ some s) × (s.id ≡ 0)
free_slot [] h = elim h [ ]
free_slot (s ∷ rest) h = elim (ℕ_discrete s.id 0) [
  | yes e ↦ (0, s, refl, e)
  | no ne ↦ let (i, t, at, e) = free_slot rest (ground arith) in (suc i, t, at, e)
]

-- What a write does to the number of slots in use.
pub used-set :
    (slots : List Slot) (i : ℕ) (old new : Slot)
    → get_elem? slots i ≡ some old
    → used (set slots i new) + (if old.id == 0 then 0 else 1)
      ≡ used slots + (if new.id == 0 then 0 else 1)
used-set [] i old new h = absurd (ground arith)
used-set (s ∷ rest) zero old new h = ground arith
used-set (s ∷ rest) (suc i) old new h = omega (arith, used-set rest i old new h)
