-- ===== src/Schedule/Names.antt =====
-- What a handle map and a memory of src/ltask/schedule.c keep together: every handle that is found
-- points to a place in use, with something in it that is as it should be.
use grt.Base.{
  ℕ, zero, suc, ◌-◌, ◌<◌, ◌≤◌, ◌≡◌, ◌≢◌, refl, sym, ◌∙◌, ap, List, [], ◌∷◌, ◌++◌, Option, none,
  some, Bool, true, false, arith, length, get_elem?, get_elem?-lt, get_elem?-set, set, ◌==◌,
  if◌then◌else◌, Bool-cases, inl, inr,
}
use grt.Base.Run.{ok}
use grt.HandleMap.{HandleMap, HandleId, Pointer, Slot}
use grt.HandleMap.Count.{is_pos}
use grt.HandleMap.Shape.{IsMap}
use grt.HandleMap.Find.{find}
use grt.HandleMap.Refs.{Updates}
use grt.HandleMap.Probe.{Added, first_slot}
use grt.Schedule.{deref}
use grt.Schedule.Views.{Live}

pub record Names {A : Type 0} (Good : A → Type 0) (m : HandleMap) (memory : List (Option A))
    : Type 0 where
  pub valid : IsMap m
  pub named :
      (id : HandleId) (slot : Slot)
      → find m id ≡ some slot
      → (is_pos slot.ref ≡ true) × (slot.ud ≢ 0) × (a : A) × (deref memory slot.ud ≡ ok a) × Good a
  pub apart :
      (id id' : HandleId) (slot slot' : Slot)
      → find m id ≡ some slot
      → find m id' ≡ some slot'
      → slot.ud ≡ slot'.ud
      → id ≡ id'

deref-set :
    {A : Type 0} (memory : List (Option A)) (p q : Pointer) (old new : A)
    → deref memory p ≡ ok old
    → deref (set memory (p - 1) (some new)) q ≡ (if p == q then ok new else deref memory q)
deref-set memory zero q old new h = absurd (ground arith)
deref-set memory (suc p) zero old new h =
    let other : (suc p == 0) ≡ false = ground arith in rw other refl
deref-set memory (suc p) (suc q) old new h =
    let here : get_elem? memory p ≡ some (some old) = ground arith in
    let lt : p < length memory = get_elem?-lt memory p here in
    let place : suc p - 1 ≡ p = omega arith in
    rw place (ground (arith, get_elem?-set memory p q (some new) lt))

get_elem?-append :
    {A : Type 0} (xs ys : List A) (i : ℕ) {a : A}
    → get_elem? xs i ≡ some a
    → get_elem? (xs ++ ys) i ≡ some a
get_elem?-append [] ys i h = absurd (ground arith)
get_elem?-append (x ∷ xs) ys zero h = h
get_elem?-append (x ∷ xs) ys (suc i) h = get_elem?-append xs ys i h

get_elem?-append_last :
    {A : Type 0} (xs : List A) (a : A) → get_elem? (xs ++ a ∷ []) (length xs) ≡ some a
get_elem?-append_last [] a = refl
get_elem?-append_last (x ∷ xs) a = get_elem?-append_last xs a

deref-other :
    {A : Type 0} (memory : List (Option A)) (p q : Pointer) (old : A) (new : Option A)
    → deref memory p ≡ ok old
    → p ≢ q
    → deref (set memory (p - 1) new) q ≡ deref memory q
deref-other memory zero q old new h ne = absurd (ground arith)
deref-other memory (suc p) zero old new h ne = refl
deref-other memory (suc p) (suc q) old new h ne =
    let here : get_elem? memory p ≡ some (some old) = ground arith in
    let lt : p < length memory = get_elem?-lt memory p here in
    let place : suc p - 1 ≡ p = omega arith in
    rw place (ground (arith, get_elem?-set memory p q new lt))

deref-inside :
    {A : Type 0} (memory : List (Option A)) (p : Pointer) {a : A}
    → deref memory p ≡ ok a
    → p ≤ length memory
deref-inside memory zero h = omega arith
deref-inside memory (suc p) {a} h =
    let here : get_elem? memory p ≡ some (some a) = ground arith in
    omega (arith, get_elem?-lt memory p here)

deref-append :
    {A : Type 0} (memory : List (Option A)) (q : Pointer) {a : A} (b : A)
    → deref memory q ≡ ok a
    → deref (memory ++ some b ∷ []) q ≡ ok a
deref-append memory zero b h = absurd (ground arith)
deref-append memory (suc q) {a} b h =
    let here : get_elem? memory q ≡ some (some a) = ground arith in
    ground (arith, get_elem?-append memory (some b ∷ []) q here)

pub deref-append_last :
    {A : Type 0} (memory : List (Option A)) (a : A)
    → deref (memory ++ some a ∷ []) (suc (length memory)) ≡ ok a
deref-append_last memory a = ground (arith, get_elem?-append_last memory (some a))

module _ {A : Type 0} {Good : A → Type 0} {m : HandleMap} {memory : List (Option A)}
    (v : Names Good m memory) where
  pub Names-Live : (id : HandleId) (slot : Slot) → find m id ≡ some slot → Live m id slot.ud
  Names-Live id slot f =
      let (held, non_null, a, at, good) = v.named id slot f in
      record {
        slot = slot;
        valid = v.valid;
        found = f;
        held = held;
        points = refl;
        non_null = non_null;
      }

  pub Names-set :
      (p : Pointer) (old new : A)
      → deref memory p ≡ ok old
      → Good new
      → Names Good m (set memory (p - 1) (some new))
  Names-set p old new at good = record {
    valid = v.valid;
    named = λ id slot f.
        let (held, non_null, a, here, good') = v.named id slot f in
        let (b, here', good'') = content slot.ud a here good' in (held, non_null, b, here', good'');
    apart = v.apart;
  }
    where
      content :
          (q : Pointer) (a : A)
          → deref memory q ≡ ok a
          → Good a
          → (b : A) × (deref (set memory (p - 1) (some new)) q ≡ ok b) × Good b
      content q a here good' = elim (Bool-cases (p == q)) [
        | inl e ↦ (new, deref-set memory p q old new at ∙ rw e refl, good)
        | inr e ↦ (a, deref-set memory p q old new at ∙ rw e here, good')
      ]

  -- What a new handle finds, and what another finds beside it.
  pub Names-new :
      {m' : HandleMap} {id : HandleId} (a : A)
      → Added m m' id (suc (length memory))
      → Good a
      → Names Good m' (memory ++ some a ∷ [])
  Names-new {m'} {id} a d good = record {
    valid = d.valid;
    named = λ j slot f. elim (Bool-cases (id == j)) [
      | inl e ↦
          let (ref, at) = new_slot j slot e f in
          (
            ref,
            omega (arith, at),
            a,
            ap (deref (memory ++ some a ∷ [])) at ∙ deref-append_last memory a,
            good,
          )
      | inr e ↦
          let (held, non_null, b, here, good') = v.named j slot (old_slot j slot e f) in
          (held, non_null, b, deref-append memory slot.ud a here, good')
    ];
    apart = λ j j' slot slot' f f' same. elim (Bool-cases (id == j)) [
      | inl e ↦ elim (Bool-cases (id == j')) [
        | inl e' ↦ ground arith
        | inr e' ↦ absurd (
            omega (arith, (new_slot j slot e f).1, inside j' slot' (old_slot j' slot' e' f'), same))
      ]
      | inr e ↦ elim (Bool-cases (id == j')) [
        | inl e' ↦
            absurd (
              omega (arith, (new_slot j' slot' e' f').1, inside j slot (old_slot j slot e f), same))
        | inr e' ↦ v.apart j j' slot slot' (old_slot j slot e f) (old_slot j' slot' e' f') same
      ]
    ];
  }
    where
      held_by : Option Slot → Bool
      held_by none = false
      held_by (some s) = is_pos s.ref

      points_to : Option Slot → Pointer
      points_to none = 0
      points_to (some s) = s.ud

      new_slot :
          (j : HandleId) (slot : Slot)
          → (id == j) ≡ true
          → find m' j ≡ some slot
          → (is_pos slot.ref ≡ true) × (slot.ud ≡ suc (length memory))
      new_slot j slot e f =
          let is : some slot ≡ some (first_slot id (suc (length memory))) =
            sym f ∙ d.finds j ∙ rw e refl in
          (ap (λ o. held_by o) is, ap (λ o. points_to o) is)

      old_slot :
          (j : HandleId) (slot : Slot)
          → (id == j) ≡ false
          → find m' j ≡ some slot
          → find m j ≡ some slot
      old_slot j slot e f = sym (d.finds j ∙ rw e refl) ∙ f

      inside : (j : HandleId) (slot : Slot) → find m j ≡ some slot → slot.ud ≤ length memory
      inside j slot f =
          let (_, _, b, here, _) = v.named j slot f in deref-inside memory slot.ud here

  -- A reference less.
  pub Names-less :
      {m' : HandleMap} (id : HandleId) (slot less : Slot)
      → find m id ≡ some slot
      → Updates m m' id (some less)
      → is_pos less.ref ≡ true
      → less.ud ≡ slot.ud
      → Names Good m' memory
  Names-less {m'} id slot less found u held same = record {
    valid = u.valid;
    named = λ j x f.
        let (y, f', e, ref) = before j x f in
        let (ref', non_null, a, at, good) = v.named j y f' in
        (ref ref', omega (arith, e, non_null), a, ap (deref memory) e ∙ at, good);
    apart = λ j j' x x' f f' is.
        let (y, g, e, _) = before j x f in
        let (y', g', e', _) = before j' x' f' in v.apart j j' y y' g g' (sym e ∙ is ∙ e');
  }
    where
      some_inj : {x y : Slot} → some x ≡ some y → x ≡ y
      some_inj e = ground arith

      before :
          (j : HandleId) (x : Slot)
          → find m' j ≡ some x
          → (y : Slot) × (find m j ≡ some y)
            × (x.ud ≡ y.ud)
            × (is_pos y.ref ≡ true → is_pos x.ref ≡ true)
      before j x f = elim (Bool-cases (id == j)) [
        | inl e ↦
            let is : x ≡ less = some_inj (sym f ∙ u.finds j ∙ rw e refl) in
            let here : id ≡ j = ground arith in
            (
              slot,
              ap (find m) (sym here) ∙ found,
              ap (λ y. y.ud) is ∙ same,
              λ _. ap (λ y. is_pos y.ref) is ∙ held,
            )
        | inr e ↦ (x, sym (u.finds j ∙ rw e refl) ∙ f, refl, λ h. h)
      ]

  -- The last reference is gone, and the place is freed.
  pub Names-free :
      {m' : HandleMap} (id : HandleId) (slot : Slot)
      → find m id ≡ some slot
      → Updates m m' id none
      → Names Good m' (set memory (slot.ud - 1) none)
  Names-free {m'} id slot found u =
      let (_, _, old, at_old, _) = v.named id slot found in
      record {
        valid = u.valid;
        named = λ j x f.
            let (f', ne) = other j x f in
            let (held, non_null, a, at, good) = v.named j x f' in
            (
              held,
              non_null,
              a,
              deref-other memory slot.ud x.ud old none at_old
                    (λ e. ne (v.apart id j slot x found f' e))
                  ∙ at,
              good,
            );
        apart = λ j j' x x' f f' is. v.apart j j' x x' (other j x f).0 (other j' x' f').0 is;
      }
    where
      other : (j : HandleId) (x : Slot) → find m' j ≡ some x → (find m j ≡ some x) × (id ≢ j)
      other j x f = elim (Bool-cases (id == j)) [
        | inl e ↦ absurd (not_none (sym f ∙ u.finds j ∙ rw e refl))
        | inr e ↦ (sym (u.finds j ∙ rw e refl) ∙ f, ground arith)
      ]
        where
          not_none : {y : Slot} → Path (Option Slot) (some y) none → ⊥
          not_none e = ground arith
