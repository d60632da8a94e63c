-- ===== src/HandleMap/Refs.antt =====
-- handlemap_grab and handlemap_release of src/ltask/handlemap.c against the view of HandleMap/Find.
use grt.Base.{
  ℕ, ◌-◌, ◌<◌, ◌≡◌, ◌≢◌, ◌⊎◌, inl, inr, refl, List, Option, none, some, true, arith, length,
  get_elem?, set, get_elem?-get_or, get_elem?-set, length-set, get_or, zero, suc, ap, [], ◌∷◌, ◌∙◌,
  Bool-cases, ℕ_discrete, ◌==◌, if◌then◌else◌,
}
use grt.Base.Run.{ok, load, store, load-ok, store-ok}
use grt.HandleMap.Count.{incr, decr, is_pos, decr-incr}
use grt.HandleMap.{
  HandleMap, HandleId, Slot, blank, index, release_ref, try_delete, handlemap_grab,
  handlemap_release,
}
use grt.HandleMap.Shape.{IsMap, used-set, index_in}
use grt.HandleMap.Find.{find, find-slot, find-write, find-free, write-IsMap}

-- `m'` is a well-formed map that finds `o` at `id`, and elsewhere what `m` finds.
pub record Updates (m m' : HandleMap) (id : HandleId) (o : Option Slot) : Type 0 where
  pub valid : IsMap m'
  pub finds : (j : HandleId) → find m' j ≡ (if id == j then o else find m j)
  pub last_kept : m'.lastid ≡ m.lastid
  pub cap_kept : m'.cap ≡ m.cap

-- A write that keeps the slot's id.
rewrite_slot :
    {m : HandleMap} (id : HandleId) (s new : Slot)
    → IsMap m
    → find m id ≡ some s
    → new.id ≡ s.id
    → Updates m (record m { slots = set m.slots (index id m.cap) new }) id (some new)
rewrite_slot {m} id s new v h same =
    let (nz, at, is) = find-slot m id h in
    record {
      valid =
          write-IsMap (index id m.cap) s new v at
            (λ ne. ground (arith, v.placed (index id m.cap) s)) m.lastid m.n v.last_in
            (ground (arith, used-set m.slots (index id m.cap) s new, v.counted)) v.bounded;
      finds = find-write id s new v nz at (inl is) (ground arith) m.lastid m.n;
      last_kept = refl;
      cap_kept = refl;
    }

-- A free of the slot of a live handle.
free_slot_of :
    {m : HandleMap} (id : HandleId) (s : Slot)
    → IsMap m
    → find m id ≡ some s
    → Updates m
        (record m { n = m.n - 1; slots = set m.slots (index id m.cap) (record s { id = 0 }) })
        id
        none
free_slot_of {m} id s v h =
    let (nz, at, is) = find-slot m id h in
    record {
      valid =
          write-IsMap (index id m.cap) s (record s { id = 0 }) v at (λ ne. absurd (ne refl))
            m.lastid (m.n - 1) v.last_in
            (ground (arith, used-set m.slots (index id m.cap) s (record s { id = 0 }), v.counted))
            (omega (arith, v.bounded));
      finds = find-free id s (record s { id = 0 }) v h refl (m.n - 1);
      last_kept = refl;
      cap_kept = refl;
    }

-- What the three operations do at a live handle, as runs.
module _ {m : HandleMap} (id : HandleId) (s : Slot) (v : IsMap m) (h : find m id ≡ some s) where
  loaded : load m.slots (index id m.cap) ≡ ok s
  loaded = load-ok m.slots (index id m.cap) (find-slot m id h).1

  stored : (new : Slot) → store m.slots (index id m.cap) new ≡ ok (set m.slots (index id m.cap) new)
  stored new = store-ok m.slots (index id m.cap) new (index_in id v)

  -- On a well-formed map, handlemap_grab of a live handle gives its pointer and leaves a well-
  -- formed map in which this handle has one reference more and every other handle finds what it
  -- found.
  pub handlemap_grab-some :
      (m' : HandleMap) × (handlemap_grab m id ≡ ok (m', s.ud))
      × Updates m m' id (some (record s { ref = incr s.ref }))
  unfolding handlemap_grab
  handlemap_grab-some =
      let new : Slot = record s { ref = incr s.ref } in
      (
        record m { slots = set m.slots (index id m.cap) new },
        ground (arith, loaded, stored new, find-slot m id h),
        rewrite_slot id s new v h refl,
      )

  -- what the first half of a release leaves
  abbrev released : HandleMap
  released = record m { slots = set m.slots (index id m.cap) (record s { ref = decr s.ref }) }

  pub release_ref-some :
      (release_ref m id ≡ ok (released, if is_pos (decr s.ref) then 0 else s.ud))
      × Updates m released id (some (record s { ref = decr s.ref }))
  unfolding release_ref
  release_ref-some = (
    ground (arith, loaded, stored (record s { ref = decr s.ref }), find-slot m id h),
    rewrite_slot id s (record s { ref = decr s.ref }) v h refl,
  )

  -- A handle with no reference left is deleted; one that was grabbed again is not.
  pub try_delete-some :
      (m' : HandleMap) × (try_delete m id ≡ ok (m', if is_pos s.ref then 0 else s.ud))
      × Updates m m' id (if is_pos s.ref then some s else none)
  unfolding try_delete
  try_delete-some = elim (Bool-cases (is_pos s.ref)) [
    | inl held ↦ rw held (
      m,
      ground (arith, loaded, find-slot m id h, held),
      record {
        valid = v;
        finds = λ j. elim (ℕ_discrete id j) [ yes e ↦ ground arith | no ne ↦ ground arith ];
        last_kept = refl;
        cap_kept = refl;
      },
    )
    | inr gone ↦ rw gone (
      record m { n = m.n - 1; slots = set m.slots (index id m.cap) (record s { id = 0 }) },
      ground (arith, loaded, stored (record s { id = 0 }), find-slot m id h, gone),
      free_slot_of id s v h,
    )
  ]

-- An unknown handle is refused with NULL, and nothing changes.
module _ {m : HandleMap} (id : HandleId) (v : IsMap m) (h : find m id ≡ none) where
  unknown_load : (id ≡ 0) ⊎ ((s : Slot) × (load m.slots (index id m.cap) ≡ ok s) × (s.id ≢ id))
  unfolding find
  unknown_load =
      let i = index id m.cap in
      let s = get_or m.slots i blank in
      let at : get_elem? m.slots i ≡ some s = get_elem?-get_or m.slots i blank (index_in id v) in
      elim (ℕ_discrete id 0) [
        | yes e ↦ inl e
        | no ne ↦ inr (s, load-ok m.slots i at, ground (arith, at))
      ]

  pub handlemap_grab-none : handlemap_grab m id ≡ ok (m, 0)
  unfolding handlemap_grab
  handlemap_grab-none = elim unknown_load [ inl e ↦ ground arith | inr (s, at, ne) ↦ ground arith ]

  pub try_delete-none : try_delete m id ≡ ok (m, 0)
  unfolding try_delete
  try_delete-none = elim unknown_load [ inl e ↦ ground arith | inr (s, at, ne) ↦ ground arith ]

  pub handlemap_release-none : handlemap_release m id ≡ ok (m, 0)
  unfolding handlemap_release
  handlemap_release-none = elim unknown_load [
    | inl e ↦ ground arith
    | inr (s, at, ne) ↦ ground arith
  ]

-- Updates of one handle compose.
pub Updates-trans :
    {m m' m'' : HandleMap} {id : HandleId} {o o' : Option Slot}
    → Updates m m' id o
    → Updates m' m'' id o'
    → Updates m m'' id o'
Updates-trans {m} {m'} {m''} {id} {o} {o'} a b = record {
  valid = b.valid;
  finds = λ j. ground (arith, a.finds j, b.finds j);
  last_kept = b.last_kept ∙ a.last_kept;
  cap_kept = b.cap_kept ∙ a.cap_kept;
}

pub found_self :
    {m m' : HandleMap} {id : HandleId} {o : Option Slot} → Updates m m' id o → find m' id ≡ o
found_self {m} {m'} {id} u = ground (arith, u.finds id)

-- On a well-formed map, handlemap_release of a live handle whose pointer is not NULL gives NULL
-- and one reference less while references are left; at the last one it gives the pointer and the
-- handle is not found any more. The map stays well formed and every other handle finds what it
-- found.
pub handlemap_release-some :
    {m : HandleMap} (id : HandleId) (s : Slot)
    → IsMap m
    → find m id ≡ some s
    → s.ud ≢ 0
    → (m' : HandleMap) × (handlemap_release m id ≡ ok (m', if is_pos (decr s.ref) then 0 else s.ud))
      × Updates m m' id (if is_pos (decr s.ref) then some (record s { ref = decr s.ref }) else none)
unfolding handlemap_release
handlemap_release-some {m} id s v h nz =
    let (run, step) = release_ref-some id s v h in
    let less : Slot = record s { ref = decr s.ref } in
    let (m', run', step') = try_delete-some id less step.valid (found_self step) in
    elim (Bool-cases (is_pos (decr s.ref))) [
      | inl more ↦ rw more (released id s v h, ground (arith, run, more), step)
      | inr last ↦
          rw last (m', ground (arith, run, last, run'), Updates-trans step (rw last at step'))
    ]

-- On a well-formed map, grabbing a live handle that has a reference and a pointer other than NULL
-- and releasing it again gives the pointer, then NULL, and leaves a well-formed map in which every
-- handle finds what it found.
pub release-grab :
    {m : HandleMap} (id : HandleId) (s : Slot)
    → IsMap m
    → find m id ≡ some s
    → is_pos s.ref ≡ true
    → s.ud ≢ 0
    → (m' m'' : HandleMap) × (handlemap_grab m id ≡ ok (m', s.ud))
      × (handlemap_release m' id ≡ ok (m'', 0))
      × Updates m m'' id (some s)
release-grab {m} id s v h held nz =
    let (m', run, step) = handlemap_grab-some id s v h in
    let more : Slot = record s { ref = incr s.ref } in
    let (m'', run', step') = handlemap_release-some id more step.valid (found_self step) nz in
    let back : decr (incr s.ref) ≡ s.ref = decr-incr s.ref in
    (m', m'', run, rw (back, held) at run', Updates-trans step (rw (back, held) at step'))

set-set : (xs : List Slot) (i : ℕ) (a b : Slot) → set (set xs i a) i b ≡ set xs i b
set-set [] i a b = refl
set-set (x ∷ xs) zero a b = refl
set-set (x ∷ xs) (suc i) a b = ap (◌∷◌ x) (set-set xs i a b)

set_same : (xs : List Slot) (i : ℕ) (a : Slot) → get_elem? xs i ≡ some a → set xs i a ≡ xs
set_same [] i a e = refl
set_same (x ∷ xs) zero a e = ap (λ t. t ∷ xs) (ground arith)
set_same (x ∷ xs) (suc i) a e = ap (◌∷◌ x) (set_same xs i a e)

-- The map between a grab and its release.
pub grabbed : HandleMap → HandleId → Slot → HandleMap
grabbed m id s = record m { slots = set m.slots (index id m.cap) (record s { ref = incr s.ref }) }

-- A grab of a handle with a reference, and the release after it, as runs: the release restores the
-- map itself.
pub grab_release :
    {m : HandleMap} (id : HandleId) (s : Slot)
    → IsMap m
    → find m id ≡ some s
    → is_pos s.ref ≡ true
    → (handlemap_grab m id ≡ ok (grabbed m id s, s.ud))
      × (handlemap_release (grabbed m id s) id ≡ ok (m, 0))
unfolding handlemap_grab handlemap_release grabbed
grab_release {m} id s v h held =
    let i = index id m.cap in
    let more : Slot = record s { ref = incr s.ref } in
    let (nz, at, is) = find-slot m id h in
    let lt : i < length m.slots = index_in id v in
    let again : load (set m.slots i more) i ≡ ok more =
      load-ok (set m.slots i more) i (ground (arith, get_elem?-set m.slots i i more lt)) in
    let back : store (set m.slots i more) i s ≡ ok m.slots =
      store-ok (set m.slots i more) i s (rw length-set lt)
      ∙ ap ok (set-set m.slots i more s ∙ set_same m.slots i s at) in
    (
      ground (arith, loaded id s v h, stored id s v h more, nz, is),
      ground (arith, again, back, nz, is, held, decr-incr s.ref),
    )
