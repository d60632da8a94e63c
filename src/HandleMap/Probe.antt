-- ===== src/HandleMap/Probe.antt =====
-- The loop of handlemap_new (src/ltask/handlemap.c) finds a free slot within two rounds.
use native.Mathlib.Nat.{mod-lt, mod-add-mod, add-mul-mod_self_left}
use grt.Base.{
  ℕ, zero, suc, ◌+◌, ◌-◌, ◌*◌, ◌%◌, ◌^◌, ◌<◌, ◌≤◌, ◌≡◌, ◌≢◌, inr, refl, sym, ap, ◌∙◌, none, some,
  arith, get_elem?, get_or, get_elem?-get_or, set, leb, ℕ_discrete, ◌==◌, if◌then◌else◌, mod_wrap,
}
use grt.Base.Run.{ok, load-ok, store-ok}
use grt.HandleMap.Count.{pos}
use grt.HandleMap.{HandleMap, HandleId, Pointer, Slot, blank, index, next_id, fresh_id, probe}
use grt.HandleMap.Shape.{IsMap, used-set, index_in, index_lem, mod_wrap_cap}
use grt.HandleMap.Find.{find, find-write, write-IsMap}

-- The slot that a new handle gets.
abbrev pub first_slot : HandleId → Pointer → Slot
first_slot id ud = record { id = id; ref = pos 1; ud = ud }

-- `id` was free in `m`, and `m'` has it beside all that `m` has.
pub record Added (m m' : HandleMap) (id : HandleId) (ud : Pointer) : Type 0 where
  pub valid : IsMap m'
  pub nonzero : id ≢ 0
  pub free : find m id ≡ none
  pub finds : (j : HandleId) → find m' j ≡ (if id == j then some (first_slot id ud) else find m j)
  pub counted : m'.n ≡ m.n + 1
  pub cap_kept : m'.cap ≡ m.cap

-- `d` ids after `last` comes one that is not 0 and whose slot is `r`.
pub record Ahead (cap last r d : ℕ) : Type 0 where
  pub some_way : 0 < d
  pub hits : (last + d) % cap ≡ r
  pub valid_id : (last + d) % 2 ^ 32 ≢ 0

fresh_id_valid : (last : HandleId) → (fresh_id last ≢ 0) × (fresh_id last < 2 ^ 32)
fresh_id_valid last = ground arith

-- After one id, the free slot is reached or still ahead.
abbrev less : ℕ → ℕ → ℕ
less last d = if next_id last == 0 then d - 2 else d - 1

module _ (cap spare last r d : ℕ) (fits : cap * 2 ^ spare ≡ 2 ^ 32) (a : Ahead cap last r d) where
  same_slot : last < 2 ^ 32 → (fresh_id last + less last d) % cap ≡ r
  same_slot lt =
      let x = fresh_id last + less last d in
      let shift : x % 2 ^ 32 ≡ (last + d) % 2 ^ 32 = ground arith in
      sym (mod_wrap_cap cap spare x fits)
      ∙ (ap (λ t. t % cap) shift ∙ (mod_wrap_cap cap spare (last + d) fits ∙ a.hits))

  step_Ahead : last < 2 ^ 32 → fresh_id last % cap ≢ r → Ahead cap (fresh_id last) r (less last d)
  step_Ahead lt ne =
      let at = same_slot lt in
      record {
        some_way = elim (ℕ_discrete (less last d) 0) [
          | yes e ↦ absurd (ne (ap (λ t. t % cap) (omega (arith, e)) ∙ at))
          | no p ↦ omega arith
        ];
        hits = at;
        valid_id = ground arith;
      }

add_self_mod : (x y : ℕ) → (x + y) % y ≡ x % y
add_self_mod x y =
    ap (λ t. (x + t) % y) {x = y} {y = y * 1} (omega arith) ∙ add-mul-mod_self_left x y 1

-- Some id within two rounds is not 0 and has the slot `r`.
pub ahead :
    (cap last r : ℕ)
    → 0 < cap
    → cap ≤ 2 ^ 30
    → last < 2 ^ 32
    → r < cap
    → (d : ℕ) × Ahead cap last r d × (d ≤ cap * 2)
ahead cap last r some_cap small lt hr =
    let gap : ℕ = if leb r (last % cap) then r + cap - last % cap else r - last % cap in
    let here = mod-lt last {m = cap} some_cap in
    let hits : (last + gap) % cap ≡ r =
      sym (mod-add-mod last cap gap)
      ∙ ground (arith, mod_wrap (last % cap + gap) cap (ground arith)) in
    elim (ℕ_discrete ((last + gap) % 2 ^ 32) 0) [
      | no ne ↦ (gap, record { some_way = ground arith; hits = hits; valid_id = ne }, ground arith)
      | yes e ↦ (
        gap + cap,
        record {
          some_way = omega arith;
          hits = ap (λ t. t % cap) (omega arith) ∙ (add_self_mod (last + gap) cap ∙ hits);
          valid_id = omega arith;
        },
        ground arith,
      )
    ]

-- One round of the loop at a free slot.
module _ {m : HandleMap} (ud : Pointer) (v : IsMap m) (room : m.n < m.cap) where
  abbrev here : HandleId
  here = fresh_id m.lastid

  abbrev looked : Slot
  looked = get_or m.slots (index here m.cap) blank

  looked_at : get_elem? m.slots (index here m.cap) ≡ some looked
  looked_at = get_elem?-get_or m.slots (index here m.cap) blank (index_in here v)

  abbrev taken : HandleMap
  taken = record {
    lastid = here;
    cap = m.cap;
    n = m.n + 1;
    slots = set m.slots (index here m.cap) (first_slot here ud);
  }

  taken-Added : looked.id ≡ 0 → Added m taken here ud
  unfolding find
  taken-Added e =
      let (nz, lt) = fresh_id_valid m.lastid in
      record {
        valid =
            write-IsMap (index here m.cap) looked (first_slot here ud) v looked_at
              (λ ne. (refl, lt)) here (m.n + 1) lt
              (ground (
                arith,
                used-set m.slots (index here m.cap) looked (first_slot here ud) looked_at,
                v.counted,
              ))
              (omega arith);
        nonzero = nz;
        free = ground (arith, looked_at);
        finds =
            find-write here looked (first_slot here ud) v nz looked_at (inr e) refl here (m.n + 1);
        counted = refl;
        cap_kept = refl;
      }

  probe-free : (fuel : ℕ) → looked.id ≡ 0 → probe (suc fuel) m ud ≡ ok (taken, here)
  unfolding probe
  probe-free fuel e = ground (
    arith,
    load-ok m.slots (index here m.cap) looked_at,
    store-ok m.slots (index here m.cap) (first_slot here ud) (index_in here v),
  )

  probe-used :
      (fuel : ℕ)
      → looked.id ≢ 0
      → probe (suc fuel) m ud ≡ probe fuel (record m { lastid = here }) ud
  unfolding probe
  probe-used fuel ne = ground (arith, load-ok m.slots (index here m.cap) looked_at)

  moved-IsMap : IsMap (record m { lastid = here })
  moved-IsMap = record {
    width = v.width;
    spare = v.spare;
    cap_pow = v.cap_pow;
    cap_fits = v.cap_fits;
    small = v.small;
    sized = v.sized;
    last_in = (fresh_id_valid m.lastid).1;
    placed = v.placed;
    counted = v.counted;
    bounded = v.bounded;
  }

-- The counter alone does not change what is found.
Added-moved :
    {m m' : HandleMap} {id : HandleId} {ud : Pointer} (last : HandleId)
    → Added (record m { lastid = last }) m' id ud
    → Added m m' id ud
unfolding find
Added-moved last a = record {
  valid = a.valid;
  nonzero = a.nonzero;
  free = a.free;
  finds = a.finds;
  counted = a.counted;
  cap_kept = a.cap_kept;
}

-- With a free slot ahead the loop ends, within as many rounds as there are ids up to it.
pub probe-Added :
    (fuel r d : ℕ) (m : HandleMap) (ud : Pointer) {s : Slot}
    → IsMap m
    → m.n < m.cap
    → get_elem? m.slots r ≡ some s
    → s.id ≡ 0
    → Ahead m.cap m.lastid r d
    → d ≤ fuel
    → (m' : HandleMap) × (id : HandleId) × (probe fuel m ud ≡ ok (m', id)) × Added m m' id ud
probe-Added zero r d m ud v room at free a h = absurd (omega (arith, a.some_way))
probe-Added (suc fuel) r d m ud v room at free a h = elim (ℕ_discrete (looked ud v room).id 0) [
  | yes e ↦ (taken ud v room, here ud v room, probe-free ud v room fuel e, taken-Added ud v room e)
  | no ne ↦
      let last = here ud v room in
      let next =
        step_Ahead m.cap v.spare m.lastid r d v.cap_fits a v.last_in
          (λ e. ne (ground (arith, free, at, looked_at ud v room, sym (index_lem last v), e))) in
      let (m', id, run, added) =
        probe-Added fuel r (less m.lastid d) (record m { lastid = last }) ud (moved-IsMap ud v room)
          room at free next (ground arith) in
      (m', id, probe-used ud v room fuel ne ∙ run, Added-moved last added)
]
