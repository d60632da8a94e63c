-- ===== src/HandleMap/Once.antt =====
-- A handle of src/ltask/handlemap.c that threads share is deleted once, when no reference is left.
use grt.Base.{
  ℕ, zero, suc, ◌+◌, ◌<◌, ◌≡◌, ◌≢◌, ◌⊎◌, inl, inr, refl, [], ◌∷◌, none, some, arith, get_elem?, set,
  replicate, ◌==◌, false, ap, sym, ◌∙◌, subst,
}
use grt.Base.Run.{ok}
use grt.Lock.Tally.{tally, tally-set, tally-get_elem?, tally-replicate}
use grt.HandleMap.{HandleMap, HandleId, Slot}
use grt.HandleMap.Count.{pos}
use grt.HandleMap.Shape.{IsMap}
use grt.HandleMap.Find.{find}
use grt.HandleMap.Refs.{
  found_self, handlemap_grab-some, handlemap_grab-none, release_ref-some, try_delete-some,
  try_delete-none,
}
use grt.HandleMap.Sharing.{
  Phase, idle, holds, deletes, Sharing, goes, turn, Reaches, start, step, meanwhile,
}

abbrev pub holders : Phase → ℕ
holders holds = 1
holders p = 0

abbrev pub deleters : Phase → ℕ
deleters deletes = 1
deleters p = 0

-- The slot `o` with so many references.
abbrev pub counting : Slot → ℕ → Slot
counting o k = record o { ref = pos k }

-- Live, with a reference for each holder, and somebody left to delete it.
pub record Live (o : Slot) (id : HandleId) (s : Sharing) : Type 0 where
  pub found : find s.map id ≡ some (counting o (tally holders s.phases))
  pub nothing_given : s.given ≡ []
  pub kept : 0 < tally holders s.phases + tally deleters s.phases

-- Deleted: its pointer was given once, and nobody has a reference.
pub record Gone (o : Slot) (id : HandleId) (s : Sharing) : Type 0 where
  pub unknown : find s.map id ≡ none
  pub given_once : s.given ≡ o.ud ∷ []
  pub unheld : tally holders s.phases ≡ 0

module _ (o : Slot) (id : HandleId) (nz : o.ud ≢ 0) where
  abbrev Steps : Sharing → ℕ → Phase → Type 0
  Steps s i p =
      (s' : Sharing) × (turn s id i p ≡ ok s') × IsMap s'.map × (Live o id s' ⊎ Gone o id s')

  not_null : (o.ud == 0) ≡ false
  not_null = ground arith

  module _ (s : Sharing) (i : ℕ) (v : IsMap s.map) where
    from_idle : get_elem? s.phases i ≡ some idle → Live o id s → Steps s i idle
    unfolding turn
    from_idle at l =
        let k = tally holders s.phases in
        let (m, run, u) = handlemap_grab-some id (counting o k) v l.found in
        let more = tally-set holders s.phases i idle holds at in
        let one_more : suc k ≡ tally holders (set s.phases i holds) = omega (arith, more) in
        (
          goes s i m holds,
          rw (run, not_null) refl,
          u.valid,
          inl (record {
            found = found_self u ∙ ap (λ j. some (counting o j)) one_more;
            nothing_given = l.nothing_given;
            kept = omega (arith, one_more);
          }),
        )

    from_holds :
        (k : ℕ)
        → tally holders s.phases ≡ k
        → get_elem? s.phases i ≡ some holds
        → Live o id s
        → Steps s i holds
    unfolding turn
    from_holds zero e at l = absurd (omega (arith, e, tally-get_elem? holders s.phases i at))
    from_holds (suc zero) e at l =
        let live : find s.map id ≡ some (counting o 1) =
          l.found ∙ ap (λ j. some (counting o j)) e in
        let (run, u) = release_ref-some id (counting o 1) v live in
        let none_left : 0 ≡ tally holders (set s.phases i deletes) =
          omega (arith, e, tally-set holders s.phases i holds deletes at) in
        (
          goes s i _ deletes,
          rw (run, not_null) refl,
          u.valid,
          inl (record {
            found = found_self u ∙ ap (λ j. some (counting o j)) none_left;
            nothing_given = l.nothing_given;
            kept = omega (arith, tally-set deleters s.phases i holds deletes at);
          }),
        )
    from_holds (suc (suc k)) e at l =
        let live : find s.map id ≡ some (counting o (suc (suc k))) =
          l.found ∙ ap (λ j. some (counting o j)) e in
        let (run, u) = release_ref-some id (counting o (suc (suc k))) v live in
        let some_left : suc k ≡ tally holders (set s.phases i idle) =
          omega (arith, e, tally-set holders s.phases i holds idle at) in
        (
          goes s i _ idle,
          rw run refl,
          u.valid,
          inl (record {
            found = found_self u ∙ ap (λ j. some (counting o j)) some_left;
            nothing_given = l.nothing_given;
            kept = omega (arith, some_left);
          }),
        )

    from_deletes :
        (k : ℕ)
        → tally holders s.phases ≡ k
        → get_elem? s.phases i ≡ some deletes
        → Live o id s
        → Steps s i deletes
    unfolding turn
    from_deletes zero e at l =
        let live : find s.map id ≡ some (counting o 0) =
          l.found ∙ ap (λ j. some (counting o j)) e in
        let (m, run, u) = try_delete-some id (counting o 0) v live in
        (
          record (goes s i m idle) { given = o.ud ∷ s.given },
          rw (run, not_null) refl,
          u.valid,
          inr (record {
            unknown = found_self u;
            given_once = ap (◌∷◌ o.ud) l.nothing_given;
            unheld = omega (arith, e, tally-set holders s.phases i deletes idle at);
          }),
        )
    from_deletes (suc k) e at l =
        let live : find s.map id ≡ some (counting o (suc k)) =
          l.found ∙ ap (λ j. some (counting o j)) e in
        let (m, run, u) = try_delete-some id (counting o (suc k)) v live in
        let same : suc k ≡ tally holders (set s.phases i idle) =
          omega (arith, e, tally-set holders s.phases i deletes idle at) in
        (
          goes s i m idle,
          rw run refl,
          u.valid,
          inl (record {
            found = found_self u ∙ ap (λ j. some (counting o j)) same;
            nothing_given = l.nothing_given;
            kept = omega (arith, same);
          }),
        )

    gone : (p : Phase) → get_elem? s.phases i ≡ some p → Gone o id s → Steps s i p
    unfolding turn
    gone idle at g = (
      goes s i s.map idle,
      rw (handlemap_grab-none id v g.unknown) refl,
      v,
      inr (record {
        unknown = g.unknown;
        given_once = g.given_once;
        unheld = omega (arith, g.unheld, tally-set holders s.phases i idle idle at);
      }),
    )
    gone holds at g = absurd (omega (arith, g.unheld, tally-get_elem? holders s.phases i at))
    gone deletes at g = (
      goes s i s.map idle,
      rw (try_delete-none id v g.unknown) refl,
      v,
      inr (record {
        unknown = g.unknown;
        given_once = g.given_once;
        unheld = omega (arith, g.unheld, tally-set holders s.phases i deletes idle at);
      }),
    )

    turn-Steps :
        (p : Phase) → get_elem? s.phases i ≡ some p → Live o id s ⊎ Gone o id s → Steps s i p
    turn-Steps p at (inr g) = gone p at g
    turn-Steps idle at (inl l) = from_idle at l
    turn-Steps holds at (inl l) = from_holds _ refl at l
    turn-Steps deletes at (inl l) = from_deletes _ refl at l

ok_inj : {s t : Sharing} → ok s ≡ ok t → s ≡ t
ok_inj {s} {t} e = ground arith

module _ {m : HandleMap} {id : HandleId} (o : Slot) (n : ℕ) (valid : IsMap m)
    (live : find m id ≡ some (counting o 1)) (nz : o.ud ≢ 0) where
  Reaches-Shared : {s : Sharing} → Reaches m id n s → IsMap s.map × (Live o id s ⊎ Gone o id s)
  Reaches-Shared start =
      let one : 1 ≡ tally holders (holds ∷ replicate n idle) =
        omega (arith, tally-replicate holders n idle refl) in
      (
        valid,
        inl (record {
          found = live ∙ ap (λ j. some (counting o j)) one;
          nothing_given = refl;
          kept = omega (arith, one);
        }),
      )
  Reaches-Shared (step {s} s' i p r at run) =
      let (v, c) = Reaches-Shared r in
      let (t, run', v', c') = turn-Steps o id nz s i v p at c in
      subst (λ x. IsMap x.map × (Live o id x ⊎ Gone o id x)) (ok_inj (sym run' ∙ run)) (v', c')
  Reaches-Shared (meanwhile {s} m' r v same) = (v, other (Reaches-Shared r).1)
    where
      other :
          Live o id s ⊎ Gone o id s
          → Live o id (record s { map = m' }) ⊎ Gone o id (record s { map = m' })
      other (inl l) =
          inl (record { found = same ∙ l.found; nothing_given = l.nothing_given; kept = l.kept })
      other (inr g) =
          inr (record { unknown = same ∙ g.unknown; given_once = g.given_once; unheld = g.unheld })

  -- When a live handle of a well-formed map has one reference and a pointer other than NULL, and
  -- any number of threads grab it and release it, the first of them having that reference, in any
  -- order of their steps, also between the two steps of a release, and while other handles change:
  -- each next step of a thread ends well. Either the handle is still found, with as many
  -- references as threads have, nothing has been given back, and a thread has a reference or is
  -- about to delete the handle; or it is not found, its pointer has been given back exactly once,
  -- and no thread has a reference.
  pub handle-freed_once :
      {s : Sharing}
      → Reaches m id n s
      → ((i : ℕ) (p : Phase)
          → get_elem? s.phases i ≡ some p
          → (s' : Sharing) × (turn s id i p ≡ ok s'))
        × (Live o id s ⊎ Gone o id s)
  handle-freed_once {s} r =
      let (v, c) = Reaches-Shared r in
      (λ i p at. let (s', run, valid', c') = turn-Steps o id nz s i v p at c in (s', run), c)
