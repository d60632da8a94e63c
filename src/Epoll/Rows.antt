-- ===== src/Epoll/Rows.antt =====
-- A round of lepoll_wait in src/async/epoll.c: one entry of the table that Lua passed.
use grt.Base.{
  ℕ, zero, suc, ◌≤◌, ◌<◌, ◌≡◌, refl, ◌≢◌, ◌⊎◌, inl, inr, some, List, [], ◌∷◌, ◌++◌, arith, length,
  length-append, get_elem?, set, length-set, get_elem?-set, ap, sym, ◌∙◌, ◌==◌, Bool-cases,
}
use grt.Base.Run.{ok, store, store-ok}
use grt.Epoll.{Event, Slot, nil, other, table, Row, Tables, row_of, put_entry, row_at}

-- No table stands in two entries, and every table has an address.
pub record Apart (t : Tables) : Type 0 where
  pub own : (i j a : ℕ) → t.entry i ≡ table a → t.entry j ≡ table a → i ≡ j
  pub there : (i a : ℕ) → t.entry i ≡ table a → a < length t.rows

-- Entry `i` is a table with the fields of an event.
abbrev pub Shows : Tables → ℕ → Event → Type 0
Shows t i e = (a : ℕ) × (t.entry i ≡ table a) × (get_elem? t.rows a ≡ some (row_of e))

get_elem?-append :
    (rows more : List Row) (j : ℕ) (r : Row)
    → get_elem? rows j ≡ some r
    → get_elem? (rows ++ more) j ≡ some r
get_elem?-append [] more j r h = absurd (ground arith)
get_elem?-append (x ∷ rows) more zero r h = h
get_elem?-append (x ∷ rows) more (suc j) r h = get_elem?-append rows more j r h

table-inj : (a b : ℕ) → table a ≡ table b → a ≡ b
table-inj a b h = ground arith

-- One round, at an entry `i` that gets the address `a`.
pub record Placed (t t' : Tables) (i : ℕ) (e : Event) : Type 0 where
  pub apart : Apart t'
  pub shown : Shows t' i e
  pub same : (j : ℕ) → i ≢ j → t'.entry j ≡ t.entry j
  pub kept : (j : ℕ) (x : Event) → i ≢ j → Shows t j x → Shows t' j x

put_same : (f : ℕ → Slot) (i : ℕ) (x : Slot) → put_entry f i x i ≡ x
put_same f i x = ground arith

put_other : (f : ℕ → Slot) (i j : ℕ) (x : Slot) → i ≢ j → put_entry f i x j ≡ f j
put_other f i j x ne = ground arith

put-cases :
    (f : ℕ → Slot) (i a j b : ℕ)
    → put_entry f i (table a) j ≡ table b
    → ((j ≡ i) × (a ≡ b)) ⊎ ((i ≢ j) × (f j ≡ table b))
put-cases f i a j b h = elim (Bool-cases (j == i)) [
  | inl e ↦ inl (ground arith, ground arith)
  | inr e ↦ inr (ground arith, ground arith)
]

put-Placed :
    (t : Tables) (i a : ℕ) (e : Event) (rows : List Row)
    → Apart t
    → a < length rows
    → length t.rows ≤ length rows
    → ((j : ℕ) → t.entry j ≡ table a → j ≡ i)
    → ((j : ℕ) (r : Row) → get_elem? t.rows j ≡ some r → get_elem? rows j ≡ some r)
    → Placed t (record { entry = put_entry t.entry i (table a); rows = set rows a (row_of e) }) i e
put-Placed t i a e rows p inside more only grows = record {
  apart = record { own = one_of; there = λ j b h. on_there b (put-cases t.entry i a j b h) };
  shown =
      (a, put_same t.entry i (table a), get_elem?-set rows a a (row_of e) inside ∙ ground arith);
  same = λ j ne. put_other t.entry i j (table a) ne;
  kept = λ j x ne (b, at, found).
      let apart : a ≢ b = λ ab. ne (sym (only j (at ∙ ap table (sym ab)))) in
      (
        b,
        put_other t.entry i j (table a) ne ∙ at,
        get_elem?-set rows a b (row_of e) inside ∙ ground (arith, apart, grows b (row_of x) found),
      );
}
  where
    long : length (set rows a (row_of e)) ≡ length rows
    long = length-set rows a (row_of e)

    on_there :
        {j : ℕ} (b : ℕ)
        → ((j ≡ i) × (a ≡ b)) ⊎ ((i ≢ j) × (t.entry j ≡ table b))
        → b < length (set rows a (row_of e))
    on_there b (inl (here, same)) = omega (arith, long, same)
    on_there {j = j} b (inr (ne, at)) = omega (arith, long, p.there j b at)

    one_of :
        (j l b : ℕ)
        → put_entry t.entry i (table a) j ≡ table b
        → put_entry t.entry i (table a) l ≡ table b
        → j ≡ l
    one_of j l b hj hl = elim (put-cases t.entry i a j b hj) [
      | inl (ji, ab) ↦ elim (put-cases t.entry i a l b hl) [
        | inl (li, same) ↦ ji ∙ sym li
        | inr (ne, at) ↦ ji ∙ sym (only l (at ∙ ap table (sym ab)))
      ]
      | inr (ne, at) ↦ elim (put-cases t.entry i a l b hl) [
        | inl (li, ab) ↦ only j (at ∙ ap table (sym ab)) ∙ sym li
        | inr (ne', at') ↦ p.own j l b at at'
      ]
    ]

-- The first part of a round of the loop: the table of an entry.
pub row_at-Placed :
    (t : Tables) (i : ℕ) (e : Event)
    → Apart t
    → (a : ℕ) × (rows : List Row) × (filled : List Row) × (row_at t (t.entry i) ≡ (a, rows))
      × (store rows a (row_of e) ≡ ok filled)
      × Placed t (record { entry = put_entry t.entry i (table a); rows = filled }) i e
row_at-Placed t i e p = on (t.entry i) refl
  where
    fresh :
        (x : Slot)
        → row_at t x ≡ (length t.rows, t.rows ++ record { fd = nil; mask = nil } ∷ [])
        → t.entry i ≡ x
        → (a : ℕ) × (rows : List Row) × (filled : List Row) × (row_at t (t.entry i) ≡ (a, rows))
          × (store rows a (row_of e) ≡ ok filled)
          × Placed t (record { entry = put_entry t.entry i (table a); rows = filled }) i e
    fresh x made at =
        let rows = t.rows ++ record { fd = nil; mask = nil } ∷ [] in
        let long = length-append t.rows (record { fd = nil; mask = nil } ∷ []) in
        (
          length t.rows,
          rows,
          set rows (length t.rows) (row_of e),
          ap (row_at t) at ∙ made,
          store-ok rows (length t.rows) (row_of e) (omega (arith, long)),
          put-Placed t i (length t.rows) e rows p (omega (arith, long)) (omega (arith, long))
              (λ j at'. absurd (omega (arith, p.there j (length t.rows) at')))
              (λ j r h. get_elem?-append t.rows _ j r h),
        )

    on :
        (x : Slot)
        → t.entry i ≡ x
        → (a : ℕ) × (rows : List Row) × (filled : List Row) × (row_at t (t.entry i) ≡ (a, rows))
          × (store rows a (row_of e) ≡ ok filled)
          × Placed t (record { entry = put_entry t.entry i (table a); rows = filled }) i e
    on nil at = fresh nil refl at
    on (other n) at = fresh (other n) refl at
    on (table a) at = (
      a,
      t.rows,
      set t.rows a (row_of e),
      ap (row_at t) at,
      store-ok t.rows a (row_of e) (p.there i a at),
      put-Placed t i a e t.rows p (p.there i a at) (omega arith) (λ j at'. p.own j i a at' at)
          (λ j r h. h),
    )
