-- ===== src/Epoll/Fill.antt =====
-- The table that lepoll_wait of src/async/epoll.c fills.
use grt.Base.{
  ℕ, zero, suc, ◌+◌, ◌≤◌, ◌<◌, ◌≡◌, refl, Option, some, List, [], ◌∷◌, arith, length, bit_and, not,
  get_elem?, ap, ◌∙◌, ◌==◌, if◌then◌else◌, Bool, true, false, subst,
}
use grt.Base.Run.{ok}
use grt.Epoll.{
  Event, other, table, Row, Tables, put_entry, fill_loop, Kernel, EpollEvent, copy_events, event_of,
  mask_of, lepoll_wait,
}
use grt.Socket.{Fd, done}
use grt.Epoll.Rows.{Apart, Shows, Placed, row_at-Placed}

-- From entry `i + 1` on the table shows the events, and the rest of it is as it was.
pub record Filled (t t' : Tables) (i : ℕ) (es : List Event) : Type 0 where
  pub apart : Apart t'
  pub shown : (j : ℕ) (e : Event) → get_elem? es j ≡ some e → Shows t' (suc (i + j)) e
  pub before : (j : ℕ) → j ≤ i → t'.entry j ≡ t.entry j
  pub behind : (j : ℕ) → i + length es < j → t'.entry j ≡ t.entry j
  pub kept : (j : ℕ) (e : Event) → j ≤ i → Shows t j e → Shows t' j e

fill_loop-Filled :
    (es : List Event) (i : ℕ) (t : Tables)
    → Apart t
    → (t' : Tables) × (fill_loop es i t ≡ ok t') × Filled t t' i es
unfolding fill_loop
fill_loop-Filled [] i t p = (
  t,
  refl,
  record {
    apart = p;
    shown = λ j e h. absurd (ground arith);
    before = λ j le. refl;
    behind = λ j lt. refl;
    kept = λ j e le s. s;
  },
)
fill_loop-Filled (e ∷ es) i t p =
    let (a, rows, filled, made, stored, one) = row_at-Placed t (i + 1) e p in
    let u : Tables = record { entry = put_entry t.entry (i + 1) (table a); rows = filled } in
    let (t', run, rest) = fill_loop-Filled es (i + 1) u one.apart in
    (
      t',
      rw (made, stored) run,
      record {
        apart = rest.apart;
        shown = λ j x h. at j x h one rest;
        before = λ j le. rest.before j (omega arith) ∙ one.same j (ground arith);
        behind = λ j lt. rest.behind j (omega arith) ∙ one.same j (ground arith);
        kept = λ j x le s. rest.kept j x (omega arith) (one.kept j x (ground arith) s);
      },
    )
  where
    at :
        (j : ℕ) (x : Event) {u t' : Tables}
        → get_elem? (e ∷ es) j ≡ some x
        → Placed t u (i + 1) e
        → Filled u t' (i + 1) es
        → Shows t' (suc (i + j)) x
    at zero x {u = u} {t' = t'} h one rest =
        let here : i + 1 ≡ suc (i + 0) = omega arith in
        let same : e ≡ x = ground arith in
        subst (λ k. Shows t' k x) here
          (subst (λ y. Shows t' (i + 1) y) same (rest.kept (i + 1) e (omega arith) one.shown))
    at (suc j) x {t' = t'} h one rest =
        let here : suc (i + 1 + j) ≡ suc (i + suc j) = omega arith in
        subst (λ k. Shows t' k x) here (rest.shown j x h)

length-copy_events :
    {W : Type 0} (k : Kernel W) (evs : List EpollEvent) → length (copy_events k evs) ≡ length evs
unfolding copy_events
length-copy_events k [] = refl
length-copy_events k (ev ∷ evs) = ap suc (length-copy_events k evs)

get_elem?-copy_events :
    {W : Type 0} (k : Kernel W) (evs : List EpollEvent) (j : ℕ) (ev : EpollEvent)
    → get_elem? evs j ≡ some ev
    → get_elem? (copy_events k evs) j ≡ some (event_of k ev)
unfolding copy_events
get_elem?-copy_events k [] j ev h = absurd (ground arith)
get_elem?-copy_events k (x ∷ evs) zero ev h =
    let same : x ≡ ev = ground arith in ap (λ y. some (event_of k y)) same
get_elem?-copy_events k (x ∷ evs) (suc j) ev h = get_elem?-copy_events k evs j ev h

-- a flag of an event of the kernel
abbrev pub flag : EpollEvent → ℕ → Bool
flag ev bits = not (bit_and ev.events bits == 0)

-- Entry `i` is a table with the descriptor of an event and the sum of its masks.
abbrev pub Reports : {W : Type 0} → Kernel W → Tables → ℕ → EpollEvent → Type 0
Reports k t i ev =
    (a : ℕ) × (t.entry i ≡ table a)
    × (get_elem? t.rows a
        ≡ some (record {
          fd = other ev.data_ptr;
          mask =
              other ((if flag ev k.epollin then 4 else 0) + (if flag ev k.epollout then 8 else 0));
        }))

Shows-Reports :
    {W : Type 0} (k : Kernel W) (t : Tables) (i : ℕ) (ev : EpollEvent)
    → Shows t i (event_of k ev)
    → Reports k t i ev
Shows-Reports k t i ev (a, at, found) =
    (a, at, found ∙ both (flag ev k.epollin) (flag ev k.epollout))
  where
    both :
        (r o : Bool)
        → Path
            (Option Row)
            (some (record {
              fd = other ev.data_ptr;
              mask = other (mask_of (record { s = ev.data_ptr; read = r; write = o }));
            }))
            (some (record {
              fd = other ev.data_ptr;
              mask = other ((if r then 4 else 0) + (if o then 8 else 0));
            }))
    both true true = refl
    both true false = refl
    both false true = refl
    both false false = refl

-- When the kernel reports some events and no table stands in two entries of the table that Lua
-- passed, lepoll_wait ends well with their number; entry j of the table is then a table with the
-- descriptor of event j and the sum of its masks, 4 for EPOLLIN and 8 for EPOLLOUT, the entries
-- behind are as they were, and no table stands in two entries.
pub lepoll_wait-Reports :
    {W : Type 0} (k : Kernel W) (w u : W) (efd : Fd) (t : Tables) (evs : List EpollEvent)
    → Apart t
    → k.epoll_wait w efd 64 200 ≡ (done evs, u)
    → (t' : Tables) × (lepoll_wait k w efd t ≡ ok (some (length evs), t', u))
      × Apart t'
      × ((j : ℕ) (ev : EpollEvent) → get_elem? evs j ≡ some ev → Reports k t' (suc j) ev)
      × ((j : ℕ) → length evs < j → t'.entry j ≡ t.entry j)
unfolding lepoll_wait
lepoll_wait-Reports k w u efd t evs p waited =
    let (t', run, all) = fill_loop-Filled (copy_events k evs) 0 t p in
    let long = length-copy_events k evs in
    (
      t',
      rw (waited, waited, run, long) refl,
      all.apart,
      λ j ev h.
          let here : 0 + j ≡ j = omega arith in
          Shows-Reports k t' (suc j) ev (
            subst (λ l. Shows t' (suc l) (event_of k ev)) here
              (all.shown j (event_of k ev) (get_elem?-copy_events k evs j ev h))),
      λ j lt. all.behind j (omega arith),
    )
