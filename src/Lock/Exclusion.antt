-- ===== src/Lock/Exclusion.antt =====
-- The read-write lock of src/ltask/simplelock.h keeps writers apart from readers and other writers.
use grt.Base.{
  ℕ, ◌+◌, ◌-◌, ◌≤◌, ◌≡◌, refl, ◌⊎◌, inl, inr, Bool, true, false, some, arith, get_elem?, set, ap,
  sym, ◌∙◌, ◌==◌, if◌then◌else◌, Bool-cases,
}
use grt.Lock.{
  RwLock, Place, outside, testing, entering, counted, leaving, reading, claiming, draining, writing,
  Threads, Reaches, start, step, advance, after,
}
use grt.Lock.Tally.{tally, tally-set, tally-le, tally-get_elem?, tally-two, tally-replicate}

-- Threads between their `atom_inc` and `atom_dec`.
abbrev pub counts : Place → ℕ
counts counted = 1
counts leaving = 1
counts reading = 1
counts p = 0

-- Threads that have set `write`.
abbrev pub claims : Place → ℕ
claims draining = 1
claims writing = 1
claims p = 0

-- Threads that hold the lock to read.
abbrev pub reads : Place → ℕ
reads reading = 1
reads p = 0

-- Threads that hold the lock to write.
abbrev pub writes : Place → ℕ
writes writing = 1
writes p = 0

pub record Consistent (s : Threads) : Type 0 where
  pub readers : s.lock.read ≡ tally counts s.places
  pub writers : s.lock.write ≡ tally claims s.places
  pub one_writer : s.lock.write ≤ 1
  pub apart : (tally writes s.places ≡ 0) ⊎ (tally reads s.places ≡ 0)

reads-le-counts : (p : Place) → reads p ≤ counts p
reads-le-counts outside = omega arith
reads-le-counts testing = omega arith
reads-le-counts entering = omega arith
reads-le-counts counted = omega arith
reads-le-counts leaving = omega arith
reads-le-counts reading = omega arith
reads-le-counts claiming = omega arith
reads-le-counts draining = omega arith
reads-le-counts writing = omega arith

writes-le-claims : (p : Place) → writes p ≤ claims p
writes-le-claims outside = omega arith
writes-le-claims testing = omega arith
writes-le-claims entering = omega arith
writes-le-claims counted = omega arith
writes-le-claims leaving = omega arith
writes-le-claims reading = omega arith
writes-le-claims claiming = omega arith
writes-le-claims draining = omega arith
writes-le-claims writing = omega arith

-- Where a thread may go: to a place that does not hold the lock, to a reader's if nobody has
-- `write`, to a writer's if nobody is counted.
abbrev MayGo : Threads → Place → Type 0
MayGo s q =
    ((writes q ≡ 0) × (reads q ≡ 0))
    ⊎ (((s.lock.write ≡ 0) × (writes q ≡ 0)) ⊎ ((s.lock.read ≡ 0) × (reads q ≡ 0)))

module _ {s : Threads} (i : ℕ) (v : Consistent s) (p q : Place)
    (h : get_elem? s.places i ≡ some p) where
  still_apart :
      MayGo s q → (tally writes (set s.places i q) ≡ 0) ⊎ (tally reads (set s.places i q) ≡ 0)
  still_apart (inl (w, r)) = elim v.apart [
    | inl none ↦ inl (omega (arith, tally-set writes s.places i p q h, none, w))
    | inr none ↦ inr (omega (arith, tally-set reads s.places i p q h, none, r))
  ]
  still_apart (inr (inl (free, w))) = inl (
      omega (
        arith,
        tally-set writes s.places i p q h,
        v.writers,
        free,
        w,
        tally-le writes claims writes-le-claims s.places,
      ))
  still_apart (inr (inr (free, r))) = inr (
      omega (
        arith,
        tally-set reads s.places i p q h,
        v.readers,
        free,
        r,
        tally-le reads counts reads-le-counts s.places,
      ))

  moved-Consistent :
      (l : RwLock)
      → l.read + counts p ≡ s.lock.read + counts q
      → l.write + claims p ≡ s.lock.write + claims q
      → l.write ≤ 1
      → MayGo s q
      → Consistent (after s i (record { lock = l; place = q }))
  moved-Consistent l er ew small may = record {
    readers = omega (arith, v.readers, tally-set counts s.places i p q h, er);
    writers = omega (arith, v.writers, tally-set claims s.places i p q h, ew);
    one_writer = small;
    apart = still_apart may;
  }

-- A step that goes to `x` or to `y` as a test says.
branch-Consistent :
    (s : Threads) (i : ℕ) {l : RwLock} (b : Bool) (x y : Place)
    → (b ≡ true → Consistent (after s i (record { lock = l; place = x })))
    → (b ≡ false → Consistent (after s i (record { lock = l; place = y })))
    → Consistent (after s i (record { lock = l; place = if b then x else y }))
branch-Consistent s i true x y if_so if_not = if_so refl
branch-Consistent s i false x y if_so if_not = if_not refl

module _ {s : Threads} (i : ℕ) (v : Consistent s) where
  advance-Consistent :
      (p : Place) (to_read : Bool)
      → get_elem? s.places i ≡ some p
      → Consistent (after s i (advance to_read s.lock p))
  unfolding advance
  advance-Consistent outside true h =
      moved-Consistent i v outside testing h s.lock refl refl v.one_writer (inl (refl, refl))
  advance-Consistent outside false h =
      moved-Consistent i v outside claiming h s.lock refl refl v.one_writer (inl (refl, refl))
  advance-Consistent testing r h =
      branch-Consistent s i (s.lock.write == 0) entering testing
        (λ e.
          moved-Consistent i v testing entering h s.lock refl refl v.one_writer (inl (refl, refl)))
        (λ e.
          moved-Consistent i v testing testing h s.lock refl refl v.one_writer (inl (refl, refl)))
  advance-Consistent entering r h =
      moved-Consistent i v entering counted h (record s.lock { read = s.lock.read + 1 })
        (omega arith) refl v.one_writer (inl (refl, refl))
  advance-Consistent counted r h =
      branch-Consistent s i (s.lock.write == 0) reading leaving
        (λ e.
          moved-Consistent i v counted reading h s.lock refl refl v.one_writer
            (inr (inl (ground arith, refl))))
        (λ e.
          moved-Consistent i v counted leaving h s.lock refl refl v.one_writer (inl (refl, refl)))
  advance-Consistent leaving r h =
      let some_reader = tally-get_elem? counts s.places i h in
      moved-Consistent i v leaving testing h (record s.lock { read = s.lock.read - 1 })
        (omega (arith, some_reader, v.readers)) refl v.one_writer (inl (refl, refl))
  advance-Consistent reading r h =
      let some_reader = tally-get_elem? counts s.places i h in
      moved-Consistent i v reading outside h (record s.lock { read = s.lock.read - 1 })
        (omega (arith, some_reader, v.readers)) refl v.one_writer (inl (refl, refl))
  advance-Consistent claiming r h =
      branch-Consistent s i (s.lock.write == 0) draining claiming
        (λ e.
          moved-Consistent i v claiming draining h (record s.lock { write = 1 }) refl (ground arith)
            (omega arith) (inl (refl, refl)))
        (λ e.
          moved-Consistent i v claiming claiming h (record s.lock { write = 1 }) refl
            (ground (arith, v.one_writer)) (omega arith) (inl (refl, refl)))
  advance-Consistent draining r h =
      branch-Consistent s i (s.lock.read == 0) writing draining
        (λ e.
          moved-Consistent i v draining writing h s.lock refl refl v.one_writer
            (inr (inr (ground arith, refl))))
        (λ e.
          moved-Consistent i v draining draining h s.lock refl refl v.one_writer (inl (refl, refl)))
  advance-Consistent writing r h =
      let a_writer = tally-get_elem? claims s.places i h in
      moved-Consistent i v writing outside h (record s.lock { write = 0 }) refl
        (omega (arith, a_writer, v.writers, v.one_writer)) (omega arith) (inl (refl, refl))

pub Reaches-Consistent : {n : ℕ} {s : Threads} → Reaches n s → Consistent s
Reaches-Consistent {n} start = record {
  readers = sym (tally-replicate counts n outside refl);
  writers = sym (tally-replicate claims n outside refl);
  one_writer = omega arith;
  apart = inl (tally-replicate writes n outside refl);
}
Reaches-Consistent (step i p r before at) = advance-Consistent i (Reaches-Consistent before) p r at

-- However many threads share a new lock and in whatever order their steps come: when a thread
-- holds the lock to write, a thread that holds it to write or to read is the same one.
pub rwlock-exclusive :
    {n : ℕ} {s : Threads} {q : Place} (i j : ℕ)
    → Reaches n s
    → get_elem? s.places i ≡ some writing
    → get_elem? s.places j ≡ some q
    → (q ≡ writing) ⊎ (q ≡ reading)
    → i ≡ j
rwlock-exclusive {s} {q} i j reached at there holds =
    let v = Reaches-Consistent reached in
    let one = tally-le writes claims writes-le-claims s.places in
    let here = tally-get_elem? writes s.places i at in
    elim (Bool-cases (i == j)) [
      | inl same ↦ ground arith
      | inr other ↦ elim holds [
        | inl w ↦
            let two = tally-two writes s.places i j at (there ∙ ap some w) (ground arith) in
            absurd (omega (arith, two, one, v.writers, v.one_writer))
        | inr r ↦
            let a_reader = tally-get_elem? reads s.places j (there ∙ ap some r) in
            elim v.apart [
              | inl none ↦ absurd (omega (arith, here, none))
              | inr none ↦ absurd (omega (arith, a_reader, none))
            ]
      ]
    ]

-- In every state that threads reach on a new lock, `read` is the number of threads between their
-- atom_inc and atom_dec, and `write`, which is 0 or 1, the number of those that claimed it and
-- have not released it.
pub rwlock-counted :
    {n : ℕ} {s : Threads}
    → Reaches n s
    → (s.lock.read ≡ tally counts s.places)
      × (s.lock.write ≡ tally claims s.places)
      × (s.lock.write ≤ 1)
rwlock-counted reached = let v = Reaches-Consistent reached in (v.readers, v.writers, v.one_writer)
