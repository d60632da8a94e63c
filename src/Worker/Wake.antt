-- ===== src/Worker/Wake.antt =====
-- Who is woken when a slice ends (src/ltask/ltask.c).
use grt.Base.{
  ℕ, ◌+◌, ◌%◌, ◌≤◌, ◌<◌, ◌≡◌, ◌≢◌, refl, Bool, true, false, arith, Bool-cases, leb, ◌==◌,
  if◌then◌else◌, inl, inr, ◌⊎◌, ap, sym, ◌∙◌, subst,
}
use grt.Base.Run.{Run, ok, ◌>>=◌}
use grt.Worker.{
  Place, waking, scanning, running, notifying, suspending, sleeping, Workshop, update, Choice,
  alive, dead, finishes, fails, pushes, goes, turn, Reaches, start, step, worker_func, after_pop,
  thread_event_trigger,
}

-- The workers take steps, and worker `i` sleeps on all the time.
pub data Sleeps (n i : ℕ) (s : Workshop) : Workshop → Type 0 where
  now : s.place i ≡ sleeping → Sleeps n i s s
  next :
      {t : Workshop} (t' : Workshop) (u : ℕ) (choice : Choice)
      → Sleeps n i s t
      → turn n choice t u ≡ ok t'
      → t'.place i ≡ sleeping
      → Sleeps n i s t'

-- Holds of the state that a step leaves.
abbrev Then : (Workshop → Type 0) → Run Workshop → Type 0
Then P (ok s) = P s
Then P r = Unit {0}

-- What a step of another worker leaves alone, or sets.
record Spared (s s' : Workshop) (i : ℕ) : Type 0 where
  place_kept : s'.place i ≡ s.place i
  suspend_kept : s'.suspend i ≡ s.suspend i
  flag_kept : s.flag i ≡ true → s'.flag i ≡ true

module _ (s : Workshop) {u i : ℕ} (other : u ≢ i) where
  goes-Spared : (t : Workshop) (p : Place) → Spared s t i → Spared s (goes t u p) i
  goes-Spared t p h = record {
    place_kept = ground (arith, h.place_kept, other);
    suspend_kept = h.suspend_kept;
    flag_kept = h.flag_kept;
  }

  same-Spared : Spared s s i
  same-Spared = record { place_kept = refl; suspend_kept = refl; flag_kept = λ e. e }

  trigger-Spared : (b : Bool) (j : ℕ) → Spared s (if b then thread_event_trigger s j else s) i
  trigger-Spared false j = same-Spared
  trigger-Spared true j = record {
    place_kept = refl;
    suspend_kept = refl;
    flag_kept = λ e. ground (arith, e);
  }

  suspend-Spared : (b : Bool) → Spared s (record s { suspend = update s.suspend u b }) i
  suspend-Spared b = record {
    place_kept = refl;
    suspend_kept = ground (arith, other);
    flag_kept = λ e. e;
  }

  ready-Spared : (ready : ℕ → ℕ) → Spared s (record s { ready = ready }) i
  ready-Spared ready = record { place_kept = refl; suspend_kept = refl; flag_kept = λ e. e }

  wait-Spared :
      (b : Bool)
      → s.flag u ≡ b
      → Spared s (if b then goes (record s { flag = update s.flag u false }) u waking else s) i
  wait-Spared false e = same-Spared
  wait-Spared true e =
      goes-Spared (record s { flag = update s.flag u false }) waking
        (record {
          place_kept = refl;
          suspend_kept = refl;
          flag_kept = λ e. ground (arith, e, other);
        })

  popped-Spared :
      (choice : Choice) (ready : ℕ → ℕ)
      → Then
          (λ t. Spared s t i)
          (after_pop choice >>= λ p. ok (goes (record s { ready = ready }) u p))
  popped-Spared dead ready = goes-Spared _ (scanning 0) (ready-Spared ready)
  popped-Spared alive ready = goes-Spared _ running (ready-Spared ready)
  popped-Spared finishes ready = goes-Spared _ running (ready-Spared ready)
  popped-Spared (pushes j) ready = goes-Spared _ running (ready-Spared ready)
  popped-Spared fails ready = tt

  running-Spared :
      (n : ℕ) (choice : Choice) → Then (λ t. Spared s t i) (worker_func n choice s u running)
  running-Spared n alive = same-Spared
  running-Spared n dead = same-Spared
  running-Spared n finishes = goes-Spared s (notifying 0) same-Spared
  running-Spared n fails = tt
  running-Spared n (pushes q) = ready-Spared _

  worker_func-Spared :
      (n : ℕ) (choice : Choice) (p : Place) → Then (λ t. Spared s t i) (worker_func n choice s u p)
  worker_func-Spared n choice waking = goes-Spared _ (scanning 0) (suspend-Spared false)
  worker_func-Spared n choice (scanning k) = elim (Bool-cases (s.ready ((u + k) % n) == 0)) [
    | inl e ↦
        rw e (goes-Spared s (if leb n (k + 1) then suspending else scanning (k + 1)) same-Spared)
    | inr e ↦ rw e (popped-Spared choice _)
  ]
  worker_func-Spared n choice running = running-Spared n choice
  worker_func-Spared n choice (notifying j) = elim (Bool-cases (leb n j)) [
    | inl e ↦ rw e (goes-Spared s (scanning 0) same-Spared)
    | inr e ↦ rw e (goes-Spared _ (notifying (j + 1)) (trigger-Spared (s.suspend j) j))
  ]
  worker_func-Spared n choice suspending = goes-Spared _ sleeping (suspend-Spared true)
  worker_func-Spared n choice sleeping = wait-Spared (s.flag u) refl

turn-Spared :
    (n : ℕ) {t t' : Workshop} {u i : ℕ} (choice : Choice)
    → u ≢ i
    → turn n choice t u ≡ ok t'
    → Spared t t' i
unfolding turn
turn-Spared n {t} {t'} {u} {i} choice other e =
    subst (Then (λ x. Spared t x i)) e (worker_func-Spared t other n choice (t.place u))

-- `suspend` is set while a worker sleeps.
abbrev Suspended : ℕ → Workshop → Type 0
Suspended i s = s.place i ≡ sleeping → s.suspend i ≡ true

module _ (s : Workshop) (i : ℕ) (old : Suspended i s) where
  wait-Suspended :
      (b : Bool)
      → Suspended i (if b then goes (record s { flag = update s.flag i false }) i waking else s)
  wait-Suspended false = old
  wait-Suspended true = λ e. absurd (ground (arith, e))

  awake-Suspended : (t : Workshop) (p : Place) → p ≢ sleeping → Suspended i (goes t i p)
  awake-Suspended t p ne e = absurd (ne (ground (arith, e)))

  popped-Suspended :
      (choice : Choice) (t : Workshop)
      → Then (Suspended i) (after_pop choice >>= λ p. ok (goes t i p))
  popped-Suspended dead t = awake-Suspended t (scanning 0) (λ e. ground (arith, e))
  popped-Suspended alive t = awake-Suspended t running (λ e. ground (arith, e))
  popped-Suspended finishes t = awake-Suspended t running (λ e. ground (arith, e))
  popped-Suspended (pushes j) t = awake-Suspended t running (λ e. ground (arith, e))
  popped-Suspended fails t = tt

  empty-Suspended :
      (b : Bool) (k : ℕ) → Suspended i (goes s i (if b then suspending else scanning k))
  empty-Suspended true k = awake-Suspended s suspending (λ e. ground (arith, e))
  empty-Suspended false k = awake-Suspended s (scanning k) (λ e. ground (arith, e))

  running-Suspended :
      (n : ℕ) (choice : Choice) → Then (Suspended i) (worker_func n choice s i running)
  running-Suspended n alive = old
  running-Suspended n dead = old
  running-Suspended n finishes = awake-Suspended s (notifying 0) (λ e. ground (arith, e))
  running-Suspended n fails = tt
  running-Suspended n (pushes q) = old

  worker_func-Suspended :
      (n : ℕ) (choice : Choice) (p : Place) → Then (Suspended i) (worker_func n choice s i p)
  worker_func-Suspended n choice waking =
      awake-Suspended (record s { suspend = update s.suspend i false }) (scanning 0)
        (λ e. ground (arith, e))
  worker_func-Suspended n choice (scanning k) = elim (Bool-cases (s.ready ((i + k) % n) == 0)) [
    | inl e ↦ rw e (empty-Suspended (leb n (k + 1)) (k + 1))
    | inr e ↦ rw e (popped-Suspended choice _)
  ]
  worker_func-Suspended n choice running = running-Suspended n choice
  worker_func-Suspended n choice (notifying j) = elim (Bool-cases (leb n j)) [
    | inl e ↦ rw e (awake-Suspended s (scanning 0) (λ e. ground (arith, e)))
    | inr e ↦ rw e (
        awake-Suspended (if s.suspend j then thread_event_trigger s j else s) (notifying (j + 1))
          (λ e. ground (arith, e)))
  ]
  worker_func-Suspended n choice suspending = λ e. ground arith
  worker_func-Suspended n choice sleeping = wait-Suspended (s.flag i)

Reaches-Suspended : {n : ℕ} {s : Workshop} (i : ℕ) → Reaches n s → Suspended i s
unfolding turn
Reaches-Suspended i (start ready) = λ e. absurd (ground (arith, e))
Reaches-Suspended {n} i (step {s} s' u choice lt before go) = elim (Bool-cases (u == i)) [
  | inl e ↦
      let same : u ≡ i = ground arith in
      subst (Then (Suspended i)) (subst (λ j. worker_func n choice s j (s.place j) ≡ ok s') same go)
        (worker_func-Suspended s i (Reaches-Suspended i before) n choice (s.place i))
  | inr e ↦
      let other : u ≢ i = ground arith in
      let h = turn-Spared n {t = s} {t' = s'} choice other go in
      λ asleep. h.suspend_kept ∙ Reaches-Suspended i before (sym h.place_kept ∙ asleep)
]

-- The sleeper's flag is set, or the worker `w` has not passed it in its loop.
record Told (w i : ℕ) (t : Workshop) : Type 0 where
  suspended : t.suspend i ≡ true
  told : (t.flag i ≡ true) ⊎ ((j : ℕ) × (t.place w ≡ notifying j) × (j ≤ i))

-- A round of the loop reaches the sleeper.
round-Told :
    (n w i j : ℕ) (t : Workshop)
    → i < n
    → j ≤ i
    → t.suspend i ≡ true
    → Then
        (λ x. (x.flag i ≡ true) ⊎ ((k : ℕ) × (x.place w ≡ notifying k) × (k ≤ i)))
        (worker_func n alive t w (notifying j))
round-Told n w i j t lt le set = elim (Bool-cases (leb n j)) [
  | inl e ↦ absurd (ground (arith, e))
  | inr e ↦ elim (Bool-cases (j == i)) [
    | inl here ↦
        let same : i ≡ j = ground arith in
        let set_here : t.suspend j ≡ true = subst (λ k. t.suspend k ≡ true) same set in
        rw (e, set_here) (inl (ground (arith, same)))
    | inr before ↦ rw e (inr (j + 1, ground arith, ground arith))
  ]
]

module _ (n w i : ℕ) (lt : i < n) (apart : w ≢ i) where
  turn-Told :
      (t t' : Workshop) (u : ℕ) (choice : Choice)
      → Told w i t
      → t.place i ≡ sleeping
      → turn n choice t u ≡ ok t'
      → t'.place i ≡ sleeping
      → Told w i t'
  unfolding turn
  turn-Told t t' u choice h asleep go asleep' = elim (Bool-cases (u == i)) [
    | inl e ↦
        let same : u ≡ i = ground arith in
        let own : worker_func n choice t i sleeping ≡ ok t' =
          subst (λ p. worker_func n choice t i p ≡ ok t') asleep
            (subst (λ j. worker_func n choice t j (t.place j) ≡ ok t') same go) in
        stays (t.flag i) own
    | inr e ↦
        let other : u ≢ i = ground arith in
        let k = turn-Spared n {t = t} {t' = t'} choice other go in
        record { suspended = k.suspend_kept ∙ h.suspended; told = on k h.told }
  ]
    where
      stays :
          (b : Bool)
          → Path
              (Run Workshop)
              (ok (if b then goes (record t { flag = update t.flag i false }) i waking else t))
              (ok t')
          → Told w i t'
      stays false own = subst (Told w i) (ground (arith, own)) h
      stays true own = absurd (ground (arith, own, asleep'))

      on :
          Spared t t' i
          → (t.flag i ≡ true) ⊎ ((j : ℕ) × (t.place w ≡ notifying j) × (j ≤ i))
          → (t'.flag i ≡ true) ⊎ ((j : ℕ) × (t'.place w ≡ notifying j) × (j ≤ i))
      on k (inl set) = inl (k.flag_kept set)
      on k (inr (j, at, le)) = elim (Bool-cases (u == w)) [
        | inl e ↦
            let same : u ≡ w = ground arith in
            let own : worker_func n choice t w (notifying j) ≡ ok t' =
              subst (λ p. worker_func n choice t w p ≡ ok t') at
                (subst (λ x. worker_func n choice t x (t.place x) ≡ ok t') same go) in
            subst (Then (λ x. (x.flag i ≡ true) ⊎ ((k : ℕ) × (x.place w ≡ notifying k) × (k ≤ i))))
              own (round-Told n w i j t lt le h.suspended)
        | inr e ↦
            let other : u ≢ w = ground arith in
            inr (j, (turn-Spared n {t = t} {t' = t'} choice other go).place_kept ∙ at, le)
      ]

  Sleeps-Told : {s t : Workshop} → Told w i s → Sleeps n i s t → (t.place i ≡ sleeping) × Told w i t
  Sleeps-Told h (now asleep) = (asleep, h)
  Sleeps-Told h (next {t} t' u choice before go asleep') =
      let (asleep, told) = Sleeps-Told h before in
      (asleep', turn-Told t t' u choice told asleep go asleep')

first_asleep : {n i : ℕ} {s t : Workshop} → Sleeps n i s t → s.place i ≡ sleeping
first_asleep (now asleep) = asleep
first_asleep (next t' u choice before go asleep') = first_asleep before

-- In any order of the steps of the workers: when one of them begins to tell the others that a
-- slice has ended, and another one sleeps then and in every state until the first begins its next
-- search, the next step of the sleeper wakes it.
pub sleeper-Woken :
    {n w i : ℕ} {s t : Workshop}
    → Reaches n s
    → i < n
    → s.place w ≡ notifying 0
    → Sleeps n i s t
    → t.place w ≡ scanning 0
    → (choice : Choice) → (t' : Workshop) × (turn n choice t i ≡ ok t') × (t'.place i ≡ waking)
unfolding turn
sleeper-Woken {n} {w} {i} {s} {t} r lt loops sleeps over choice =
    let asleep = first_asleep sleeps in
    let apart : w ≢ i = λ e. absurd (ground (arith, loops, ap s.place e, asleep)) in
    let start_told : Told w i s = record {
      suspended = Reaches-Suspended i r asleep;
      told = inr (0, loops, omega arith);
    } in
    let (asleep', told) = Sleeps-Told n w i lt apart start_told sleeps in
    elim told.told [
      | inl set ↦
          let up : Workshop = goes (record t { flag = update t.flag i false }) i waking in
          (up, rw (asleep', set) refl, ground arith)
      | inr (j, at, le) ↦ absurd (ground (arith, at, over))
    ]
