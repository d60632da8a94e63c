-- ===== src/Timer/Up.antt =====
-- timer_siftup, timer_add below the capacity, and timer_latest of src/timer/timer.c.
use grt.Base.{
  ℕ, zero, suc, ◌+◌, ◌≤◌, ◌<◌, ◌≡◌, ◌≢◌, ◌⊎◌, inl, inr, refl, Bool, true, false, Option, some,
  arith, List, [], ◌∷◌, length, length-set, set, get_or, get_elem?-get_or, Bool-cases, leb, ◌==◌,
  if◌then◌else◌, sym, ◌∙◌, ap, subst,
}
use grt.Base.Run.{ok, store-ok, load-ok}
use grt.Timer.{
  Pointer, TimerEvent, Timer, timer_add, grow, set_index, place, siftup_loop, timer_siftup,
  timer_latest, load_event,
}
use grt.Timer.Tally.{tally, tally-ext, tally-swap}
use grt.Timer.Order.{
  parent, Ordered, Rising, Rising-stop, Rising-swapped, Rising-ext, Ordered-root, swapped,
}

-- the event in cell `k`, and its time
abbrev pub event_at : Timer → ℕ → Pointer
event_at t k = get_or t.heap k 0

abbrev pub time_at : Timer → ℕ → ℕ
time_at t k = (t.events (event_at t k)).when

-- Cells below `n` hold events.
abbrev pub Filled : Timer → ℕ → Type 0
Filled t n = (k : ℕ) → k < n → event_at t k ≢ 0

pub get_or-set :
    (xs : List Pointer) (i j : ℕ) (v : Pointer)
    → i < length xs
    → get_or (set xs i v) j 0 ≡ (if i == j then v else get_or xs j 0)
get_or-set [] i j v h = elim h [ ]
get_or-set (x ∷ xs) zero zero v h = ground arith
get_or-set (x ∷ xs) zero (suc j) v h = ground arith
get_or-set (x ∷ xs) (suc i) zero v h = ground arith
get_or-set (x ∷ xs) (suc i) (suc j) v h = ground (arith, get_or-set xs i j v (omega arith))

either :
    (field : TimerEvent → ℕ) (b : Bool) (x y : TimerEvent)
    → (b ≡ true → field x ≡ field y)
    → field (if b then x else y) ≡ field y
either field true x y same = same refl
either field false x y same = refl

pub when-set_index :
    (t : Timer) (ev p : Pointer) (k : Option ℕ)
    → ((set_index t ev k).events p).when ≡ (t.events p).when
when-set_index t ev p k =
    either (λ e. e.when) (p == ev) (record (t.events ev) { i = k }) (t.events p)
      λ e. let same : ev ≡ p = ground arith in ap (λ q. (t.events q).when) same

pub period-set_index :
    (t : Timer) (ev p : Pointer) (k : Option ℕ)
    → ((set_index t ev k).events p).period ≡ (t.events p).period
period-set_index t ev p k =
    either (λ e. e.period) (p == ev) (record (t.events ev) { i = k }) (t.events p)
      λ e. let same : ev ≡ p = ground arith in ap (λ q. (t.events q).period) same

pub load_event-ok :
    (t : Timer) (k : ℕ) → k < length t.heap → event_at t k ≢ 0 → load_event t k ≡ ok (event_at t k)
load_event-ok t k lt ne = ground (arith, load-ok t.heap k (get_elem?-get_or t.heap k 0 lt))

-- `u` is `t` with `ev` in cell `k`.
pub record Placed (t u : Timer) (k : ℕ) (ev : Pointer) : Type 0 where
  pub wide : length u.heap ≡ length t.heap
  pub same_size : u.size ≡ t.size
  pub same_cap : u.cap ≡ t.cap
  pub cell : (j : ℕ) → event_at u j ≡ (if k == j then ev else event_at t j)
  pub time : (p : Pointer) → (u.events p).when ≡ (t.events p).when
  pub period : (p : Pointer) → (u.events p).period ≡ (t.events p).period

pub place-Placed :
    (t : Timer) (k : ℕ) (ev : Pointer)
    → k < length t.heap
    → (u : Timer) × (place t k ev ≡ ok u) × Placed t u k ev
unfolding place
place-Placed t k ev lt = (
  set_index (record t { heap = set t.heap k ev }) ev (some k),
  rw (store-ok t.heap k ev lt),
  record {
    wide = length-set t.heap k ev;
    same_size = refl;
    same_cap = refl;
    cell = λ j. get_or-set t.heap k j ev lt;
    time = λ p. when-set_index t ev p (some k);
    period = λ p. period-set_index t ev p (some k);
  },
)

-- What sifting keeps, and the order that it gives to the cells below `n`; `f` is what these hold
-- before it.
pub record Sifted (t u : Timer) (n : ℕ) (f : ℕ → Pointer) : Type 0 where
  pub wide : length u.heap ≡ length t.heap
  pub same_size : u.size ≡ t.size
  pub same_cap : u.cap ≡ t.cap
  pub filled : Filled u n
  pub ordered : Ordered (time_at u) n
  pub time : (p : Pointer) → (u.events p).when ≡ (t.events p).when
  pub period : (p : Pointer) → (u.events p).period ≡ (t.events p).period
  pub same_events : (p : Pointer → ℕ) → tally (event_at u) n p ≡ tally f n p

module _ {t u v : Timer} {i : ℕ} (a : Placed t u i (event_at t (parent i)))
    (b : Placed u v (parent i) (event_at t i)) (pos_i : 0 < i) where
  swap_cell :
      (k : ℕ)
      → event_at v k ≡ (
          if k == i
          then event_at t (parent i)
          else if k == parent i
          then event_at t i
          else event_at t k)
  swap_cell k = ground (arith, a.cell k, b.cell k)

  swap_time : (k : ℕ) → time_at v k ≡ swapped (time_at t) i k
  unfolding swapped
  swap_time k =
      b.time (event_at v k)
      ∙ a.time (event_at v k)
      ∙ ap (λ p. (t.events p).when) (swap_cell k)
      ∙ of_cases (k == i) (k == parent i) (event_at t (parent i)) (event_at t i) (event_at t k)
    where
      of_cases :
          (c d : Bool) (x y z : Pointer)
          → (t.events (if c then x else if d then y else z)).when
            ≡ (if c then (t.events x).when else if d then (t.events y).when else (t.events z).when)
      of_cases true d x y z = refl
      of_cases false true x y z = refl
      of_cases false false x y z = refl

  swap-Filled : {n : ℕ} → i < n → Filled t n → Filled v n
  swap-Filled {n} lt full k lt_k = elim (Bool-cases (k == i)) [
    | inl e ↦ ground (arith, swap_cell k, full (parent i) (omega arith))
    | inr e ↦ elim (Bool-cases (k == parent i)) [
      | inl e' ↦ ground (arith, swap_cell k, full i lt)
      | inr e' ↦ ground (arith, swap_cell k, full k lt_k)
    ]
  ]

  swap_tally : {n : ℕ} → i < n → (x : Pointer → ℕ) → tally (event_at v) n x ≡ tally (event_at t) n x
  swap_tally {n} lt x =
      tally-swap (event_at t) (event_at v) i (parent i) n x lt (omega arith) (omega arith)
        (λ k. ground (arith, swap_cell k))

pub siftup_loop-Sifted :
    (fuel : ℕ) (t : Timer) (n i : ℕ)
    → i < fuel
    → i < n
    → n ≤ length t.heap
    → Filled t n
    → Rising (time_at t) n i
    → (u : Timer) × (siftup_loop fuel t (event_at t i) i ≡ ok u) × Sifted t u n (event_at t)
unfolding siftup_loop
siftup_loop-Sifted zero t n i h lt wide full v = absurd (omega arith)
siftup_loop-Sifted (suc fuel) t n i h lt wide full v = elim (Bool-cases (i == 0)) [
  | inl top ↦ (t, rw top, keep (inl (ground arith)))
  | inr low ↦
      let pos_i : 0 < i = ground arith in
      let parent_cell = load_event-ok t (parent i) (omega arith) (full (parent i) (omega arith)) in
      elim (Bool-cases (leb (time_at t (parent i)) (time_at t i))) [
        | inl le ↦ (t, rw (low, parent_cell, le), keep (inr (ground arith)))
        | inr gt ↦
            let (a, run, pa) = place-Placed t i (event_at t (parent i)) (omega arith) in
            let (b, run', pb) = place-Placed a (parent i) (event_at t i) (omega (arith, pa.wide)) in
            let v' =
              Rising-ext (swap_time pa pb pos_i) (Rising-swapped v pos_i lt (ground arith)) in
            let (u, rest, done) =
              siftup_loop-Sifted fuel b n (parent i) (omega arith) (omega arith)
                (omega (arith, pa.wide, pb.wide)) (swap-Filled pa pb pos_i lt full) v' in
            let tmp : event_at b (parent i) ≡ event_at t i = ground (arith, pb.cell (parent i)) in
            let rest' = subst (λ p. siftup_loop fuel b p (parent i) ≡ ok u) tmp rest in
            (
              u,
              rw (low, parent_cell, gt, run, run', rest'),
              moved pa pb (swap_tally pa pb pos_i lt) done,
            )
      ]
]
  where
    moved :
        {a b u : Timer} {k l : ℕ} {p q : Pointer}
        → Placed t a k p
        → Placed a b l q
        → ((x : Pointer → ℕ) → tally (event_at b) n x ≡ tally (event_at t) n x)
        → Sifted b u n (event_at b)
        → Sifted t u n (event_at t)
    moved pa pb swap done = record {
      wide = done.wide ∙ pb.wide ∙ pa.wide;
      same_size = done.same_size ∙ pb.same_size ∙ pa.same_size;
      same_cap = done.same_cap ∙ pb.same_cap ∙ pa.same_cap;
      filled = done.filled;
      ordered = done.ordered;
      time = λ x. done.time x ∙ pb.time x ∙ pa.time x;
      period = λ x. done.period x ∙ pb.period x ∙ pa.period x;
      same_events = λ x. done.same_events x ∙ swap x;
    }

    keep : (i ≡ 0) ⊎ (time_at t (parent i) ≤ time_at t i) → Sifted t t n (event_at t)
    keep why = record {
      wide = refl;
      same_size = refl;
      same_cap = refl;
      filled = full;
      ordered = Rising-stop v why;
      time = λ x. refl;
      period = λ x. refl;
      same_events = λ x. refl;
    }

-- `n` cells in use, in order, and as many cells as the capacity says.
pub record IsTimer (t : Timer) : Type 0 where
  pub cells : length t.heap ≡ t.cap
  pub bounded : t.size ≤ t.cap
  pub filled : Filled t t.size
  pub ordered : Ordered (time_at t) t.size

pub timer_siftup-Sifted :
    (t : Timer) (n i : ℕ)
    → i < n
    → n ≤ length t.heap
    → Filled t n
    → Rising (time_at t) n i
    → (u : Timer) × (timer_siftup t i ≡ ok u) × Sifted t u n (event_at t)
unfolding timer_siftup
timer_siftup-Sifted t n i lt wide full v =
    let (u, run, sifted) = siftup_loop-Sifted (i + 1) t n i (omega arith) lt wide full v in
    (u, rw (load_event-ok t i (omega arith) (full i lt), run), sifted)

-- An event at the end, before it is moved up.
abbrev appended : Timer → Pointer → Timer
appended t ev = record (set_index t ev (some t.size)) {
  heap = set t.heap t.size ev;
  size = t.size + 1;
}

grow-room : (t : Timer) → t.size < t.cap → grow t ≡ t
unfolding grow
grow-room t room = ground arith

module _ {t : Timer} (ev : Pointer) (v : IsTimer t) (room : t.size < t.cap) (ne : ev ≢ 0) where
  appended_cell : (k : ℕ) → event_at (appended t ev) k ≡ (if t.size == k then ev else event_at t k)
  appended_cell k = get_or-set t.heap t.size k ev (omega (arith, v.cells, room))

  appended-Filled : Filled (appended t ev) (t.size + 1)
  appended-Filled k lt = elim (Bool-cases (t.size == k)) [
    | inl e ↦ ground (arith, appended_cell k, ne)
    | inr e ↦ ground (arith, appended_cell k, v.filled k (ground arith))
  ]

  tally-appended :
      (x : Pointer → ℕ)
      → tally (event_at (appended t ev)) (t.size + 1) x ≡ x ev + tally (event_at t) t.size x
  tally-appended x =
      let f = event_at (appended t ev) in
      let end : t.size + 1 ≡ suc t.size = omega arith in
      let new : f t.size ≡ ev = ground (arith, appended_cell t.size) in
      let old = tally-ext f (event_at t) t.size x (λ k lt. ground (arith, appended_cell k)) in
      omega (arith, ap (λ n. tally f n x) end, ap x new, old)

  appended_time : (k : ℕ) → k ≢ t.size → time_at (appended t ev) k ≡ time_at t k
  appended_time k other =
      let old : event_at (appended t ev) k ≡ event_at t k = ground (arith, appended_cell k) in
      when-set_index t ev (event_at (appended t ev) k) (some t.size)
      ∙ ap (λ p. (t.events p).when) old

  appended-Rising : Rising (time_at (appended t ev)) (t.size + 1) t.size
  appended-Rising = record {
    rest = λ k pos_k lt other. omega (
      arith,
      appended_time k other,
      appended_time (parent k) (omega arith),
      v.ordered k pos_k (omega arith),
    );
    skip = λ k pos_k lt pos_i e. absurd (omega arith);
  }

  -- On a timer in order with room in its array (as many cells as `cap`, the first `size` of them
  -- filled, no event before its parent in time), timer_add of an event other than NULL ends well
  -- with a timer in order of the same capacity, in which any weights of events add up to what they
  -- did before and the weight of the new event.
  pub timer_add-IsTimer :
      (u : Timer) × (timer_add t ev ≡ ok u)
      × IsTimer u
      × (u.size ≡ t.size + 1)
      × (u.cap ≡ t.cap)
      × ((x : Pointer → ℕ) → tally (event_at u) u.size x ≡ x ev + tally (event_at t) t.size x)
  unfolding timer_add
  timer_add-IsTimer =
      let here : t.size < length t.heap = omega (arith, v.cells, room) in
      let wide = length-set t.heap t.size ev in
      let (u, run, sifted) =
        timer_siftup-Sifted (appended t ev) (t.size + 1) t.size (omega arith)
          (omega (arith, wide, here)) appended-Filled appended-Rising in
      let not_null : (ev == 0) ≡ false = ground (arith, ne) in
      (
        u,
        rw (
          not_null,
          grow-room (set_index t ev (some t.size)) room,
          store-ok t.heap t.size ev here,
          run,
        ),
        record {
          cells = omega (arith, sifted.wide, wide, v.cells, sifted.same_cap);
          bounded = omega (arith, sifted.same_size, sifted.same_cap, room);
          filled = subst (Filled u) (sym sifted.same_size) sifted.filled;
          ordered = subst (Ordered (time_at u)) (sym sifted.same_size) sifted.ordered;
        },
        sifted.same_size,
        sifted.same_cap,
        λ x.
            ap (λ n. tally (event_at u) n x) sifted.same_size
            ∙ sifted.same_events x
            ∙ tally-appended x,
      )

-- On a timer in order that has an event, timer_latest ends well with an event other than NULL
-- whose time is not after that of any event in the heap.
pub timer_latest-first :
    {t : Timer}
    → IsTimer t
    → 0 < t.size
    → (ev : Pointer) × (timer_latest t ≡ ok ev)
      × (ev ≢ 0)
      × ((k : ℕ) → k < t.size → (t.events ev).when ≤ time_at t k)
unfolding timer_latest
timer_latest-first {t} v some_event =
    let cell = load-ok t.heap 0 (get_elem?-get_or t.heap 0 0 (omega (arith, v.cells, v.bounded))) in
    (event_at t 0, ground (arith, cell), v.filled 0 some_event, λ k lt. Ordered-root k v.ordered lt)
