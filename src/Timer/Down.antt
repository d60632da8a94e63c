-- ===== src/Timer/Down.antt =====
-- timer_siftdown of src/timer/timer.c.
use grt.Base.{
  ℕ, zero, suc, ◌+◌, ◌-◌, ◌*◌, ◌≤◌, ◌<◌, ◌≡◌, ◌≢◌, ◌⊎◌, inl, inr, refl, arith, length, Bool-cases,
  ltb, ◌==◌, if◌then◌else◌, sym, ◌∙◌, ap, subst,
}
use grt.Base.Run.{ok, ◌>>=◌}
use grt.Timer.{Pointer, Timer, place, load_event, settle, siftdown_loop, timer_siftdown}
use grt.Timer.Order.{parent}
use grt.Timer.Tally.{tally-ext}
use grt.Timer.Sink.{Sinking, Least, Sinking-stop, Sinking-lowered, Sinking-ext}
use grt.Timer.Up.{event_at, time_at, Filled, load_event-ok, Placed, place-Placed, Sifted}
use grt.Timer.Hole.{
  hole, hole_time, hole_time-here, hole_time-other, moved_time, moved-Filled, moved_tally,
  child-cases, finish, Sifted-behind,
}

-- The state of a round: `tmp` has come down to `i`.
record Falling (t : Timer) (tmp : Pointer) (i : ℕ) : Type 0 where
  lt : i < t.size
  wide : t.size ≤ length t.heap
  ne : tmp ≢ 0
  full : Filled t t.size
  sinking : Sinking (hole_time t tmp i) t.size i

module _ {t : Timer} {tmp : Pointer} {i : ℕ} (f : Falling t tmp i) where
  cell-ok : (k : ℕ) → k < t.size → load_event t k ≡ ok (event_at t k)
  cell-ok k lt = load_event-ok t k (omega (arith, f.wide)) (f.full k lt)

  stop :
      Least (hole_time t tmp i) t.size i i
      → (u : Timer) × (place t i tmp ≡ ok u) × Sifted t u t.size (hole t tmp i)
  stop low = finish t tmp t.size i f.lt f.wide f.ne f.full (Sinking-stop f.sinking low)

  -- One step down, to a child that is not later.
  down :
      (m : ℕ)
      → 0 < m
      → m < t.size
      → parent m ≡ i
      → Least (hole_time t tmp i) t.size i m
      → time_at t m ≤ (t.events tmp).when
      → (u : Timer) × (place t i (event_at t m) ≡ ok u)
        × Placed t u i (event_at t m)
        × Falling u tmp m
  down m pos lt child low late =
      let (u, run, p) = place-Placed t i (event_at t m) (omega (arith, f.lt, f.wide)) in
      let ne : m ≢ i = omega (arith, child) in
      let here = hole_time-here t tmp i i refl in
      let there = hole_time-other t tmp i m ne in
      let s =
        Sinking-ext (moved_time tmp p ne)
          (Sinking-lowered f.sinking pos lt child low (omega (arith, here, there, late))) in
      (
        u,
        run,
        p,
        record {
          lt = omega (arith, p.same_size, lt);
          wide = omega (arith, p.same_size, p.wide, f.wide);
          ne = f.ne;
          full = subst (Filled u) (sym p.same_size) (moved-Filled tmp p ne lt f.full);
          sinking = subst (λ n. Sinking (hole_time u tmp m) n m) (sym p.same_size) s;
        },
      )

  -- A child that is not later than another one is not later than any.
  Least-child :
      (m l : ℕ)
      → 0 < m
      → parent m ≡ i
      → ((k : ℕ) → 0 < k → k < t.size → parent k ≡ i → (k ≡ m) ⊎ (k ≡ l))
      → (l < t.size → time_at t m ≤ time_at t l)
      → Least (hole_time t tmp i) t.size i m
  Least-child m l pos child only le k pos_k lt e =
      let here = hole_time-other t tmp i m (omega (arith, child)) in
      let there = hole_time-other t tmp i k (omega (arith, e)) in
      elim (only k pos_k lt e) [
        | inl same ↦ omega (arith, ap (hole_time t tmp i) same)
        | inr same ↦
            let inside : l < t.size = omega (arith, same, lt) in
            omega (arith, here, there, ap (time_at t) same, le inside)
      ]

  Least-self :
      (m : ℕ)
      → (t.events tmp).when ≤ time_at t m
      → m ≢ i
      → Least (hole_time t tmp i) t.size i m
      → Least (hole_time t tmp i) t.size i i
  Least-self m le ne low k pos lt e =
      omega (arith, hole_time-here t tmp i i refl, hole_time-other t tmp i m ne, low k pos lt e, le)

settle-Sifted :
    {t : Timer} {tmp : Pointer} {i : ℕ}
    → Falling t tmp i
    → t.size ≤ 2 * (i + 1)
    → (u : Timer) × (settle t tmp i ≡ ok u) × Sifted t u t.size (hole t tmp i)
unfolding settle
settle-Sifted {t} {tmp} {i} f last = elim (Bool-cases (ltb (2 * i + 1) t.size)) [
  | inr none_left ↦
      let (u, run, s) = stop f (λ k pos lt e. absurd (ground (arith, child-cases i k pos e))) in
      (u, rw none_left run, s)
  | inl one_left ↦
      let left : 2 * i + 1 < t.size = ground arith in
      let child : parent (2 * i + 1) ≡ i = omega arith in
      let low =
        Least-child f (2 * i + 1) (2 * i + 1) (omega arith) child only (λ lt. omega arith) in
      elim (Bool-cases (ltb (time_at t (2 * i + 1)) (t.events tmp).when)) [
        | inr early ↦
            let (u, run, s) = stop f (Least-self f (2 * i + 1) (ground arith) (omega arith) low) in
            (u, rw (one_left, cell-ok f (2 * i + 1) left, early, run), s)
        | inl late ↦
            let (u, run, p, g) = down f (2 * i + 1) (omega arith) left child low (ground arith) in
            let (v, run', s) =
              stop g (λ k pos lt e. absurd (omega (arith, last, lt, e, p.same_size))) in
            let s' = subst (λ n. Sifted u v n (hole u tmp (2 * i + 1))) p.same_size s in
            let kept = moved_tally tmp p (omega arith) f.lt left in
            (
              v,
              rw (one_left, cell-ok f (2 * i + 1) left, late, run, run'),
              Sifted-behind (hole t tmp i) (hole u tmp (2 * i + 1)) kept p s',
            )
      ]
]
  where
    only : (k : ℕ) → 0 < k → k < t.size → parent k ≡ i → (k ≡ 2 * i + 1) ⊎ (k ≡ 2 * i + 1)
    only k pos lt e = ground (arith, child-cases i k pos e)

abbrev Falls : ℕ → Type 0
Falls fuel =
    (t : Timer) (tmp : Pointer) (i : ℕ)
    → Falling t tmp i
    → t.size - i < fuel
    → (u : Timer) × (siftdown_loop fuel t tmp i ≡ ok u) × Sifted t u t.size (hole t tmp i)

-- A round with the smaller child `m`: the moved event stays, or goes to the cell of `m`.
round :
    {t : Timer} {tmp : Pointer} {i : ℕ} (fuel m : ℕ)
    → Falling t tmp i
    → Falls fuel
    → t.size - i < suc fuel
    → 0 < m
    → m < t.size
    → parent m ≡ i
    → Least (hole_time t tmp i) t.size i m
    → (u : Timer) × ((if ltb (t.events tmp).when (time_at t m)
          then place t i tmp
          else (place t i (event_at t m) >>= λ moved. siftdown_loop fuel moved tmp m))
        ≡ ok u)
      × Sifted t u t.size (hole t tmp i)
round {t} {tmp} {i} fuel m f again enough pos lt child low =
    elim (Bool-cases (ltb (t.events tmp).when (time_at t m))) [
      | inl early ↦
          let (u, run, s) = stop f (Least-self f m (ground arith) (omega (arith, child)) low) in
          (u, rw (early, run), s)
      | inr late ↦
          let (u, run, p, g) = down f m pos lt child low (ground arith) in
          let (v, run', s) = again u tmp m g (omega (arith, p.same_size, child, lt, enough)) in
          let kept = moved_tally tmp p (omega (arith, child)) f.lt lt in
          let s' = subst (λ n. Sifted u v n (hole u tmp m)) p.same_size s in
          (v, rw (late, run, run'), Sifted-behind (hole t tmp i) (hole u tmp m) kept p s')
    ]

siftdown_loop-Sifted : (fuel : ℕ) → Falls fuel
unfolding siftdown_loop
siftdown_loop-Sifted zero t tmp i f enough = absurd (omega arith)
siftdown_loop-Sifted (suc fuel) t tmp i f enough =
    let left = 2 * i + 1 in
    let right = 2 * (i + 1) in
    elim (Bool-cases (ltb right t.size)) [
      | inr one ↦ let (u, run, s) = settle-Sifted f (ground arith) in (u, rw (one, run), s)
      | inl two ↦
          let lt_r : right < t.size = ground arith in
          let lt_l : left < t.size = omega arith in
          let l = cell-ok f left lt_l in
          let r = cell-ok f right lt_r in
          let on_left : parent left ≡ i = omega arith in
          let on_right : parent right ≡ i = omega arith in
          elim (Bool-cases (ltb (time_at t left) (time_at t right))) [
            | inl e ↦
                let low =
                  Least-child f left right (omega arith) on_left
                    (λ k pos lt h. child-cases i k pos h) (λ lt. ground arith) in
                let (u, run, s) =
                  round fuel left f (siftdown_loop-Sifted fuel) enough (omega arith) lt_l on_left
                    low in
                (u, rw (two, l, r, e, run), s)
            | inr e ↦
                let low =
                  Least-child f right left (omega arith) on_right
                    (λ k pos lt h. ground (arith, child-cases i k pos h)) (λ lt. ground arith) in
                let (u, run, s) =
                  round fuel right f (siftdown_loop-Sifted fuel) enough (omega arith) lt_r on_right
                    low in
                (u, rw (two, l, r, e, run), s)
          ]
    ]

pub timer_siftdown-Sifted :
    {t : Timer} (i : ℕ)
    → i < t.size
    → t.size ≤ length t.heap
    → Filled t t.size
    → Sinking (time_at t) t.size i
    → (u : Timer) × (timer_siftdown t i ≡ ok u) × Sifted t u t.size (event_at t)
unfolding timer_siftdown
timer_siftdown-Sifted {t} i lt wide full v =
    let f : Falling t (event_at t i) i = record {
      lt = lt;
      wide = wide;
      ne = full i lt;
      full = full;
      sinking = Sinking-ext same v;
    } in
    let (u, run, s) = siftdown_loop-Sifted (t.size + 1) t (event_at t i) i f (omega arith) in
    (
      u,
      rw (cell-ok f i lt, run),
      record {
        wide = s.wide;
        same_size = s.same_size;
        same_cap = s.same_cap;
        filled = s.filled;
        ordered = s.ordered;
        time = s.time;
        period = s.period;
        same_events = λ x.
            s.same_events x
            ∙ tally-ext (hole t (event_at t i) i) (event_at t) t.size x (λ k lt_k. itself k);
      },
    )
  where
    itself : (k : ℕ) → hole t (event_at t i) i k ≡ event_at t k
    itself k = elim (Bool-cases (i == k)) [
      | inl e ↦ let here : i ≡ k = ground arith in rw e (ap (event_at t) here)
      | inr e ↦ rw e refl
    ]

    same : (k : ℕ) → hole_time t (event_at t i) i k ≡ time_at t k
    same k = elim (Bool-cases (k == i)) [
      | inl e ↦
          let here : k ≡ i = ground arith in
          hole_time-here t (event_at t i) i k here ∙ ap (time_at t) (sym here)
      | inr e ↦ hole_time-other t (event_at t i) i k (ground arith)
    ]
