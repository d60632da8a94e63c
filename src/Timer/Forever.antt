-- ===== src/Timer/Forever.antt =====
-- timer_update of src/timer/timer.c at the last time that an unsigned int can be.
use grt.Base.{
  ℕ, zero, suc, ◌-◌, ◌^◌, ◌<◌, ◌≡◌, refl, Bool, true, false, arith, inl, inr, Bool-cases, ltb, ◌==◌,
  ◌&&◌, ap,
}
use grt.Base.Run.{Run, ok, spent}
use grt.Timer.{Pointer, Timer, timer_update, fire_first}
use grt.Timer.Tally.{one_if, tally_once, tally-found}
use grt.Timer.Up.{event_at, IsTimer, load_event-ok}
use grt.Timer.Fire.{next_time, fire_ticker, fire_once}
use grt.Timer.Round.{count, Once}

-- A ticker in a timer in order, and times that are unsigned ints.
pub record Ticks (t : Timer) (q : Pointer) : Type 0 where
  pub valid : IsTimer t
  pub once : Once t
  pub inside : 0 < count t q
  pub ticks : 0 < (t.events q).period
  pub small : (x : Pointer) → (t.events x).when < 2 ^ 32

module _ {t : Timer} {q : Pointer} (c : Ticks t q) where
  some_event : 0 < t.size
  some_event = let (k, lt, at) = tally-found (event_at t) t.size q c.inside in omega (arith, lt)

  alone : (k : ℕ) → k < t.size → event_at t k ≡ event_at t 0 → k ≡ 0
  alone k lt e = tally_once (event_at t) t.size k 0 (c.once (event_at t 0)) lt some_event e

  next-small : (b : Bool) (x : Pointer) → next_time t b x < 2 ^ 32
  next-small b x = elim (Bool-cases (b && (x == event_at t 0))) [
    | inl e ↦ rw e (omega arith)
    | inr e ↦ rw e (c.small x)
  ]

  fire_first-Ticks : (u : Timer) × (fire_first t (event_at t 0) ≡ ok u) × Ticks u q
  fire_first-Ticks = elim (Bool-cases (ltb 0 (t.events (event_at t 0)).period)) [
    | inl e ↦
        let (u, run, valid, size, cap, cells, period, time) =
          fire_ticker c.valid some_event alone (ground arith) in
        (
          u,
          run,
          record {
            valid = valid;
            once = λ x. omega (arith, cells (one_if x), c.once x);
            inside = omega (arith, cells (one_if q), c.inside);
            ticks = omega (arith, period q, c.ticks);
            small = λ x. omega (arith, time x, next-small true x);
          },
        )
    | inr e ↦
        let single : (t.events (event_at t 0)).period ≡ 0 = ground arith in
        let (u, run, valid, size, cap, cells, period, time) = fire_once c.valid some_event single in
        (
          u,
          run,
          record {
            valid = valid;
            once = λ x. omega (arith, cells (one_if x), c.once x);
            inside = omega (arith, cells (one_if q), c.inside, other single);
            ticks = omega (arith, period q, c.ticks);
            small = λ x. omega (arith, time x, c.small x);
          },
        )
  ]
    where
      other : (t.events (event_at t 0)).period ≡ 0 → one_if q (event_at t 0) ≡ 0
      other single = elim (Bool-cases (event_at t 0 == q)) [
        | inr e ↦ rw e refl
        | inl e ↦
            let same : event_at t 0 ≡ q = ground arith in
            absurd (omega (arith, c.ticks, ap (λ x. (t.events x).period) same, single))
      ]

module _ (call : Pointer → Pointer → Timer → Run Timer)
    (quiet : (callback user_data : Pointer) (t : Timer) → call callback user_data t ≡ ok t) where
  -- When callbacks leave the timer alone, the timer is in order, no event stands in it twice,
  -- every time is below 2^32 and an event in it has a period, then timer_update at the time 2^32 -
  -- 1 uses up any fuel: its loop never ends.
  pub timer_update-spent :
      (fuel : ℕ) (t : Timer) (q : Pointer)
      → Ticks t q
      → timer_update call fuel t (2 ^ 32 - 1) ≡ spent
  unfolding timer_update
  timer_update-spent zero t q c = refl
  timer_update-spent (suc fuel) t q c =
      let pos = some_event c in
      let p = c.valid in
      let some_events : (t.size == 0) ≡ false = ground arith in
      let cell = load_event-ok t 0 (omega (arith, p.cells, p.bounded)) (p.filled 0 pos) in
      let due : ltb (2 ^ 32 - 1) (t.events (event_at t 0)).when ≡ false =
        ground (arith, c.small (event_at t 0)) in
      let (v, run, next) = fire_first-Ticks c in
      let called = quiet (v.events (event_at t 0)).callback (v.events (event_at t 0)).user_data v in
      rw (some_events, cell, due, run, called) (timer_update-spent fuel v q next)
