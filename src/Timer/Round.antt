-- ===== src/Timer/Round.antt =====
-- A round of timer_update in src/timer/timer.c with a callback that leaves the timer alone: an event
-- that is due goes on or is gone, and less is left to do.
use grt.Base.{
  ℕ, ◌+◌, ◌-◌, ◌%◌, ◌^◌, ◌≤◌, ◌<◌, ◌≡◌, ◌⊎◌, inl, inr, refl, true, arith, Bool-cases, ltb, ◌==◌, ap,
  subst, ◌∙◌,
}
use grt.Base.Run.{ok}
use grt.Timer.{Pointer, Timer, fire_first}
use grt.Timer.Tally.{one_if, tally, tally-add, tally-cell, tally_once}
use grt.Timer.Up.{event_at, time_at, IsTimer}
use grt.Timer.Fire.{next_time, fire_ticker, fire_once}

-- The event is in the heap so often.
abbrev pub count : Timer → Pointer → ℕ
count t q = tally (event_at t) t.size (one_if q)

abbrev pub Once : Timer → Type 0
Once t = (q : Pointer) → count t q ≤ 1

-- The next time of an event that is due is a time.
abbrev pub Fits : Timer → ℕ → Type 0
Fits t now = (q : Pointer) → 0 < count t q → now + (t.events q).period < 2 ^ 32

-- An upper bound for the rounds: each takes a due event on by a unit of time, or out of the heap.
abbrev pub due_for : Timer → ℕ → Pointer → ℕ
due_for t now q = now + 1 - (t.events q).when

abbrev pub rounds : Timer → ℕ → ℕ
rounds t now = tally (event_at t) t.size (due_for t now)

-- What a round keeps and what it changes.
pub record Round (t u : Timer) (now : ℕ) : Type 0 where
  pub valid : IsTimer u
  pub same_cap : u.cap ≡ t.cap
  pub fewer : (q : Pointer) → count u q ≤ count t q
  pub less : rounds u now < rounds t now
  pub period : (q : Pointer) → (u.events q).period ≡ (t.events q).period
  pub stays :
      (q : Pointer) → (now < (t.events q).when) ⊎ (0 < (t.events q).period) → count u q ≡ count t q
  pub time :
      (q : Pointer)
      → ((u.events q).when ≡ (t.events q).when)
        ⊎ (((u.events q).when ≡ (t.events q).when + (t.events q).period)
            × ((t.events q).when ≤ now)
            × (0 < (t.events q).period))

module _ {t : Timer} {now : ℕ} (p : IsTimer t) (some_event : 0 < t.size) (once : Once t)
    (fits : Fits t now) (due : time_at t 0 ≤ now) where
  there : 1 ≤ count t (event_at t 0)
  there =
      let one : one_if (event_at t 0) (event_at t 0) ≡ 1 = ground arith in
      omega (arith, one, tally-cell (event_at t) t.size 0 (one_if (event_at t 0)) some_event)

  alone : (k : ℕ) → k < t.size → event_at t k ≡ event_at t 0 → k ≡ 0
  alone k lt e = tally_once (event_at t) t.size k 0 (once (event_at t 0)) lt some_event e

  ticker-Round :
      0 < (t.events (event_at t 0)).period
      → (u : Timer) × (fire_first t (event_at t 0) ≡ ok u) × Round t u now
  ticker-Round ticks =
      let (u, run, valid, size, cap, cells, period, time) = fire_ticker p some_event alone ticks in
      (
        u,
        run,
        record {
          valid = valid;
          same_cap = cap;
          fewer = λ q. omega (arith, cells (one_if q));
          less = fewer_left u cells time;
          period = period;
          stays = λ q why. omega (arith, cells (one_if q));
          time = λ q. next q (time q);
        },
      )
    where
      step :
          ((t.events (event_at t 0)).when + (t.events (event_at t 0)).period) % 2 ^ 32
          ≡ (t.events (event_at t 0)).when + (t.events (event_at t 0)).period
      step = omega (arith, due, fits (event_at t 0) there)

      next :
          (q : Pointer) {w : ℕ}
          → w ≡ next_time t true q
          → (w ≡ (t.events q).when)
            ⊎ ((w ≡ (t.events q).when + (t.events q).period)
                × ((t.events q).when ≤ now)
                × (0 < (t.events q).period))
      next q {w} e = elim (Bool-cases (q == event_at t 0)) [
        | inl is ↦
            let same : event_at t 0 ≡ q = ground arith in
            subst
              (λ x.
                (w ≡ (t.events x).when)
                ⊎ ((w ≡ (t.events x).when + (t.events x).period)
                    × ((t.events x).when ≤ now)
                    × (0 < (t.events x).period)))
              same (inr (e ∙ rw is step, due, ticks))
        | inr other ↦ inl (e ∙ rw other refl)
      ]

      due_less :
          (u : Timer) (q : Pointer)
          → (u.events (event_at t 0)).when ≡ next_time t true (event_at t 0)
          → (u.events q).when ≡ next_time t true q
          → due_for u now q + one_if (event_at t 0) q ≤ due_for t now q
      due_less u q e e' = elim (Bool-cases (q == event_at t 0)) [
        | inl is ↦
            let same : event_at t 0 ≡ q = ground arith in
            let self : (event_at t 0 == event_at t 0) ≡ true = ground arith in
            let on : (u.events (event_at t 0)).when
                ≡ (t.events (event_at t 0)).when + (t.events (event_at t 0)).period =
              e ∙ rw self step in
            let one : one_if (event_at t 0) (event_at t 0) ≡ 1 = ground arith in
            subst (λ x. due_for u now x + one_if (event_at t 0) x ≤ due_for t now x) same
              (omega (arith, on, one, due, ticks))
        | inr other ↦
            let kept : (u.events q).when ≡ (t.events q).when = e' ∙ rw other refl in
            let none_here : one_if (event_at t 0) q ≡ 0 = rw other refl in
            omega (arith, kept, none_here)
      ]

      fewer_left :
          (u : Timer)
          → ((x : Pointer → ℕ) → tally (event_at u) u.size x + 0 ≡ tally (event_at t) t.size x)
          → ((q : Pointer) → (u.events q).when ≡ next_time t true q)
          → rounds u now < rounds t now
      fewer_left u cells time = omega (
        arith,
        there,
        cells (due_for t now),
        cells (one_if (event_at t 0)),
        tally-add (event_at u) u.size (due_for u now) (one_if (event_at t 0)) (due_for t now)
            (λ q. due_less u q (time (event_at t 0)) (time q)),
      )

  once-Round :
      (t.events (event_at t 0)).period ≡ 0
      → (u : Timer) × (fire_first t (event_at t 0) ≡ ok u) × Round t u now
  once-Round single =
      let (u, run, valid, size, cap, cells, period, time) = fire_once p some_event single in
      (
        u,
        run,
        record {
          valid = valid;
          same_cap = cap;
          fewer = λ q. omega (arith, cells (one_if q));
          less = omega (
            arith,
            due,
            cells (due_for t now),
            tally-add (event_at u) u.size (due_for u now) (λ x. 0) (due_for t now)
                (λ q. omega (arith, time q)),
          );
          period = period;
          stays = λ q why. omega (arith, cells (one_if q), not_first q why);
          time = λ q. inl (time q);
        },
      )
    where
      not_first :
          (q : Pointer)
          → (now < (t.events q).when) ⊎ (0 < (t.events q).period)
          → one_if q (event_at t 0) ≡ 0
      not_first q why = elim (Bool-cases (event_at t 0 == q)) [
        | inr e ↦ rw e refl
        | inl e ↦
            let same : event_at t 0 ≡ q = ground arith in
            let time = ap (λ x. (t.events x).when) same in
            let period = ap (λ x. (t.events x).period) same in
            elim why [
              | inl late ↦ absurd (omega (arith, late, time, due))
              | inr ticks ↦ absurd (omega (arith, ticks, period, single))
            ]
      ]

  pub fire_first-Round : (u : Timer) × (fire_first t (event_at t 0) ≡ ok u) × Round t u now
  fire_first-Round = elim (Bool-cases (ltb 0 (t.events (event_at t 0)).period)) [
    | inl e ↦ ticker-Round (ground arith)
    | inr e ↦ once-Round (ground arith)
  ]
