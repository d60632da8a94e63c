-- ===== src/Timer/Update.antt =====
-- timer_update of src/timer/timer.c with callbacks that leave the timer alone.
use grt.Base.{
  ℕ, zero, suc, ◌+◌, ◌*◌, ◌≤◌, ◌<◌, ◌≡◌, ◌⊎◌, inl, inr, refl, arith, Bool-cases, ltb, ◌==◌, ap, ◌∙◌,
}
use grt.Base.Run.{Run, ok}
use grt.Timer.{Pointer, Timer, timer_update}
use grt.Timer.Tally.{tally-found}
use grt.Timer.Up.{event_at, time_at, IsTimer, load_event-ok}
use grt.Timer.Order.{Ordered-root}
use grt.Timer.Round.{count, Once, Fits, rounds, Round, fire_first-Round}

-- What is left of `t` when every event that was due at `now` has been called. A ticker has come to its
-- first time after `now`; every other event keeps its time.
pub record Updated (t u : Timer) (now : ℕ) : Type 0 where
  pub valid : IsTimer u
  pub same_cap : u.cap ≡ t.cap
  pub late : (k : ℕ) → k < u.size → now < time_at u k
  pub gone : (q : Pointer) → (t.events q).when ≤ now → (t.events q).period ≡ 0 → count u q ≡ 0
  pub stays :
      (q : Pointer) → (now < (t.events q).when) ⊎ (0 < (t.events q).period) → count u q ≡ count t q
  pub period : (q : Pointer) → (u.events q).period ≡ (t.events q).period
  pub time :
      (q : Pointer)
      → (m : ℕ) × ((u.events q).when ≡ (t.events q).when + m * (t.events q).period)
        × (0 < m → (u.events q).when ≤ now + (t.events q).period)

-- A round and then the others.
Round-Updated : {t v u : Timer} {now : ℕ} → Round t v now → Updated v u now → Updated t u now
Round-Updated {t} {v} {u} {now} r d = record {
  valid = d.valid;
  same_cap = d.same_cap ∙ r.same_cap;
  late = d.late;
  gone = λ q due single. gone q due single (r.time q);
  stays = λ q why. stays q why (r.time q) ∙ r.stays q why;
  period = λ q. d.period q ∙ r.period q;
  time = λ q. time q (r.time q) (d.time q);
}
  where
    Step : Pointer → Type 0
    Step q =
        ((v.events q).when ≡ (t.events q).when)
        ⊎ (((v.events q).when ≡ (t.events q).when + (t.events q).period)
            × ((t.events q).when ≤ now)
            × (0 < (t.events q).period))

    gone :
        (q : Pointer) → (t.events q).when ≤ now → (t.events q).period ≡ 0 → Step q → count u q ≡ 0
    gone q due single (inl e) = d.gone q (omega (arith, e, due)) (omega (arith, r.period q, single))
    gone q due single (inr (e, _, ticks)) = absurd (omega (arith, ticks, single))

    stays :
        (q : Pointer)
        → (now < (t.events q).when) ⊎ (0 < (t.events q).period)
        → Step q
        → count u q ≡ count v q
    stays q (inl late) (inl e) = d.stays q (inl (omega (arith, e, late)))
    stays q (inl late) (inr (e, due, ticks)) = absurd (omega (arith, late, due))
    stays q (inr ticks) e = d.stays q (inr (omega (arith, r.period q, ticks)))

    time :
        (q : Pointer)
        → Step q
        → (m : ℕ) × ((u.events q).when ≡ (v.events q).when + m * (v.events q).period)
          × (0 < m → (u.events q).when ≤ now + (v.events q).period)
        → (m : ℕ) × ((u.events q).when ≡ (t.events q).when + m * (t.events q).period)
          × (0 < m → (u.events q).when ≤ now + (t.events q).period)
    time q (inl e) (m, e', bound) = (
      m,
      e'
          ∙ ap (λ x. x + m * (v.events q).period) e
          ∙ ap (λ x. (t.events q).when + m * x) (r.period q),
      λ pos. omega (arith, bound pos, r.period q),
    )
    time q (inr (e, due, ticks)) (zero, e', bound) =
        (1, omega (arith, e', e), λ pos. omega (arith, e', e, due))
    time q (inr (e, due, ticks)) (suc m, e', bound) = (
      suc (suc m),
      e'
          ∙ ap (λ x. x + suc m * (v.events q).period) e
          ∙ ap (λ x. (t.events q).when + (t.events q).period + suc m * x) (r.period q)
          ∙ omega arith,
      λ pos. omega (arith, bound (omega arith), r.period q),
    )

module _ (call : Pointer → Pointer → Timer → Run Timer) (now : ℕ)
    (quiet : (callback user_data : Pointer) (t : Timer) → call callback user_data t ≡ ok t) where
  -- When callbacks leave the timer alone, the timer is in order, no event stands in it twice, and
  -- `now` plus the period of each event in it is below 2^32, then timer_update ends well with more
  -- fuel than units of time by which the events are late (each event counted from its time to
  -- `now`, both included): the timer is in order with the same capacity and no event in it is due;
  -- an event without a period that was due is gone, and every other event stands in it as before;
  -- and every time has grown by some periods, if any to no later than a period after `now`.
  pub timer_update-Updated :
      (fuel : ℕ) (t : Timer)
      → IsTimer t
      → Once t
      → Fits t now
      → rounds t now < fuel
      → (u : Timer) × (timer_update call fuel t now ≡ ok u) × Updated t u now
  unfolding timer_update
  timer_update-Updated zero t p once fits enough = absurd (omega arith)
  timer_update-Updated (suc fuel) t p once fits enough = elim (Bool-cases (t.size == 0)) [
    | inl empty ↦ (t, rw empty refl, ended (λ k lt. absurd (ground arith)))
    | inr some_events ↦
        let pos : 0 < t.size = ground arith in
        let cell = load_event-ok t 0 (omega (arith, p.cells, p.bounded)) (p.filled 0 pos) in
        elim (Bool-cases (ltb now (time_at t 0))) [
          | inl early ↦
              (t, rw (some_events, cell, early) refl, ended (λ k lt. later k (ground arith) lt))
          | inr due ↦
              let (v, run, r) = fire_first-Round p pos once fits (ground arith) in
              let (u, rest, d) =
                timer_update-Updated fuel v r.valid (λ q. omega (arith, r.fewer q, once q))
                  (λ q in_v. omega (arith, r.period q, fits q (omega (arith, r.fewer q, in_v))))
                  (omega (arith, r.less, enough)) in
              (
                u,
                rw
                    (
                      some_events,
                      cell,
                      due,
                      run,
                      quiet (v.events (event_at t 0)).callback (v.events (event_at t 0)).user_data
                          v,
                    )
                    rest,
                Round-Updated r d,
              )
        ]
  ]
    where
      later : (k : ℕ) → now < time_at t 0 → k < t.size → now < time_at t k
      later k first lt = omega (arith, first, Ordered-root k p.ordered lt)

      none_due :
          ((k : ℕ) → k < t.size → now < time_at t k)
          → (q : Pointer) → (t.events q).when ≤ now
          → count t q ≡ 0
      none_due late q due = elim (Bool-cases (count t q == 0)) [
        | inl e ↦ ground arith
        | inr e ↦
            let (k, lt, at) = tally-found (event_at t) t.size q (ground arith) in
            absurd (omega (arith, late k lt, ap (λ x. (t.events x).when) at, due))
      ]

      ended : ((k : ℕ) → k < t.size → now < time_at t k) → Updated t t now
      ended late = record {
        valid = p;
        same_cap = refl;
        late = late;
        gone = λ q due single. none_due late q due;
        stays = λ q why. refl;
        period = λ q. refl;
        time = λ q. (0, omega arith, λ pos. absurd (omega (arith, pos)));
      }
