-- ===== src/Timer/Fire.antt =====
-- What timer_update of src/timer/timer.c does for an event that is due.
use grt.Base.{
  ℕ, suc, ◌+◌, ◌-◌, ◌%◌, ◌^◌, ◌≤◌, ◌<◌, ◌≡◌, ◌≢◌, inl, inr, refl, true, false, Option, none, arith,
  length, Bool-cases, ltb, ◌==◌, if◌then◌else◌, sym, ap, subst, Bool, ◌&&◌, ◌∙◌,
}
use grt.Base.Run.{ok, store-ok}
use grt.Timer.{Pointer, Timer, fire_first, set_index, with_event}
use grt.Timer.Order.{parent, Ordered}
use grt.Timer.Tally.{tally}
use grt.Timer.Up.{event_at, time_at, Filled, IsTimer, when-set_index, period-set_index}
use grt.Timer.Down.{timer_siftdown-Sifted}
use grt.Timer.Replace.{dropped, replace, late-Sinking}
use grt.Timer.Remove.{Sifted-IsTimer, dropped-IsTimer, tally-dropped}

set_index-IsTimer :
    {t : Timer} (ev : Pointer) (k : Option ℕ) → IsTimer t → IsTimer (set_index t ev k)
set_index-IsTimer {t} ev k p = record {
  cells = p.cells;
  bounded = p.bounded;
  filled = p.filled;
  ordered = λ j pos lt. omega (
    arith,
    when-set_index t ev (event_at t j) k,
    when-set_index t ev (event_at t (parent j)) k,
    p.ordered j pos lt,
  );
}

-- the ticker with its next time
abbrev later : Timer → Pointer → Timer
later t ev =
    with_event t ev
      (record (t.events ev) { when = ((t.events ev).when + (t.events ev).period) % 2 ^ 32 })

-- The time of an event when the first one has got its next time, if it is a ticker.
abbrev pub next_time : Timer → Bool → Pointer → ℕ
next_time t ticker q =
    let e = t.events (event_at t 0) in
    if ticker && (q == event_at t 0) then (e.when + e.period) % 2 ^ 32 else (t.events q).when

-- What timer_update does for the first event leaves a timer of `n` events, without those that `gone`
-- counts.
abbrev pub Fires : Timer → ℕ → Bool → ((Pointer → ℕ) → ℕ) → Type 0
Fires t n ticker gone =
    (u : Timer) × (fire_first t (event_at t 0) ≡ ok u)
    × IsTimer u
    × (u.size ≡ n)
    × (u.cap ≡ t.cap)
    × ((x : Pointer → ℕ) → tally (event_at u) u.size x + gone x ≡ tally (event_at t) t.size x)
    × ((q : Pointer) → (u.events q).period ≡ (t.events q).period)
    × ((q : Pointer) → (u.events q).when ≡ next_time t ticker q)

later_period : (t : Timer) (ev q : Pointer) → ((later t ev).events q).period ≡ (t.events q).period
later_period t ev q = elim (Bool-cases (q == ev)) [
  | inl e ↦ let same : ev ≡ q = ground arith in rw e (ap (λ p. (t.events p).period) same)
  | inr e ↦ rw e refl
]

later_time :
    (t : Timer) (q : Pointer) → ((later t (event_at t 0)).events q).when ≡ next_time t true q
later_time t q = elim (Bool-cases (q == event_at t 0)) [ inl e ↦ rw e refl | inr e ↦ rw e refl ]

module _ {t : Timer} (p : IsTimer t) (some_event : 0 < t.size) where
  pub fire_ticker :
      ((k : ℕ) → k < t.size → event_at t k ≡ event_at t 0 → k ≡ 0)
      → 0 < (t.events (event_at t 0)).period
      → Fires t t.size true (λ x. 0)
  unfolding fire_first
  fire_ticker alone ticks =
      let ticker : ltb 0 (t.events (event_at t 0)).period ≡ true = ground arith in
      let (u, run, s) =
        timer_siftdown-Sifted {t = later t (event_at t 0)} 0 some_event
          (omega (arith, p.cells, p.bounded)) p.filled
          (record {
            edges = λ k pos lt ne. omega (
              arith,
              same k lt (omega arith),
              same (parent k) (omega arith) ne,
              p.ordered k pos lt,
            );
            bridge = λ k pos lt pos' e. absurd (omega arith);
          }) in
      (
        u,
        rw (ticker, run) refl,
        record {
          cells = omega (arith, s.wide, s.same_cap, p.cells);
          bounded = omega (arith, s.same_size, s.same_cap, p.bounded);
          filled = subst (Filled u) (sym s.same_size) s.filled;
          ordered = subst (Ordered (time_at u)) (sym s.same_size) s.ordered;
        },
        s.same_size,
        s.same_cap,
        λ x. omega (arith, s.same_events x, ap (λ n. tally (event_at u) n x) s.same_size),
        λ q. s.period q ∙ later_period t (event_at t 0) q,
        λ q. s.time q ∙ later_time t q,
      )
    where
      same : (k : ℕ) → k < t.size → k ≢ 0 → time_at (later t (event_at t 0)) k ≡ time_at t k
      same k lt ne = elim (Bool-cases (event_at t k == event_at t 0)) [
        | inl e ↦ absurd (ne (alone k lt (ground arith)))
        | inr e ↦ rw (e, time_at) refl
      ]

  pub fire_once :
      (t.events (event_at t 0)).period ≡ 0 → Fires t (t.size - 1) false (λ x. x (event_at t 0))
  unfolding fire_first
  fire_once once =
      let last = t.size - 1 in
      let end : suc last ≡ t.size = omega arith in
      let no_ticker : ltb 0 (t.events (event_at t 0)).period ≡ false = ground arith in
      elim (Bool-cases (ltb 0 last)) [
        | inr single ↦
            let here = store-ok t.heap last 0 (omega (arith, p.cells, p.bounded)) in
            (
              set_index (dropped t last) (event_at t 0) none,
              rw (no_ticker, single, here) refl,
              set_index-IsTimer (event_at t 0) none (dropped-IsTimer last p end),
              refl,
              refl,
              λ x.
                  let same : last ≡ 0 = ground arith in
                  let first = ap (λ k. x (event_at t k)) same in
                  omega (arith, tally-dropped last p end x, first),
              λ q. period-set_index (dropped t last) (event_at t 0) q none,
              λ q. when-set_index (dropped t last) (event_at t 0) q none,
            )
        | inl more ↦
            let before : 0 < last = ground arith in
            let (v, loaded, placed, stored, r) = replace p 0 last end before in
            let wide : last ≤ length (dropped v last).heap =
              omega (arith, r.wide, p.cells, p.bounded) in
            let (u, run, s) =
              timer_siftdown-Sifted {t = dropped v last} 0 before wide r.full
                (late-Sinking p.ordered r before (inl refl)) in
            let (q, less, cap, gone) = Sifted-IsTimer p r s in
            (
              set_index u (event_at t 0) none,
              rw (no_ticker, more, loaded, placed, stored, run) refl,
              set_index-IsTimer (event_at t 0) none q,
              omega (arith, less),
              cap,
              gone,
              λ q. period-set_index u (event_at t 0) q none ∙ s.period q ∙ r.period q,
              λ q. when-set_index u (event_at t 0) q none ∙ s.time q ∙ r.time q,
            )
      ]

  -- On a timer in order that has an event, whose first event stands in no other cell, what
  -- timer_update does before the callback ends well with a timer in order of the same capacity: a
  -- ticker stays, with all the events; another first event is gone, and every event else stands
  -- there as often as before.
  pub fire_first-IsTimer :
      ((k : ℕ) → k < t.size → event_at t k ≡ event_at t 0 → k ≡ 0)
      → let ticker = ltb 0 (t.events (event_at t 0)).period in
        Fires t
          (if ticker then t.size else t.size - 1)
          ticker
          (λ x. if ticker then 0 else x (event_at t 0))
  fire_first-IsTimer alone = elim (Bool-cases (ltb 0 (t.events (event_at t 0)).period)) [
    | inl e ↦ rw e (fire_ticker alone (ground arith))
    | inr e ↦ rw e (fire_once (ground arith))
  ]
