-- ===== src/Timer/Hole.antt =====
-- A step of timer_siftdown in src/timer/timer.c. While it runs, the cell that the moved event `tmp` has
-- reached still holds another one.
use grt.Base.{
  ℕ, ◌+◌, ◌*◌, ◌≤◌, ◌<◌, ◌≡◌, ◌≢◌, ◌⊎◌, inl, inr, refl, true, false, arith, length, Bool-cases,
  ◌==◌, if◌then◌else◌, sym, ◌∙◌, ap,
}
use grt.Base.Run.{ok}
use grt.Timer.{Pointer, Timer, place}
use grt.Timer.Order.{parent, Ordered}
use grt.Timer.Tally.{tally, tally-ext, tally-swap}
use grt.Timer.Sink.{lowered, lowered-child, lowered-here, lowered-other}
use grt.Timer.Up.{event_at, time_at, Filled, Placed, place-Placed, Sifted}

-- the event in cell `k` when `tmp` is taken to be in cell `i`
abbrev pub hole : Timer → Pointer → ℕ → ℕ → Pointer
hole t tmp i k = if i == k then tmp else event_at t k

-- the time of cell `k` when `tmp` is taken to be in cell `i`
unfoldable pub hole_time : Timer → Pointer → ℕ → ℕ → ℕ
hole_time t tmp i k = (t.events (hole t tmp i k)).when

module _ (t : Timer) (tmp : Pointer) (i k : ℕ) where
  pub hole_time-here : k ≡ i → hole_time t tmp i k ≡ (t.events tmp).when
  unfolding hole_time
  hole_time-here e = let same : (i == k) ≡ true = ground arith in rw (same, hole_time) refl

  pub hole_time-other : k ≢ i → hole_time t tmp i k ≡ time_at t k
  unfolding hole_time
  hole_time-other ne = let other : (i == k) ≡ false = ground arith in rw (other, hole_time) refl

pub child-cases : (i k : ℕ) → 0 < k → parent k ≡ i → (k ≡ 2 * i + 1) ⊎ (k ≡ 2 * (i + 1))
child-cases i k pos e = elim (Bool-cases (k == 2 * i + 1)) [
  | inl h ↦ inl (ground arith)
  | inr h ↦ let other : k ≢ 2 * i + 1 = ground arith in inr (omega arith)
]

module _ {t u : Timer} (tmp : Pointer) {i m : ℕ} (p : Placed t u i (event_at t m))
    (ne : m ≢ i) where
  pub moved_time : (k : ℕ) → hole_time u tmp m k ≡ lowered (hole_time t tmp i) i m k
  moved_time k = elim (Bool-cases (k == m)) [
    | inl e ↦
        let same : k ≡ m = ground arith in
        hole_time-here u tmp m k same
        ∙ p.time tmp
        ∙ sym (hole_time-here t tmp i i refl)
        ∙ sym (lowered-child (hole_time t tmp i) i m k same)
    | inr e ↦
        let other : k ≢ m = ground arith in
        hole_time-other u tmp m k other ∙ p.time (event_at u k) ∙ elim (Bool-cases (k == i)) [
          | inl e' ↦
              let here : k ≡ i = ground arith in
              let cell : event_at u k ≡ event_at t m = ground (arith, p.cell k) in
              ap (λ q. (t.events q).when) cell
              ∙ sym (hole_time-other t tmp i m ne)
              ∙ sym (lowered-here (hole_time t tmp i) i m k other here)
          | inr e' ↦
              let far : k ≢ i = ground arith in
              let cell : event_at u k ≡ event_at t k = ground (arith, p.cell k) in
              ap (λ q. (t.events q).when) cell
              ∙ sym (hole_time-other t tmp i k far)
              ∙ sym (lowered-other (hole_time t tmp i) i m k other far)
        ]
  ]

  pub moved-Filled : {n : ℕ} → m < n → Filled t n → Filled u n
  moved-Filled lt full k lt_k = elim (Bool-cases (i == k)) [
    | inl e ↦ ground (arith, p.cell k, full m lt)
    | inr e ↦ ground (arith, p.cell k, full k lt_k)
  ]

  pub moved_tally :
      {n : ℕ}
      → i < n
      → m < n
      → (x : Pointer → ℕ) → tally (hole u tmp m) n x ≡ tally (hole t tmp i) n x
  moved_tally {n} lt_i lt_m x =
      tally-swap (hole t tmp i) (hole u tmp m) i m n x lt_i lt_m (λ e. ne (sym e))
        (λ k. ground (arith, p.cell k))

-- The event is put down where it belongs.
pub finish :
    (t : Timer) (tmp : Pointer) (n i : ℕ)
    → i < n
    → n ≤ length t.heap
    → tmp ≢ 0
    → Filled t n
    → Ordered (hole_time t tmp i) n
    → (u : Timer) × (place t i tmp ≡ ok u) × Sifted t u n (hole t tmp i)
unfolding hole_time
finish t tmp n i lt wide ne full o =
    let (u, run, p) = place-Placed t i tmp (omega arith) in
    (
      u,
      run,
      record {
        wide = p.wide;
        same_size = p.same_size;
        same_cap = p.same_cap;
        filled = λ k lt_k. filled k lt_k p;
        ordered = λ k pos_k lt_k. omega (arith, time k p, time (parent k) p, o k pos_k lt_k);
        time = p.time;
        period = p.period;
        same_events = λ x. tally-ext (event_at u) (hole t tmp i) n x (λ k lt_k. p.cell k);
      },
    )
  where
    filled : {u : Timer} (k : ℕ) → k < n → Placed t u i tmp → event_at u k ≢ 0
    filled k lt_k p = elim (Bool-cases (i == k)) [
      | inl e ↦ ground (arith, p.cell k, ne)
      | inr e ↦ ground (arith, p.cell k, full k lt_k)
    ]

    time : {u : Timer} (k : ℕ) → Placed t u i tmp → time_at u k ≡ hole_time t tmp i k
    time {u = u} k p = p.time (event_at u k) ∙ ap (λ q. (t.events q).when) (p.cell k)

pub Sifted-behind :
    {t u v : Timer} {n i : ℕ} {ev : Pointer} (f g : ℕ → Pointer)
    → ((x : Pointer → ℕ) → tally g n x ≡ tally f n x)
    → Placed t u i ev
    → Sifted u v n g
    → Sifted t v n f
Sifted-behind f g kept p s = record {
  wide = s.wide ∙ p.wide;
  same_size = s.same_size ∙ p.same_size;
  same_cap = s.same_cap ∙ p.same_cap;
  filled = s.filled;
  ordered = s.ordered;
  time = λ x. s.time x ∙ p.time x;
  period = λ x. s.period x ∙ p.period x;
  same_events = λ x. s.same_events x ∙ kept x;
}
