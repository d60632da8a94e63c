-- ===== src/Timer/Remove.antt =====
-- timer_del of src/timer/timer.c.
use grt.Base.{
  ℕ, zero, suc, ◌+◌, ◌-◌, ◌≤◌, ◌<◌, ◌≡◌, ◌≢◌, ◌⊎◌, inl, inr, refl, true, false, some, arith, length,
  length-set, Bool-cases, leb, ◌==◌, ◌||◌, sym, ◌∙◌, ap, subst,
}
use grt.Base.Run.{ok, store-ok}
use grt.Timer.{Pointer, Timer, siftup_loop, timer_siftup, timer_siftdown, timer_del}
use grt.Timer.Order.{parent, Ordered}
use grt.Timer.Sink.{Ordered-Sinking}
use grt.Timer.Tally.{tally, tally-ext}
use grt.Timer.Up.{
  event_at, time_at, Filled, IsTimer, load_event-ok, get_or-set, Sifted, timer_siftup-Sifted,
}
use grt.Timer.Down.{timer_siftdown-Sifted}
use grt.Timer.Replace.{dropped, Replaced, replace, late-Sinking, early-Rising}

siftup_stays :
    (fuel : ℕ) (t : Timer) (i : ℕ)
    → i < fuel
    → i < t.size
    → t.size ≤ length t.heap
    → Filled t t.size
    → (i ≡ 0) ⊎ (time_at t (parent i) ≤ time_at t i)
    → siftup_loop fuel t (event_at t i) i ≡ ok t
unfolding siftup_loop
siftup_stays zero t i h lt wide full why = absurd (omega arith)
siftup_stays (suc fuel) t i h lt wide full why = elim (Bool-cases (i == 0)) [
  | inl top ↦ rw top refl
  | inr low ↦
      let cell =
        load_event-ok t (parent i) (omega (arith, wide)) (full (parent i) (omega (arith, lt))) in
      elim why [
        | inl e ↦ absurd (ground arith)
        | inr le ↦
            let stays : leb (time_at t (parent i)) (time_at t i) ≡ true = ground arith in
            rw (low, cell, stays) refl
      ]
]

-- timer_siftup and then timer_siftdown give the cells their order again.
sift_both :
    {t v : Timer} {i : ℕ}
    → IsTimer t
    → Replaced t v i
    → i < v.size
    → (w : Timer) × (u : Timer) × (timer_siftup v i ≡ ok w)
      × (timer_siftdown w i ≡ ok u)
      × Sifted v u v.size (event_at v)
unfolding timer_siftup
sift_both {t} {v} {i} p r lt =
    elim (Bool-cases ((i == 0) || leb (time_at v (parent i)) (time_at v i))) [
      | inl late ↦
          let why : (i ≡ 0) ⊎ (time_at v (parent i) ≤ time_at v i) = ground arith in
          let (u, run, s) =
            timer_siftdown-Sifted {t = v} i lt wide r.full (late-Sinking p.ordered r lt why) in
          let stays = siftup_stays (i + 1) v i (omega arith) lt wide r.full why in
          (v, u, rw (load_event-ok v i (omega (arith, lt, wide)) (r.full i lt), stays) refl, run, s)
      | inr early ↦
          let pos : 0 < i = ground arith in
          let before : time_at v i < time_at v (parent i) = ground arith in
          let (w, up, s) =
            timer_siftup-Sifted v v.size i lt wide r.full
              (early-Rising p.ordered r lt pos before) in
          let lt' : i < w.size = omega (arith, s.same_size, lt) in
          let (u, down, s') =
            timer_siftdown-Sifted {t = w} i lt' (omega (arith, s.wide, s.same_size, wide))
              (subst (Filled w) (sym s.same_size) s.filled)
              (Ordered-Sinking lt' (subst (Ordered (time_at w)) (sym s.same_size) s.ordered)) in
          (w, u, up, down, both s (subst (λ n. Sifted w u n (event_at w)) s.same_size s'))
    ]
  where
    wide : v.size ≤ length v.heap
    wide = omega (arith, r.one_less, r.wide, p.cells, p.bounded)

    both :
        {w u : Timer}
        → Sifted v w v.size (event_at v)
        → Sifted w u v.size (event_at w)
        → Sifted v u v.size (event_at v)
    both s s' = record {
      wide = s'.wide ∙ s.wide;
      same_size = s'.same_size ∙ s.same_size;
      same_cap = s'.same_cap ∙ s.same_cap;
      filled = s'.filled;
      ordered = s'.ordered;
      time = λ x. s'.time x ∙ s.time x;
      period = λ x. s'.period x ∙ s.period x;
      same_events = λ x. s'.same_events x ∙ s.same_events x;
    }

-- A timer again, of one event less.
pub Sifted-IsTimer :
    {t v u : Timer} {i : ℕ}
    → IsTimer t
    → Replaced t v i
    → Sifted v u v.size (event_at v)
    → IsTimer u
      × (suc u.size ≡ t.size)
      × (u.cap ≡ t.cap)
      × ((x : Pointer → ℕ)
          → tally (event_at u) u.size x + x (event_at t i) ≡ tally (event_at t) t.size x)
Sifted-IsTimer {u = u} p r s = (
  record {
    cells = omega (arith, s.wide, s.same_cap, r.wide, r.same_cap, p.cells);
    bounded = omega (arith, s.same_size, s.same_cap, r.one_less, r.same_cap, p.bounded);
    filled = subst (Filled u) (sym s.same_size) s.filled;
    ordered = subst (Ordered (time_at u)) (sym s.same_size) s.ordered;
  },
  omega (arith, s.same_size, r.one_less),
  s.same_cap ∙ r.same_cap,
  λ x. omega (arith, ap (λ n. tally (event_at u) n x) s.same_size, s.same_events x, r.one_gone x),
)

pub dropped-IsTimer :
    {t : Timer} (last : ℕ) → IsTimer t → suc last ≡ t.size → IsTimer (dropped t last)
dropped-IsTimer {t} last p end = record {
  cells = length-set t.heap last 0 ∙ p.cells;
  bounded = omega (arith, p.bounded);
  filled = λ k lt. ground (arith, same k lt, p.filled k (omega arith));
  ordered = λ k pos lt.
      omega (arith, time k lt, time (parent k) (omega arith), p.ordered k pos (omega arith));
}
  where
    inside : last < length t.heap
    inside = omega (arith, p.cells, p.bounded, end)

    same : (k : ℕ) → k < last → event_at (dropped t last) k ≡ event_at t k
    same k lt =
        let other : (last == k) ≡ false = ground arith in
        ground (arith, get_or-set t.heap last k 0 inside)

    time : (k : ℕ) → k < last → time_at (dropped t last) k ≡ time_at t k
    time k lt = ap (λ q. (t.events q).when) (same k lt)

pub tally-dropped :
    {t : Timer} (last : ℕ)
    → IsTimer t
    → suc last ≡ t.size
    → (x : Pointer → ℕ)
    → tally (event_at (dropped t last)) last x + x (event_at t last) ≡ tally (event_at t) t.size x
tally-dropped {t} last p end x =
    let inside : last < length t.heap = omega (arith, p.cells, p.bounded, end) in
    let cells =
      tally-ext (event_at (dropped t last)) (event_at t) last x
        (λ k lt. ground (arith, get_or-set t.heap last k 0 inside)) in
    omega (arith, cells, ap (λ n. tally (event_at t) n x) end)

-- On a timer in order, timer_del of an event other than NULL whose index names a cell in use that
-- holds it ends well with a timer in order of one event less and the same capacity, in which any
-- weights of events add up to what they did before without the weight of that event.
pub timer_del-IsTimer :
    {t : Timer} (ev i : ℕ)
    → IsTimer t
    → ev ≢ 0
    → (t.events ev).i ≡ some i
    → i < t.size
    → event_at t i ≡ ev
    → (u : Timer) × (timer_del t ev ≡ ok u)
      × IsTimer u
      × (suc u.size ≡ t.size)
      × (u.cap ≡ t.cap)
      × ((x : Pointer → ℕ) → tally (event_at u) u.size x + x ev ≡ tally (event_at t) t.size x)
unfolding timer_del
timer_del-IsTimer {t} ev i p ne index lt at =
    let last = t.size - 1 in
    let end : suc last ≡ t.size = omega arith in
    let guard : ((ev == 0) || (t.size == 0)) ≡ false = ground arith in
    elim (Bool-cases (i == last)) [
      | inl e ↦
          let here = store-ok t.heap last 0 (omega (arith, p.cells, p.bounded)) in
          (
            dropped t last,
            rw (guard, index, e, here) refl,
            dropped-IsTimer last p end,
            end,
            refl,
            λ x.
                let same : i ≡ last = ground arith in
                let gone = ap x (sym at ∙ ap (event_at t) same) in
                omega (arith, tally-dropped last p end x, gone),
          )
      | inr e ↦
          let before : i < last = ground arith in
          let (u, loaded, placed, stored, r) = replace p i last end before in
          let (w, x, up, down, s) = sift_both p r before in
          let (q, less, cap, gone) = Sifted-IsTimer p r s in
          (
            x,
            rw (guard, index, e, loaded, placed, stored, up, down) refl,
            q,
            less,
            cap,
            λ y. omega (arith, gone y, ap y at),
          )
    ]
