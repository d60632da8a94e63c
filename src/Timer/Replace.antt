-- ===== src/Timer/Replace.antt =====
-- A removal from the heap of src/timer/timer.c: the last event takes the place of another one.
use grt.Base.{
  ◌+◌, ℕ, suc, ◌≤◌, ◌<◌, ◌≡◌, ◌≢◌, ◌⊎◌, inl, inr, false, arith, length, length-set, set, Bool-cases,
  ◌==◌, if◌then◌else◌, ◌∙◌, ap, subst,
}
use grt.Base.Run.{ok, store, store-ok}
use grt.Timer.{Pointer, Timer, place, load_event}
use grt.Timer.Order.{parent, Ordered, Rising}
use grt.Timer.Sink.{Sinking}
use grt.Timer.Tally.{tally, tally-ext, put_cell, tally-put_cell}
use grt.Timer.Up.{
  event_at, time_at, Filled, IsTimer, load_event-ok, get_or-set, Placed, place-Placed,
}

abbrev pub dropped : Timer → ℕ → Timer
dropped u last = record u { heap = set u.heap last 0; size = last }

-- `v` is `t` without its last cell, whose event is in cell `i` instead.
pub record Replaced (t v : Timer) (i : ℕ) : Type 0 where
  pub one_less : suc v.size ≡ t.size
  pub wide : length v.heap ≡ length t.heap
  pub same_cap : v.cap ≡ t.cap
  pub full : Filled v v.size
  pub at : time_at v i ≡ time_at t v.size
  pub beside : (k : ℕ) → k < v.size → k ≢ i → time_at v k ≡ time_at t k
  pub time : (p : Pointer) → (v.events p).when ≡ (t.events p).when
  pub period : (p : Pointer) → (v.events p).period ≡ (t.events p).period
  pub one_gone :
      (x : Pointer → ℕ)
      → tally (event_at v) v.size x + x (event_at t i) ≡ tally (event_at t) t.size x

module _ {t : Timer} (v : IsTimer t) (i last : ℕ) (end : suc last ≡ t.size) (lt : i < last) where
  pub replace :
      (u : Timer) × (load_event t last ≡ ok (event_at t last))
      × (place t i (event_at t last) ≡ ok u)
      × (store u.heap last 0 ≡ ok (set u.heap last 0))
      × Replaced t (dropped u last) i
  replace =
      let inside : last < length t.heap = omega (arith, v.cells, v.bounded, end) in
      let (u, run, p) = place-Placed t i (event_at t last) (omega arith) in
      let inside' : last < length u.heap = omega (arith, p.wide) in
      (
        u,
        load_event-ok t last inside (v.filled last (omega arith)),
        run,
        store-ok u.heap last 0 inside',
        record {
          one_less = end;
          wide = length-set u.heap last 0 ∙ p.wide;
          same_cap = p.same_cap;
          full = λ k lt_k. full k lt_k p inside';
          at = here p inside';
          beside = λ k lt_k ne. beside k lt_k ne p inside';
          time = p.time;
          period = p.period;
          one_gone = λ x. one_gone x p inside';
        },
      )
    where
      cell :
          {u : Timer} (k : ℕ)
          → k < last
          → Placed t u i (event_at t last)
          → last < length u.heap
          → event_at (dropped u last) k ≡ (if i == k then event_at t last else event_at t k)
      cell {u = u} k lt_k p inside' =
          let other : (last == k) ≡ false = ground arith in
          ground (arith, get_or-set u.heap last k 0 inside', p.cell k)

      full :
          {u : Timer} (k : ℕ)
          → k < last
          → Placed t u i (event_at t last)
          → last < length u.heap
          → event_at (dropped u last) k ≢ 0
      full {u = u} k lt_k p inside' = elim (Bool-cases (i == k)) [
        | inl e ↦ ground (arith, cell k lt_k p inside', v.filled last (omega arith))
        | inr e ↦ ground (arith, cell k lt_k p inside', v.filled k (omega arith))
      ]

      here :
          {u : Timer}
          → Placed t u i (event_at t last)
          → last < length u.heap
          → time_at (dropped u last) i ≡ time_at t last
      here {u = u} p inside' =
          let c : event_at (dropped u last) i ≡ event_at t last =
            ground (arith, cell i lt p inside') in
          p.time (event_at (dropped u last) i) ∙ ap (λ q. (t.events q).when) c

      beside :
          {u : Timer} (k : ℕ)
          → k < last
          → k ≢ i
          → Placed t u i (event_at t last)
          → last < length u.heap
          → time_at (dropped u last) k ≡ time_at t k
      beside {u = u} k lt_k ne p inside' =
          let c : event_at (dropped u last) k ≡ event_at t k =
            ground (arith, cell k lt_k p inside') in
          p.time (event_at (dropped u last) k) ∙ ap (λ q. (t.events q).when) c

      one_gone :
          {u : Timer} (x : Pointer → ℕ)
          → Placed t u i (event_at t last)
          → last < length u.heap
          → tally (event_at (dropped u last)) last x + x (event_at t i)
            ≡ tally (event_at t) t.size x
      one_gone {u = u} x p inside' =
          let moved = put_cell (event_at t) i (event_at t last) in
          let cells =
            tally-ext (event_at (dropped u last)) moved last x (λ k lt_k. cell k lt_k p inside') in
          let put = tally-put_cell (event_at t) i (event_at t last) last x lt in
          let all = ap (λ n. tally (event_at t) n x) end in omega (arith, cells, put, all)

-- What the other cells keep: the children of cell `i` are not earlier than its parent.
module _ {t v : Timer} {i : ℕ} (o : Ordered (time_at t) t.size) (r : Replaced t v i)
    (lt : i < v.size) where
  grandchild :
      (k : ℕ) → 0 < k → k < v.size → 0 < i → parent k ≡ i → time_at v (parent i) ≤ time_at v k
  grandchild k pos lt_k pos_i e = omega (
    arith,
    r.one_less,
    r.beside k lt_k (omega (arith, e)),
    r.beside (parent i) (omega (arith, lt)) (omega arith),
    o k pos (omega (arith, r.one_less)),
    ap (time_at t) e,
    o i pos_i (omega (arith, r.one_less, lt)),
  )

  apart : (k : ℕ) → 0 < k → k < v.size → k ≢ i → parent k ≢ i → time_at v (parent k) ≤ time_at v k
  apart k pos lt_k ne ne' = omega (
    arith,
    r.beside k lt_k ne,
    r.beside (parent k) (omega arith) ne',
    o k pos (omega (arith, r.one_less)),
  )

  -- The event that came to cell `i` is not earlier than the parent there, or it is.
  pub late-Sinking : (i ≡ 0) ⊎ (time_at v (parent i) ≤ time_at v i) → Sinking (time_at v) v.size i
  late-Sinking why = record {
    edges = λ k pos lt_k ne. elim (Bool-cases (k == i)) [
      | inr e ↦ apart k pos lt_k (ground arith) ne
      | inl e ↦
          let same : i ≡ k = ground arith in
          elim why [
            | inl zero_i ↦ absurd (omega (arith, same))
            | inr le ↦ subst (λ j. time_at v (parent j) ≤ time_at v j) same le
          ]
    ];
    bridge = λ k pos lt_k pos_i e. grandchild k pos lt_k pos_i e;
  }

  pub early-Rising : 0 < i → time_at v i < time_at v (parent i) → Rising (time_at v) v.size i
  early-Rising pos_i early = record {
    rest = λ k pos lt_k ne. elim (Bool-cases (parent k == i)) [
      | inr e ↦ apart k pos lt_k ne (ground arith)
      | inl e ↦
          let child : parent k ≡ i = ground arith in
          omega (arith, ap (time_at v) child, grandchild k pos lt_k pos_i child, early)
    ];
    skip = λ k pos lt_k pos' e. grandchild k pos lt_k pos' e;
  }
