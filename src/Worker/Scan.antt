-- ===== src/Worker/Scan.antt =====
-- The workers of src/ltask/ltask.c leave no ready task behind.
use grt.Base.{
  ℕ, ◌+◌, ◌-◌, ◌%◌, ◌≤◌, ◌<◌, ◌≡◌, ◌≢◌, refl, Bool, true, false, arith, Bool-cases, leb, ◌==◌,
  if◌then◌else◌, inl, inr, ap, sym, ◌∙◌, subst, mod_wrap,
}
use native.Mathlib.Nat.{mod-eq_of_lt}
use grt.Base.Run.{Run, ok, ◌>>=◌}
use grt.Worker.{
  Place, waking, scanning, running, notifying, suspending, sleeping, Workshop, update, Choice,
  alive, dead, finishes, fails, pushes, goes, turn, Reaches, start, step, after_pop, grab,
  resume_step, thread_event_trigger, worker_func,
}

-- Worker `w`, standing at `p`, is still to look at queue `q` before it suspends.
pub data Ahead (n w q : ℕ) : Place → Type 0 where
  before_scan : Ahead n w q waking
  in_scan : {k : ℕ} (j : ℕ) → k ≤ j → j < n → (w + j) % n ≡ q → Ahead n w q (scanning k)
  in_slice : Ahead n w q running
  in_loop : {i : ℕ} → Ahead n w q (notifying i)

pub record Watched (n : ℕ) (s : Workshop) (q : ℕ) : Type 0 where
  pub worker : ℕ
  pub inside : worker < n
  pub ahead : Ahead n worker q (s.place worker)

-- If the step ends well, a queue with an id in it is watched.
abbrev pub Keeps : ℕ → ℕ → Run Workshop → Type 0
Keeps n q (ok s) = 0 < s.ready q → Watched n s q
Keeps n q r = Unit {0}

-- A scan that starts passes every queue.
pub Ahead-fresh : (n w q : ℕ) → w < n → q < n → Ahead n w q (scanning 0)
Ahead-fresh n w q lt lt' = elim (Bool-cases (leb w q)) [
  | inl e ↦
      let le : w ≤ q = ground arith in
      let at : w + (q - w) ≡ q = omega arith in
      in_scan (q - w) (omega arith) (omega arith) (ap (λ a. a % n) at ∙ mod-eq_of_lt lt')
  | inr e ↦
      let gt : q < w = ground arith in
      let at : w + (q + n - w) ≡ q + n = omega arith in
      in_scan (q + n - w) (omega arith) (omega arith) (ap (λ a. a % n) at ∙ wrapped)
]
  where
    wrapped : (q + n) % n ≡ q
    wrapped = elim (mod_wrap (q + n) n (omega arith)) [
      | inl (small, e) ↦ absurd (omega arith)
      | inr (large, e) ↦ omega (arith, e)
    ]

-- The next queue is passed when it is empty; the last one leaves nothing ahead.
Ahead-next :
    {n w q k : ℕ}
    → Ahead n w q (scanning k)
    → (w + k) % n ≢ q
    → (n ≤ k + 1 → ⊥) × Ahead n w q (scanning (k + 1))
Ahead-next {n} {w} {q} {k} (in_scan j le lt at) other = elim (Bool-cases (j == k)) [
  | inl e ↦ absurd (other (ap (λ i. (w + i) % n) {x = k} {y = j} (ground arith) ∙ at))
  | inr e ↦ (λ h. ground arith, in_scan j (ground arith) lt at)
]

module _ {n : ℕ} (s s' : Workshop) {w q : ℕ} (p : Place)
    (set : (i : ℕ) → s'.place i ≡ update s.place w p i) where
  watch : w < n → Ahead n w q p → Watched n s' q
  watch lt a = record {
    worker = w;
    inside = lt;
    ahead = subst (Ahead n w q) (sym (ground (arith, set w))) a;
  }

  pass : Watched n s q → (Ahead n w q (s.place w) → Ahead n w q p) → Watched n s' q
  pass v on = elim (Bool-cases (w == v.worker)) [
    | inl e ↦
        let same : v.worker ≡ w = ground arith in
        let mine : Ahead n w q (s.place w) = subst (λ i. Ahead n i q (s.place i)) same v.ahead in
        watch (subst (λ i. i < n) same v.inside) (on mine)
    | inr e ↦ record {
      worker = v.worker;
      inside = v.inside;
      ahead = subst (Ahead n v.worker q) (sym (ground (arith, set v.worker))) v.ahead;
    }
  ]

not-Ahead-suspending : {n w q : ℕ} → Ahead n w q suspending → ⊥
not-Ahead-suspending h = elim h [ ]

module _ {n : ℕ} (s : Workshop) {w q : ℕ} (lt : w < n) (lt' : q < n)
    (old : 0 < s.ready q → Watched n s q) where
  -- after an empty queue
  pass_queue :
      (k : ℕ)
      → s.place w ≡ scanning k
      → s.ready ((w + k) % n) ≡ 0
      → 0 < s.ready q
      → (b : Bool) → leb n (k + 1) ≡ b
      → Watched n (goes s w (if b then suspending else scanning (k + 1))) q
  pass_queue k at none_left some_id b e =
      pass s _ (if b then suspending else scanning (k + 1)) (λ i. refl) (old some_id)
        λ a. let (more, rest) = Ahead-next (subst (Ahead n w q) at a) other in on b e more rest
    where
      other : (w + k) % n ≢ q
      other same = absurd (omega (arith, ap s.ready same, none_left))

      on :
          (b : Bool)
          → leb n (k + 1) ≡ b
          → (n ≤ k + 1 → ⊥)
          → Ahead n w q (scanning (k + 1))
          → Ahead n w q (if b then suspending else scanning (k + 1))
      on true e more rest = absurd (more (ground arith))
      on false e more rest = rest

  grab-Watched :
      (choice : Choice) (k : ℕ) → s.place w ≡ scanning k → Keeps n q (grab n choice s w k)
  grab-Watched choice k at = elim (Bool-cases (s.ready ((w + k) % n) == 0)) [
    | inl none_left ↦
        rw none_left (λ some_id. pass_queue k at (ground arith) some_id (leb n (k + 1)) refl)
    | inr found ↦ rw found (popped choice)
  ]
    where
      left : Workshop
      left = record s { ready = update s.ready ((w + k) % n) (s.ready ((w + k) % n) - 1) }

      at_place : (p : Place) → Ahead n w q p → Keeps n q (ok (goes left w p))
      at_place p a some_id = watch s (goes left w p) p (λ i. refl) lt a

      popped : (c : Choice) → Keeps n q (after_pop c >>= λ p. ok (goes left w p))
      popped dead = at_place (scanning 0) (Ahead-fresh n w q lt lt')
      popped alive = at_place running in_slice
      popped finishes = at_place running in_slice
      popped (pushes i) = at_place running in_slice
      popped fails = tt

  resume_step-Watched :
      (choice : Choice) → s.place w ≡ running → Keeps n q (resume_step n choice s w)
  resume_step-Watched alive at = old
  resume_step-Watched dead at = old
  resume_step-Watched finishes at = λ some_id. watch s _ (notifying 0) (λ i. refl) lt in_loop
  resume_step-Watched fails at = tt
  resume_step-Watched (pushes i) at =
      λ some_id. record { worker = w; inside = lt; ahead = subst (Ahead n w q) (sym at) in_slice }

  worker_func-Watched :
      (choice : Choice) (p : Place) → s.place w ≡ p → Keeps n q (worker_func n choice s w p)
  worker_func-Watched choice waking at =
      λ some_id. watch s _ (scanning 0) (λ i. refl) lt (Ahead-fresh n w q lt lt')
  worker_func-Watched choice (scanning k) at = grab-Watched choice k at
  worker_func-Watched choice running at = resume_step-Watched choice at
  worker_func-Watched choice (notifying i) at = λ some_id. elim (Bool-cases (leb n i)) [
    | inl over ↦ rw over (watch s _ (scanning 0) (λ i. refl) lt (Ahead-fresh n w q lt lt'))
    | inr more ↦ rw more (
        watch (if s.suspend i then thread_event_trigger s i else s) _ (notifying (i + 1))
          (λ i. refl) lt in_loop)
  ]
  worker_func-Watched choice suspending at = λ some_id.
      pass s _ sleeping (λ i. refl) (old some_id)
        (λ a. absurd (not-Ahead-suspending (subst (Ahead n w q) at a)))
  worker_func-Watched choice sleeping at = elim (Bool-cases (s.flag w)) [
    | inl set ↦ rw set (λ some_id. watch s _ waking (λ i. refl) lt before_scan)
    | inr clear ↦ rw clear old
  ]

pub Reaches-Watched :
    {n q : ℕ} {s : Workshop} → 0 < n → q < n → Reaches n s → 0 < s.ready q → Watched n s q
unfolding turn
Reaches-Watched pos_n lt (start ready) some_id = record {
  worker = 0;
  inside = pos_n;
  ahead = before_scan;
}
Reaches-Watched {n} {q} pos_n lt' (step {s} s' w choice lt before e) some_id =
    subst (Keeps n q) e
      (worker_func-Watched s lt lt' (Reaches-Watched pos_n lt' before) choice (s.place w) refl)
      some_id
