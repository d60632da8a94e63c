-- ===== src/Worker/Progress.antt =====
-- Who will run the ready tasks of src/ltask/ltask.c, and how soon.
use grt.Base.{
  ℕ, zero, suc, ◌+◌, ◌-◌, ◌*◌, ◌%◌, ◌≤◌, ◌<◌, ◌≡◌, refl, Bool, true, false, arith, Bool-cases, leb,
  ◌==◌, if◌then◌else◌, inl, inr, ap, sym, ◌∙◌, subst,
}
use grt.Base.Run.{Run, ok, ◌>>=◌}
use grt.Worker.{
  Place, waking, scanning, running, notifying, suspending, sleeping, Workshop, update, alive, goes,
  turn, Reaches, worker_func, thread_event_trigger, grab,
}
use grt.Worker.Scan.{Ahead, before_scan, in_scan, in_slice, in_loop, Ahead-fresh, Reaches-Watched}

-- `m` steps of the worker `w` alone, which finds the tasks alive and not running
unfoldable pub alone : ℕ → ℕ → Workshop → ℕ → Run Workshop
alone n zero s w = ok s
alone n (suc m) s w = turn n alive s w >>= λ s'. alone n m s' w

-- The worker runs a task within `bound` of its own steps.
pub record RunsWithin (n bound : ℕ) (s : Workshop) (w : ℕ) : Type 0 where
  pub steps : ℕ
  pub soon : steps ≤ bound
  pub last : Workshop
  pub run : alone n steps s w ≡ ok last
  pub runs : last.place w ≡ running

module _ {n : ℕ} (s : Workshop) {w : ℕ} where
  at_once : s.place w ≡ running → RunsWithin n 0 s w
  unfolding alone
  at_once e = record { steps = 0; soon = omega arith; last = s; run = refl; runs = e }

  one_more :
      {bound : ℕ} (p : Place)
      → s.place w ≡ p
      → {s' : Workshop} → worker_func n alive s w p ≡ ok s'
      → RunsWithin n bound s' w
      → RunsWithin n (bound + 1) s w
  unfolding alone turn
  one_more p at go r = record {
    steps = suc r.steps;
    soon = omega (arith, r.soon);
    last = r.last;
    run = rw (at, go) r.run;
    runs = r.runs;
  }

  later : {a b : ℕ} → a ≤ b → RunsWithin n a s w → RunsWithin n b s w
  later le r = record {
    steps = r.steps;
    soon = omega (arith, r.soon);
    last = r.last;
    run = r.run;
    runs = r.runs;
  }

update_self {ℓ} : {A : Type ℓ} (f : ℕ → A) (i : ℕ) (a : A) → update f i a i ≡ a
update_self f i a = ground arith

module _ (n w k : ℕ) (s : Workshop) where
  -- what is left when an id has been popped
  abbrev taken : Workshop
  taken =
      goes (record s { ready = update s.ready ((w + k) % n) (s.ready ((w + k) % n) - 1) }) w running

  grab-found : (s.ready ((w + k) % n) == 0) ≡ false → grab n alive s w k ≡ ok taken
  grab-found found = rw found refl

  grab-empty :
      (s.ready ((w + k) % n) == 0) ≡ true
      → k + 1 < n
      → grab n alive s w k ≡ ok (goes s w (scanning (k + 1)))
  grab-empty none_left lt = let more : leb n (k + 1) ≡ false = ground arith in rw (none_left, more)

-- A scan meets the first queue with an id.
scan-RunsWithin :
    {n w : ℕ} (d k : ℕ) (s : Workshop)
    → s.place w ≡ scanning k
    → k + d < n
    → 0 < s.ready ((w + (k + d)) % n)
    → RunsWithin n (d + 1) s w
scan-RunsWithin {n} {w} zero k s at lt some_id =
    let here : k + 0 ≡ k = omega arith in
    let id_here = subst (λ j. 0 < s.ready ((w + j) % n)) here some_id in
    one_more s (scanning k) at (grab-found n w k s (ground arith))
      (at_once (taken n w k s) (update_self s.place w running))
scan-RunsWithin {n} {w} (suc d) k s at lt some_id = elim (Bool-cases (s.ready ((w + k) % n) == 0)) [
  | inr found ↦ later s (omega arith) (
      one_more s (scanning k) at (grab-found n w k s found)
        (at_once (taken n w k s) (update_self s.place w running)))
  | inl none_left ↦
      let next : Workshop = goes s w (scanning (k + 1)) in
      let shifted : k + suc d ≡ k + 1 + d = omega arith in
      let id_ahead = subst (λ j. 0 < s.ready ((w + j) % n)) shifted some_id in
      let rest =
        scan-RunsWithin {n = n} {w = w} d (k + 1) next (update_self s.place w (scanning (k + 1)))
          (omega arith) id_ahead in
      later s (omega arith)
        (one_more s (scanning k) at (grab-empty n w k s none_left (omega arith)) rest)
]

-- A worker whose scan starts passes the queue.
fresh-RunsWithin :
    {n w q : ℕ} (s : Workshop)
    → s.place w ≡ scanning 0
    → w < n
    → q < n
    → 0 < s.ready q
    → RunsWithin n n s w
fresh-RunsWithin {n} {w} {q} s at lt lt' some_id = on (Ahead-fresh n w q lt lt')
  where
    on : Ahead n w q (scanning 0) → RunsWithin n n s w
    on (in_scan j le inside e) =
        let from_zero : 0 + j ≡ j = omega arith in
        later s (omega arith) (
          scan-RunsWithin j 0 s at (omega arith)
            (subst (λ i. 0 < s.ready i) (sym (ap (λ i. (w + i) % n) from_zero ∙ e)) some_id))

trigger_ready :
    (b : Bool) (s : Workshop) (i : ℕ) → (if b then thread_event_trigger s i else s).ready ≡ s.ready
trigger_ready true s i = refl
trigger_ready false s i = refl

-- The loop over the workers ends with a new search.
notify-RunsWithin :
    {n w bound : ℕ} (d i : ℕ) (s : Workshop)
    → s.place w ≡ notifying i
    → n - i ≡ d
    → ((t : Workshop) → t.place w ≡ scanning 0 → t.ready ≡ s.ready → RunsWithin n bound t w)
    → RunsWithin n (bound + (d + 1)) s w
notify-RunsWithin {n} {w} {bound} zero i s at left on =
    let over : leb n i ≡ true = ground arith in
    let next : Workshop = goes s w (scanning 0) in
    later s (omega arith) (
      one_more s (notifying i) at {s' = next} (rw over refl)
        (on next (update_self s.place w (scanning 0)) refl))
notify-RunsWithin {n} {w} {bound} (suc d) i s at left on =
    let more : leb n i ≡ false = ground arith in
    let told : Workshop = if s.suspend i then thread_event_trigger s i else s in
    let next : Workshop = goes told w (notifying (i + 1)) in
    let rest =
      notify-RunsWithin {n = n} {w = w} {bound = bound} d (i + 1) next
        (update_self told.place w (notifying (i + 1))) (omega arith)
        (λ t p e. on t p (e ∙ same_ready)) in
    later s (omega arith) (one_more s (notifying i) at {s' = next} (rw more refl) rest)
  where
    same_ready : (if s.suspend i then thread_event_trigger s i else s).ready ≡ s.ready
    same_ready = trigger_ready (s.suspend i) s i

-- Whoever is ahead of a queue with an id runs a task soon.
Ahead-RunsWithin :
    {n w q : ℕ} (s : Workshop) (p : Place)
    → s.place w ≡ p
    → w < n
    → q < n
    → 0 < s.ready q
    → Ahead n w q p
    → RunsWithin n (2 * n + 2) s w
Ahead-RunsWithin {n} {w} {q} s waking at lt lt' some_id before_scan = later s (omega arith) (
    one_more s waking at refl (
      fresh-RunsWithin (goes (record s { suspend = update s.suspend w false }) w (scanning 0))
        (update_self s.place w (scanning 0)) lt lt' some_id))
Ahead-RunsWithin {n} {w} {q} s (scanning k) at lt lt' some_id (in_scan j le inside e) =
    let to_j : k + (j - k) ≡ j = omega arith in
    later s (omega arith) (
      scan-RunsWithin (j - k) k s at (omega arith)
        (subst (λ i. 0 < s.ready i) (sym (ap (λ i. (w + i) % n) to_j ∙ e)) some_id))
Ahead-RunsWithin s running at lt lt' some_id in_slice = later s (omega arith) (at_once s at)
Ahead-RunsWithin {n} {w} {q} s (notifying i) at lt lt' some_id in_loop = later s (omega arith) (
    notify-RunsWithin (n - i) i s at refl
      (λ t p same. fresh-RunsWithin t p lt lt' (subst (λ r. 0 < r q) (sym same) some_id)))
Ahead-RunsWithin s suspending at lt lt' some_id a = elim a [ ]
Ahead-RunsWithin s sleeping at lt lt' some_id a = elim a [ ]

-- Whatever the workers have done since lrun, and in whatever order, with no assertion failed:
-- while a queue has an id of a task in it, some worker, given at most 2n+2 steps of its own in
-- which the tasks it finds are alive and do not run yet, runs a task.
pub ready-RunsWithin :
    {n q : ℕ} {s : Workshop}
    → Reaches n s
    → q < n
    → 0 < s.ready q
    → (w : ℕ) × (w < n) × RunsWithin n (2 * n + 2) s w
ready-RunsWithin {n} {q} {s} r lt some_id =
    let v = Reaches-Watched (omega arith) lt r some_id in
    (v.worker, v.inside, Ahead-RunsWithin s (s.place v.worker) refl v.inside lt some_id v.ahead)
