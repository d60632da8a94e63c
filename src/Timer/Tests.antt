-- ===== src/Timer/Tests.antt =====
-- Runs of the timer of src/timer/timer.c, and the theorems at concrete inputs.
use grt.Base.{
  ◌^◌, inl, inr, Bool-cases, ℕ, zero, suc, ◌-◌, ◌/◌, ◌*◌, ◌≤◌, ◌<◌, ◌≡◌, ◌≢◌, refl, none, some, ◌+◌,
  ◌==◌, if◌then◌else◌, arith, List, [], ◌∷◌,
}
use grt.Base.Run.{Run, ok, aborted, wild, raised, spent, ◌>>=◌}
use grt.Timer.{
  Pointer, TimerEvent, Timer, timer_init, timer_add, timer_del, timer_latest, siftup_loop,
  siftdown_loop, timer_siftup, timer_siftdown, settle, place, grow, timer_update,
}
use grt.Timer.Grow.{timer_add-full}
use grt.Timer.Tally.{tally}
use grt.Timer.Remove.{timer_del-IsTimer}
use grt.Timer.Round.{Once}
use grt.Timer.Update.{Updated, timer_update-Updated}
use grt.Timer.Forever.{Ticks, timer_update-spent}
use grt.Timer.Up.{IsTimer, event_at, time_at, timer_add-IsTimer}

-- The event at `p` is due at 10 * p.
abbrev demo : Pointer → TimerEvent
demo p = record { when = 10 * p; period = 0; callback = 0; user_data = 0; i = none }

abbrev two_events : Timer
two_events = record { heap = 3 ∷ 5 ∷ 0 ∷ []; size = 2; cap = 3; events = demo }

two_events-IsTimer : IsTimer two_events
two_events-IsTimer = record {
  cells = refl;
  bounded = omega arith;
  filled = λ k lt. filled k lt;
  ordered = λ k pos_k lt. ordered k pos_k lt;
}
  where
    filled : (k : ℕ) → k < 2 → event_at two_events k ≢ 0
    filled zero lt = omega arith
    filled (suc zero) lt = omega arith
    filled (suc (suc k)) lt = absurd (omega arith)

    ordered : (k : ℕ) → 0 < k → k < 2 → time_at two_events ((k - 1) / 2) ≤ time_at two_events k
    ordered zero pos_k lt = absurd (omega arith)
    ordered (suc zero) pos_k lt = omega arith
    ordered (suc (suc k)) pos_k lt = absurd (omega arith)

-- Times of the events that come out, one after the other.
drain : ℕ → Run Timer → List ℕ
drain zero r = []
drain (suc n) (ok t) = elim (timer_latest t) [
  | ok ev ↦ (t.events ev).when ∷ drain n (timer_del t ev)
  | aborted ↦ []
  | wild ↦ []
  | raised ↦ []
  | spent ↦ []
]
drain (suc n) aborted = []
drain (suc n) wild = []
drain (suc n) raised = []
drain (suc n) spent = []

sorted_out :
    drain 5 (
      timer_add (timer_init demo) 56 >>= λ t.
      timer_add t 37 >>= λ t. timer_add t 31 >>= λ t. timer_add t 68 >>= λ t. timer_add t 7)
    ≡ 70 ∷ 310 ∷ 370 ∷ 560 ∷ 680 ∷ []
unfolding drain timer_init timer_add timer_del timer_latest siftup_loop siftdown_loop timer_siftup
    timer_siftdown settle place grow
sorted_out = refl

timer_add-IsTimer_example :
    (u : Timer) × (timer_add two_events 1 ≡ ok u)
    × IsTimer u
    × (u.size ≡ 3)
    × (u.cap ≡ 3)
    × ((x : Pointer → ℕ) → tally (event_at u) u.size x ≡ x 1 + tally (event_at two_events) 2 x)
timer_add-IsTimer_example = timer_add-IsTimer 1 two_events-IsTimer (omega arith) (omega arith)

-- The same heap, with the first event a ticker and the second with its index.
abbrev indexed : Pointer → TimerEvent
indexed p =
    if p == 3
    then record { when = 30; period = 4; callback = 0; user_data = 0; i = some 0 }
    else record { when = 10 * p; period = 0; callback = 0; user_data = 0; i = some 1 }

abbrev two_indexed : Timer
two_indexed = record { heap = 3 ∷ 5 ∷ 0 ∷ []; size = 2; cap = 3; events = indexed }

two_indexed-IsTimer : IsTimer two_indexed
two_indexed-IsTimer = record {
  cells = refl;
  bounded = omega arith;
  filled = λ k lt. two_events-IsTimer.filled k lt;
  ordered = λ k pos_k lt. ordered k pos_k lt;
}
  where
    ordered : (k : ℕ) → 0 < k → k < 2 → time_at two_indexed ((k - 1) / 2) ≤ time_at two_indexed k
    ordered zero pos_k lt = absurd (omega arith)
    ordered (suc zero) pos_k lt = omega arith
    ordered (suc (suc k)) pos_k lt = absurd (omega arith)

timer_del-IsTimer_example :
    (u : Timer) × (timer_del two_indexed 3 ≡ ok u)
    × IsTimer u
    × (suc u.size ≡ 2)
    × (u.cap ≡ 3)
    × ((x : Pointer → ℕ) → tally (event_at u) u.size x + x 3 ≡ tally (event_at two_indexed) 2 x)
timer_del-IsTimer_example =
    timer_del-IsTimer 3 0 two_indexed-IsTimer (omega arith) refl (omega arith) refl

alone : (k : ℕ) → k < 2 → event_at two_indexed k ≡ event_at two_indexed 0 → k ≡ 0
alone zero lt e = refl
alone (suc zero) lt e = absurd (omega (arith, e))
alone (suc (suc k)) lt e = absurd (omega (arith, lt))

timer_add-full_example :
    timer_add (record { heap = 3 ∷ 5 ∷ []; size = 2; cap = 2; events = demo }) 1 ≡ wild
timer_add-full_example =
    timer_add-full (record { heap = 3 ∷ 5 ∷ []; size = 2; cap = 2; events = demo }) 1 (omega arith)

abbrev silent : Pointer → Pointer → Timer → Run Timer
silent callback user_data t = ok t

two_indexed-Once : Once two_indexed
two_indexed-Once q = ground arith

period_small : (q : Pointer) → (indexed q).period ≤ 4
period_small q = elim (Bool-cases (q == 3)) [
  | inl e ↦ rw e (omega arith)
  | inr e ↦ rw e (omega arith)
]

-- The ticker is called at 30, 34, 38; the other event stays.
timer_update-Updated_example :
    (u : Timer) × (timer_update silent 12 two_indexed 40 ≡ ok u) × Updated two_indexed u 40
timer_update-Updated_example =
    timer_update-Updated silent 40 (λ callback user_data t. refl) 12 two_indexed two_indexed-IsTimer
      two_indexed-Once (λ q inside. omega (arith, period_small q)) (omega arith)

-- The same heap; every event is a ticker that is due at 30.
abbrev ticking : Pointer → TimerEvent
ticking p = record { when = 30; period = 4; callback = 0; user_data = 0; i = none }

two_ticking-Ticks : Ticks (record two_indexed { events = ticking }) 3
two_ticking-Ticks = record {
  valid = record {
    cells = refl;
    bounded = omega arith;
    filled = λ k lt. two_events-IsTimer.filled k lt;
    ordered = λ k pos_k lt. omega arith;
  };
  once = two_indexed-Once;
  inside = omega arith;
  ticks = omega arith;
  small = λ x. omega arith;
}

timer_update-spent_example :
    timer_update silent 1000 (record two_indexed { events = ticking }) (2 ^ 32 - 1) ≡ spent
timer_update-spent_example =
    timer_update-spent silent (λ callback user_data t. refl) 1000
      (record two_indexed { events = ticking }) 3 two_ticking-Ticks
