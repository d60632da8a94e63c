-- ===== src/Threads/Tests.antt =====
-- thread_join of src/ltask/simplethread.h on a small system.
use grt.Base.{
  ℕ, zero, suc, ◌+◌, ◌<◌, ◌≡◌, ◌⊎◌, refl, sym, ◌∙◌, ap, none, some, List, [], ◌∷◌, ◌++◌, arith,
  length,
}
use grt.Socket.{Outcome, done, failed}
use grt.Threads.{Thread, ThreadId, System, start_loop, thread_join}
use grt.Threads.Join.{without, ThreadLaw, thread_join-waits}

-- There is room for so many new threads; the next id; the threads that nobody has waited for.
record Small : Type 0 where
  room : ℕ
  next : ThreadId
  left : List ThreadId

abbrev create : ℕ → Small → Outcome ThreadId × Small
create zero w = (failed 11, w)
create (suc n) w =
    (done w.next, record { room = n; next = w.next + 1; left = w.left ++ w.next ∷ [] })

abbrev small : System Small
small = record {
  pthread_create = λ w t. create w.room w;
  pthread_join = λ w id. record w { left = without id w.left };
}

abbrev left_of : Small → List ThreadId
left_of w = w.left

small-ThreadLaw : ThreadLaw small left_of
small-ThreadLaw = record {
  creates = λ w u t id e. creates w.room w u id e;
  refuses = λ w u t n e. refuses w.room w u n e;
  joins = λ w id. refl;
}
  where
    creates :
        (room : ℕ) (w u : Small) (id : ThreadId)
        → create room w ≡ (done id, u)
        → u.left ≡ w.left ++ id ∷ []
    creates zero w u id e = absurd (not_done (ap (λ r. r.0) e))
      where
        not_done : Path (Outcome ThreadId) (failed 11) (done id) → ⊥
        not_done e = ground arith
    creates (suc n) w u id e =
        sym (ap (λ r. r.1.left) e) ∙ ap (λ i. w.left ++ i ∷ []) (done_inj (ap (λ r. r.0) e))
      where
        done_inj : {x y : ThreadId} → done x ≡ done y → x ≡ y
        done_inj e = ground arith

    refuses : (room : ℕ) (w u : Small) (n : ℕ) → create room w ≡ (failed n, u) → u.left ≡ w.left
    refuses zero w u n e = sym (ap (λ r. r.1.left) e)
    refuses (suc m) w u n e = absurd (not_failed (ap (λ r. r.0) e))
      where
        not_failed : {x : ThreadId} → Path (Outcome ThreadId) (done x) (failed n) → ⊥
        not_failed e = ground arith

-- Two threads are asked for, and the system has room for one.
abbrev two_threads : List Thread
two_threads = record { func = 1; ud = 10 } ∷ record { func = 1; ud = 11 } ∷ []

abbrev crowded : Small
crowded = record { room = 1; next = 5; left = [] }

first_left_alone : left_of (thread_join small crowded two_threads) ≡ 5 ∷ []
unfolding thread_join start_loop
first_left_alone = refl

thread_join-waits_example :
    ((pid : List ThreadId) × (u : Small) × (start_loop small crowded two_threads [] ≡ (some pid, u))
      × (left_of u ≡ pid)
      × (length pid ≡ 2)
      × (left_of (thread_join small crowded two_threads) ≡ []))
    ⊎ ((u : Small) × (start_loop small crowded two_threads [] ≡ (none, u))
        × (thread_join small crowded two_threads ≡ u)
        × (length (left_of u) < 2))
thread_join-waits_example = thread_join-waits small left_of small-ThreadLaw crowded two_threads refl
