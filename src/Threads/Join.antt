-- ===== src/Threads/Join.antt =====
-- Which threads thread_join of src/ltask/simplethread.h waits for.
use grt.Base.{
  ℕ, ◌+◌, ◌<◌, ◌≡◌, ◌⊎◌, inl, inr, refl, ◌∙◌, ap, Option, none, some, List, [], ◌∷◌, ◌++◌, arith,
  length, length-append, ◌==◌, if◌then◌else◌, true,
}
use grt.Socket.{Outcome, done, failed}
use grt.Threads.{Thread, ThreadId, System, start_loop, wait_all, thread_join}

abbrev pub without : ThreadId → List ThreadId → List ThreadId
without id [] = []
without id (x ∷ xs) = if x == id then xs else x ∷ without id xs

-- What the manual says of the two calls: `unjoined` are the threads that nobody has waited for. A call
-- of pthread_create adds one, or fails and adds none; pthread_join waits for one of them to end.
pub record ThreadLaw {W : Type 0} (k : System W) (unjoined : W → List ThreadId) : Type 0 where
  pub creates :
      (w u : W) (t : Thread) (id : ThreadId)
      → k.pthread_create w t ≡ (done id, u)
      → unjoined u ≡ unjoined w ++ id ∷ []
  pub refuses :
      (w u : W) (t : Thread) (e : ℕ)
      → k.pthread_create w t ≡ (failed e, u)
      → unjoined u ≡ unjoined w
  pub joins : (w : W) (id : ThreadId) → unjoined (k.pthread_join w id) ≡ without id (unjoined w)

module _ {W : Type 0} (k : System W) (unjoined : W → List ThreadId)
    (law : ThreadLaw k unjoined) where
  -- All threads were started, or some first ones were.
  abbrev Started : List ThreadId → List Thread → Option (List ThreadId) × W → Type 0
  Started old threads (some pid, u) =
      (unjoined u ≡ pid) × (length pid ≡ length old + length threads)
  Started old threads (none, u) = length (unjoined u) < length old + length threads

  start_loop-Started :
      (w : W) (threads : List Thread) (old : List ThreadId)
      → unjoined w ≡ old
      → Started old threads (start_loop k w threads old)
  unfolding start_loop
  start_loop-Started w [] old e = (e, omega arith)
  start_loop-Started w (t ∷ threads) old e =
      next _ _ refl (λ u id h. start_loop-Started u threads (old ++ id ∷ []) h)
    where
      more :
          (id : ThreadId) (r : Option (List ThreadId) × W)
          → Started (old ++ id ∷ []) threads r
          → Started old (t ∷ threads) r
      more id (some pid, u) (h, n) = (h, omega (arith, n, length-append old (id ∷ [])))
      more id (none, u) n = omega (arith, n, length-append old (id ∷ []))

      next :
          (r : Outcome ThreadId) (u : W)
          → k.pthread_create w t ≡ (r, u)
          → ((u : W) (id : ThreadId)
              → unjoined u ≡ old ++ id ∷ []
              → Started (old ++ id ∷ []) threads (start_loop k u threads (old ++ id ∷ [])))
          → Started old
              (t ∷ threads)
              (elim r [ failed e ↦ (none, u) | done id ↦ start_loop k u threads (old ++ id ∷ []) ])
      next (done id) u run rest =
          more id (start_loop k u threads (old ++ id ∷ []))
            (rest u id (law.creates w u t id run ∙ ap (λ xs. xs ++ id ∷ []) e))
      next (failed n) u run rest = omega (arith, ap length (law.refuses w u t n run ∙ e))

  wait_all-nil : (w : W) (pid : List ThreadId) → unjoined w ≡ pid → unjoined (wait_all k w pid) ≡ []
  unfolding wait_all
  wait_all-nil w [] e = e
  wait_all-nil w (id ∷ pid) e =
      let same : (id == id) ≡ true = ground arith in
      wait_all-nil (k.pthread_join w id) pid (law.joins w id ∙ ap (without id) e ∙ rw same refl)

  -- When pthread_create and pthread_join are as the manual says and no thread is unjoined,
  -- thread_join either starts every thread and has waited for all of them when it returns, or a
  -- pthread_create fails, it returns at once, and the threads that were started, fewer than asked
  -- for, are not waited for.
  pub thread_join-waits :
      (w : W) (threads : List Thread)
      → unjoined w ≡ []
      → ((pid : List ThreadId) × (u : W) × (start_loop k w threads [] ≡ (some pid, u))
          × (unjoined u ≡ pid)
          × (length pid ≡ length threads)
          × (unjoined (thread_join k w threads) ≡ []))
        ⊎ ((u : W) × (start_loop k w threads [] ≡ (none, u))
            × (thread_join k w threads ≡ u)
            × (length (unjoined u) < length threads))
  unfolding thread_join
  thread_join-waits w threads e =
      cases (start_loop k w threads []) (start_loop-Started w threads [] e)
    where
      cases :
          (r : Option (List ThreadId) × W)
          → Started [] threads r
          → ((pid : List ThreadId) × (u : W) × (r ≡ (some pid, u))
              × (unjoined u ≡ pid)
              × (length pid ≡ length threads)
              × (unjoined (elim r.0 [ none ↦ r.1 | some pid ↦ wait_all k r.1 pid ]) ≡ []))
            ⊎ ((u : W) × (r ≡ (none, u))
                × (elim r.0 [ none ↦ r.1 | some pid ↦ wait_all k r.1 pid ] ≡ u)
                × (length (unjoined u) < length threads))
      cases (some pid, u) (h, n) = inl (pid, u, refl, h, omega (arith, n), wait_all-nil u pid h)
      cases (none, u) n = inr (u, refl, refl, omega (arith, n))
