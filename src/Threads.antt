-- ===== src/Threads.antt =====
-- thread_join of src/ltask/simplethread.h, on POSIX threads: it starts all threads of an array and waits
-- for them. The threads of the system are a parameter: a type of its states and the calls that the code
-- makes. A call that returns an error number gives `failed`.
pub mod Join
mod Tests
use grt.Base.{ℕ, Option, none, some, List, [], ◌∷◌, ◌++◌}
use grt.Socket.{Outcome, done, failed}

abbrev pub Pointer : Type 0
Pointer = ℕ

-- a `pthread_t`
abbrev pub ThreadId : Type 0
ThreadId = ℕ

pub record Thread : Type 0 where
  pub func : Pointer
  pub ud : Pointer

-- The new thread runs thread_function, which calls `func` on `ud`.
pub record System (W : Type 0) : Type 0 where
  pub pthread_create : W → Thread → Outcome ThreadId × W
  pub pthread_join : W → ThreadId → W

module _ {W : Type 0} (k : System W) where
  -- The first loop of thread_join, with the ids so far; it ends at the first failure.
  unfoldable pub start_loop : W → List Thread → List ThreadId → Option (List ThreadId) × W
  start_loop w [] pid = (some pid, w)
  start_loop w (t ∷ threads) pid =
      let (r, u) = k.pthread_create w t in
      elim r [ failed e ↦ (none, u) | done id ↦ start_loop u threads (pid ++ id ∷ []) ]

  -- The second loop.
  unfoldable pub wait_all : W → List ThreadId → W
  wait_all w [] = w
  wait_all w (id ∷ pid) = wait_all (k.pthread_join w id) pid

  unfoldable pub thread_join : W → List Thread → W
  unfolding start_loop wait_all
  thread_join w threads =
      let (started, u) = start_loop w threads [] in
      elim started [ none ↦ u | some pid ↦ wait_all u pid ]
