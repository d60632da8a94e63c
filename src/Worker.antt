-- ===== src/Worker.antt =====
-- worker_func and run_slice of src/ltask/ltask.c, with the queues of schedule_grabtask and the
-- events of src/ltask/simplethread.h, as the steps of `n` workers. A step is one access to what the
-- workers share. Which ids the queues hold is left out: `ready` counts them, a popped id may be that
-- of a dead task, and a task that runs pushes ids where it likes.
pub mod Scan
pub mod Progress
pub mod Wake
mod Tests
use grt.Base.{
  ℕ, zero, suc, ◌+◌, ◌-◌, ◌%◌, ◌≡◌, ◌<◌, Bool, true, false, leb, ltb, ◌==◌, if◌then◌else◌,
}
use grt.Base.Run.{Run, ok, aborted, ◌>>=◌}

-- Where a worker stands: before `suspend = 0`; in schedule_grabtask, with so many queues found
-- empty in this round; in lua_resume; in the loop over the workers, at this one; before
-- `suspend = 1`; in thread_event_wait.
pub data Place : Type 0 where
  waking : Place
  scanning : ℕ → Place
  running : Place
  notifying : ℕ → Place
  suspending : Place
  sleeping : Place

pub record Workshop : Type 0 where
  pub ready : ℕ → ℕ
  pub suspend : ℕ → Bool
  pub flag : ℕ → Bool
  pub place : ℕ → Place

abbrev pub update {ℓ} : {A : Type ℓ} → (ℕ → A) → ℕ → A → ℕ → A
update f i a j = if i == j then a else f j

-- What the surroundings choose: the task of a popped id is alive or dead; a running task pushes an
-- id to a queue, or ends its slice; `fails`: the assertion fails, since the task of a popped id runs
-- already, or since the task whose slice ends is ready already.
pub data Choice : Type 0 where
  alive dead finishes fails : Choice
  pushes : ℕ → Choice

abbrev pub goes : Workshop → ℕ → Place → Workshop
goes s w p = record s { place = update s.place w p }

-- `ev->flag = 1` under the mutex of the event
abbrev pub thread_event_trigger : Workshop → ℕ → Workshop
thread_event_trigger s i = record s { flag = update s.flag i true }

-- A worker in thread_event_wait goes on when the flag is set, and takes it back.
abbrev pub thread_event_wait : Workshop → ℕ → Workshop
thread_event_wait s w =
    if s.flag w then goes (record s { flag = update s.flag w false }) w waking else s

-- A popped id of a dead task starts the search again; a task that runs already fails the assertion.
abbrev pub after_pop : Choice → Run Place
after_pop dead = ok (scanning 0)
after_pop alive = ok running
after_pop finishes = ok running
after_pop (pushes i) = ok running
after_pop fails = aborted

-- schedule_grabtask with `k` queues behind it pops the next one; the last empty one ends it.
abbrev pub grab : ℕ → Choice → Workshop → ℕ → ℕ → Run Workshop
grab n choice s w k =
    let q = (w + k) % n in
    let popped : Workshop = record s { ready = update s.ready q (s.ready q - 1) } in
    if s.ready q == 0
    then ok (goes s w (if leb n (k + 1) then suspending else scanning (k + 1)))
    else (after_pop choice >>= λ p. ok (goes popped w p))

-- lua_resume, and the schedule_releasetask or schedule_closetask after it, with the assertion of
-- schedule_releasetask
abbrev pub resume_step : ℕ → Choice → Workshop → ℕ → Run Workshop
resume_step n choice s w = elim choice [
  | alive ↦ ok s
  | dead ↦ ok s
  | finishes ↦ ok (goes s w (notifying 0))
  | fails ↦ aborted
  | pushes q ↦ ok (record s { ready = update s.ready q (s.ready q + 1) })
]

-- One round of the loop that wakes suspended workers.
abbrev pub notify : ℕ → Workshop → ℕ → ℕ → Workshop
notify n s w i =
    if leb n i
    then goes s w (scanning 0)
    else goes (if s.suspend i then thread_event_trigger s i else s) w (notifying (i + 1))

abbrev pub worker_func : ℕ → Choice → Workshop → ℕ → Place → Run Workshop
worker_func n choice s w waking =
    ok (goes (record s { suspend = update s.suspend w false }) w (scanning 0))
worker_func n choice s w (scanning k) = grab n choice s w k
worker_func n choice s w running = resume_step n choice s w
worker_func n choice s w (notifying i) = ok (notify n s w i)
worker_func n choice s w suspending =
    ok (goes (record s { suspend = update s.suspend w true }) w sleeping)
worker_func n choice s w sleeping = ok (thread_event_wait s w)

unfoldable pub turn : ℕ → Choice → Workshop → ℕ → Run Workshop
turn n choice s w = worker_func n choice s w (s.place w)

-- lrun starts every worker on what schedule_opentask has queued.
abbrev pub lrun : (ℕ → ℕ) → Workshop
lrun ready = record { ready = ready; suspend = λ i. false; flag = λ i. false; place = λ i. waking }

-- The states that `n` workers reach, one step of one of them at a time; a failed assertion ends the
-- program.
pub data Reaches (n : ℕ) : Workshop → Type 0 where
  start : (ready : ℕ → ℕ) → Reaches n (lrun ready)
  step :
      {s : Workshop} (s' : Workshop) (w : ℕ) (choice : Choice)
      → w < n
      → Reaches n s
      → turn n choice s w ≡ ok s'
      → Reaches n s'
