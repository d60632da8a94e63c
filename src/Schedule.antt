-- ===== src/Schedule.antt =====
-- src/ltask/schedule.c: tasks and channels over the queues and the handle maps. Each operation is one
-- step on the whole state, as one worker runs it with no other in between. A pointer to a task or a
-- channel is one more than its place in `tasks` or `channels`; `malloc` gives a new place, `free`
-- leaves `none` there, and an access to it is wild.
pub mod Views
pub mod Channels
pub mod Tasks
pub mod Grab
pub mod Names
pub mod Whole
pub mod Steps
pub mod Select
pub mod Choice
pub mod Opening
pub mod Closing
pub mod Fetch
pub mod Operations
pub mod Sample
mod Tests
use grt.Base.{
  ℕ, zero, suc, ◌+◌, ◌-◌, ◌%◌, ◌^◌, Bool, true, false, not, Option, none, some, List, [], ◌∷◌, ◌++◌,
  leb, ltb, ◌==◌, if◌then◌else◌, length, replicate,
}
use grt.Base.Run.{Run, ok, wild, spent, ◌>>=◌, ◌>>◌, assert, or_wild, load, store}
use grt.Queue.{Queue, queue_create, queue_push, queue_pop, queue_empty, queue_release}
use grt.HandleMap.{
  HandleMap, HandleId, Pointer, handlemap_init, handlemap_new, handlemap_grab, handlemap_release,
}

abbrev pub TaskId : Type 0
TaskId = HandleId

abbrev pub ChannelId : Type 0
ChannelId = HandleId

pub data Status : Type 0 where
  running ready blocked dead init : Status

abbrev pub same_status : Status → Status → Bool
same_status running running = true
same_status ready ready = true
same_status blocked blocked = true
same_status dead dead = true
same_status init init = true
same_status _ _ = false

pub record Task : Type 0 where
  pub ud : Pointer
  pub status : Status
  pub thread : ℕ
  pub id : TaskId

pub record Channel : Type 0 where
  pub mq : Queue
  pub reader : Queue

pub record Schedule : Type 0 where
  pub threads : ℕ
  pub current : ℕ
  pub q : List Queue
  pub channel : HandleMap
  pub task : HandleMap
  pub tasks : List (Option Task)
  pub channels : List (Option Channel)

-- What a pointer points to, in a memory of such places.
abbrev pub deref {ℓ} : {A : Type ℓ} → List (Option A) → Pointer → Run A
deref memory zero = wild
deref memory (suc p) = load memory p >>= or_wild

-- A write through a pointer to a live place.
abbrev pub assign {ℓ} : {A : Type ℓ} → List (Option A) → Pointer → A → Run (List (Option A))
assign memory p a = deref memory p >>= λ old. store memory (p - 1) (some a)

abbrev pub free {ℓ} : {A : Type ℓ} → List (Option A) → Pointer → Run (List (Option A))
free memory p = deref memory p >>= λ old. store memory (p - 1) none

abbrev pub put_task : Schedule → Pointer → Task → Run Schedule
put_task s p t = assign s.tasks p t >>= λ tasks. ok (record s { tasks = tasks })

abbrev pub put_channel : Schedule → Pointer → Channel → Run Schedule
put_channel s p c = assign s.channels p c >>= λ channels. ok (record s { channels = channels })

-- The maps cannot be made without memory; the code does not look.
unfoldable pub schedule_create : ℕ → Run Schedule
schedule_create threads = do
  channel ← or_wild (handlemap_init true true)
  task ← or_wild (handlemap_init true true)
  ok (record {
    threads = threads;
    current = 0;
    q = replicate threads queue_create;
    channel = channel;
    task = task;
    tasks = [];
    channels = [];
  })

unfoldable pub schedule_threads : Schedule → ℕ
schedule_threads s = s.threads

unfoldable pub release_task : Schedule → TaskId → Run Schedule
release_task s id = do
  (m, p) ← handlemap_release s.task id
  let s' : Schedule = record s { task = m }
  if p == 0 then ok s' else do
    t ← deref s'.tasks p
    s'' ← put_task s' p (record t { status = dead })
    tasks ← free s''.tasks p
    ok (record s'' { tasks = tasks })

-- The compare-and-swap of the status, and the push to the queue of the task's thread.
unfoldable pub commit_task : Schedule → Pointer → Status → Run Schedule
commit_task s p status = do
  t ← deref s.tasks p
  let wake : Run Schedule = do
    s' ← put_task s p (record t { status = ready })
    q ← load s'.q t.thread
    q' ← queue_push q t.id
    qs ← store s'.q t.thread q'
    ok (record s' { q = qs })
  if same_status t.status status then wake else ok s

-- `mem` tells whether the map of tasks can grow.
unfoldable pub schedule_opentask : Bool → Schedule → Pointer → Run (Schedule × TaskId)
schedule_opentask mem s ud =
    let c = s.current in
    let next = if leb s.threads (c + 1) then 0 else c + 1 in
    let p = suc (length s.tasks) in
    do
      (m, id) ← handlemap_new mem s.task p
      let t : Task = record { ud = ud; status = init; thread = c; id = id }
      s' ←
          commit_task (record s { current = next; task = m; tasks = s.tasks ++ (some t ∷ []) }) p
            init
      t' ← deref s'.tasks p
      ok (s', t'.id)

unfoldable pub schedule_closetask : Schedule → TaskId → Run Schedule
schedule_closetask s t = release_task s t

-- queue_pop(s->q[t])
abbrev pub pop_ready : Schedule → ℕ → Run (TaskId × Schedule)
pop_ready s t = do
  q ← load s.q t
  (id, q') ← queue_pop q
  qs ← store s.q t q'
  ok (id % 2 ^ 32, record s { q = qs })

-- The loop over the other threads' queues, for `rounds` values of `i`.
unfoldable pub steal : Schedule → ℕ → ℕ → ℕ → Run (TaskId × Schedule)
steal s thread zero i = ok (0, s)
steal s thread (suc rounds) i = pop_ready s ((thread + i) % s.threads) >>= λ (id, s').
    let on = steal s' thread rounds (i + 1) in if id == 0 then on else ok (id, s')

-- One fetch of an id: from the thread's own queue, or from another's.
unfoldable pub next_ready : Schedule → ℕ → Run (TaskId × Schedule)
unfolding steal
next_ready s thread = pop_ready s thread >>= λ (id, s').
    if id == 0 then steal s' thread (s.threads - 1) 1 else ok (id, s')

-- The loop drops the ids of tasks that are gone, with fuel; NULL is returned for no task.
unfoldable pub schedule_grabtask : ℕ → Schedule → ℕ → Run (Schedule × Pointer)
unfolding next_ready
schedule_grabtask zero s thread = spent
schedule_grabtask (suc fuel) s thread = next_ready s thread >>= λ (id, s').
    if id == 0
    then ok (s', 0)
    else (handlemap_grab s'.task id >>= λ (m, p).
        let again = schedule_grabtask fuel (record s' { task = m }) thread in
        let run : Run (Schedule × Pointer) = do
          let here : Schedule = record s' { task = m }
          t ← deref here.tasks p
          assert (not (same_status t.status running))
          s'' ← put_task here p (record t { status = running; thread = thread })
          s3 ← release_task s'' id
          ok (s3, t.ud)
        in if p == 0 then again else run)

unfoldable pub schedule_releasetask : Schedule → TaskId → Run Schedule
schedule_releasetask s id = handlemap_grab s.task id >>= λ (m, p).
    let s' : Schedule = record s { task = m } in
    let back : Run Schedule = do
      t ← deref s'.tasks p
      assert (not (same_status t.status ready))
      s'' ← (if same_status t.status running then commit_task s' p running else ok s')
      release_task s'' id
    in if p == 0 then ok s' else back

-- The last reference frees the channel and its queues.
unfoldable pub release_channel : Schedule → ChannelId → Run Schedule
release_channel s id = do
  (m, p) ← handlemap_release s.channel id
  let s' : Schedule = record s { channel = m }
  if p == 0 then ok s' else do
    c ← deref s'.channels p
    gone ← queue_release c.mq false
    gone' ← queue_release c.reader false
    channels ← free s'.channels p
    ok (record s' { channels = channels })

-- The result of a block of code that has none.
abbrev pub Finished : Type 0
Finished = Unit {0}

abbrev pub finished : Finished
finished = tt

-- A block of code between the grab of a channel and its release; nothing runs for a closed channel.
abbrev pub with_channel {ℓ} :
    {A : Type ℓ}
    → Schedule
    → ChannelId
    → A
    → (Schedule → Pointer → Run (A × Schedule))
    → Run (A × Schedule)
with_channel s id closed body = handlemap_grab s.channel id >>= λ (m, p).
    let s' : Schedule = record s { channel = m } in
    let inside = body s' p >>= λ (a, s''). release_channel s'' id >>= λ s3. ok (a, s3) in
    if p == 0 then ok (closed, s') else inside

-- The first loop of schedule_select: the first channel with a message, or 0.
unfoldable pub first_message : Schedule → List ChannelId → Run (ChannelId × Schedule)
first_message s [] = ok (0, s)
first_message s (ch ∷ rest) =
    with_channel s ch false (λ s' p. deref s'.channels p >>= λ c. ok (not (queue_empty c.mq), s'))
    >>= λ (full, s'). let on = first_message s' rest in if full then ok (ch, s') else on

-- The second loop: the task is added to the readers of all channels.
unfoldable pub add_reader : Schedule → TaskId → List ChannelId → Run Schedule
add_reader s id [] = ok s
add_reader s id (ch ∷ rest) =
    with_channel s ch finished (λ s' p. deref s'.channels p >>= λ c. queue_push c.reader id >>= λ r.
    put_channel s' p (record c { reader = r }) >>= λ s''. ok (finished, s''))
    >>= λ (over, s'). add_reader s' id rest

unfoldable pub schedule_select : Schedule → TaskId → List ChannelId → Run (Schedule × ChannelId)
unfolding first_message add_reader
schedule_select s id channels = handlemap_grab s.task id >>= λ (m, p).
    let s' : Schedule = record s { task = m } in
    let block : Schedule → Run (Schedule × ChannelId) = λ s1. do
      t ← deref s1.tasks p
      s2 ← put_task s1 p (record t { status = blocked })
      s3 ← add_reader s2 id channels
      s4 ← release_task s3 id
      ok (s4, 0)
    in let choose : Run (Schedule × ChannelId) = first_message s' channels >>= λ (ch, s1).
    if ch == 0 then block s1 else (release_task s1 id >>= λ s2. ok (s2, ch)) in
      if p == 0 then ok (s', 0) else choose

unfoldable pub schedule_newchannel : Bool → Schedule → Run (Schedule × ChannelId)
schedule_newchannel mem s =
    let p = suc (length s.channels) in
    let c : Channel = record { mq = queue_create; reader = queue_create } in
    do
      (m, id) ← handlemap_new mem s.channel p
      ok (record s { channel = m; channels = s.channels ++ (some c ∷ []) }, id)

unfoldable pub schedule_closechannel : Schedule → ChannelId → Run Schedule
schedule_closechannel s id = release_channel s id

unfoldable pub schedule_isclosed : Schedule → ChannelId → Run (Bool × Schedule)
schedule_isclosed s id = with_channel s id true (λ s' p. ok (false, s'))

-- NULL from a closed channel or one with no message.
unfoldable pub schedule_recv : Schedule → ChannelId → Run (Pointer × Schedule)
schedule_recv s id = with_channel s id 0 (λ s' p. deref s'.channels p >>= λ c.
    queue_pop c.mq >>= λ (msg, mq).
    put_channel s' p (record c { mq = mq }) >>= λ s''. ok (msg, s''))

-- What is done to one reader of a channel that gets a message.
unfoldable pub wake : Schedule → TaskId → Run Schedule
wake s id = handlemap_grab s.task id >>= λ (m, p).
    let s' : Schedule = record s { task = m } in
    let notify : Run Schedule = do
      t ← deref s'.tasks p
      s'' ← (if same_status t.status blocked then commit_task s' p blocked else ok s')
      release_task s'' id
    in if p == 0 then ok s' else notify

-- The loop over the readers of the channel at `p`, with fuel.
unfoldable pub wake_loop : ℕ → Schedule → Pointer → Run Schedule
unfolding wake
wake_loop zero s p = spent
wake_loop (suc fuel) s p = do
  c ← deref s.channels p
  (id, reader) ← queue_pop c.reader
  s' ← put_channel s p (record c { reader = reader })
  let on = wake s' (id % 2 ^ 32) >>= λ s''. wake_loop fuel s'' p
  if id == 0 then ok s' else on

-- A queue holds fewer entries than cells, so its cells are rounds enough.
unfoldable pub schedule_send : Schedule → ChannelId → Pointer → Run Schedule
unfolding wake_loop
schedule_send s id msg =
    with_channel s id finished (λ s' p. do
      c ← deref s'.channels p
      mq ← queue_push c.mq msg
      s1 ← put_channel s' p (record c { mq = mq })
      s2 ← wake_loop (suc c.reader.n) s1 p
      ok (finished, s2))
    >>= λ (over, s3). ok s3
