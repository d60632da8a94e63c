-- ===== src/Schedule/Tasks.antt =====
-- Tasks of src/ltask/schedule.c: waking, running and returning them.
use grt.Base.{
  ℕ, ◌-◌, ◌<◌, ◌≡◌, ◌≢◌, refl, List, [], ◌∷◌, ◌++◌, some, true, false, arith, length, get_elem?,
  get_elem?-lt, get_elem?-set, set, ◌==◌,
}
use grt.Base.Run.{ok, aborted, load-ok, store-ok}
use grt.Queue.{Queue, queue_push}
use grt.Queue.Shape.{Stores}
use grt.Queue.Fifo.{queue_push-Stores}
use grt.HandleMap.{Pointer}
use grt.Schedule.{
  Schedule, Task, TaskId, Status, running, ready, blocked, same_status, commit_task,
  schedule_releasetask, wake,
}
use grt.Schedule.Views.{Known, assign-deref, during, grab-Live, release_task-during}

-- The thread's queue of `s` stores the ids `ids`.
pub record Queued (s : Schedule) (thread : ℕ) (ids : List TaskId) : Type 0 where
  pub queue : Queue
  pub at : get_elem? s.q thread ≡ some queue
  pub stores : Stores queue ids

-- What becomes of a task that is made ready: its status, and its id at the end of its thread's queue.
pub record Readied (s s' : Schedule) (id : TaskId) (p : Pointer) (t : Task) (ids : List TaskId)
    : Type 0 where
  pub known : Known s' id p (record t { status = ready })
  pub queued : Queued s' t.thread (ids ++ t.id ∷ [])
  pub all_of_it : s' ≡ record s {
    tasks = set s.tasks (p - 1) (some (record t { status = ready }));
    q = set s.q t.thread queued.queue;
  }
  pub channel_kept : s'.channel ≡ s.channel
  pub channels_kept : s'.channels ≡ s.channels
  pub task_kept : s'.task ≡ s.task

module _ {s : Schedule} {id : TaskId} {p : Pointer} {t : Task} {ids : List TaskId}
    (k : Known s id p t) (qd : Queued s t.thread ids) (nz : t.id ≢ 0) where
  -- the state while the task is grabbed
  abbrev held : Schedule
  held = record s { task = during k.live }

  pushed : (q' : Queue) × (queue_push qd.queue t.id ≡ ok q') × Stores q' (ids ++ t.id ∷ [])
  pushed = queue_push-Stores t.id qd.stores nz

  abbrev lt : t.thread < length s.q
  lt = get_elem?-lt s.q t.thread qd.at

  -- the state when the task is ready, and still grabbed
  abbrev woken : Schedule
  woken = record held {
    tasks = set s.tasks (p - 1) (some (record t { status = ready }));
    q = set s.q t.thread pushed.0;
  }

  -- The status is the one asked for: the task is made ready and queued.
  commit_task-ok : (st : Status) → same_status t.status st ≡ true → commit_task held p st ≡ ok woken
  unfolding commit_task
  commit_task-ok st e =
      let (wrote, there) = assign-deref s.tasks p t (record t { status = ready }) k.at in
      rw (k.at, e, wrote, load-ok s.q t.thread qd.at, pushed.1, store-ok s.q t.thread pushed.0 lt)

  -- the state when the task is ready and released
  abbrev after : Schedule
  after = record woken { task = s.task }

  after-Readied : Readied s after id p t ids
  after-Readied =
      let (wrote, there) = assign-deref s.tasks p t (record t { status = ready }) k.at in
      record {
        known = record { live = k.live; at = there };
        queued = record {
          queue = pushed.0;
          at = ground (arith, get_elem?-set s.q t.thread t.thread pushed.0 lt);
          stores = pushed.2;
        };
        all_of_it = refl;
        channel_kept = refl;
        channels_kept = refl;
        task_kept = refl;
      }

  -- A live blocked task with an id other than 0, met as a reader in schedule_send, becomes ready,
  -- its id goes to the end of the queue of its thread, and the maps and channels are as before.
  pub wake-blocked :
      t.status ≡ blocked → (s' : Schedule) × (wake s id ≡ ok s') × Readied s s' id p t ids
  unfolding wake
  wake-blocked e =
      let some_p : (p == 0) ≡ false = ground (arith, k.live.non_null) in
      let same : same_status t.status blocked ≡ true = rw e refl in
      (
        after,
        rw (
          grab-Live k.live,
          some_p,
          k.at,
          same,
          commit_task-ok blocked same,
          release_task-during k.live woken refl,
        ),
        after-Readied,
      )

  -- schedule_releasetask of a live running task with an id other than 0 makes it ready and puts
  -- its id at the end of the queue of its thread; the maps and channels are as before.
  pub schedule_releasetask-running :
      t.status ≡ running
      → (s' : Schedule) × (schedule_releasetask s id ≡ ok s') × Readied s s' id p t ids
  unfolding schedule_releasetask
  schedule_releasetask-running e =
      let some_p : (p == 0) ≡ false = ground (arith, k.live.non_null) in
      let same : same_status t.status running ≡ true = rw e refl in
      let other : same_status t.status ready ≡ false = rw e refl in
      (
        after,
        rw (
          grab-Live k.live,
          some_p,
          k.at,
          other,
          same,
          commit_task-ok running same,
          release_task-during k.live woken refl,
        ),
        after-Readied,
      )

module _ {s : Schedule} {id : TaskId} {p : Pointer} {t : Task} (k : Known s id p t) where
  -- A task that is not blocked is left as it is.
  pub wake-other : same_status t.status blocked ≡ false → wake s id ≡ ok s
  unfolding wake
  wake-other e =
      let some_p : (p == 0) ≡ false = ground (arith, k.live.non_null) in
      rw (
        grab-Live k.live,
        some_p,
        k.at,
        e,
        release_task-during k.live (record s { task = during k.live }) refl,
      )

  -- A task that is neither ready nor running is left as it is.
  pub schedule_releasetask-other :
      same_status t.status ready ≡ false
      → same_status t.status running ≡ false
      → schedule_releasetask s id ≡ ok s
  unfolding schedule_releasetask
  schedule_releasetask-other other still =
      let some_p : (p == 0) ≡ false = ground (arith, k.live.non_null) in
      rw (
        grab-Live k.live,
        some_p,
        k.at,
        other,
        still,
        release_task-during k.live (record s { task = during k.live }) refl,
      )

  -- So does one that blocked in a select when its worker returns it.
  pub schedule_releasetask-blocked : t.status ≡ blocked → schedule_releasetask s id ≡ ok s
  schedule_releasetask-blocked e = schedule_releasetask-other (rw e refl) (rw e refl)

  -- A task that is ready already fails the assertion of schedule_releasetask.
  pub schedule_releasetask-ready : t.status ≡ ready → schedule_releasetask s id ≡ aborted
  unfolding schedule_releasetask
  schedule_releasetask-ready e =
      let some_p : (p == 0) ≡ false = ground (arith, k.live.non_null) in
      let same : same_status t.status ready ≡ true = rw e refl in
      rw (grab-Live k.live, some_p, k.at, same)

-- When a live blocked task with an id other than 0 is woken by a message before its worker has
-- returned it, the schedule_releasetask of its worker fails its assertion.
pub wake-before_release :
    {s : Schedule} {id : TaskId} {p : Pointer} {t : Task} {ids : List TaskId}
    → Known s id p t
    → Queued s t.thread ids
    → t.id ≢ 0
    → t.status ≡ blocked
    → (s' : Schedule) × (wake s id ≡ ok s') × (schedule_releasetask s' id ≡ aborted)
wake-before_release k qd nz e =
    let (s', run, r) = wake-blocked k qd nz e in (s', run, schedule_releasetask-ready r.known refl)
