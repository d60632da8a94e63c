-- ===== src/Schedule/Grab.antt =====
-- schedule_grabtask of src/ltask/schedule.c on a worker's own queue.
use grt.Base.{
  ℕ, suc, ◌-◌, ◌%◌, ◌^◌, ◌≡◌, refl, List, ◌∷◌, some, false, arith, get_elem?-lt, get_elem?-set, set,
  ◌==◌,
}
use native.Mathlib.Nat.{mod-eq_of_lt}
use grt.Base.Run.{ok, load-ok, store-ok}
use grt.Queue.Fifo.{queue_pop-Stores}
use grt.HandleMap.{Pointer}
use grt.Schedule.{Schedule, Task, TaskId, running, same_status, schedule_grabtask}
use grt.Schedule.Views.{Live-lt, Known, assign-deref, during, grab-Live, release_task-during}
use grt.Schedule.Tasks.{Queued}

-- What becomes of a task that a worker takes from the head of its queue.
pub record Taken (s s' : Schedule) (id : TaskId) (p : Pointer) (t : Task) (thread : ℕ)
    (ids : List TaskId) : Type 0 where
  pub known : Known s' id p (record t { status = running; thread = thread })
  pub queued : Queued s' thread ids
  pub channel_kept : s'.channel ≡ s.channel
  pub channels_kept : s'.channels ≡ s.channels
  pub task_kept : s'.task ≡ s.task

pub schedule_grabtask-ready :
    {s : Schedule} {id : TaskId} {p : Pointer} {t : Task} {ids : List TaskId} (fuel thread : ℕ)
    → Known s id p t
    → Queued s thread (id ∷ ids)
    → same_status t.status running ≡ false
    → (s' : Schedule) × (schedule_grabtask (suc fuel) s thread ≡ ok (s', t.ud))
      × Taken s s' id p t thread ids
unfolding schedule_grabtask
schedule_grabtask-ready {s} {id} {p} {t} {ids} fuel thread k qd idle =
    let (q', run, st) = queue_pop-Stores id ids qd.stores in
    let lt = get_elem?-lt s.q thread qd.at in
    let some_p : (p == 0) ≡ false = ground (arith, k.live.non_null) in
    let some_id : (id == 0) ≡ false = ground (arith, qd.stores.non_null 0) in
    let small : id % 2 ^ 32 ≡ id = mod-eq_of_lt (Live-lt k.live) in
    let new : Task = record t { status = running; thread = thread } in
    let (wrote, there) = assign-deref s.tasks p t new k.at in
    let taken : Schedule = record s {
      q = set s.q thread q';
      tasks = set s.tasks (p - 1) (some new);
    } in
    (
      taken,
      rw (
        load-ok s.q thread qd.at,
        run,
        store-ok s.q thread q' lt,
        small,
        some_id,
        some_id,
        grab-Live k.live,
        some_p,
        k.at,
        idle,
        wrote,
        release_task-during k.live (record taken { task = during k.live }) refl,
      ),
      record {
        known = record { live = k.live; at = there };
        queued = record {
          queue = q';
          at = ground (arith, get_elem?-set s.q thread thread q' lt);
          stores = st;
        };
        channel_kept = refl;
        channels_kept = refl;
        task_kept = refl;
      },
    )
