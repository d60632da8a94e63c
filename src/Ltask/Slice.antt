-- ===== src/Ltask/Slice.antt =====
-- run_slice of src/ltask/ltask.c for a task that yields.
use grt.Base.{
  ℕ, suc, ◌≡◌, ◌≢◌, refl, List, [], ◌∷◌, ◌++◌, some, true, false, arith, ◌==◌, subst, sym, ◌∙◌,
}
use grt.Base.Run.{Run, ok}
use grt.HandleMap.{Pointer}
use grt.Schedule.{Schedule, Task, TaskId, ready, running, same_status, deref}
use grt.Schedule.Views.{Known}
use grt.Schedule.Tasks.{Queued, schedule_releasetask-running}
use grt.Schedule.Grab.{schedule_grabtask-ready}
use grt.Ltask.{Process, LuaTask, with_schedule, Resumed, yielded, run_slice}

-- A worker whose queue begins with the id of a ready task with a live state, of an id that both
-- records of the task agree on, runs this state; when that yields and changes nothing, the slice
-- ends well, the task is ready again with this worker as its thread, and its id is at the end of
-- the queue.
pub run_slice-yielded :
    (resume : Pointer → Process → Run (Process × Resumed)) {g : Process} {s : Schedule}
    {id : TaskId} {p : Pointer} {t : Task} {ids : List TaskId} {o : LuaTask} (fuel w : ℕ)
    → g.schedule ≡ some s
    → Known s id p t
    → t.status ≡ ready
    → t.id ≡ id
    → Queued s w (id ∷ ids)
    → t.ud ≢ 0
    → deref g.ltasks t.ud ≡ ok o
    → o.id ≡ id
    → ((h : Process) → resume o.vm h ≡ ok (h, yielded))
    → (s' : Schedule) × (run_slice resume (suc fuel) g w ≡ ok (with_schedule g s', true))
      × Known s' id p (record t { status = ready; thread = w })
      × Queued s' w (ids ++ id ∷ [])
unfolding run_slice
run_slice-yielded resume {g} {s} {id} {p} {t} {ids} {o} fuel w started k is_ready named qd nz at own
      yields =
    let idle : same_status t.status running ≡ false = rw is_ready refl in
    let (s1, grabbed, taken) = schedule_grabtask-ready fuel w k qd idle in
    let id_nz : id ≢ 0 = ground (arith, qd.stores.non_null 0) in
    let (s2, returned, back) =
      schedule_releasetask-running taken.known taken.queued (λ e. id_nz (sym named ∙ e)) refl in
    let some_task : (t.ud == 0) ≡ false = ground (arith, nz) in
    (
      s2,
      rw (started, grabbed, some_task, at, yields (with_schedule g s1), at, own, returned),
      back.known,
      subst (λ i. Queued s2 w (ids ++ i ∷ [])) named back.queued,
    )
