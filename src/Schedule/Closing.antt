-- ===== src/Schedule/Closing.antt =====
-- Closing tasks and channels, and returning a task, on a well-formed state of src/ltask/schedule.c.
use grt.Base.{
  zero, suc, ◌-◌, ◌≡◌, ◌≢◌, ◌⊎◌, refl, ◌∙◌, ap, subst, List, Option, none, some, Bool, true, false,
  arith, set, get_elem?, get_elem?-lt, ◌==◌, if◌then◌else◌, Option-cases, inl, inr,
}
use grt.Base.Run.{ok, aborted, store, store-ok}
use grt.Queue.{queue_release}
use grt.HandleMap.{HandleMap, HandleId, Pointer, Slot, handlemap_release}
use grt.HandleMap.Count.{decr, is_pos}
use grt.HandleMap.Shape.{IsMap}
use grt.HandleMap.Find.{find}
use grt.HandleMap.Refs.{
  handlemap_grab-none, handlemap_release-none, handlemap_release-some, Updates,
}
use grt.Schedule.{
  Schedule, Task, TaskId, ChannelId, Status, running, ready, blocked, dead, init, deref,
  release_task, release_channel, schedule_closetask, schedule_closechannel, schedule_releasetask,
}
use grt.Schedule.Views.{Known, assign-deref}
use grt.Schedule.Tasks.{
  schedule_releasetask-running, schedule_releasetask-ready, schedule_releasetask-other,
}
use grt.Schedule.Names.{Names-Live, Names-set, Names-less, Names-free}
use grt.Schedule.Whole.{GoodTask, IsSchedule, queue_of, Readied-GoodWith}
use grt.Schedule.Steps.{Keeps-IsSchedule}
use grt.Schedule.Opening.{Ends}

-- A release leaves references, or was of the last one.
released :
    {m : HandleMap} (id : HandleId) (slot : Slot)
    → IsMap m
    → find m id ≡ some slot
    → slot.ud ≢ 0
    → (m' : HandleMap) × (((handlemap_release m id ≡ ok (m', 0))
          × Updates m m' id (some (record slot { ref = decr slot.ref }))
          × (is_pos (decr slot.ref) ≡ true))
        ⊎ ((handlemap_release m id ≡ ok (m', slot.ud)) × Updates m m' id none))
released {m} id slot v found nz =
    let (m', run, u) = handlemap_release-some id slot v found nz in
    let less : Slot = record slot { ref = decr slot.ref } in
    (m', split (is_pos (decr slot.ref)) refl less m' run u)
  where
    split :
        (b : Bool)
        → is_pos (decr slot.ref) ≡ b
        → (less : Slot) (m' : HandleMap)
        → handlemap_release m id ≡ ok (m', if is_pos (decr slot.ref) then 0 else slot.ud)
        → Updates m m' id (if is_pos (decr slot.ref) then some less else none)
        → ((handlemap_release m id ≡ ok (m', 0))
            × Updates m m' id (some less)
            × (is_pos (decr slot.ref) ≡ true))
          ⊎ ((handlemap_release m id ≡ ok (m', slot.ud)) × Updates m m' id none)
    split true e less m' run u = inl (
      run ∙ ap (λ b. ok (m', if b then 0 else slot.ud)) e,
      subst (λ b. Updates m m' id (if b then some less else none)) e u,
      e,
    )
    split false e less m' run u = inr (
      run ∙ ap (λ b. ok (m', if b then 0 else slot.ud)) e,
      subst (λ b. Updates m m' id (if b then some less else none)) e u,
    )

free-ok :
    {A : Type 0} (memory : List (Option A)) (p : Pointer) (a : A)
    → deref memory p ≡ ok a
    → store memory (p - 1) none ≡ ok (set memory (p - 1) none)
free-ok memory zero a at = absurd (ground arith)
free-ok memory (suc p) a at =
    let here : get_elem? memory p ≡ some (some a) = ground arith in
    let place : suc p - 1 ≡ p = omega arith in
    rw place (store-ok memory p none (get_elem?-lt memory p here))

module _ {s : Schedule} (v : IsSchedule s) where
  pub schedule_closechannel-Ends : (id : ChannelId) → Ends (schedule_closechannel s id)
  unfolding schedule_closechannel release_channel queue_release
  schedule_closechannel-Ends id = elim (Option-cases (find s.channel id)) [
    | inl unknown ↦ (s, rw (handlemap_release-none id v.channels.valid unknown) refl, v)
    | inr (slot, found) ↦
        let (held, non_null, c, at, good) = v.channels.named id slot found in
        let some_p : (slot.ud == 0) ≡ false = ground arith in
        let (m', how) = released id slot v.channels.valid found non_null in
        elim how [
          | inl (run, u, more) ↦ (
            record s { channel = m' },
            rw run refl,
            record {
              channels =
                  Names-less v.channels id slot (record slot { ref = decr slot.ref }) found u more
                    refl;
              tasks = v.tasks;
              all_queues = v.all_queues;
              queues = v.queues;
              turn = v.turn;
            },
          )
          | inr (run, u) ↦ (
            record s { channel = m'; channels = set s.channels (slot.ud - 1) none },
            rw (run, some_p, at, free-ok s.channels slot.ud c at) refl,
            record {
              channels = Names-free v.channels id slot found u;
              tasks = v.tasks;
              all_queues = v.all_queues;
              queues = v.queues;
              turn = v.turn;
            },
          )
        ]
  ]

  pub schedule_closetask-Ends : (id : TaskId) → Ends (schedule_closetask s id)
  unfolding schedule_closetask release_task
  schedule_closetask-Ends id = elim (Option-cases (find s.task id)) [
    | inl unknown ↦ (s, rw (handlemap_release-none id v.tasks.valid unknown) refl, v)
    | inr (slot, found) ↦
        let (held, non_null, t, at, good) = v.tasks.named id slot found in
        let some_p : (slot.ud == 0) ≡ false = ground arith in
        let gone : Task = record t { status = dead } in
        let (wrote, at') = assign-deref s.tasks slot.ud t gone at in
        let marked =
          Names-set v.tasks slot.ud t gone at
            (record { inside = good.inside; named = good.named }) in
        let (m', how) = released id slot v.tasks.valid found non_null in
        elim how [
          | inl (run, u, more) ↦ (
            record s { task = m' },
            rw run refl,
            record {
              channels = v.channels;
              tasks =
                  Names-less v.tasks id slot (record slot { ref = decr slot.ref }) found u more
                    refl;
              all_queues = v.all_queues;
              queues = v.queues;
              turn = v.turn;
            },
          )
          | inr (run, u) ↦ (
            record s {
              task = m';
              tasks = set (set s.tasks (slot.ud - 1) (some gone)) (slot.ud - 1) none;
            },
            rw
                (
                  run,
                  some_p,
                  at,
                  wrote,
                  free-ok (set s.tasks (slot.ud - 1) (some gone)) slot.ud gone at',
                  at',
                )
                refl,
            record {
              channels = v.channels;
              tasks = Names-free marked id slot found u;
              all_queues = v.all_queues;
              queues = v.queues;
              turn = v.turn;
            },
          )
        ]
  ]

  -- It ends well, or fails the assertion that the task is not ready.
  pub schedule_releasetask-Ends :
      (id : TaskId) → (schedule_releasetask s id ≡ aborted) ⊎ Ends (schedule_releasetask s id)
  unfolding schedule_releasetask
  schedule_releasetask-Ends id = elim (Option-cases (find s.task id)) [
    | inl unknown ↦ inr (s, rw (handlemap_grab-none id v.tasks.valid unknown) refl, v)
    | inr (slot, found) ↦
        let (held, non_null, t, at, good) = v.tasks.named id slot found in
        let k : Known s id slot.ud t = record {
          live = Names-Live v.tasks id slot found;
          at = at;
        } in
        of_status k good t.status refl
  ]
    where
      of_status :
          {p : Pointer} {t : Task}
          → Known s id p t
          → GoodTask s.threads t
          → (st : Status) → t.status ≡ st
          → (schedule_releasetask s id ≡ aborted) ⊎ Ends (schedule_releasetask s id)
      of_status k good ready e = inl (schedule_releasetask-ready k e)
      of_status {p} {t} k good running e =
          let (ids, queued) = queue_of v t.thread good.inside in
          let (s', run, r) = schedule_releasetask-running k queued good.named e in
          inr (
            s',
            run,
            Keeps-IsSchedule s (Readied-GoodWith v r k.at good) r.channel_kept r.task_kept,
          )
      of_status k good blocked e = inr (s, schedule_releasetask-other k (rw e refl) (rw e refl), v)
      of_status k good dead e = inr (s, schedule_releasetask-other k (rw e refl) (rw e refl), v)
      of_status k good init e = inr (s, schedule_releasetask-other k (rw e refl) (rw e refl), v)
