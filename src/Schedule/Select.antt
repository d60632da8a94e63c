-- ===== src/Schedule/Select.antt =====
-- schedule_select of src/ltask/schedule.c on a well-formed state.
use grt.Base.{
  ◌-◌, ◌≡◌, ◌≢◌, refl, sym, ◌∙◌, ap, subst, List, [], ◌∷◌, ◌++◌, some, Bool, true, false, not,
  arith, set, ◌==◌, if◌then◌else◌, Bool-cases, Option-cases, inl, inr,
}
use grt.Base.Run.{Run, ok, ◌>>=◌}
use grt.Queue.{queue_empty, queue_push}
use grt.Queue.Fifo.{queue_push-Stores}
use grt.HandleMap.{HandleMap, Pointer}
use grt.HandleMap.Find.{find, find-slot}
use grt.HandleMap.Refs.{handlemap_grab-none}
use grt.Schedule.{
  Schedule, Task, TaskId, Channel, ChannelId, blocked, deref, put_channel, with_channel, Finished,
  finished, schedule_select, first_message, add_reader, put_task, release_task,
}
use grt.Schedule.Views.{Live, during, grab-Live, assign-deref, release_task-during}
use grt.Schedule.Channels.{with_content}
use grt.Schedule.Names.{Names-Live, Names-set}
use grt.Schedule.Whole.{GoodTask, GoodWith, IsSchedule, content-GoodWith}
use grt.Schedule.Steps.{held-GoodWith, Keeps, bind-Keeps, with_channel-Keeps}

first_message-Keeps :
    {mt : HandleMap} (s : Schedule) (chs : List ChannelId)
    → GoodWith s.channel mt s
    → Keeps s.channel mt s (first_message s chs)
unfolding first_message
first_message-Keeps s [] v = (0, s, refl, v, refl, refl)
first_message-Keeps {mt} s (ch ∷ rest) v =
    let look : Schedule → Pointer → Run (Bool × Schedule) =
      λ s' p. deref s'.channels p >>= λ c. ok (not (queue_empty c.mq), s') in
    let (full, s1, run, v1, e, e') = with_channel-Keeps ch false look v (λ held p c good at. (
      not (queue_empty c.mq),
      record s { channel = held },
      rw at refl,
      held-GoodWith held s.task v,
      refl,
      refl,
    )) in
    let others = first_message-Keeps s1 rest (subst (λ m. GoodWith m mt s1) (sym e) v1) in
    bind-Keeps s (with_channel s ch false look) _ run (picked full s1 v1 e e' others)
  where
    picked :
        (full : Bool) (s1 : Schedule)
        → GoodWith s.channel mt s1
        → s1.channel ≡ s.channel
        → s1.task ≡ s.task
        → Keeps s1.channel mt s1 (first_message s1 rest)
        → Keeps s.channel mt s (if full then ok (ch, s1) else first_message s1 rest)
    picked true s1 v1 e e' others = (ch, s1, refl, v1, e, e')
    picked false s1 v1 e e' (ch', s2, run, v2, e2, e2') =
        (ch', s2, run, subst (λ m. GoodWith m mt s2) e v2, e2 ∙ e, e2' ∙ e')

-- The block of the second loop of schedule_select.
abbrev read_from : TaskId → Schedule → Pointer → Run (Finished × Schedule)
read_from id s' p = deref s'.channels p >>= λ c. queue_push c.reader id >>= λ r.
    put_channel s' p (record c { reader = r }) >>= λ s''. ok (finished, s'')

read_from-Keeps :
    {mt : HandleMap} (s : Schedule) (id : TaskId) (ch : ChannelId)
    → id ≢ 0
    → GoodWith s.channel mt s
    → Keeps s.channel mt s (with_channel s ch finished (read_from id))
read_from-Keeps s id ch nz v = with_channel-Keeps ch finished (read_from id) v λ held p c good at.
    let (reader, run, stores) = queue_push-Stores id good.reader_stores nz in
    let new : Channel = record c { reader = reader } in
    (
      finished,
      record (with_content s p new) { channel = held },
      rw (at, run, (assign-deref s.channels p c new at).0) refl,
      held-GoodWith held s.task (
          content-GoodWith v p c new at (record {
            messages = good.messages;
            readers = good.readers ++ id ∷ [];
            mq_stores = good.mq_stores;
            reader_stores = stores;
          })),
      refl,
      refl,
    )

add_reader-Keeps :
    {mt : HandleMap} (s : Schedule) (id : TaskId) (chs : List ChannelId)
    → id ≢ 0
    → GoodWith s.channel mt s
    → (s' : Schedule) × (add_reader s id chs ≡ ok s')
      × GoodWith s.channel mt s'
      × (s'.channel ≡ s.channel)
      × (s'.task ≡ s.task)
unfolding add_reader
add_reader-Keeps s id [] nz v = (s, refl, v, refl, refl)
add_reader-Keeps {mt} s id (ch ∷ rest) nz v =
    let (over, s1, run, v1, e, e') = read_from-Keeps s id ch nz v in
    let (s2, others, v2, e2, e2') =
      add_reader-Keeps s1 id rest nz (subst (λ m. GoodWith m mt s1) (sym e) v1) in
    (
      s2,
      ap (λ x. x >>= λ (over, s'). add_reader s' id rest) run ∙ others,
      subst (λ m. GoodWith m mt s2) e v2,
      e2 ∙ e,
      e2' ∙ e',
    )

-- schedule_select ends well: it finds a message, or blocks the task and makes it a reader of every channel.
pub schedule_select-Safe :
    {s : Schedule}
    → IsSchedule s
    → (id : TaskId) (chs : List ChannelId)
    → (s' : Schedule) × (ch : ChannelId) × (schedule_select s id chs ≡ ok (s', ch)) × IsSchedule s'
unfolding schedule_select
schedule_select-Safe {s} v id chs = elim (Option-cases (find s.task id)) [
  | inl unknown ↦ (s, 0, rw (handlemap_grab-none id v.tasks.valid unknown) refl, v)
  | inr (slot, found) ↦
      let l = Names-Live v.tasks id slot found in
      let some_p : (slot.ud == 0) ≡ false = ground (arith, l.non_null) in
      let held : Schedule = record s { task = during l } in
      let (ch, s1, run, v1, e, e') =
        first_message-Keeps held chs (held-GoodWith s.channel (during l) v) in
      elim (Bool-cases (ch == 0)) [
        | inr some_ch ↦ (
          record s1 { task = s.task },
          ch,
          rw (grab-Live l, some_p, run, some_ch, release_task-during l s1 e') refl,
          subst (λ m. GoodWith m s.task (record s1 { task = s.task })) (sym e)
              (held-GoodWith s1.channel s.task v1),
        )
        | inl no_ch ↦
            let (_, _, t, at, good) = v1.tasks.named id slot found in
            let (s3, blocks, v3, e3) =
              blocked_task l t s1 at good (find-slot s.task id found).0 e e' v1 in
            (
              record s3 { task = s.task },
              0,
              rw (grab-Live l, some_p, run, no_ch) blocks,
              subst (λ m. GoodWith m s.task (record s3 { task = s.task })) (sym e3)
                  (held-GoodWith s3.channel s.task v3),
            )
      ]
]
  where
    none_chosen : Schedule → Run (Schedule × ChannelId)
    none_chosen s4 = ok (s4, 0)

    back : Schedule → Run (Schedule × ChannelId)
    back s3 = release_task s3 id >>= none_chosen

    -- the task is blocked, and made a reader
    blocked_task :
        {p : Pointer} (l : Live s.task id p) (t : Task) (s1 : Schedule)
        → deref s1.tasks p ≡ ok t
        → GoodTask s1.threads t
        → id ≢ 0
        → s1.channel ≡ s.channel
        → s1.task ≡ during l
        → GoodWith s.channel s.task s1
        → (s3 : Schedule) × ((deref s1.tasks p >>= λ t.
              put_task s1 p (record t { status = blocked }) >>= λ s2. add_reader s2 id chs >>= back)
            ≡ ok (record s3 { task = s.task }, 0))
          × GoodWith s.channel s.task s3
          × (s3.channel ≡ s.channel)
    blocked_task {p} l t s1 at good nz e e' v1 =
        let new : Task = record t { status = blocked } in
        let s2 : Schedule = record s1 { tasks = set s1.tasks (p - 1) (some new) } in
        let v2 : GoodWith s.channel s.task s2 = record {
          channels = v1.channels;
          tasks =
              Names-set v1.tasks p t new at (record { inside = good.inside; named = good.named });
          all_queues = v1.all_queues;
          queues = v1.queues;
          turn = v1.turn;
        } in
        let (s3, run, v3, e3, e3') =
          add_reader-Keeps s2 id chs nz (subst (λ m. GoodWith m s.task s2) (sym e) v2) in
        (
          s3,
          rw (at, (assign-deref s1.tasks p t new at).0)
              (ap (λ x. x >>= back) run
                ∙ ap (λ x. x >>= none_chosen) (release_task-during l s3 (e3' ∙ e'))),
          subst (λ m. GoodWith m s.task s3) e v3,
          e3 ∙ e,
        )
