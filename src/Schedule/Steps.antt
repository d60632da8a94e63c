-- ===== src/Schedule/Steps.antt =====
-- Operations on the channels of src/ltask/schedule.c, on a well-formed state: each ends well, and leaves
-- such a state.
use grt.Base.{
  suc, ◌<◌, ◌≡◌, ◌≢◌, refl, sym, ◌∙◌, ap, subst, List, [], ◌∷◌, ◌++◌, true, false, arith, length,
  Option-cases, inl, inr,
}
use grt.Base.Run.{Run, ok, ◌>>=◌}
use grt.Queue.Shape.{Stores}
use grt.Queue.Fifo.{queue_push-Stores, queue_pop-Stores, queue_pop-nil}
use grt.HandleMap.{HandleMap, Pointer}
use grt.HandleMap.Find.{find}
use grt.HandleMap.Refs.{handlemap_grab-none}
use grt.Schedule.{
  Schedule, Channel, ChannelId, deref, with_channel, finished, schedule_recv, schedule_isclosed,
}
use grt.Schedule.Views.{during, assign-deref, with_channel-Open}
use grt.Schedule.Channels.{with_content, deliver, receive}
use grt.Schedule.Names.{Names-Live}
use grt.Schedule.Whole.{GoodChannel, GoodWith, IsSchedule, content-GoodWith, wake_loop-GoodWith}

-- Only the maps that are given count.
pub held-GoodWith :
    {m mt : HandleMap} {s : Schedule} (channel task : HandleMap)
    → GoodWith m mt s
    → GoodWith m mt (record s { channel = channel; task = task })
held-GoodWith channel task v = record {
  channels = v.channels;
  tasks = v.tasks;
  all_queues = v.all_queues;
  queues = v.queues;
  turn = v.turn;
}

-- The step ends well in a state with the same map of tasks, which is well formed with that of channels.
abbrev pub Keeps : {A : Type 0} → HandleMap → HandleMap → Schedule → Run (A × Schedule) → Type 0
Keeps {A} m mt s r =
    (a : A) × (s' : Schedule) × (r ≡ ok (a, s'))
    × GoodWith m mt s'
    × (s'.channel ≡ s.channel)
    × (s'.task ≡ s.task)

pub bind-Keeps :
    {A B : Type 0} {m mt : HandleMap} (s : Schedule) (r : Run A) (f : A → Run (B × Schedule))
    {a : A}
    → r ≡ ok a
    → Keeps m mt s (f a)
    → Keeps m mt s (r >>= f)
bind-Keeps s r f e (b, s', run, v, kept, kept_t) =
    (b, s', ap (λ x. x >>= f) e ∙ run, v, kept, kept_t)

-- A block over a channel: the channel is closed, or the block does its work.
pub with_channel-Keeps :
    {A : Type 0} {mt : HandleMap} {s : Schedule} (id : ChannelId) (closed : A)
    (body : Schedule → Pointer → Run (A × Schedule))
    → GoodWith s.channel mt s
    → ((held : HandleMap) (p : Pointer) (c : Channel)
        → GoodChannel c
        → deref s.channels p ≡ ok c
        → Keeps s.channel mt (record s { channel = held }) (body (record s { channel = held }) p))
    → Keeps s.channel mt s (with_channel s id closed body)
with_channel-Keeps {A} {mt} {s} id closed body v inside = elim (Option-cases (find s.channel id)) [
  | inl unknown ↦
      (closed, s, rw (handlemap_grab-none id v.channels.valid unknown) refl, v, refl, refl)
  | inr (slot, found) ↦
      let (held, non_null, c, at, good) = v.channels.named id slot found in
      let l = Names-Live v.channels id slot found in
      let (a, s', run, v', kept, kept_t) = inside (during l) slot.ud c good at in
      (
        a,
        record s' { channel = s.channel },
        with_channel-Open id slot.ud l closed a body s' run kept,
        held-GoodWith s.channel s'.task v',
        refl,
        kept_t,
      )
]

module _ {s : Schedule} (v : IsSchedule s) (id : ChannelId) where
  pub schedule_isclosed-Keeps : Keeps s.channel s.task s (schedule_isclosed s id)
  unfolding schedule_isclosed
  schedule_isclosed-Keeps =
      with_channel-Keeps id true (λ s' p. ok (false, s')) v
        (λ held p c good at.
          (false, record s { channel = held }, refl, held-GoodWith held s.task v, refl, refl))

  pub schedule_recv-Keeps : Keeps s.channel s.task s (schedule_recv s id)
  unfolding schedule_recv
  schedule_recv-Keeps =
      with_channel-Keeps id 0 receive v
        λ held p c good at. take held p c good at good.messages good.mq_stores
    where
      take :
          (held : HandleMap) (p : Pointer) (c : Channel)
          → GoodChannel c
          → deref s.channels p ≡ ok c
          → (msgs : List Pointer) → Stores c.mq msgs
          → Keeps s.channel s.task
              (record s { channel = held })
              (receive (record s { channel = held }) p)
      take held p c good at [] stores = (
        0,
        record (with_content s p c) { channel = held },
        rw (at, queue_pop-nil stores, (assign-deref s.channels p c c at).0) refl,
        held-GoodWith held s.task (content-GoodWith v p c c at good),
        refl,
        refl,
      )
      take held p c good at (msg ∷ msgs) stores =
          let (mq, run, left) = queue_pop-Stores msg msgs stores in
          let new : Channel = record c { mq = mq } in
          (
            msg,
            record (with_content s p new) { channel = held },
            rw (at, run, (assign-deref s.channels p c new at).0) refl,
            held-GoodWith held s.task (
                content-GoodWith v p c new at (record {
                  messages = msgs;
                  readers = good.readers;
                  mq_stores = left;
                  reader_stores = good.reader_stores;
                })),
            refl,
            refl,
          )

  pub schedule_send-inside :
      (msg : Pointer)
      → msg ≢ 0
      → Keeps s.channel s.task s (with_channel s id finished (deliver msg))
  schedule_send-inside msg nz = with_channel-Keeps id finished (deliver msg) v λ held p c good at.
      let (mq, run, stores) = queue_push-Stores msg good.mq_stores nz in
      let new : Channel = record c { mq = mq } in
      let good' : GoodChannel new = record {
        messages = good.messages ++ msg ∷ [];
        readers = good.readers;
        mq_stores = stores;
        reader_stores = good.reader_stores;
      } in
      let (wrote, at') = assign-deref s.channels p c new at in
      let s1 : Schedule = record (with_content s p new) { channel = held } in
      let v1 = held-GoodWith held s.task (content-GoodWith v p c new at good') in
      let enough : length good.readers < suc c.reader.n = omega (arith, good.reader_stores.roomy) in
      let (s2, woken, v2, kept_t, kept) =
        wake_loop-GoodWith (suc c.reader.n) s.channel s1 p new good' v1 at' enough in
      (
        finished,
        s2,
        rw (at, run, wrote, woken) refl,
        subst (λ x. GoodWith s.channel x s2) kept_t v2,
        kept,
        kept_t,
      )

pub Keeps-IsSchedule :
    (s : Schedule) {s' : Schedule}
    → GoodWith s.channel s.task s'
    → s'.channel ≡ s.channel
    → s'.task ≡ s.task
    → IsSchedule s'
Keeps-IsSchedule s {s'} v e e' =
    subst (λ m. GoodWith m s'.task s') (sym e) (subst (λ m. GoodWith s.channel m s') (sym e') v)

-- The operation ends well in a well-formed state.
abbrev pub Safe : {A : Type 0} → Run (A × Schedule) → Type 0
Safe {A} r = (a : A) × (s' : Schedule) × (r ≡ ok (a, s')) × IsSchedule s'

pub Keeps-Safe :
    {A : Type 0} (s : Schedule) (r : Run (A × Schedule)) → Keeps s.channel s.task s r → Safe r
Keeps-Safe s r (a, s', run, v, e, e') = (a, s', run, Keeps-IsSchedule s v e e')
