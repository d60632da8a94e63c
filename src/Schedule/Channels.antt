-- ===== src/Schedule/Channels.antt =====
-- Channels of src/ltask/schedule.c: messages go in and come out in order.
use grt.Base.{ℕ, suc, ◌-◌, ◌≡◌, ◌≢◌, refl, List, [], ◌∷◌, ◌++◌, none, some, true, false, set}
use grt.Base.Run.{Run, ok, ◌>>=◌}
use grt.Queue.{Queue, queue_push, queue_pop}
use grt.Queue.Shape.{Stores}
use grt.Queue.Fifo.{queue_push-Stores, queue_pop-Stores, queue_pop-nil}
use grt.HandleMap.{Pointer}
use grt.HandleMap.Shape.{IsMap}
use grt.HandleMap.Find.{find}
use grt.HandleMap.Refs.{handlemap_grab-none}
use grt.Schedule.{
  Schedule, Channel, ChannelId, deref, put_channel, wake_loop, Finished, finished,
  schedule_isclosed, schedule_recv, schedule_send,
}
use grt.Schedule.Views.{Open, assign-deref, during, with_channel-Open}

-- The state with a new content of the channel at `p`.
abbrev pub with_content : Schedule → Pointer → Channel → Schedule
with_content s p c = record s { channels = set s.channels (p - 1) (some c) }

put-Open :
    {s : Schedule} {id : ChannelId} {p : Pointer} {c : Channel} (o : Open s id p c) (new : Channel)
    → Open (with_content s p new) id p new
put-Open {s} {id} {p} {c} o new = record {
  live = o.live;
  at = (assign-deref s.channels p c new o.at).1;
}

-- The block of schedule_recv.
abbrev pub receive : Schedule → Pointer → Run (Pointer × Schedule)
receive s' p = deref s'.channels p >>= λ c.
    queue_pop c.mq >>= λ (msg, mq). put_channel s' p (record c { mq = mq }) >>= λ s''. ok (msg, s'')

module _ {s : Schedule} {id : ChannelId} {p : Pointer} {c : Channel} (o : Open s id p c) where
  -- Asking whether an open channel is closed says no, and changes nothing.
  pub schedule_isclosed-open : schedule_isclosed s id ≡ ok (false, s)
  unfolding schedule_isclosed
  schedule_isclosed-open =
      with_channel-Open id p o.live true false (λ s' p. ok (false, s'))
        (record s { channel = during o.live }) refl refl

  -- On an open channel that stores a first message, schedule_recv ends well with that message;
  -- only the content of the channel changes, which is still open and stores the other messages.
  pub schedule_recv-message :
      (msg : Pointer) (rest : List Pointer)
      → Stores c.mq (msg ∷ rest)
      → (mq : Queue) × (schedule_recv s id ≡ ok (msg, with_content s p (record c { mq = mq })))
        × Stores mq rest
        × Open (with_content s p (record c { mq = mq })) id p (record c { mq = mq })
  unfolding schedule_recv
  schedule_recv-message msg rest st =
      let (mq, run, st') = queue_pop-Stores msg rest st in
      let new : Channel = record c { mq = mq } in
      (
        mq,
        with_channel-Open id p o.live 0 msg receive
            (record (with_content s p new) { channel = during o.live })
            (rw (o.at, run, (assign-deref s.channels p c new o.at).0)) refl,
        st',
        put-Open o new,
      )

  -- With no message NULL is received.
  pub schedule_recv-empty : Stores c.mq [] → schedule_recv s id ≡ ok (0, with_content s p c)
  unfolding schedule_recv
  schedule_recv-empty st =
      with_channel-Open id p o.live 0 0 receive
        (record (with_content s p c) { channel = during o.live })
        (rw (o.at, queue_pop-nil st, (assign-deref s.channels p c c o.at).0)) refl

-- A closed channel gives no message and is known to be closed.
module _ (s : Schedule) (id : ChannelId) (v : IsMap s.channel)
    (gone : find s.channel id ≡ none) where
  pub schedule_recv-closed : schedule_recv s id ≡ ok (0, s)
  unfolding schedule_recv
  schedule_recv-closed = rw (handlemap_grab-none id v gone)

  pub schedule_isclosed-closed : schedule_isclosed s id ≡ ok (true, s)
  unfolding schedule_isclosed
  schedule_isclosed-closed = rw (handlemap_grab-none id v gone)

  pub schedule_send-closed : (msg : Pointer) → schedule_send s id msg ≡ ok s
  unfolding schedule_send
  schedule_send-closed msg = rw (handlemap_grab-none id v gone)

-- The block of schedule_send.
abbrev pub deliver : Pointer → Schedule → Pointer → Run (Finished × Schedule)
deliver msg s' p = deref s'.channels p >>= λ c. queue_push c.mq msg >>= λ mq.
    put_channel s' p (record c { mq = mq }) >>= λ s1.
    wake_loop (suc c.reader.n) s1 p >>= λ s2. ok (finished, s2)

-- With no reader the loop ends at once.
wake_loop-quiet :
    (fuel : ℕ) (s : Schedule) (p : Pointer) (c : Channel)
    → deref s.channels p ≡ ok c
    → Stores c.reader []
    → wake_loop (suc fuel) s p ≡ ok (with_content s p c)
unfolding wake_loop
wake_loop-quiet fuel s p c at quiet =
    rw (at, queue_pop-nil quiet, (assign-deref s.channels p c c at).0)

-- On an open channel that stores some messages and no reader, schedule_send of a message other
-- than NULL ends well; the channel is still open and stores the message behind the others.
pub schedule_send-message :
    {s : Schedule} {id : ChannelId} {p : Pointer} {c : Channel} (msg : Pointer)
    (msgs : List Pointer)
    → Open s id p c
    → msg ≢ 0
    → Stores c.mq msgs
    → Stores c.reader []
    → (mq : Queue) × (s' : Schedule) × (schedule_send s id msg ≡ ok s')
      × Stores mq (msgs ++ msg ∷ [])
      × Open s' id p (record c { mq = mq })
unfolding schedule_send
schedule_send-message {s} {id} {p} {c} msg msgs o nz st quiet =
    let (mq, run, st') = queue_push-Stores msg st nz in
    let new : Channel = record c { mq = mq } in
    let (wrote, at) = assign-deref s.channels p c new o.at in
    let grabbed_new : Schedule = record (with_content s p new) { channel = during o.live } in
    let sent : Schedule = with_content (with_content s p new) p new in
    let (wrote', at') = assign-deref (with_content s p new).channels p new new at in
    (
      mq,
      sent,
      rw
          (with_channel-Open {s = s} id p o.live finished finished (deliver msg)
            (record sent { channel = during o.live })
            (rw (o.at, run, wrote, wake_loop-quiet c.reader.n grabbed_new p new at quiet)) refl)
          refl,
      st',
      record { live = o.live; at = at' },
    )
