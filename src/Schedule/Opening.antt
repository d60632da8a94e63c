-- ===== src/Schedule/Opening.antt =====
-- Making a schedule of src/ltask/schedule.c, and opening tasks and channels in it.
use grt.Base.{
  ℕ, zero, suc, ◌+◌, ◌-◌, ◌*◌, ◌/◌, ◌<◌, ◌≤◌, ◌^◌, ◌≡◌, refl, sym, ◌∙◌, subst, [], ◌∷◌, ◌++◌,
  Option, none, some, Bool, leb, arith, length, set, get_elem?, get_elem?-lt, replicate,
  length-replicate, if◌then◌else◌, Bool-cases, inl, inr,
}
use grt.Base.Run.{Run, ok, store-ok, load-ok}
use grt.Queue.{Queue, queue_create}
use grt.Queue.Shape.{Stores}
use grt.Queue.Fifo.{queue_create-Stores, queue_push-Stores}
use grt.HandleMap.{Pointer, Slot, handlemap_init}
use grt.HandleMap.Fresh.{fresh_map, fresh_map-IsMap, find-fresh_map}
use grt.HandleMap.{HandleMap}
use grt.HandleMap.New.{handlemap_new-Added}
use grt.Schedule.{
  Schedule, Task, TaskId, Channel, ChannelId, ready, init, commit_task, schedule_newchannel,
  schedule_opentask, schedule_create,
}
use grt.Schedule.Views.{assign-deref}
use grt.Schedule.Names.{Names, Names-new, deref-append_last}
use grt.Schedule.Whole.{GoodTask, IsSchedule, queue_of, readied-GoodWith}

-- The operation ends well in a well-formed state.
abbrev pub Ends : Run Schedule → Type 0
Ends r = (s' : Schedule) × (r ≡ ok s') × IsSchedule s'

-- Two maps without handles, and an empty queue for each thread.
pub schedule_create-Ends : (threads : ℕ) → 0 < threads → Ends (schedule_create threads)
unfolding schedule_create handlemap_init
schedule_create-Ends threads pos = (
  record {
    threads = threads;
    current = 0;
    q = replicate threads queue_create;
    channel = fresh_map;
    task = fresh_map;
    tasks = [];
    channels = [];
  },
  refl,
  record {
    channels = no_names;
    tasks = no_names;
    all_queues = length-replicate threads queue_create;
    queues = λ i q at. ([], all_empty threads i at);
    turn = pos;
  },
)
  where
    no_names : {A : Type 0} {Good : A → Type 0} → Names Good fresh_map []
    no_names = record {
      valid = fresh_map-IsMap;
      named = λ id slot f. absurd (not_found (sym f ∙ find-fresh_map id));
      apart = λ id id' slot slot' f f' e. absurd (not_found (sym f ∙ find-fresh_map id));
    }
      where
        not_found : {x : Slot} → Path (Option Slot) (some x) none → ⊥
        not_found e = ground arith

    all_empty :
        (n i : ℕ) {q : Queue} → get_elem? (replicate n queue_create) i ≡ some q → Stores q []
    all_empty zero i at = absurd (ground arith)
    all_empty (suc n) zero at = subst (λ x. Stores x []) (some_inj at) queue_create-Stores
      where
        some_inj : {x y : Queue} → some x ≡ some y → x ≡ y
        some_inj e = ground arith
    all_empty (suc n) (suc i) at = all_empty n i at

-- A new handle needs no larger map, and the size of the map is far below what an `int` holds.
abbrev pub HasRoom : HandleMap → Type 0
HasRoom m = (m.n < m.cap * 3 / 4) × (m.cap ≤ 2 ^ 29)

module _ {s : Schedule} (v : IsSchedule s) where
  -- The task is ready and at the end of its thread's queue.
  pub schedule_opentask-Ends :
      (mem : Bool) (ud : Pointer)
      → HasRoom s.task
      → (s' : Schedule) × (id : TaskId) × (schedule_opentask mem s ud ≡ ok (s', id)) × IsSchedule s'
  unfolding schedule_opentask commit_task
  schedule_opentask-Ends mem ud room =
      let p = suc (length s.tasks) in
      let (m', id, run, d) =
        handlemap_new-Added mem s.task p v.tasks.valid (omega arith) room.1 room.0 in
      let next = if leb s.threads (s.current + 1) then 0 else s.current + 1 in
      let t : Task = record { ud = ud; status = init; thread = s.current; id = id } in
      let t' : Task = record t { status = ready } in
      let s1 : Schedule = record s { current = next; task = m'; tasks = s.tasks ++ some t ∷ [] } in
      let good : GoodTask s.threads t = record { inside = v.turn; named = d.nonzero } in
      let v1 : IsSchedule s1 = record {
        channels = v.channels;
        tasks = Names-new v.tasks t d good;
        all_queues = v.all_queues;
        queues = v.queues;
        turn = elim (Bool-cases (leb s.threads (s.current + 1))) [
          | inl e ↦ rw e (omega (arith, v.turn))
          | inr e ↦ rw e (ground arith)
        ];
      } in
      let (ids, queued) = queue_of v s.current v.turn in
      let (q', pushed, stores) = queue_push-Stores id queued.stores d.nonzero in
      let at = deref-append_last s.tasks t in
      let (wrote, at') = assign-deref s1.tasks p t t' at in
      (
        record s1 { tasks = set s1.tasks (p - 1) (some t'); q = set s.q s.current q' },
        id,
        rw
            (
              run,
              at,
              wrote,
              load-ok s.q s.current queued.at,
              pushed,
              store-ok s.q s.current q' (get_elem?-lt s.q s.current queued.at),
              at',
            )
            refl,
        readied-GoodWith v1 p t at good q' (ids ++ id ∷ []) stores,
      )

  pub schedule_newchannel-Ends :
      (mem : Bool)
      → HasRoom s.channel
      → (s' : Schedule) × (id : ChannelId) × (schedule_newchannel mem s ≡ ok (s', id))
        × IsSchedule s'
  unfolding schedule_newchannel
  schedule_newchannel-Ends mem room =
      let p = suc (length s.channels) in
      let c : Channel = record { mq = queue_create; reader = queue_create } in
      let (m', id, run, d) =
        handlemap_new-Added mem s.channel p v.channels.valid (omega arith) room.1 room.0 in
      (
        record s { channel = m'; channels = s.channels ++ some c ∷ [] },
        id,
        rw run refl,
        record {
          channels = Names-new v.channels c d (record {
            messages = [];
            readers = [];
            mq_stores = queue_create-Stores;
            reader_stores = queue_create-Stores;
          });
          tasks = v.tasks;
          all_queues = v.all_queues;
          queues = v.queues;
          turn = v.turn;
        },
      )
