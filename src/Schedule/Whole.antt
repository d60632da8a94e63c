-- ===== src/Schedule/Whole.antt =====
-- The state of src/ltask/schedule.c as a whole, and what waking a reader and all readers of a channel
-- do to it.
use grt.Base.{
  ℕ, zero, suc, ◌-◌, ◌%◌, ◌^◌, ◌<◌, ◌≡◌, ◌≢◌, refl, sym, ◌∙◌, ap, subst, List, [], ◌∷◌, ◌++◌, some,
  true, arith, length, get_elem?, get_or, get_elem?-get_or, get_elem?-set, set, length-set, ◌==◌,
  Bool-cases, Option-cases, inl, inr,
}
use grt.Base.Run.{ok}
use grt.Queue.{Queue, queue_create}
use grt.Queue.Shape.{Stores}
use grt.Queue.Fifo.{queue_pop-Stores, queue_pop-nil}
use grt.HandleMap.{HandleMap, Pointer}
use grt.HandleMap.Find.{find}
use grt.HandleMap.Refs.{handlemap_grab-none}
use grt.Schedule.{
  Schedule, Task, TaskId, Channel, Status, running, ready, blocked, dead, init, same_status, deref,
  wake, wake_loop,
}
use grt.Schedule.Views.{Known, assign-deref}
use grt.Schedule.Tasks.{Queued, Readied, wake-blocked, wake-other}
use grt.Schedule.Channels.{with_content}
use grt.Schedule.Names.{Names, Names-Live, Names-set}

-- A task of one of the threads, with an id.
pub record GoodTask (threads : ℕ) (t : Task) : Type 0 where
  pub inside : t.thread < threads
  pub named : t.id ≢ 0

-- Both queues are rings that store something.
pub record GoodChannel (c : Channel) : Type 0 where
  pub messages : List Pointer
  pub readers : List TaskId
  pub mq_stores : Stores c.mq messages
  pub reader_stores : Stores c.reader readers

-- The state is well formed when `channel` and `task` stand for its maps.
pub record GoodWith (channel task : HandleMap) (s : Schedule) : Type 0 where
  pub channels : Names GoodChannel channel s.channels
  pub tasks : Names (GoodTask s.threads) task s.tasks
  pub all_queues : length s.q ≡ s.threads
  pub queues : (i : ℕ) (q : Queue) → get_elem? s.q i ≡ some q → (ids : List TaskId) × Stores q ids
  pub turn : s.current < s.threads

abbrev pub IsSchedule : Schedule → Type 0
IsSchedule s = GoodWith s.channel s.task s

same_status-blocked : (st : Status) → same_status st blocked ≡ true → st ≡ blocked
same_status-blocked blocked e = refl
same_status-blocked running e = absurd (ground arith)
same_status-blocked ready e = absurd (ground arith)
same_status-blocked dead e = absurd (ground arith)
same_status-blocked init e = absurd (ground arith)

module _ {m mt : HandleMap} {s : Schedule} (v : GoodWith m mt s) where
  pub queue_of : (thread : ℕ) → thread < s.threads → (ids : List TaskId) × Queued s thread ids
  queue_of thread lt =
      let at = get_elem?-get_or s.q thread queue_create (omega (arith, v.all_queues)) in
      let (ids, stores) = v.queues thread _ at in
      (ids, record { queue = get_or s.q thread queue_create; at = at; stores = stores })

  -- A task that has been made ready and put into its thread's queue leaves the state well formed.
  pub readied-GoodWith :
      (p : Pointer) (t : Task)
      → deref s.tasks p ≡ ok t
      → GoodTask s.threads t
      → (q' : Queue) (ids : List TaskId) → Stores q' ids
      → GoodWith m mt (record s {
        tasks = set s.tasks (p - 1) (some (record t { status = ready }));
        q = set s.q t.thread q';
      })
  readied-GoodWith p t at good q' ids stores = record {
    channels = v.channels;
    tasks =
        Names-set v.tasks p t (record t { status = ready }) at
          (record { inside = good.inside; named = good.named });
    all_queues = length-set s.q t.thread q' ∙ v.all_queues;
    queues = λ i q at_i. elim (Bool-cases (t.thread == i)) [
      | inl e ↦ (
        ids,
        subst (λ x. Stores x ids) (ground (arith, get_elem?-set s.q t.thread i q' inside)) stores,
      )
      | inr e ↦ v.queues i q (ground (arith, get_elem?-set s.q t.thread i q' inside))
    ];
    turn = v.turn;
  }
    where
      inside : t.thread < length s.q
      inside = omega (arith, v.all_queues, good.inside)

  pub Readied-GoodWith :
      {s' : Schedule} {id : TaskId} {p : Pointer} {t : Task} {ids : List TaskId}
      → Readied s s' id p t ids
      → deref s.tasks p ≡ ok t
      → GoodTask s.threads t
      → GoodWith m mt s'
  Readied-GoodWith {s'} {id} {p} {t} {ids} r at good =
      subst (GoodWith m mt) (sym r.all_of_it)
        (readied-GoodWith p t at good r.queued.queue (ids ++ t.id ∷ []) r.queued.stores)

  -- So does a new content of a channel.
  pub content-GoodWith :
      (p : Pointer) (old new : Channel)
      → deref s.channels p ≡ ok old
      → GoodChannel new
      → GoodWith m mt (with_content s p new)
  content-GoodWith p old new at good = record {
    channels = Names-set v.channels p old new at good;
    tasks = v.tasks;
    all_queues = v.all_queues;
    queues = v.queues;
    turn = v.turn;
  }

module _ {m : HandleMap} {s : Schedule} (v : GoodWith m s.task s) where
  -- Whatever id it is given, wake ends well and keeps all this, and the channels as they are.
  pub wake-GoodWith :
      (id : TaskId)
      → (s' : Schedule) × (wake s id ≡ ok s')
        × GoodWith m s'.task s'
        × (s'.task ≡ s.task)
        × (s'.channel ≡ s.channel)
        × (s'.channels ≡ s.channels)
  unfolding wake
  wake-GoodWith id = elim (Option-cases (find s.task id)) [
    | inl unknown ↦ (s, rw (handlemap_grab-none id v.tasks.valid unknown) refl, v, refl, refl, refl)
    | inr (slot, found) ↦
        let (held, non_null, t, at, good) = v.tasks.named id slot found in
        let k : Known s id slot.ud t = record {
          live = Names-Live v.tasks id slot found;
          at = at;
        } in
        elim (Bool-cases (same_status t.status blocked)) [
          | inr other ↦ (s, wake-other k other, v, refl, refl, refl)
          | inl is ↦
              let (ids, queued) = queue_of v t.thread good.inside in
              let (s', run, r) =
                wake-blocked k queued good.named (same_status-blocked t.status is) in
              (
                s',
                run,
                subst (λ x. GoodWith m x s') (sym r.task_kept) (Readied-GoodWith v r at good),
                r.task_kept,
                r.channel_kept,
                r.channels_kept,
              )
        ]
  ]

abbrev Wakes : ℕ → Type 0
Wakes fuel =
    (m : HandleMap) (s : Schedule) (p : Pointer) (c : Channel) (good : GoodChannel c)
    → GoodWith m s.task s
    → deref s.channels p ≡ ok c
    → length good.readers < fuel
    → (s' : Schedule) × (wake_loop fuel s p ≡ ok s')
      × GoodWith m s'.task s'
      × (s'.task ≡ s.task)
      × (s'.channel ≡ s.channel)

-- The loop over the readers of a channel ends well.
pub wake_loop-GoodWith : (fuel : ℕ) → Wakes fuel
unfolding wake_loop
wake_loop-GoodWith zero m s p c good v at enough = absurd (omega arith)
wake_loop-GoodWith (suc fuel) m s p c good v at enough =
    next good.readers good.reader_stores enough (wake_loop-GoodWith fuel)
  where
    next :
        (rs : List TaskId)
        → Stores c.reader rs
        → length rs < suc fuel
        → Wakes fuel
        → (s' : Schedule) × (wake_loop (suc fuel) s p ≡ ok s')
          × GoodWith m s'.task s'
          × (s'.task ≡ s.task)
          × (s'.channel ≡ s.channel)
    next [] stores lt again = (
      with_content s p c,
      rw (at, queue_pop-nil stores, (assign-deref s.channels p c c at).0) refl,
      content-GoodWith v p c c at good,
      refl,
      refl,
    )
    next (r ∷ rs) stores lt again =
        let (reader, run, left) = queue_pop-Stores r rs stores in
        let new : Channel = record c { reader = reader } in
        let good' : GoodChannel new = record {
          messages = good.messages;
          readers = rs;
          mq_stores = good.mq_stores;
          reader_stores = left;
        } in
        let (wrote, at') = assign-deref s.channels p c new at in
        let v' = content-GoodWith v p c new at good' in
        elim (Bool-cases (r == 0)) [
          | inl e ↦ (with_content s p new, rw (at, run, wrote, e) refl, v', refl, refl)
          | inr e ↦
              let (s1, woken, v1, kept_t, kept, same) = wake-GoodWith v' (r % 2 ^ 32) in
              let (s2, rest, v2, kept_t', kept') =
                again m s1 p new good' v1 (ap (λ x. deref x p) same ∙ at') (omega (arith, lt)) in
              (s2, rw (at, run, wrote, e, woken, rest) refl, v2, kept_t' ∙ kept_t, kept' ∙ kept)
        ]
