-- ===== src/Schedule/Choice.antt =====
-- Which channel schedule_select of src/ltask/schedule.c chooses.
use grt.Base.{
  ◌≡◌, ◌≢◌, refl, sym, ◌∙◌, subst, List, [], ◌∷◌, Bool, true, false, not, arith, ◌==◌, zero,
  Bool-cases, Option-cases, inl, inr,
}
use grt.Base.Run.{Run, ok, aborted, wild, raised, spent, ◌>>=◌}
use grt.Queue.{queue_empty}
use grt.Queue.Shape.{Stores}
use grt.Queue.Fifo.{queue_empty_lem}
use grt.HandleMap.{HandleMap, Pointer}
use grt.HandleMap.Find.{find, find-slot}
use grt.HandleMap.Refs.{handlemap_grab-none}
use grt.Schedule.{
  Schedule, Channel, ChannelId, TaskId, blocked, deref, with_channel, schedule_recv,
  schedule_select, first_message, put_task, add_reader, release_task,
}
use grt.Schedule.Views.{Live, Open, during, grab-Live, release_task-during, with_channel-Open}
use grt.Schedule.Channels.{schedule_recv-message, schedule_recv-empty, schedule_recv-closed}
use grt.Schedule.Names.{Names-Live}
use grt.Schedule.Whole.{IsSchedule}
use grt.Schedule.Select.{schedule_select-Safe}

-- schedule_recv would give a message, or NULL.
abbrev pub Gives : Schedule → ChannelId → Type 0
Gives s ch =
    (ch ≢ 0) × (msg : Pointer) × (s' : Schedule) × (msg ≢ 0) × (schedule_recv s ch ≡ ok (msg, s'))

abbrev pub Lacks : Schedule → ChannelId → Type 0
Lacks s ch = (s' : Schedule) × (schedule_recv s ch ≡ ok (0, s'))

-- The first of the channels that gives a message, or 0.
pub data First (s : Schedule) : List ChannelId → ChannelId → Type 0 where
  nowhere : First s [] 0
  here : (ch : ChannelId) (rest : List ChannelId) → Gives s ch → First s (ch ∷ rest) ch
  later :
      {rest : List ChannelId} {chosen : ChannelId} (ch : ChannelId)
      → Lacks s ch
      → First s rest chosen
      → First s (ch ∷ rest) chosen

-- The block of the first loop of schedule_select.
abbrev look : Schedule → Pointer → Run (Bool × Schedule)
look s' p = deref s'.channels p >>= λ c. ok (not (queue_empty c.mq), s')

-- What it sees, whatever the map of tasks is.
abbrev Sees : Schedule → HandleMap → ChannelId → Bool → Type 0
Sees s tasks ch full =
    with_channel (record s { task = tasks }) ch false look ≡ ok (full, record s { task = tasks })

module _ {s : Schedule} (v : IsSchedule s) (tasks : HandleMap) where
  open-Sees :
      {p : Pointer} (ch : ChannelId) (c : Channel) (o : Open s ch p c) (full : Bool)
      → not (queue_empty c.mq) ≡ full
      → Sees s tasks ch full
  open-Sees {p} ch c o full e =
      with_channel-Open ch p o.live false full look
        (record s { task = tasks; channel = during o.live }) (rw (o.at, e) refl) refl

  channel-Sees :
      (ch : ChannelId)
      → (full : Bool) × Sees s tasks ch full
        × (full ≡ true → Gives s ch)
        × (full ≡ false → Lacks s ch)
  channel-Sees ch = elim (Option-cases (find s.channel ch)) [
    | inl unknown ↦ (
      false,
      rw (handlemap_grab-none ch v.channels.valid unknown) refl,
      λ e. absurd (ground arith),
      λ e. (s, schedule_recv-closed s ch v.channels.valid unknown),
    )
    | inr (slot, found) ↦
        let (held, non_null, c, at, good) = v.channels.named ch slot found in
        let o : Open s ch slot.ud c = record {
          live = Names-Live v.channels ch slot found;
          at = at;
        } in
        stored ch (find-slot s.channel ch found).0 c o good.messages good.mq_stores
  ]
    where
      stored :
          {p : Pointer} (ch : ChannelId)
          → ch ≢ 0
          → (c : Channel) → Open s ch p c
          → (msgs : List Pointer) → Stores c.mq msgs
          → (full : Bool) × Sees s tasks ch full
            × (full ≡ true → Gives s ch)
            × (full ≡ false → Lacks s ch)
      stored ch nz c o [] st =
          let none : not (queue_empty c.mq) ≡ false = ground (arith, queue_empty_lem [] st) in
          (
            false,
            open-Sees ch c o false none,
            λ e. absurd (ground arith),
            λ e. (_, schedule_recv-empty o st),
          )
      stored ch nz c o (msg ∷ msgs) st =
          let more : not (queue_empty c.mq) ≡ true =
            ground (arith, queue_empty_lem (msg ∷ msgs) st) in
          let (mq, run, left, still) = schedule_recv-message o msg msgs st in
          (
            true,
            open-Sees ch c o true more,
            λ e. (nz, msg, _, st.non_null zero (omega arith), run),
            λ e. absurd (ground arith),
          )

  first_message-First :
      (chs : List ChannelId)
      → (chosen : ChannelId) × (first_message (record s { task = tasks }) chs
          ≡ ok (chosen, record s { task = tasks }))
        × First s chs chosen
  unfolding first_message
  first_message-First [] = (0, refl, nowhere)
  first_message-First (ch ∷ rest) =
      let (full, seen, gives, lacks) = channel-Sees ch in
      let (chosen, run, first) = first_message-First rest in
      elim (Bool-cases full) [
        | inl e ↦ (ch, rw (seen, e) refl, here ch rest (gives e))
        | inr e ↦ (chosen, rw (seen, e) run, later ch (lacks e) first)
      ]

-- The step gives 0, if anything.
abbrev GivesZero : Run (Schedule × ChannelId) → Type 0
GivesZero r = (s' : Schedule) (ch : ChannelId) → r ≡ ok (s', ch) → ch ≡ 0

bind-GivesZero :
    {A : Type 0} (r : Run A) (f : A → Run (Schedule × ChannelId))
    → ((a : A) → GivesZero (f a))
    → GivesZero (r >>= f)
bind-GivesZero (ok a) f zeros s' ch e = zeros a s' ch e
bind-GivesZero aborted f zeros s' ch e = absurd (ground arith)
bind-GivesZero wild f zeros s' ch e = absurd (ground arith)
bind-GivesZero raised f zeros s' ch e = absurd (ground arith)
bind-GivesZero spent f zeros s' ch e = absurd (ground arith)

ok-GivesZero : (s : Schedule) → GivesZero (ok (s, 0))
ok-GivesZero s s' ch e = ground arith

-- On a well-formed state and for a live task, schedule_select ends well with the first of the
-- channels, in the order given, whose schedule_recv would give a message, and with 0 when every
-- one of them, closed ones too, would give NULL; when the channel is not 0 the state is as before.
pub schedule_select-First :
    {s : Schedule} {p : Pointer}
    → IsSchedule s
    → (id : TaskId) → Live s.task id p
    → (chs : List ChannelId)
    → (s' : Schedule) × (ch : ChannelId) × (schedule_select s id chs ≡ ok (s', ch))
      × First s chs ch
      × (ch ≢ 0 → s' ≡ s)
unfolding schedule_select
schedule_select-First {s} {p} v id l chs =
    let some_p : (p == 0) ≡ false = ground (arith, l.non_null) in
    let held : Schedule = record s { task = during l } in
    let (chosen, run, first) = first_message-First v (during l) chs in
    elim (Bool-cases (chosen == 0)) [
      | inr some_ch ↦ (
        s,
        chosen,
        rw (grab-Live l, some_p, run, some_ch, release_task-during l held refl) refl,
        first,
        λ nz. refl,
      )
      | inl no_ch ↦
          let none : chosen ≡ 0 = ground arith in
          let (s', ch, ends, v') = schedule_select-Safe v id chs in
          let blocks : schedule_select s id chs ≡ block held =
            rw (grab-Live l, some_p, run, no_ch) refl in
          let gives_zero : ch ≡ 0 = block-GivesZero held s' ch (sym blocks ∙ ends) in
          (
            s',
            ch,
            ends,
            subst (First s chs) (none ∙ sym gives_zero) first,
            λ nz. absurd (nz gives_zero),
          )
    ]
  where
    none_chosen : Schedule → Run (Schedule × ChannelId)
    none_chosen s4 = ok (s4, 0)

    back : Schedule → Run (Schedule × ChannelId)
    back s3 = release_task s3 id >>= none_chosen

    readers : Schedule → Run (Schedule × ChannelId)
    readers s2 = add_reader s2 id chs >>= back

    block : Schedule → Run (Schedule × ChannelId)
    block s1 = deref s1.tasks p >>= λ t. put_task s1 p (record t { status = blocked }) >>= readers

    block-GivesZero : (s1 : Schedule) → GivesZero (block s1)
    block-GivesZero s1 =
        bind-GivesZero (deref s1.tasks p)
          (λ t. put_task s1 p (record t { status = blocked }) >>= readers)
          λ t. bind-GivesZero (put_task s1 p (record t { status = blocked })) readers λ s2.
            bind-GivesZero (add_reader s2 id chs) back
              λ s3. bind-GivesZero (release_task s3 id) none_chosen ok-GivesZero
