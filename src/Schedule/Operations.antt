-- ===== src/Schedule/Operations.antt =====
-- Any sequence of the operations of src/ltask/schedule.c on a new schedule.
use grt.Base.{
  ℕ, suc, ◌<◌, ◌≡◌, ◌≢◌, ◌⊎◌, inl, inr, refl, sym, ◌∙◌, ap, subst, arith, Bool, true, false, List,
}
use grt.Base.Run.{Run, ok, aborted, ◌>>=◌}
use grt.HandleMap.{Pointer}
use grt.Schedule.{
  Schedule, TaskId, ChannelId, schedule_create, schedule_opentask, schedule_closetask,
  schedule_grabtask, schedule_releasetask, schedule_select, schedule_newchannel,
  schedule_closechannel, schedule_isclosed, schedule_recv, schedule_send, finished, with_channel,
}
use grt.Schedule.Channels.{deliver}
use grt.Schedule.Whole.{IsSchedule}
use grt.Schedule.Steps.{
  Keeps, Keeps-IsSchedule, schedule_isclosed-Keeps, schedule_recv-Keeps, schedule_send-inside,
}
use grt.Schedule.Select.{schedule_select-Safe}
use grt.Schedule.Opening.{
  HasRoom, Ends, schedule_create-Ends, schedule_opentask-Ends, schedule_newchannel-Ends,
}
use grt.Schedule.Closing.{
  schedule_closetask-Ends, schedule_closechannel-Ends, schedule_releasetask-Ends,
}
use grt.Schedule.Fetch.{total, schedule_grabtask-Ends}

-- A call of an operation.
pub data Operation : Type 0 where
  opens_task : Bool → Pointer → Operation
  closes_task returns : TaskId → Operation
  grabs : ℕ → Operation
  selects : TaskId → List ChannelId → Operation
  opens_channel : Bool → Operation
  closes_channel asks receives : ChannelId → Operation
  sends : ChannelId → Pointer → Operation

abbrev state_left : {A : Type 0} → Run (Schedule × A) → Run Schedule
state_left r = r >>= λ (s, a). ok s

abbrev state_right : {A : Type 0} → Run (A × Schedule) → Run Schedule
state_right r = r >>= λ (a, s). ok s

-- A grab has as much fuel as there are entries in the queues.
abbrev pub apply : Operation → Schedule → Run Schedule
apply (opens_task mem ud) s = state_left (schedule_opentask mem s ud)
apply (closes_task id) s = schedule_closetask s id
apply (returns id) s = schedule_releasetask s id
apply (grabs thread) s = state_left (schedule_grabtask (suc (total s.q)) s thread)
apply (selects id chs) s = state_left (schedule_select s id chs)
apply (opens_channel mem) s = state_left (schedule_newchannel mem s)
apply (closes_channel id) s = schedule_closechannel s id
apply (asks id) s = state_right (schedule_isclosed s id)
apply (receives id) s = state_right (schedule_recv s id)
apply (sends id msg) s = schedule_send s id msg

-- There is room for a new handle without a larger map (of at most 2^29 slots), the thread is one of the schedule's, a message
-- is not NULL.
abbrev pub Allowed : Schedule → Operation → Type 0
Allowed s (opens_task mem ud) = HasRoom s.task
Allowed s (opens_channel mem) = HasRoom s.channel
Allowed s (grabs thread) = thread < s.threads
Allowed s (sends id msg) = msg ≢ 0
Allowed s op = Unit {0}

abbrev pub has_assertion : Operation → Bool
has_assertion (grabs thread) = true
has_assertion (returns id) = true
has_assertion op = false

-- It ends well in a well-formed state; only a grab and a return may fail an assertion instead.
abbrev pub Settles : Operation → Run Schedule → Type 0
Settles op r = ((has_assertion op ≡ true) × (r ≡ aborted)) ⊎ Ends r

pub data Reaches (threads : ℕ) : Schedule → Type 0 where
  start : (s : Schedule) → schedule_create threads ≡ ok s → Reaches threads s
  step :
      {s : Schedule} (s' : Schedule) (op : Operation)
      → Reaches threads s
      → Allowed s op
      → apply op s ≡ ok s'
      → Reaches threads s'

left-Ends :
    {A : Type 0} (r : Run (Schedule × A))
    → (s' : Schedule) × (a : A) × (r ≡ ok (s', a)) × IsSchedule s'
    → Ends (state_left r)
left-Ends r (s', a, run, v) = (s', ap (λ x. state_left x) run, v)

right-Ends :
    {A : Type 0} (s : Schedule) (r : Run (A × Schedule))
    → Keeps s.channel s.task s r
    → Ends (state_right r)
right-Ends s r (a, s', run, v, e, e') = (s', ap (λ x. state_right x) run, Keeps-IsSchedule s v e e')

apply-Settles :
    {s : Schedule} → IsSchedule s → (op : Operation) → Allowed s op → Settles op (apply op s)
unfolding schedule_send
apply-Settles v (opens_task mem ud) room = inr (left-Ends _ (schedule_opentask-Ends v mem ud room))
apply-Settles v (closes_task id) h = inr (schedule_closetask-Ends v id)
apply-Settles v (returns id) h = elim (schedule_releasetask-Ends v id) [
  | inl stops ↦ inl (refl, stops)
  | inr ends ↦ inr ends
]
apply-Settles {s} v (grabs thread) lt =
    elim (schedule_grabtask-Ends (suc (total s.q)) s thread v lt (omega arith)) [
      | inl stops ↦ inl (refl, ap (λ x. state_left x) stops)
      | inr ends ↦ inr (left-Ends _ ends)
    ]
apply-Settles v (selects id chs) h = inr (left-Ends _ (schedule_select-Safe v id chs))
apply-Settles v (opens_channel mem) room = inr (left-Ends _ (schedule_newchannel-Ends v mem room))
apply-Settles v (closes_channel id) h = inr (schedule_closechannel-Ends v id)
apply-Settles {s} v (asks id) h = inr (right-Ends s _ (schedule_isclosed-Keeps v id))
apply-Settles {s} v (receives id) h = inr (right-Ends s _ (schedule_recv-Keeps v id))
apply-Settles {s} v (sends id msg) nz =
    inr (right-Ends s (with_channel s id finished (deliver msg)) (schedule_send-inside v id msg nz))

-- Whatever operations of schedule.c are called in turn on a new schedule with threads (tasks and
-- channels opened while their map has room without growing, grabs for a thread of the schedule,
-- messages not NULL), the state is well formed: every handle that is found has a reference and
-- points to a live place of its own, every task has an id and a thread of the schedule, every
-- queue is a ring that stores something. Each further one ends well in a well-formed state, a grab
-- with the entries of the queues as fuel; only schedule_grabtask and schedule_releasetask may fail
-- their assertion instead.
pub operations-Settle :
    {threads : ℕ} {s : Schedule}
    → 0 < threads
    → Reaches threads s
    → IsSchedule s × ((op : Operation) → Allowed s op → Settles op (apply op s))
operations-Settle {threads} {s} pos r = let v = reached r in (v, λ op h. apply-Settles v op h)
  where
    ok_inj : {a b : Schedule} → ok a ≡ ok b → a ≡ b
    ok_inj {a} {b} e = ground arith

    not_aborted : {a : Schedule} → Path (Run Schedule) (ok a) aborted → ⊥
    not_aborted e = ground arith

    ended : {r : Run Schedule} {s' : Schedule} → Ends r → r ≡ ok s' → IsSchedule s'
    ended (s'', run, v) e = subst IsSchedule (ok_inj (sym run ∙ e)) v

    reached : {s : Schedule} → Reaches threads s → IsSchedule s
    reached (start s e) = ended (schedule_create-Ends threads pos) e
    reached (step s' op r h e) = elim (apply-Settles (reached r) op h) [
      | inl (_, stops) ↦ absurd (not_aborted (sym e ∙ stops))
      | inr ends ↦ ended ends e
    ]
