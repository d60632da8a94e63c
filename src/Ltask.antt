-- ===== src/Ltask.antt =====
-- The Lua functions of src/ltask/ltask.c over the scheduler and the serializer. A message is a
-- pointer to the chain of blocks that seri_pack made; a pointer is one more than a place of its
-- memory. The Lua virtual machines are a parameter of run_slice.
pub mod Line
pub mod Slice
mod Tests
use grt.Base.{
  ℕ, suc, ◌+◌, ◌-◌, ◌%◌, ◌^◌, Bool, true, false, Option, none, some, List, [], ◌∷◌, ◌++◌, ◌==◌,
  if◌then◌else◌, length,
}
use grt.Base.Run.{Run, ok, raised, ◌>>=◌, or_wild}
use mathlib.Core.List.{map}
use grt.HandleMap.{Pointer}
use grt.Serial.Blocks.{Block}
use grt.Serial.Value.{LuaValue, boolean, integer}
use grt.Serial.Pack.{seri_pack}
use grt.Serial.Unpack.{seri_unpack}
use grt.Schedule.{
  Schedule, TaskId, ChannelId, deref, assign, free, schedule_create, schedule_opentask,
  schedule_closetask, schedule_grabtask, schedule_releasetask, schedule_select, schedule_newchannel,
  schedule_closechannel, schedule_isclosed, schedule_recv, schedule_send,
}

-- A `struct ltask`; `vm` is 0 when the state is closed.
pub record LuaTask : Type 0 where
  pub vm : Pointer
  pub id : TaskId

-- `S`, which is `none` before linit, and the memory of messages and of tasks.
pub record Process : Type 0 where
  pub schedule : Option Schedule
  pub messages : List (Option (List Block))
  pub ltasks : List (Option LuaTask)

abbrev pub with_schedule : Process → Schedule → Process
with_schedule g s = record g { schedule = some s }

-- luaL_error, when linit was not called
abbrev pub check_schedule : Process → Run Schedule
check_schedule g = elim g.schedule [ none ↦ raised | some s ↦ ok s ]

-- A lua_Integer as an `unsigned int`.
abbrev pub to_id : ℕ → ℕ
to_id n = n % 2 ^ 32

unfoldable pub linit : Process → ℕ → Run Process
linit g threads = elim g.schedule [
  | some s ↦ raised
  | none ↦ schedule_create threads >>= λ s. ok (with_schedule g s)
]

unfoldable pub lchannel : Bool → Process → Run (Process × List LuaValue)
lchannel mem g = do
  s ← check_schedule g
  (s', id) ← schedule_newchannel mem s
  ok (with_schedule g s', integer id ∷ [])

-- `me` is what the registry of the calling state holds: the id of its task, if it is one.
unfoldable pub lselect : Process → Option TaskId → List ℕ → Run (Process × List LuaValue)
lselect g none channels = raised
lselect g (some id) channels = do
  s ← or_wild g.schedule
  (s', c) ← schedule_select s id (map to_id channels)
  ok (with_schedule g s', if c == 0 then [] else integer c ∷ [])

unfoldable pub lclosechannel : Process → ℕ → Run Process
lclosechannel g c = do
  s ← or_wild g.schedule
  s' ← schedule_closechannel s (to_id c)
  ok (with_schedule g s')

abbrev pub ltaskid : Option TaskId → Option LuaValue
ltaskid none = none
ltaskid (some id) = some (integer id)

-- Nothing from a closed channel, `false` from one with no message, or `true` and the values.
unfoldable pub lrecv : Process → ℕ → Run (Process × List LuaValue)
lrecv g c = do
  s ← or_wild g.schedule
  (msg, s') ← schedule_recv s (to_id c)
  let silent : Run (Process × List LuaValue) = do
    (closed, s'') ← schedule_isclosed s' (to_id c)
    ok (with_schedule g s'', if closed then [] else boolean false ∷ [])
  let unpack : Run (Process × List LuaValue) = do
    chain ← deref g.messages msg
    vs ← seri_unpack (some chain)
    messages ← free g.messages msg
    ok (record (with_schedule g s') { messages = messages }, boolean true ∷ vs)
  if msg == 0 then silent else unpack

-- `fresh` is what malloc leaves in a new block.
module _ (fresh : Block) where
  unfoldable pub lsend : Process → ℕ → List LuaValue → Run Process
  lsend g id vs = do
    chain ← seri_pack fresh vs
    s ← or_wild g.schedule
    s' ← schedule_send s (to_id id) (suc (length g.messages))
    ok (record (with_schedule g s') { messages = g.messages ++ (some chain ∷ []) })

  -- `vm` is the new state with the file loaded, if both went well. The result is the id, and what the
  -- task is started with. The `id` of the new `struct ltask` is 0 until schedule_opentask is back.
  unfoldable pub ltask :
      Bool → Process → Option Pointer → List LuaValue → Run (Process × TaskId × List LuaValue)
  ltask mem g vm args = elim vm [
    | none ↦ raised
    | some state ↦ (do
      chain ← seri_pack fresh args
      started ← seri_unpack (some chain)
      s ← check_schedule g
      (s', id) ← schedule_opentask mem s (suc (length g.ltasks))
      let t : LuaTask = record { vm = state; id = id }
      ok (record (with_schedule g s') { ltasks = g.ltasks ++ (some t ∷ []) }, id, started))
  ]

-- What lua_resume reports.
pub data Resumed : Type 0 where
  yielded returned failed : Resumed

-- `resume` runs the state at a pointer, which may use the whole process. The result tells whether
-- there was a task.
module _ (resume : Pointer → Process → Run (Process × Resumed)) where
  -- the end of a slice of the task at `t`
  unfoldable pub finish_slice : Process → Pointer → Resumed → Run Process
  finish_slice g t ret = do
    s ← or_wild g.schedule
    o ← deref g.ltasks t
    let release : Run Process = do s' ← schedule_releasetask s o.id; ok (with_schedule g s')
    let close : Run Process = do
      ltasks ← assign g.ltasks t (record o { vm = 0 })
      s' ← schedule_closetask s o.id
      s'' ← schedule_releasetask s' o.id
      ok (record (with_schedule g s'') { ltasks = ltasks })
    elim ret [ yielded ↦ release | returned ↦ close | failed ↦ close ]

  -- `fuel` is that of schedule_grabtask.
  unfoldable pub run_slice : ℕ → Process → ℕ → Run (Process × Bool)
  unfolding finish_slice
  run_slice fuel g w = do
    s ← or_wild g.schedule
    (s', t) ← schedule_grabtask fuel s w
    let g' : Process = with_schedule g s'
    let slice : Run (Process × Bool) = do
      o ← deref g'.ltasks t
      (g'', ret) ← resume o.vm g'
      g3 ← finish_slice g'' t ret
      ok (g3, true)
    if t == 0 then ok (g', false) else slice
