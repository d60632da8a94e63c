-- ===== src/HandleMap.antt =====
-- src/ltask/handlemap.c: handles (32-bit numbers, never 0) to pointers with a reference count.
-- An operation that writes `*m` returns the new map. The reader-writer lock makes release_ref,
-- try_delete, grab and new one step each; handlemap_release is two such steps. Whether an
-- allocation succeeds is the argument `mem`. `int` values stay small (HandleMap/Shape.antt), but a
-- reference count can go below 0, so it is an integer.
pub mod Count
pub mod Shape
pub mod Find
pub mod Refs
pub mod Sharing
pub mod Once
pub mod Listing
pub mod Probe
pub mod Expand
pub mod New
pub mod Fresh
pub mod Sample
mod Tests
use grt.Base.{
  ℕ, zero, suc, ◌+◌, ◌-◌, ◌*◌, ◌/◌, ◌%◌, ◌^◌, Bool, true, false, ◌&&◌, ◌||◌, Option, none, some,
  List, [], ◌∷◌, leb, ltb, ◌==◌, if◌then◌else◌, length, replicate, bit_and,
}
use grt.Base.Run.{Run, ok, wild, spent, ◌>>=◌, load, store}
use grt.HandleMap.Count.{ℤ, pos, incr, decr, is_pos}

abbrev pub Pointer : Type 0
Pointer = ℕ

abbrev pub HandleId : Type 0
HandleId = ℕ

abbrev pub init_slots : ℕ
init_slots = 16

-- `struct handleslot`; a slot with id 0 is free.
pub record Slot : Type 0 where
  pub id : HandleId
  pub ref : ℤ
  pub ud : Pointer

-- what `calloc` leaves
abbrev pub blank : Slot
blank = record { id = 0; ref = pos 0; ud = 0 }

pub record HandleMap : Type 0 where
  pub lastid : HandleId
  pub cap : ℕ
  pub n : ℕ
  pub slots : List Slot

-- `id & (cap - 1)`
abbrev pub index : HandleId → ℕ → ℕ
index id cap = bit_and id (cap - 1)

-- `++m->lastid` of an `unsigned int`
abbrev pub next_id : HandleId → HandleId
next_id id = (id + 1) % 2 ^ 32

-- The two allocations may fail.
unfoldable pub handlemap_init : Bool → Bool → Option HandleMap
handlemap_init mem mem_slots =
    if mem
    then (if mem_slots
        then some
            (record { lastid = 0; cap = init_slots; n = 0; slots = replicate init_slots blank })
        else none)
    else none

-- The loop of expand_map over the old slots.
pub move_loop : ℕ → List Slot → List Slot → Run (List Slot)
move_loop cap [] to = ok to
move_loop cap (os ∷ rest) to = do to' ← store to (index os.id (cap * 2)) os; move_loop cap rest to'

unfoldable pub expand_map : HandleMap → Run HandleMap
expand_map m = do
  to ← move_loop m.cap m.slots (replicate (m.cap * 2) blank)
  ok (record m { slots = to; cap = m.cap * 2 })

-- The id that the loop of handlemap_new tries after `id`: 0 is skipped.
abbrev pub fresh_id : HandleId → HandleId
fresh_id id = if next_id id == 0 then next_id (next_id id) else next_id id

-- The loop of handlemap_new, with fuel.
unfoldable pub probe : ℕ → HandleMap → Pointer → Run (HandleMap × HandleId)
probe zero m ud = spent
probe (suc fuel) m ud =
    let id = fresh_id m.lastid in
    let again = probe fuel (record m { lastid = id }) ud in
    let taken : List Slot → HandleMap =
      λ slots. record m { lastid = id; slots = slots; n = m.n + 1 } in
    let use_slot =
      store m.slots (index id m.cap) (record { id = id; ref = pos 1; ud = ud }) >>= λ slots.
      ok (taken slots, id) in
    load m.slots (index id m.cap) >>= λ slot. if slot.id == 0 then use_slot else again

-- `m->n >= m->cap * 3 / 4`. The product is an `int`: from 2^31 on it stands for a negative number, which
-- no `n` is below.
abbrev pub is_crowded : HandleMap → Bool
is_crowded m = leb (2 ^ 31) (m.cap * 3 % 2 ^ 32) || leb (m.cap * 3 % 2 ^ 32 / 4) m.n

-- expand_map has memory only while `cap * 2` is an `int`; a negative one makes calloc fail.
-- The handle 0 reports a NULL pointer or no memory. Two rounds over the slots find a free one.
unfoldable pub handlemap_new : Bool → HandleMap → Pointer → Run (HandleMap × HandleId)
handlemap_new mem m ud =
    if ud == 0
    then ok (m, 0)
    else if is_crowded m
    then (if mem && ltb (m.cap * 2) (2 ^ 31)
        then (expand_map m >>= λ wide. probe (wide.cap * 2) wide ud)
        else ok (m, 0))
    else probe (m.cap * 2) m ud

-- The pointer if the count has fallen to 0 or below, and NULL if not.
unfoldable pub release_ref : HandleMap → HandleId → Run (HandleMap × Pointer)
release_ref m id = if id == 0 then ok (m, 0) else do
  slot ← load m.slots (index id m.cap)
  let less = store m.slots (index id m.cap) (record slot { ref = decr slot.ref }) >>= λ slots.
      ok (record m { slots = slots }, if is_pos (decr slot.ref) then 0 else slot.ud)
  if slot.id == id then less else ok (m, 0)

unfoldable pub try_delete : HandleMap → HandleId → Run (HandleMap × Pointer)
try_delete m id = if id == 0 then ok (m, 0) else do
  slot ← load m.slots (index id m.cap)
  let free = store m.slots (index id m.cap) (record slot { id = 0 }) >>= λ slots.
      ok (record m { slots = slots; n = m.n - 1 }, slot.ud)
  if slot.id == id then (if is_pos slot.ref then ok (m, 0) else free) else ok (m, 0)

unfoldable pub handlemap_grab : HandleMap → HandleId → Run (HandleMap × Pointer)
handlemap_grab m id = if id == 0 then ok (m, 0) else do
  slot ← load m.slots (index id m.cap)
  let more = store m.slots (index id m.cap) (record slot { ref = incr slot.ref }) >>= λ slots.
      ok (record m { slots = slots }, slot.ud)
  if slot.id == id then more else ok (m, 0)

unfoldable pub handlemap_release : HandleMap → HandleId → Run (HandleMap × Pointer)
unfolding release_ref try_delete
handlemap_release m id = do
  (m', ud) ← release_ref m id
  if ud == 0 then ok (m', 0) else try_delete m' id

-- The loop of handlemap_list: at most `room` ids go to `result`.
unfoldable pub list_loop : List Slot → ℕ → List HandleId
list_loop [] room = []
list_loop (s ∷ rest) zero = []
list_loop (s ∷ rest) (suc room) =
    if s.id == 0 then list_loop rest (suc room) else s.id ∷ list_loop rest room

-- The ids written and the number returned.
unfoldable pub handlemap_list : HandleMap → ℕ → List HandleId × ℕ
unfolding list_loop
handlemap_list m room = (list_loop m.slots room, m.n)
