-- ===== src/Timer.antt =====
-- src/timer/timer.c: a binary heap of pointers to events, which know their place in it. An event is
-- one object that the heap and its owner share, so the events are a memory that the operations
-- change. Pointers are 8 bytes, and calloc and realloc succeed.
pub mod Order
pub mod Up
pub mod Tally
pub mod Sink
pub mod Hole
pub mod Down
pub mod Replace
pub mod Remove
pub mod Fire
pub mod Round
pub mod Update
pub mod Forever
pub mod Grow
mod Tests
use grt.Base.{
  ℕ, zero, suc, ◌+◌, ◌-◌, ◌*◌, ◌/◌, ◌%◌, ◌^◌, Bool, true, false, ◌||◌, Option, none, some, List, [],
  ◌∷◌, ◌++◌, leb, ltb, ◌==◌, if◌then◌else◌, length, take, replicate,
}
use grt.Base.Run.{Run, ok, wild, spent, ◌>>=◌, load, store}

abbrev pub Pointer : Type 0
Pointer = ℕ

-- `i` is `none` for -1.
pub record TimerEvent : Type 0 where
  pub when : ℕ
  pub period : ℕ
  pub callback : Pointer
  pub user_data : Pointer
  pub i : Option ℕ

pub record Timer : Type 0 where
  pub heap : List Pointer
  pub size : ℕ
  pub cap : ℕ
  pub events : Pointer → TimerEvent

unfoldable pub timer_init : (Pointer → TimerEvent) → Timer
timer_init events = record { heap = replicate 32 0; size = 0; cap = 32; events = events }

unfoldable pub timer_release : Timer → Timer
timer_release t = record t { heap = []; size = 0; cap = 0 }

-- `ev` with another field
abbrev pub with_event : Timer → Pointer → TimerEvent → Timer
with_event t ev e = record t { events = λ p. if p == ev then e else t.events p }

abbrev pub set_index : Timer → Pointer → Option ℕ → Timer
set_index t ev k = with_event t ev (record (t.events ev) { i = k })

-- `heap[k]`, which is dereferenced next
abbrev pub load_event : Timer → ℕ → Run Pointer
load_event t k = load t.heap k >>= λ p. if p == 0 then wild else ok p

-- `heap[k] = ev; heap[k]->i = k`
unfoldable pub place : Timer → ℕ → Pointer → Run Timer
place t k ev = store t.heap k ev >>= λ cells. ok (set_index (record t { heap = cells }) ev (some k))

-- The loop of timer_siftup, which moves `tmp` up from `i`.
unfoldable pub siftup_loop : ℕ → Timer → Pointer → ℕ → Run Timer
siftup_loop zero t tmp i = spent
siftup_loop (suc fuel) t tmp i =
    let p = (i - 1) / 2 in
    let up : Pointer → Run Timer = λ parent.
      place t i parent >>= λ moved. place moved p tmp >>= λ above. siftup_loop fuel above tmp p in
    if i == 0
    then ok t
    else (load_event t p >>= λ parent.
        if leb (t.events parent).when (t.events tmp).when then ok t else up parent)

-- A parent's index is smaller than `i`.
unfoldable pub timer_siftup : Timer → ℕ → Run Timer
timer_siftup t i = load_event t i >>= λ tmp. siftup_loop (i + 1) t tmp i

-- timer_siftdown after its loop: `idx` has a left child at most.
unfoldable pub settle : Timer → Pointer → ℕ → Run Timer
settle t tmp idx =
    let left = 2 * idx + 1 in
    let under : Pointer → Run Timer =
      λ child. place t idx child >>= λ moved. place moved left tmp in
    if ltb left t.size
    then (load_event t left >>= λ child.
        if ltb (t.events child).when (t.events tmp).when then under child else place t idx tmp)
    else place t idx tmp

-- The loop of timer_siftdown, which moves `tmp` down from `idx`.
unfoldable pub siftdown_loop : ℕ → Timer → Pointer → ℕ → Run Timer
unfolding settle
siftdown_loop zero t tmp idx = spent
siftdown_loop (suc fuel) t tmp idx =
    let left = 2 * idx + 1 in
    let right = 2 * (idx + 1) in
    let choose : ℕ → Pointer → Run Timer = λ smaller child.
      if ltb (t.events tmp).when (t.events child).when
      then place t idx tmp
      else (place t idx child >>= λ moved. siftdown_loop fuel moved tmp smaller) in
    if ltb right t.size
    then (load_event t left >>= λ l. load_event t right >>= λ r.
        if ltb (t.events l).when (t.events r).when then choose left l else choose right r)
    else settle t tmp idx

-- Every round goes to a child, whose index is larger.
unfoldable pub timer_siftdown : Timer → ℕ → Run Timer
timer_siftdown t idx = load_event t idx >>= λ tmp. siftdown_loop (t.size + 1) t tmp idx

-- `realloc(t->heap, bytes)`, which keeps what fits.
abbrev pub realloc_heap : List Pointer → ℕ → List Pointer
realloc_heap cells bytes = take (bytes / 8) cells ++ replicate (bytes / 8 - length cells) 0

-- The growth of timer_add passes the capacity as a number of bytes.
unfoldable pub grow : Timer → Timer
grow t =
    if leb t.cap t.size
    then record t { heap = realloc_heap t.heap (t.cap * 2); cap = t.cap * 2 }
    else t

unfoldable pub timer_add : Timer → Pointer → Run Timer
timer_add t ev =
    let t1 = grow (set_index t ev (some t.size)) in
    if ev == 0
    then wild
    else (store t1.heap t.size ev >>= λ cells.
        timer_siftup (record t1 { heap = cells; size = t.size + 1 }) t.size)

-- The last event leaves its cell; when it was not the one to delete, it takes its place.
unfoldable pub timer_del : Timer → Pointer → Run Timer
timer_del t ev =
    let last = t.size - 1 in
    let drop_last : Timer → Run Timer =
      λ u. store u.heap last 0 >>= λ cells. ok (record u { heap = cells; size = last }) in
    if (ev == 0) || (t.size == 0) then wild else elim (t.events ev).i [
      | none ↦ wild
      | some i ↦
          if i == last
          then drop_last t
          else (load_event t last >>= λ moved. place t i moved >>= λ u.
              drop_last u >>= λ v. timer_siftup v i >>= λ w. timer_siftdown w i)
    ]

-- NULL is 0.
unfoldable pub timer_latest : Timer → Run Pointer
timer_latest t = if t.size == 0 then ok 0 else load t.heap 0

-- What timer_update does to the heap for an event that is due: a ticker gets its next time, another
-- event is removed.
unfoldable pub fire_first : Timer → Pointer → Run Timer
fire_first t ev =
    let e = t.events ev in
    let last = t.size - 1 in
    let later = with_event t ev (record e { when = (e.when + e.period) % 2 ^ 32 }) in
    let drop_last : Timer → Run Timer =
      λ u. store u.heap last 0 >>= λ cells. ok (record u { heap = cells; size = last }) in
    if ltb 0 e.period
    then timer_siftdown later 0
    else if ltb 0 last
    then (load_event t last >>= λ moved. place t 0 moved >>= λ u.
        drop_last u >>= λ v. timer_siftdown v 0 >>= λ w. ok (set_index w ev none))
    else (drop_last t >>= λ v. ok (set_index v ev none))

-- The callback may do anything to the timer. Nothing bounds the rounds: a callback may add events
-- that are due.
module _ (call : Pointer → Pointer → Timer → Run Timer) where
  unfoldable pub timer_update : ℕ → Timer → ℕ → Run Timer
  timer_update zero t now = spent
  timer_update (suc fuel) t now =
      let fire : Pointer → Run Timer = λ ev. fire_first t ev >>= λ u.
      call (u.events ev).callback (u.events ev).user_data u >>= λ v. timer_update fuel v now in
      if t.size == 0
      then ok t
      else (load_event t 0 >>= λ ev. if ltb now (t.events ev).when then ok t else fire ev)
