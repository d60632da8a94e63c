-- ===== src/Ltask/Line.antt =====
-- A channel of src/ltask/ltask.c as a line of messages: what lsend packs, lrecv unpacks, in order.
use grt.Base.{
  ℕ, zero, suc, ◌+◌, ◌-◌, ◌^◌, ◌≤◌, ◌<◌, ◌≡◌, refl, true, false, Option, some, none, List, [], ◌∷◌,
  ◌++◌, arith, length, set, ◌==◌, ◌∙◌,
}
use grt.Base.Run.{ok, store-ok}
use native.Mathlib.Nat.{mod-eq_of_lt}
use grt.Queue.Shape.{Stores}
use grt.HandleMap.{HandleMap, HandleId, Pointer}
use grt.Serial.Blocks.{Block}
use grt.Serial.Value.{LuaValue, boolean}
use grt.Serial.Unpack.{seri_unpack}
use grt.Serial.Format.{AllFit, all_bytes}
use grt.Serial.RoundTrip.{seri_pack-all_bytes, seri_unpack-seri_pack}
use grt.Schedule.{Schedule, Channel, ChannelId, deref}
use grt.Schedule.Views.{Live, Live-lt, Open}
use grt.Schedule.Channels.{with_content, schedule_recv-message, schedule_send-message}
use grt.Ltask.{Process, with_schedule, to_id, lsend, lrecv}

abbrev Messages : Type 0
Messages = List (Option (List Block))

-- The pointers, each above `low` and above those before it, hold packed messages `ms`.
abbrev pub Holds : Messages → ℕ → List Pointer → List (List LuaValue) → Type 0
Holds memory low [] [] = Unit
Holds memory low [] (vs ∷ ms) = ⊥
Holds memory low (p ∷ ps) [] = ⊥
Holds memory low (p ∷ ps) (vs ∷ ms) =
    (low < p)
    × ((chain : List Block) × (deref memory p ≡ ok chain) × (seri_unpack (some chain) ≡ ok vs))
    × Holds memory p ps ms

-- The open channel `id` of `g` has the messages `ms` in it, and no reader.
pub record Line (g : Process) (id : ChannelId) (ms : List (List LuaValue)) : Type 0 where
  pub schedule : Schedule
  pub started : g.schedule ≡ some schedule
  pub place : Pointer
  pub channel : Channel
  pub opened : Open schedule id place channel
  pub quiet : Stores channel.reader []
  pub pointers : List Pointer
  pub stored : Stores channel.mq pointers
  pub held : Holds g.messages 0 pointers ms

to_id-Live : {m : HandleMap} {id : HandleId} {p : Pointer} → Live m id p → to_id id ≡ id
to_id-Live l = mod-eq_of_lt (Live-lt l)

-- A place that is live is within the memory, and a longer memory has it too.
deref-append :
    (memory : Messages) (c : Option (List Block)) (p : Pointer) {chain : List Block}
    → deref memory p ≡ ok chain
    → deref (memory ++ c ∷ []) p ≡ ok chain
deref-append memory c zero h = absurd (ground arith)
deref-append [] c (suc p) h = absurd (ground arith)
deref-append (x ∷ memory) c (suc zero) h = h
deref-append (x ∷ memory) c (suc (suc p)) h = deref-append memory c (suc p) h

deref-le :
    (memory : Messages) (p : Pointer) {chain : List Block}
    → deref memory p ≡ ok chain
    → p ≤ length memory
deref-le memory zero h = omega arith
deref-le [] (suc p) h = absurd (ground arith)
deref-le (x ∷ memory) (suc zero) h = omega arith
deref-le (x ∷ memory) (suc (suc p)) h = omega (arith, deref-le memory (suc p) h)

deref-append_last :
    (memory : Messages) (chain : List Block)
    → deref (memory ++ some chain ∷ []) (suc (length memory)) ≡ ok chain
deref-append_last [] chain = refl
deref-append_last (x ∷ memory) chain = deref-append_last memory chain

Holds-append :
    (memory : Messages) (low : ℕ) (ps : List Pointer) (ms : List (List LuaValue))
    (chain : List Block) (vs : List LuaValue)
    → Holds memory low ps ms
    → low ≤ length memory
    → seri_unpack (some chain) ≡ ok vs
    → Holds (memory ++ some chain ∷ []) low (ps ++ suc (length memory) ∷ []) (ms ++ vs ∷ [])
Holds-append memory low [] [] chain vs h le read =
    (omega arith, (chain, deref-append_last memory chain, read), tt)
Holds-append memory low [] (ws ∷ ms) chain vs h le read = elim h [ ]
Holds-append memory low (p ∷ ps) [] chain vs h le read = elim h [ ]
Holds-append memory low (p ∷ ps) (ws ∷ ms) chain vs (lt, (c, at, reads), rest) le read = (
  lt,
  (c, deref-append memory (some chain) p at, reads),
  Holds-append memory p ps ms chain vs rest (deref-le memory p at) read,
)

-- Freeing a place leaves those above it.
deref-set :
    (memory : Messages) (i p : ℕ) → i < p → deref (set memory i none) (suc p) ≡ deref memory (suc p)
deref-set [] i p lt = refl
deref-set (x ∷ memory) i zero lt = absurd (omega arith)
deref-set (x ∷ memory) zero (suc p) lt = refl
deref-set (x ∷ memory) (suc i) (suc p) lt = deref-set memory i p (omega arith)

Holds-set :
    (memory : Messages) (i low : ℕ) (ps : List Pointer) (ms : List (List LuaValue))
    → i < low
    → Holds memory low ps ms
    → Holds (set memory i none) low ps ms
Holds-set memory i low [] [] le h = tt
Holds-set memory i low [] (vs ∷ ms) le h = elim h [ ]
Holds-set memory i low (p ∷ ps) [] le h = elim h [ ]
Holds-set memory i low (zero ∷ ps) (vs ∷ ms) le (lt, c, rest) = absurd (omega arith)
Holds-set memory i low (suc p ∷ ps) (vs ∷ ms) le (lt, (c, at, reads), rest) = (
  lt,
  (c, deref-set memory i p (omega arith) ∙ at, reads),
  Holds-set memory i (suc p) ps ms (omega arith) rest,
)

Holds-low :
    (memory : Messages) (low high : ℕ) (ps : List Pointer) (ms : List (List LuaValue))
    → low ≤ high
    → Holds memory high ps ms
    → Holds memory low ps ms
Holds-low memory low high [] [] le h = tt
Holds-low memory low high [] (vs ∷ ms) le h = elim h [ ]
Holds-low memory low high (p ∷ ps) [] le h = elim h [ ]
Holds-low memory low high (p ∷ ps) (vs ∷ ms) le (lt, c, rest) = (omega arith, c, rest)

module _ (fresh : Block) (size : length fresh ≡ 128) where
  -- On an open channel with some messages in it and no reader, lsend of any values that fit (as
  -- for seri_pack, with less than 2^31 bytes) ends well, and the channel then has these values
  -- behind the other messages.
  pub lsend-Line :
      {g : Process} {id : ChannelId} {ms : List (List LuaValue)} (vs : List LuaValue)
      → Line g id ms
      → AllFit vs
      → 4 + length (all_bytes vs) < 2 ^ 31
      → (g' : Process) × (lsend fresh g id vs ≡ ok g') × Line g' id (ms ++ vs ∷ [])
  unfolding lsend
  lsend-Line {g} {id} {ms} vs l fit small =
      let (chain, junk, packed, full, bytes) = seri_pack-all_bytes fresh size vs fit in
      let read : seri_unpack (some chain) ≡ ok vs =
        rw packed at (seri_unpack-seri_pack fresh size vs fit small) in
      let msg : Pointer = suc (length g.messages) in
      let (mq, s', sent, stored, opened) =
        schedule_send-message msg l.pointers l.opened (omega arith) l.stored l.quiet in
      (
        record (with_schedule g s') { messages = g.messages ++ (some chain ∷ []) },
        rw (packed, l.started, to_id-Live l.opened.live, sent),
        record {
          schedule = s';
          started = refl;
          place = l.place;
          channel = record l.channel { mq = mq };
          opened = opened;
          quiet = l.quiet;
          pointers = l.pointers ++ msg ∷ [];
          stored = stored;
          held = Holds-append g.messages 0 l.pointers ms chain vs l.held (omega arith) read;
        },
      )

-- On an open channel with a first message and no reader, lrecv ends well with true and exactly the
-- values that were packed, frees the message, and leaves the other messages in the channel in
-- their order.
pub lrecv-Line :
    {g : Process} {id : ChannelId} {vs : List LuaValue} {ms : List (List LuaValue)}
    → Line g id (vs ∷ ms)
    → (g' : Process) × (lrecv g id ≡ ok (g', boolean true ∷ vs)) × Line g' id ms
unfolding lrecv
lrecv-Line {g} {id} {vs} {ms} l = on l.pointers l.stored l.held
  where
    on :
        (ps : List Pointer)
        → Stores l.channel.mq ps
        → Holds g.messages 0 ps (vs ∷ ms)
        → (g' : Process) × (lrecv g id ≡ ok (g', boolean true ∷ vs)) × Line g' id ms
    on [] st h = elim h [ ]
    on (zero ∷ ps) st (lt, c, rest) = absurd (omega arith)
    on (suc p ∷ ps) st (lt, (chain, at, reads), rest) =
        let (mq, run, stored, opened) = schedule_recv-message l.opened (suc p) ps st in
        let s' : Schedule = with_content l.schedule l.place (record l.channel { mq = mq }) in
        let some_msg : (suc p == 0) ≡ false = ground arith in
        let before : suc p - 1 ≡ p = omega arith in
        let freed = store-ok g.messages p none (omega (arith, deref-le g.messages (suc p) at)) in
        (
          record (with_schedule g s') { messages = set g.messages p none },
          rw (l.started, to_id-Live l.opened.live, run, some_msg, at, reads, before, freed),
          record {
            schedule = s';
            started = refl;
            place = l.place;
            channel = record l.channel { mq = mq };
            opened = opened;
            quiet = l.quiet;
            pointers = ps;
            stored = stored;
            held =
                Holds-low _ 0 (suc p) ps ms (omega arith)
                  (Holds-set g.messages p (suc p) ps ms (omega arith) rest);
          },
        )
