-- ===== src/Ltask/Tests.antt =====
-- Runs of src/ltask/ltask.c, and the theorems at concrete inputs.
use grt.Base.{◌+◌, ◌≡◌, ◌^◌, ◌<◌, refl, true, List, [], ◌∷◌, some, none, arith, length, replicate}
use grt.Base.Run.{Run, ok, raised}
use grt.Queue.{Queue, queue_create, queue_push}
use grt.Queue.Fifo.{queue_create-Stores, queue_push-Stores}
use grt.Queue.Shape.{Stores}
use grt.HandleMap.{Pointer}
use grt.Serial.Blocks.{Block}
use grt.Serial.Value.{LuaValue, boolean, integer, str}
use grt.Serial.Format.{AllFit, all_bytes, bytes_of, integer_bytes, string_bytes}
use grt.Serial.Bytes.{to_bytes}
use grt.Schedule.{Schedule, Task, Channel, ready}
use grt.Schedule.Views.{Known}
use grt.Schedule.Tasks.{Queued}
use grt.Schedule.Sample.{office, sleeper, Live-one}
use grt.Ltask.{Process, with_schedule, Resumed, yielded, lsend, lrecv, lchannel, linit, run_slice}
use grt.Ltask.Line.{Line, lsend-Line, lrecv-Line}
use grt.Ltask.Slice.{run_slice-yielded}

abbrev noise : Block
noise = replicate 128 170

abbrev quiet_line : Channel
quiet_line = record { mq = queue_create; reader = queue_create }

abbrev opened : Process
opened = record {
  schedule = some (record office { channels = some quiet_line ∷ some quiet_line ∷ [] });
  messages = [];
  ltasks = [];
}

opened-Line : Line opened 1 []
opened-Line = record {
  schedule = record office { channels = some quiet_line ∷ some quiet_line ∷ [] };
  started = refl;
  place = 1;
  channel = quiet_line;
  opened = record { live = Live-one; at = refl };
  quiet = queue_create-Stores;
  pointers = [];
  stored = queue_create-Stores;
  held = tt;
}

abbrev greeting : List LuaValue
greeting = integer 7 ∷ str (104 ∷ 105 ∷ []) ∷ []

greeting_fits : AllFit greeting
greeting_fits = ((omega arith, omega arith), ((omega arith, omega arith), tt))

greeting_small : 4 + length (all_bytes greeting) < 2 ^ 31
unfolding all_bytes bytes_of to_bytes integer_bytes string_bytes
greeting_small = omega arith

-- A second linit is an error, and so is a channel before the first.
init_twice : linit opened 4 ≡ raised
unfolding linit
init_twice = refl

too_early : lchannel true (record opened { schedule = none }) ≡ raised
unfolding lchannel
too_early = refl

lsend-Line_example :
    (g' : Process) × (lsend noise opened 1 greeting ≡ ok g') × Line g' 1 (greeting ∷ [])
lsend-Line_example = lsend-Line noise refl greeting opened-Line greeting_fits greeting_small

-- The process after the message was sent.
abbrev sent : (g' : Process) × (lsend noise opened 1 greeting ≡ ok g') × Line g' 1 (greeting ∷ [])
sent = lsend-Line noise refl greeting opened-Line greeting_fits greeting_small

lrecv-Line_example :
    (g' : Process) × (lrecv sent.0 1 ≡ ok (g', boolean true ∷ greeting)) × Line g' 1 []
lrecv-Line_example = lrecv-Line sent.2

-- Handle 1 names a ready task, alone in the queue of the worker.
abbrev early : Task
early = record sleeper { ud = 1; status = ready }

abbrev one_id : (q : Queue) × (queue_push queue_create 1 ≡ ok q) × Stores q (1 ∷ [])
one_id = queue_push-Stores 1 queue_create-Stores (omega arith)

abbrev morning : Schedule
morning = record office { tasks = some early ∷ []; q = one_id.0 ∷ [] }

abbrev at_work : Process
at_work = record {
  schedule = some morning;
  messages = [];
  ltasks = some (record { vm = 5; id = 1 }) ∷ [];
}

Known-early : Known morning 1 1 early
Known-early = record { live = Live-one; at = refl }

Queued-early : Queued morning 0 (1 ∷ [])
Queued-early = record { queue = one_id.0; at = refl; stores = one_id.2 }

-- A state that yields at once.
abbrev idle : Pointer → Process → Run (Process × Resumed)
idle vm h = ok (h, yielded)

run_slice-yielded_example :
    (s' : Schedule) × (run_slice idle 1 at_work 0 ≡ ok (with_schedule at_work s', true))
    × Known s' 1 1 (record early { status = ready; thread = 0 })
    × Queued s' 0 (1 ∷ [])
run_slice-yielded_example =
    run_slice-yielded idle {g = at_work} {o = record { vm = 5; id = 1 }} 0 0 refl Known-early refl
      refl Queued-early (omega arith) refl refl (λ h. refl)
