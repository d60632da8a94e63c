-- ===== src/Schedule/Tests.antt =====
-- The scheduler of src/ltask/schedule.c at concrete inputs.
use grt.Base.{◌≢◌, set, replicate, none, some, true, ◌≡◌, refl, [], ◌∷◌, arith}
use grt.Base.Run.{ok, aborted}
use grt.Queue.{queue_create, queue_push, queue_pop}
use grt.HandleMap.Find.{find}
use grt.Schedule.Names.{Names-Live}
use grt.Schedule.Choice.{First, schedule_select-First}
use grt.HandleMap.{handlemap_init, handlemap_new, handlemap_grab, handlemap_release, probe}
use grt.HandleMap.Count.{pos}
use grt.HandleMap.Fresh.{fresh_map}
use grt.Schedule.Whole.{IsSchedule}
use grt.Schedule.Operations.{
  Operation, opens_task, opens_channel, sends, apply, Allowed, Settles, Reaches, start, step,
  operations-Settle,
}
use grt.Schedule.{
  Schedule, Channel, ChannelId, ready, schedule_newchannel, schedule_send, schedule_select,
  wake_loop, release_channel, schedule_create, schedule_opentask, commit_task, schedule_releasetask,
  wake,
}
use grt.Schedule.Sample.{sleeper, office, Known-sleeper, idle_queue}
use grt.Schedule.Tasks.{Readied, wake-blocked, schedule_releasetask-blocked, wake-before_release}

wake-blocked_example : (s' : Schedule) × (wake office 1 ≡ ok s') × Readied office s' 1 1 sleeper []
wake-blocked_example = wake-blocked Known-sleeper idle_queue (omega arith) refl

schedule_releasetask-blocked_example : schedule_releasetask office 1 ≡ ok office
schedule_releasetask-blocked_example = schedule_releasetask-blocked Known-sleeper refl

wake-before_release_example :
    (s' : Schedule) × (wake office 1 ≡ ok s') × (schedule_releasetask s' 1 ≡ aborted)
wake-before_release_example = wake-before_release Known-sleeper idle_queue (omega arith) refl

-- A schedule of one thread, and what opening a task for the state 9 makes of it.
abbrev new_schedule : Schedule
new_schedule = record {
  threads = 1;
  current = 0;
  q = record { n = 16; head = 0; tail = 0; cells = replicate 16 none } ∷ [];
  channel = fresh_map;
  task = fresh_map;
  tasks = [];
  channels = [];
}

abbrev one_task : Schedule
one_task = record new_schedule {
  q = record { n = 16; head = 0; tail = 1; cells = some 1 ∷ replicate 15 none } ∷ [];
  task = record {
    lastid = 1;
    cap = 16;
    n = 1;
    slots = set fresh_map.slots 1 (record { id = 1; ref = pos 1; ud = 1 });
  };
  tasks = some (record { ud = 9; status = ready; thread = 0; id = 1 }) ∷ [];
}

one_task-Reaches : Reaches 1 one_task
unfolding schedule_create queue_create handlemap_init schedule_opentask commit_task handlemap_new
    probe queue_push
one_task-Reaches =
    step one_task (opens_task true 9) (start new_schedule refl) (omega arith, omega arith) refl

operations-Settle_example :
    IsSchedule one_task × ((op : Operation) → Allowed one_task op → Settles op (apply op one_task))
operations-Settle_example = operations-Settle (omega arith) one_task-Reaches

abbrev no_message : Channel
no_message = record {
  mq = record { n = 16; head = 0; tail = 0; cells = replicate 16 none };
  reader = record { n = 16; head = 0; tail = 0; cells = replicate 16 none };
}

-- The task has opened a channel, then another one, and sent a message to the second.
abbrev one_channel : Schedule
one_channel = record one_task { channel = one_task.task; channels = some no_message ∷ [] }

abbrev two_channels : Schedule
two_channels = record one_task {
  channel = record {
    lastid = 2;
    cap = 16;
    n = 2;
    slots = set one_task.task.slots 2 (record { id = 2; ref = pos 1; ud = 2 });
  };
  channels = some no_message ∷ some no_message ∷ [];
}

abbrev sent : Schedule
sent = record two_channels {
  channels =
      some no_message
      ∷ some (record no_message {
        mq = record { n = 16; head = 0; tail = 1; cells = some 5 ∷ replicate 15 none };
      })
      ∷ [];
}

sent-Reaches : Reaches 1 sent
unfolding schedule_newchannel schedule_send wake_loop queue_pop queue_create handlemap_new
    handlemap_grab handlemap_release probe queue_push release_channel
sent-Reaches =
    step sent (sends 2 5)
      (step two_channels (opens_channel true)
        (step one_channel (opens_channel true) one_task-Reaches (omega arith, omega arith) refl)
        (omega arith, omega arith) refl)
      (omega arith) refl

one_found : find sent.task 1 ≡ some (record { id = 1; ref = pos 1; ud = 1 })
unfolding find
one_found = refl

schedule_select-First_example :
    (s' : Schedule) × (ch : ChannelId) × (schedule_select sent 1 (1 ∷ 2 ∷ []) ≡ ok (s', ch))
    × First sent (1 ∷ 2 ∷ []) ch
    × (ch ≢ 0 → s' ≡ sent)
schedule_select-First_example =
    schedule_select-First (operations-Settle (omega arith) sent-Reaches).0 1
      (Names-Live (operations-Settle (omega arith) sent-Reaches).0.tasks 1
        (record { id = 1; ref = pos 1; ud = 1 }) one_found)
      (1 ∷ 2 ∷ [])
