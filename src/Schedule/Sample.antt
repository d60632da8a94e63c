-- ===== src/Schedule/Sample.antt =====
-- A small state of src/ltask/schedule.c.
use grt.Base.{refl, [], ◌∷◌, some, arith}
use grt.Queue.{queue_create}
use grt.Queue.Fifo.{queue_create-Stores}
use grt.Queue.Sample.{wrapped}
use grt.HandleMap.Find.{find}
use grt.HandleMap.Count.{pos}
use grt.HandleMap.Sample.{pair_map, pair_map-IsMap}
use grt.Schedule.{Schedule, Task, Channel, running, blocked}
use grt.Schedule.Views.{Live, Known, Open}
use grt.Schedule.Tasks.{Queued}

-- Handle 1 names a blocked task at place 1, handle 2 a running one at place 2.
abbrev pub sleeper : Task
sleeper = record { ud = 11; status = blocked; thread = 0; id = 1 }

abbrev pub worker : Task
worker = record { ud = 12; status = running; thread = 0; id = 2 }

abbrev pub line : Channel
line = record { mq = wrapped; reader = queue_create }

abbrev pub office : Schedule
office = record {
  threads = 1;
  current = 0;
  q = queue_create ∷ [];
  channel = pair_map;
  task = pair_map;
  tasks = some sleeper ∷ some worker ∷ [];
  channels = some line ∷ some line ∷ [];
}

pub Live-one : Live pair_map 1 1
unfolding find
Live-one = record {
  slot = record { id = 1; ref = pos 1; ud = 1 };
  valid = pair_map-IsMap;
  found = refl;
  held = refl;
  points = refl;
  non_null = omega arith;
}

pub Live-two : Live pair_map 2 2
unfolding find
Live-two = record {
  slot = record { id = 2; ref = pos 1; ud = 2 };
  valid = pair_map-IsMap;
  found = refl;
  held = refl;
  points = refl;
  non_null = omega arith;
}

pub Known-sleeper : Known office 1 1 sleeper
Known-sleeper = record { live = Live-one; at = refl }

pub Known-worker : Known office 2 2 worker
Known-worker = record { live = Live-two; at = refl }

pub Open-line : Open office 1 1 line
Open-line = record { live = Live-one; at = refl }

pub idle_queue : Queued office 0 []
idle_queue = record { queue = queue_create; at = refl; stores = queue_create-Stores }
