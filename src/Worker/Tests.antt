-- ===== src/Worker/Tests.antt =====
-- Runs of the workers of src/ltask/ltask.c, and the theorems at concrete inputs.
use grt.Base.{ℕ, ◌*◌, ◌+◌, ◌<◌, ◌≡◌, refl, true, arith, ◌==◌, if◌then◌else◌}
use grt.Base.Run.{Run, ok, aborted, ◌>>=◌}
use grt.Worker.{
  waking, notifying, scanning, sleeping, Workshop, alive, finishes, fails, pushes, turn, lrun,
  Reaches, start, step,
}
use grt.Worker.Wake.{Sleeps, now, next, sleeper-Woken}
use grt.Worker.Progress.{RunsWithin, ready-RunsWithin, alone}

-- One task in the queue of the first worker.
abbrev one_task : ℕ → ℕ
one_task i = if i == 0 then 1 else 0

-- what a run of steps leaves
abbrev left : Run Workshop → Workshop
left (ok s) = s
left r = lrun one_task

-- The first of two workers has taken it, and the task has sent a message to one of the second.
abbrev woke : Workshop
woke = left (turn 2 alive (lrun one_task) 0)

abbrev took : Workshop
took = left (turn 2 alive woke 0)

abbrev sent : Workshop
sent = left (turn 2 (pushes 1) took 0)

-- The second worker has looked at both queues before, and sleeps.
abbrev asleep : Workshop
asleep = left (alone 2 4 took 1)

sleeps : asleep.place 1 ≡ sleeping
unfolding turn alone
sleeps = refl

-- It is woken after the slice of the first one, and both can go on.
woken :
    (left (turn 2 (pushes 1) asleep 0 >>= λ s. turn 2 finishes s 0 >>= λ s'. alone 2 3 s' 0)).flag 1
    ≡ true
unfolding turn alone
woken = refl

-- The assertion of schedule_releasetask ends the program.
stopped : turn 2 fails sent 0 ≡ aborted
unfolding turn
stopped = refl

sent-Reaches : Reaches 2 sent
unfolding turn
sent-Reaches =
    step sent 0 (pushes 1) (omega arith)
      (step took 0 alive (omega arith) (step woke 0 alive (omega arith) (start one_task) refl) refl)
      refl

one_ready : 0 < sent.ready 1
unfolding turn
one_ready = omega arith

ready-RunsWithin_example : (w : ℕ) × (w < 2) × RunsWithin 2 (2 * 2 + 2) sent w
ready-RunsWithin_example = ready-RunsWithin sent-Reaches (omega arith) one_ready

-- The second worker goes to sleep in four steps, then the slice of the first one ends, and its loop
-- over both workers takes three steps.
abbrev up : Workshop
up = left (turn 2 alive took 1)

abbrev looked : Workshop
looked = left (turn 2 alive up 1)

abbrev done_looking : Workshop
done_looking = left (turn 2 alive looked 1)

abbrev resting : Workshop
resting = left (turn 2 alive done_looking 1)

abbrev ended : Workshop
ended = left (turn 2 finishes resting 0)

ended-Reaches : Reaches 2 ended
unfolding turn
ended-Reaches =
    step ended 0 finishes (omega arith)
      (step resting 1 alive (omega arith)
        (step done_looking 1 alive (omega arith)
          (step looked 1 alive (omega arith)
            (step up 1 alive (omega arith)
              (step took 0 alive (omega arith)
                (step woke 0 alive (omega arith) (start one_task) refl) refl)
              refl)
            refl)
          refl)
        refl)
      refl

abbrev told_none : Workshop
told_none = left (turn 2 alive ended 0)

abbrev told_all : Workshop
told_all = left (turn 2 alive told_none 0)

abbrev searching : Workshop
searching = left (turn 2 alive told_all 0)

searching-Sleeps : Sleeps 2 1 ended searching
unfolding turn
searching-Sleeps =
    next searching 0 alive
      (next told_all 0 alive (next told_none 0 alive (now refl) refl refl) refl refl) refl refl

at_loop : ended.place 0 ≡ notifying 0
unfolding turn
at_loop = refl

at_search : searching.place 0 ≡ scanning 0
unfolding turn
at_search = refl

sleeper-Woken_example : (t' : Workshop) × (turn 2 alive searching 1 ≡ ok t') × (t'.place 1 ≡ waking)
sleeper-Woken_example =
    sleeper-Woken ended-Reaches (omega arith) at_loop searching-Sleeps at_search alive
