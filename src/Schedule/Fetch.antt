-- ===== src/Schedule/Fetch.antt =====
-- schedule_grabtask of src/ltask/schedule.c on a well-formed state: it ends, since each round takes an
-- id from a queue.
use native.Mathlib.Nat.{mod-lt}
use grt.Base.{
  ℕ, zero, suc, ◌+◌, ◌-◌, ◌%◌, ◌^◌, ◌<◌, ◌≤◌, ◌≡◌, ◌≢◌, ◌⊎◌, refl, ◌∙◌, ap, subst, List, [], ◌∷◌,
  some, false, arith, length, length-set, set, get_elem?, get_elem?-lt, get_elem?-set, ◌==◌,
  Bool-cases, Option-cases, inl, inr, mod_wrap,
}
use grt.Base.Run.{Run, ok, aborted, load-ok, store-ok}
use grt.Queue.{Queue}
use grt.Queue.Shape.{Stores}
use grt.Queue.Fifo.{queue_pop-Stores, queue_pop-nil}
use grt.HandleMap.{Pointer}
use grt.HandleMap.Find.{find}
use grt.HandleMap.Refs.{handlemap_grab-none}
use grt.Schedule.{
  Schedule, Task, TaskId, running, same_status, pop_ready, steal, next_ready, schedule_grabtask,
}
use grt.Schedule.Views.{during, grab-Live, assign-deref, release_task-during}
use grt.Schedule.Tasks.{Queued}
use grt.Schedule.Names.{Names-Live, Names-set}
use grt.Schedule.Whole.{IsSchedule, queue_of}

-- The entries of a ring, and of all rings.
abbrev entries : Queue → ℕ
entries q = (q.tail + q.n - q.head) % q.n

abbrev pub total : List Queue → ℕ
total [] = 0
total (q ∷ qs) = entries q + total qs

entries_lem : {q : Queue} {xs : List Pointer} → Stores q xs → entries q ≡ length xs
entries_lem {q} {xs} st = ground (
  arith,
  st.head_in,
  st.roomy,
  st.tail_at,
  mod_wrap (q.head + length xs) q.n (omega (arith, st.head_in, st.roomy)),
  mod_wrap (q.tail + q.n - q.head) q.n (
      omega (
        arith,
        st.head_in,
        st.roomy,
        st.tail_at,
        mod_wrap (q.head + length xs) q.n (omega (arith, st.head_in, st.roomy)),
      )),
)

total-set :
    (qs : List Queue) (i : ℕ) (old new : Queue)
    → get_elem? qs i ≡ some old
    → total (set qs i new) + entries old ≡ total qs + entries new
total-set [] i old new at = absurd (ground arith)
total-set (q ∷ qs) zero old new at =
    let same : entries q ≡ entries old = ap entries (some_inj at) in omega (arith, same)
  where
    some_inj : {x y : Queue} → some x ≡ some y → x ≡ y
    some_inj e = ground arith
total-set (q ∷ qs) (suc i) old new at = omega (arith, total-set qs i old new at)

-- An id is taken from a queue, or 0 is found.
abbrev Pops : Schedule → Run (TaskId × Schedule) → Type 0
Pops s r =
    (id : TaskId) × (s' : Schedule) × (r ≡ ok (id, s'))
    × IsSchedule s'
    × (s'.threads ≡ s.threads)
    × (total s'.q ≤ total s.q)
    × (id ≢ 0 → total s'.q < total s.q)

module _ {s : Schedule} (v : IsSchedule s) where
  -- Another ring in the place of one.
  queue-IsSchedule :
      (thread : ℕ) (q' : Queue) (ids : List TaskId)
      → thread < s.threads
      → Stores q' ids
      → IsSchedule (record s { q = set s.q thread q' })
  queue-IsSchedule thread q' ids lt stores = record {
    channels = v.channels;
    tasks = v.tasks;
    all_queues = length-set s.q thread q' ∙ v.all_queues;
    queues = λ i q at_i. elim (Bool-cases (thread == i)) [
      | inl e ↦ (
        ids,
        subst (λ x. Stores x ids) (ground (arith, get_elem?-set s.q thread i q' inside)) stores,
      )
      | inr e ↦ v.queues i q (ground (arith, get_elem?-set s.q thread i q' inside))
    ];
    turn = v.turn;
  }
    where
      inside : thread < length s.q
      inside = omega (arith, v.all_queues, lt)

  pop_ready-Pops : (thread : ℕ) → thread < s.threads → Pops s (pop_ready s thread)
  pop_ready-Pops thread lt = let (ids, queued) = queue_of v thread lt in pop ids queued
    where
      pop : (ids : List TaskId) → Queued s thread ids → Pops s (pop_ready s thread)
      pop [] qd =
          let inside = get_elem?-lt s.q thread qd.at in
          (
            0 % 2 ^ 32,
            record s { q = set s.q thread qd.queue },
            rw
                (
                  load-ok s.q thread qd.at,
                  queue_pop-nil qd.stores,
                  store-ok s.q thread qd.queue inside,
                )
                refl,
            queue-IsSchedule thread qd.queue [] lt qd.stores,
            refl,
            omega (arith, total-set s.q thread qd.queue qd.queue qd.at),
            λ ne. absurd (omega (arith, ne)),
          )
      pop (id ∷ ids) qd =
          let inside = get_elem?-lt s.q thread qd.at in
          let (q', run, left) = queue_pop-Stores id ids qd.stores in
          let fewer = total-set s.q thread qd.queue q' qd.at in
          let before = entries_lem qd.stores in
          let after = entries_lem left in
          (
            id % 2 ^ 32,
            record s { q = set s.q thread q' },
            rw (load-ok s.q thread qd.at, run, store-ok s.q thread q' inside) refl,
            queue-IsSchedule thread q' ids lt left,
            refl,
            omega (arith, fewer, before, after),
            λ ne. omega (arith, fewer, before, after),
          )

steal-Pops : (rounds i thread : ℕ) (s : Schedule) → IsSchedule s → Pops s (steal s thread rounds i)
unfolding steal
steal-Pops zero i thread s v = (0, s, refl, v, refl, omega arith, λ ne. absurd (ne refl))
steal-Pops (suc rounds) i thread s v =
    let (id, s1, run, v1, same, le, less) =
      pop_ready-Pops v ((thread + i) % s.threads) (mod-lt (thread + i) (omega (arith, v.turn))) in
    let (id', s2, run', v2, same', le', less') = steal-Pops rounds (i + 1) thread s1 v1 in
    elim (Bool-cases (id == 0)) [
      | inr e ↦ (id, s1, rw (run, e) refl, v1, same, le, less)
      | inl e ↦ (
        id',
        s2,
        rw (run, e) run',
        v2,
        same' ∙ same,
        omega (arith, le, le'),
        λ ne. omega (arith, le, less' ne),
      )
    ]

next_ready-Pops :
    (thread : ℕ) (s : Schedule) → IsSchedule s → thread < s.threads → Pops s (next_ready s thread)
unfolding next_ready
next_ready-Pops thread s v lt =
    let (id, s1, run, v1, same, le, less) = pop_ready-Pops v thread lt in
    let (id', s2, run', v2, same', le', less') = steal-Pops (s.threads - 1) 1 thread s1 v1 in
    elim (Bool-cases (id == 0)) [
      | inr e ↦ (id, s1, rw (run, e) refl, v1, same, le, less)
      | inl e ↦ (
        id',
        s2,
        rw (run, e) run',
        v2,
        same' ∙ same,
        omega (arith, le, le'),
        λ ne. omega (arith, le, less' ne),
      )
    ]

-- It ends well, or fails the assertion that the task is not running.
pub schedule_grabtask-Ends :
    (fuel : ℕ) (s : Schedule) (thread : ℕ)
    → IsSchedule s
    → thread < s.threads
    → total s.q < fuel
    → (schedule_grabtask fuel s thread ≡ aborted)
      ⊎ ((s' : Schedule) × (ud : Pointer) × (schedule_grabtask fuel s thread ≡ ok (s', ud))
          × IsSchedule s')
unfolding schedule_grabtask
schedule_grabtask-Ends zero s thread v lt enough = absurd (omega arith)
schedule_grabtask-Ends (suc fuel) s thread v lt enough =
    let (id, s1, run, v1, same, le, less) = next_ready-Pops thread s v lt in
    elim (Bool-cases (id == 0)) [
      | inl e ↦ inr (s1, 0, rw (run, e) refl, v1)
      | inr e ↦ elim (Option-cases (find s1.task id)) [
        | inl unknown ↦
            let none_there = handlemap_grab-none id v1.tasks.valid unknown in
            elim (schedule_grabtask-Ends fuel s1 thread v1 (omega (arith, same, lt))
              (omega (arith, less (ground arith), enough))) [
                | inl stops ↦ inl (rw (run, e, none_there) stops)
                | inr (s2, ud, rest, v2) ↦ inr (s2, ud, rw (run, e, none_there) rest, v2)
              ]
        | inr (slot, found) ↦
            let (held, non_null, t, at, good) = v1.tasks.named id slot found in
            let l = Names-Live v1.tasks id slot found in
            let some_p : (slot.ud == 0) ≡ false = ground arith in
            let new : Task = record t { status = running; thread = thread } in
            let taken : Schedule = record s1 { tasks = set s1.tasks (slot.ud - 1) (some new) } in
            elim (Bool-cases (same_status t.status running)) [
              | inl is ↦ inl (rw (run, e, grab-Live l, some_p, at, is) refl)
              | inr other ↦ inr (
                taken,
                t.ud,
                rw
                    (
                      run,
                      e,
                      grab-Live l,
                      some_p,
                      at,
                      other,
                      (assign-deref s1.tasks slot.ud t new at).0,
                      release_task-during l (record taken { task = during l }) refl,
                    )
                    refl,
                record {
                  channels = v1.channels;
                  tasks =
                      Names-set v1.tasks slot.ud t new at
                        (record { inside = omega (arith, same, lt); named = good.named });
                  all_queues = v1.all_queues;
                  queues = v1.queues;
                  turn = v1.turn;
                },
              )
            ]
      ]
    ]
