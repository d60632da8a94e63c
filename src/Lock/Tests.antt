-- ===== src/Lock/Tests.antt =====
-- Runs of the lock of src/ltask/simplelock.h, and the theorems at concrete inputs.
use grt.Base.{ℕ, ◌≡◌, refl, inl, true, false, [], ◌∷◌}
use grt.Lock.{outside, counted, writing, Threads, Reaches, start, step, advance}
use grt.Lock.Exclusion.{rwlock-exclusive}

-- The first of two threads holds the lock to write.
first_writes :
    Reaches 2 (record { lock = record { write = 1; read = 0 }; places = writing ∷ outside ∷ [] })
unfolding advance
first_writes = step 0 _ false (step 0 _ false (step 0 _ false start refl) refl) refl

-- The second has counted itself meanwhile.
abbrev second_counts : Threads
second_counts = record { lock = record { write = 1; read = 1 }; places = writing ∷ counted ∷ [] }

second_counts_reached : Reaches 2 second_counts
unfolding advance
second_counts_reached =
    step 1 _ false
      (step 0 _ false
        (step 0 _ false (step 1 _ false (step 0 _ false (step 1 _ true start refl) refl) refl) refl)
        refl)
      refl

rwlock-exclusive_example : ◌≡◌ {A = ℕ} 0 0
rwlock-exclusive_example = rwlock-exclusive 0 0 first_writes refl refl (inl refl)
