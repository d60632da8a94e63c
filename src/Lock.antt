-- ===== src/Lock.antt =====
-- The read-write lock of src/ltask/simplelock.h, as the steps of any number of threads on the two
-- shared words. One step is one atomic access; memory is sequentially consistent, as
-- `atom_sync` and the `__sync` builtins make it.
pub mod Tally
pub mod Exclusion
mod Tests
use grt.Base.{
  ℕ, zero, suc, ◌+◌, ◌-◌, Bool, true, false, Option, none, some, List, ◌==◌, if◌then◌else◌,
  get_elem?, set, replicate, ◌≡◌,
}

pub record RwLock : Type 0 where
  pub write : ℕ
  pub read : ℕ

abbrev pub rwlock_init : RwLock
rwlock_init = record { write = 0; read = 0 }

-- Where a thread stands: outside; in rwlock_rlock before the test of `write`, before `atom_inc`,
-- before the second test, and before `atom_dec`; between rwlock_rlock and rwlock_runlock; in
-- rwlock_wlock before it has `write`, and before it has seen no reader; between rwlock_wlock and
-- rwlock_wunlock.
pub data Place : Type 0 where
  outside testing entering counted leaving reading claiming draining writing : Place

pub record Step : Type 0 where
  pub lock : RwLock
  pub place : Place

-- The next access of a thread in rwlock_rlock, in rwlock_wlock, and the calls that leave the lock.
-- `atom_spinlock` writes 1 and goes on if it read 0.
abbrev pub rwlock_rlock : RwLock → Place → Step
rwlock_rlock l entering = record { lock = record l { read = l.read + 1 }; place = counted }
rwlock_rlock l counted = record { lock = l; place = if l.write == 0 then reading else leaving }
rwlock_rlock l leaving = record { lock = record l { read = l.read - 1 }; place = testing }
rwlock_rlock l p = record { lock = l; place = if l.write == 0 then entering else testing }

abbrev pub rwlock_wlock : RwLock → Place → Step
rwlock_wlock l draining = record { lock = l; place = if l.read == 0 then writing else draining }
rwlock_wlock l p = record {
  lock = record l { write = 1 };
  place = if l.write == 0 then draining else claiming;
}

abbrev pub rwlock_runlock : RwLock → Step
rwlock_runlock l = record { lock = record l { read = l.read - 1 }; place = outside }

abbrev pub rwlock_wunlock : RwLock → Step
rwlock_wunlock l = record { lock = record l { write = 0 }; place = outside }

-- The next step of a thread; outside, it calls rwlock_rlock or rwlock_wlock as it likes.
unfoldable pub advance : Bool → RwLock → Place → Step
advance to_read l outside = record { lock = l; place = if to_read then testing else claiming }
advance to_read l testing = rwlock_rlock l testing
advance to_read l entering = rwlock_rlock l entering
advance to_read l counted = rwlock_rlock l counted
advance to_read l leaving = rwlock_rlock l leaving
advance to_read l reading = rwlock_runlock l
advance to_read l claiming = rwlock_wlock l claiming
advance to_read l draining = rwlock_wlock l draining
advance to_read l writing = rwlock_wunlock l

pub record Threads : Type 0 where
  pub lock : RwLock
  pub places : List Place

abbrev pub after : Threads → ℕ → Step → Threads
after s i t = record { lock = t.lock; places = set s.places i t.place }

-- What `n` threads on a new lock reach, one step of one thread at a time.
pub data Reaches (n : ℕ) : Threads → Type 0 where
  start : Reaches n (record { lock = rwlock_init; places = replicate n outside })
  step :
      {s : Threads} (i : ℕ) (p : Place) (to_read : Bool)
      → Reaches n s
      → get_elem? s.places i ≡ some p
      → Reaches n (after s i (advance to_read s.lock p))
