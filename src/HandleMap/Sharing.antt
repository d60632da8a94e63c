-- ===== src/HandleMap/Sharing.antt =====
-- Threads that share one handle of src/ltask/handlemap.c. The lock makes handlemap_grab one step, and
-- handlemap_release two: release_ref, and try_delete when that gave the pointer.
use grt.Base.{ℕ, List, [], ◌∷◌, some, ◌≡◌, ◌==◌, if◌then◌else◌, get_elem?, set, replicate}
use grt.Base.Run.{Run, ok, ◌>>=◌}
use grt.HandleMap.{HandleMap, HandleId, Pointer, release_ref, try_delete, handlemap_grab}
use grt.HandleMap.Shape.{IsMap}
use grt.HandleMap.Find.{find}

-- A thread has no reference, has one, or is between the two steps of handlemap_release.
pub data Phase : Type 0 where
  idle holds deletes : Phase

-- `given` has the pointers that handlemap_release has returned.
pub record Sharing : Type 0 where
  pub map : HandleMap
  pub phases : List Phase
  pub given : List Pointer

-- Thread `i` in the map `m`, with a new phase.
abbrev pub goes : Sharing → ℕ → HandleMap → Phase → Sharing
goes s i m p = record s { map = m; phases = set s.phases i p }

-- The next step of a thread: it grabs the handle if it has no reference, and releases it if it has.
unfoldable pub turn : Sharing → HandleId → ℕ → Phase → Run Sharing
turn s id i idle =
    handlemap_grab s.map id >>= λ (m, ud). ok (goes s i m (if ud == 0 then idle else holds))
turn s id i holds =
    release_ref s.map id >>= λ (m, ud). ok (goes s i m (if ud == 0 then idle else deletes))
turn s id i deletes = try_delete s.map id >>= λ (m, ud).
    ok (record (goes s i m idle) { given = if ud == 0 then s.given else ud ∷ s.given })

-- What the threads reach when the first has the only reference, one step of one thread at a time.
-- Meanwhile the map may change in any way that leaves this handle alone.
pub data Reaches (m : HandleMap) (id : HandleId) (n : ℕ) : Sharing → Type 0 where
  start : Reaches m id n (record { map = m; phases = holds ∷ replicate n idle; given = [] })
  step :
      {s : Sharing} (s' : Sharing) (i : ℕ) (p : Phase)
      → Reaches m id n s
      → get_elem? s.phases i ≡ some p
      → turn s id i p ≡ ok s'
      → Reaches m id n s'
  meanwhile :
      {s : Sharing} (m' : HandleMap)
      → Reaches m id n s
      → IsMap m'
      → find m' id ≡ find s.map id
      → Reaches m id n (record s { map = m' })
