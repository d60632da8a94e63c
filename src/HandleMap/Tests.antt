-- ===== src/HandleMap/Tests.antt =====
-- Handle maps of src/ltask/handlemap.c at concrete inputs.
use grt.Base.{
  ℕ, List, [], ◌∷◌, set, get_elem?, length, take, ◌≤◌, ◌-◌, ◌⊎◌, ◌%◌, ◌≡◌, ◌≢◌, refl, Option, none,
  some, true, false, arith,
}
use grt.Base.Run.{ok}
use grt.HandleMap.Count.{pos}
use grt.HandleMap.{
  HandleMap, HandleId, handlemap_init, handlemap_new, handlemap_list, handlemap_release,
  release_ref, try_delete, expand_map, probe, move_loop,
}
use grt.HandleMap.Shape.{IsMap}
use grt.HandleMap.Find.{find}
use grt.HandleMap.Sample.{slot, crowded, crowded-IsMap, three, three-IsMap}
use grt.HandleMap.Sharing.{Phase, idle, holds, deletes, Sharing, turn, Reaches, start, step}
use grt.HandleMap.Listing.{Lists, handlemap_list-Lists}
use grt.HandleMap.Once.{Live, Gone, handle-freed_once}
use grt.HandleMap.Refs.{Updates, handlemap_release-some}
use grt.HandleMap.Probe.{Added, first_slot}
use grt.HandleMap.New.{handlemap_new-Added, handlemap_new-wide, handlemap_new-loses}

-- The first handle of a new map is 1.
first_handle : Option HandleId
first_handle = elim (handlemap_init true true) [
  | none ↦ none
  | some m ↦ elim (handlemap_new true m 7) [ ok (m', id) ↦ some id | _ ↦ none ]
]

first_handle_lem : first_handle ≡ some 1
unfolding first_handle handlemap_init handlemap_new probe
first_handle_lem = refl

-- After the map has been widened, the handle 32 is not found any more.
lost_handle : elim (handlemap_new true crowded 7) [ ok (m', id) ↦ find m' 32 | _ ↦ none ] ≡ none
unfolding handlemap_new probe expand_map move_loop find
lost_handle = refl

handlemap_release-some_example :
    (m' : HandleMap) × (handlemap_release three 1 ≡ ok (m', 101)) × Updates three m' 1 none
unfolding find
handlemap_release-some_example = handlemap_release-some 1 (slot 1) three-IsMap refl (omega arith)

handlemap_new-Added_example :
    (m' : HandleMap) × (id : HandleId) × (handlemap_new false three 7 ≡ ok (m', id))
    × Added three m' id 7
handlemap_new-Added_example =
    handlemap_new-Added false three 7 three-IsMap (omega arith) (omega arith) (omega arith)

handlemap_new-wide_example :
    (m' : HandleMap) × (id : HandleId) × (handlemap_new true crowded 7 ≡ ok (m', id))
    × IsMap m'
    × (id ≢ 0)
    × (find m' id ≡ some (first_slot id 7))
    × ((j : HandleId) → j % 32 ≢ 0 → id ≢ j → find m' j ≡ find crowded j)
handlemap_new-wide_example =
    handlemap_new-wide crowded 7 crowded-IsMap (omega arith) (omega arith) (omega arith)

handlemap_new-loses_example :
    (m' : HandleMap) × (id : HandleId) × (handlemap_new true crowded 7 ≡ ok (m', id))
    × ((id ≡ 32) ⊎ (find m' 32 ≡ none))
handlemap_new-loses_example =
    handlemap_new-loses crowded 7 32 crowded-IsMap (omega arith) (omega arith) (omega arith)
      (omega arith) refl

-- The first thread has taken its reference back, and is about to delete the handle.
abbrev about_to_delete : Sharing
about_to_delete = record {
  map = record three { slots = set three.slots 1 (record (slot 1) { ref = pos 0 }) };
  phases = deletes ∷ idle ∷ [];
  given = [];
}

abbrev all_done : Sharing
all_done = record {
  map = record three {
    n = three.n - 1;
    slots = set three.slots 1 (record (slot 1) { id = 0; ref = pos 0 });
  };
  phases = idle ∷ idle ∷ [];
  given = 101 ∷ [];
}

all_done-Reaches : Reaches three 1 1 all_done
unfolding turn release_ref try_delete
all_done-Reaches = step all_done 0 deletes (step about_to_delete 0 holds start refl refl) refl refl

handle-freed_once_example :
    ((i : ℕ) (p : Phase)
      → get_elem? all_done.phases i ≡ some p
      → (s' : Sharing) × (turn all_done 1 i p ≡ ok s'))
    × (Live (slot 1) 1 all_done ⊎ Gone (slot 1) 1 all_done)
unfolding find
handle-freed_once_example =
    handle-freed_once (slot 1) 1 three-IsMap refl (omega arith) all_done-Reaches

handlemap_list-Lists_example :
    (ids : List HandleId) × Lists three ids
    × (length ids ≤ three.n)
    × ((room : ℕ) → handlemap_list three room ≡ (take room ids, three.n))
handlemap_list-Lists_example = handlemap_list-Lists three three-IsMap
