-- ===== src/Schedule/Views.antt =====
-- Live tasks and open channels of src/ltask/schedule.c, and the grab and release round each access.
use grt.Base.{
  zero, suc, ◌-◌, ◌<◌, ◌≡◌, ◌≢◌, ap, sym, subst, ◌^◌, ◌∙◌, List, Option, some, true, false, arith,
  length, get_elem?, get_elem?-lt, get_elem?-set, set, ◌==◌,
}
use grt.Base.Run.{Run, ok, store, store-ok}
use grt.HandleMap.{HandleMap, HandleId, Pointer, Slot, handlemap_grab, handlemap_release}
use grt.HandleMap.Count.{is_pos}
use grt.HandleMap.Shape.{IsMap}
use grt.HandleMap.Find.{find, find-slot}
use grt.HandleMap.Refs.{grabbed, grab_release}
use grt.Schedule.{
  Schedule, Task, Channel, TaskId, ChannelId, deref, with_channel, release_task, release_channel,
}

-- The handle is live in the map, with a reference and the pointer `p`, which is not NULL.
pub record Live (m : HandleMap) (id : HandleId) (p : Pointer) : Type 0 where
  pub slot : Slot
  pub valid : IsMap m
  pub found : find m id ≡ some slot
  pub held : is_pos slot.ref ≡ true
  pub points : slot.ud ≡ p
  pub non_null : p ≢ 0

-- The handle names the task `t`, at `p`.
pub record Known (s : Schedule) (id : TaskId) (p : Pointer) (t : Task) : Type 0 where
  pub live : Live s.task id p
  pub at : deref s.tasks p ≡ ok t

-- The handle names the channel `c`, at `p`.
pub record Open (s : Schedule) (id : ChannelId) (p : Pointer) (c : Channel) : Type 0 where
  pub live : Live s.channel id p
  pub at : deref s.channels p ≡ ok c

-- A live place can be written, and then holds what was written.
pub assign-deref {ℓ} :
    {A : Type ℓ} (memory : List (Option A)) (p : Pointer) (old new : A)
    → deref memory p ≡ ok old
    → (store memory (p - 1) (some new) ≡ ok (set memory (p - 1) (some new)))
      × (deref (set memory (p - 1) (some new)) p ≡ ok new)
assign-deref memory zero old new h = absurd (ground arith)
assign-deref memory (suc p) old new h =
    let here : get_elem? memory p ≡ some (some old) = ground arith in
    let lt : p < length memory = get_elem?-lt memory p here in
    let place : suc p - 1 ≡ p = omega arith in
    (
      rw place (store-ok memory p (some new) lt),
      rw place (ground (arith, get_elem?-set memory p p (some new) lt)),
    )

module _ {m : HandleMap} {id : HandleId} {p : Pointer} (l : Live m id p) where
  -- the map while the handle is grabbed
  abbrev pub during : HandleMap
  during = grabbed m id l.slot

  pub grab-Live : handlemap_grab m id ≡ ok (during, p)
  grab-Live = (grab_release id l.slot l.valid l.found l.held).0 ∙ ap (λ t. ok (during, t)) l.points

  pub release-Live : handlemap_release during id ≡ ok (m, 0)
  release-Live = (grab_release id l.slot l.valid l.found l.held).1

-- A live handle fits an `unsigned int`.
pub Live-lt : {m : HandleMap} {id : HandleId} {p : Pointer} → Live m id p → id < 2 ^ 32
Live-lt {m} {id} l =
    let (nz, at, same) = find-slot m id l.found in
    subst (λ i. i < 2 ^ 32) same (l.valid.placed _ l.slot at (λ e. nz (sym same ∙ e))).1

-- Releasing a grabbed task or channel puts the map back and frees nothing.
pub release_task-during :
    {m : HandleMap} {id : TaskId} {p : Pointer} (l : Live m id p) (s' : Schedule)
    → s'.task ≡ during l
    → release_task s' id ≡ ok (record s' { task = m })
unfolding release_task
release_task-during {m} {id} l s' e = rw (e, release-Live l)

pub release_channel-during :
    {m : HandleMap} {id : ChannelId} {p : Pointer} (l : Live m id p) (s' : Schedule)
    → s'.channel ≡ during l
    → release_channel s' id ≡ ok (record s' { channel = m })
unfolding release_channel
release_channel-during {m} {id} l s' e = rw (e, release-Live l)

-- A block of code over an open channel.
pub with_channel-Open {ℓ} :
    {A : Type ℓ} {s : Schedule} (id : ChannelId) (p : Pointer) (l : Live s.channel id p)
    (closed a : A) (body : Schedule → Pointer → Run (A × Schedule)) (s' : Schedule)
    → body (record s { channel = during l }) p ≡ ok (a, s')
    → s'.channel ≡ during l
    → with_channel s id closed body ≡ ok (a, record s' { channel = s.channel })
with_channel-Open {s} id p l closed a body s' run e =
    let some_p : (p == 0) ≡ false = ground (arith, l.non_null) in
    rw (grab-Live l, some_p, run, release_channel-during l s' e)
