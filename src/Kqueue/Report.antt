-- ===== src/Kqueue/Report.antt =====
-- What sp_wait of src/async/socket_kqueue.h reports after any calls of the poller.
use grt.Base.{
  ℕ, zero, suc, ◌-◌, ◌^◌, ◌≤◌, ◌≡◌, refl, sym, ◌∙◌, true, false, Option, none, some, List, [], ◌∷◌,
  arith, length, get_elem?, ◌==◌, not, bit_and, Bool-cases, inl, inr, ap, subst,
}
use grt.Socket.{Fd, Outcome, done, failed}
use grt.Epoll.{Event}
use grt.Kqueue.{Kevent, Kernel, Timespec, timespec_of, event_of, copy_events, sp_wait}
use grt.Kqueue.Notes.{
  Note, Notes, KeventLaw, Call, Watched, watch_all, note_of, call_all, ReadsOnly,
  call_all-ReadsOnly,
}

-- What the manual says of a kevent that waits: at most `max` events, each with the data of an event
-- that is watched and enabled.
pub record CollectLaw {W : Type 0} (k : Kernel W) (kfd : Fd) (notes : W → Notes) : Type 0 where
  pub few :
      (w u : W) (max : ℕ) (time : Timespec) (evs : List Kevent)
      → k.collect w kfd max time ≡ (done evs, u)
      → length evs ≤ max
  pub listed :
      (w u : W) (max : ℕ) (time : Timespec) (evs : List Kevent) (i : ℕ) (ev : Kevent)
      → k.collect w kfd max time ≡ (done evs, u)
      → get_elem? evs i ≡ some ev
      → notes w ev.ident ev.filter ≡ some (record { enabled = true; udata = ev.udata })

-- A socket with its data, ready for both.
abbrev pub ReadyForBoth : Watched → Event → Type 0
ReadyForBoth s e = (sock : Fd) × (s sock ≡ some e.s) × (e.read ≡ true) × (e.write ≡ true)

-- A wait fails, or gives at most so many events, all of this kind.
abbrev pub Waits : Watched → ℕ → Outcome (List Event) → Type 0
Waits s max (failed e) = Unit {0}
Waits s max (done events) =
    (length events ≤ max) × ((i : ℕ) (e : Event) → get_elem? events i ≡ some e → ReadyForBoth s e)

module _ {W : Type 0} (k : Kernel W) (kfd : Fd) (notes : W → Notes) (law : KeventLaw k kfd notes)
    (waits : CollectLaw k kfd notes) where
  copied :
      (evs : List Kevent) (i : ℕ) (e : Event)
      → get_elem? (copy_events k evs) i ≡ some e
      → (ev : Kevent) × (get_elem? evs i ≡ some ev) × (e ≡ event_of k ev)
  unfolding copy_events
  copied [] i e at = absurd (ground arith)
  copied (ev ∷ evs) zero e at = (ev, refl, ground arith)
  copied (ev ∷ evs) (suc i) e at = copied evs i e at

  length-copy_events : (evs : List Kevent) → length (copy_events k evs) ≡ length evs
  unfolding copy_events
  length-copy_events [] = refl
  length-copy_events (ev ∷ evs) = ap suc (length-copy_events evs)

  only_read :
      k.evfilt_read ≡ 2 ^ 32 - 1
      → k.evfilt_write ≡ 2 ^ 32 - 2
      → (f : ℕ) → k.evfilt_read ≡ f
      → ((bit_and f k.evfilt_read == 0) ≡ false) × ((bit_and f k.evfilt_write == 0) ≡ false)
  only_read r o f e = (rw (sym e, r) refl, rw (sym e, r, o) refl)

  event_of-Both :
      (w : W) (s : Watched) (ev : Kevent)
      → ReadsOnly k notes w s
      → notes w ev.ident ev.filter ≡ some (record { enabled = true; udata = ev.udata })
      → ReadyForBoth s (event_of k ev)
  unfolding event_of
  event_of-Both w s ev v at = elim (Bool-cases (k.evfilt_read == ev.filter)) [
    | inr e ↦ absurd (not_none (sym at ∙ v.noted ev.ident ev.filter ∙ rw e refl))
    | inl e ↦
        let (read, write) = only_read law.read_number law.write_number ev.filter (ground arith) in
        (
          ev.ident,
          data_of (s ev.ident) (sym at ∙ v.noted ev.ident ev.filter ∙ rw e refl),
          ap not read,
          ap not write,
        )
  ]
    where
      not_none : {n : Note} → Path (Option Note) (some n) none → ⊥
      not_none e = ground arith

      data_of :
          (x : Option ℕ)
          → some (record { enabled = true; udata = ev.udata }) ≡ note_of x
          → x ≡ some ev.udata
      data_of none e = absurd (not_none e)
      data_of (some ud) e = ground arith

  -- When kevent is as the manual says, with the filters -1 for input and -2 for output and room in
  -- the kernel, any calls of sp_add, sp_del and sp_write on a new kqueue and then a wait give an
  -- error, or at most as many events as asked for, each with the data of a socket that was added
  -- and not deleted since; and each is marked ready both to read and to write, whatever filter the
  -- kernel reported and whatever sp_write asked for.
  pub sp_wait-Both :
      (w : W) (cs : List Call) (max timeout : ℕ)
      → ((j : Fd) (g : ℕ) → notes w j g ≡ none)
      → Waits (watch_all (λ j. none) cs) max (sp_wait k (call_all k kfd w cs) kfd max timeout).0
  unfolding sp_wait
  sp_wait-Both w cs max timeout fresh = waited _ _ refl
    where
      after : W
      after = call_all k kfd w cs

      watched : Watched
      watched = watch_all (λ j. none) cs

      nothing : ReadsOnly k notes w (λ j. none)
      nothing = record {
        noted = λ j g. elim (Bool-cases (k.evfilt_read == g)) [
          | inl e ↦ rw e (fresh j g)
          | inr e ↦ rw e (fresh j g)
        ];
      }

      waited :
          (r : Outcome (List Kevent)) (u : W)
          → k.collect after kfd max (timespec_of timeout) ≡ (r, u)
          → Waits watched max (elim r [ done evs ↦ done (copy_events k evs) | failed e ↦ failed e ])
      waited (failed e) u run = tt
      waited (done evs) u run = (
        omega (arith, waits.few after u max (timespec_of timeout) evs run, length-copy_events evs),
        λ i e at.
            let (ev, at', is) = copied evs i e at in
            subst (ReadyForBoth watched) (sym is) (
              event_of-Both after watched ev
                (call_all-ReadsOnly k kfd notes law w (λ j. none) cs nothing)
                (waits.listed after u max (timespec_of timeout) evs i ev run at')),
      )
