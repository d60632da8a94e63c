-- ===== src/Kqueue/Tests.antt =====
-- The poller of src/async/socket_kqueue.h on a small kernel.
use grt.Base.{
  ℕ, zero, suc, ◌+◌, ◌≤◌, ◌≡◌, refl, ◌∙◌, Bool, true, false, Option, none, some, List, [], ◌∷◌,
  arith, length, get_elem?, ◌==◌, if◌then◌else◌, ap, subst,
}
use grt.Socket.{Fd, Outcome, done, failed}
use grt.Kqueue.{Kevent, Kernel, sp_wait}
use grt.Kqueue.Notes.{
  Note, Notes, put_note, KeventLaw, add, del, writing, Call, watch_all, call_all, ReadsOnly,
  call_all-ReadsOnly,
}
use grt.Kqueue.Report.{CollectLaw, Waits, sp_wait-Both}

-- EV_ADD is 1, EV_DELETE 2, EV_ENABLE 4 and EV_DISABLE 8.
abbrev switched : Notes → Kevent → Option Note → Outcome (Unit {0}) × Notes
switched w ke none = (failed 2, w)
switched w ke (some old) =
    (done tt, put_note w ke.ident ke.filter (some (record old { enabled = ke.flags == 4 })))

abbrev changed : Notes → Kevent → Outcome (Unit {0}) × Notes
changed w ke =
    if ke.flags == 1
    then (
      done tt,
      put_note w ke.ident ke.filter (some (record { enabled = true; udata = ke.udata })),
    )
    else if ke.flags == 2
    then (done tt, put_note w ke.ident ke.filter none)
    else switched w ke (w ke.ident ke.filter)

abbrev for_input : ℕ
for_input = 4294967295

-- The socket 5 can be read from whenever it is watched.
abbrev ready_if : Bool → ℕ → List Kevent
ready_if true ud = record { ident = 5; filter = for_input; flags = 1; udata = ud } ∷ []
ready_if false ud = []

abbrev ready : Option Note → ℕ → List Kevent
ready (some n) (suc max) = ready_if n.enabled n.udata
ready _ _ = []

abbrev small : Kernel Notes
small = record {
  evfilt_read = for_input;
  evfilt_write = 4294967294;
  ev_add = 1;
  ev_delete = 2;
  ev_enable = 4;
  ev_disable = 8;
  ignore_sigpipe = λ w. w;
  kqueue = λ w. (done 3, λ fd filter. none);
  change = λ w kfd ke. changed w ke;
  collect = λ w kfd max time. (done (ready (w 5 for_input) max), w);
  close = λ w kfd fd filter. none;
  get_flags = λ w fd. (done 2, w);
  set_flags = λ w fd flags. (done tt, w);
  add_nonblock = λ flags. flags + 4;
}

abbrev itself : Notes → Notes
itself w = w

small-KeventLaw : KeventLaw small 3 itself
small-KeventLaw = record {
  read_number = refl;
  write_number = refl;
  adds = λ w sock filter ud j g. refl;
  deletes = λ w sock filter ud j g. refl;
  enable_none = λ w sock filter ud enable h j g. unwatched w sock filter ud enable h j g;
}
  where
    unwatched :
        (w : Notes) (sock : Fd) (filter ud : ℕ) (enable : Bool)
        → w sock filter ≡ none
        → (j : Fd) (g : ℕ)
        → (changed w (record {
          ident = sock;
          filter = filter;
          flags = if enable then 4 else 8;
          udata = ud;
        })).1
            j g
          ≡ w j g
    unwatched w sock filter ud true h j g =
        ap
          (λ x.
            (switched w (record { ident = sock; filter = filter; flags = 4; udata = ud }) x).1 j g)
          h
    unwatched w sock filter ud false h j g =
        ap
          (λ x.
            (switched w (record { ident = sock; filter = filter; flags = 8; udata = ud }) x).1 j g)
          h

some_inj : {x y : Kevent} → some x ≡ some y → x ≡ y
some_inj e = ground arith

small-CollectLaw : CollectLaw small 3 itself
small-CollectLaw = record {
  few = λ w u max time evs h. few (w 5 for_input) max evs (ap (λ r. events_of r.0) h);
  listed = λ w u max time evs i ev h at.
      listed w (w 5 for_input) refl max i ev (ap (λ r. get_elem? (events_of r.0) i) h ∙ at);
}
  where
    events_of : Outcome (List Kevent) → List Kevent
    events_of (done evs) = evs
    events_of (failed e) = []

    few : (x : Option Note) (max : ℕ) (evs : List Kevent) → ready x max ≡ evs → length evs ≤ max
    few none max evs h = omega (arith, ap length h)
    few (some n) zero evs h = omega (arith, ap length h)
    few (some n) (suc max) evs h = one n.enabled n.udata h
      where
        one : (b : Bool) (ud : ℕ) → ready_if b ud ≡ evs → length evs ≤ suc max
        one true ud h' = omega (arith, ap length h')
        one false ud h' = omega (arith, ap length h')

    listed :
        (w : Notes) (x : Option Note)
        → w 5 for_input ≡ x
        → (max i : ℕ) (ev : Kevent) → get_elem? (ready x max) i ≡ some ev
        → w ev.ident ev.filter ≡ some (record { enabled = true; udata = ev.udata })
    listed w none e max i ev at = absurd (ground arith)
    listed w (some n) e zero i ev at = absurd (ground arith)
    listed w (some n) e (suc max) i ev at = one n.enabled n.udata e i at
      where
        one :
            (b : Bool) (ud : ℕ)
            → w 5 for_input ≡ some (record { enabled = b; udata = ud })
            → (i : ℕ) → get_elem? (ready_if b ud) i ≡ some ev
            → w ev.ident ev.filter ≡ some (record { enabled = true; udata = ev.udata })
        one true ud e' zero at' =
            subst
              (λ (x : Kevent).
                w x.ident x.filter ≡ some (record { enabled = true; udata = x.udata }))
              (some_inj at') e'
        one true ud e' (suc i) at' = absurd (ground arith)
        one false ud e' i at' = absurd (ground arith)

abbrev nothing : Notes
nothing fd filter = none

-- Socket 5 is to be polled for output no more, socket 6 is gone.
abbrev calls : List Call
calls = add 5 50 ∷ add 6 60 ∷ writing 5 50 false ∷ del 6 ∷ []

call_all-ReadsOnly_example :
    ReadsOnly small itself (call_all small 3 nothing calls) (watch_all (λ fd. none) calls)
call_all-ReadsOnly_example =
    call_all-ReadsOnly small 3 itself small-KeventLaw nothing (λ fd. none) calls none_watched
  where
    none_watched : ReadsOnly small itself nothing (λ fd. none)
    none_watched = record { noted = λ j g. ground arith }

sp_wait-Both_example :
    Waits
      (watch_all (λ fd. none) calls)
      8
      (sp_wait small (call_all small 3 nothing calls) 3 8 100).0
sp_wait-Both_example =
    sp_wait-Both small 3 itself small-KeventLaw small-CollectLaw nothing calls 8 100 (λ j g. refl)
