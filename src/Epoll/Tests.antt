-- ===== src/Epoll/Tests.antt =====
-- The functions of src/async/epoll.c on a small kernel, and the theorems there.
use grt.Base.{
  ℕ, zero, suc, ◌+◌, ◌≤◌, ◌<◌, ◌≡◌, refl, ◌⊎◌, true, Option, none, some, List, [], ◌∷◌, arith, ◌==◌,
  if◌then◌else◌, length, get_elem?, ap, ◌∙◌,
}
use grt.Base.Run.{ok}
use grt.Socket.{Fd, Outcome, done, failed}
use grt.Epoll.{EpollEvent, Kernel, nil, other, table, Tables, lepoll_create, lepoll_wait}
use grt.Epoll.Watch.{
  Interest, put, CtlLaw, Ctl, add, del, writing, watch_all, call_all, Views, call_all-Views,
}
use grt.Epoll.Rows.{Apart}
use grt.Epoll.Fill.{Reports, lepoll_wait-Reports}
use grt.Epoll.Report.{WaitLaw, Tells, lepoll_wait-Tells}

-- The socket 5 is ready whenever it is watched.
abbrev ready : Option EpollEvent → ℕ → List EpollEvent
ready none max = []
ready (some ev) zero = []
ready (some ev) (suc max) = ev ∷ []

abbrev added : Interest → Fd → EpollEvent → Option EpollEvent → Outcome (Unit {0}) × Interest
added w sock ev none = (done tt, put w sock (some ev))
added w sock ev (some old) = (failed 17, w)

abbrev changed : Interest → Fd → EpollEvent → Option EpollEvent → Outcome (Unit {0}) × Interest
changed w sock ev none = (failed 2, w)
changed w sock ev (some old) = (done tt, put w sock (some ev))

abbrev small : Kernel Interest
small = record {
  epollin = 1;
  epollout = 4;
  ignore_sigpipe = λ w. w;
  epoll_create = λ w. (done 3, λ fd. none);
  epoll_ctl_add = λ w efd sock ev. added w sock ev (w sock);
  epoll_ctl_mod = λ w efd sock ev. changed w sock ev (w sock);
  epoll_ctl_del = λ w efd sock. (done tt, put w sock none);
  epoll_wait = λ w efd max time. (done (ready (w 5) max), w);
  close = λ w efd fd. none;
  get_flags = λ w fd. (done 2, w);
  set_flags = λ w fd flags. (done tt, w);
  add_nonblock = λ flags. flags + 2048;
}

abbrev itself : Interest → Interest
itself w = w

small-CtlLaw : CtlLaw small 3 itself
small-CtlLaw = record {
  adds = λ w sock ev h j. ap (λ x. (added w sock ev x).1 j) h;
  add_again = λ w sock ev old h j. ap (λ x. (added w sock ev x).1 j) h;
  changes = λ w sock ev old h j. ap (λ x. (changed w sock ev x).1 j) h;
  change_none = λ w sock ev h j. ap (λ x. (changed w sock ev x).1 j) h;
  deletes = λ w sock j. refl;
}

small-WaitLaw : WaitLaw small 3 itself
small-WaitLaw = record {
  few = λ w u max time evs h. few (w 5) max evs (ap (λ r. events_of r.0) h);
  listed = λ w u max time evs j r h at.
      let e = listed (w 5) max j r (ap (λ x. get_elem? (events_of x.0) j) h ∙ at) in
      (5, r, e, refl, λ out. out);
  disjoint = refl;
}
  where
    events_of : Outcome (List EpollEvent) → List EpollEvent
    events_of (done evs) = evs
    events_of (failed e) = []

    few :
        (x : Option EpollEvent) (max : ℕ) (evs : List EpollEvent)
        → ready x max ≡ evs
        → length evs ≤ max
    few none max evs h = omega (arith, ap length h)
    few (some ev) zero evs h = omega (arith, ap length h)
    few (some ev) (suc max) evs h = omega (arith, ap length h)

    listed :
        (x : Option EpollEvent) (max : ℕ) (j : ℕ) (r : EpollEvent)
        → get_elem? (ready x max) j ≡ some r
        → x ≡ some r
    listed none max j r at = absurd (ground arith)
    listed (some ev) zero j r at = absurd (ground arith)
    listed (some ev) (suc max) zero r at = at
    listed (some ev) (suc max) (suc j) r at = absurd (ground arith)

abbrev two_rows : Tables
two_rows = record {
  entry = λ j. if j == 1 then table 0 else if j == 2 then table 1 else nil;
  rows = record { fd = nil; mask = nil } ∷ record { fd = other 9; mask = other 4 } ∷ [];
}

two_rows-Apart : Apart two_rows
two_rows-Apart = record { own = λ i j a hi hj. ground arith; there = λ i a h. ground arith }

abbrev nothing : Interest
nothing fd = none

-- Socket 5 is polled for output as well, socket 6 no more.
abbrev calls : List Ctl
calls = add 5 ∷ add 6 ∷ writing 5 true ∷ del 6 ∷ []

creates : lepoll_create small nothing ≡ ok (3, λ fd. none)
unfolding lepoll_create
creates = refl

abbrev watching : Interest
watching = put nothing 5 (some (record { events = 5; data_ptr = 5 }))

lepoll_wait-Reports_example :
    (t' : Tables) × (lepoll_wait small watching 3 two_rows ≡ ok (some 1, t', watching))
    × Apart t'
    × ((j : ℕ) (ev : EpollEvent)
        → get_elem? (record { events = 5; data_ptr = 5 } ∷ []) j ≡ some ev
        → Reports small t' (suc j) ev)
    × ((j : ℕ) → 1 < j → t'.entry j ≡ two_rows.entry j)
lepoll_wait-Reports_example =
    lepoll_wait-Reports small watching watching 3 two_rows
      (record { events = 5; data_ptr = 5 } ∷ []) two_rows-Apart refl

call_all-Views_example :
    Views small 3 itself (call_all small 3 nothing calls) (watch_all (λ fd. none) calls)
call_all-Views_example =
    call_all-Views small 3 itself small-CtlLaw nothing (λ fd. none) calls (λ j. refl)

lepoll_wait-Tells_example :
    (n : Option ℕ) × (t' : Tables) × (u : Interest) × (lepoll_wait small
        (call_all small 3 nothing calls)
        3
        two_rows
      ≡ ok (n, t', u))
    × (((n ≡ none) × (t' ≡ two_rows))
        ⊎ ((m : ℕ) × (n ≡ some m)
            × (m ≤ 64)
            × ((j : ℕ) → j < m → Tells (watch_all (λ fd. none) calls) t' (suc j))))
lepoll_wait-Tells_example =
    lepoll_wait-Tells small 3 itself nothing calls two_rows small-CtlLaw small-WaitLaw (λ fd. refl)
      two_rows-Apart
