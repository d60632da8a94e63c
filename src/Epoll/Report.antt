-- ===== src/Epoll/Report.antt =====
-- epoll.ctl and then epoll.wait of src/async/epoll.c: what Lua is told about.
use grt.Base.{
  ℕ, zero, suc, ◌+◌, ◌≤◌, ◌<◌, ◌≡◌, refl, ◌⊎◌, inl, inr, Bool, true, false, Option, none, some,
  List, [], ◌∷◌, arith, if◌then◌else◌, bit_and, length, get_elem?, ap, sym, ◌∙◌,
}
use grt.Base.Run.{ok}
use grt.Socket.{Fd, Outcome, done, failed}
use grt.Epoll.{EpollEvent, Kernel, other, table, Tables, lepoll_wait}
use grt.Epoll.Watch.{
  Interest, CtlLaw, Watch, Ctl, watch_all, call_all, asked, polled, Views, call_all-Views,
}
use grt.Epoll.Rows.{Apart}
use grt.Epoll.Fill.{flag, Reports, lepoll_wait-Reports}

-- What the manual says of epoll_wait: at most `max` events, each with the data of a socket in the
-- interest list, and with EPOLLOUT only if that was asked for; and the two flags have no bit in
-- common.
pub record WaitLaw {W : Type 0} (k : Kernel W) (efd : Fd) (interest : W → Interest) : Type 0 where
  pub few :
      (w u : W) (max time : ℕ) (evs : List EpollEvent)
      → k.epoll_wait w efd max time ≡ (done evs, u)
      → length evs ≤ max
  pub listed :
      (w u : W) (max time : ℕ) (evs : List EpollEvent) (j : ℕ) (r : EpollEvent)
      → k.epoll_wait w efd max time ≡ (done evs, u)
      → get_elem? evs j ≡ some r
      → (sock : Fd) × (ev : EpollEvent) × (interest w sock ≡ some ev)
        × (r.data_ptr ≡ ev.data_ptr)
        × (flag r k.epollout ≡ true → flag ev k.epollout ≡ true)
  pub disjoint : bit_and k.epollin k.epollout ≡ 0

-- Entry `i` tells of a socket that is watched, with the mask for output only if that was asked for.
abbrev pub Tells : Watch → Tables → ℕ → Type 0
Tells s t i =
    (a : ℕ) × (fd : Fd) × (m : ℕ) × (b : Bool) × (t.entry i ≡ table a)
    × (get_elem? t.rows a ≡ some (record { fd = other fd; mask = other m }))
    × (s fd ≡ some b)
    × (8 ≤ m → b ≡ true)

some_event :
    (evs : List EpollEvent) (j : ℕ) → j < length evs → (r : EpollEvent) × (get_elem? evs j ≡ some r)
some_event [] j lt = absurd (omega arith)
some_event (ev ∷ evs) zero lt = (ev, refl)
some_event (ev ∷ evs) (suc j) lt = some_event evs j (omega arith)

module _ {W : Type 0} (k : Kernel W) (efd : Fd) (interest : W → Interest) where
  asked-some :
      (s : Watch) (fd : Fd) (ev : EpollEvent)
      → asked k efd fd (s fd) ≡ some ev
      → (b : Bool) × (s fd ≡ some b) × (ev.data_ptr ≡ fd) × (ev.events ≡ polled k efd b)
  asked-some s fd ev h = on (s fd) refl
    where
      on :
          (x : Option Bool)
          → s fd ≡ x
          → (b : Bool) × (s fd ≡ some b) × (ev.data_ptr ≡ fd) × (ev.events ≡ polled k efd b)
      on none at = absurd (ground (arith, sym h ∙ ap (asked k efd fd) at))
      on (some b) at =
          let same : ev ≡ record { events = polled k efd b; data_ptr = fd } =
            ground (arith, sym h ∙ ap (asked k efd fd) at) in
          (b, at, ap (λ e. e.data_ptr) same, ap (λ e. e.events) same)

  -- A socket that is not polled for output does not ask for EPOLLOUT.
  asks-out :
      (b : Bool) (ev : EpollEvent)
      → bit_and k.epollin k.epollout ≡ 0
      → ev.events ≡ polled k efd b
      → flag ev k.epollout ≡ true
      → b ≡ true
  asks-out true ev apart same h = refl
  asks-out false ev apart same h =
      let nothing : bit_and ev.events k.epollout ≡ 0 =
        ap (λ x. bit_and x k.epollout) same ∙ apart in
      absurd (ground (arith, nothing, h))

  Reports-Tells :
      (w u : W) (s : Watch) (t : Tables) (evs : List EpollEvent) (j : ℕ) (r : EpollEvent)
      → WaitLaw k efd interest
      → Views k efd interest w s
      → k.epoll_wait w efd 64 200 ≡ (done evs, u)
      → get_elem? evs j ≡ some r
      → Reports k t (suc j) r
      → Tells s t (suc j)
  Reports-Tells w u s t evs j r law v waited at (a, entry, found) =
      let (sock, ev, here, same, output) = law.listed w u 64 200 evs j r waited at in
      let (b, watched, kept, flags) = asked-some s sock ev (sym (v sock) ∙ here) in
      let fd_is : r.data_ptr ≡ sock = same ∙ kept in
      (
        a,
        r.data_ptr,
        _,
        b,
        entry,
        found,
        ap s fd_is ∙ watched,
        λ le.
            asks-out b ev law.disjoint flags
              (output (high (flag r k.epollin) (flag r k.epollout) le)),
      )
    where
      high : (i o : Bool) → 8 ≤ (if i then 4 else 0) + (if o then 8 else 0) → o ≡ true
      high i true le = refl
      high true false le = absurd (omega arith)
      high false false le = absurd (omega arith)

  -- When epoll_ctl and epoll_wait are as the manual says and the kernel has room, any calls of
  -- epoll.ctl on a new poller and then an epoll.wait with a table in whose entries no table stands
  -- twice end well: at an error the table is as it was; else there are at most 64 entries from 1
  -- on, each a table that tells of a socket that the calls left watched, with the mask for output
  -- only if the last CTL_WRITE asked for it.
  pub lepoll_wait-Tells :
      (w : W) (cs : List Ctl) (t : Tables)
      → CtlLaw k efd interest
      → WaitLaw k efd interest
      → ((fd : Fd) → interest w fd ≡ none)
      → Apart t
      → (n : Option ℕ) × (t' : Tables) × (u : W) × (lepoll_wait k (call_all k efd w cs) efd t
          ≡ ok (n, t', u))
        × (((n ≡ none) × (t' ≡ t))
            ⊎ ((m : ℕ) × (n ≡ some m)
                × (m ≤ 64)
                × ((j : ℕ) → j < m → Tells (watch_all (λ fd. none) cs) t' (suc j))))
  unfolding lepoll_wait
  lepoll_wait-Tells w cs t ctl law start p = on _ _ refl
    where
      now : W
      now = call_all k efd w cs

      on :
          (r : Outcome (List EpollEvent)) (u : W)
          → k.epoll_wait now efd 64 200 ≡ (r, u)
          → (n : Option ℕ) × (t' : Tables) × (u : W) × (lepoll_wait k now efd t ≡ ok (n, t', u))
            × (((n ≡ none) × (t' ≡ t))
                ⊎ ((m : ℕ) × (n ≡ some m)
                    × (m ≤ 64)
                    × ((j : ℕ) → j < m → Tells (watch_all (λ fd. none) cs) t' (suc j))))
      on (failed e) u waited = (none, t, u, rw (waited, waited) refl, inl (refl, refl))
      on (done evs) u waited =
          let (t', run, apart, told, behind) = lepoll_wait-Reports k now u efd t evs p waited in
          let v = call_all-Views k efd interest ctl w (λ fd. none) cs start in
          (
            some (length evs),
            t',
            u,
            run,
            inr (
              length evs,
              refl,
              law.few now u 64 200 evs waited,
              λ j lt.
                  let (r, at) = some_event evs j lt in
                  Reports-Tells now u (watch_all (λ fd. none) cs) t' evs j r law v waited at
                    (told j r at),
            ),
          )
