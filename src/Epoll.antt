-- ===== src/Epoll.antt =====
-- src/async/epoll.c over src/async/socket_epoll.h. The kernel is a parameter: a type of its states,
-- the calls that the code makes and the two flags of <sys/epoll.h> that it uses. A call that returns
-- -1 gives `failed`. Descriptors are not negative, and the numbers that Lua passes fit an int.

pub mod Watch
pub mod Rows
pub mod Fill
pub mod Report
mod Tests
use grt.Base.{
  ℕ, zero, suc, ◌+◌, Bool, true, false, ◌≡◌, Option, none, some, List, [], ◌∷◌, ◌++◌, ◌==◌, not,
  if◌then◌else◌, length, bit_and, bit_or,
}
use grt.Base.Run.{Run, ok, aborted, ◌>>=◌, store}
use grt.Socket.{Fd, Outcome, done, failed}

-- `data.ptr` holds the number that was cast to a pointer.
pub record EpollEvent : Type 0 where
  pub events : ℕ
  pub data_ptr : ℕ

pub record Event : Type 0 where
  pub s : ℕ
  pub read : Bool
  pub write : Bool

pub record Kernel (W : Type 0) : Type 0 where
  pub epollin : ℕ
  pub epollout : ℕ
  pub ignore_sigpipe : W → W
  pub epoll_create : W → Outcome Fd × W
  pub epoll_ctl_add : W → Fd → Fd → EpollEvent → Outcome (Unit {0}) × W
  pub epoll_ctl_mod : W → Fd → Fd → EpollEvent → Outcome (Unit {0}) × W
  pub epoll_ctl_del : W → Fd → Fd → Outcome (Unit {0}) × W
  -- at most so many events, and the time to wait
  pub epoll_wait : W → Fd → ℕ → ℕ → Outcome (List EpollEvent) × W
  pub close : W → Fd → W
  pub get_flags : W → Fd → Outcome ℕ × W
  pub set_flags : W → Fd → ℕ → Outcome (Unit {0}) × W
  pub add_nonblock : ℕ → ℕ

-- What a field or an entry of a Lua table holds: a table stands as its address.
pub data Slot : Type 0 where
  nil : Slot
  other : ℕ → Slot
  table : ℕ → Slot

-- The fields `fd` and `mask` of a table.
pub record Row : Type 0 where
  pub fd : Slot
  pub mask : Slot

-- The entries of the table that Lua passed, and the tables in reach of it by their addresses.
pub record Tables : Type 0 where
  pub entry : ℕ → Slot
  pub rows : List Row

abbrev pub ctl_add : ℕ
ctl_add = 1

abbrev pub ctl_del : ℕ
ctl_del = 2

abbrev pub ctl_write : ℕ
ctl_write = 3

abbrev pub mask_read : ℕ
mask_read = 4

abbrev pub mask_write : ℕ
mask_write = 8

abbrev pub max_events : ℕ
max_events = 64

module _ {W : Type 0} (k : Kernel W) where
  abbrev pub sp_create : W → Outcome Fd × W
  sp_create w = k.epoll_create (k.ignore_sigpipe w)

  abbrev pub sp_release : W → Fd → W
  sp_release w efd = k.close w efd

  unfoldable pub sp_nonblocking : W → Fd → W
  sp_nonblocking w fd =
      let (got, u) = k.get_flags w fd in
      elim got [ failed e ↦ u | done flags ↦ (k.set_flags u fd (k.add_nonblock flags)).1 ]

  -- The value is 1 when the kernel refuses.
  unfoldable pub sp_add : W → Fd → Fd → ℕ → ℕ × W
  sp_add w efd sock ud =
      let ev : EpollEvent = record { events = k.epollin; data_ptr = ud } in
      let (r, u) = k.epoll_ctl_add w efd sock ev in (elim r [ done x ↦ 0 | failed e ↦ 1 ], u)

  unfoldable pub sp_del : W → Fd → Fd → W
  sp_del w efd sock = (k.epoll_ctl_del w efd sock).1

  -- the flags of a socket that is polled for input, and for output too if `enable` is set
  abbrev pub interest_flags : Bool → ℕ
  interest_flags enable = bit_or k.epollin (if enable then k.epollout else 0)

  unfoldable pub sp_write : W → Fd → Fd → ℕ → Bool → W
  sp_write w efd sock ud enable =
      let ev : EpollEvent = record { events = interest_flags enable; data_ptr = ud } in
      (k.epoll_ctl_mod w efd sock ev).1

  abbrev pub event_of : EpollEvent → Event
  event_of ev = record {
    s = ev.data_ptr;
    read = not (bit_and ev.events k.epollin == 0);
    write = not (bit_and ev.events k.epollout == 0);
  }

  -- The loop of sp_wait over the events of the kernel.
  unfoldable pub copy_events : List EpollEvent → List Event
  copy_events [] = []
  copy_events (ev ∷ evs) = event_of ev ∷ copy_events evs

  unfoldable pub sp_wait : W → Fd → ℕ → ℕ → Outcome (List Event) × W
  unfolding copy_events
  sp_wait w efd max timeout =
      let (r, u) = k.epoll_wait w efd max timeout in
      (elim r [ done evs ↦ done (copy_events evs) | failed e ↦ failed e ], u)

  unfoldable pub lepoll_create : W → Run (Fd × W)
  lepoll_create w =
      let (r, u) = sp_create w in elim r [ done efd ↦ ok (efd, u) | failed e ↦ aborted ]

  -- Lua does not see what sp_add returns.
  unfoldable pub lepoll_ctl : W → Fd → ℕ → Fd → Bool → W
  unfolding sp_add sp_del sp_write
  lepoll_ctl w epfd op fd enable =
      if op == ctl_add
      then (sp_add w epfd fd fd).1
      else if op == ctl_del
      then sp_del w epfd fd
      else if op == ctl_write
      then sp_write w epfd fd fd enable
      else w

abbrev pub mask_of : Event → ℕ
mask_of e =
    let with_read = if e.read then bit_or 0 mask_read else 0 in
    if e.write then bit_or with_read mask_write else with_read

abbrev pub row_of : Event → Row
row_of e = record { fd = other e.s; mask = other (mask_of e) }

abbrev pub put_entry : (ℕ → Slot) → ℕ → Slot → ℕ → Slot
put_entry entry i x j = if j == i then x else entry j

-- The address of the table to fill, and the tables with it: a new one where the entry is no table.
abbrev pub row_at : Tables → Slot → ℕ × List Row
row_at t nil = (length t.rows, t.rows ++ record { fd = nil; mask = nil } ∷ [])
row_at t (other n) = (length t.rows, t.rows ++ record { fd = nil; mask = nil } ∷ [])
row_at t (table a) = (a, t.rows)

-- The loop of lepoll_wait from `i` on.
unfoldable pub fill_loop : List Event → ℕ → Tables → Run Tables
fill_loop [] i t = ok t
fill_loop (e ∷ es) i t =
    let (a, rows) = row_at t (t.entry (i + 1)) in
    store rows a (row_of e) >>= λ filled.
    fill_loop es (i + 1) (record { entry = put_entry t.entry (i + 1) (table a); rows = filled })

-- Lua passes the descriptor and the table; `none` stands for the number -1.
unfoldable pub lepoll_wait : {W : Type 0} → Kernel W → W → Fd → Tables → Run (Option ℕ × Tables × W)
unfolding sp_wait fill_loop
lepoll_wait k w efd t =
    let (r, u) = sp_wait k w efd max_events 200 in
    elim r [
      | failed e ↦ ok (none, t, u)
      | done events ↦ fill_loop events 0 t >>= λ t'. ok (some (length events), t', u)
    ]
