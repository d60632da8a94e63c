-- ===== src/Kqueue.antt =====
-- src/async/socket_kqueue.h: the poller of BSD and macOS. The kernel is a parameter: a type of its
-- states, the calls that the code makes and the numbers of <sys/event.h> that it uses. A call that
-- returns -1 gives `failed`. Descriptors and times to wait are not negative.

pub mod Notes
pub mod Report
mod Tests
use grt.Base.{ℕ, ◌/◌, ◌%◌, ◌*◌, Bool, List, [], ◌∷◌, ◌==◌, not, if◌then◌else◌, bit_and, bit_or}
use grt.Socket.{Fd, Outcome, done, failed}
use grt.Epoll.{Event}

-- A `struct kevent`. `filter` is the negative number of a filter, as an unsigned int; `fflags` and
-- `data` are always 0. `udata` holds the number that was cast to a pointer.
pub record Kevent : Type 0 where
  pub ident : Fd
  pub filter : ℕ
  pub flags : ℕ
  pub udata : ℕ

pub record Timespec : Type 0 where
  pub tv_sec : ℕ
  pub tv_nsec : ℕ

pub record Kernel (W : Type 0) : Type 0 where
  pub evfilt_read : ℕ
  pub evfilt_write : ℕ
  pub ev_add : ℕ
  pub ev_delete : ℕ
  pub ev_enable : ℕ
  pub ev_disable : ℕ
  pub ignore_sigpipe : W → W
  pub kqueue : W → Outcome Fd × W
  -- kevent with one change and no room for events
  pub change : W → Fd → Kevent → Outcome (Unit {0}) × W
  -- kevent with no change, for so many events at most
  pub collect : W → Fd → ℕ → Timespec → Outcome (List Kevent) × W
  pub close : W → Fd → W
  pub get_flags : W → Fd → Outcome ℕ × W
  pub set_flags : W → Fd → ℕ → Outcome (Unit {0}) × W
  pub add_nonblock : ℕ → ℕ

-- `timeout` is in milliseconds.
abbrev pub timespec_of : ℕ → Timespec
timespec_of timeout = record { tv_sec = timeout / 1000; tv_nsec = timeout % 1000 * 1000000 }

module _ {W : Type 0} (k : Kernel W) where
  abbrev pub sp_create : W → Outcome Fd × W
  sp_create w = k.kqueue (k.ignore_sigpipe w)

  abbrev pub sp_release : W → Fd → W
  sp_release w kfd = k.close w kfd

  -- The value is 1 when the kernel refuses.
  unfoldable pub sp_add : W → Fd → Fd → ℕ → ℕ × W
  sp_add w kfd sock ud =
      let ke : Kevent = record {
        ident = sock;
        filter = k.evfilt_read;
        flags = k.ev_add;
        udata = ud;
      } in
      let (r, u) = k.change w kfd ke in (elim r [ done x ↦ 0 | failed e ↦ 1 ], u)

  unfoldable pub sp_del : W → Fd → Fd → W
  sp_del w kfd sock =
      let both = bit_or k.evfilt_read k.evfilt_write in
      (k.change w kfd (record { ident = sock; filter = both; flags = k.ev_delete; udata = 0 })).1

  unfoldable pub sp_write : W → Fd → Fd → ℕ → Bool → W
  sp_write w kfd sock ud enable =
      let flags = if enable then k.ev_enable else k.ev_disable in
      (k.change w kfd
        (record { ident = sock; filter = k.evfilt_write; flags = flags; udata = ud })).1

  unfoldable pub event_of : Kevent → Event
  event_of ev = record {
    s = ev.udata;
    read = not (bit_and ev.filter k.evfilt_read == 0);
    write = not (bit_and ev.filter k.evfilt_write == 0);
  }

  -- The loop of sp_wait over the events of the kernel.
  unfoldable pub copy_events : List Kevent → List Event
  unfolding event_of
  copy_events [] = []
  copy_events (ev ∷ evs) = event_of ev ∷ copy_events evs

  unfoldable pub sp_wait : W → Fd → ℕ → ℕ → Outcome (List Event) × W
  unfolding copy_events
  sp_wait w kfd max timeout =
      let (r, u) = k.collect w kfd max (timespec_of timeout) in
      (elim r [ done evs ↦ done (copy_events evs) | failed e ↦ failed e ], u)

  unfoldable pub sp_nonblocking : W → Fd → W
  sp_nonblocking w fd =
      let (got, u) = k.get_flags w fd in
      elim got [ failed e ↦ u | done flags ↦ (k.set_flags u fd (k.add_nonblock flags)).1 ]
