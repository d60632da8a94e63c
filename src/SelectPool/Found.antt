-- ===== src/SelectPool/Found.antt =====
-- What sp_wait of src/async/socket_select.h finds.
use grt.Base.{ℕ, ◌+◌, ◌<◌, ◌≡◌, ◌≢◌, ◌⊎◌, true, List, []}
use grt.Base.Run.{Run, ok, aborted}
use grt.Socket.{Outcome, done, failed}
use grt.Epoll.{Event}
use grt.SelectPool.{SocketFd, SelectPool}
use grt.SelectPool.Table.{Lists}
use grt.SelectPool.Wait.{Selected, contains, Timeval, Winsock}
use grt.SelectPool.Window.{fds, writers, reports, window}
use grt.SelectPool.Sets.{marks, both}

-- What Windows says of select: when some socket is ready, it returns how many sockets of both sets are
-- left in them; it adds none to a set.
pub record SelectLaw {W : Type 0} (sys : Winsock W) : Type 0 where
  pub counts :
      (w u : W) (nfds : ℕ) (rd wt : List ℕ) (ti : Timeval) (found : Selected)
      → sys.select w nfds rd wt ti ≡ (done found, u)
      → found.ret ≢ 0
      → found.ret ≡ marks found.rd rd + marks found.wt wt
  pub adds_none :
      (w u : W) (nfds : ℕ) (rd wt : List ℕ) (ti : Timeval) (found : Selected)
      → sys.select w nfds rd wt ti ≡ (done found, u)
      → found.ret ≢ 0
      → (fd : ℕ) → contains found.wt fd ≡ true
      → contains wt fd ≡ true

-- A call of select for a window of the table.
pub record Asked {W : Type 0} (sys : Winsock W) (ys : List SocketFd) (found : Selected)
    : Type 0 where
  pub at : W
  pub after : W
  pub nfds : ℕ
  pub ti : Timeval
  pub called : sys.select at nfds (fds ys) (fds (writers ys)) ti ≡ (done found, after)

-- What sp_wait answers: a failure, nothing, or an event for each socket of a window of the table that
-- select, when it was asked for this window, found ready, none of them both ways.
abbrev pub Answer : {W : Type 0} → Winsock W → ℕ → List SocketFd → Outcome (List Event) → Type 0
Answer {W} sys n xs (failed e) = Unit {0}
Answer {W} sys n xs (done es) =
    (es ≡ [])
    ⊎ ((from : ℕ) × (found : Selected) × Asked sys (window n from xs) found
        × (both found (window n from xs) ≡ 0)
        × (es ≡ reports found (window n from xs)))

-- How a wait ends: with an answer and a pool that lists the same sockets, or by the assertion, when
-- select found a socket of a window ready both to read and to write.
abbrev pub Ends :
    {W : Type 0}
    → Winsock W
    → ℕ
    → List SocketFd
    → Run (Outcome (List Event) × SelectPool × W)
    → Type 0
Ends {W} sys n xs run =
    ((r : Outcome (List Event)) × (sp' : SelectPool) × (u : W) × (run ≡ ok (r, sp', u))
      × Lists sp' xs
      × Answer sys n xs r)
    ⊎ ((run ≡ aborted)
        × (from : ℕ) × (found : Selected) × Asked sys (window n from xs) found
        × (0 < both found (window n from xs)))
