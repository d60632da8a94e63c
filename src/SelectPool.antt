-- ===== src/SelectPool.antt =====
-- The table of sockets of src/async/socket_select.h, the poller for Windows. A cell that was never
-- written is `none`; allocations succeed.
pub mod Table
pub mod Wait
pub mod Window
pub mod Sets
pub mod Found
mod Tests
use grt.Base.{
  ℕ, zero, suc, ◌+◌, ◌-◌, ◌*◌, Bool, true, false, Option, none, some, List, [], ◌∷◌, ◌++◌, leb, ltb,
  ◌==◌, if◌then◌else◌, length, replicate,
}
use grt.Base.Run.{Run, ok, wild, ◌>>=◌, or_wild, load, store}

pub record SocketFd : Type 0 where
  pub fd : ℕ
  pub ud : ℕ
  pub write : Bool

pub record SelectPool : Type 0 where
  pub select_n : ℕ
  pub cap : ℕ
  pub socket_n : ℕ
  pub cells : List (Option SocketFd)

abbrev pub default_cap : ℕ
default_cap = 16

unfoldable pub sp_create : SelectPool
sp_create = record {
  select_n = 0;
  cap = default_cap;
  socket_n = 0;
  cells = replicate default_cap none;
}

abbrev pub load_socket : List (Option SocketFd) → ℕ → Run SocketFd
load_socket cells k = load cells k >>= λ cell. or_wild cell

-- `_expand`, which also forgets what is in the table
unfoldable pub expand_pool : SelectPool → SelectPool
expand_pool p = record {
  select_n = 0;
  cap = p.cap * 2;
  socket_n = 0;
  cells = p.cells ++ replicate p.cap none;
}

unfoldable pub sp_add : SelectPool → ℕ → ℕ → Run SelectPool
sp_add sp sock ud =
    let room = if leb sp.cap sp.socket_n then expand_pool sp else sp in
    let entry : SocketFd = record { fd = sock; ud = ud; write = false } in
    store room.cells room.socket_n (some entry) >>= λ cells.
    ok (record room { cells = cells; socket_n = room.socket_n + 1 })

-- The loop of sp_del over the last `left` cells, from `i`; `moving` once the socket was met.
unfoldable pub del_loop :
    ℕ → ℕ → Bool → List (Option SocketFd) → ℕ → Run (Bool × List (Option SocketFd))
del_loop zero i moving cells sock = ok (moving, cells)
del_loop (suc left) i moving cells sock = load_socket cells i >>= λ entry.
    if moving
    then (store cells (i - 1) (some entry) >>= λ shifted. del_loop left (i + 1) true shifted sock)
    else del_loop left (i + 1) (entry.fd == sock) cells sock

unfoldable pub sp_del : SelectPool → ℕ → Run SelectPool
sp_del sp sock = del_loop sp.socket_n 0 false sp.cells sock >>= λ (moved, cells).
    ok (record sp { cells = cells; socket_n = if moved then sp.socket_n - 1 else sp.socket_n })

-- The loop of sp_write over the last `left` cells, from `i`.
unfoldable pub write_loop : ℕ → ℕ → List (Option SocketFd) → ℕ → Bool → Run (List (Option SocketFd))
write_loop zero i cells sock enable = ok cells
write_loop (suc left) i cells sock enable =
    let rest = write_loop left (i + 1) cells sock enable in
    load_socket cells i >>= λ entry.
    if entry.fd == sock then store cells i (some (record entry { write = enable })) else rest

unfoldable pub sp_write : SelectPool → ℕ → ℕ → Bool → Run SelectPool
sp_write sp sock ud enable =
    write_loop sp.socket_n 0 sp.cells sock enable >>= λ cells. ok (record sp { cells = cells })
