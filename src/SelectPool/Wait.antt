-- ===== src/SelectPool/Wait.antt =====
-- sp_wait of src/async/socket_select.h. select is a parameter; an fd_set is the list of its sockets.
use grt.Base.{
  ℕ, zero, suc, ◌+◌, ◌*◌, ◌/◌, ◌%◌, min, Bool, false, ◌||◌, List, [], ◌∷◌, ◌++◌, leb, ◌==◌,
  if◌then◌else◌, length,
}
use grt.Base.Run.{Run, ok, spent, ◌>>=◌, ◌>>◌, assert}
use grt.Socket.{Outcome, done, failed}
use grt.Epoll.{Event}
use grt.SelectPool.{SelectPool, load_socket}

-- What select finds: the number that it returns, and the two sets with the ready sockets.
pub record Selected : Type 0 where
  pub ret : ℕ
  pub rd : List ℕ
  pub wt : List ℕ

-- the time to wait, in seconds and microseconds
pub record Timeval : Type 0 where
  pub tv_sec : ℕ
  pub tv_usec : ℕ

pub record Winsock (W : Type 0) : Type 0 where
  pub fd_setsize : ℕ
  pub select : W → ℕ → List ℕ → List ℕ → Timeval → Outcome Selected × W

-- `FD_ISSET`
abbrev pub contains : List ℕ → ℕ → Bool
contains [] fd = false
contains (x ∷ xs) fd = (x == fd) || contains xs fd

-- `FD_SET`, which adds a socket once. A round has no more sockets than a set has room for.
abbrev pub fd_add : List ℕ → ℕ → List ℕ
fd_add set fd = if contains set fd then set else set ++ fd ∷ []

-- The first loop of a round, over at most `left` sockets from `idx`: the two sets, and where `i` ends.
unfoldable pub fill_sets : ℕ → ℕ → SelectPool → List ℕ → List ℕ → ℕ → Run (List ℕ × List ℕ × ℕ)
fill_sets zero idx sp rd wt i = ok (rd, wt, i)
fill_sets (suc left) idx sp rd wt i =
    if leb sp.socket_n idx
    then ok (rd, wt, i)
    else (load_socket sp.cells idx >>= λ x.
        fill_sets left (idx + 1) sp (fd_add rd x.fd) (if x.write then fd_add wt x.fd else wt)
          (i + 1))

-- The second loop, behind the events `es` that it has written.
unfoldable pub collect : ℕ → ℕ → SelectPool → Selected → List Event → Run (List Event)
collect zero idx sp found es = ok es
collect (suc left) idx sp found es =
    if leb sp.socket_n idx
    then ok es
    else (load_socket sp.cells idx >>= λ x.
        let read_flag = contains found.rd x.fd in
        let write_flag = contains found.wt x.fd in
        let more = es ++ record { s = x.ud; read = read_flag; write = write_flag } ∷ [] in
        let rest = collect left (idx + 1) sp found in
        if read_flag || write_flag
        then if length more == found.ret then ok more else rest more
        else rest es)

-- `select_n += n`, and back to 0 behind the last socket
abbrev pub next_window : SelectPool → ℕ → SelectPool
next_window sp n = record sp {
  select_n = if leb sp.socket_n (sp.select_n + n) then 0 else sp.select_n + n;
}

module _ {W : Type 0} (sys : Winsock W) where
  -- The rounds, with fuel; `n` is at least 1.
  unfoldable pub wait_loop :
      ℕ → W → SelectPool → ℕ → Timeval → Run (Outcome (List Event) × SelectPool × W)
  unfolding fill_sets collect
  wait_loop zero w sp n ti = spent
  wait_loop (suc fuel) w sp n ti = fill_sets n sp.select_n sp [] [] 0 >>= λ (rd, wt, i).
      let (r, u) = sys.select w (i + 1) rd wt ti in
      let moved = next_window sp n in
      let again = wait_loop fuel u moved n (record { tv_sec = 0; tv_usec = 0 }) in
      let nothing : Outcome (List Event) → Run (Outcome (List Event) × SelectPool × W) =
        λ ret. if leb sp.socket_n (sp.select_n + n) then ok (ret, moved, u) else again in
      elim r [
        | failed e ↦ nothing (failed e)
        | done found ↦
            let ready : Run (Outcome (List Event) × SelectPool × W) =
              collect n sp.select_n sp found [] >>= λ es.
              assert (length es == found.ret) >> ok (done es, moved, u) in
            if found.ret == 0 then nothing (done []) else ready
      ]

  -- Every round goes on by `n` sockets.
  unfoldable pub sp_wait : W → SelectPool → ℕ → ℕ → Run (Outcome (List Event) × SelectPool × W)
  unfolding wait_loop
  sp_wait w sp n timeout =
      let ti : Timeval = record { tv_sec = timeout / 1000; tv_usec = timeout % 1000 * 1000 } in
      wait_loop (sp.socket_n + 1) w sp (min n sys.fd_setsize) ti
