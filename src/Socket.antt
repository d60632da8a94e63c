-- ===== src/Socket.antt =====
-- The Lua functions of src/async/socket.c. The system is a parameter: a type of its states, the calls
-- that the code makes, and the three error numbers that it tests. A call that returns -1 gives
-- `failed` with the error number.
pub mod Write
pub mod Read
mod Tests
use grt.Base.{
  ℕ, zero, suc, ◌+◌, ◌-◌, ◌^◌, Bool, true, false, ◌&&◌, ◌||◌, not, Option, none, some, List, [],
  ◌∷◌, ◌++◌, ltb, ◌==◌, if◌then◌else◌, length, drop,
}
use grt.Base.Run.{Run, ok, aborted, wild, spent, ◌>>=◌}

abbrev pub Byte : Type 0
Byte = ℕ

abbrev pub Fd : Type 0
Fd = ℕ

pub data Outcome (A : Type 0) : Type 0 where
  done : A → Outcome A
  failed : ℕ → Outcome A

-- `read` gives at most as many bytes as it is asked for, `write` the number that it took.
pub record System (W : Type 0) : Type 0 where
  pub eagain : ℕ
  pub ewouldblock : ℕ
  pub econnreset : ℕ
  pub get_flags : W → Fd → Outcome ℕ × W
  pub set_flags : W → Fd → ℕ → Outcome (Unit {0}) × W
  pub add_nonblock : ℕ → ℕ
  pub getaddrinfo : W → List Byte → Outcome (List ℕ) × W
  pub socket : W → ℕ → Outcome Fd × W
  pub bind : W → Fd → ℕ → Outcome (Unit {0}) × W
  pub listen : W → Fd → Outcome (Unit {0}) × W
  pub accept : W → Fd → Outcome Fd × W
  pub read : W → Fd → ℕ → Outcome (List Byte) × W
  pub write : W → Fd → List Byte → Outcome ℕ × W
  pub close : W → Fd → W

-- What l_read gives back: nothing, the bytes, or the bytes and an error.
pub data ReadResult : Type 0 where
  closed : ReadResult
  bytes : List Byte → ReadResult
  bytes_error : List Byte → ℕ → ReadResult

-- What l_write gives back: the offset, alone or with an error.
pub data WriteResult : Type 0 where
  wrote : ℕ → WriteResult
  wrote_error : ℕ → ℕ → WriteResult

module _ {W : Type 0} (sys : System W) where
  unfoldable pub make_socket_non_blocking : W → Fd → Bool × W
  make_socket_non_blocking w sfd =
      let set : ℕ → W → Bool × W = λ flags u.
        let (r, v) = sys.set_flags u sfd (sys.add_nonblock flags) in
        (elim r [ done x ↦ true | failed e ↦ false ], v) in
      let (got, u) = sys.get_flags w sfd in
      elim got [ failed e ↦ (false, u) | done flags ↦ set flags u ]

  -- The loop of create_and_bind over the addresses; `none` at its end.
  unfoldable pub bind_loop : W → List ℕ → Option Fd × W
  bind_loop w [] = (none, w)
  bind_loop w (rp ∷ rest) =
      let (got, u) = sys.socket w rp in
      elim got [
        | failed e ↦ bind_loop u rest
        | done sfd ↦
            let (r, v) = sys.bind u sfd rp in
            elim r [ done x ↦ (some sfd, v) | failed e ↦ bind_loop (sys.close v sfd) rest ]
      ]

  unfoldable pub create_and_bind : W → List Byte → Option Fd × W
  unfolding bind_loop
  create_and_bind w port =
      let (got, u) = sys.getaddrinfo w port in
      elim got [ failed e ↦ (none, u) | done result ↦ bind_loop u result ]

  -- A failure ends the process.
  unfoldable pub l_listen : W → List Byte → Run (Fd × W)
  unfolding create_and_bind make_socket_non_blocking
  l_listen w addr =
      let (bound, u) = create_and_bind w addr in
      elim bound [
        | none ↦ aborted
        | some sfd ↦
            let (unblocked, v) = make_socket_non_blocking u sfd in
            let (r, x) = sys.listen v sfd in
            let listening : Run (Fd × W) = elim r [ done y ↦ ok (sfd, x) | failed e ↦ aborted ] in
            if unblocked then listening else aborted
      ]

  -- The reads of l_read, with fuel, behind the bytes of `buf`.
  unfoldable pub fetch_loop : ℕ → W → Fd → List Byte → Run (ReadResult × W)
  fetch_loop zero w fd buf = spent
  fetch_loop (suc fuel) w fd buf =
      let (got, u) = sys.read w fd 256 in
      let next : List Byte → Run (ReadResult × W) = λ tmp.
        if length tmp == 0
        then ok (closed, sys.close u fd)
        else fetch_loop fuel u fd (buf ++ tmp) in
      elim got [
        | done tmp ↦ next tmp
        | failed e ↦ ok (
            if e == sys.econnreset
            then (closed, sys.close u fd)
            else if not (e == sys.eagain) && not (e == sys.ewouldblock)
            then (bytes_error buf e, u)
            else (bytes buf, u))
      ]

  unfoldable pub l_read : ℕ → W → Fd → Run (ReadResult × W)
  unfolding fetch_loop
  l_read fuel w fd = fetch_loop fuel w fd []

  -- The writes of l_write from `off` on, with fuel. `n` and `off` are `int`: an offset of 2^31 or more
  -- overflows, which is undefined.
  unfoldable pub send_loop : ℕ → W → Fd → List Byte → ℕ → Run (WriteResult × W)
  send_loop zero w fd text off = spent
  send_loop (suc fuel) w fd text off =
      let (r, u) = sys.write w fd (drop off text) in
      let next : ℕ → Run (WriteResult × W) = λ n.
        let on = send_loop fuel u fd text (off + n) in
        if n == 0 then ok (wrote off, u) else if ltb (off + n) (2 ^ 31) then on else wild in
      if not (ltb off (length text)) then ok (wrote off, w) else elim r [
        | done n ↦ next n
        | failed e ↦ ok (
            if e == sys.eagain && e == sys.ewouldblock
            then (wrote off, u)
            else (wrote_error off e, u))
      ]

  -- A round takes a byte or ends.
  unfoldable pub l_write : W → Fd → List Byte → Run (WriteResult × W)
  unfolding send_loop
  l_write w fd text = send_loop (length text + 1) w fd text 0

  abbrev pub l_close : W → Fd → W
  l_close w fd = sys.close w fd

  abbrev pub l_accept : W → Fd → Outcome Fd × W
  l_accept w lnfd = sys.accept w lnfd
