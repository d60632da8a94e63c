-- ===== src/Socket/Tests.antt =====
-- The functions of src/async/socket.c on a small system, and the theorems there.
use grt.Base.{
  ℕ, zero, suc, ◌+◌, ◌-◌, ◌≤◌, ◌≡◌, refl, List, [], ◌∷◌, ◌++◌, arith, min, ◌==◌, if◌then◌else◌,
  length, take, ap, sym, ◌∙◌,
}
use grt.Base.Run.{ok, aborted}
use grt.Socket.{
  Byte, Fd, Outcome, done, failed, System, closed, bytes, WriteResult, l_read, l_write, l_listen,
}
use grt.Socket.Write.{WriteLaw, Sent, l_write-Sent}
use grt.Socket.Read.{l_read-Reads}

-- What will be read, what has been written, how many bytes the socket still takes, and the closed
-- descriptors.
record Pipe : Type 0 where
  incoming : List (Outcome (List Byte))
  outgoing : List Byte
  room : ℕ
  shut : List Fd

abbrev next_read : Pipe → List (Outcome (List Byte)) → Outcome (List Byte) × Pipe
next_read w [] = (failed 11, w)
next_read w (o ∷ rest) = (o, record w { incoming = rest })

abbrev next_write : Pipe → List Byte → ℕ → Outcome ℕ × Pipe
next_write w bs zero = (failed 11, w)
next_write w bs (suc k) =
    let n = min (suc k) (length bs) in
    (done n, record w { outgoing = w.outgoing ++ take n bs; room = suc k - n })

abbrev count : Outcome ℕ → ℕ
count (done n) = n
count (failed e) = 0

-- Every address but 7 is taken.
abbrev small : System Pipe
small = record {
  eagain = 11;
  ewouldblock = 11;
  econnreset = 104;
  get_flags = λ w fd. (done 2, w);
  set_flags = λ w fd flags. (done tt, w);
  add_nonblock = λ flags. flags + 2048;
  getaddrinfo = λ w port. (done port, w);
  socket = λ w a. (done (a + 10), w);
  bind = λ w fd a. (if a == 7 then done tt else failed 98, w);
  listen = λ w fd. (done tt, w);
  accept = λ w fd. (failed 11, w);
  read = λ w fd n. next_read w w.incoming;
  write = λ w fd bs. next_write w bs w.room;
  close = λ w fd. record w { shut = fd ∷ w.shut };
}

small-WriteLaw : WriteLaw small 5 (λ w. w.outgoing)
small-WriteLaw = record {
  takes = λ w u bs n e. takes w u bs n w.room e;
  refuses = λ w u bs e called. refuses w u bs e w.room called;
}
  where
    takes :
        (w u : Pipe) (bs : List Byte) (n k : ℕ)
        → next_write w bs k ≡ (done n, u)
        → (n ≤ length bs) × (u.outgoing ≡ w.outgoing ++ take n bs)
    takes w u bs n zero e = ground arith
    takes w u bs n (suc k) e =
        let same : min (suc k) (length bs) ≡ n = ap (λ p. count p.0) e in
        (omega arith, sym (ap (λ p. p.1.outgoing) e) ∙ ap (λ i. w.outgoing ++ take i bs) same)

    refuses :
        (w u : Pipe) (bs : List Byte) (e k : ℕ)
        → next_write w bs k ≡ (failed e, u)
        → u.outgoing ≡ w.outgoing
    refuses w u bs e zero called = ground arith
    refuses w u bs e (suc k) called = ground arith

abbrev busy : Pipe
busy = record {
  incoming = done (1 ∷ 2 ∷ []) ∷ done (3 ∷ []) ∷ failed 11 ∷ [];
  outgoing = [];
  room = 2;
  shut = [];
}

-- Two addresses fail, and their sockets are closed.
listens : l_listen small busy (3 ∷ 4 ∷ 7 ∷ []) ≡ ok (17, record busy { shut = 14 ∷ 13 ∷ [] })
unfolding l_listen
listens = refl

nowhere : l_listen small busy (3 ∷ []) ≡ aborted
unfolding l_listen
nowhere = refl

-- Data and then the end of the stream: the data is lost.
hangs_up :
    l_read small 3 (record busy { incoming = done (1 ∷ []) ∷ done [] ∷ [] }) 5
    ≡ ok (closed, record busy { incoming = []; shut = 5 ∷ [] })
unfolding l_read
hangs_up = refl

l_write-Sent_example :
    (r : WriteResult) × (u : Pipe) × (l_write small busy 5 (8 ∷ 9 ∷ 10 ∷ []) ≡ ok (r, u))
    × Sent small 5 (λ w. w.outgoing) (8 ∷ 9 ∷ 10 ∷ []) busy u 0 r
l_write-Sent_example =
    l_write-Sent small 5 (λ w. w.outgoing) (8 ∷ 9 ∷ 10 ∷ []) small-WriteLaw busy (omega arith)

l_read-Reads_example :
    l_read small 3 busy 5 ≡ ok (bytes (1 ∷ 2 ∷ 3 ∷ []), record busy { incoming = [] })
l_read-Reads_example =
    l_read-Reads small 5 3 busy (record busy { incoming = [] }) ((1 ∷ 2 ∷ []) ∷ (3 ∷ []) ∷ [])
      (failed 11) (omega arith) (_, refl, omega arith, (_, refl, omega arith, (refl, tt)))
