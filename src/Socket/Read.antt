-- ===== src/Socket/Read.antt =====
-- l_read of src/async/socket.c against the sequence of the reads that it makes.
use grt.Base.{
  ℕ, zero, suc, ◌<◌, ◌≡◌, refl, true, false, List, [], ◌∷◌, ◌++◌, append-nil, append_assoc, arith,
  ◌==◌, ◌||◌, if◌then◌else◌, length, ap, ◌∙◌,
}
use grt.Base.Slices.{concat}
use grt.Base.Run.{ok}
use grt.Socket.{
  Byte, Fd, Outcome, done, failed, System, ReadResult, closed, bytes, bytes_error, fetch_loop,
  l_read,
}

module _ {W : Type 0} (sys : System W) (fd : Fd) where
  -- From `w` on, `read` gives the chunks, none of them empty, and then `last`, which is the end of
  -- the stream or a failure.
  abbrev pub Reads : W → List (List Byte) → Outcome (List Byte) → W → Type 0
  Reads w [] last u =
      (sys.read w fd 256 ≡ (last, u))
      × (elim last as (λ o. Type 0) [ done bs ↦ length bs ≡ 0 | failed e ↦ Unit {0} ])
  Reads w (c ∷ cs) last u =
      (v : W) × (sys.read w fd 256 ≡ (done c, v)) × (0 < length c) × Reads v cs last u

  -- What the chunks and the end make of a call, with the socket closed or not.
  abbrev pub outcome : List Byte → Outcome (List Byte) → W → ReadResult × W
  outcome got (done bs) u = (closed, sys.close u fd)
  outcome got (failed e) u =
      if e == sys.econnreset
      then (closed, sys.close u fd)
      else if e == sys.eagain || e == sys.ewouldblock
      then (bytes got, u)
      else (bytes_error got e, u)

  fetch_loop-Reads :
      (fuel : ℕ) (w u : W) (cs : List (List Byte)) (last : Outcome (List Byte)) (buf : List Byte)
      → length cs < fuel
      → Reads w cs last u
      → fetch_loop sys fuel w fd buf ≡ ok (outcome (buf ++ concat cs) last u)
  unfolding fetch_loop
  fetch_loop-Reads zero w u cs last buf lt r = absurd (omega arith)
  fetch_loop-Reads (suc fuel) w u [] (done bs) buf lt (called, empty) =
      let over : (length bs == 0) ≡ true = ground arith in
      rw (called, fetch_loop, over, called) refl
  fetch_loop-Reads (suc fuel) w u [] (failed e) buf lt (called, _) =
      rw (called, fetch_loop, called, append-nil buf) (ground arith)
  fetch_loop-Reads (suc fuel) w u (c ∷ cs) last buf lt (v, called, some_byte, rest) =
      let more : (length c == 0) ≡ false = ground arith in
      rw (called, fetch_loop, more, called)
        (fetch_loop-Reads fuel v u cs last (buf ++ c) (omega arith) rest
          ∙ ap (λ got. ok (outcome got last u)) (append_assoc buf c (concat cs)))

  -- When read gives some chunks that are not empty and then the end of the stream or a failure,
  -- l_read with more fuel than chunks ends well. At EAGAIN or EWOULDBLOCK it gives the chunks
  -- joined, at another error these and the error; at ECONNRESET and at the end of the stream it
  -- closes the socket and gives nothing, also when there were chunks.
  pub l_read-Reads :
      (fuel : ℕ) (w u : W) (cs : List (List Byte)) (last : Outcome (List Byte))
      → length cs < fuel
      → Reads w cs last u
      → l_read sys fuel w fd ≡ ok (outcome (concat cs) last u)
  unfolding l_read
  l_read-Reads fuel w u cs last lt r = fetch_loop-Reads fuel w u cs last [] lt r
