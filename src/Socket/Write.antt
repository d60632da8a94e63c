-- ===== src/Socket/Write.antt =====
-- l_write of src/async/socket.c: what reaches the socket.
use grt.Base.{
  ℕ, zero, suc, ◌+◌, ◌-◌, ◌^◌, ◌≤◌, ◌<◌, ◌≡◌, refl, ◌⊎◌, inl, inr, Bool, true, List, [], ◌∷◌, ◌++◌,
  append-nil, append_assoc, arith, Bool-cases, ltb, ◌==◌, ◌&&◌, length, take, drop, length-drop, ap,
  sym, ◌∙◌,
}
use grt.Base.Slices.{drop-drop}
use grt.Base.Run.{ok}
use grt.Socket.{
  Byte, Fd, Outcome, done, failed, System, WriteResult, wrote, wrote_error, send_loop, l_write,
}

-- What POSIX says of `write`: `sent` is what the socket has taken; `write` adds a front part of its
-- bytes and gives the length of it, or fails and adds nothing.
pub record WriteLaw {W : Type 0} (sys : System W) (fd : Fd) (sent : W → List Byte) : Type 0 where
  pub takes :
      (w u : W) (bs : List Byte) (n : ℕ)
      → sys.write w fd bs ≡ (done n, u)
      → (n ≤ length bs) × (sent u ≡ sent w ++ take n bs)
  pub refuses :
      (w u : W) (bs : List Byte) (e : ℕ) → sys.write w fd bs ≡ (failed e, u) → sent u ≡ sent w

-- the offset that l_write gives back
abbrev pub offset : WriteResult → ℕ
offset (wrote n) = n
offset (wrote_error n e) = n

-- the socket took nothing
abbrev pub stops : Outcome ℕ → Bool
stops (done n) = n == 0
stops (failed e) = true

take_add : (n m k : ℕ) (bs : List Byte) → k ≡ n + m → take k bs ≡ take n bs ++ take m (drop n bs)
take_add zero m k bs e = let same : k ≡ m = omega arith in ap (λ i. take i bs) same
take_add (suc n) m zero bs e = absurd (omega arith)
take_add (suc n) zero (suc k) [] e = refl
take_add (suc n) (suc m) (suc k) [] e = refl
take_add (suc n) m (suc k) (b ∷ bs) e = ap (◌∷◌ b) (take_add n m k bs (omega arith))

module _ {W : Type 0} (sys : System W) (fd : Fd) (sent : W → List Byte) (text : List Byte) where
  -- From `off` on, `r` bytes in all have gone out, and the last write says why no more.
  pub record Sent (w u : W) (off : ℕ) (r : WriteResult) : Type 0 where
    pub within : offset r ≤ length text
    pub onward : off ≤ offset r
    pub out : sent u ≡ sent w ++ take (offset r - off) (drop off text)
    pub stopped :
        (offset r ≡ length text)
        ⊎ ((v : W) × (o : Outcome ℕ) × (sys.write v fd (drop (offset r) text) ≡ (o, u))
            × (stops o ≡ true))

  module _ (law : WriteLaw sys fd sent) where
    Sent-here :
        (w : W) (off : ℕ) (r : WriteResult) (u : W)
        → off ≤ length text
        → offset r ≡ off
        → sent u ≡ sent w
        → (offset r ≡ length text)
          ⊎ ((v : W) × (o : Outcome ℕ) × (sys.write v fd (drop (offset r) text) ≡ (o, u))
              × (stops o ≡ true))
        → Sent w u off r
    Sent-here w off r u le same kept why = record {
      within = omega arith;
      onward = omega arith;
      out =
          let nothing : offset r - off ≡ 0 = omega arith in
          rw nothing (kept ∙ sym (append-nil (sent w)));
      stopped = why;
    }

    Sent-after :
        (w u v : W) (off n : ℕ) (r : WriteResult)
        → sent u ≡ sent w ++ take n (drop off text)
        → Sent u v (off + n) r
        → Sent w v off r
    Sent-after w u v off n r out s =
        let rest = offset r - (off + n) in
        let both = take_add n rest (offset r - off) (drop off text) (omega (arith, s.onward)) in
        record {
          within = s.within;
          onward = omega (arith, s.onward);
          out =
              s.out
              ∙ ap (λ bs. bs ++ take rest (drop (off + n) text)) out
              ∙ append_assoc (sent w) (take n (drop off text)) (take rest (drop (off + n) text))
              ∙ ap (λ bs. sent w ++ (take n (drop off text) ++ take rest bs))
                  (sym (drop-drop off n text))
              ∙ ap (λ bs. sent w ++ bs) (sym both);
          stopped = s.stopped;
        }

    send_loop-Sent :
        (fuel : ℕ) (w : W) (off : ℕ)
        → length text < 2 ^ 31
        → off ≤ length text
        → length text - off < fuel
        → (r : WriteResult) × (u : W) × (send_loop sys fuel w fd text off ≡ ok (r, u))
          × Sent w u off r
    unfolding send_loop
    send_loop-Sent zero w off short le lt = absurd (omega arith)
    send_loop-Sent (suc fuel) w off short le lt = elim (Bool-cases (ltb off (length text))) [
      | inr over ↦ (
        wrote off,
        w,
        rw over refl,
        Sent-here w off (wrote off) w le refl refl (inl (ground arith)),
      )
      | inl more ↦
          on (λ v next. send_loop-Sent fuel v next short) more (sys.write w fd (drop off text)).0
            (sys.write w fd (drop off text)).1 refl
    ]
      where
        on :
            ((v : W) (next : ℕ)
              → next ≤ length text
              → length text - next < fuel
              → (r : WriteResult) × (x : W) × (send_loop sys fuel v fd text next ≡ ok (r, x))
                × Sent v x next r)
            → ltb off (length text) ≡ true
            → (o : Outcome ℕ) (u : W) → sys.write w fd (drop off text) ≡ (o, u)
            → (r : WriteResult) × (v : W) × (send_loop sys (suc fuel) w fd text off ≡ ok (r, v))
              × Sent w v off r
        on again more (failed e) u called =
            elim (Bool-cases (e == sys.eagain && e == sys.ewouldblock)) [
              | inl both ↦ (
                wrote off,
                u,
                rw (more, called, both, called) refl,
                Sent-here w off (wrote off) u le refl (law.refuses w u (drop off text) e called)
                    (inr (w, failed e, called, refl)),
              )
              | inr other ↦ (
                wrote_error off e,
                u,
                rw (more, called, other, called) refl,
                Sent-here w off (wrote_error off e) u le refl
                    (law.refuses w u (drop off text) e called) (inr (w, failed e, called, refl)),
              )
            ]
        on again more (done n) u called = elim (Bool-cases (n == 0)) [
          | inl none_taken ↦
              let zero_taken : n ≡ 0 = ground arith in
              let (fits, out) = law.takes w u (drop off text) n called in
              (
                wrote off,
                u,
                rw (more, called, none_taken, called) refl,
                Sent-here w off (wrote off) u le refl
                    (out
                      ∙ ap (λ k. sent w ++ take k (drop off text)) zero_taken
                      ∙ append-nil (sent w))
                    (inr (w, done n, called, none_taken)),
              )
          | inr some_taken ↦
              let (fits, out) = law.takes w u (drop off text) n called in
              let left = length-drop off text in
              let inside : off + n ≤ length text = omega (arith, le) in
              let no_overflow : ltb (off + n) (2 ^ 31) ≡ true = ground (arith, inside, short) in
              let (r, v, run, s) = again u (off + n) inside (ground (arith, some_taken)) in
              (
                r,
                v,
                rw (more, called, some_taken, no_overflow, called) run,
                Sent-after w u v off n r out s,
              )
        ]

    -- When write is as POSIX says (it takes a front part of the bytes and gives its length, or
    -- fails and takes nothing), l_write of a text of less than 2^31 bytes ends well, without an
    -- overflow and without the fuel of its loop running out; the offset it gives back is at most
    -- the length of the text, the socket has taken exactly the text up to that offset, and either
    -- this is the whole text or the last write took nothing.
    pub l_write-Sent :
        (w : W)
        → length text < 2 ^ 31
        → (r : WriteResult) × (u : W) × (l_write sys w fd text ≡ ok (r, u)) × Sent w u 0 r
    unfolding l_write
    l_write-Sent w short = send_loop-Sent (length text + 1) w 0 short (omega arith) (omega arith)
