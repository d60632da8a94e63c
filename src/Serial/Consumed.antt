-- ===== src/Serial/Consumed.antt =====
-- rb_init and rb_read of src/ltask/serialize.c take bytes off the front of a chain.
use grt.Base.{
  ℕ, ◌+◌, ◌-◌, ◌^◌, ◌<◌, ◌≤◌, ◌≡◌, refl, sym, ap, ◌∙◌, List, [], ◌∷◌, ◌++◌, none, some,
  append_assoc, Bool-cases, inl, inr, ◌==◌, leb, ltb, false, arith, length, take, drop,
  length-append, length-drop,
}
use grt.Base.Slices.{
  take_exact, drop_exact, drop_all, drop-append_left, take-append_left, drop-drop, concat, AllSized,
  split_append,
}
use grt.Base.Run.{ok}
use grt.Serial.Bytes.{Byte, to_bytes, of_bytes, of_bytes-to_bytes, length-to_bytes}
use grt.Serial.Blocks.{
  length_left, Block, ReadBlock, slice, rb_init, read_loop, read_here, rb_read, tail_of,
}

-- The reader has exactly the bytes `bs` left.
pub record Left (rb : ReadBlock) (bs : List Byte) : Type 0 where
  pub chained : rb.buffer ≡ none
  pub full : AllSized 128 rb.chain
  pub ptr_in : rb.ptr ≤ 128
  pub counted : rb.len ≡ length bs
  pub junk : List Byte
  pub bytes : drop rb.ptr (concat rb.chain) ≡ bs ++ junk

-- What is left of a chain after a read.
pub record Rest (tl : List Byte) (chain : List Block) (at : ℕ) : Type 0 where
  pub full : AllSized 128 chain
  pub at_in : at ≤ 128
  pub bytes : drop at (concat chain) ≡ tl

append_empty : (bs tl : List Byte) → [] ≡ bs ++ tl → (bs ≡ []) × (tl ≡ [])
append_empty [] tl e = (refl, sym e)
append_empty (b ∷ bs) tl e = absurd (ground arith)

-- Within one block.
slice_of :
    (b : Block) (rest bs tl : List Byte) (at : ℕ)
    → at ≤ length b
    → at + length bs ≤ length b
    → drop at (b ++ rest) ≡ bs ++ tl
    → (slice b at (length bs) ≡ bs) × (drop (at + length bs) (b ++ rest) ≡ tl)
slice_of b rest bs tl at h fits e = (
  sym (take-append_left (drop at b) rest (length bs) (omega (arith, length-drop at b)))
      ∙ (ap (take (length bs)) (sym (drop-append_left b rest at h) ∙ e)
          ∙ take_exact bs tl (length bs) refl),
  sym (drop-drop at (length bs) (b ++ rest))
      ∙ (ap (drop (length bs)) e ∙ drop_exact bs tl (length bs) refl),
)

-- The loop of rb_read over the next blocks.
read_loop-Rest :
    (chain : List Block) (bs tl : List Byte)
    → AllSized 128 chain
    → concat chain ≡ bs ++ tl
    → (left : List Block) × (at : ℕ) × (read_loop chain (length bs) ≡ ok (bs, left, at))
      × Rest tl left at
unfolding read_loop
read_loop-Rest [] [] tl full e = ([], 0, refl, record { full = tt; at_in = omega arith; bytes = e })
read_loop-Rest [] (x ∷ bs) tl full e = absurd (ground (arith, append_empty (x ∷ bs) tl e))
read_loop-Rest (b ∷ rest) bs tl full e = elim (Bool-cases (ltb (length bs) 128)) [
  | inl lt ↦
      let (got, after) =
        slice_of b (concat rest) bs tl 0 (omega arith) (ground (arith, lt, full.0)) e in
      (
        b ∷ rest,
        length bs,
        rw lt (ap (λ t. ok (t, b ∷ rest, length bs)) got),
        record {
          full = full;
          at_in = ground (arith, lt);
          bytes = ap (λ t. drop t (b ++ concat rest)) (omega arith) ∙ after;
        },
      )
  | inr ge ↦
      let long : 128 ≤ length bs = ground (arith, ge) in
      let (mid, front, back) = split_append b (concat rest) bs tl e (omega (arith, full.0, long)) in
      let (left, at, run, done) = read_loop-Rest rest mid tl full.1 back in
      let size : length bs - 128 ≡ length mid =
        omega (arith, ap length front, length-append b mid, full.0) in
      (left, at, rw (ge, size, run) (ap (λ t. ok (t, left, at)) (sym front)), done)
]

-- rb_read from a position of the current block.
read_here-Rest :
    (chain : List Block) (ptr : ℕ) (bs tl : List Byte)
    → AllSized 128 chain
    → ptr ≤ 128
    → drop ptr (concat chain) ≡ bs ++ tl
    → (left : List Block) × (at : ℕ) × (read_here chain ptr (length bs) ≡ ok (bs, left, at))
      × Rest tl left at
unfolding read_here
read_here-Rest [] ptr [] tl full h e = ([], ptr, refl, record { full = tt; at_in = h; bytes = e })
read_here-Rest [] ptr (x ∷ bs) tl full h e =
    absurd (
      ground (arith, append_empty (x ∷ bs) tl (sym (drop_all {A = Byte} [] ptr (omega arith)) ∙ e)))
read_here-Rest (b ∷ rest) ptr bs tl full h e = elim (Bool-cases (leb (length bs) (128 - ptr))) [
  | inl le ↦
      let fits : ptr + length bs ≤ 128 = ground (arith, le) in
      let (got, after) =
        slice_of b (concat rest) bs tl ptr (omega (arith, full.0)) (omega (arith, full.0, fits))
          e in
      (
        b ∷ rest,
        ptr + length bs,
        rw le (ap (λ t. ok (t, b ∷ rest, ptr + length bs)) got),
        record { full = full; at_in = fits; bytes = after },
      )
  | inr gt ↦
      let long : 128 - ptr < length bs = ground (arith, gt) in
      let part = drop ptr b in
      let (mid, front, back) =
        split_append part (concat rest) bs tl
          (sym (drop-append_left b (concat rest) ptr (omega (arith, full.0))) ∙ e)
          (omega (arith, length-drop ptr b, full.0, long)) in
      let (left, at, run, done) = read_loop-Rest rest mid tl full.1 back in
      let size : length bs - (128 - ptr) ≡ length mid =
        omega (arith, ap length front, length-append part mid, length-drop ptr b, full.0) in
      (left, at, rw (gt, size, run) (ap (λ t. ok (t, left, at)) (sym front)), done)
]

-- At the end of a block the next one goes on.
past_block :
    (chain : List Block)
    → AllSized 128 chain
    → AllSized 128 (tail_of chain) × (drop 0 (concat (tail_of chain)) ≡ drop 128 (concat chain))
past_block [] full = (tt, sym (drop_all {A = Byte} [] 128 (omega arith)))
past_block (b ∷ rest) full = (full.1, sym (drop_exact b (concat rest) 128 (omega (arith, full.0))))

-- On a reader that has some bytes left, rb_read of the length of a front part of them ends well
-- with exactly that part, and leaves a reader with exactly the rest, over as many blocks as it
-- takes.
pub rb_read-Left :
    (rb : ReadBlock) (bs more : List Byte)
    → Left rb (bs ++ more)
    → (rb' : ReadBlock) × (rb_read rb (length bs) ≡ ok (some bs, rb')) × Left rb' more
unfolding rb_read
rb_read-Left rb bs more h =
    let enough : ltb rb.len (length bs) ≡ false =
      ground (arith, h.counted, length-append bs more) in
    let tl = more ++ h.junk in
    let cut : drop rb.ptr (concat rb.chain) ≡ bs ++ tl = h.bytes ∙ append_assoc bs more h.junk in
    let after : (left : List Block) (at : ℕ)
        → Rest tl left at
        → Left (record rb { chain = left; ptr = at; len = rb.len - length bs }) more =
      λ left at r. record {
        chained = h.chained;
        full = r.full;
        ptr_in = r.at_in;
        counted = omega (arith, h.counted, length-append bs more);
        junk = h.junk;
        bytes = r.bytes;
      } in
    elim (Bool-cases (rb.ptr == 128)) [
      | inl e ↦
          let (full, same) = past_block rb.chain h.full in
          let (left, at, run, r) = read_here-Rest (tail_of rb.chain) 0 bs tl full (omega arith) (
            same
            ∙ (ap (λ t. drop t (concat rb.chain)) {x = 128} {y = rb.ptr} (ground (arith, e))
                ∙ cut)) in
          (
            record rb { chain = left; ptr = at; len = rb.len - length bs },
            ground (arith, enough, h.chained, e, run),
            after left at r,
          )
      | inr ne ↦
          let (left, at, run, r) = read_here-Rest rb.chain rb.ptr bs tl h.full h.ptr_in cut in
          (
            record rb { chain = left; ptr = at; len = rb.len - length bs },
            ground (arith, enough, h.chained, ne, run),
            after left at r,
          )
    ]

-- With too few bytes left nothing is taken.
pub rb_read-short :
    (rb : ReadBlock) (bs : List Byte) (sz : ℕ)
    → Left rb bs
    → length bs < sz
    → rb_read rb sz ≡ ok (none, rb)
unfolding rb_read
rb_read-short rb bs sz h lt = ground (arith, h.counted)

left_payload : (n : ℕ) → 4 + n < 2 ^ 31 → length_left (4 + n) ≡ n
left_payload n fits = ground arith

-- A chain that begins with its length leaves the bytes behind the length.
pub rb_init-Left :
    (chain : List Block) (payload junk : List Byte)
    → AllSized 128 chain
    → 4 + length payload < 2 ^ 31
    → concat chain ≡ to_bytes 4 (4 + length payload) ++ (payload ++ junk)
    → (rb : ReadBlock) × (rb_init chain ≡ ok rb) × Left rb payload
unfolding rb_init
rb_init-Left [] payload junk full fits e = absurd (
    omega (
      arith,
      ap length e,
      length-append (to_bytes 4 (4 + length payload)) (payload ++ junk),
      length-to_bytes 4 (4 + length payload),
    ))
rb_init-Left (b ∷ rest) payload junk full fits e =
    let word = to_bytes 4 (4 + length payload) in
    let four : length word ≡ 4 = length-to_bytes 4 (4 + length payload) in
    let (mid, front, back) =
      split_append word (payload ++ junk) b (concat rest) (sym e) (omega (arith, four, full.0)) in
    let start : slice b 0 4 ≡ word =
      ap (take 4) front ∙ take_exact word mid 4 (omega (arith, four)) in
    let len : of_bytes (slice b 0 4) ≡ 4 + length payload =
      ap of_bytes start ∙ of_bytes-to_bytes 4 (4 + length payload) (omega arith) in
    (
      record {
        buffer = none;
        chain = b ∷ rest;
        len = length_left (of_bytes (slice b 0 4));
        ptr = 4;
      },
      refl,
      record {
        chained = refl;
        full = full;
        ptr_in = omega arith;
        counted = ap length_left len ∙ left_payload (length payload) fits;
        junk = junk;
        bytes = ap (drop 4) e ∙ drop_exact word (payload ++ junk) 4 (omega (arith, four));
      },
    )
