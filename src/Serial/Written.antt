-- ===== src/Serial/Written.antt =====
-- wb_push, wb_init and wb_close of src/ltask/serialize.c append bytes.
use grt.Base.{
  ℕ, zero, suc, ◌+◌, ◌-◌, ◌%◌, ◌^◌, ◌<◌, ◌≤◌, ◌≡◌, refl, sym, ap, ◌∙◌, List, [], ◌∷◌, ◌++◌,
  append-nil, append_assoc, Bool-cases, inl, inr, ◌==◌, leb, arith, length, take, drop,
  length-append, length-take, length-drop, take-append-drop, subst,
}
use grt.Base.Slices.{
  split_append, take_exact, drop_exact, take_all, drop_all, concat, concat-append, AllSized,
  AllSized-append,
}
use grt.Base.Run.{ok}
use grt.Serial.Bytes.{Byte, to_bytes, length-to_bytes, to_bytes-mod}
use grt.Serial.Blocks.{
  Block, WriteBlock, patch, next_block, copy_in, push_loop, wb_push, wb_init, wb_close,
}

-- The blocks hold exactly the bytes `bs`, counted modulo 2^32, and `current` is the last block.
pub record Holds (b : WriteBlock) (bs : List Byte) : Type 0 where
  pub before_full : AllSized 128 b.before
  pub here_full : length b.here ≡ 128
  pub last : b.after ≡ []
  pub ptr_in : b.ptr ≤ 128
  pub counted : b.len ≡ length bs % 2 ^ 32
  pub bytes : concat b.before ++ take b.ptr b.here ≡ bs

-- What a copy into a block leaves.
module _ (block : Block) (at : ℕ) (bs : List Byte) (fits : at + length bs ≤ length block) where
  pub length-patch : length (patch block at bs) ≡ length block
  length-patch = omega (
    arith,
    length-append (take at block) (bs ++ drop (at + length bs) block),
    length-append bs (drop (at + length bs) block),
    length-take at block,
    length-drop (at + length bs) block,
  )

  pub take-patch : take (at + length bs) (patch block at bs) ≡ take at block ++ bs
  take-patch =
      ap (take (at + length bs))
        (sym (append_assoc (take at block) bs (drop (at + length bs) block)))
      ∙ take_exact (take at block ++ bs) (drop (at + length bs) block) (at + length bs)
          (omega (arith, length-append (take at block) bs, length-take at block))

-- The bytes end where the block ends.
patch_to_end :
    (block : Block) (at : ℕ) (bs : List Byte)
    → at + length bs ≡ length block
    → patch block at bs ≡ take at block ++ bs
patch_to_end block at bs e =
    ap (λ t. take at block ++ (bs ++ t)) (drop_all block (at + length bs) (omega arith))
    ∙ ap (λ t. take at block ++ t) (append-nil bs)

module _ (fresh : Block) (size : length fresh ≡ 128) where
  -- The last part of a push, which fits the block.
  copy-Holds :
      (b : WriteBlock) (pre bs : List Byte)
      → Holds b pre
      → b.ptr + length bs ≤ 128
      → Holds (record (copy_in fresh b bs) { ptr = b.ptr + length bs }) (pre ++ bs)
  copy-Holds b pre bs h fits = record {
    before_full = h.before_full;
    here_full = length-patch b.here b.ptr bs (omega (arith, h.here_full)) ∙ h.here_full;
    last = h.last;
    ptr_in = fits;
    counted = omega (arith, h.counted, length-append pre bs);
    bytes =
        ap (λ t. concat b.before ++ t) (take-patch b.here b.ptr bs (omega (arith, h.here_full)))
        ∙ (sym (append_assoc (concat b.before) (take b.ptr b.here) bs) ∙ ap (λ t. t ++ bs) h.bytes);
  }

  -- A full block is left for a fresh one.
  next-Holds :
      (b : WriteBlock) (pre : List Byte)
      → AllSized 128 b.before
      → length b.here ≡ 128
      → b.len ≡ length pre % 2 ^ 32
      → concat b.before ++ b.here ≡ pre
      → Holds (next_block fresh b) pre
  next-Holds b pre full here counted bytes = record {
    before_full = AllSized-append 128 b.before (b.here ∷ []) full (here, tt);
    here_full = size;
    last = refl;
    ptr_in = omega arith;
    counted = counted;
    bytes =
        append-nil (concat (b.before ++ b.here ∷ []))
        ∙ (concat-append b.before (b.here ∷ [])
            ∙ (ap (λ t. concat b.before ++ t) (append-nil b.here) ∙ bytes));
  }

  -- A round of the loop of wb_push that fills the block.
  fill-Holds :
      (b : WriteBlock) (pre bs : List Byte)
      → Holds b pre
      → 128 ≤ b.ptr + length bs
      → Holds
          (next_block fresh (copy_in fresh b (take (128 - b.ptr) bs)))
          (pre ++ take (128 - b.ptr) bs)
  fill-Holds b pre bs h over =
      let part = take (128 - b.ptr) bs in
      let exact : b.ptr + length part ≡ 128 =
        omega (arith, length-take (128 - b.ptr) bs, h.ptr_in) in
      let whole = copy-Holds b pre part h (omega (arith, exact)) in
      next-Holds (copy_in fresh b part) (pre ++ part) h.before_full whole.here_full whole.counted (
        ap (λ t. concat b.before ++ t)
          (patch_to_end b.here b.ptr part (omega (arith, exact, h.here_full)))
        ∙ (sym (append_assoc (concat b.before) (take b.ptr b.here) part)
            ∙ ap (λ t. t ++ part) h.bytes))

  push_loop-Holds :
      (fuel : ℕ) (b : WriteBlock) (pre bs : List Byte)
      → length bs < fuel
      → b.ptr < 128
      → Holds b pre
      → (b' : WriteBlock) × (push_loop fresh fuel b bs ≡ ok b') × Holds b' (pre ++ bs)
  unfolding push_loop
  push_loop-Holds zero b pre bs f lt h = elim f [ ]
  push_loop-Holds (suc fuel) b pre bs f lt h = elim (Bool-cases (leb (b.ptr + length bs) 128)) [
    | inl e ↦ (
      record (copy_in fresh b bs) { ptr = b.ptr + length bs },
      rw e,
      copy-Holds b pre bs h (ground (arith, e)),
    )
    | inr e ↦
        let room = 128 - b.ptr in
        let over : 128 ≤ b.ptr + length bs = ground (arith, e) in
        let (b', run, done) =
          push_loop-Holds fuel (next_block fresh (copy_in fresh b (take room bs)))
            (pre ++ take room bs) (drop room bs) (omega (arith, length-drop room bs, over))
            (omega arith) (fill-Holds b pre bs h over) in
        (
          b',
          rw e run,
          subst (Holds b')
              (append_assoc pre (take room bs) (drop room bs)
                ∙ ap (λ t. pre ++ t) (take-append-drop room bs))
              done,
        )
  ]

  -- A push keeps the old bytes, for any number of new ones.
  pub wb_push-Kept :
      (b : WriteBlock) (pre bs : List Byte)
      → Holds b pre
      → (b' : WriteBlock) × (wb_push fresh b bs ≡ ok b') × Holds b' (pre ++ bs)
  unfolding wb_push
  wb_push-Kept b pre bs h = elim (Bool-cases (b.ptr == 128)) [
    | inl e ↦ rw e (
        push_loop-Holds (suc (length bs)) (next_block fresh b) pre bs (omega arith) (omega arith) (
          next-Holds b pre h.before_full h.here_full h.counted (
            ap (λ t. concat b.before ++ t)
              (sym (take_all b.here b.ptr (ground (arith, e, h.here_full))))
            ∙ h.bytes)))
    | inr e ↦
        rw e
          (push_loop-Holds (suc (length bs)) b pre bs (omega arith) (ground (arith, e, h.ptr_in)) h)
  ]

  -- On blocks that hold some bytes, wb_push of bytes that make less than 2^31 in all ends well,
  -- and the blocks then hold the old bytes followed by the new ones, with `len` counting them,
  -- over as many blocks as it takes.
  pub wb_push-Holds :
      (b : WriteBlock) (pre bs : List Byte)
      → Holds b pre
      → length pre + length bs < 2 ^ 31
      → (b' : WriteBlock) × (wb_push fresh b bs ≡ ok b')
        × Holds b' (pre ++ bs)
        × (b'.len ≡ length pre + length bs)
  wb_push-Holds b pre bs h fits =
      let (b', run, kept) = wb_push-Kept b pre bs h in
      (b', run, kept, omega (arith, kept.counted, length-append pre bs))

  -- A new chain holds the place holder of its length.
  pub wb_init-Holds : (b : WriteBlock) × (wb_init fresh ≡ ok b) × Holds b (to_bytes 4 0)
  unfolding wb_init
  wb_init-Holds =
      wb_push-Kept (record { before = []; here = fresh; after = []; len = 0; ptr = 0 }) []
        (to_bytes 4 0)
        (record {
          before_full = tt;
          here_full = size;
          last = refl;
          ptr_in = omega arith;
          counted = refl;
          bytes = refl;
        })

  -- The chain that wb_close returns, for the first block and the blocks behind it.
  closed :
      (first : Block) (rest : List Block) (b : WriteBlock) (word : List Byte)
      → length word ≡ 4
      → push_loop fresh
          (suc (length word))
          (record b { before = []; here = first; after = rest; ptr = 0 })
          word
        ≡ ok (record b {
          before = [];
          here = patch first 0 word;
          after = rest;
          len = (b.len + length word) % 2 ^ 32;
          ptr = 0 + length word;
        })
  unfolding push_loop
  closed first rest b word e = ground arith

  close_chain :
      (blocks : List Block) (b : WriteBlock)
      → blocks ≡ b.before ++ (b.here ∷ b.after)
      → AllSized 128 blocks
      → (first : Block) × (rest : List Block) × (wb_close fresh b
          ≡ ok (patch first 0 (to_bytes 4 b.len) ∷ rest))
        × (first ∷ rest ≡ blocks)
  unfolding wb_close wb_push
  close_chain blocks b e full = go b.before refl
    where
      go :
          (before : List Block)
          → b.before ≡ before
          → (first : Block) × (rest : List Block) × (wb_close fresh b
              ≡ ok (patch first 0 (to_bytes 4 b.len) ∷ rest))
            × (first ∷ rest ≡ blocks)
      go [] q = (
        b.here,
        b.after,
        rw (q, closed b.here b.after b (to_bytes 4 b.len) (length-to_bytes 4 b.len)),
        rw (e, q),
      )
      go (x ∷ xs) q = (
        x,
        xs ++ (b.here ∷ b.after),
        rw (q, closed x (xs ++ (b.here ∷ b.after)) b (to_bytes 4 b.len) (length-to_bytes 4 b.len)),
        rw (e, q),
      )

  -- Closing writes the length over the place holder and keeps the bytes behind it.
  pub wb_close-Holds :
      (b : WriteBlock) (mark payload : List Byte)
      → length mark ≡ 4
      → Holds b (mark ++ payload)
      → (chain : List Block) × (junk : List Byte) × (wb_close fresh b ≡ ok chain)
        × AllSized 128 chain
        × (concat chain ≡ to_bytes 4 (4 + length payload) ++ (payload ++ junk))
  wb_close-Holds b mark payload four h =
      let blocks = b.before ++ (b.here ∷ []) in
      let junk = drop b.ptr b.here in
      let full = AllSized-append 128 b.before (b.here ∷ []) h.before_full (h.here_full, tt) in
      let (first, rest, run, same) =
        close_chain blocks b (ap (λ t. b.before ++ (b.here ∷ t)) (sym h.last)) full in
      let all : first ++ concat rest ≡ mark ++ (payload ++ junk) =
        ap concat same
        ∙ (concat-append b.before (b.here ∷ [])
            ∙ (ap (λ t. concat b.before ++ t)
                  (append-nil b.here ∙ sym (take-append-drop b.ptr b.here))
                ∙ (sym (append_assoc (concat b.before) (take b.ptr b.here) junk)
                    ∙ (ap (λ t. t ++ junk) h.bytes ∙ append_assoc mark payload junk)))) in
      let parts : AllSized 128 (first ∷ rest) = subst (AllSized 128) (sym same) full in
      let (mid, front, back) =
        split_append mark (payload ++ junk) first (concat rest) (sym all)
          (omega (arith, parts.0)) in
      let word = to_bytes 4 b.len in
      let short : length word ≡ 4 = length-to_bytes 4 b.len in
      let len : b.len ≡ (4 + length payload) % 2 ^ 32 =
        omega (arith, h.counted, length-append mark payload) in
      let patched : patch first 0 word ≡ word ++ mid =
        ap (λ t. word ++ t)
          (ap (λ t. drop t first) {x = 0 + length word} {y = 4} (omega arith)
            ∙ (ap (drop 4) front ∙ drop_exact mark mid 4 (omega arith))) in
      (
        patch first 0 word ∷ rest,
        junk,
        run,
        (length-patch first 0 word (omega (arith, parts.0)) ∙ parts.0, parts.1),
        ap (λ t. t ++ concat rest) patched
            ∙ (append_assoc word mid (concat rest)
                ∙ (ap (λ t. word ++ t) (sym back)
                    ∙ (ap (λ t. to_bytes 4 t ++ (payload ++ junk)) len
                        ∙ ap (λ t. t ++ (payload ++ junk)) (to_bytes-mod (4 + length payload))))),
      )
