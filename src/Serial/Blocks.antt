-- ===== src/Serial/Blocks.antt =====
-- The blocks of src/ltask/serialize.c: writing bytes to a chain and reading them back.
use grt.Base.{
  ℕ, zero, suc, ◌+◌, ◌%◌, ◌^◌, ◌-◌, List, [], ◌∷◌, ◌++◌, Option, none, some, ltb, leb, ◌==◌,
  if◌then◌else◌, length, take, drop,
}
use grt.Base.Run.{Run, ok, wild, spent, ◌>>=◌}
use grt.Serial.Bytes.{Byte, to_bytes, of_bytes}

abbrev pub block_size : ℕ
block_size = 128

-- The buffer of a `struct block`.
abbrev pub Block : Type 0
Block = List Byte

-- A `struct write_block`: the blocks before `current`, its buffer, and the blocks behind it.
pub record WriteBlock : Type 0 where
  pub before : List Block
  pub here : Block
  pub after : List Block
  pub len : ℕ
  pub ptr : ℕ

-- A `struct read_block`: `chain` begins with `current`, and the blocks before it are freed.
pub record ReadBlock : Type 0 where
  pub buffer : Option (List Byte)
  pub chain : List Block
  pub len : ℕ
  pub ptr : ℕ

-- memcpy of `bs` to `block + at`
abbrev pub patch : Block → ℕ → List Byte → Block
patch block at bs = take at block ++ (bs ++ drop (at + length bs) block)

-- `fresh` is what malloc leaves in a new block.
module _ (fresh : Block) where
  -- `current = current->next = blk_alloc(); ptr = 0`
  abbrev pub next_block : WriteBlock → WriteBlock
  next_block b = record b { before = b.before ++ (b.here ∷ []); here = fresh; after = []; ptr = 0 }

  -- memcpy to the current block; `len` is the 32 bits of an `int`
  abbrev pub copy_in : WriteBlock → List Byte → WriteBlock
  copy_in b bs = record b { here = patch b.here b.ptr bs; len = (b.len + length bs) % 2 ^ 32 }

  -- wb_push after its first test; a round that does not end fills a block.
  unfoldable pub push_loop : ℕ → WriteBlock → List Byte → Run WriteBlock
  push_loop zero b bs = spent
  push_loop (suc fuel) b bs =
      let room = block_size - b.ptr in
      let more = push_loop fuel (next_block (copy_in b (take room bs))) (drop room bs) in
      let done = copy_in b bs in
      if leb (b.ptr + length bs) block_size
      then ok (record done { ptr = b.ptr + length bs })
      else more

  unfoldable pub wb_push : WriteBlock → List Byte → Run WriteBlock
  wb_push b bs = push_loop (suc (length bs)) (if b.ptr == block_size then next_block b else b) bs

  -- wb_init on no block: the length is written once as a place holder.
  unfoldable pub wb_init : Run WriteBlock
  wb_init =
      wb_push (record { before = []; here = fresh; after = []; len = 0; ptr = 0 }) (to_bytes 4 0)

  -- `current = head; ptr = 0`
  abbrev pub rewind : List Block → WriteBlock → WriteBlock
  rewind [] b = record b { before = []; ptr = 0 }
  rewind (first ∷ rest) b = record b {
    before = [];
    here = first;
    after = rest ++ (b.here ∷ b.after);
    ptr = 0;
  }

  -- The length goes to the head, and the chain is returned.
  unfoldable pub wb_close : WriteBlock → Run (List Block)
  wb_close b = do
    b' ← wb_push (rewind b.before b) (to_bytes 4 b.len)
    ok (b'.before ++ (b'.here ∷ b'.after))

-- `block + at`, of which `sz` bytes are read
abbrev pub slice : Block → ℕ → ℕ → List Byte
slice block at sz = take sz (drop at block)

-- The length stands in the first four bytes, an `int` of which 4 is subtracted (with wrap-around). A
-- `len` that is negative then is 0 here: either way rb_read gives NULL for the first byte asked for, and
-- nothing is read before it. A chain always has a block.
abbrev pub length_left : ℕ → ℕ
length_left word =
    let left = (word + (2 ^ 32 - 4)) % 2 ^ 32 in if ltb left (2 ^ 31) then left else 0

unfoldable pub rb_init : List Block → Run ReadBlock
rb_init [] = wild
rb_init (b ∷ rest) = ok (record {
  buffer = none;
  chain = b ∷ rest;
  len = length_left (of_bytes (slice b 0 4));
  ptr = 4;
})

-- The loop of rb_read over the next blocks: what is read, the blocks left, and the new `ptr`.
-- A copy of no bytes touches no memory.
unfoldable pub read_loop : List Block → ℕ → Run (List Byte × List Block × ℕ)
read_loop [] zero = ok ([], [], 0)
read_loop [] (suc sz) = wild
read_loop (b ∷ rest) sz =
    let on = read_loop rest (sz - block_size) >>= λ (bs, left, at). ok (b ++ bs, left, at) in
    if ltb sz block_size then ok (take sz b, b ∷ rest, sz) else on

-- rb_read from the current block on, at `ptr`
unfoldable pub read_here : List Block → ℕ → ℕ → Run (List Byte × List Block × ℕ)
read_here [] ptr zero = ok ([], [], ptr)
read_here [] ptr (suc sz) = wild
read_here (b ∷ rest) ptr sz =
    let copy = block_size - ptr in
    let on = read_loop rest (sz - copy) >>= λ (bs, left, at). ok (drop ptr b ++ bs, left, at) in
    if leb sz copy then ok (slice b ptr sz, b ∷ rest, ptr + sz) else on

abbrev pub tail_of : List Block → List Block
tail_of [] = []
tail_of (b ∷ rest) = rest

-- NULL if fewer than `sz` bytes are left; `len` is not negative here (see rb_init).
unfoldable pub rb_read : ReadBlock → ℕ → Run (Option (List Byte) × ReadBlock)
unfolding read_here read_loop
rb_read rb sz = if ltb rb.len sz then ok (none, rb) else elim rb.buffer [
  | some all ↦ ok (some (slice all rb.ptr sz), record rb { ptr = rb.ptr + sz; len = rb.len - sz })
  | none ↦
      (if rb.ptr == block_size
        then read_here (tail_of rb.chain) 0 sz
        else read_here rb.chain rb.ptr sz)
      >>= λ (bs, left, at). ok (some bs, record rb { chain = left; ptr = at; len = rb.len - sz })
]

-- rb_close frees the blocks that are left.
unfoldable pub rb_close : ReadBlock → ReadBlock
rb_close rb = record rb { chain = []; len = 0; ptr = 0 }
