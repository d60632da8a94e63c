-- ===== src/Serial/Tests.antt =====
-- The serializer of src/ltask/serialize.c at concrete inputs.
use grt.Base.{
  ◌+◌, ◌-◌, ◌^◌, ◌≡◌, refl, List, [], ◌∷◌, ◌++◌, none, some, true, arith, length, replicate,
}
use grt.Base.Slices.{concat, AllSized}
use grt.Base.Run.{ok, raised, ◌>>=◌}
use grt.Serial.Bytes.{Byte, to_bytes, of_bytes}
use grt.Serial.Blocks.{Block, rb_init, WriteBlock, ReadBlock, wb_push, push_loop, rb_read}
use grt.Serial.Value.{
  LuaValue, nil, boolean, integer, str, table, other, no_values, value, no_pairs, pair,
}
use grt.Serial.Pack.{seri_pack}
use grt.Serial.Unpack.{seri_unpack}
use grt.Serial.Format.{AllFit, all_bytes, bytes_of, integer_bytes, size_bytes, string_bytes}
use grt.Serial.Written.{Holds, wb_push-Holds}
use grt.Serial.Consumed.{Left, rb_read-Left}
use grt.Serial.Ends.{Short, seri_unpack-Short}
use grt.Serial.RoundTrip.{seri_pack-all_bytes, seri_unpack-seri_pack}

abbrev noise : Block
noise = replicate 128 170

-- 7, and a table with two values at 1 and 2 and a key "k"
abbrev message : List LuaValue
message =
    integer 7
    ∷ table (value (str (104 ∷ 105 ∷ [])) (value (boolean true) no_values))
        (pair (str (107 ∷ [])) (integer (2 ^ 64 - 5)) no_pairs)
    ∷ []

message_fits : AllFit message
message_fits = (
  (omega arith, omega arith),
  (
    (
      omega arith,
      omega arith,
      ((omega arith, omega arith), (omega arith, tt)),
      (refl, refl, (omega arith, omega arith), (omega arith, omega arith), tt),
    ),
    tt,
  ),
)

-- A string of 300 bytes crosses two block boundaries.
abbrev letter : List LuaValue
letter = str (replicate 300 97) ∷ nil ∷ []

letter_fits : AllFit letter
letter_fits = ((omega arith, omega arith), (omega arith, tt))

-- The first byte of 7 is of type 2 with the cookie 1.
seven : bytes_of (integer 7) ≡ 10 ∷ 7 ∷ []
unfolding bytes_of to_bytes integer_bytes
seven = refl

-- A function cannot be packed.
unsupported : seri_pack noise (other ∷ []) ≡ raised
unfolding seri_pack wb_push push_loop to_bytes
unsupported = refl

seri_pack-all_bytes_example :
    (chain : List Block) × (junk : List Byte) × (seri_pack noise letter ≡ ok chain)
    × AllSized 128 chain
    × (concat chain ≡ to_bytes 4 (4 + length (all_bytes letter)) ++ (all_bytes letter ++ junk))
seri_pack-all_bytes_example = seri_pack-all_bytes noise refl letter letter_fits

seri_unpack-seri_pack_example :
    (seri_pack noise message >>= λ chain. seri_unpack (some chain)) ≡ ok message
unfolding all_bytes to_bytes bytes_of integer_bytes size_bytes string_bytes
seri_unpack-seri_pack_example = seri_unpack-seri_pack noise refl message message_fits (omega arith)

-- 126 bytes are in the first block, and four more are pushed.
abbrev full_start : WriteBlock
full_start = record { before = []; here = noise; after = []; len = 126; ptr = 126 }

full_start-Holds : Holds full_start (replicate 126 170)
full_start-Holds = record {
  before_full = tt;
  here_full = refl;
  last = refl;
  ptr_in = omega arith;
  counted = refl;
  bytes = refl;
}

wb_push-Holds_example :
    (b' : WriteBlock) × (wb_push noise full_start (1 ∷ 2 ∷ 3 ∷ 4 ∷ []) ≡ ok b')
    × Holds b' (replicate 126 170 ++ 1 ∷ 2 ∷ 3 ∷ 4 ∷ [])
    × (b'.len ≡ 130)
wb_push-Holds_example =
    wb_push-Holds noise refl full_start (replicate 126 170) (1 ∷ 2 ∷ 3 ∷ 4 ∷ []) full_start-Holds
      (omega arith)

-- Two bytes are left in the first block, and four are read.
abbrev split : ReadBlock
split = record { buffer = none; chain = noise ∷ noise ∷ []; len = 5; ptr = 126 }

split-Left : Left split (replicate 5 170)
split-Left = record {
  chained = refl;
  full = (refl, (refl, tt));
  ptr_in = omega arith;
  counted = refl;
  junk = replicate 125 170;
  bytes = refl;
}

rb_read-Left_example :
    (rb' : ReadBlock) × (rb_read split 4 ≡ ok (some (replicate 4 170), rb')) × Left rb' (170 ∷ [])
rb_read-Left_example = rb_read-Left split (replicate 4 170) (170 ∷ []) split-Left

-- The message says that 5 bytes follow, and they are a table that ends too soon.
abbrev cut_off : Block
cut_off = 9 ∷ 0 ∷ 0 ∷ 0 ∷ 31 ∷ 10 ∷ 200 ∷ 1 ∷ 1 ∷ replicate 119 170

seri_unpack-Short_example : Short (cut_off ∷ []) (seri_unpack (some (cut_off ∷ [])))
seri_unpack-Short_example = seri_unpack-Short (cut_off ∷ [])

-- A length of -1 leaves nothing to read.
negative_length : seri_unpack (some ((replicate 4 255 ++ replicate 124 0) ∷ [])) ≡ ok []
unfolding seri_unpack rb_init rb_read of_bytes
negative_length = refl
