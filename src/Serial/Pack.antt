-- ===== src/Serial/Pack.antt =====
-- The writers of src/ltask/serialize.c, from wb_nil to seri_pack. Numbers are little-endian.
use grt.Base.{
  ℕ, suc, ◌+◌, ◌-◌, ◌*◌, ◌%◌, ◌^◌, Bool, false, not, ◌&&◌, List, [], ◌∷◌, ltb, leb, ◌==◌,
  if◌then◌else◌, length,
}
use grt.Base.Run.{Run, ok, raised, ◌>>=◌}
use grt.Serial.Bytes.{Byte, to_bytes}
use grt.Serial.Blocks.{Block, WriteBlock, wb_push, wb_init, wb_close}
use grt.Serial.Value.{
  LuaValue, Values, Pairs, nil, boolean, integer, real, userdata, str, table, other, no_values,
  value, no_pairs, pair, rawlen,
}

abbrev pub type_nil : ℕ
type_nil = 0

abbrev pub type_boolean : ℕ
type_boolean = 1

abbrev pub type_number : ℕ
type_number = 2

abbrev pub type_userdata : ℕ
type_userdata = 3

abbrev pub type_short_string : ℕ
type_short_string = 4

abbrev pub type_long_string : ℕ
type_long_string = 5

abbrev pub type_table : ℕ
type_table = 6

abbrev pub number_zero : ℕ
number_zero = 0

abbrev pub number_byte : ℕ
number_byte = 1

abbrev pub number_word : ℕ
number_word = 2

abbrev pub number_dword : ℕ
number_dword = 4

abbrev pub number_qword : ℕ
number_qword = 6

abbrev pub number_real : ℕ
number_real = 8

abbrev pub max_cookie : ℕ
max_cookie = 32

abbrev pub max_depth : ℕ
max_depth = 32

-- `(t) | (v) << 3`; `t` is below 8, so the parts are disjoint.
abbrev pub combine_type : ℕ → ℕ → ℕ
combine_type t v = t + v * 8

-- `(int32_t)v` as the 64-bit pattern that it is compared by
abbrev pub sign_extend : ℕ → ℕ
sign_extend v = if ltb (v % 2 ^ 32) (2 ^ 31) then v % 2 ^ 32 else v % 2 ^ 32 + (2 ^ 64 - 2 ^ 32)

-- Whether wb_table_hash leaves a key to wb_table_array: `(int32_t)k` is `k`, above 0 and at most
-- `array_size`. A float key of a table is no integer.
abbrev pub skips : ℕ → LuaValue → Bool
skips array_size (integer v) =
    let x = v % 2 ^ 32 in v == x && (ltb 0 x && (ltb x (2 ^ 31) && leb x array_size))
skips array_size _ = false

-- A continuation of a table's writer, as an argument of its loops.
abbrev pub Writer : Type 0
Writer = WriteBlock → Run WriteBlock

module _ (fresh : Block) where
  unfoldable pub wb_nil : Writer
  wb_nil wb = wb_push fresh wb (to_bytes 1 type_nil)

  unfoldable pub wb_boolean : WriteBlock → Bool → Run WriteBlock
  wb_boolean wb b = wb_push fresh wb (to_bytes 1 (combine_type type_boolean (if b then 1 else 0)))

  -- The first byte, then the `k` bytes of `v`.
  abbrev pub tagged : WriteBlock → ℕ → ℕ → ℕ → Run WriteBlock
  tagged wb n k v = do wb' ← wb_push fresh wb (to_bytes 1 n); wb_push fresh wb' (to_bytes k v)

  unfoldable pub wb_integer : WriteBlock → ℕ → Run WriteBlock
  wb_integer wb v =
      if v == 0
      then wb_push fresh wb (to_bytes 1 (combine_type type_number number_zero))
      else if not (v == sign_extend v)
      then tagged wb (combine_type type_number number_qword) 8 v
      else if leb (2 ^ 63) v
      then tagged wb (combine_type type_number number_dword) 4 v
      else if ltb v 0x100
      then tagged wb (combine_type type_number number_byte) 1 v
      else if ltb v 0x10000
      then tagged wb (combine_type type_number number_word) 2 v
      else tagged wb (combine_type type_number number_dword) 4 v

  unfoldable pub wb_real : WriteBlock → ℕ → Run WriteBlock
  wb_real wb v = tagged wb (combine_type type_number number_real) 8 v

  unfoldable pub wb_pointer : WriteBlock → ℕ → Run WriteBlock
  wb_pointer wb v = tagged wb type_userdata 8 v

  unfoldable pub wb_string : WriteBlock → List Byte → Run WriteBlock
  wb_string wb s =
      let len = length s in
      if ltb len max_cookie
      then (wb_push fresh wb (to_bytes 1 (combine_type type_short_string len)) >>= λ b.
          if ltb 0 len then wb_push fresh b s else ok b)
      else if ltb len 0x10000
      then (tagged wb (combine_type type_long_string 2) 2 len >>= λ b. wb_push fresh b s)
      else (tagged wb (combine_type type_long_string 4) 4 len >>= λ b. wb_push fresh b s)

  -- The size of the array part: in the first byte, or behind it as an integer.
  unfoldable pub wb_array_size : WriteBlock → ℕ → Run WriteBlock
  unfolding wb_integer
  wb_array_size wb array_size =
      if leb (max_cookie - 1) array_size
      then (wb_push fresh wb (to_bytes 1 (combine_type type_table (max_cookie - 1))) >>= λ b.
          wb_integer b array_size)
      else wb_push fresh wb (to_bytes 1 (combine_type type_table array_size))

  -- _pack_one, with the loops of wb_table_array and wb_table_hash. wb_table hands the depth of its
  -- entries on, one more than its own. lua_next gives the entries 1 .. rawlen first.
  unfoldable mutual
    pub pack_one : LuaValue → ℕ → Writer
    pack_one nil depth wb = if ltb max_depth depth then raised else wb_nil wb
    pack_one (boolean b) depth wb = if ltb max_depth depth then raised else wb_boolean wb b
    pack_one (integer v) depth wb = if ltb max_depth depth then raised else wb_integer wb v
    pack_one (real v) depth wb = if ltb max_depth depth then raised else wb_real wb v
    pack_one (userdata p) depth wb = if ltb max_depth depth then raised else wb_pointer wb p
    pack_one (str s) depth wb = if ltb max_depth depth then raised else wb_string wb s
    pack_one (table vs ps) depth wb =
        let write : Run WriteBlock = do
          sized ← wb_array_size wb (rawlen vs)
          array ← pack_array vs (suc depth) sized
          visited ← pack_visited vs 1 (rawlen vs) (suc depth) array
          hash ← pack_hash ps (rawlen vs) (suc depth) visited
          wb_nil hash
        in if ltb max_depth depth then raised else write
    pack_one other depth wb = raised

    -- for (i=1;i<=array_size;i++)
    pub pack_array : Values → ℕ → Writer
    pack_array no_values depth wb = ok wb
    pack_array (value v vs) depth wb = pack_one v depth wb >>= pack_array vs depth

    -- lua_next over the entries of the array part, from key `i` on
    pub pack_visited : Values → ℕ → ℕ → ℕ → Writer
    pack_visited no_values i array_size depth wb = ok wb
    pack_visited (value v vs) i array_size depth wb =
        let both : Run WriteBlock = do
          wb' ← wb_integer wb i
          wb'' ← pack_one v depth wb'
          pack_visited vs (suc i) array_size depth wb''
        in let next = pack_visited vs (suc i) array_size depth wb in
          if skips array_size (integer i) then next else both

    -- lua_next over the other entries
    pub pack_hash : Pairs → ℕ → ℕ → Writer
    pack_hash no_pairs array_size depth wb = ok wb
    pack_hash (pair k v ps) array_size depth wb =
        let both : Run WriteBlock = do
          wb' ← pack_one k depth wb
          wb'' ← pack_one v depth wb'
          pack_hash ps array_size depth wb''
        in let next = pack_hash ps array_size depth wb in if skips array_size k then next else both

  -- _pack_from at 0: the arguments in order.
  unfoldable pub pack_from : List LuaValue → Writer
  unfolding pack_one
  pack_from [] wb = ok wb
  pack_from (v ∷ vs) wb = pack_one v 0 wb >>= pack_from vs

  -- The arguments of a call in one chain.
  unfoldable pub seri_pack : List LuaValue → Run (List Block)
  unfolding pack_from wb_init wb_close
  seri_pack vs = do b ← wb_init fresh; b' ← pack_from vs b; wb_close fresh b'
