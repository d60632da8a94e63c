-- ===== src/Serial/Unpack.antt =====
-- The readers of src/ltask/serialize.c, from get_integer to seri_unpack. The recursion takes fuel;
-- Serial/Ends.antt shows how much it needs.
use grt.Base.{
  ℕ, zero, suc, ◌+◌, ◌-◌, ◌*◌, ◌/◌, ◌%◌, ◌^◌, Bool, true, false, not, ◌||◌, List, [], ◌∷◌, Option,
  none, some, ltb, ◌==◌, if◌then◌else◌,
}
use grt.Base.Run.{Run, ok, wild, raised, spent, ◌>>=◌}
use grt.Serial.Bytes.{Byte, of_bytes}
use grt.Serial.Blocks.{Block, ReadBlock, rb_init, rb_read, rb_close}
use grt.Serial.Value.{
  LuaValue, Values, Pairs, nil, boolean, integer, real, userdata, str, table, no_values, value,
  no_pairs, pair,
}
use grt.Serial.Pack.{
  type_nil, type_boolean, type_number, type_userdata, type_short_string, type_long_string,
  type_table, number_zero, number_byte, number_word, number_dword, number_qword, number_real,
  max_cookie, sign_extend,
}

-- A read, or the error of invalid_stream.
abbrev pub must : Option (List Byte) × ReadBlock → Run (List Byte × ReadBlock)
must (none, rb) = raised
must (some bs, rb) = ok (bs, rb)

-- rb_read into a number of `k` bytes
unfoldable pub read_number : ReadBlock → ℕ → Run (ℕ × ReadBlock)
read_number rb k = do (bs, rb') ← rb_read rb k >>= must; ok (of_bytes bs, rb')

-- An `int32_t` is widened with its sign.
unfoldable pub get_integer : ReadBlock → ℕ → Run (ℕ × ReadBlock)
unfolding read_number
get_integer rb cookie =
    if cookie == number_zero
    then ok (0, rb)
    else if cookie == number_byte
    then read_number rb 1
    else if cookie == number_word
    then read_number rb 2
    else if cookie == number_dword
    then (read_number rb 4 >>= λ (n, rb'). ok (sign_extend n, rb'))
    else if cookie == number_qword
    then read_number rb 8
    else raised

unfoldable pub get_real : ReadBlock → Run (ℕ × ReadBlock)
unfolding read_number
get_real rb = read_number rb 8

unfoldable pub get_pointer : ReadBlock → Run (ℕ × ReadBlock)
unfolding read_number
get_pointer rb = read_number rb 8

-- A read of too few bytes is not noticed, and NULL is read from.
unfoldable pub get_buffer : ReadBlock → ℕ → Run (LuaValue × ReadBlock)
get_buffer rb len =
    rb_read rb len >>= λ (got, rb'). elim got [ none ↦ wild | some bs ↦ ok (str bs, rb') ]

-- `(int)*plen` of a length that is negative as an `int` is no array size.
unfoldable pub get_long : ReadBlock → ℕ → Run (LuaValue × ReadBlock)
unfolding read_number get_buffer
get_long rb cookie =
    if cookie == 2
    then (read_number rb 2 >>= λ (len, rb'). get_buffer rb' len)
    else if cookie == 4
    then (read_number rb 4 >>= λ (len, rb'). if ltb len (2 ^ 31) then get_buffer rb' len else wild)
    else raised

-- The array size of a table, with its sign dropped: no rounds are made for a negative `int`.
abbrev pub rounds_of : ℕ → ℕ
rounds_of n = if ltb (n % 2 ^ 32) (2 ^ 31) then n % 2 ^ 32 else 0

unfoldable pub get_array_size : ReadBlock → ℕ → Run (ℕ × ReadBlock)
unfolding get_integer
get_array_size rb array_size =
    if array_size == max_cookie - 1
    then (rb_read rb 1 >>= must >>= λ (t, rb').
        let type = of_bytes t in
        let cookie = type / 8 in
        if not (type % 8 == type_number) || cookie == number_real
        then raised
        else (get_integer rb' cookie >>= λ (n, rb''). ok (rounds_of n, rb'')))
    else ok (array_size, rb)

-- The value of a type that holds no other value; `none` where nothing is pushed.
unfoldable pub push_scalar : ReadBlock → ℕ → ℕ → Run (Option LuaValue × ReadBlock)
unfolding get_integer get_real get_pointer get_buffer get_long
push_scalar rb type cookie =
    if type == type_nil
    then ok (some nil, rb)
    else if type == type_boolean
    then ok (some (boolean (not (cookie == 0))), rb)
    else if type == type_number
    then (if cookie == number_real
        then (get_real rb >>= λ (v, rb'). ok (some (real v), rb'))
        else (get_integer rb cookie >>= λ (v, rb'). ok (some (integer v), rb')))
    else if type == type_userdata
    then (get_pointer rb >>= λ (p, rb'). ok (some (userdata p), rb'))
    else if type == type_short_string
    then (get_buffer rb cookie >>= λ (v, rb'). ok (some v, rb'))
    else if type == type_long_string
    then (get_long rb cookie >>= λ (v, rb'). ok (some v, rb'))
    else ok (none, rb)

abbrev pub is_nil : LuaValue → Bool
is_nil nil = true
is_nil _ = false

-- A value that a caller pops; where nothing was pushed it pops another's.
abbrev pub pushed : Option LuaValue × ReadBlock → Run (LuaValue × ReadBlock)
pushed (none, rb) = wild
pushed (some v, rb) = ok (v, rb)

-- A table is the sequence of its stores: 1, 2, … and then the pairs.
unfoldable mutual
  pub push_value : ℕ → ReadBlock → ℕ → ℕ → Run (Option LuaValue × ReadBlock)
  push_value zero rb type cookie = spent
  push_value (suc fuel) rb type cookie =
      let read : Run (Option LuaValue × ReadBlock) = do
        (array_size, sized) ← get_array_size rb cookie
        (vs, filled) ← unpack_array fuel array_size sized
        (ps, rest) ← unpack_pairs fuel filled
        ok (some (table vs ps), rest)
      in if type == type_table then read else push_scalar rb type cookie

  pub unpack_one : ℕ → ReadBlock → Run (LuaValue × ReadBlock)
  unpack_one zero rb = spent
  unpack_one (suc fuel) rb = rb_read rb 1 >>= must >>= λ (t, rb').
      push_value fuel rb' (of_bytes t % 8) (of_bytes t / 8) >>= pushed

  pub unpack_array : ℕ → ℕ → ReadBlock → Run (Values × ReadBlock)
  unpack_array zero n rb = spent
  unpack_array (suc fuel) zero rb = ok (no_values, rb)
  unpack_array (suc fuel) (suc n) rb = do
    (v, rb') ← unpack_one fuel rb
    (vs, rb'') ← unpack_array fuel n rb'
    ok (value v vs, rb'')

  pub unpack_pairs : ℕ → ReadBlock → Run (Pairs × ReadBlock)
  unpack_pairs zero rb = spent
  unpack_pairs (suc fuel) rb = unpack_one fuel rb >>= λ (k, rb').
      let more : Run (Pairs × ReadBlock) = do
        (v, rb'') ← unpack_one fuel rb'
        (ps, rb3) ← unpack_pairs fuel rb''
        ok (pair k v ps, rb3)
      in if is_nil k then ok (no_pairs, rb') else more

abbrev pub cons_pushed : Option LuaValue → List LuaValue → List LuaValue
cons_pushed none vs = vs
cons_pushed (some v) vs = v ∷ vs

-- The loop of seri_unpack: values until no byte is left.
unfoldable pub unpack_all : ℕ → ReadBlock → Run (List LuaValue × ReadBlock)
unfolding push_value
unpack_all zero rb = spent
unpack_all (suc fuel) rb = rb_read rb 1 >>= λ (got, rb'). elim got [
  | none ↦ ok ([], rb')
  | some t ↦ push_value fuel rb' (of_bytes t % 8) (of_bytes t / 8) >>= λ (v, rb'').
      unpack_all fuel rb'' >>= λ (vs, rb3). ok (cons_pushed v vs, rb3)
]

-- NULL for the block is an error. Each call takes a byte or ends, and four units of fuel a byte
-- are enough (Serial/Ends.antt).
unfoldable pub seri_unpack : Option (List Block) → Run (List LuaValue)
unfolding unpack_all rb_init rb_close
seri_unpack none = raised
seri_unpack (some chain) = do
  rb ← rb_init chain
  (vs, rb') ← unpack_all (4 * rb.len + 4) rb
  let closed = rb_close rb'
  ok vs
