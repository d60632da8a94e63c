-- ===== src/Serial/RoundTrip.antt =====
-- seri_unpack gives back what seri_pack was given (src/ltask/serialize.c).
use grt.Base.{
  ℕ, zero, suc, ◌+◌, ◌*◌, ◌^◌, ◌<◌, ◌≤◌, ◌≡◌, sym, ap, ◌∙◌, List, [], ◌∷◌, ◌++◌, append_assoc,
  if◌then◌else◌, arith, length, length-append, subst, some,
}
use grt.Base.Run.{ok, ◌>>=◌}
use grt.Base.Slices.{concat, AllSized}
use grt.Serial.Bytes.{Byte, to_bytes, length-to_bytes}
use grt.Serial.Blocks.{Block, ReadBlock, rb_read}
use grt.Serial.Value.{
  LuaValue, Values, Pairs, nil, boolean, integer, real, userdata, str, table, other, no_values,
  value, no_pairs, pair, rawlen,
}
use grt.Serial.Pack.{seri_pack}
use grt.Serial.Unpack.{unpack_all, seri_unpack}
use grt.Serial.Format.{
  head, integer_bytes, string_bytes, size_bytes, bytes_of, values_bytes, pairs_bytes, all_bytes,
  Fits, FitValues, FitPairs, AllFit,
}
use grt.Serial.Written.{wb_init-Holds, wb_close-Holds}
use grt.Serial.Consumed.{Left, rb_read-Left, rb_read-short, rb_init-Left}
use grt.Serial.Packed.{pack_from-Writes}
use grt.Serial.Scalars.{head_parts}
use grt.Serial.Nested.{weight, values_weight, pairs_weight, read_value}

length-head : (t c : ℕ) → length (head t c) ≡ 1
length-head t c = length-to_bytes 1 (t + c * 8)

-- Each coded part begins with a byte.
integer_bytes_pos : (v : ℕ) → 1 ≤ length (integer_bytes v)
unfolding integer_bytes to_bytes
integer_bytes_pos v = ground arith

string_bytes_pos : (s : List Byte) → 1 ≤ length (string_bytes s)
unfolding string_bytes to_bytes
string_bytes_pos s = ground arith

size_bytes_pos : (n : ℕ) → 1 ≤ length (size_bytes n)
unfolding size_bytes to_bytes
size_bytes_pos n = ground arith

-- Four units of fuel a byte are enough.
mutual
  unfolding weight bytes_of

  weight_le : (v : LuaValue) (d : ℕ) → Fits v d → weight v + 2 ≤ 4 * length (bytes_of v)
  weight_le nil d f = omega (arith, length-head 0 0)
  weight_le (boolean b) d f = omega (arith, length-head 1 (if b then 1 else 0))
  weight_le (integer v) d f = omega (arith, integer_bytes_pos v)
  weight_le (real v) d f = omega (arith, length-append (head 2 8) (to_bytes 8 v), length-head 2 8)
  weight_le (userdata p) d f =
      omega (arith, length-append (head 3 0) (to_bytes 8 p), length-head 3 0)
  weight_le (str s) d f = omega (arith, string_bytes_pos s)
  weight_le other d f = absurd f
  weight_le (table vs ps) d f = omega (
    arith,
    length-append (size_bytes (rawlen vs)) (values_bytes vs ++ (pairs_bytes ps ++ head 0 0)),
    length-append (values_bytes vs) (pairs_bytes ps ++ head 0 0),
    length-append (pairs_bytes ps) (head 0 0),
    length-head 0 0,
    size_bytes_pos (rawlen vs),
    values_weight_le vs (suc d) f.2,
    pairs_weight_le ps (rawlen vs) (suc d) f.3,
  )

  values_weight_le :
      (vs : Values) (d : ℕ) → FitValues vs d → values_weight vs ≤ 4 * length (values_bytes vs) + 1
  values_weight_le no_values d f = omega arith
  values_weight_le (value v vs) d f = omega (
    arith,
    length-append (bytes_of v) (values_bytes vs),
    weight_le v d f.0,
    values_weight_le vs d f.1,
  )

  pairs_weight_le :
      (ps : Pairs) (n d : ℕ) → FitPairs ps n d → pairs_weight ps ≤ 4 * length (pairs_bytes ps) + 3
  pairs_weight_le no_pairs n d f = omega arith
  pairs_weight_le (pair k v ps) n d f = omega (
    arith,
    length-append (bytes_of k) (bytes_of v ++ pairs_bytes ps),
    length-append (bytes_of v) (pairs_bytes ps),
    weight_le k d f.2,
    weight_le v d f.3,
    pairs_weight_le ps n d f.4,
  )

-- The loop of seri_unpack reads all the values and ends.
pub unpack_all-all_bytes :
    (vs : List LuaValue) (f : ℕ) (rb : ReadBlock)
    → AllFit vs
    → 4 * length (all_bytes vs) < f
    → Left rb (all_bytes vs)
    → (rb' : ReadBlock) × (unpack_all f rb ≡ ok (vs, rb'))
unfolding unpack_all all_bytes
unpack_all-all_bytes [] zero rb fit h l = elim h [ ]
unpack_all-all_bytes [] (suc f) rb fit h l = (rb, rw (rb_read-short rb [] 1 l (omega arith)))
unpack_all-all_bytes (v ∷ vs) zero rb fit h l = elim h [ ]
unpack_all-all_bytes (v ∷ vs) (suc f) rb fit h l =
    let size = length-append (bytes_of v) (all_bytes vs) in
    let light = weight_le v 0 fit.0 in
    let c = read_value v 0 f fit.0 (omega (arith, size, light)) in
    let (rb1, run1, l1) = rb_read-Left rb (head c.type c.cookie) (c.rest ++ all_bytes vs) (
      subst (Left rb) (append_assoc (head c.type c.cookie) c.rest (all_bytes vs))
        (subst (λ t. Left rb (t ++ all_bytes vs)) c.coded l)) in
    let one : rb_read rb 1 ≡ ok (some (head c.type c.cookie), rb1) =
      ap (rb_read rb) (sym (length-head c.type c.cookie)) ∙ run1 in
    let (rb2, run2, l2) = c.reads rb1 (all_bytes vs) l1 in
    let (is_type, is_cookie) = head_parts c.type c.cookie c.type_in c.cookie_in in
    let (rb3, run3) = unpack_all-all_bytes vs f rb2 fit.1 (omega (arith, size, light)) l2 in
    (rb3, rw (one, is_type, is_cookie, run2, run3))

module _ (fresh : Block) (size : length fresh ≡ 128) where
  -- For values that fit, seri_pack ends well with a chain of blocks of 128 bytes that holds the
  -- length in four bytes, then exactly the documented format of the values, then whatever the last
  -- block held before.
  pub seri_pack-all_bytes :
      (vs : List LuaValue)
      → AllFit vs
      → (chain : List Block) × (junk : List Byte) × (seri_pack fresh vs ≡ ok chain)
        × AllSized 128 chain
        × (concat chain ≡ to_bytes 4 (4 + length (all_bytes vs)) ++ (all_bytes vs ++ junk))
  unfolding seri_pack
  seri_pack-all_bytes vs fit =
      let (b, run, h) = wb_init-Holds fresh size in
      let (b', run', h') = pack_from-Writes fresh size vs fit b (to_bytes 4 0) h in
      let (chain, junk, run'', full, bytes) =
        wb_close-Holds fresh size b' (to_bytes 4 0) (all_bytes vs) (length-to_bytes 4 0) h' in
      (chain, junk, rw (run, run') run'', full, bytes)

  -- For any content of fresh blocks and any list of values that fit (at most 32 levels of tables,
  -- 64-bit numbers, lengths that fit an int, no unsupported type, no nil key) with less than 2^31
  -- bytes in all, packing them and unpacking the chain ends well and gives the same values.
  pub seri_unpack-seri_pack :
      (vs : List LuaValue)
      → AllFit vs
      → 4 + length (all_bytes vs) < 2 ^ 31
      → (seri_pack fresh vs >>= λ chain. seri_unpack (some chain)) ≡ ok vs
  unfolding seri_unpack
  seri_unpack-seri_pack vs fit small =
      let (chain, junk, run, full, bytes) = seri_pack-all_bytes vs fit in
      let (rb, init, l) = rb_init-Left chain (all_bytes vs) junk full (omega arith) bytes in
      let (rb', read) =
        unpack_all-all_bytes vs (4 * rb.len + 4) rb fit (omega (arith, l.counted)) l in
      rw (run, init, read)
