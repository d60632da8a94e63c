-- ===== src/Serial/Format.antt =====
-- The byte format of src/ltask/serialize.c, as a function of the value, and the values it is for.
use grt.Base.{
  ℕ, suc, ◌^◌, ◌<◌, ◌≤◌, ◌≡◌, false, not, List, [], ◌∷◌, ◌++◌, ltb, leb, ◌==◌, if◌then◌else◌,
  length,
}
use grt.Serial.Bytes.{Byte, to_bytes}
use grt.Serial.Value.{
  LuaValue, Values, Pairs, nil, boolean, integer, real, userdata, str, table, other, no_values,
  value, no_pairs, pair, rawlen,
}
use grt.Serial.Pack.{combine_type, sign_extend, skips}
use grt.Serial.Unpack.{is_nil}

-- A first byte of type `t` and cookie `c`.
abbrev pub head : ℕ → ℕ → List Byte
head t c = to_bytes 1 (combine_type t c)

unfoldable pub integer_bytes : ℕ → List Byte
integer_bytes v =
    if v == 0
    then head 2 0
    else if not (v == sign_extend v)
    then head 2 6 ++ to_bytes 8 v
    else if leb (2 ^ 63) v
    then head 2 4 ++ to_bytes 4 v
    else if ltb v 0x100
    then head 2 1 ++ to_bytes 1 v
    else if ltb v 0x10000
    then head 2 2 ++ to_bytes 2 v
    else head 2 4 ++ to_bytes 4 v

unfoldable pub string_bytes : List Byte → List Byte
string_bytes s =
    if ltb (length s) 32
    then head 4 (length s) ++ s
    else if ltb (length s) 0x10000
    then (head 5 2 ++ to_bytes 2 (length s)) ++ s
    else (head 5 4 ++ to_bytes 4 (length s)) ++ s

unfoldable pub size_bytes : ℕ → List Byte
unfolding integer_bytes
size_bytes n = if leb 31 n then head 6 31 ++ integer_bytes n else head 6 n

unfoldable mutual
  pub bytes_of : LuaValue → List Byte
  bytes_of nil = head 0 0
  bytes_of (boolean b) = head 1 (if b then 1 else 0)
  bytes_of (integer v) = integer_bytes v
  bytes_of (real v) = head 2 8 ++ to_bytes 8 v
  bytes_of (userdata p) = head 3 0 ++ to_bytes 8 p
  bytes_of (str s) = string_bytes s
  bytes_of (table vs ps) =
      size_bytes (rawlen vs) ++ (values_bytes vs ++ (pairs_bytes ps ++ head 0 0))
  bytes_of other = []

  pub values_bytes : Values → List Byte
  values_bytes no_values = []
  values_bytes (value v vs) = bytes_of v ++ values_bytes vs

  pub pairs_bytes : Pairs → List Byte
  pairs_bytes no_pairs = []
  pairs_bytes (pair k v ps) = bytes_of k ++ (bytes_of v ++ pairs_bytes ps)

-- The value stands at depth `d`, at most 32; its numbers fit 64 bits and its lengths an `int`; no key
-- of a table is nil or one of the array part; nothing in it is a function, thread or full userdata.
abbrev mutual
  pub Fits : LuaValue → ℕ → Type 0
  Fits nil d = d ≤ 32
  Fits (boolean b) d = d ≤ 32
  Fits (integer v) d = (d ≤ 32) × (v < 2 ^ 64)
  Fits (real v) d = (d ≤ 32) × (v < 2 ^ 64)
  Fits (userdata p) d = (d ≤ 32) × (p < 2 ^ 64)
  Fits (str s) d = (d ≤ 32) × (length s < 2 ^ 31)
  Fits (table vs ps) d =
      (d ≤ 32) × (rawlen vs < 2 ^ 31) × FitValues vs (suc d) × FitPairs ps (rawlen vs) (suc d)
  Fits other d = ⊥

  pub FitValues : Values → ℕ → Type 0
  FitValues no_values d = Unit
  FitValues (value v vs) d = Fits v d × FitValues vs d

  pub FitPairs : Pairs → ℕ → ℕ → Type 0
  FitPairs no_pairs n d = Unit
  FitPairs (pair k v ps) n d =
      (is_nil k ≡ false) × (skips n k ≡ false) × Fits k d × Fits v d × FitPairs ps n d

-- Every argument of a call fits, at depth 0.
abbrev pub AllFit : List LuaValue → Type 0
AllFit [] = Unit
AllFit (v ∷ vs) = Fits v 0 × AllFit vs

unfoldable pub all_bytes : List LuaValue → List Byte
all_bytes [] = []
all_bytes (v ∷ vs) = bytes_of v ++ all_bytes vs
