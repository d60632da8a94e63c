-- ===== src/Serial/Packed.antt =====
-- The writers of src/ltask/serialize.c write the format of Serial/Format.
use grt.Base.{
  ℕ, suc, ◌+◌, ◌*◌, ◌^◌, ◌<◌, ◌≤◌, ◌≡◌, refl, sym, List, [], ◌∷◌, ◌++◌, append-nil, append_assoc,
  Bool, true, false, ltb, leb, ◌==◌, not, if◌then◌else◌, arith, length, subst,
}
use grt.Base.Run.{Run, ok, raised, ◌>>=◌}
use grt.Serial.Bytes.{Byte, to_bytes}
use grt.Serial.Blocks.{Block, WriteBlock, wb_push}
use grt.Serial.Value.{
  LuaValue, Values, Pairs, nil, boolean, integer, real, userdata, str, table, other, no_values,
  value, no_pairs, pair, rawlen,
}
use grt.Serial.Pack.{
  Writer, wb_nil, wb_boolean, wb_integer, wb_real, wb_pointer, wb_string, wb_array_size, pack_one,
  pack_array, pack_visited, pack_hash, pack_from, skips, sign_extend,
}
use grt.Serial.Format.{
  head, integer_bytes, string_bytes, size_bytes, bytes_of, values_bytes, pairs_bytes, Fits,
  FitValues, FitPairs, AllFit, all_bytes,
}
use grt.Serial.Written.{Holds, wb_push-Kept}

-- The run ends well, with `bs` behind what the blocks held.
abbrev pub Wrote : List Byte → List Byte → Run WriteBlock → Type 0
Wrote pre bs r = (b' : WriteBlock) × (r ≡ ok b') × Holds b' (pre ++ bs)

-- The writer appends `bs` to any blocks.
abbrev pub Writes : Writer → List Byte → Type 0
Writes w bs = (b : WriteBlock) (pre : List Byte) → Holds b pre → Wrote pre bs (w b)

pub Writes-nothing : Writes (λ b. ok b) []
Writes-nothing b pre h = (b, refl, subst (Holds b) (sym (append-nil pre)) h)

pub Writes-then :
    {v w : Writer} {bs cs : List Byte}
    → Writes v bs
    → Writes w cs
    → Writes (λ b. v b >>= w) (bs ++ cs)
Writes-then {v} {w} {bs} {cs} p q b pre h =
    let (b1, run1, h1) = p b pre h in
    let (b2, run2, h2) = q b1 (pre ++ bs) h1 in
    (b2, rw run1 run2, subst (Holds b2) (append_assoc pre bs cs) h2)

-- The same writer by another name.
pub Writes-if :
    {v w : Writer} {bs cs : List Byte} (t : Bool)
    → (t ≡ true → Writes v bs)
    → (t ≡ false → Writes w cs)
    → Writes (λ b. if t then v b else w b) (if t then bs else cs)
Writes-if true p q = p refl
Writes-if false p q = q refl

module _ (fresh : Block) (size : length fresh ≡ 128) where
  Writes-push : (bs : List Byte) → Writes (λ b. wb_push fresh b bs) bs
  Writes-push bs b pre h = wb_push-Kept fresh size b pre bs h

  Writes-tagged :
      (n k v : ℕ)
      → Writes
          (λ b. wb_push fresh b (to_bytes 1 n) >>= λ b'. wb_push fresh b' (to_bytes k v))
          (to_bytes 1 n ++ to_bytes k v)
  Writes-tagged n k v = Writes-then (Writes-push (to_bytes 1 n)) (Writes-push (to_bytes k v))

  pub wb_integer-Writes : (v : ℕ) → Writes (λ b. wb_integer fresh b v) (integer_bytes v)
  unfolding wb_integer integer_bytes
  wb_integer-Writes v =
      Writes-if (v == 0) (λ _. Writes-push (head 2 0))
        λ _.
          Writes-if (not (v == sign_extend v)) (λ _. Writes-tagged (2 + 6 * 8) 8 v)
            λ _.
              Writes-if (leb (2 ^ 63) v) (λ _. Writes-tagged (2 + 4 * 8) 4 v)
                λ _.
                  Writes-if (ltb v 0x100) (λ _. Writes-tagged (2 + 1 * 8) 1 v)
                    λ _.
                      Writes-if (ltb v 0x10000) (λ _. Writes-tagged (2 + 2 * 8) 2 v)
                        λ _. Writes-tagged (2 + 4 * 8) 4 v

  -- An empty string has no bytes to push.
  Writes-chars :
      (s : List Byte) → Writes (λ b. if ltb 0 (length s) then wb_push fresh b s else ok b) s
  Writes-chars [] = Writes-nothing
  Writes-chars (c ∷ s) =
      let e : ltb 0 (suc (length s)) ≡ true = ground arith in
      subst (λ t. Writes (λ b. if t then wb_push fresh b (c ∷ s) else ok b) (c ∷ s)) (sym e)
        (Writes-push (c ∷ s))

  pub wb_string-Writes : (s : List Byte) → Writes (λ b. wb_string fresh b s) (string_bytes s)
  unfolding wb_string string_bytes
  wb_string-Writes s =
      Writes-if (ltb (length s) 32)
        (λ _. Writes-then (Writes-push (head 4 (length s))) (Writes-chars s))
        λ _.
          Writes-if (ltb (length s) 0x10000)
            (λ _. Writes-then (Writes-tagged (5 + 2 * 8) 2 (length s)) (Writes-push s))
            λ _. Writes-then (Writes-tagged (5 + 4 * 8) 4 (length s)) (Writes-push s)

  pub wb_array_size-Writes : (n : ℕ) → Writes (λ b. wb_array_size fresh b n) (size_bytes n)
  unfolding wb_array_size size_bytes
  wb_array_size-Writes n =
      Writes-if (leb 31 n) (λ _. Writes-then (Writes-push (head 6 31)) (wb_integer-Writes n))
        λ _. Writes-push (head 6 n)

  -- A value that is not too deep is written as its own writer does.
  not_deep :
      {w : Writer} {bs : List Byte} (d : ℕ)
      → d ≤ 32
      → Writes w bs
      → Writes (λ b. if ltb 32 d then raised else w b) bs
  not_deep {w} {bs} d h p =
      let e : ltb 32 d ≡ false = ground arith in
      subst (λ t. Writes (λ b. if t then raised else w b) bs) (sym e) p

  -- lua_next meets only keys of the array part, which are left out.
  pack_visited-skips :
      (vs : Values) (i n d : ℕ) (b : WriteBlock)
      → 0 < i
      → i + rawlen vs ≤ suc n
      → n < 2 ^ 31
      → pack_visited fresh vs i n d b ≡ ok b
  unfolding pack_one
  pack_visited-skips no_values i n d b p q r = refl
  pack_visited-skips (value v vs) i n d b p q r =
      let e : skips n (integer i) ≡ true = ground arith in
      rw e (pack_visited-skips vs (suc i) n d b (omega arith) (omega arith) r)

  mutual
    unfolding pack_one bytes_of wb_nil wb_boolean wb_real wb_pointer

    pack_one-Writes : (v : LuaValue) (d : ℕ) → Fits v d → Writes (pack_one fresh v d) (bytes_of v)
    pack_one-Writes nil d f = not_deep d f (Writes-push (head 0 0))
    pack_one-Writes (boolean t) d f = not_deep d f (Writes-push (head 1 (if t then 1 else 0)))
    pack_one-Writes (integer v) d f = not_deep d f.0 (wb_integer-Writes v)
    pack_one-Writes (real v) d f = not_deep d f.0 (Writes-tagged (2 + 8 * 8) 8 v)
    pack_one-Writes (userdata p) d f = not_deep d f.0 (Writes-tagged 3 8 p)
    pack_one-Writes (str s) d f = not_deep d f.0 (wb_string-Writes s)
    pack_one-Writes (table vs ps) d f = not_deep d f.0 (
        Writes-then (wb_array_size-Writes (rawlen vs)) (
          Writes-then (pack_array-Writes vs (suc d) f.2) (λ b pre h.
            rw (pack_visited-skips vs 1 (rawlen vs) (suc d) b (omega arith) (omega arith) f.1) (
              Writes-then (pack_hash-Writes ps (rawlen vs) (suc d) f.3) (Writes-push (head 0 0)) b
                pre h))))
    pack_one-Writes other d f = absurd f

    pack_array-Writes :
        (vs : Values) (d : ℕ) → FitValues vs d → Writes (pack_array fresh vs d) (values_bytes vs)
    pack_array-Writes no_values d f = Writes-nothing
    pack_array-Writes (value v vs) d f =
        Writes-then (pack_one-Writes v d f.0) (pack_array-Writes vs d f.1)

    pack_hash-Writes :
        (ps : Pairs) (n d : ℕ) → FitPairs ps n d → Writes (pack_hash fresh ps n d) (pairs_bytes ps)
    pack_hash-Writes no_pairs n d f = Writes-nothing
    pack_hash-Writes (pair k v ps) n d f = λ b pre h. rw f.1 (
        Writes-then (pack_one-Writes k d f.2)
          (Writes-then (pack_one-Writes v d f.3) (pack_hash-Writes ps n d f.4)) b pre h)

  -- The arguments of a call, one after the other.
  pub pack_from-Writes :
      (vs : List LuaValue) → AllFit vs → Writes (pack_from fresh vs) (all_bytes vs)
  unfolding pack_from all_bytes
  pack_from-Writes [] f = Writes-nothing
  pack_from-Writes (v ∷ vs) f = Writes-then (pack_one-Writes v 0 f.0) (pack_from-Writes vs f.1)
