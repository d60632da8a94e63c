-- ===== src/Serial/Nested.antt =====
-- Reading nested tables of src/ltask/serialize.c back, and the fuel that this takes.
use grt.Base.{
  ℕ, zero, suc, ◌+◌, ◌<◌, ◌≤◌, ◌≡◌, sym, ap, ◌∙◌, ◌++◌, append_assoc, false, if◌then◌else◌, arith,
  subst, some,
}
use grt.Base.Run.{ok, ◌>>=◌}
use grt.Serial.Value.{
  LuaValue, Values, Pairs, nil, boolean, integer, real, userdata, str, table, other, no_values,
  value, no_pairs, pair, rawlen,
}
use grt.Serial.Unpack.{push_value, unpack_one, unpack_array, unpack_pairs, is_nil}
use grt.Serial.Format.{head, bytes_of, values_bytes, pairs_bytes, Fits, FitValues, FitPairs}
use grt.Serial.Consumed.{Left}
use grt.Serial.Scalars.{
  Reads, Reads-nothing, Reads-then, Reads-map, head-Reads, head_parts, size_code,
}
use grt.Serial.Unpacked.{
  Code, Scalar, string_code, nil_code, boolean_code, number_code, real_code, pointer_code,
}

-- The fuel that reading a value back takes.
unfoldable mutual
  pub weight : LuaValue → ℕ
  weight nil = 1
  weight (boolean b) = 1
  weight (integer v) = 1
  weight (real v) = 1
  weight (userdata p) = 1
  weight (str s) = 1
  weight (table vs ps) = 1 + (values_weight vs + pairs_weight ps)
  weight other = 1

  pub values_weight : Values → ℕ
  values_weight no_values = 1
  values_weight (value v vs) = 1 + (1 + weight v) + values_weight vs

  pub pairs_weight : Pairs → ℕ
  pairs_weight no_pairs = 3
  pairs_weight (pair k v ps) = 1 + (1 + weight k) + (1 + weight v) + pairs_weight ps

weight_pos : (v : LuaValue) → 0 < weight v
unfolding weight
weight_pos (table vs ps) = omega arith
weight_pos nil = omega arith
weight_pos (boolean b) = omega arith
weight_pos (integer v) = omega arith
weight_pos (real v) = omega arith
weight_pos (userdata p) = omega arith
weight_pos (str s) = omega arith
weight_pos other = omega arith

-- A scalar needs one unit.
Scalar-read : {v : LuaValue} → Scalar v → (f : ℕ) → 1 ≤ f → Code (push_value f) v
unfolding push_value
Scalar-read s zero h = elim h [ ]
Scalar-read s (suc f) h =
    let c = s.code in
    record {
      type = c.type;
      cookie = c.cookie;
      rest = c.rest;
      type_in = c.type_in;
      cookie_in = c.cookie_in;
      coded = c.coded;
      reads =
          λ rb more l. let (rb', run, l') = c.reads rb more l in (rb', rw (s.no_table, run), l');
    }

-- A value with its first byte.
Code-one :
    (f : ℕ) (v : LuaValue) → Code (push_value f) v → Reads (unpack_one (suc f)) (bytes_of v) v
unfolding push_value
Code-one f v c rb more l =
    let (rb1, run1, l1) = head-Reads c.type c.cookie rb (c.rest ++ more) (
      subst (Left rb) (append_assoc (head c.type c.cookie) c.rest more)
        (subst (λ t. Left rb (t ++ more)) c.coded l)) in
    let (rb2, run2, l2) = c.reads rb1 more l1 in
    let (is_type, is_cookie) = head_parts c.type c.cookie c.type_in c.cookie_in in
    (rb2, rw (run1, is_type, is_cookie, run2), l2)

-- A pair of a table, from its parts.
pair-Reads :
    (f : ℕ) (k v : LuaValue) (ps : Pairs)
    → is_nil k ≡ false
    → Reads (unpack_one (suc f)) (bytes_of k) k
    → Reads (unpack_one (suc f)) (bytes_of v) v
    → Reads (unpack_pairs (suc f)) (pairs_bytes ps ++ head 0 0) ps
    → Reads
        (unpack_pairs (suc (suc f)))
        (bytes_of k ++ (bytes_of v ++ (pairs_bytes ps ++ head 0 0)))
        (pair k v ps)
unfolding push_value
pair-Reads f k v ps key read_k read_v read_ps =
    Reads-then
      (λ (x, rb').
        let more = unpack_one (suc f) rb' >>= λ (y, rb'').
        unpack_pairs (suc f) rb'' >>= λ (ys, rb3). ok (pair x y ys, rb3) in
        if is_nil x then ok (no_pairs, rb') else more)
      (bytes_of k) (bytes_of v ++ (pairs_bytes ps ++ head 0 0)) read_k
      (λ rb more l. let (rb', run, l') = behind rb more l in (rb', rw key run, l'))
  where
    behind :
        Reads
          (λ rb'. unpack_one (suc f) rb' >>= λ (y, rb'').
            unpack_pairs (suc f) rb'' >>= λ (ys, rb3). ok (pair k y ys, rb3))
          (bytes_of v ++ (pairs_bytes ps ++ head 0 0))
          (pair k v ps)
    behind =
        Reads-then (λ (y, rb''). unpack_pairs (suc f) rb'' >>= λ (ys, rb3). ok (pair k y ys, rb3))
          (bytes_of v) (pairs_bytes ps ++ head 0 0) read_v
          (Reads-map (pairs_bytes ps ++ head 0 0) (pair k v) read_ps)

mutual
  unfolding push_value weight bytes_of

  pub read_value : (v : LuaValue) (d f : ℕ) → Fits v d → weight v ≤ f → Code (push_value f) v
  read_value nil d f fit h = Scalar-read nil_code f h
  read_value (boolean b) d f fit h = Scalar-read (boolean_code b) f h
  read_value (integer v) d f fit h = Scalar-read (number_code v fit.1) f h
  read_value (real v) d f fit h = Scalar-read (real_code v fit.1) f h
  read_value (userdata p) d f fit h = Scalar-read (pointer_code p fit.1) f h
  read_value (str s) d f fit h = Scalar-read (string_code s fit.1) f h
  read_value other d f fit h = absurd fit
  read_value (table vs ps) d zero fit h = absurd (omega arith)
  read_value (table vs ps) d (suc f) fit h =
      let size = size_code (rawlen vs) fit.1 in
      record {
        type = 6;
        cookie = size.cookie;
        rest = size.rest ++ (values_bytes vs ++ (pairs_bytes ps ++ head 0 0));
        type_in = omega arith;
        cookie_in = size.cookie_in;
        coded =
            ap (λ t. t ++ (values_bytes vs ++ (pairs_bytes ps ++ head 0 0))) size.coded
            ∙ append_assoc (head 6 size.cookie) size.rest
                (values_bytes vs ++ (pairs_bytes ps ++ head 0 0));
        reads =
            Reads-then
              (λ (n, sized). unpack_array f n sized >>= λ (xs, filled).
                unpack_pairs f filled >>= λ (ys, left). ok (some (table xs ys), left))
              size.rest (values_bytes vs ++ (pairs_bytes ps ++ head 0 0)) size.reads
              (Reads-then
                (λ (xs, filled).
                  unpack_pairs f filled >>= λ (ys, left). ok (some (table xs ys), left))
                (values_bytes vs) (pairs_bytes ps ++ head 0 0)
                (read_values vs (suc d) f fit.2 (omega arith))
                (Reads-map (pairs_bytes ps ++ head 0 0) (λ ys. some (table vs ys))
                  (read_pairs ps (rawlen vs) (suc d) f fit.3 (omega arith))));
      }

  pub read_values :
      (vs : Values) (d f : ℕ)
      → FitValues vs d
      → values_weight vs ≤ f
      → Reads (unpack_array f (rawlen vs)) (values_bytes vs) vs
  read_values no_values d zero fit h = absurd (omega arith)
  read_values no_values d (suc f) fit h = Reads-nothing no_values
  read_values (value v vs) d zero fit h = absurd (omega arith)
  read_values (value v vs) d (suc zero) fit h = absurd (omega (arith, weight_pos v))
  read_values (value v vs) d (suc (suc f)) fit h =
      Reads-then
        (λ (x, rb'). unpack_array (suc f) (rawlen vs) rb' >>= λ (xs, rb''). ok (value x xs, rb''))
        (bytes_of v) (values_bytes vs) (Code-one f v (read_value v d f fit.0 (omega arith)))
        (Reads-map (values_bytes vs) (value v)
          (read_values vs d (suc f) fit.1 (omega (arith, weight_pos v))))

  pub read_pairs :
      (ps : Pairs) (n d f : ℕ)
      → FitPairs ps n d
      → pairs_weight ps ≤ f
      → Reads (unpack_pairs f) (pairs_bytes ps ++ head 0 0) ps
  read_pairs no_pairs n d zero fit h = absurd (omega arith)
  read_pairs no_pairs n d (suc zero) fit h = absurd (omega arith)
  read_pairs no_pairs n d (suc (suc f)) fit h = λ rb more l.
      let (rb', run, l') = Code-one f nil (Scalar-read nil_code f (omega arith)) rb more l in
      (rb', rw run, l')
  read_pairs (pair k v ps) n d zero fit h = absurd (omega arith)
  read_pairs (pair k v ps) n d (suc zero) fit h = absurd (omega (arith, weight_pos v))
  read_pairs (pair k v ps) n d (suc (suc f)) fit h =
      subst (λ t. Reads (unpack_pairs (suc (suc f))) t (pair k v ps))
        (sym (
          append_assoc (bytes_of k) (bytes_of v ++ pairs_bytes ps) (head 0 0)
          ∙ ap (λ t. bytes_of k ++ t) (append_assoc (bytes_of v) (pairs_bytes ps) (head 0 0))))
        (pair-Reads f k v ps fit.0 (Code-one f k (read_value k d f fit.2 (omega arith)))
          (Code-one f v (read_value v d f fit.3 (omega arith)))
          (read_pairs ps n d (suc f) fit.4 (omega (arith, weight_pos k))))
