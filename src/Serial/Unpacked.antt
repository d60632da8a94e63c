-- ===== src/Serial/Unpacked.antt =====
-- Reading a value of src/ltask/serialize.c back from its bytes.
use grt.Base.{
  ℕ, ◌^◌, ◌<◌, ◌≡◌, refl, sym, List, [], ◌++◌, append-nil, append_assoc, Bool, Bool-cases, inl, inr,
  true, false, ltb, ◌==◌, arith, length, Option, some,
}
use grt.Base.Run.{Run}
use grt.Serial.Bytes.{Byte, to_bytes}
use grt.Serial.Blocks.{ReadBlock}
use grt.Serial.Value.{LuaValue, nil, boolean, integer, real, userdata, str}
use grt.Serial.Unpack.{push_scalar, get_real, get_pointer}
use grt.Serial.Format.{head, string_bytes, bytes_of}
use grt.Serial.Scalars.{
  Reads, Reads-nothing, Reads-map, read_number-Reads, integer_code, get_buffer-Reads,
  get_long_2-Reads, get_long_4-Reads,
}

-- The type and cookie of a value's first byte, and what the reader makes of the bytes behind it.
pub record Code (read : ReadBlock → ℕ → ℕ → Run (Option LuaValue × ReadBlock)) (v : LuaValue)
    : Type 0 where
  pub type : ℕ
  pub cookie : ℕ
  pub rest : List Byte
  pub type_in : type < 8
  pub cookie_in : cookie < 32
  pub coded : bytes_of v ≡ head type cookie ++ rest
  pub reads : Reads (λ rb. read rb type cookie) rest (some v)

-- A value that holds no other.
pub record Scalar (v : LuaValue) : Type 0 where
  pub code : Code push_scalar v
  pub no_table : (code.type == 6) ≡ false

pub string_code : (s : List Byte) → length s < 2 ^ 31 → Scalar (str s)
unfolding bytes_of string_bytes push_scalar
string_code s h = elim (Bool-cases (ltb (length s) 32)) [
  | inl e ↦ record {
    code = record {
      type = 4;
      cookie = length s;
      rest = s;
      type_in = omega arith;
      cookie_in = ground (arith, e);
      coded = rw e;
      reads = Reads-map s some (get_buffer-Reads s);
    };
    no_table = refl;
  }
  | inr e ↦ elim (Bool-cases (ltb (length s) 0x10000)) [
    | inl e' ↦ record {
      code = record {
        type = 5;
        cookie = 2;
        rest = to_bytes 2 (length s) ++ s;
        type_in = omega arith;
        cookie_in = omega arith;
        coded = rw (e, e') (append_assoc (head 5 2) (to_bytes 2 (length s)) s);
        reads =
            Reads-map (to_bytes 2 (length s) ++ s) some (get_long_2-Reads s (ground (arith, e')));
      };
      no_table = refl;
    }
    | inr e' ↦ record {
      code = record {
        type = 5;
        cookie = 4;
        rest = to_bytes 4 (length s) ++ s;
        type_in = omega arith;
        cookie_in = omega arith;
        coded = rw (e, e') (append_assoc (head 5 4) (to_bytes 4 (length s)) s);
        reads = Reads-map (to_bytes 4 (length s) ++ s) some (get_long_4-Reads s h);
      };
      no_table = refl;
    }
  ]
]

pub nil_code : Scalar nil
unfolding bytes_of push_scalar
nil_code = record {
  code = record {
    type = 0;
    cookie = 0;
    rest = [];
    type_in = omega arith;
    cookie_in = omega arith;
    coded = sym (append-nil (head 0 0));
    reads = Reads-nothing (some nil);
  };
  no_table = refl;
}

pub boolean_code : (b : Bool) → Scalar (boolean b)
unfolding bytes_of push_scalar
boolean_code true = record {
  code = record {
    type = 1;
    cookie = 1;
    rest = [];
    type_in = omega arith;
    cookie_in = omega arith;
    coded = sym (append-nil (head 1 1));
    reads = Reads-nothing (some (boolean true));
  };
  no_table = refl;
}
boolean_code false = record {
  code = record {
    type = 1;
    cookie = 0;
    rest = [];
    type_in = omega arith;
    cookie_in = omega arith;
    coded = sym (append-nil (head 1 0));
    reads = Reads-nothing (some (boolean false));
  };
  no_table = refl;
}

pub number_code : (v : ℕ) → v < 2 ^ 64 → Scalar (integer v)
unfolding bytes_of push_scalar
number_code v h =
    let code = integer_code v h in
    let plain : (code.cookie == 8) ≡ false = ground (arith, code.cookie_in) in
    record {
      code = record {
        type = 2;
        cookie = code.cookie;
        rest = code.rest;
        type_in = omega arith;
        cookie_in = omega (arith, code.cookie_in);
        coded = code.coded;
        reads =
            λ rb more l. let (rb', run, l') = code.reads rb more l in (rb', rw (plain, run), l');
      };
      no_table = refl;
    }

pub real_code : (v : ℕ) → v < 2 ^ 64 → Scalar (real v)
unfolding bytes_of push_scalar get_real
real_code v h = record {
  code = record {
    type = 2;
    cookie = 8;
    rest = to_bytes 8 v;
    type_in = omega arith;
    cookie_in = omega arith;
    coded = refl;
    reads = Reads-map (to_bytes 8 v) (λ x. some (real x)) (read_number-Reads 8 v h);
  };
  no_table = refl;
}

pub pointer_code : (p : ℕ) → p < 2 ^ 64 → Scalar (userdata p)
unfolding bytes_of push_scalar get_pointer
pointer_code p h = record {
  code = record {
    type = 3;
    cookie = 0;
    rest = to_bytes 8 p;
    type_in = omega arith;
    cookie_in = omega arith;
    coded = refl;
    reads = Reads-map (to_bytes 8 p) (λ x. some (userdata x)) (read_number-Reads 8 p h);
  };
  no_table = refl;
}
