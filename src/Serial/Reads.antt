-- ===== src/Serial/Reads.antt =====
-- What the readers of src/ltask/serialize.c take of a block of any bytes: they end, with no more bytes
-- left than there were.
use grt.Base.{
  ℕ, zero, suc, ◌+◌, ◌-◌, ◌/◌, ◌%◌, ◌^◌, ◌≤◌, ◌≡◌, refl, List, [], ◌∷◌, Option, none, some, Bool,
  true, false, Bool-cases, inl, inr, ltb, leb, ◌==◌, not, ◌||◌, if◌then◌else◌, arith,
}
use grt.Base.Run.{Run, ok, aborted, wild, raised, spent, ◌>>=◌}
use grt.Serial.Bytes.{Byte, of_bytes}
use grt.Serial.Blocks.{Block, ReadBlock, rb_read, read_loop, read_here, tail_of, slice}
use grt.Serial.Value.{LuaValue, nil, boolean, str}
use grt.Serial.Pack.{
  type_nil, type_boolean, type_number, type_userdata, type_short_string, type_long_string,
  max_cookie, number_real, number_zero, number_byte, number_word, number_dword, number_qword,
}
use grt.Serial.Unpack.{
  must, read_number, get_integer, get_real, get_pointer, get_buffer, get_long, get_array_size,
  push_scalar,
}

abbrev pub Ran {ℓ} : {A : Type ℓ} → Run A → Type 0
Ran spent = ⊥
Ran r = Unit {0}

-- The run ends, and a result has at least `k` bytes fewer left than `n`.
abbrev pub Ends : {A : Type 0} → ℕ → ℕ → Run (A × ReadBlock) → Type 0
Ends k n (ok (v, rb)) = rb.len + k ≤ n
Ends k n spent = ⊥
Ends k n r = Unit {0}

pub Ends-bind :
    {A B : Type 0} (k j n : ℕ) (r : Run (A × ReadBlock)) (f : A × ReadBlock → Run (B × ReadBlock))
    → Ends k n r
    → ((v : A) (rb : ReadBlock) → rb.len + k ≤ n → Ends j n (f (v, rb)))
    → Ends j n (r >>= f)
Ends-bind k j n (ok (v, rb)) f e h = h v rb e
Ends-bind k j n aborted f e h = tt
Ends-bind k j n wild f e h = tt
Ends-bind k j n raised f e h = tt
Ends-bind k j n spent f e h = e

pub Ends-less :
    {A : Type 0} (k j n m : ℕ) (r : Run (A × ReadBlock)) → Ends k n r → j + n ≤ k + m → Ends j m r
Ends-less k j n m (ok (v, rb)) e h = omega (arith, e, h)
Ends-less k j n m aborted e h = tt
Ends-less k j n m wild e h = tt
Ends-less k j n m raised e h = tt
Ends-less k j n m spent e h = e

pub Ends-if :
    {A : Type 0} (k n : ℕ) (c : Bool) (r q : Run (A × ReadBlock))
    → Ends k n r
    → Ends k n q
    → Ends k n (if c then r else q)
Ends-if k n true r q e h = e
Ends-if k n false r q e h = h

plain : {A : Type 0} (a : A) (rb : ReadBlock) → Ends 0 rb.len (ok (a, rb))
plain a rb = omega arith

Ran-bind :
    {A B : Type 0} (r : Run A) (f : A → Run B) → Ran r → ((a : A) → Ran (f a)) → Ran (r >>= f)
Ran-bind (ok a) f e h = h a
Ran-bind aborted f e h = tt
Ran-bind wild f e h = tt
Ran-bind raised f e h = tt
Ran-bind spent f e h = e

read_loop-Ran : (bs : List Block) (sz : ℕ) → Ran (read_loop bs sz)
unfolding read_loop
read_loop-Ran [] zero = tt
read_loop-Ran [] (suc sz) = tt
read_loop-Ran (b ∷ rest) sz = elim (Bool-cases (ltb sz 128)) [
  | inl e ↦ rw e tt
  | inr e ↦ rw e (Ran-bind (read_loop rest (sz - 128)) _ (read_loop-Ran rest (sz - 128)) (λ x. tt))
]

read_here-Ran : (bs : List Block) (ptr sz : ℕ) → Ran (read_here bs ptr sz)
unfolding read_here
read_here-Ran [] ptr zero = tt
read_here-Ran [] ptr (suc sz) = tt
read_here-Ran (b ∷ rest) ptr sz = elim (Bool-cases (leb sz (128 - ptr))) [
  | inl e ↦ rw e tt
  | inr e ↦ rw e (
      Ran-bind (read_loop rest (sz - (128 - ptr))) _ (read_loop-Ran rest (sz - (128 - ptr)))
        (λ x. tt))
]

-- A read takes as many bytes as it was asked for, or none.
abbrev pub Reads : ℕ → ℕ → Run (Option (List Byte) × ReadBlock) → Type 0
Reads sz n (ok (some bs, rb)) = rb.len + sz ≡ n
Reads sz n (ok (none, rb)) = rb.len ≡ n
Reads sz n spent = ⊥
Reads sz n r = Unit {0}

fetched :
    (rb : ReadBlock) (sz : ℕ) (buffer : Option (List Byte))
    → sz ≤ rb.len
    → (r : Run (List Byte × List Block × ℕ)) → Ran r
    → Reads sz rb.len (elim buffer [
      | some all ↦
          ok (some (slice all rb.ptr sz), record rb { ptr = rb.ptr + sz; len = rb.len - sz })
      | none ↦ r >>= λ (bs, left, at).
          ok (some bs, record rb { chain = left; ptr = at; len = rb.len - sz })
    ])
fetched rb sz (some all) h r e = omega (arith, h)
fetched rb sz none h (ok x) e = omega (arith, h)
fetched rb sz none h aborted e = tt
fetched rb sz none h wild e = tt
fetched rb sz none h raised e = tt
fetched rb sz none h spent e = e

pub rb_read-Reads : (rb : ReadBlock) (sz : ℕ) → Reads sz rb.len (rb_read rb sz)
unfolding rb_read
rb_read-Reads rb sz = elim (Bool-cases (ltb rb.len sz)) [
  | inl e ↦ rw e refl
  | inr e ↦ rw e (fetched rb sz rb.buffer (ground arith) _ here)
]
  where
    here :
        Ran (
          if rb.ptr == 128 then read_here (tail_of rb.chain) 0 sz else read_here rb.chain rb.ptr sz)
    here = elim (Bool-cases (rb.ptr == 128)) [
      | inl e ↦ rw e (read_here-Ran (tail_of rb.chain) 0 sz)
      | inr e ↦ rw e (read_here-Ran rb.chain rb.ptr sz)
    ]

must-Ends :
    (sz n : ℕ) (r : Run (Option (List Byte) × ReadBlock)) → Reads sz n r → Ends sz n (r >>= must)
must-Ends sz n (ok (some bs, rb)) e = omega (arith, e)
must-Ends sz n (ok (none, rb)) e = tt
must-Ends sz n aborted e = tt
must-Ends sz n wild e = tt
must-Ends sz n raised e = tt
must-Ends sz n spent e = e

pub read-Ends : (rb : ReadBlock) (sz : ℕ) → Ends sz rb.len (rb_read rb sz >>= must)
read-Ends rb sz = must-Ends sz rb.len (rb_read rb sz) (rb_read-Reads rb sz)

read_number-Ends : (rb : ReadBlock) (k : ℕ) → Ends 0 rb.len (read_number rb k)
unfolding read_number
read_number-Ends rb k =
    Ends-bind k 0 rb.len (rb_read rb k >>= must) _ (read-Ends rb k) (λ v rb' h. omega (arith, h))

number-Ends :
    {A : Type 0} (rb : ReadBlock) (k : ℕ) (f : ℕ → A)
    → Ends 0 rb.len (read_number rb k >>= λ (n, rb'). ok (f n, rb'))
number-Ends rb k f =
    Ends-bind 0 0 rb.len (read_number rb k) _ (read_number-Ends rb k) (λ v rb' h. h)

get_integer-Ends : (rb : ReadBlock) (cookie : ℕ) → Ends 0 rb.len (get_integer rb cookie)
unfolding get_integer
get_integer-Ends rb cookie =
    let n = rb.len in
    let qword = Ends-if 0 n (cookie == number_qword) _ _ (read_number-Ends rb 8) tt in
    let dword = Ends-if 0 n (cookie == number_dword) _ _ (number-Ends rb 4 _) qword in
    let word = Ends-if 0 n (cookie == number_word) _ _ (read_number-Ends rb 2) dword in
    let byte = Ends-if 0 n (cookie == number_byte) _ _ (read_number-Ends rb 1) word in
    Ends-if 0 n (cookie == number_zero) _ _ (omega arith) byte

get_buffer-Ends : (rb : ReadBlock) (len : ℕ) → Ends 0 rb.len (get_buffer rb len)
unfolding get_buffer
get_buffer-Ends rb len = got (rb_read rb len) (rb_read-Reads rb len)
  where
    got :
        (r : Run (Option (List Byte) × ReadBlock))
        → Reads len rb.len r
        → Ends 0 rb.len (r >>= λ (o, rb'). elim o [ none ↦ wild | some bs ↦ ok (str bs, rb') ])
    got (ok (some bs, rb')) e = omega (arith, e)
    got (ok (none, rb')) e = tt
    got aborted e = tt
    got wild e = tt
    got raised e = tt
    got spent e = e

get_long-Ends : (rb : ReadBlock) (cookie : ℕ) → Ends 0 rb.len (get_long rb cookie)
unfolding get_long
get_long-Ends rb cookie =
    let n = rb.len in
    let bytes : (len : ℕ) (rb' : ReadBlock) → rb'.len + 0 ≤ n → Ends 0 n (get_buffer rb' len) =
      λ len rb' h. Ends-less 0 0 rb'.len n _ (get_buffer-Ends rb' len) (omega (arith, h)) in
    let word = Ends-bind 0 0 n (read_number rb 2) _ (read_number-Ends rb 2) bytes in
    let dword =
      Ends-bind 0 0 n (read_number rb 4) _ (read_number-Ends rb 4)
        (λ len rb' h. Ends-if 0 n (ltb len (2 ^ 31)) _ _ (bytes len rb' h) tt) in
    Ends-if 0 n (cookie == 2) _ _ word (Ends-if 0 n (cookie == 4) _ _ dword tt)

pub get_array_size-Ends : (rb : ReadBlock) (size : ℕ) → Ends 0 rb.len (get_array_size rb size)
unfolding get_array_size
get_array_size-Ends rb size =
    let n = rb.len in
    Ends-if 0 n (size == max_cookie - 1) _ _
      (Ends-bind 1 0 n (rb_read rb 1 >>= must) _ (read-Ends rb 1) (λ t rb' h.
        let type = of_bytes t in
        Ends-if 0 n (not (type % 8 == type_number) || (type / 8 == number_real)) _ _ tt (
          Ends-less 0 0 rb'.len n _
            (Ends-bind 0 0 rb'.len (get_integer rb' (type / 8)) _ (get_integer-Ends rb' (type / 8))
              (λ v rb'' h'. h'))
            (omega (arith, h)))))
      (omega arith)

pub push_scalar-Ends :
    (rb : ReadBlock) (type cookie : ℕ) → Ends 0 rb.len (push_scalar rb type cookie)
unfolding push_scalar get_real get_pointer
push_scalar-Ends rb type cookie =
    let n = rb.len in
    let none_read : Option LuaValue = none in
    let long =
      Ends-if 0 n (type == type_long_string) _ _
        (Ends-bind 0 0 n (get_long rb cookie) _ (get_long-Ends rb cookie) (λ v rb' h. h))
        (plain none_read rb) in
    let short =
      Ends-if 0 n (type == type_short_string) _ _
        (Ends-bind 0 0 n (get_buffer rb cookie) _ (get_buffer-Ends rb cookie) (λ v rb' h. h))
        long in
    let pointer = Ends-if 0 n (type == type_userdata) _ _ (number-Ends rb 8 _) short in
    let number =
      Ends-if 0 n (cookie == number_real) _ _ (number-Ends rb 8 _)
        (Ends-bind 0 0 n (get_integer rb cookie) _ (get_integer-Ends rb cookie) (λ v rb' h. h)) in
    Ends-if 0 n (type == type_nil) _ _ (plain (some nil) rb) (
      Ends-if 0 n (type == type_boolean) _ _ (plain (some (boolean (not (cookie == 0)))) rb)
        (Ends-if 0 n (type == type_number) _ _ number pointer))
