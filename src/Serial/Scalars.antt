-- ===== src/Serial/Scalars.antt =====
-- The readers of src/ltask/serialize.c take the parts of the format back: numbers, strings, sizes.
use grt.Base.{
  ℕ, ◌+◌, ◌*◌, ◌/◌, ◌%◌, ◌^◌, ◌<◌, ◌≡◌, refl, sym, ap, ◌∙◌, List, [], ◌++◌, append-nil,
  append_assoc, Bool-cases, inl, inr, true, false, ltb, leb, ◌==◌, not, if◌then◌else◌, arith,
  length, subst, some,
}
use grt.Base.Run.{Run, ok, wild, ◌>>=◌}
use grt.Serial.Bytes.{
  Byte, to_bytes, of_bytes, length-to_bytes, of_bytes-to_bytes, of_bytes-to_bytes_low,
}
use grt.Serial.Blocks.{ReadBlock, rb_read}
use grt.Serial.Value.{str}
use grt.Serial.Pack.{sign_extend}
use grt.Serial.Unpack.{
  must, read_number, get_integer, get_buffer, get_long, get_array_size, rounds_of,
}
use grt.Serial.Format.{head, integer_bytes, size_bytes}
use grt.Serial.Consumed.{Left, rb_read-Left}

-- The reader takes `bs` off the front and gives `a`.
abbrev pub Reads {ℓ} : {A : Type ℓ} → (ReadBlock → Run (A × ReadBlock)) → List Byte → A → Type ℓ
Reads f bs a =
    (rb : ReadBlock) (more : List Byte)
    → Left rb (bs ++ more)
    → (rb' : ReadBlock) × (f rb ≡ ok (a, rb')) × Left rb' more

pub Reads-nothing {ℓ} : {A : Type ℓ} (a : A) → Reads (λ rb. ok (a, rb)) [] a
Reads-nothing a rb more h = (rb, refl, h)

pub Reads-then {ℓ κ} :
    {A : Type ℓ} {B : Type κ} {f : ReadBlock → Run (A × ReadBlock)} {a : A} {b : B}
    (g : A × ReadBlock → Run (B × ReadBlock)) (bs cs : List Byte)
    → Reads f bs a
    → Reads (λ rb. g (a, rb)) cs b
    → Reads (λ rb. f rb >>= g) (bs ++ cs) b
Reads-then g bs cs p q rb more h =
    let (rb1, run1, h1) = p rb (cs ++ more) (subst (Left rb) (append_assoc bs cs more) h) in
    let (rb2, run2, h2) = q rb1 more h1 in (rb2, rw run1 run2, h2)

-- The reader's result, changed by a function.
pub Reads-map {ℓ κ} :
    {A : Type ℓ} {B : Type κ} {f : ReadBlock → Run (A × ReadBlock)} {a : A} (bs : List Byte)
    (g : A → B)
    → Reads f bs a
    → Reads (λ rb. f rb >>= λ (x, rb'). ok (g x, rb')) bs (g a)
Reads-map bs g p rb more h = let (rb1, run1, h1) = p rb more h in (rb1, rw run1, h1)

pub read_number-low : (k v : ℕ) → Reads (λ rb. read_number rb k) (to_bytes k v) (v % 256 ^ k)
unfolding read_number
read_number-low k v rb more h =
    let (rb', run, left) = rb_read-Left rb (to_bytes k v) more h in
    let run' : rb_read rb k ≡ ok (some (to_bytes k v), rb') =
      ap (rb_read rb) (sym (length-to_bytes k v)) ∙ run in
    (rb', rw (run', of_bytes-to_bytes_low k v), left)

pub read_number-Reads : (k v : ℕ) → v < 256 ^ k → Reads (λ rb. read_number rb k) (to_bytes k v) v
read_number-Reads k v h =
    subst (Reads (λ rb. read_number rb k) (to_bytes k v))
      (sym (of_bytes-to_bytes_low k v) ∙ of_bytes-to_bytes k v h) (read_number-low k v)

-- A first byte is taken apart into its type and its cookie.
pub head-Reads : (t c : ℕ) → Reads (λ rb. rb_read rb 1 >>= must) (head t c) (head t c)
head-Reads t c rb more h =
    let (rb', run, left) = rb_read-Left rb (head t c) more h in
    let run' : rb_read rb 1 ≡ ok (some (head t c), rb') =
      ap (rb_read rb) (sym (length-to_bytes 1 (t + c * 8))) ∙ run in
    (rb', rw run', left)

pub head_parts :
    (t c : ℕ) → t < 8 → c < 32 → (of_bytes (head t c) % 8 ≡ t) × (of_bytes (head t c) / 8 ≡ c)
head_parts t c ht hc = omega (arith, of_bytes-to_bytes_low 1 (t + c * 8))

-- How an integer is coded: the cookie of its first byte and the bytes behind it.
pub record IntegerCode (v : ℕ) : Type 0 where
  pub cookie : ℕ
  pub rest : List Byte
  pub cookie_in : cookie < 8
  pub coded : integer_bytes v ≡ head 2 cookie ++ rest
  pub reads : Reads (λ rb. get_integer rb cookie) rest v

pub integer_code : (v : ℕ) → v < 2 ^ 64 → IntegerCode v
unfolding integer_bytes get_integer
integer_code v h = elim (Bool-cases (v == 0)) [
  | inl e ↦ record {
    cookie = 0;
    rest = [];
    cookie_in = omega arith;
    coded = rw e (sym (append-nil (head 2 0)));
    reads =
        subst (Reads (λ rb. get_integer rb 0) []) {x = 0} {y = v} (ground (arith, e))
          (Reads-nothing 0);
  }
  | inr e0 ↦ elim (Bool-cases (not (v == sign_extend v))) [
    | inl e ↦ record {
      cookie = 6;
      rest = to_bytes 8 v;
      cookie_in = omega arith;
      coded = rw (e0, e);
      reads = read_number-Reads 8 v h;
    }
    | inr e1 ↦
        let same : v ≡ sign_extend v = ground (arith, e1) in
        let wide : Reads (λ rb. get_integer rb 4) (to_bytes 4 v) v =
          subst (Reads (λ rb. get_integer rb 4) (to_bytes 4 v)) {x = sign_extend (v % 256 ^ 4)}
            {y = v} (ground (arith, same))
            (Reads-map (to_bytes 4 v) sign_extend (read_number-low 4 v)) in
        elim (Bool-cases (leb (2 ^ 63) v)) [
          | inl e ↦ record {
            cookie = 4;
            rest = to_bytes 4 v;
            cookie_in = omega arith;
            coded = rw (e0, e1, e);
            reads = wide;
          }
          | inr e2 ↦ elim (Bool-cases (ltb v 0x100)) [
            | inl e ↦ record {
              cookie = 1;
              rest = to_bytes 1 v;
              cookie_in = omega arith;
              coded = rw (e0, e1, e2, e);
              reads = read_number-Reads 1 v (ground (arith, e));
            }
            | inr e3 ↦ elim (Bool-cases (ltb v 0x10000)) [
              | inl e ↦ record {
                cookie = 2;
                rest = to_bytes 2 v;
                cookie_in = omega arith;
                coded = rw (e0, e1, e2, e3, e);
                reads = read_number-Reads 2 v (ground (arith, e));
              }
              | inr e4 ↦ record {
                cookie = 4;
                rest = to_bytes 4 v;
                cookie_in = omega arith;
                coded = rw (e0, e1, e2, e3, e4);
                reads = wide;
              }
            ]
          ]
        ]
  ]
]

pub get_buffer-Reads : (s : List Byte) → Reads (λ rb. get_buffer rb (length s)) s (str s)
unfolding get_buffer
get_buffer-Reads s rb more h =
    let (rb', run, left) = rb_read-Left rb s more h in (rb', rw run, left)

-- A long string: its length, then its bytes.
pub get_long_2-Reads :
    (s : List Byte)
    → length s < 0x10000
    → Reads (λ rb. get_long rb 2) (to_bytes 2 (length s) ++ s) (str s)
unfolding get_long
get_long_2-Reads s h =
    Reads-then (λ (len, rb'). get_buffer rb' len) (to_bytes 2 (length s)) s
      (read_number-Reads 2 (length s) h) (get_buffer-Reads s)

pub get_long_4-Reads :
    (s : List Byte)
    → length s < 2 ^ 31
    → Reads (λ rb. get_long rb 4) (to_bytes 4 (length s) ++ s) (str s)
unfolding get_long
get_long_4-Reads s h =
    let small : ltb (length s) (2 ^ 31) ≡ true = ground arith in
    Reads-then (λ (len, rb'). if ltb len (2 ^ 31) then get_buffer rb' len else wild)
      (to_bytes 4 (length s)) s (read_number-Reads 4 (length s) (omega arith))
      (λ rb more l.
        let (rb', run, left) = get_buffer-Reads s rb more l in (rb', rw (small, run), left))

-- The size of a table's array part: the cookie of its first byte and the bytes behind it.
pub record SizeCode (n : ℕ) : Type 0 where
  pub cookie : ℕ
  pub rest : List Byte
  pub cookie_in : cookie < 32
  pub coded : size_bytes n ≡ head 6 cookie ++ rest
  pub reads : Reads (λ rb. get_array_size rb cookie) rest n

-- The integer behind a first byte of 31.
sized_integer : (n : ℕ) → n < 2 ^ 31 → Reads (λ rb. get_array_size rb 31) (integer_bytes n) n
unfolding get_array_size
sized_integer n h rb more l =
    let code = integer_code n (omega arith) in
    let c = code.cookie in
    let l' = subst (λ t. Left rb (t ++ more)) code.coded l in
    let (rb1, run1, l1) =
      head-Reads 2 c rb (code.rest ++ more)
        (subst (Left rb) (append_assoc (head 2 c) code.rest more) l') in
    let (rb2, run2, l2) = code.reads rb1 more l1 in
    let (is_type, is_cookie) = head_parts 2 c (omega arith) (omega (arith, code.cookie_in)) in
    let fits : rounds_of n ≡ n = ground arith in
    let plain : (c == 8) ≡ false = ground (arith, code.cookie_in) in
    (rb2, rw (run1, is_type, is_cookie, plain, run2, fits), l2)

pub size_code : (n : ℕ) → n < 2 ^ 31 → SizeCode n
unfolding size_bytes get_array_size
size_code n h = elim (Bool-cases (leb 31 n)) [
  | inl e ↦ record {
    cookie = 31;
    rest = integer_bytes n;
    cookie_in = omega arith;
    coded = rw e;
    reads = sized_integer n h;
  }
  | inr e ↦ record {
    cookie = n;
    rest = [];
    cookie_in = ground (arith, e);
    coded = rw e (sym (append-nil (head 6 n)));
    reads = λ rb more l. let other : (n == 31) ≡ false = ground (arith, e) in (rb, rw other, l);
  }
]
