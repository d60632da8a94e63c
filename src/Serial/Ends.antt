-- ===== src/Serial/Ends.antt =====
-- seri_unpack of src/ltask/serialize.c ends on every chain of blocks, whatever bytes it holds.
use grt.Base.{
  ℕ, zero, suc, ◌+◌, ◌*◌, ◌/◌, ◌%◌, ◌≤◌, List, [], ◌∷◌, Option, none, some, ◌==◌, arith, length,
}
use grt.Base.Run.{Run, ok, aborted, wild, raised, spent, ◌>>=◌}
use grt.Serial.Bytes.{Byte, of_bytes}
use grt.Serial.Blocks.{Block, ReadBlock, rb_init, rb_read, rb_close, slice, length_left}
use grt.Serial.Value.{LuaValue}
use grt.Serial.Pack.{type_table}
use grt.Serial.Unpack.{
  must, get_array_size, push_value, unpack_one, unpack_array, unpack_pairs, unpack_all, cons_pushed,
  pushed, is_nil, seri_unpack,
}
use grt.Serial.Reads.{
  Ends, Ends-bind, Ends-less, Ends-if, Reads, rb_read-Reads, read-Ends, get_array_size-Ends,
  push_scalar-Ends,
}

pushed-Ends :
    (n : ℕ) (v : Option LuaValue) (rb : ReadBlock) → rb.len + 1 ≤ n → Ends 1 n (pushed (v, rb))
pushed-Ends n none rb h = tt
pushed-Ends n (some v) rb h = h

-- The fuel that is enough: three units for a byte, and some for the calls before the first.
mutual
  unfolding push_value

  push_value-Ends :
      (fuel : ℕ) (rb : ReadBlock) (type cookie : ℕ)
      → 3 * rb.len + 3 ≤ fuel
      → Ends 0 rb.len (push_value fuel rb type cookie)
  push_value-Ends zero rb type cookie h = absurd (omega (arith, h))
  push_value-Ends (suc fuel) rb type cookie h =
      let n = rb.len in
      Ends-if 0 n (type == type_table) _ _
        (Ends-bind 0 0 n (get_array_size rb cookie) _ (get_array_size-Ends rb cookie)
          (λ size sized e.
            Ends-bind 0 0 n (unpack_array fuel size sized) _
              (Ends-less 0 0 sized.len n _ (unpack_array-Ends fuel size sized (omega (arith, h, e)))
                (omega (arith, e)))
              (λ vs filled e'.
                Ends-bind 0 0 n (unpack_pairs fuel filled) _
                  (Ends-less 0 0 filled.len n _
                    (unpack_pairs-Ends fuel filled (omega (arith, h, e'))) (omega (arith, e')))
                  (λ ps rest e''. e''))))
        (push_scalar-Ends rb type cookie)

  unpack_one-Ends :
      (fuel : ℕ) (rb : ReadBlock) → 3 * rb.len + 1 ≤ fuel → Ends 1 rb.len (unpack_one fuel rb)
  unpack_one-Ends zero rb h = absurd (omega (arith, h))
  unpack_one-Ends (suc fuel) rb h =
      Ends-bind 1 1 rb.len (rb_read rb 1 >>= must) _ (read-Ends rb 1) (λ t rb' e.
        Ends-bind 1 1 rb.len (push_value fuel rb' (of_bytes t % 8) (of_bytes t / 8)) pushed
          (Ends-less 0 1 rb'.len rb.len _ (push_value-Ends fuel rb' _ _ (omega (arith, h, e)))
            (omega (arith, e)))
          (pushed-Ends rb.len))

  unpack_array-Ends :
      (fuel n : ℕ) (rb : ReadBlock) → 3 * rb.len + 2 ≤ fuel → Ends 0 rb.len (unpack_array fuel n rb)
  unpack_array-Ends zero n rb h = absurd (omega (arith, h))
  unpack_array-Ends (suc fuel) zero rb h = omega arith
  unpack_array-Ends (suc fuel) (suc n) rb h =
      Ends-bind 1 0 rb.len (unpack_one fuel rb) _ (unpack_one-Ends fuel rb (omega (arith, h)))
        (λ v rb' e.
          Ends-bind 0 0 rb.len (unpack_array fuel n rb') _
            (Ends-less 0 0 rb'.len rb.len _ (unpack_array-Ends fuel n rb' (omega (arith, h, e)))
              (omega (arith, e)))
            (λ vs rb'' e'. e'))

  unpack_pairs-Ends :
      (fuel : ℕ) (rb : ReadBlock) → 3 * rb.len + 2 ≤ fuel → Ends 0 rb.len (unpack_pairs fuel rb)
  unpack_pairs-Ends zero rb h = absurd (omega (arith, h))
  unpack_pairs-Ends (suc fuel) rb h =
      Ends-bind 1 0 rb.len (unpack_one fuel rb) _ (unpack_one-Ends fuel rb (omega (arith, h)))
        (λ key rb' e. Ends-if 0 rb.len (is_nil key) _ _ (omega (arith, e)) (
          Ends-bind 1 0 rb.len (unpack_one fuel rb') _
            (Ends-less 1 1 rb'.len rb.len _ (unpack_one-Ends fuel rb' (omega (arith, h, e)))
              (omega (arith, e)))
            (λ v rb'' e'.
              Ends-bind 0 0 rb.len (unpack_pairs fuel rb'') _
                (Ends-less 0 0 rb''.len rb.len _ (unpack_pairs-Ends fuel rb'' (omega (arith, h, e)))
                  (omega (arith, e')))
                (λ ps rb3 e''. e''))))

-- A result has at most as many values as `n` has bytes more than are left.
abbrev Counted : ℕ → Run (List LuaValue × ReadBlock) → Type 0
Counted n (ok (vs, rb)) = length vs + rb.len ≤ n
Counted n spent = ⊥
Counted n r = Unit {0}

unpack_all-Counted :
    (fuel : ℕ) (rb : ReadBlock) → 3 * rb.len + 1 ≤ fuel → Counted rb.len (unpack_all fuel rb)
unfolding unpack_all
unpack_all-Counted zero rb h = absurd (omega (arith, h))
unpack_all-Counted (suc fuel) rb h =
    got (rb_read rb 1) (rb_read-Reads rb 1)
      (λ rb' e. unpack_all-Counted fuel rb' (omega (arith, h, e)))
  where
    more :
        (v : Option LuaValue) (n : ℕ) (r : Run (List LuaValue × ReadBlock))
        → Counted n r
        → suc n ≤ rb.len
        → Counted rb.len (r >>= λ (vs, rb3). ok (cons_pushed v vs, rb3))
    more none n (ok (vs, rb3)) c e = omega (arith, c, e)
    more (some v) n (ok (vs, rb3)) c e = omega (arith, c, e)
    more v n aborted c e = tt
    more v n wild c e = tt
    more v n raised c e = tt
    more v n spent c e = c

    value_read :
        (n : ℕ) (r : Run (Option LuaValue × ReadBlock))
        → Ends 0 n r
        → suc n ≤ rb.len
        → ((rb' : ReadBlock) → rb'.len ≤ n → Counted rb'.len (unpack_all fuel rb'))
        → Counted rb.len
            (r >>= λ (v, rb''). unpack_all fuel rb'' >>= λ (vs, rb3). ok (cons_pushed v vs, rb3))
    value_read n (ok (v, rb'')) e lt again =
        more v rb''.len (unpack_all fuel rb'') (again rb'' (omega (arith, e)))
          (omega (arith, e, lt))
    value_read n aborted e lt again = tt
    value_read n wild e lt again = tt
    value_read n raised e lt again = tt
    value_read n spent e lt again = e

    got :
        (r : Run (Option (List Byte) × ReadBlock))
        → Reads 1 rb.len r
        → ((rb' : ReadBlock) → suc rb'.len ≤ rb.len → Counted rb'.len (unpack_all fuel rb'))
        → Counted rb.len (
            r >>= λ (o, rb'). elim o [
              | none ↦ ok ([], rb')
              | some t ↦ push_value fuel rb' (of_bytes t % 8) (of_bytes t / 8) >>= λ (v, rb'').
                  unpack_all fuel rb'' >>= λ (vs, rb3). ok (cons_pushed v vs, rb3)
            ])
    got (ok (some t, rb')) e again =
        value_read rb'.len (push_value fuel rb' (of_bytes t % 8) (of_bytes t / 8))
          (push_value-Ends fuel rb' (of_bytes t % 8) (of_bytes t / 8) (omega (arith, h, e)))
          (omega (arith, e)) (λ rb'' e'. again rb'' (omega (arith, e, e')))
    got (ok (none, rb')) e again = omega (arith, e)
    got aborted e again = tt
    got wild e again = tt
    got raised e again = tt
    got spent e again = e

-- An error, a read of storage that is no block, or no more values than the length in the first block
-- leaves bytes: none where that length is negative.
abbrev pub Short : List Block → Run (List LuaValue) → Type 0
Short (b ∷ rest) (ok vs) = length vs ≤ length_left (of_bytes (slice b 0 4))
Short [] (ok vs) = ⊥
Short chain spent = ⊥
Short chain r = Unit {0}

abbrev opened : Block → List Block → ReadBlock
opened b rest = record {
  buffer = none;
  chain = b ∷ rest;
  len = length_left (of_bytes (slice b 0 4));
  ptr = 4;
}

closed :
    (b : Block) (rest : List Block) (r : Run (List LuaValue × ReadBlock))
    → Counted (length_left (of_bytes (slice b 0 4))) r
    → Short (b ∷ rest) (r >>= λ (vs, rb'). let done = rb_close rb' in ok vs)
closed b rest (ok (vs, rb)) e = omega (arith, e)
closed b rest aborted e = tt
closed b rest wild e = tt
closed b rest raised e = tt
closed b rest spent e = e

-- Whatever bytes the blocks hold, seri_unpack on a chain of them ends, within the fuel of four
-- units for a byte of the length in the first block: with an error, with undefined behaviour (a
-- read of storage that is no block or from NULL, a negative size), or with no more values than
-- that length, an int, leaves bytes; none where it leaves less than one.
pub seri_unpack-Short : (chain : List Block) → Short chain (seri_unpack (some chain))
unfolding seri_unpack rb_init
seri_unpack-Short [] = tt
seri_unpack-Short (b ∷ rest) =
    let n = length_left (of_bytes (slice b 0 4)) in
    closed b rest (unpack_all (4 * n + 4) (opened b rest))
      (unpack_all-Counted (4 * n + 4) (opened b rest) (omega arith))
