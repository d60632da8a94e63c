-- ===== src/Serial/Bytes.antt =====
-- The bytes of a number in memory, lowest first, as `memcpy` of an integer moves them
-- (src/ltask/serialize.c).
use native.Mathlib.Nat.{pow-suc, one-le-pow}
use grt.Base.{
  ℕ, zero, suc, ◌+◌, ◌*◌, ◌/◌, ◌%◌, ◌^◌, ◌<◌, ◌≡◌, refl, List, [], ◌∷◌, arith, length, ap,
}

abbrev pub Byte : Type 0
Byte = ℕ

-- the `k` bytes of `v`
unfoldable pub to_bytes : ℕ → ℕ → List Byte
to_bytes zero v = []
to_bytes (suc k) v = (v % 256) ∷ to_bytes k (v / 256)

unfoldable pub of_bytes : List Byte → ℕ
of_bytes [] = 0
of_bytes (b ∷ bs) = b + 256 * of_bytes bs

pub length-to_bytes : (k v : ℕ) → length (to_bytes k v) ≡ k
unfolding to_bytes
length-to_bytes zero v = refl
length-to_bytes (suc k) v = ap suc (length-to_bytes k (v / 256))

-- Reading the bytes of a number that fits gives the number.
pub of_bytes-to_bytes : (k v : ℕ) → v < 256 ^ k → of_bytes (to_bytes k v) ≡ v
unfolding to_bytes of_bytes
of_bytes-to_bytes zero v h = omega arith
of_bytes-to_bytes (suc k) v h =
    omega (arith, of_bytes-to_bytes k (v / 256) (omega (arith, pow-suc 256 k)))

mod_bytes : (m v : ℕ) → 0 < m → v % (m * 256) ≡ 256 * (v / 256 % m) + v % 256
mod_bytes m v h = grind arith

-- Reading the low bytes of a number gives its remainder.
pub of_bytes-to_bytes_low : (k v : ℕ) → of_bytes (to_bytes k v) ≡ v % 256 ^ k
unfolding to_bytes of_bytes
of_bytes-to_bytes_low zero v = omega arith
of_bytes-to_bytes_low (suc k) v = omega (
  arith,
  of_bytes-to_bytes_low k (v / 256),
  ap (λ t. v % t) (pow-suc 256 k),
  mod_bytes (256 ^ k) v (one-le-pow k 256 (omega arith)),
)

-- Four bytes are those of the remainder.
pub to_bytes-mod : (v : ℕ) → to_bytes 4 (v % 2 ^ 32) ≡ to_bytes 4 v
unfolding to_bytes
to_bytes-mod v =
    let first : v % 2 ^ 32 % 256 ≡ v % 256 = omega arith in
    let second : v % 2 ^ 32 / 256 % 256 ≡ v / 256 % 256 = omega arith in
    let third : v % 2 ^ 32 / 256 / 256 % 256 ≡ v / 256 / 256 % 256 = omega arith in
    let fourth : v % 2 ^ 32 / 256 / 256 / 256 % 256 ≡ v / 256 / 256 / 256 % 256 = omega arith in
    rw (first, second, third, fourth) refl
