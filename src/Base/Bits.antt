-- ===== src/Base/Bits.antt =====
-- `x & (cap - 1)` for a power of two, and `a | b << 3` for a small `a`, as arithmetic.
use Prim.Native.Nat.{
  ℕ, zero, suc, ◌+◌, ◌-◌, ◌*◌, ◌/◌, ◌%◌, ◌^◌, ◌≤◌, ◌<◌, min, max, bit_and, bit_or,
}
use Prim.Native.Nat.{digits, bit_and-bitwise, bit_or-bitwise}
use mathlib.Core.Path.{◌≡◌, refl, ap}
use native.Mathlib.Nat.{pow-suc, one-le-pow}
use native.Mathlib.Omega.{arith}

-- The recursion behind `bit_and` does not depend on its fuel.
abbrev run_digits : ℕ → ℕ → ℕ → ℕ
run_digits fuel a b = digits (λ y. zero) min fuel a b

run_digits-eq : (f g a b : ℕ) → a ≤ f → a ≤ g → run_digits f a b ≡ run_digits g a b
run_digits-eq zero zero a b p q = refl
run_digits-eq zero (suc g) zero b p q = refl
run_digits-eq zero (suc g) (suc a) b p q = elim p [ ]
run_digits-eq (suc f) zero zero b p q = refl
run_digits-eq (suc f) zero (suc a) b p q = elim q [ ]
run_digits-eq (suc f) (suc g) zero b p q = refl
run_digits-eq (suc f) (suc g) (suc a) b p q =
    let halves = run_digits-eq f g (suc a / 2) (b / 2) (omega arith) (omega arith) in
    omega (arith, halves)

bit_and_zero_left : (b : ℕ) → bit_and 0 b ≡ 0
bit_and_zero_left b = bit_and-bitwise 0 b

-- The lowest digit of `a & b`.
lowest : (a b : ℕ) → bit_and a b ≡ 2 * bit_and (a / 2) (b / 2) + min (a % 2) (b % 2)
lowest zero b = omega (arith, bit_and_zero_left b, bit_and_zero_left (b / 2))
lowest (suc a) b =
    let fuel = run_digits-eq a (suc a / 2) (suc a / 2) (b / 2) (omega arith) (omega arith) in
    omega (arith, bit_and-bitwise (suc a) b, bit_and-bitwise (suc a / 2) (b / 2), fuel)

no_mask : (f a : ℕ) → a ≤ f → bit_and a 0 ≡ 0
no_mask f zero h = refl
no_mask zero (suc a) h = elim h [ ]
no_mask (suc f) (suc a) h = omega (arith, lowest (suc a) 0, no_mask f (suc a / 2) (omega arith))

-- Doubling the modulus keeps the lowest digit and the rest of the half.
mod_double : (m a : ℕ) → 0 < m → a % (m * 2) ≡ 2 * (a / 2 % m) + a % 2
mod_double m a pos = grind arith

-- A mask of `k` low bits is the remainder by `2 ^ k`.
pub bit_and_low : (k a : ℕ) → bit_and a (2 ^ k - 1) ≡ a % 2 ^ k
bit_and_low zero a = omega (arith, no_mask a a (omega arith))
bit_and_low (suc k) a = omega (
  arith,
  lowest a (2 ^ suc k - 1),
  pow-suc 2 k,
  one-le-pow k 2 (omega arith),
  ap (λ t. bit_and (a / 2) t) half,
  bit_and_low k (a / 2),
  ap (λ t. a % t) (pow-suc 2 k),
  mod_double (2 ^ k) a (one-le-pow k 2 (omega arith)),
)
  where
    half : (2 ^ suc k - 1) / 2 ≡ 2 ^ k - 1
    half = omega (arith, pow-suc 2 k, one-le-pow k 2 (omega arith))

or_digits_zero : (f a : ℕ) → a ≤ f → digits (λ b. b) max f a 0 ≡ a
or_digits_zero zero zero h = refl
or_digits_zero zero (suc a) h = elim h [ ]
or_digits_zero (suc f) zero h = refl
or_digits_zero (suc f) (suc a) h = omega (arith, or_digits_zero f (suc a / 2) (omega arith))

pub bit_or-zero : (a : ℕ) → bit_or a 0 ≡ a
bit_or-zero a = omega (arith, bit_or-bitwise a 0, or_digits_zero a a (omega arith))
