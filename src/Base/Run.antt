-- ===== src/Base/Run.antt =====
-- How a run of C code ends, and reads and writes of arrays.
use Prim.Native.Nat.{ℕ, ◌<◌}
use mathlib.Core.Path.{◌≡◌}
use mathlib.Core.Bool.{Bool, true, false}
use mathlib.Core.Option.{Option, none, some}
use mathlib.Core.List.{List}
use native.Mathlib.Omega.{arith}
use grt.Base.Tests.{ltb, if◌then◌else◌}
use grt.Base.Arrays.{length, get_elem?, set}

-- A value, a failed assertion or `abort()`, undefined behaviour (an access outside the storage or of a
-- cell never written, an overflow of an `int`), an error raised to Lua, or the end of the fuel of a loop of the model.
pub data Run {ℓ} (A : Type ℓ) : Type ℓ where
  ok : A → Run A
  aborted wild raised spent : Run A

infixl 5 ◌>>=◌ ◌>>◌
abbrev pub ◌>>=◌ {ℓ κ} : {A : Type ℓ} {B : Type κ} → Run A → (A → Run B) → Run B
ok a >>= f = f a
aborted >>= f = aborted
wild >>= f = wild
raised >>= f = raised
spent >>= f = spent

abbrev pub ◌>>◌ {ℓ} : {B : Type ℓ} → Run (Unit {0}) → Run B → Run B
m >> k = m >>= λ _. k

abbrev pub assert : Bool → Run (Unit {0})
assert true = ok tt
assert false = aborted

-- `o`, or a wild access
abbrev pub or_wild {ℓ} : {A : Type ℓ} → Option A → Run A
or_wild none = wild
or_wild (some a) = ok a

-- `xs[i]`
abbrev pub load {ℓ} : {A : Type ℓ} → List A → ℕ → Run A
load xs i = or_wild (get_elem? xs i)

-- `xs[i] = v`
abbrev pub store {ℓ} : {A : Type ℓ} → List A → ℕ → A → Run (List A)
store xs i v = if ltb i (length xs) then ok (set xs i v) else wild

pub store-ok {ℓ} :
    {A : Type ℓ} (xs : List A) (i : ℕ) (v : A) → i < length xs → store xs i v ≡ ok (set xs i v)
store-ok xs i v h = ground arith

pub load-ok {ℓ} :
    {A : Type ℓ} (xs : List A) (i : ℕ) {a : A} → get_elem? xs i ≡ some a → load xs i ≡ ok a
load-ok xs i h = ground arith
