-- ===== src/Base/Word.antt =====
-- Go's `int` and `int64` where the program's arithmetic may wrap: a value is its 64-bit pattern, a
-- number below 2 ^ 64, and an order reads the pattern in two's complement.
use Prim.Native.Nat.{ℕ, ◌+◌, ◌-◌, ◌%◌, ◌^◌, ◌<◌}
use mathlib.Core.Path.{◌≡◌}
use mathlib.Core.Bool.{Bool, true, false}
use native.Mathlib.Omega.{arith}
use ydb_go_sdk.Base.Tests.{leb, ltb}

abbrev pub modulus : ℕ
modulus = 2 ^ 64

abbrev pub sign_bit : ℕ
sign_bit = 2 ^ 63

-- `x++` and `x - 1`
abbrev pub incr : ℕ → ℕ
incr x = (x + 1) % modulus

abbrev pub decr : ℕ → ℕ
decr x = (x + (modulus - 1)) % modulus

-- The signed value of a pattern, moved up by 2 ^ 63.
abbrev pub biased : ℕ → ℕ
biased x = (x + sign_bit) % modulus

-- `a < b` and `a <= b`
abbrev pub slt : ℕ → ℕ → Bool
slt a b = ltb (biased a) (biased b)

abbrev pub sle : ℕ → ℕ → Bool
sle a b = leb (biased a) (biased b)

abbrev pub IsWord : ℕ → Type 0
IsWord x = x < modulus

pub incr-decr : (x : ℕ) → IsWord x → incr (decr x) ≡ x
incr-decr x h = omega arith

pub slt_irrefl : (x : ℕ) → slt x x ≡ false
slt_irrefl x = ground arith

pub slt_trans : (x y z : ℕ) → slt x y ≡ true → slt y z ≡ true → slt x z ≡ true
slt_trans x y z p q = ground arith
