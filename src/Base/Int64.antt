-- ===== src/Base/Int64.antt =====
-- Go's `int` and `int64`, as the 64-bit pattern of the two's complement: a number below 2 ^ 64.
-- The wrap-around of an addition and the sign in a comparison are written out.
use Prim.Native.Nat.{ℕ, ◌+◌, ◌*◌, ◌%◌, ◌<◌, ◌≤◌}
use mathlib.Core.Path.{◌≡◌}
use mathlib.Core.Bool.{Bool, true}
use mathlib.Core.Logic.{◌↔◌}
use native.Mathlib.Omega.{arith}
use simple_api.Base.Tests.{ltb, leb, eqb}

abbrev pub Int64 : Type 0
Int64 = ℕ

-- 2 ^ 64 and 2 ^ 63.
abbrev pub modulus : ℕ
modulus = 18446744073709551616

abbrev pub sign_bit : ℕ
sign_bit = 9223372036854775808

abbrev pub add64 : Int64 → Int64 → Int64
add64 a b = (a + b) % modulus

abbrev pub mul64 : Int64 → Int64 → Int64
mul64 a b = (a * b) % modulus

-- The order of the signed values is the order of the patterns with the sign bit flipped.
abbrev pub flip : Int64 → ℕ
flip a = (a + sign_bit) % modulus

abbrev pub slt : Int64 → Int64 → Bool
slt a b = ltb (flip a) (flip b)

abbrev pub sle : Int64 → Int64 → Bool
sle a b = leb (flip a) (flip b)

-- Patterns that agree modulo 2 ^ 64 are the same `int`.
abbrev pub eq64 : Int64 → Int64 → Bool
eq64 a b = eqb (flip a) (flip b)

-- `0 < a`.
abbrev pub positive : Int64 → Bool
positive a = slt 0 a

-- A pattern that stands for a number that is not negative.
abbrev pub NonNeg : Int64 → Type 0
NonNeg a = a < sign_bit

pub slt-nonneg : (a b : Int64) → NonNeg a → NonNeg b → (slt a b ≡ true) ↔ (a < b)
slt-nonneg a b ha hb = ground arith

pub sle-nonneg : (a b : Int64) → NonNeg a → NonNeg b → (sle a b ≡ true) ↔ (a ≤ b)
sle-nonneg a b ha hb = ground arith
