-- ===== src/Prelude/Words.antt =====
-- A 32-bit register (`long`, `int`, `unsigned long`) is its bit pattern, a number below 2 ^ 32.
-- Signed code compares the patterns after the sign bit is flipped.
use Prim.Native.Nat.{ℕ, ◌+◌, ◌-◌, ◌/◌, ◌%◌, ◌^◌, ◌<◌}
use mathlib.Core.Path.{◌≡◌, refl}
use mathlib.Core.Bool.{Bool, true}
use native.Mathlib.Omega.{arith}
use linux.Prelude.Tests.{ltb, if◌then◌else◌}

-- The pattern of -n, for n up to 2 ^ 32.
abbrev pub minus : ℕ → ℕ
minus n = (2 ^ 32 - n) % 2 ^ 32

abbrev pub add32 : ℕ → ℕ → ℕ
add32 a b = (a + b) % 2 ^ 32

abbrev pub sub32 : ℕ → ℕ → ℕ
sub32 a b = (a + 2 ^ 32 - b) % 2 ^ 32

-- The order of the signed values: the sign bit is flipped first.
abbrev pub bias : ℕ → ℕ
bias a = (a + 2 ^ 31) % 2 ^ 32

abbrev pub slt : ℕ → ℕ → Bool
slt a b = ltb (bias a) (bias b)

-- `a >> 1` of a signed value, which copies the sign bit.
abbrev pub sar1 : ℕ → ℕ
sar1 a = if ltb a (2 ^ 31) then a / 2 else a / 2 + 2 ^ 31

pub slt_nonneg : (a b : ℕ) → a < 2 ^ 31 → b < 2 ^ 31 → slt a b ≡ ltb a b
slt_nonneg a b h k = ground arith

slt_signs : slt (minus 1) 0 ≡ true
slt_signs = refl

sar1_signs : sar1 (minus 4) ≡ minus 2
sar1_signs = refl
