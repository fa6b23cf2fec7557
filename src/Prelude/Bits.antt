-- ===== src/Prelude/Bits.antt =====
-- Single bits of a word, by recursion on the bit's number: `w & (1 << k)`, `w |= 1 << k` and
-- `w &= ~(1 << k)`.
use Prim.Native.Nat.{ℕ, zero, suc, ◌+◌, ◌-◌, ◌*◌, ◌/◌, ◌%◌, ◌<◌, ◌≤◌, bit_or, bit_and, bit_xor}
use mathlib.Core.Path.{◌≡◌, refl, ap, ◌∙◌}
use mathlib.Core.Logic.{◌≢◌}
use mathlib.Core.Bool.{Bool, true, false}
use native.Mathlib.Omega.{arith}
use linux.Prelude.Tests.{◌==◌}

unfoldable pub test_bit : ℕ → ℕ → Bool
test_bit zero w = w % 2 == 1
test_bit (suc k) w = test_bit k (w / 2)

unfoldable pub set_bit : ℕ → ℕ → ℕ
set_bit zero w = w - w % 2 + 1
set_bit (suc k) w = 2 * set_bit k (w / 2) + w % 2

unfoldable pub clear_bit : ℕ → ℕ → ℕ
clear_bit zero w = w - w % 2
clear_bit (suc k) w = 2 * clear_bit k (w / 2) + w % 2

double_div : (x r : ℕ) → r < 2 → (2 * x + r) / 2 ≡ x
double_div x r h = omega arith

pub test_bit-set_bit_self : (k w : ℕ) → test_bit k (set_bit k w) ≡ true
unfolding test_bit set_bit
test_bit-set_bit_self zero w = ground arith
test_bit-set_bit_self (suc k) w =
    ap (test_bit k) (double_div (set_bit k (w / 2)) (w % 2) (omega arith))
    ∙ test_bit-set_bit_self k (w / 2)

pub test_bit-clear_bit_self : (k w : ℕ) → test_bit k (clear_bit k w) ≡ false
unfolding test_bit clear_bit
test_bit-clear_bit_self zero w = ground arith
test_bit-clear_bit_self (suc k) w =
    ap (test_bit k) (double_div (clear_bit k (w / 2)) (w % 2) (omega arith))
    ∙ test_bit-clear_bit_self k (w / 2)

pub test_bit-set_bit_ne : (j k w : ℕ) → j ≢ k → test_bit j (set_bit k w) ≡ test_bit j w
unfolding test_bit set_bit
test_bit-set_bit_ne zero zero w h = absurd (h refl)
test_bit-set_bit_ne zero (suc k) w h = ground arith
test_bit-set_bit_ne (suc j) zero w h = ap (test_bit j) (omega arith)
test_bit-set_bit_ne (suc j) (suc k) w h =
    ap (test_bit j) (double_div (set_bit k (w / 2)) (w % 2) (omega arith))
    ∙ test_bit-set_bit_ne j k (w / 2) (λ e. h (ap suc e))

pub test_bit-clear_bit_ne : (j k w : ℕ) → j ≢ k → test_bit j (clear_bit k w) ≡ test_bit j w
unfolding test_bit clear_bit
test_bit-clear_bit_ne zero zero w h = absurd (h refl)
test_bit-clear_bit_ne zero (suc k) w h = ground arith
test_bit-clear_bit_ne (suc j) zero w h = ap (test_bit j) (omega arith)
test_bit-clear_bit_ne (suc j) (suc k) w h =
    ap (test_bit j) (double_div (clear_bit k (w / 2)) (w % 2) (omega arith))
    ∙ test_bit-clear_bit_ne j k (w / 2) (λ e. h (ap suc e))

-- A word with a bit set is not zero.
pub set_bit_pos : (k w : ℕ) → 0 < set_bit k w
unfolding set_bit
set_bit_pos zero w = omega arith
set_bit_pos (suc k) w = omega (arith, set_bit_pos k (w / 2))

pub clear_bit-le : (k w : ℕ) → clear_bit k w ≤ w
unfolding clear_bit
clear_bit-le zero w = omega arith
clear_bit-le (suc k) w = omega (arith, clear_bit-le k (w / 2))

set_bit_is_or : set_bit 13 0x1234 ≡ bit_or 0x1234 0x2000
unfolding set_bit
set_bit_is_or = refl

clear_bit_is_and : clear_bit 4 0x1234 ≡ bit_and 0x1234 (bit_xor 0xffff_ffff 0x10)
unfolding clear_bit
clear_bit_is_and = refl

pub test_bit-zero : (k : ℕ) → test_bit k 0 ≡ false
unfolding test_bit
test_bit-zero zero = refl
test_bit-zero (suc k) = test_bit-zero k

pub nonzero_of_test_bit : (k w : ℕ) → test_bit k w ≡ true → w ≢ 0
nonzero_of_test_bit k w h e = cc (test_bit-zero k, ap (test_bit k) e)
