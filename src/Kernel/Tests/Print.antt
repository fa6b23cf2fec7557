-- ===== src/Kernel/Tests/Print.antt =====
-- Printing numbers.
use linux.Prelude.{ℕ, ◌≡◌, refl, arith, some, List, [], ◌∷◌, ◌++◌, minus, true, false}
use linux.Kernel.Print.{number, layout, put_digits, skip_atoi, fill, filled}
use linux.Kernel.Print.Digits.{plain, skip_atoi-number}

-- "%08X" of 0xBEEF, "%-+6d" of 42 and "%#.3o" of 8.
hex_padded :
    number 0xBEEF 16 8 (minus 1) (record (plain false) { zeropad = true })
    ≡ some (48 ∷ 48 ∷ 48 ∷ 48 ∷ 66 ∷ 69 ∷ 69 ∷ 70 ∷ [])
unfolding number layout put_digits fill filled
hex_padded = refl

signed_left :
    number 42 10 6 (minus 1) (record (plain false) { sign = true; plus = true; left = true })
    ≡ some (43 ∷ 52 ∷ 50 ∷ 32 ∷ 32 ∷ 32 ∷ [])
unfolding number layout put_digits fill filled
signed_left = refl

octal_precise :
    number 8 8 (minus 1) 3 (record (plain false) { special = true }) ≡ some (48 ∷ 48 ∷ 49 ∷ 48 ∷ [])
unfolding number layout put_digits fill filled
octal_precise = refl

skip_atoi-number_example :
    (str : List ℕ) × (number 1991 10 (minus 1) (minus 1) (plain false) ≡ some str)
    × (skip_atoi 0 (str ++ 46 ∷ []) ≡ (1991, 46 ∷ []))
skip_atoi-number_example = skip_atoi-number false 1991 (46 ∷ []) (omega arith) refl
