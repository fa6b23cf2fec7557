-- ===== src/Kernel/Print/Digits.antt =====
-- kernel/vsprintf.c: skip_atoi after number.
use linux.Prelude.{
  ℕ, zero, suc, ◌+◌, ◌-◌, ◌*◌, ◌/◌, ◌%◌, ◌^◌, ◌<◌, ◌≤◌, ◌≡◌, refl, ap, ◌∙◌, arith, inl, inr, Bool,
  true, false, Bool-cases, ◌==◌, slt, minus, sub32, List, [], ◌∷◌, ◌++◌, some, length,
}
use mathlib.Core.List.{append-nil}
use mathlib.Core.Path.{ap₂}
use native.Mathlib.Numerals.{unary_clauses}
use linux.Kernel.Print.{
  Flags, is_digit, skip_atoi, digit, put_digits, tmp_digits, reverse_onto, fill, filled, layout,
  number, at_least,
}

-- Unsigned, no padding, no sign, no prefix.
abbrev pub plain : (small : Bool) → Flags
plain small = record {
  zeropad = false;
  sign = false;
  plus = false;
  space = false;
  left = false;
  special = false;
  small = small;
}

-- The string does not go on with a digit.
abbrev pub IsEnd : List ℕ → Type 0
IsEnd [] = Unit
IsEnd (c ∷ s) = is_digit c ≡ false

reverse_onto-append : (tmp str s : List ℕ) → reverse_onto tmp str ++ s ≡ reverse_onto tmp (str ++ s)
reverse_onto-append [] str s = refl
reverse_onto-append (c ∷ tmp) str s = reverse_onto-append tmp (c ∷ str) s

-- A digit that is read.
skip_atoi-digit :
    (small : Bool) (i d : ℕ) (s : List ℕ)
    → d < 10
    → i * 10 + d < 2 ^ 32
    → skip_atoi i (digit small d ∷ s) ≡ skip_atoi (i * 10 + d) s
unfolding skip_atoi
skip_atoi-digit small i d s h k = rw (code, between) (ap (λ n. skip_atoi n s) (omega arith))
  where
    code : digit small d ≡ 48 + d
    code = ground arith

    between : is_digit (48 + d) ≡ true
    between = ground arith

half : (num n : ℕ) → num < n * 2 → num / 10 < n
half num n h = omega arith

skip_atoi-put_digits :
    (fuel : ℕ) (small : Bool) (num : ℕ) (s : List ℕ)
    → num < 2 ^ fuel
    → num < 2 ^ 32
    → skip_atoi 0 (reverse_onto (put_digits fuel small 10 num) s) ≡ skip_atoi num s
unfolding put_digits
skip_atoi-put_digits zero small num s h k = ap (λ i. skip_atoi i s) (omega arith)
skip_atoi-put_digits (suc fuel) small num s h k = elim (Bool-cases (num == 0)) [
  | inl z ↦ rw z (ap (λ i. skip_atoi i s) (ground arith))
  | inr more ↦ rw more (
      skip_atoi-put_digits fuel small (num / 10) (digit small (num % 10) ∷ s)
        (half num (2 ^ fuel) (simp unary_clauses at h)) (omega arith)
      ∙ skip_atoi-digit small (num / 10) (num % 10) s (omega arith) (omega arith)
      ∙ ap (λ i. skip_atoi i s) (omega arith))
]

length-put_digits :
    (fuel : ℕ) (small : Bool) (num : ℕ) → length (put_digits fuel small 10 num) ≤ fuel
unfolding put_digits
length-put_digits zero small num = omega arith
length-put_digits (suc fuel) small num = elim (Bool-cases (num == 0)) [
  | inl z ↦ rw z (omega arith)
  | inr more ↦ rw more (omega (arith, length-put_digits fuel small (num / 10)))
]

skip_atoi-end : (i : ℕ) (s : List ℕ) → IsEnd s → skip_atoi i s ≡ (i, s)
unfolding skip_atoi
skip_atoi-end i [] h = refl
skip_atoi-end i (c ∷ s) h = rw h refl

-- The digits of a word, 0 having one.
skip_atoi-tmp_digits :
    (small : Bool) (num : ℕ) (s : List ℕ)
    → num < 2 ^ 32
    → skip_atoi 0 (reverse_onto (tmp_digits small 10 num) s) ≡ skip_atoi num s
skip_atoi-tmp_digits small num s k = elim (Bool-cases (num == 0)) [
  | inl z ↦ rw z (
      skip_atoi-digit true 0 0 s (omega arith) (omega arith)
      ∙ ap (λ i. skip_atoi i s) (ground arith))
  | inr more ↦ rw more (skip_atoi-put_digits 32 small num s k k)
]

length-tmp_digits : (small : Bool) (num : ℕ) → length (tmp_digits small 10 num) ≤ 32
length-tmp_digits small num = elim (Bool-cases (num == 0)) [
  | inl z ↦ rw z (omega arith)
  | inr more ↦ rw more (length-put_digits 32 small num)
]

-- A negative size stays negative, and writes nothing.
below_zero : (k : ℕ) → k ≤ 100 → slt 0 (2 ^ 32 - 1 - k) ≡ false
below_zero k h = ground arith

filled-below_zero : (k : ℕ) → k ≤ 100 → filled (2 ^ 32 - 1 - k) ≡ 2 ^ 32 - 1 - (k + 1)
unfolding filled
filled-below_zero k h = rw (below_zero k h) (omega arith)

fill-below_zero : (k : ℕ) → k ≤ 100 → fill (2 ^ 32 - 1 - k) 32 ≡ []
unfolding fill
fill-below_zero k h = rw (below_zero k h) refl

layout-plain :
    (small : Bool) (tmp : List ℕ) (k : ℕ)
    → k ≤ 32
    → layout (plain small) [] [] tmp (2 ^ 32 - 1 - k) 0 ≡ reverse_onto tmp []
unfolding layout
layout-plain small tmp k h =
    rw
      (
        fill-below_zero k (omega arith),
        filled-below_zero k (omega arith),
        fill-below_zero (k + 1) (omega arith),
        filled-below_zero (k + 1) (omega arith),
        fill-below_zero (k + 1 + 1) (omega arith),
      )
      (append-nil (reverse_onto tmp []))

-- With no padding asked for, the digits are all that is printed.
number-plain :
    (small : Bool) (num : ℕ)
    → number num 10 (minus 1) (minus 1) (plain small)
      ≡ some (reverse_onto (tmp_digits small 10 num) [])
unfolding number
number-plain small num = ap some (
    ap₂ (layout (plain small) [] [] (tmp_digits small 10 num)) (sizes n len) (zeros n len)
    ∙ layout-plain small (tmp_digits small 10 num) n len)
  where
    n : ℕ
    n = length (tmp_digits small 10 num)

    len : n ≤ 32
    len = length-tmp_digits small num

    sizes : (n : ℕ) → n ≤ 32 → sub32 (minus 1) (at_least n (minus 1)) ≡ 2 ^ 32 - 1 - n
    sizes n h = ground arith

    zeros : (n : ℕ) → n ≤ 32 → at_least n (minus 1) - n ≡ 0
    zeros n h = ground arith

-- In base 10 `number` without flags, width or precision prints any word so that `skip_atoi` reads
-- the same word and leaves the string at its end, for whatever follows that is not a digit.
pub skip_atoi-number :
    (small : Bool) (num : ℕ) (s : List ℕ)
    → num < 2 ^ 32
    → IsEnd s
    → (str : List ℕ) × (number num 10 (minus 1) (minus 1) (plain small) ≡ some str)
      × (skip_atoi 0 (str ++ s) ≡ (num, s))
skip_atoi-number small num s h e = (
  _,
  number-plain small num,
  ap (skip_atoi 0) (reverse_onto-append (tmp_digits small 10 num) [] s)
      ∙ skip_atoi-tmp_digits small num s h
      ∙ skip_atoi-end num s e,
)
