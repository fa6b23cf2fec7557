-- ===== src/Kernel/Print.antt =====
-- kernel/vsprintf.c: `skip_atoi` and `number`. A character is its code; `int` arguments are bit
-- patterns below 2 ^ 32.
pub mod Digits
use linux.Prelude.{
  ℕ, zero, suc, ◌+◌, ◌-◌, ◌*◌, ◌/◌, ◌%◌, ◌^◌, Bool, true, false, not, ◌&&◌, ◌||◌, ◌==◌, ltb, leb,
  if◌then◌else◌, slt, minus, sub32, List, [], ◌∷◌, ◌++◌, Option, none, some, length,
}

-- The bits of `type`.
pub record Flags : Type 0 where
  pub zeropad : Bool
  pub sign : Bool
  pub plus : Bool
  pub space : Bool
  pub left : Bool
  pub special : Bool
  pub small : Bool

abbrev pub is_digit : ℕ → Bool
is_digit c = leb 48 c && leb c 57

-- The number at the start of a string, `i` having been read, and the rest of the string.
unfoldable pub skip_atoi : (i : ℕ) → List ℕ → ℕ × List ℕ
skip_atoi i [] = (i, [])
skip_atoi i (c ∷ s) =
    let rest = skip_atoi ((i * 10 + c + 2 ^ 32 - 48) % 2 ^ 32) s in
    if is_digit c then rest else (i, c ∷ s)

-- `digits[d]`, of capital or of small letters.
abbrev pub digit : (small : Bool) → ℕ → ℕ
digit small d = if ltb d 10 then 48 + d else ((if small then 87 else 55) + d)

-- `while (num!=0) tmp[i++] = digits[do_div(num,base)]`, with fuel: `tmp`.
unfoldable pub put_digits : (fuel : ℕ) → (small : Bool) → (base : ℕ) → ℕ → List ℕ
put_digits zero small base num = []
put_digits (suc fuel) small base num =
    let rest = put_digits fuel small base (num / base) in
    if num == 0 then [] else digit small (num % base) ∷ rest

-- A word has at most 32 digits.
abbrev pub tmp_digits : (small : Bool) → (base : ℕ) → ℕ → List ℕ
tmp_digits small base num = if num == 0 then 48 ∷ [] else put_digits 32 small base num

-- `while (i-- > 0) *str++ = tmp[i]`
abbrev pub reverse_onto : List ℕ → List ℕ → List ℕ
reverse_onto [] str = str
reverse_onto (c ∷ tmp) str = reverse_onto tmp (c ∷ str)

abbrev pub copies : ℕ → (c : ℕ) → List ℕ
copies zero c = []
copies (suc n) c = c ∷ copies n c

-- `while (size-- > 0) *str++ = c`: what is written, and `size` afterwards.
unfoldable pub fill : (size : ℕ) → (c : ℕ) → List ℕ
fill size c = if slt 0 size then copies size c else []

unfoldable pub filled : ℕ → ℕ
filled size = if slt 0 size then minus 1 else sub32 size 1

-- The sign's character, if one is written, and the number without it.
abbrev pub sign_of : Flags → ℕ → List ℕ
sign_of t num =
    if t.sign && slt num 0
    then 45 ∷ []
    else (if t.plus then 43 ∷ [] else (if t.space then 32 ∷ [] else []))

abbrev pub magnitude : Flags → ℕ → ℕ
magnitude t num = if t.sign && slt num 0 then minus num else num

abbrev pub prefix : Flags → (base : ℕ) → List ℕ
prefix t base =
    if t.special && (base == 8)
    then 48 ∷ []
    else (if t.special && (base == 16) then 48 ∷ (if t.small then 120 else 88) ∷ [] else [])

-- What `number` writes, once `tmp` has its digits and `size` and `precision` are final.
unfoldable pub layout :
    (t : Flags)
    → (front : List ℕ) → (special : List ℕ) → (tmp : List ℕ) → (size : ℕ) → (zeros : ℕ) → List ℕ
layout t front special tmp size zeros =
    let pad_first = not (t.zeropad && not t.left) && not t.left in
    let size₁ = if pad_first then filled size else size in
    let size₂ = if t.left then size₁ else filled size₁ in
    (if pad_first then fill size 32 else [])
    ++ front
    ++ special
    ++ (if t.left then [] else fill size₁ (if t.zeropad then 48 else 32))
    ++ copies zeros 48
    ++ reverse_onto tmp []
    ++ fill size₂ 32

-- `if (i > precision) precision = i`
abbrev pub at_least : ℕ → ℕ → ℕ
at_least i precision = if slt precision i then i else precision

unfoldable pub number :
    (num : ℕ) → (base : ℕ) → (size : ℕ) → (precision : ℕ) → Flags → Option (List ℕ)
unfolding layout
number num base size precision t =
    if ltb base 2 || ltb 36 base
    then none
    else (let front = sign_of t num in
        let special = prefix t base in
        let tmp = tmp_digits t.small base (magnitude t num) in
        let prec = at_least (length tmp) precision in
        some (
          layout t front special tmp
            (sub32 (sub32 (sub32 size (length front)) (length special)) prec) (prec - length tmp)))
