-- ===== src/Kernel/Clock.antt =====
-- kernel/mktime.c: `kernel_mktime`, the seconds from 1970-01-01 0:00 to a broken-down time, in the
-- machine's 32-bit arithmetic.
pub mod Calendar
use linux.Prelude.{
  ℕ, zero, suc, ◌+◌, ◌-◌, ◌*◌, ◌/◌, ◌%◌, ◌^◌, Bool, true, false, not, ◌&&◌, ◌==◌, ltb,
  if◌then◌else◌, sub32, slt, minus, Option, none, some, List, [], ◌∷◌, get_elem?,
}

-- The fields of `struct tm` that are read; `year` counts from 1900, `mon` from 0, `mday` from 1.
pub record Tm : Type 0 where
  pub sec : ℕ
  pub min : ℕ
  pub hour : ℕ
  pub mday : ℕ
  pub mon : ℕ
  pub year : ℕ

abbrev pub minute : ℕ
minute = 60

abbrev pub hour_seconds : ℕ
hour_seconds = 60 * 60

abbrev pub day_seconds : ℕ
day_seconds = 24 * hour_seconds

abbrev pub year_seconds : ℕ
year_seconds = 365 * day_seconds

-- The table `month`, of leap years. There is nothing to read past its end.
abbrev pub month : List ℕ
month =
    0
    ∷ day_seconds * 31
    ∷ day_seconds * (31 + 29)
    ∷ day_seconds * (31 + 29 + 31)
    ∷ day_seconds * (31 + 29 + 31 + 30)
    ∷ day_seconds * (31 + 29 + 31 + 30 + 31)
    ∷ day_seconds * (31 + 29 + 31 + 30 + 31 + 30)
    ∷ day_seconds * (31 + 29 + 31 + 30 + 31 + 30 + 31)
    ∷ day_seconds * (31 + 29 + 31 + 30 + 31 + 30 + 31 + 31)
    ∷ day_seconds * (31 + 29 + 31 + 30 + 31 + 30 + 31 + 31 + 30)
    ∷ day_seconds * (31 + 29 + 31 + 30 + 31 + 30 + 31 + 31 + 30 + 31)
    ∷ day_seconds * (31 + 29 + 31 + 30 + 31 + 30 + 31 + 31 + 30 + 31 + 30)
    ∷ []

-- `a / 4` of a signed value, which rounds to 0.
abbrev pub quarter : ℕ → ℕ
quarter a = if slt a 0 then minus (minus a / 4) else a / 4

-- The day taken back after the February of a year that is not a leap year.
abbrev pub leap_adjust : (year : ℕ) → (mon : ℕ) → ℕ
leap_adjust year mon = if ltb 1 mon && not ((year + 2) % 2 ^ 32 % 4 == 0) then day_seconds else 0

unfoldable pub kernel_mktime : Tm → Option ℕ
kernel_mktime tm = elim (get_elem? month tm.mon) as (λ _. Option ℕ) [
  | none ↦ none
  | some months ↦
      let year : ℕ = sub32 tm.year 70 in
      some (
        (sub32
            ((year_seconds * year + day_seconds * quarter ((year + 1) % 2 ^ 32) + months) % 2 ^ 32)
            (leap_adjust year tm.mon)
          + day_seconds * sub32 tm.mday 1
          + hour_seconds * tm.hour
          + minute * tm.min
          + tm.sec)
        % 2 ^ 32)
]
