-- ===== src/Kernel/Clock/Calendar.antt =====
-- `kernel_mktime` against the Gregorian calendar.
use linux.Prelude.{
  ℕ, zero, suc, ◌+◌, ◌-◌, ◌*◌, ◌/◌, ◌%◌, ◌^◌, ◌<◌, ◌≤◌, ◌≡◌, refl, sym, ap, ◌∙◌, arith, Bool, true,
  false, not, ◌&&◌, ◌||◌, ◌==◌, if◌then◌else◌, Option, none, some, inl, inr, Bool-cases, get_elem?,
  ℕ_discrete, ltb, sub32,
}
use mathlib.Core.Bool.{true≢false}
use linux.Kernel.Clock.{
  Tm, month, quarter, leap_adjust, kernel_mktime, day_seconds, hour_seconds, minute, year_seconds,
}

-- Years divisible by 4 are leap years, but only every fourth of those divisible by 100.
abbrev pub leap : ℕ → Bool
leap y = (y % 4 == 0) && (not (y % 100 == 0) || (y % 400 == 0))

-- The days of a month, January being 0.
abbrev pub days_in_month : Bool → ℕ → ℕ
days_in_month l m =
    if m == 1
    then (if l then 29 else 28)
    else (if (m == 3) || (m == 5) || (m == 8) || (m == 10) then 30 else 31)

-- The days of the months before this one.
abbrev pub days_before_month : Bool → ℕ → ℕ
days_before_month l zero = 0
days_before_month l (suc m) = days_before_month l m + days_in_month l m

-- The days of the first `n` years from 1970 on.
abbrev pub days_before_year : ℕ → ℕ
days_before_year zero = 0
days_before_year (suc n) = days_before_year n + (if leap (1970 + n) then 366 else 365)

-- The time lies in the years 1970 to 2037.
pub record IsTime (tm : Tm) : Type 0 where
  pub from_1970 : 70 ≤ tm.year
  pub to_2037 : tm.year < 138
  pub mon_in : tm.mon < 12
  pub mday_from : 1 ≤ tm.mday
  pub mday_to : tm.mday ≤ 31
  pub hour_in : tm.hour < 24
  pub min_in : tm.min < 60
  pub sec_in : tm.sec < 60

leap-every-fourth : (n : ℕ) → n < 130 → leap (1970 + n) ≡ ((n + 2) % 4 == 0)
leap-every-fourth n h = ground arith

days_before_year-closed : (n : ℕ) → n ≤ 130 → days_before_year n ≡ 365 * n + (n + 1) / 4
days_before_year-closed zero h = refl
days_before_year-closed (suc n) h =
    rw (days_before_year-closed n (omega arith), leap-every-fourth n (omega arith)) (ground arith)

-- Whether a test holds of every number below `n`.
all_below : (ℕ → Bool) → ℕ → Bool
all_below f zero = true
all_below f (suc n) = f n && all_below f n

all_below-at : (f : ℕ → Bool) (n i : ℕ) → all_below f n ≡ true → i < n → f i ≡ true
unfolding all_below
all_below-at f zero i e h = elim h [ ]
all_below-at f (suc n) i e h = elim (Bool-cases (f n)) [
  | inl now ↦ elim (ℕ_discrete i n) as (λ _. f i ≡ true) [
    | yes at ↦ ap f at ∙ now
    | no before ↦ all_below-at f n i (sym (rw now refl) ∙ e) (omega (arith, before))
  ]
  | inr now ↦ absurd (true≢false (sym e ∙ rw now refl))
]

-- The table's entry is that of the calendar, with the day that is taken back.
month_right : Bool → ℕ → Option ℕ → Bool
month_right l m none = false
month_right l m (some s) =
    (s == day_seconds * days_before_month l m + (if ltb 1 m && not l then day_seconds else 0))
    && ltb (days_before_month l m) 336

both : (a b c d : ℕ) → ((a == b) && ltb c d) ≡ true → (a ≡ b) × (c < d)
both a b c d e = ground arith

every_month : (l : Bool) → all_below (λ m. month_right l m (get_elem? month m)) 12 ≡ true
unfolding all_below month_right
every_month true = refl
every_month false = refl

month-days_before_month :
    (l : Bool) (m : ℕ)
    → m < 12
    → (s : ℕ) × (get_elem? month m ≡ some s)
      × (s ≡ day_seconds * days_before_month l m + (if ltb 1 m && not l then day_seconds else 0))
      × (days_before_month l m < 336)
unfolding month_right
month-days_before_month l m h =
    entry (get_elem? month m) refl
      (all_below-at (λ k. month_right l k (get_elem? month k)) 12 m (every_month l) h)
  where
    entry :
        (o : Option ℕ)
        → get_elem? month m ≡ o
        → month_right l m o ≡ true
        → (s : ℕ) × (get_elem? month m ≡ some s)
          × (s
              ≡ day_seconds * days_before_month l m + (if ltb 1 m && not l then day_seconds else 0))
          × (days_before_month l m < 336)
    entry none e right = absurd (true≢false (sym right))
    entry (some s) e right =
        (let (same, small) = both s _ (days_before_month l m) 336 right in (s, e, same, small))

adjust :
    (year mon : ℕ)
    → 70 ≤ year
    → year < 138
    → leap_adjust (sub32 year 70) mon
      ≡ (if ltb 1 mon && not ((year - 70 + 2) % 4 == 0) then day_seconds else 0)
adjust year mon h k =
    ap (λ (r : ℕ). if ltb 1 mon && not (r == 0) then day_seconds else 0)
      {x = (sub32 year 70 + 2) % 2 ^ 32 % 4} {y = (year - 70 + 2) % 4} (omega arith)

adjust_le : (b : Bool) → (if b then day_seconds else 0) ≤ day_seconds
adjust_le b = ground arith

quarter-years :
    (year : ℕ)
    → 70 ≤ year
    → year < 138
    → quarter ((sub32 year 70 + 1) % 2 ^ 32) ≡ (year - 70 + 1) / 4
quarter-years year h k = ground arith

-- The sum, with the table's entry `s`, the days `dm` of the months before and the day `adj`.
sum32 :
    (tm : Tm) (s dm adj q : ℕ)
    → IsTime tm
    → s ≡ day_seconds * dm + adj
    → dm < 336
    → adj ≤ day_seconds
    → q ≤ 17
    → (sub32 ((year_seconds * sub32 tm.year 70 + day_seconds * q + s) % 2 ^ 32) adj
          + day_seconds * sub32 tm.mday 1
          + hour_seconds * tm.hour
          + minute * tm.min
          + tm.sec)
        % 2 ^ 32
      ≡ 86400 * (365 * (tm.year - 70) + q + dm + (tm.mday - 1))
        + 3600 * tm.hour
        + 60 * tm.min
        + tm.sec
sum32 tm s dm adj q v es small le_adj le_q = omega arith

-- For a time in the years 1970 to 2037, `kernel_mktime` gives the seconds since the start of 1970:
-- those of the days of the years, months and days before it in the Gregorian calendar, and those
-- of its own day.
pub kernel_mktime_lem :
    (tm : Tm)
    → IsTime tm
    → kernel_mktime tm
      ≡ some (
          86400
            * (days_before_year (tm.year - 70)
                + days_before_month (leap (1900 + tm.year)) tm.mon
                + (tm.mday - 1))
          + 3600 * tm.hour
          + 60 * tm.min
          + tm.sec)
unfolding kernel_mktime
kernel_mktime_lem tm v = found (month-days_before_month (leap (1900 + tm.year)) tm.mon v.mon_in)
  where
    n : ℕ
    n = tm.year - 70

    same_leap : leap (1900 + tm.year) ≡ ((n + 2) % 4 == 0)
    same_leap =
        ap leap {x = 1900 + tm.year} {y = 1970 + n} (omega arith)
        ∙ leap-every-fourth n (omega arith)

    found :
        (s : ℕ) × (get_elem? month tm.mon ≡ some s)
          × (s
              ≡ day_seconds * days_before_month (leap (1900 + tm.year)) tm.mon
                + (if ltb 1 tm.mon && not (leap (1900 + tm.year)) then day_seconds else 0))
          × (days_before_month (leap (1900 + tm.year)) tm.mon < 336)
        → kernel_mktime tm
          ≡ some (
              86400
                * (days_before_year n
                    + days_before_month (leap (1900 + tm.year)) tm.mon
                    + (tm.mday - 1))
              + 3600 * tm.hour
              + 60 * tm.min
              + tm.sec)
    found (s, e, entry, small) =
        rw
          (
            e,
            days_before_year-closed n (omega arith),
            adjust tm.year tm.mon v.from_1970 v.to_2037,
            quarter-years tm.year v.from_1970 v.to_2037,
            sym same_leap,
          )
          (ap some (
            sum32 tm s (days_before_month (leap (1900 + tm.year)) tm.mon) _ ((n + 1) / 4) v entry
              small (adjust_le _) (omega arith)))
