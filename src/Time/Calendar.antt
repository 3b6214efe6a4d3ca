-- ===== src/Time/Calendar.antt =====
-- `kernel_mktime` against the Gregorian calendar.
use linux.Prelude.{
  ℕ, zero, suc, ◌+◌, ◌-◌, ◌*◌, ◌/◌, ◌%◌, ◌^◌, ◌≤◌, ◌<◌, ◌≡◌, ◌∙◌, ap, refl, Bool, true, false, not,
  ◌&&◌, ◌||◌, pos, wrap_long, ltb, ◌==◌, if◌then◌else◌, get_or, ◌+ℤ◌, ◌-ℤ◌, arith, Bool-cases, inl,
  inr,
}
use linux.Time.{Tm, month, years, elapsed, kernel_mktime}

-- The Gregorian rule
abbrev pub is_leap : ℕ → Bool
is_leap y = (y % 4 == 0) && (not (y % 100 == 0) || (y % 400 == 0))

-- The days from the beginning of 1970 to that of 1970 + n, year by year.
unfoldable pub days_before_year : ℕ → ℕ
days_before_year zero = 0
days_before_year (suc n) = days_before_year n + (if is_leap (1970 + n) then 366 else 365)

-- The days of the months, from January on.
abbrev pub days_of_month : Bool → ℕ → ℕ
days_of_month leap m =
    if m == 1
    then (if leap then 29 else 28)
    else if m == 3 || m == 5 || m == 8 || m == 10
    then 30
    else 31

unfoldable pub days_before_month : Bool → ℕ → ℕ
days_before_month leap zero = 0
days_before_month leap (suc m) = days_before_month leap m + days_of_month leap m

-- The seconds since the beginning of 1970, by the calendar.
abbrev pub seconds : Tm → ℕ
seconds tm =
    86400
      * (days_before_year (years tm)
          + days_before_month (is_leap (1970 + years tm)) tm.mon
          + (tm.mday - 1))
    + 3600 * tm.hour
    + 60 * tm.min
    + tm.sec

days_before_year_lem : (n : ℕ) → n ≤ 130 → days_before_year n ≡ 365 * n + (n + 1) / 4
unfolding days_before_year
days_before_year_lem zero h = refl
days_before_year_lem (suc n) h = let ih = days_before_year_lem n (omega arith) in ground arith

is_leap_lem : (n : ℕ) → n < 130 → is_leap (1970 + n) ≡ ((n + 2) % 4 == 0)
is_leap_lem n h = ground arith

-- A claim on all months from a check of each.
all_months : ((m : ℕ) → Bool) → ℕ → Bool
all_months p zero = true
all_months p (suc n) = p n && all_months p n

month_of_all : (p : (m : ℕ) → Bool) (n m : ℕ) → all_months p n ≡ true → m < n → p m ≡ true
unfolding all_months
month_of_all p zero m h k = absurd (omega arith)
month_of_all p (suc n) m h k = elim (Bool-cases (m == n)) [
  | inl e ↦ let q : m ≡ n = ground arith in rw q (ground arith)
  | inr e ↦ month_of_all p n m (ground arith) (ground arith)
]

abbrev month_agrees : ℕ → Bool
month_agrees m = get_or month m 0 == 86400 * days_before_month true m

months_agree : all_months month_agrees 12 ≡ true
unfolding days_before_month all_months month
months_agree = refl

month_lem : (m : ℕ) → m < 12 → get_or month m 0 ≡ 86400 * days_before_month true m
month_lem m h = let e = month_of_all month_agrees 12 m months_agree h in ground arith

common_year :
    (m : ℕ) → days_before_month true m ≡ days_before_month false m + (if ltb 1 m then 1 else 0)
unfolding days_before_month
common_year zero = refl
common_year (suc zero) = refl
common_year (suc (suc zero)) = refl
common_year (suc (suc (suc m))) = let ih = common_year (suc (suc m)) in ground arith

-- The sum that `kernel_mktime` takes, of n years with q leap days, M seconds of months in a leap
-- year, and the rest.
total :
    (leap : Bool) (mon n q M MT MF mday rest : ℕ)
    → 1 ≤ mday
    → M ≡ 86400 * MT
    → MT ≡ MF + (if ltb 1 mon then 1 else 0)
    → ((if ltb 1 mon && not leap
            then pos (31536000 * n + 86400 * q + M) -ℤ pos 86400
            else pos (31536000 * n + 86400 * q + M))
          +ℤ (pos (86400 * mday) -ℤ pos 86400))
        +ℤ pos rest
      ≡ pos (86400 * (365 * n + q + (if leap then MT else MF) + (mday - 1)) + rest)
unfolding ◌+ℤ◌ ◌-ℤ◌
total leap mon n q M MT MF mday rest d e c = ground arith

days_before_month_lem :
    (leap : Bool) (m : ℕ)
    → days_before_month leap m
      ≡ (if leap then days_before_month true m else days_before_month false m)
days_before_month_lem true m = refl
days_before_month_lem false m = refl

elapsed_lem : (tm : Tm) → tm.mon < 12 → 1 ≤ tm.mday → years tm < 130 → elapsed tm ≡ pos (seconds tm)
unfolding elapsed
elapsed_lem tm m d y =
    let n = years tm in
    let leap = (n + 2) % 4 == 0 in
    let t =
      total leap tm.mon n ((n + 1) / 4) (get_or month tm.mon 0) (days_before_month true tm.mon)
        (days_before_month false tm.mon) tm.mday (3600 * tm.hour + 60 * tm.min + tm.sec) d
        (month_lem tm.mon m) (common_year tm.mon) in
    rw (is_leap_lem n y, days_before_year_lem n (omega arith), days_before_month_lem leap tm.mon)
      (t ∙ ap pos (omega arith))

-- The seconds that `kernel_mktime` gives are those of the Gregorian calendar, for every date with a
-- month of the year and a day from 1 on, in a year before 2100, whose seconds a `long` holds, which
-- are those to the morning of 19 January 2038.
pub kernel_mktime_lem :
    (tm : Tm)
    → tm.mon < 12
    → 1 ≤ tm.mday
    → years tm < 130
    → seconds tm < 2 ^ 31
    → kernel_mktime tm ≡ pos (seconds tm)
unfolding kernel_mktime
kernel_mktime_lem tm m d y h = ap wrap_long (elapsed_lem tm m d y) ∙ wrapped (seconds tm) h
  where
    wrapped : (n : ℕ) → n < 2 ^ 31 → wrap_long (pos n) ≡ pos n
    wrapped n h =
        let a : n % 2 ^ 32 ≡ n = omega arith in
        let b : ltb n (2 ^ 31) ≡ true = ground arith in rw (a, b) refl
