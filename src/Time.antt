-- ===== src/Time.antt =====
-- kernel/mktime.c: the seconds since 1970 of a date from the clock.
-- The fields of `struct tm` come from the decimal digits of the clock, and are natural numbers. The
-- table `month` is read with 0 beyond its end; the program does not go there.
pub mod Calendar
mod Tests
use linux.Prelude.{
  ℕ, ◌+◌, ◌-◌, ◌*◌, ◌/◌, ◌%◌, List, [], ◌∷◌, Bool, not, ◌&&◌, ℤ, pos, ltb, leb, ◌==◌, if◌then◌else◌,
  get_or,
}
use linux.Prelude.{wrap_long}
use linux.Prelude.{◌+ℤ◌, ◌-ℤ◌}

-- The fields of `struct tm` that count
pub record Tm : Type 0 where
  pub sec : ℕ
  pub min : ℕ
  pub hour : ℕ
  pub mday : ℕ
  pub mon : ℕ
  pub year : ℕ

abbrev pub minute_s : ℕ
minute_s = 60

abbrev pub hour_s : ℕ
hour_s = 60 * minute_s

abbrev pub day_s : ℕ
day_s = 24 * hour_s

abbrev pub year_s : ℕ
year_s = 365 * day_s

-- `month`, for a leap year
unfoldable pub month : List ℕ
month =
    0
    ∷ day_s * 31
    ∷ day_s * (31 + 29)
    ∷ day_s * (31 + 29 + 31)
    ∷ day_s * (31 + 29 + 31 + 30)
    ∷ day_s * (31 + 29 + 31 + 30 + 31)
    ∷ day_s * (31 + 29 + 31 + 30 + 31 + 30)
    ∷ day_s * (31 + 29 + 31 + 30 + 31 + 30 + 31)
    ∷ day_s * (31 + 29 + 31 + 30 + 31 + 30 + 31 + 31)
    ∷ day_s * (31 + 29 + 31 + 30 + 31 + 30 + 31 + 31 + 30)
    ∷ day_s * (31 + 29 + 31 + 30 + 31 + 30 + 31 + 31 + 30 + 31)
    ∷ day_s * (31 + 29 + 31 + 30 + 31 + 30 + 31 + 31 + 30 + 31 + 30)
    ∷ []

-- `year`: two-digit years below 70 are those from 2000 on.
pub years : Tm → ℕ
years tm = if leb 70 tm.year then tm.year - 70 else tm.year + 100 - 70

-- The sum of the function, before it is cut to a `long`: each step wraps, and so does the whole.
pub elapsed : Tm → ℤ
elapsed tm =
    let year = years tm in
    let res = pos (year_s * year + day_s * ((year + 1) / 4) + get_or month tm.mon 0) in
    let res' = if ltb 1 tm.mon && not ((year + 2) % 4 == 0) then res -ℤ pos day_s else res in
    (res' +ℤ (pos (day_s * tm.mday) -ℤ pos day_s))
    +ℤ pos (hour_s * tm.hour + minute_s * tm.min + tm.sec)

pub kernel_mktime : Tm → ℤ
kernel_mktime tm = wrap_long (elapsed tm)
