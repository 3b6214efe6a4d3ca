-- ===== src/Time/Tests.antt =====
-- Dates, and the theorem there.
use linux.Prelude.{◌≡◌, refl, pos, arith}
use linux.Prelude.{◌+ℤ◌, ◌-ℤ◌}
use linux.Time.{Tm, month, years, elapsed, kernel_mktime}
use linux.Time.Calendar.{seconds, days_before_year, days_before_month, kernel_mktime_lem}

-- 29 February 2012, 12:30:05
abbrev leap_day : Tm
leap_day = record { sec = 5; min = 30; hour = 12; mday = 29; mon = 1; year = 12 }

-- The last second of 1999
abbrev last_century : Tm
last_century = record { sec = 59; min = 59; hour = 23; mday = 31; mon = 11; year = 99 }

leap_day_s : kernel_mktime leap_day ≡ pos 1330518605
unfolding kernel_mktime elapsed years month ◌+ℤ◌ ◌-ℤ◌
leap_day_s = refl

last_century_s : kernel_mktime last_century ≡ pos 946684799
unfolding kernel_mktime elapsed years month ◌+ℤ◌ ◌-ℤ◌
last_century_s = refl

leap_day-seconds : seconds leap_day ≡ 1330518605
unfolding years days_before_year days_before_month
leap_day-seconds = refl

kernel_mktime_lem_example : kernel_mktime leap_day ≡ pos (seconds leap_day)
unfolding years
kernel_mktime_lem_example =
    kernel_mktime_lem leap_day (omega arith) (omega arith) (omega arith)
      (let e = leap_day-seconds in omega (arith, e))
