-- ===== src/Examples/Dates.antt =====
-- Day numbers: runs, and the theorems of Calendar at an input.
use remind_rb.Base.{true, ◌<◌, ◌≡◌, ◌↔◌, refl, arith}
use remind_rb.Calendar.{
  Date, date, dse, from_dse, is_leap_year, days_in_month, days_in_year, month_index, month_days,
  year_start, back_year, find_month,
}
use remind_rb.Calendar.Days.{
  IsValid, Before, dse-lt_iff, from_dse-dse, dse-from_dse, from_dse-IsValid,
}
use remind_rb.Hebrew.{
  days_to_heb_year, is_postponed, rosh_hashana, days_in_heb_year, days_in_heb_months, days_before,
  heb_to_dse, heb_year_of, heb_month_of, dse_to_heb, get_valid_heb_date, jahr_forward,
}
use remind_rb.Hebrew.Valid.{fits_year, get_valid_heb_date-fits}
use remind_rb.Hebrew.Round.{heb_to_dse-dse_to_heb}
use remind_rb.Base.{ℕ, ◌≤◌, some}
use remind_rb.Base.Int.{pos, ◌+ℤ◌, ◌-ℤ◌}

runs : Unit {0}
unfolding dse from_dse is_leap_year days_in_month days_in_year month_index month_days year_start
    back_year find_month
runs = tt

epoch : dse 1990 0 1 ≡ 0
unfolding runs
epoch = refl

leap_day_number : dse 2024 1 29 ≡ 12477
unfolding runs
leap_day_number = refl

leap_day_back : from_dse 12477 ≡ date 2024 1 29
unfolding runs
leap_day_back = refl

abbrev leap_day : Date
leap_day = date 2024 1 29

abbrev may_day : Date
may_day = date 2024 4 1

leap_day-IsValid : IsValid leap_day
unfolding runs
leap_day-IsValid = omega arith

may_day-IsValid : IsValid may_day
unfolding runs
may_day-IsValid = omega arith

from_dse-dse_example : from_dse (dse 2024 1 29) ≡ leap_day
from_dse-dse_example = from_dse-dse leap_day leap_day-IsValid

dse-from_dse_example : dse (from_dse 12477).year (from_dse 12477).month (from_dse 12477).day ≡ 12477
dse-from_dse_example = dse-from_dse 12477

from_dse-IsValid_example : IsValid (from_dse 12477)
from_dse-IsValid_example = from_dse-IsValid 12477

dse-lt_iff_example : (dse 2024 1 29 < dse 2024 4 1) ↔ Before leap_day may_day
dse-lt_iff_example = dse-lt_iff leap_day may_day leap_day-IsValid may_day-IsValid

hebrew_runs : Unit {0}
unfolding runs days_to_heb_year is_postponed rosh_hashana days_in_heb_year days_in_heb_months
    days_before heb_to_dse heb_year_of heb_month_of dse_to_heb ◌+ℤ◌ ◌-ℤ◌
hebrew_runs = tt

-- 3 October 2024 was 1 Tishrey 5785, and 29 February 2024 was 20 Adar A 5784.
new_year_run : heb_to_dse 5785 0 1 ≡ some (pos 12694)
unfolding hebrew_runs
new_year_run = refl

heb_leap_day_run : ◌≡◌ {A = ℕ × ℕ × ℕ} (dse_to_heb 12477) (5784, 5, 20)
unfolding hebrew_runs
heb_leap_day_run = refl

leap_day_year : (from_dse 12477).year ≤ 5987
unfolding hebrew_runs
leap_day_year = omega arith

heb_to_dse-dse_to_heb_example :
    (let t = dse_to_heb 12477 in heb_to_dse t.0 t.1 t.2 ≡ some (pos 12477))
heb_to_dse-dse_to_heb_example = heb_to_dse-dse_to_heb 12477 (omega arith) leap_day_year

-- The anniversary of 30 Kislev in 5784, a year without that day.
get_valid_heb_date-fits_example :
    fits_year (days_in_heb_year 5784) (get_valid_heb_date 5784 2 30 true jahr_forward) ≡ true
get_valid_heb_date-fits_example =
    get_valid_heb_date-fits 5784 2 30 true jahr_forward (omega arith) (omega arith) (omega arith)
      (omega arith)
