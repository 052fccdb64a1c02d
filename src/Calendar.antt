-- ===== src/Calendar.antt =====
-- The day count of remind-v06.02.10/src/main.c (DSE, FromDSE) and the calendar macros and tables
-- of globals.h. A year is a plain number from `base` on, a month runs from 0 to 11 and a day from
-- 1, as in the source; a date is its number of days since 1 January 1990.
pub mod Months
pub mod Days
pub mod Order
use remind_rb.Base.{
  ℕ, zero, suc, ◌+◌, ◌-◌, ◌*◌, ◌/◌, ◌%◌, Bool, true, false, not, ◌&&◌, [], ◌∷◌, ltb, leb, ◌==◌,
  if◌then◌else◌, get_or,
}

-- BASE and YR_RANGE of custom.h.
abbrev pub base : ℕ
base = 1990

abbrev pub yr_range : ℕ
yr_range = 4000

pub record Date : Type 0 where
  pub year : ℕ
  pub month : ℕ
  pub day : ℕ

-- `((y) % 4) ? 0 : ((!((y) % 100) && ((y) % 400)) ? 0 : 1)`
unfoldable pub is_leap_year : ℕ → Bool
is_leap_year y =
    if not (y % 4 == 0) then false else if (y % 100 == 0) && not (y % 400 == 0) then false else true

-- The table MonthDays, where February has 29 days. An index past the table is answered by 0.
unfoldable pub month_days : ℕ → ℕ
month_days m = get_or (31 ∷ 29 ∷ 31 ∷ 30 ∷ 31 ∷ 30 ∷ 31 ∷ 31 ∷ 30 ∷ 31 ∷ 30 ∷ 31 ∷ []) m 0

unfoldable pub days_in_month : ℕ → ℕ → ℕ
unfolding month_days is_leap_year
days_in_month m y = if not (m == 1) then month_days m else 28 + (if is_leap_year y then 1 else 0)

unfoldable pub days_in_year : ℕ → ℕ
unfolding is_leap_year
days_in_year y = if is_leap_year y then 366 else 365

-- The two rows of the table MonthIndex.
unfoldable pub month_index : Bool → ℕ → ℕ
month_index false m =
    get_or (0 ∷ 31 ∷ 59 ∷ 90 ∷ 120 ∷ 151 ∷ 181 ∷ 212 ∷ 243 ∷ 273 ∷ 304 ∷ 334 ∷ []) m 0
month_index true m =
    get_or (0 ∷ 31 ∷ 60 ∷ 91 ∷ 121 ∷ 152 ∷ 182 ∷ 213 ∷ 244 ∷ 274 ∷ 305 ∷ 335 ∷ []) m 0

-- The days from 1 January 1990 to 1 January of a year from 1990 on; no difference is negative.
unfoldable pub year_start : ℕ → ℕ
year_start y =
    let y1 : ℕ = base - 1 in
    let y2 = y - 1 in
    let y4 = y2 / 4 - y1 / 4 in
    let y100 = y2 / 100 - y1 / 100 in
    let y400 = y2 / 400 - y1 / 400 in 365 * (y - base) + y4 - y100 + y400

abbrev pub date : ℕ → ℕ → ℕ → Date
date y m d = record { year = y; month = m; day = d }

unfoldable pub dse : ℕ → ℕ → ℕ → ℕ
dse year month day = year_start year + month_index (is_leap_year year) month + day - 1

-- `while (try_dse > dse) { try_yr--; try_dse -= DaysInYear(try_yr); }`, a recursion on the year.
unfoldable pub back_year : ℕ → ℕ → ℕ → ℕ × ℕ
back_year zero try_dse n = (zero, try_dse)
back_year (suc p) try_dse n =
    let rest = back_year p (try_dse - days_in_year p) n in
    if ltb n try_dse then rest else (suc p, try_dse)

-- `t = DaysInMonth(try_mon, try_yr); while (dse >= t) { dse -= t; try_mon++; t = ...; }` with a
-- number of rounds.
unfoldable pub find_month : ℕ → ℕ → ℕ → ℕ → ℕ × ℕ
find_month zero y m n = (m, n)
find_month (suc rounds) y m n =
    let t = days_in_month m y in
    let rest = find_month rounds y (m + 1) (n - t) in if leb t n then rest else (m, n)

unfoldable pub from_dse : ℕ → Date
from_dse n =
    let try_yr = n / 365 + base in
    let (y, start) = back_year try_yr (year_start try_yr) n in
    let (m, left) = find_month 11 y 0 (n - start) in date y m (left + 1)
