-- ===== src/Calendar/Months.antt =====
-- The tables MonthDays and MonthIndex, and the number of days before a year, agree with the leap
-- year rule.
use remind_rb.Base.{
  ℕ, zero, suc, ◌+◌, ◌≤◌, ◌<◌, ◌≡◌, ◌≢◌, refl, Bool, true, false, ◌&&◌, arith, leb, ◌==◌, every,
  every_below, if◌then◌else◌, dec_le,
}
use remind_rb.Calendar.{
  base, is_leap_year, month_days, days_in_month, days_in_year, month_index, year_start,
}
use native.Mathlib.Nat.{le_refl}

-- The length of a month in a year that is a leap year or not.
abbrev length_in : Bool → ℕ → ℕ
length_in b m = if m == 1 then (if b then 29 else 28) else month_days m

step_table :
    (b : Bool) → every 11 (λ m. month_index b (suc m) == month_index b m + length_in b m) ≡ true
unfolding every month_index month_days
step_table true = refl
step_table false = refl

range_table :
    (b : Bool)
    → every 12
        (λ m. leb 28 (length_in b m) && leb (length_in b m) (month_days m) && leb (month_days m) 31)
      ≡ true
unfolding every month_days
range_table true = refl
range_table false = refl

days_in_month-length_in : (m y : ℕ) → days_in_month m y ≡ length_in (is_leap_year y) m
unfolding days_in_month
days_in_month-length_in m y = ground arith

pub days_in_other : (m y : ℕ) → m ≢ 1 → days_in_month m y ≡ month_days m
days_in_other m y h = ground (arith, days_in_month-length_in m y)

pub days_in_february : (y : ℕ) → days_in_month 1 y ≡ (if is_leap_year y then 29 else 28)
days_in_february y = days_in_month-length_in 1 y

-- Each entry of MonthIndex is the one before it with the length of the month added.
pub month_index-suc :
    (m y : ℕ)
    → m < 11
    → month_index (is_leap_year y) (suc m) ≡ month_index (is_leap_year y) m + days_in_month m y
month_index-suc m y h =
    ground (arith, days_in_month-length_in m y, every_below _ 11 m (step_table (is_leap_year y)) h)

pub days_in_month_range :
    (m y : ℕ)
    → m < 12
    → (28 ≤ days_in_month m y) × (days_in_month m y ≤ month_days m) × (month_days m ≤ 31)
days_in_month_range m y h =
    ground (arith, days_in_month-length_in m y, every_below _ 12 m (range_table (is_leap_year y)) h)

pub month_index_ends :
    (y : ℕ)
    → (month_index (is_leap_year y) 0 ≡ 0)
      × (month_index (is_leap_year y) 11 + days_in_month 11 y ≡ days_in_year y)
unfolding days_in_month days_in_year month_index
month_index_ends y = ground arith

month_index_mono :
    (i j y : ℕ) → i ≤ j → j < 12 → month_index (is_leap_year y) i ≤ month_index (is_leap_year y) j
month_index_mono i zero y h k = let e : i ≡ 0 = omega arith in rw e (le_refl _)
month_index_mono i (suc j) y h k = elim (dec_le i j) [
  | yes p ↦ omega (arith, month_index_mono i j y p (omega arith), month_index-suc j y (omega arith))
  | no p ↦ let e : i ≡ suc j = omega arith in rw e (le_refl _)
]

-- The days of an earlier month come before those of a later one.
pub month_index-lt :
    (i j y : ℕ)
    → i < j
    → j < 12
    → month_index (is_leap_year y) i + days_in_month i y ≤ month_index (is_leap_year y) j
month_index-lt i j y h k =
    omega (arith, month_index-suc i y (omega arith), month_index_mono (suc i) j y h k)

-- Every month lies in the year.
pub month_end :
    (m y : ℕ) → m < 12 → month_index (is_leap_year y) m + days_in_month m y ≤ days_in_year y
month_end m y h = elim (dec_le 11 m) [
  | yes p ↦ let e : m ≡ 11 = omega arith in rw e (omega (arith, month_index_ends y))
  | no p ↦ omega (arith, month_index-lt m 11 y (omega arith) (omega arith), month_index_ends y)
]

pub year_start-suc : (y : ℕ) → base ≤ y → year_start (suc y) ≡ year_start y + days_in_year y
unfolding year_start days_in_year is_leap_year
year_start-suc y h = ground arith

pub year_start_mono : (y z : ℕ) → base ≤ y → y ≤ z → year_start y ≤ year_start z
year_start_mono y zero b h = absurd (omega arith)
year_start_mono y (suc z) b h = elim (dec_le y z) [
  | yes p ↦ omega (arith, year_start_mono y z b p, year_start-suc z (omega arith))
  | no p ↦ let e : y ≡ suc z = omega arith in rw e (le_refl _)
]

-- The days of an earlier year come before those of a later one.
pub year_start-lt : (y z : ℕ) → base ≤ y → y < z → year_start y + days_in_year y ≤ year_start z
year_start-lt y z b h = omega (arith, year_start-suc y b, year_start_mono (suc y) z (omega arith) h)
