-- ===== src/Calendar/Days.antt =====
-- Valid dates and their day numbers: DSE and FromDSE undo one another, and DSE keeps the order.
use remind_rb.Base.{
  ℕ, zero, suc, ◌+◌, ◌-◌, ◌/◌, ◌≤◌, ◌<◌, ◌≡◌, ◌↔◌, ◌⊎◌, inl, inr, refl, ap, arith, dec_le, dec_lt,
  lt→ltb, le→leb,
}
use native.Mathlib.Numerals.{add-one}
use remind_rb.Calendar.{
  base, Date, is_leap_year, days_in_month, days_in_year, month_index, year_start, dse, back_year,
  find_month, from_dse,
}
use remind_rb.Calendar.Months.{
  month_index-suc, month_index_ends, month_index-lt, month_end, year_start-suc, year_start-lt,
}

pub record IsValid (t : Date) : Type 0 where
  pub year_in : base ≤ t.year
  pub month_in : t.month < 12
  pub day_from : 1 ≤ t.day
  pub day_to : t.day ≤ days_in_month t.month t.year

abbrev pub dse_of : Date → ℕ
dse_of t = dse t.year t.month t.day

-- Calendar order: by year, then month, then day.
abbrev pub Before : Date → Date → Type 0
Before s t =
    (s.year < t.year)
    ⊎ ((s.year ≡ t.year) × ((s.month < t.month) ⊎ ((s.month ≡ t.month) × (s.day < t.day))))

pub dse-eq : (y m d : ℕ) → 1 ≤ d → dse y m d + 1 ≡ year_start y + month_index (is_leap_year y) m + d
unfolding dse
dse-eq y m d h = omega arith

-- A valid date lies in its year.
pub dse_in_year :
    (t : Date)
    → IsValid t
    → (year_start t.year ≤ dse_of t) × (dse_of t < year_start t.year + days_in_year t.year)
dse_in_year t v =
    omega (arith, dse-eq t.year t.month t.day v.day_from, month_end t.month t.year v.month_in)

-- An earlier date has a smaller day number.
pub Before-dse : (a b : Date) → IsValid a → IsValid b → Before a b → dse_of a < dse_of b
Before-dse a b va vb (inl lt) =
    omega (arith, dse_in_year a va, dse_in_year b vb, year_start-lt a.year b.year va.year_in lt)
Before-dse a b va vb (inr (y, inl lt)) =
    let e : dse a.year b.month b.day ≡ dse_of b = ap (λ k. dse k b.month b.day) y in
    omega (
      arith,
      e,
      dse-eq a.year a.month a.day va.day_from,
      dse-eq a.year b.month b.day vb.day_from,
      month_index-lt a.month b.month a.year lt vb.month_in,
    )
Before-dse a b va vb (inr (y, inr (m, lt))) =
    let e : dse a.year a.month b.day ≡ dse_of b = simp (y, m) in
    omega
      (arith, e, dse-eq a.year a.month a.day va.day_from, dse-eq a.year a.month b.day vb.day_from)

-- What the year loop finds: the year that holds day `n`, with its first day.
record IsYearOf (n : ℕ) (r : ℕ × ℕ) : Type 0 where
  from : base ≤ r.0
  start_is : r.1 ≡ year_start r.0
  starts : r.1 ≤ n
  ends : n < r.1 + days_in_year r.0

year_start_base : year_start base ≡ 0
unfolding year_start
year_start_base = refl

back_year-IsYearOf :
    (y n : ℕ) → base ≤ y → n < year_start (suc y) → IsYearOf n (back_year y (year_start y) n)
unfolding back_year
back_year-IsYearOf zero n h k = absurd (omega arith)
back_year-IsYearOf (suc p) n h k = elim (dec_lt n (year_start (suc p))) [
  | no q ↦ ground (arith, year_start-suc (suc p) h)
  | yes q ↦
      let b : base ≤ p = elim (dec_le base p) [
        | yes r ↦ r
        | no r ↦
            absurd (
              let e : suc p ≡ base = omega arith in omega (arith, ap year_start e, year_start_base))
      ] in
      let e : year_start (suc p) - days_in_year p ≡ year_start p =
        omega (arith, year_start-suc p b) in
      rw (lt→ltb _ _ q, e) (back_year-IsYearOf p n b q)
]

try_year : (n : ℕ) → n < year_start (suc (n / 365 + base))
unfolding year_start
try_year n = omega arith

-- What the month loop finds: the month that holds day `n` of the months from `m` on.
record IsMonthOf (y n : ℕ) (r : ℕ × ℕ) : Type 0 where
  month_in : r.0 < 12
  left_lt : r.1 < days_in_month r.0 y
  sum_is : month_index (is_leap_year y) r.0 + r.1 ≡ n

find_month-IsMonthOf :
    (rounds y m n : ℕ)
    → m + rounds ≡ 11
    → month_index (is_leap_year y) m + n < days_in_year y
    → IsMonthOf y (month_index (is_leap_year y) m + n) (find_month rounds y m n)
unfolding find_month
find_month-IsMonthOf zero y m n h k =
    let e : m ≡ 11 = omega arith in
    rw e (record {
      month_in = omega arith;
      left_lt = omega (arith, month_index_ends y, ap (λ j. month_index (is_leap_year y) j) e);
      sum_is = refl;
    })
find_month-IsMonthOf (suc rounds) y m n h k = elim (dec_le (days_in_month m y) n) [
  | no q ↦ ground arith
  | yes q ↦
      let s : month_index (is_leap_year y) (suc m) + (n - days_in_month m y)
          ≡ month_index (is_leap_year y) m + n =
        omega (arith, month_index-suc m y (omega arith)) in
      rw (le→leb _ _ q, ← s, add-one)
        (find_month-IsMonthOf rounds y (suc m) (n - days_in_month m y) (omega arith)
          (omega (arith, s)))
]

-- FromDSE and DSE both ways.
from_dse_inverse : (n : ℕ) → IsValid (from_dse n) × (dse_of (from_dse n) ≡ n)
unfolding from_dse
from_dse_inverse n =
    let yr = back_year-IsYearOf (n / 365 + base) n (omega arith) (try_year n) in
    let r = back_year (n / 365 + base) (year_start (n / 365 + base)) n in
    let mo =
      find_month-IsMonthOf 11 r.0 0 (n - r.1) refl
        (omega (arith, yr.ends, yr.starts, month_index_ends r.0)) in
    let o : month_index (is_leap_year r.0) 0 + (n - r.1) ≡ n - r.1 =
      omega (arith, month_index_ends r.0) in
    let y = r.0 in
    let m = (find_month 11 r.0 0 (n - r.1)).0 in
    let left = (find_month 11 r.0 0 (n - r.1)).1 in
    (
      record {
        year_in = yr.from;
        month_in = mo.month_in;
        day_from = omega arith;
        day_to = omega (arith, mo.left_lt);
      },
      omega (arith, dse-eq y m (left + 1) (omega arith), mo.sum_is, o, yr.start_is, yr.starts),
    )

-- FromDSE gives a valid date for every day number.
pub from_dse-IsValid : (n : ℕ) → IsValid (from_dse n)
from_dse-IsValid n = (from_dse_inverse n).0

-- DSE of the date that FromDSE gives is the day number.
pub dse-from_dse : (n : ℕ) → dse_of (from_dse n) ≡ n
dse-from_dse n = (from_dse_inverse n).1

date_eq : (a b : Date) → a.year ≡ b.year → a.month ≡ b.month → a.day ≡ b.day → a ≡ b
date_eq a b p q r = ground arith

compare_dates : (a b : Date) → (Before a b ⊎ Before b a) ⊎ (a ≡ b)
compare_dates a b = ground (arith, date_eq a b)

-- Two valid dates with one day number are equal.
pub dse_inj : (a b : Date) → IsValid a → IsValid b → dse_of a ≡ dse_of b → a ≡ b
dse_inj a b va vb e = elim (compare_dates a b) [
  | inl (inl p) ↦ absurd (omega (arith, Before-dse a b va vb p))
  | inl (inr p) ↦ absurd (omega (arith, Before-dse b a vb va p))
  | inr p ↦ p
]

-- FromDSE of the day number of a valid date gives the date back.
pub from_dse-dse : (t : Date) → IsValid t → from_dse (dse_of t) ≡ t
from_dse-dse t v = dse_inj _ t (from_dse-IsValid (dse_of t)) v (dse-from_dse (dse_of t))

-- The day numbers of two valid dates are in the order of the calendar, in both directions.
pub dse-lt_iff : (a b : Date) → IsValid a → IsValid b → (dse_of a < dse_of b) ↔ Before a b
dse-lt_iff a b va vb = (back (compare_dates a b), Before-dse a b va vb)
  where
    back : (Before a b ⊎ Before b a) ⊎ (a ≡ b) → dse_of a < dse_of b → Before a b
    back (inl (inl p)) h = p
    back (inl (inr p)) h = absurd (omega (arith, Before-dse b a vb va p))
    back (inr p) h = absurd (omega (arith, ap dse_of p))
