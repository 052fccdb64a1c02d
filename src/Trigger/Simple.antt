-- ===== src/Trigger/Simple.antt =====
-- NextSimpleTrig of remind-v06.02.10/src/trigger.c, a function for each case of its switch. The
-- result is `found` for a date, `never` for -1 with no error and `bad_date` for -1 with E_BAD_DATE.
pub mod Loops
pub mod Spec
pub mod Dates
pub mod DayMonths
pub mod Weekdays
pub mod Moved
pub mod MovedYears
pub mod Answer
pub mod DayYear
use remind_rb.Base.{
  ℕ, ◌+◌, ◌-◌, Bool, true, false, Option, none, some, not, ◌&&◌, ◌||◌, ltb, leb, ◌==◌,
  if◌then◌else◌,
}
use remind_rb.Calendar.{base, Date, dse, from_dse, days_in_month, month_days}
use remind_rb.Trigger.{Trigger}
use remind_rb.Trigger.Weekday.{advance_to_wd}
use Loops.{next_month, prev_month, skip_months, skip_years, months_up, months_down}

pub data Simple : Type 0 where
  found : ℕ → Simple
  never bad_date : Simple

-- DSEYear and DSEMonth.
unfoldable pub dse_year : ℕ → ℕ
dse_year n = (from_dse n).year

unfoldable pub dse_month : ℕ → ℕ
dse_month n = (from_dse n).month

unfoldable pub simple_wd : ℕ → ℕ → Simple
simple_wd wd start = found (advance_to_wd start wd)

unfoldable pub simple_day : ℕ → ℕ → Simple
simple_day d start =
    let t = from_dse start in
    let (m, y) = if ltb d t.day then next_month t.month t.year else (t.month, t.year) in
    let (m', y') = skip_months 12 d m y in found (dse y' m' d)

unfoldable pub simple_month : ℕ → ℕ → Simple
simple_month m start =
    let t = from_dse start in
    if t.month == m
    then found start
    else if ltb m t.month
    then found (dse (t.year + 1) m 1)
    else found (dse t.year m 1)

unfoldable pub simple_year : ℕ → ℕ → Simple
simple_year y start =
    let t = from_dse start in
    if t.year == y then found start else if ltb t.year y then found (dse y 0 1) else never

unfoldable pub simple_day_month : ℕ → ℕ → ℕ → Simple
simple_day_month d m start =
    let t = from_dse start in
    if ltb (month_days m) d
    then bad_date
    else let y = if ltb m t.month || ((t.month == m) && ltb d t.day) then t.year + 1 else t.year in
      found (dse (skip_years d m y) m d)

unfoldable pub simple_day_year : ℕ → ℕ → ℕ → Simple
simple_day_year d y start =
    let t = from_dse start in
    if ltb t.year y
    then found (dse y 0 d)
    else if ltb y t.year
    then never
    else if ltb d t.day
    then (if t.month + 1 == 12 then never else found (dse y (months_up d (t.month + 1) y) d))
    else found (dse y (months_up d t.month y) d)

unfoldable pub simple_month_year : ℕ → ℕ → ℕ → Simple
simple_month_year m y start =
    let t = from_dse start in
    if ltb y t.year || ((t.year == y) && ltb m t.month)
    then never
    else if ltb t.year y
    then found (dse y m 1)
    else if t.month == m
    then found start
    else found (dse y m 1)

unfoldable pub simple_date : ℕ → ℕ → ℕ → Simple
simple_date d m y = if ltb (days_in_month m y) d then bad_date else found (dse y m d)

unfoldable pub simple_year_wd : ℕ → ℕ → ℕ → Simple
simple_year_wd y wd start =
    let t = from_dse start in
    let j = advance_to_wd (if ltb t.year y then dse y 0 1 else start) wd in
    if ltb y t.year then never else if ltb y (dse_year j) then never else found j

unfoldable pub simple_month_wd : ℕ → ℕ → ℕ → Simple
simple_month_wd m wd start =
    let t = from_dse start in
    let j = advance_to_wd start wd in
    let later =
      found (advance_to_wd (if leb m t.month then dse (t.year + 1) m 1 else dse t.year m 1) wd) in
    if (t.month == m) && (dse_month j == m) then found j else later

-- The date of day `d` of a month, moved to the weekday, if the month has the day and the date is
-- not before `start`; else what comes next in the code.
unfoldable pub try_month : ℕ → ℕ → ℕ → ℕ → ℕ → Simple → Simple
try_month d m y wd start next =
    let j = advance_to_wd (dse y m d) wd in
    if leb d (days_in_month m y) && leb start j then found j else next

unfoldable pub simple_day_wd : ℕ → ℕ → ℕ → Simple
simple_day_wd d wd start =
    let t = from_dse start in
    let (m2, y2) = prev_month t.month t.year in
    let (m3, y3) = next_month t.month t.year in
    let last = found (advance_to_wd (dse y3 (months_up d m3 y3) d) wd) in
    let this = try_month d t.month t.year wd start last in
    if not (t.month == 0) || ltb base t.year then try_month d m2 y2 wd start this else this

-- `if (DSEYear(j) > trig->y) return -1; if (j >= startdate) return j;`
unfoldable pub stop_after_year : ℕ → ℕ → ℕ → Simple → Simple
stop_after_year y start j next =
    if ltb y (dse_year j) then never else if leb start j then found j else next

-- The last loop tests `DaysInMonth(m, trig->d)`, the day in place of the year, as in the source.
unfoldable pub simple_day_year_wd : ℕ → ℕ → ℕ → ℕ → Simple
simple_day_year_wd d y wd start =
    let t = from_dse start in
    let day_in = λ (m : ℕ). advance_to_wd (dse y m d) wd in
    let j = day_in (months_up d (t.month + 1) d) in
    let last = if t.month == 11 then never else if ltb y (dse_year j) then never else found j in
    let this =
      if leb d (days_in_month t.month y)
      then stop_after_year y start (day_in t.month) last
      else last in
    let before = stop_after_year y start (day_in (months_down d (t.month - 1) y)) this in
    let december = if leb start (day_in 11) then found (day_in 11) else this in
    if ltb (y + 1) t.year || (ltb y t.year && ltb 0 t.month)
    then never
    else if ltb y t.year
    then december
    else if ltb t.year y
    then found (day_in 0)
    else if ltb 0 t.month
    then before
    else this

unfoldable pub simple_day_month_wd : ℕ → ℕ → ℕ → ℕ → Simple
simple_day_month_wd d m wd start =
    let t = from_dse start in
    let y0 = skip_years d m (if ltb base t.year then t.year - 1 else t.year) in
    let y1 = skip_years d m (y0 + 1) in
    let y2 = skip_years d m (y1 + 1) in
    let j0 = advance_to_wd (dse y0 m d) wd in
    let j1 = advance_to_wd (dse y1 m d) wd in
    if ltb (month_days m) d
    then bad_date
    else if leb start j0
    then found j0
    else if leb start j1
    then found j1
    else found (advance_to_wd (dse y2 m d) wd)

unfoldable pub simple_month_year_wd : ℕ → ℕ → ℕ → ℕ → Simple
simple_month_year_wd m y wd start =
    let t = from_dse start in
    let j = advance_to_wd start wd in
    if ltb y t.year || ((t.year == y) && ltb m t.month)
    then never
    else if ltb t.year y || ((y == t.year) && ltb t.month m)
    then found (advance_to_wd (dse y m 1) wd)
    else if (from_dse j).month == m
    then found j
    else never

unfoldable pub simple_date_wd : ℕ → ℕ → ℕ → ℕ → Simple
simple_date_wd d m y wd =
    if ltb (days_in_month m y) d then bad_date else found (advance_to_wd (dse y m d) wd)

-- The switch: on the day, the month, the year and whether there is a weekday.
unfoldable pub simple_switch : ℕ → ℕ → Option ℕ → Option ℕ → Option ℕ → Bool → Simple
simple_switch start wd none none none false = found start
simple_switch start wd none none none true = simple_wd wd start
simple_switch start wd (some d) none none false = simple_day d start
simple_switch start wd none (some m) none false = simple_month m start
simple_switch start wd none none (some y) false = simple_year y start
simple_switch start wd (some d) (some m) none false = simple_day_month d m start
simple_switch start wd (some d) none (some y) false = simple_day_year d y start
simple_switch start wd none (some m) (some y) false = simple_month_year m y start
simple_switch start wd (some d) (some m) (some y) false = simple_date d m y
simple_switch start wd none none (some y) true = simple_year_wd y wd start
simple_switch start wd none (some m) none true = simple_month_wd m wd start
simple_switch start wd (some d) none none true = simple_day_wd d wd start
simple_switch start wd (some d) none (some y) true = simple_day_year_wd d y wd start
simple_switch start wd (some d) (some m) none true = simple_day_month_wd d m wd start
simple_switch start wd none (some m) (some y) true = simple_month_year_wd m y wd start
simple_switch start wd (some d) (some m) (some y) true = simple_date_wd d m y wd

unfoldable pub next_simple_trig : ℕ → Trigger → Simple
next_simple_trig start t = simple_switch start t.wd t.d t.m t.y (not (t.wd == 0))
