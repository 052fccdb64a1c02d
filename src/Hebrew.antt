-- ===== src/Hebrew.antt =====
-- The Hebrew calendar of remind-v06.02.10/src/hbcal.c: the conversions between Hebrew dates and day
-- numbers. Years run as in the source, months from 0 for Tishrey to 12 for Elul, with a length
-- of 0 for an Adar A that the year does not have.
pub mod Round
pub mod Valid
use remind_rb.Base.{
  ℕ, zero, suc, ◌+◌, ◌-◌, ◌*◌, ◌/◌, ◌%◌, Bool, true, false, not, ◌&&◌, ◌||◌, List, [], ◌∷◌, Option,
  none, some, ltb, leb, ◌==◌, if◌then◌else◌, get_or,
}
use remind_rb.Base.Int.{ℤ, pos, negsuc, pos_part, ◌+ℤ◌, ◌-ℤ◌, sub_ℕ, ltb_ℤ}
use remind_rb.Calendar.{base, yr_range, from_dse}

abbrev pub correction : ℕ
correction = 732774

abbrev hour : ℕ
hour = 1080

abbrev day : ℕ
day = 24 * hour

abbrev m : ℕ → ℕ → ℕ
m h p = h * hour + p

-- The special cases of Molad Zaken, on the weekday, the part of the day and the year in its cycle.
unfoldable pub is_postponed : ℕ → ℕ → ℕ → Bool
is_postponed dw nm l =
    leb (18 * hour) nm
    || ((ltb l 12 && ((dw == 3) && leb (m 9 204) nm))
        || (ltb l 7 && ((dw == 2) && leb (m 15 589) nm)))

unfoldable pub days_to_heb_year : ℕ → ℕ
days_to_heb_year y =
    let l = y * 7 + 1 in
    let months = y * 12 + l / 19 in
    let nm = months * (day + m 12 793) + m 1 779 in
    let s = months * 28 + nm / day - 2 in
    let in_week = nm % (7 * day) in
    let dw = in_week / day in
    let late = is_postponed dw (in_week % day) (l % 19) in
    let s' = if late then s + 1 else s in
    let dw' = if late then dw + 1 else dw in
    if (dw' == 1) || ((dw' == 4) || (dw' == 6)) then s' + 1 else s'

unfoldable pub rosh_hashana : ℕ → ℤ
rosh_hashana i = sub_ℕ (days_to_heb_year (i - 3744)) correction

unfoldable pub days_in_heb_year : ℕ → ℕ
days_in_heb_year y = days_to_heb_year (y - 3743) - days_to_heb_year (y - 3744)

-- The lengths of the months; the last entry, for ADAR, has no place in the year.
unfoldable pub days_in_heb_months : ℕ → List ℕ
days_in_heb_months ylen =
    let leap = ltb 355 ylen in
    let rest = if leap then ylen - 30 else ylen in
    30
    ∷ (if rest == 355 then 30 else 29)
    ∷ (if rest == 353 then 29 else 30)
    ∷ 29
    ∷ 30
    ∷ (if leap then 30 else 0)
    ∷ 29
    ∷ 30
    ∷ 29
    ∷ 30
    ∷ 29
    ∷ 30
    ∷ 29
    ∷ []

-- `for (m=0; m<hm; m++) rh += monlens[m];`
unfoldable pub days_before : List ℕ → ℕ → ℕ
days_before [] hm = 0
days_before (l ∷ ls) zero = 0
days_before (l ∷ ls) (suc hm) = l + days_before ls hm

-- `none` stands for -1, out of the range of years.
unfoldable pub heb_to_dse : ℕ → ℕ → ℕ → Option ℤ
heb_to_dse hy hm hd =
    if ltb hy (base + 3761) || ltb (base + yr_range + 3760) hy
    then none
    else some (
        rosh_hashana hy
        +ℤ pos (days_before (days_in_heb_months (days_in_heb_year hy)) hm)
        +ℤ (pos hd -ℤ pos 1))

-- `while ((rh=RoshHashana(y))>dse) y--;`
unfoldable pub heb_year_of : ℕ → ℕ → ℕ
heb_year_of zero n = zero
heb_year_of (suc y) n =
    let rest = heb_year_of y n in if ltb_ℤ (pos n) (rosh_hashana (suc y)) then rest else suc y

-- `while((dse >= monlen[m]) || !monlen[m]) { dse -= monlen[m]; m++; }`
unfoldable pub heb_month_of : List ℕ → ℕ → ℕ × ℕ
heb_month_of [] n = (0, n)
heb_month_of (l ∷ ls) n =
    let rest = heb_month_of ls (n - l) in if ltb n l then (0, n) else (suc rest.0, rest.1)

-- The year, the month and the day.
unfoldable pub dse_to_heb : ℕ → ℕ × ℕ × ℕ
dse_to_heb n =
    let y = heb_year_of ((from_dse n).year + 3763) n in
    let r =
      heb_month_of (days_in_heb_months (days_in_heb_year y)) (pos_part (pos n -ℤ rosh_hashana y)) in
    (y, r.0, r.1 + 1)

-- JAHR_NONE, JAHR_FORWARD and JAHR_BACKWARD.
pub data Jahr : Type 0 where
  jahr_none jahr_forward jahr_backward : Jahr

abbrev max_mon_len : List ℕ
max_mon_len = 30 ∷ 30 ∷ 30 ∷ 29 ∷ 30 ∷ 30 ∷ 29 ∷ 30 ∷ 29 ∷ 30 ∷ 29 ∷ 30 ∷ 29 ∷ 29 ∷ []

-- The month and the day, or an error.
pub data HebDate : Type 0 where
  heb_ok : ℕ → ℕ → HebDate
  bad_heb_date bad_date_in_year software_error : HebDate

-- ADAR, month 13, becomes Adar A or Adar B; `true` is ADAR2ADARA.
unfoldable pub convert_adar : Bool → List ℕ → ℕ → ℕ
convert_adar to_a monlen min =
    if min == 13 then (if to_a && not (get_or monlen 5 0 == 0) then 5 else 6) else min

-- A month that the day does not fit, by the rule for anniversaries.
unfoldable pub move_by_jahr : Jahr → ℕ → ℕ → HebDate
move_by_jahr jahr_none min din = bad_date_in_year
move_by_jahr jahr_forward min din =
    if min == 2
    then heb_ok 3 1
    else if min == 1
    then heb_ok 2 1
    else if min == 5
    then (if ltb 29 din then heb_ok 7 1 else heb_ok 6 din)
    else software_error
move_by_jahr jahr_backward min din =
    if min == 2
    then heb_ok 2 29
    else if min == 1
    then heb_ok 1 29
    else if min == 5
    then (if ltb 29 din then heb_ok 4 30 else heb_ok 6 din)
    else software_error

-- On the length of the year.
unfoldable pub valid_in_year : ℕ → ℕ → ℕ → Bool → Jahr → HebDate
valid_in_year ylen min din to_a jahr =
    let monlen = days_in_heb_months ylen in
    let month = convert_adar to_a monlen min in
    if ltb din 1 || (ltb 13 min || ltb (get_or max_mon_len min 0) din)
    then bad_heb_date
    else if leb din (get_or monlen month 0)
    then heb_ok month din
    else move_by_jahr jahr month din

unfoldable pub get_valid_heb_date : ℕ → ℕ → ℕ → Bool → Jahr → HebDate
get_valid_heb_date yin min din to_a jahr = valid_in_year (days_in_heb_year yin) min din to_a jahr
