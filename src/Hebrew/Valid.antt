-- ===== src/Hebrew/Valid.antt =====
-- GetValidHebDate of remind-v06.02.10/src/hbcal.c.
use remind_rb.Base.{
  ℕ, ◌≤◌, ◌<◌, ◌≡◌, refl, Bool, true, false, not, ◌&&◌, ◌||◌, ltb, leb, get_or, arith, every,
  every_below,
}
use remind_rb.Hebrew.{
  days_in_heb_year, days_in_heb_months, Jahr, jahr_none, jahr_forward, jahr_backward, HebDate,
  heb_ok, bad_heb_date, bad_date_in_year, software_error, convert_adar, move_by_jahr, valid_in_year,
  get_valid_heb_date,
}
use remind_rb.Hebrew.Round.{is_length, year_is_length}

-- A test of the answer: a date that the year has, or no software error.
abbrev pub fits_year : ℕ → HebDate → Bool
fits_year ylen (heb_ok m d) = ltb m 13 && (leb 1 d && leb d (get_or (days_in_heb_months ylen) m 0))
fits_year ylen bad_heb_date = true
fits_year ylen bad_date_in_year = true
fits_year ylen software_error = false

valid_table :
    (to_a : Bool) (j : Jahr)
    → every 386 (λ n.
      not (is_length n)
      || every 14 (λ min. every 31 (λ din. fits_year n (valid_in_year n min din to_a j))))
      ≡ true
unfolding every valid_in_year days_in_heb_months convert_adar move_by_jahr
valid_table true jahr_none = refl
valid_table true jahr_forward = refl
valid_table true jahr_backward = refl
valid_table false jahr_none = refl
valid_table false jahr_forward = refl
valid_table false jahr_backward = refl

table_at :
    (n min din : ℕ) (to_a : Bool) (j : Jahr)
    → n < 386
    → is_length n ≡ true
    → min < 14
    → din < 31
    → fits_year n (valid_in_year n min din to_a j) ≡ true
table_at n min din to_a j h k l i =
    let year : every 14 (λ a. every 31 (λ b. fits_year n (valid_in_year n a b to_a j))) ≡ true =
      ground (arith, k, every_below _ 386 n (valid_table to_a j) h) in
    every_below _ 31 din (every_below _ 14 min year l) i

-- For a year from 3744 to 10742, a month from Tishrey to ADAR and a day up to 30, GetValidHebDate
-- answers with a date that the year has, or that there is no such date; it never ends in one of
-- its software errors. This holds for both readings of ADAR and for every rule of anniversaries.
pub get_valid_heb_date-fits :
    (y min din : ℕ) (to_a : Bool) (j : Jahr)
    → 3744 ≤ y
    → y < 10743
    → min < 14
    → din < 31
    → fits_year (days_in_heb_year y) (get_valid_heb_date y min din to_a j) ≡ true
unfolding get_valid_heb_date
get_valid_heb_date-fits y min din to_a j lo hi l i =
    let known = year_is_length y lo hi in
    table_at (days_in_heb_year y) min din to_a j (ground (arith, known)) known l i
