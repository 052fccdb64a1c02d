-- ===== src/Expr/Coerce.antt =====
-- DoCoerce of remind-v06.02.10/src/expr.c: the conversions between the types of values.
pub mod Round
pub mod RoundDate
use remind_rb.Base.{
  ℕ, zero, suc, leb, ◌+◌, ◌-◌, ◌*◌, ◌/◌, ◌%◌, Bool, true, false, List, [], ◌∷◌, ◌++◌, Option, none,
  some, ◌==◌, if◌then◌else◌,
}
use remind_rb.Base.Int.{
  ℤ, pos, negsuc, ◌+ℤ◌, ◌-ℤ◌, ltb_ℤ, magnitude, pos_part, ◌*ℤ◌, neg_ℤ, quot_ℤ, rem_ℤ, is_negative,
}
use remind_rb.Errors.{
  Result, ok, err, ◌>>=◌, e_cant_coerce, e_too_low, undefined_overflow, undefined_month,
}
use remind_rb.Calendar.{base, from_dse, days_in_month, days_in_year, find_month}
use remind_rb.Expr.{
  Chars, Format, Kind, int_type, time_type, date_type, datetime_type, Value, val, str,
  minutes_in_day, fits_int,
}
use remind_rb.Expr.Text.{decimal_int, padded, padded_int, read_digits}
use remind_rb.Expr.Literal.{parse_literal_time, parse_literal_date_or_time}

-- A result that an `int` cannot hold is undefined in C.
unfoldable pub in_int : Kind → ℤ → Result Value
in_int k z = if fits_int z then ok (val k z) else err undefined_overflow

-- `v %= MINUTES_PER_DAY; if (v < 0) v += MINUTES_PER_DAY;`
unfoldable pub of_day : ℤ → ℤ
of_day z =
    let r = rem_ℤ z (pos minutes_in_day) in if is_negative r then r +ℤ pos minutes_in_day else r

-- "%02d%c%02d"
unfoldable pub time_text : Format → ℕ → Chars
time_text f n = padded 2 (n / 60) ++ (f.time_sep ∷ padded 2 (n % 60))

-- "%04d%c%02d%c%02d"
unfoldable pub date_text : Format → ℕ → Chars
date_text f n =
    let t = from_dse n in
    padded 4 t.year ++ (f.date_sep ∷ (padded 2 (t.month + 1) ++ (f.date_sep ∷ padded 2 t.day)))

unfoldable pub datetime_text : Format → ℕ → Chars
datetime_text f n =
    date_text f (n / minutes_in_day) ++ (f.date_time_sep ∷ time_text f (n % minutes_in_day))

-- The last day for which `try_dse` in FromDSE is an `int`.
abbrev pub last_day : ℕ
last_day = 2146013849

-- The loop of FromDSE over years, where days and years may be negative.
unfoldable pub back_year_ℤ : ℕ → ℤ → ℤ → ℤ → ℤ × ℤ
back_year_ℤ zero y start z = (y, start)
back_year_ℤ (suc rounds) y start z =
    let p = y -ℤ pos 1 in
    let rest = back_year_ℤ rounds p (start -ℤ pos (days_in_year (magnitude p))) z in
    if ltb_ℤ z start then rest else (y, start)

-- FromDSE of a negative day: its year, month and day, or `none` where the loop over months goes
-- behind December. The quotients go towards 0, so the first guess of the year is not more than one
-- year late.
unfoldable pub from_dse_ℤ : ℤ → Option (ℤ × ℕ × ℕ)
unfolding back_year_ℤ
from_dse_ℤ z =
    let try_yr = quot_ℤ z (pos 365) +ℤ pos base in
    let y2 = try_yr -ℤ pos 1 in
    let y4 = quot_ℤ y2 (pos 4) -ℤ pos 497 in
    let y100 = quot_ℤ y2 (pos 100) -ℤ pos 19 in
    let y400 = quot_ℤ y2 (pos 400) -ℤ pos 4 in
    let try_dse = pos 365 *ℤ (try_yr -ℤ pos base) +ℤ y4 -ℤ y100 +ℤ y400 in
    let (y, start) = back_year_ℤ 2 try_yr try_dse z in
    let (m, left) = find_month 11 (magnitude y) 0 (pos_part (z -ℤ start)) in
    if leb (days_in_month m (magnitude y)) left then none else some (y, m, left + 1)

-- The text of a negative day.
unfoldable pub date_text_ℤ : Format → ℤ → Result Chars
unfolding from_dse_ℤ
date_text_ℤ f z = elim (from_dse_ℤ z) [
  | none ↦ err undefined_month
  | some (y, m, d) ↦
      ok (padded_int 4 y ++ (f.date_sep ∷ (padded 2 (m + 1) ++ (f.date_sep ∷ padded 2 d))))
]

-- The text of a negative time.
unfoldable pub time_text_ℤ : Format → ℤ → Chars
time_text_ℤ f z = padded_int 2 (quot_ℤ z (pos 60)) ++ (f.time_sep ∷ padded_int 2 (rem_ℤ z (pos 60)))

-- To STR_TYPE. No value of the operators is a negative time, date or datetime, but coerce() makes a
-- datetime of any number.
unfoldable pub text_of : Format → Value → Result Chars
unfolding date_text_ℤ time_text_ℤ
text_of f (str s) = ok s
text_of f (val int_type z) = ok (decimal_int z)
text_of f (val time_type (pos n)) = ok (time_text f n)
text_of f (val date_type (pos n)) =
    if leb n last_day then ok (date_text f n) else err undefined_overflow
text_of f (val datetime_type (pos n)) = ok (datetime_text f n)
text_of f (val time_type (negsuc n)) = ok (time_text_ℤ f (negsuc n))
text_of f (val date_type (negsuc n)) = date_text_ℤ f (negsuc n)
text_of f (val datetime_type (negsuc n)) =
    let day = quot_ℤ (negsuc n) (pos minutes_in_day) in
    let time = time_text_ℤ f (rem_ℤ (negsuc n) (pos minutes_in_day)) in
    let date = if is_negative day then date_text_ℤ f day else ok (date_text f 0) in
    date >>= λ s. ok (s ++ (f.date_time_sep ∷ time))

-- The digits of a number, and the end of the text.
unfoldable pub whole_number : Bool → Chars → Result Value
whole_number minus s = read_digits 0 s >>= λ r. elim r.1 [
  | [] ↦ ok (val int_type (if minus then neg_ℤ (pos r.0) else pos r.0))
  | c ∷ rest ↦ err e_cant_coerce
]

unfoldable pub int_of_text : Chars → Result Value
unfolding whole_number
int_of_text [] = whole_number false []
int_of_text (c ∷ s) = if c == 45 then whole_number true s else whole_number false (c ∷ s)

-- Any error of a parser is E_CANT_COERCE.
abbrev or_cant {ℓ} : {A : Type ℓ} → Result A → Result A
or_cant (ok a) = ok a
or_cant (err undefined_overflow) = err undefined_overflow
or_cant (err e) = err e_cant_coerce

unfoldable pub date_of_text : Format → Chars → Result Value
date_of_text f s = or_cant (parse_literal_date_or_time f s) >>= λ (i, m, rest). elim i [
  | none ↦ err e_cant_coerce
  | some n ↦ elim rest [ [] ↦ ok (val date_type (pos n)) | c ∷ more ↦ err e_cant_coerce ]
]

unfoldable pub datetime_of_text : Format → Chars → Result Value
datetime_of_text f s = or_cant (parse_literal_date_or_time f s) >>= λ (i, m, rest). elim i [
  | none ↦ err e_cant_coerce
  | some n ↦ elim rest [
    | [] ↦ in_int datetime_type (pos (n * minutes_in_day + elim m [ none ↦ 0 | some t ↦ t ]))
    | c ∷ more ↦ err e_cant_coerce
  ]
]

unfoldable pub time_of_text : Format → Chars → Result Value
time_of_text f s = or_cant (parse_literal_time f s) >>= λ (t, rest). elim rest [
  | [] ↦ ok (val time_type (pos t))
  | c ∷ more ↦ err e_cant_coerce
]

-- To a type of numbers.
unfoldable pub coerce_to : Format → Kind → Value → Result Value
coerce_to f datetime_type (val datetime_type z) = ok (val datetime_type z)
coerce_to f datetime_type (val int_type z) = ok (val datetime_type z)
coerce_to f datetime_type (val date_type z) = in_int datetime_type (z *ℤ pos minutes_in_day)
coerce_to f datetime_type (val time_type z) = err e_cant_coerce
coerce_to f datetime_type (str s) = datetime_of_text f s
coerce_to f int_type (val k z) = ok (val int_type z)
coerce_to f int_type (str s) = int_of_text s
coerce_to f date_type (val date_type z) = ok (val date_type z)
coerce_to f date_type (val int_type z) =
    if is_negative z then err e_too_low else ok (val date_type z)
coerce_to f date_type (val datetime_type z) = ok (val date_type (quot_ℤ z (pos minutes_in_day)))
coerce_to f date_type (val time_type z) = err e_cant_coerce
coerce_to f date_type (str s) = date_of_text f s
coerce_to f time_type (val time_type z) = ok (val time_type z)
coerce_to f time_type (val int_type z) = ok (val time_type (of_day z))
coerce_to f time_type (val datetime_type z) = ok (val time_type (of_day z))
coerce_to f time_type (val date_type z) = err e_cant_coerce
coerce_to f time_type (str s) = time_of_text f s
