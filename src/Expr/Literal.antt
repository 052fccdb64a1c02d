-- ===== src/Expr/Literal.antt =====
-- Literal dates and times: ParseLiteralTime and ParseLiteralDateOrTime of
-- remind-v06.02.10/src/expr.c, and DateOK of utils.c. NO_DATE and NO_TIME are `none`.
use remind_rb.Base.{
  ℕ, ◌+◌, ◌-◌, ◌*◌, Bool, false, not, ◌||◌, [], ◌∷◌, Option, none, some, ltb, ◌==◌, if◌then◌else◌,
}
use remind_rb.Base.Int.{ℤ, pos, negsuc, sub_ℕ}
use remind_rb.Errors.{Error, Result, ok, err, ◌>>=◌, e_bad_date, e_bad_time}
use remind_rb.Calendar.{base, yr_range, days_in_month, dse}
use remind_rb.Expr.{Chars, Format}
use remind_rb.Expr.Text.{is_digit, read_digits}

unfoldable pub date_ok : ℕ → ℤ → ℕ → Bool
date_ok y (negsuc m) d = false
date_ok y (pos m) d = not (
    ltb d 1 || (ltb y base || (ltb 11 m || (ltb (base + yr_range) y || ltb (days_in_month m y) d))))

abbrev pub is_time_sep : Format → ℕ → Bool
is_time_sep f c = (c == 58) || ((c == 46) || (c == f.time_sep))

abbrev pub is_date_sep : Format → ℕ → Bool
is_date_sep f c = (c == 47) || ((c == 45) || (c == f.date_sep))

abbrev pub starts_digit : Chars → Bool
starts_digit [] = false
starts_digit (c ∷ s) = is_digit c

-- A number that starts with a digit, or the error.
unfoldable pub number : Error → Chars → Result (ℕ × Chars)
number e s = if starts_digit s then read_digits 0 s else err e

-- A separator, and a number behind it.
unfoldable pub after_sep : (ℕ → Bool) → Error → Chars → Result (ℕ × Chars)
unfolding number
after_sep sep e [] = err e
after_sep sep e (c ∷ s) = if sep c then number e s else err e

-- `a` or `p`, with an optional `m`, in either case: 1 for a.m., 2 for p.m., 0 for neither.
unfoldable pub skip_m : Chars → Chars
skip_m [] = []
skip_m (c ∷ s) = if (c == 109) || (c == 77) then s else c ∷ s

unfoldable pub read_ampm : Chars → ℕ × Chars
unfolding skip_m
read_ampm [] = (0, [])
read_ampm (c ∷ s) =
    if (c == 65) || (c == 97)
    then (1, skip_m s)
    else if (c == 80) || (c == 112)
    then (2, skip_m s)
    else (0, c ∷ s)

-- The checks of the hour and the minute, and the minutes since midnight.
unfoldable pub time_of : ℕ → ℕ → ℕ → Result ℕ
time_of h m ampm =
    if ltb 23 h || ltb 59 m
    then err e_bad_time
    else if ampm == 0
    then ok (h * 60 + m)
    else if ltb h 1 || ltb 12 h
    then err e_bad_time
    else if ampm == 1
    then ok ((if h == 12 then 0 else h) * 60 + m)
    else ok ((if ltb h 12 then h + 12 else h) * 60 + m)

unfoldable pub parse_literal_time : Format → Chars → Result (ℕ × Chars)
unfolding number after_sep read_ampm
parse_literal_time f s = number e_bad_time s >>= λ hour.
    after_sep (is_time_sep f) e_bad_time hour.1 >>= λ minute.
    let ampm = read_ampm minute.1 in time_of hour.0 minute.0 ampm.0 >>= λ tim. ok (tim, ampm.1)

-- ` `, `@`, `T` or `t` in front of the time of a date.
abbrev is_datetime_sep : ℕ → Bool
is_datetime_sep c = (c == 32) || ((c == 64) || ((c == 84) || (c == 116)))

unfoldable pub time_part : Format → ℕ → Chars → Result (Option ℕ × Option ℕ × Chars)
time_part f n [] = ok (some n, none, [])
time_part f n (c ∷ s) =
    if is_datetime_sep c
    then (parse_literal_time f s >>= λ t. ok (some n, some t.0, t.1))
    else ok (some n, none, c ∷ s)

abbrev starts_time_sep : Format → Chars → Bool
starts_time_sep f [] = false
starts_time_sep f (c ∷ s) = is_time_sep f c

-- The part behind the year.
unfoldable pub date_part : Format → ℕ → Chars → Result (Option ℕ × Option ℕ × Chars)
unfolding after_sep time_part
date_part f y s = after_sep (is_date_sep f) e_bad_date s >>= λ month.
    after_sep (is_date_sep f) e_bad_date month.1 >>= λ day.
    if date_ok y (sub_ℕ month.0 1) day.0
    then time_part f (dse y (month.0 - 1) day.0) day.1
    else err e_bad_date

unfoldable pub parse_literal_date_or_time : Format → Chars → Result (Option ℕ × Option ℕ × Chars)
unfolding number date_part
parse_literal_date_or_time f s = number e_bad_date s >>= λ year.
    if starts_time_sep f year.1
    then (parse_literal_time f s >>= λ t. ok (none, some t.0, t.1))
    else date_part f year.0 year.1
