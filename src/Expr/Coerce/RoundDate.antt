-- ===== src/Expr/Coerce/RoundDate.antt =====
-- The coercion of a date to a text and back, of remind-v06.02.10/src/expr.c.
use remind_rb.Base.{
  ℕ, ◌+◌, ◌-◌, ◌*◌, ◌/◌, ◌%◌, ◌≤◌, ◌<◌, ◌≡◌, refl, ap, ◌∙◌, inl, le→leb, subst, true, false, [],
  ◌∷◌, ◌++◌, some, none, arith, every, every_below,
}
use remind_rb.Base.Int.{pos, sub_ℕ}
use remind_rb.Errors.{Error, e_bad_date, ok, ◌>>=◌}
use remind_rb.Calendar.{Date, date, dse, from_dse, year_start, month_index, is_leap_year}
use remind_rb.Calendar.Order.{in_month}
use remind_rb.Calendar.Days.{IsValid, dse_of, Before-dse, from_dse-IsValid, dse-from_dse}
use remind_rb.Calendar.Months.{days_in_month_range}
use remind_rb.Expr.{Chars, Format, date_type, val, str}
use remind_rb.Expr.Text.{is_digit, digits_loop, decimal, padded, zeros, read_digits}
use remind_rb.Expr.Number.{same_chars}
use remind_rb.Expr.Literal.{
  date_ok, number, after_sep, is_time_sep, is_date_sep, time_part, date_part,
  parse_literal_date_or_time,
}
use remind_rb.Expr.Coerce.{last_day, text_of, coerce_to, date_text, date_of_text}
use remind_rb.Expr.Coerce.Round.{read_digit, not_digit, padded-two, read_two, same_chars→eq}

abbrev four : ℕ → Chars
four y = (y / 1000 + 48) ∷ (y / 100 % 10 + 48) ∷ (y / 10 % 10 + 48) ∷ (y % 10 + 48) ∷ []

four_digits : every 4001 (λ k. same_chars (padded 4 (k + 1990)) (four (k + 1990))) ≡ true
unfolding every padded zeros decimal digits_loop
four_digits = refl

padded-four : (y : ℕ) → 1990 ≤ y → y ≤ 5990 → padded 4 y ≡ four y
padded-four y lo hi =
    let back : y - 1990 + 1990 ≡ y = omega arith in
    subst (λ z. padded 4 z ≡ four z) back
      (same_chars→eq _ _ (every_below _ 4001 (y - 1990) four_digits (omega arith)))

read_four :
    (e : Error) (y : ℕ) (s : Chars)
    → 1990 ≤ y
    → y ≤ 5990
    → number e (padded 4 y ++ s) ≡ read_digits y s
unfolding number
read_four e y s lo hi =
    let a = 0 * 10 + y / 1000 in
    let b = a * 10 + y / 100 % 10 in
    let c = b * 10 + y / 10 % 10 in
    let back : c * 10 + y % 10 ≡ y = omega arith in
    let digit : is_digit (y / 1000 + 48) ≡ true = ground arith in
    rw (padded-four y lo hi) (
      rw digit (
        read_digit 0 (y / 1000) _ (omega arith) (omega arith)
        ∙ read_digit a (y / 100 % 10) _ (omega arith) (omega arith)
        ∙ read_digit b (y / 10 % 10) _ (omega arith) (omega arith)
        ∙ read_digit c (y % 10) s (omega arith) (omega arith)
        ∙ ap (λ z. read_digits z s) back))

-- A separator and two digits, in front of what is no digit, or of the end.
after_date_sep :
    (f : Format) (k : ℕ) (s : Chars)
    → k < 100
    → after_sep (is_date_sep f) e_bad_date (f.date_sep ∷ (padded 2 k ++ s)) ≡ read_digits k s
unfolding after_sep
after_date_sep f k s lt =
    let own : is_date_sep f f.date_sep ≡ true = ground arith in rw own (read_two e_bad_date k s lt)

last_date_part :
    (f : Format) (k : ℕ)
    → k < 100
    → after_sep (is_date_sep f) e_bad_date (f.date_sep ∷ padded 2 k) ≡ ok (k, [])
unfolding read_digits
last_date_part f k lt =
    let back : padded 2 k ++ [] ≡ padded 2 k = rw (padded-two k lt) refl in
    subst (λ z. after_sep (is_date_sep f) e_bad_date (f.date_sep ∷ z) ≡ ok (k, [])) back
      (after_date_sep f k [] lt)

valid-date_ok :
    (t : Date) → IsValid t → t.year ≤ 5990 → date_ok t.year (sub_ℕ (t.month + 1) 1) t.day ≡ true
unfolding date_ok
valid-date_ok t v h =
    let month : sub_ℕ (t.month + 1) 1 ≡ pos t.month = ground arith in
    let y = v.year_in in
    let m = v.month_in in let d = v.day_from in let l = v.day_to in rw month (ground arith)

date_part_text :
    (f : Format) (t : Date)
    → IsValid t
    → t.year ≤ 5990
    → is_digit f.date_sep ≡ false
    → date_part f t.year (f.date_sep ∷ (padded 2 (t.month + 1) ++ (f.date_sep ∷ padded 2 t.day)))
      ≡ ok (some (dse t.year t.month t.day), none, [])
unfolding date_part time_part
date_part_text f t v h s =
    let m = v.month_in in
    let short : t.day < 100 = omega (arith, v.day_to, days_in_month_range t.month t.year m) in
    let month =
      after_date_sep f (t.month + 1) (f.date_sep ∷ padded 2 t.day) (omega arith)
      ∙ not_digit (t.month + 1) f.date_sep (padded 2 t.day) s in
    let same : t.month + 1 - 1 ≡ t.month = omega arith in
    rw month (rw (last_date_part f t.day short) (rw (valid-date_ok t v h, same) refl))

first_day : dse 6000 0 1 ≡ 1464622
unfolding dse year_start month_index is_leap_year
first_day = refl

before_last_day : (n : ℕ) → (from_dse n).year ≤ 5990 → n ≤ last_day
before_last_day n h =
    let t = from_dse n in
    let v = from_dse-IsValid n in
    let first = date 6000 0 1 in
    let first_valid : IsValid first =
      in_month 6000 0 1 (omega arith) (omega arith) (omega arith) (omega arith) in
    let day : dse_of first ≡ 1464622 = first_day in
    omega (arith, Before-dse t first v first_valid (inl (omega arith)), dse-from_dse n, day)

-- The text of a date up to the year 5990 is coerced to that date, if $DateSep is neither a digit
-- nor a separator of times.
pub text-date-round :
    (f : Format) (n : ℕ)
    → is_digit f.date_sep ≡ false
    → is_time_sep f f.date_sep ≡ false
    → (from_dse n).year ≤ 5990
    → (text_of f (val date_type (pos n)) >>= λ s. coerce_to f date_type (str s))
      ≡ ok (val date_type (pos n))
unfolding text_of coerce_to date_text date_of_text parse_literal_date_or_time
text-date-round f n h g le =
    let t = from_dse n in
    let v = from_dse-IsValid n in
    let rest = padded 2 (t.month + 1) ++ (f.date_sep ∷ padded 2 t.day) in
    let year =
      read_four e_bad_date t.year (f.date_sep ∷ rest) v.year_in le
      ∙ not_digit t.year f.date_sep rest h in
    let date = date_part_text f t v le h in
    rw (le→leb n last_day (before_last_day n le))
      (rw year (rw g (rw date (rw (dse-from_dse n) refl))))
