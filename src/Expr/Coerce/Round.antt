-- ===== src/Expr/Coerce/Round.antt =====
-- The coercions of remind-v06.02.10/src/expr.c to a text and back.
use remind_rb.Base.{
  ℕ, zero, suc, ◌+◌, ◌-◌, ◌*◌, ◌/◌, ◌%◌, ◌≤◌, ◌<◌, ◌≡◌, refl, sym, ap, ◌∙◌, inl, inr, Bool,
  Bool-cases, true, false, [], ◌∷◌, ◌++◌, arith, ltb, ◌==◌, if◌then◌else◌, every, every_below,
  lt→ltb, subst,
}
use remind_rb.Base.Int.{ℤ, pos, negsuc, neg_ℤ}
use remind_rb.Errors.{Error, e_bad_time, Result, ok, err, ◌>>=◌}
use remind_rb.Expr.{Chars, Format, int_type, time_type, val, str, fits_int}
use remind_rb.Expr.Text.{is_digit, digits_loop, decimal, decimal_int, padded, zeros, read_digits}
use remind_rb.Expr.Operators.{is_int_min}
use remind_rb.Expr.Number.{same_chars}
use remind_rb.Expr.Literal.{number, after_sep, is_time_sep, read_ampm, time_of, parse_literal_time}
use remind_rb.Expr.Coerce.{text_of, coerce_to, int_of_text, whole_number, time_text, time_of_text}

-- A digit behind others is read into the number.
pub read_digit :
    (i d : ℕ) (s : Chars)
    → d < 10
    → i * 10 + d < 2147483648
    → read_digits i ((d + 48) ∷ s) ≡ read_digits (i * 10 + d) s
unfolding read_digits
read_digit i d s h k =
    let digit : is_digit (d + 48) ≡ true = ground arith in
    let same : i * 10 + (d + 48 - 48) ≡ i * 10 + d = omega arith in
    rw (digit, same) (rw (lt→ltb _ _ k) refl)

read_loop :
    (rounds n : ℕ) (s : Chars)
    → n < rounds
    → n < 2147483648
    → read_digits 0 (digits_loop rounds n s) ≡ read_digits n s
unfolding digits_loop
read_loop zero n s h k = absurd (omega arith)
read_loop (suc rounds) n s h k = elim (Bool-cases (ltb n 10)) [
  | inl e ↦
      rw e (
        read_digit 0 n s (ground (arith, e)) (omega arith)
        ∙ ap (λ z. read_digits z s) (omega arith))
  | inr e ↦
      let big : 10 ≤ n = ground (arith, e) in
      let back : n / 10 * 10 + n % 10 ≡ n = omega arith in
      rw e (
        read_loop rounds (n / 10) ((n % 10 + 48) ∷ s) (omega arith) (omega arith)
        ∙ read_digit (n / 10) (n % 10) s (omega arith) (omega arith)
        ∙ ap (λ z. read_digits z s) back)
]

pub read_decimal : (n : ℕ) → n < 2147483648 → read_digits 0 (decimal n) ≡ ok (n, [])
unfolding decimal read_digits
read_decimal n h = read_loop (n + 1) n [] (omega arith) h

whole_decimal :
    (b : Bool) (n : ℕ)
    → n < 2147483648
    → whole_number b (decimal n) ≡ ok (val int_type (if b then neg_ℤ (pos n) else pos n))
unfolding whole_number
whole_decimal b n h = rw (read_decimal n h) refl

pub not_digit : (i c : ℕ) (s : Chars) → is_digit c ≡ false → read_digits i (c ∷ s) ≡ ok (i, c ∷ s)
unfolding read_digits
not_digit i c s h = rw h refl

abbrev rest_of : Result (ℕ × Chars) → Chars
rest_of (ok r) = r.1
rest_of (err e) = []

-- A text that reads as digits to its end has no minus sign.
int_of_digits :
    (s : Chars) (n : ℕ) → read_digits 0 s ≡ ok (n, []) → int_of_text s ≡ whole_number false s
unfolding int_of_text
int_of_digits [] n h = refl
int_of_digits (c ∷ s) n h = elim (Bool-cases (c == 45)) [
  | inl e ↦
      let other : is_digit c ≡ false = ground (arith, e) in
      let none_left : c ∷ s ≡ [] = ap rest_of (sym (not_digit 0 c s other) ∙ h) in absurd cc
  | inr e ↦ rw e refl
]

minus_digits : (s : Chars) → int_of_text (45 ∷ s) ≡ whole_number true s
unfolding int_of_text
minus_digits s = refl

-- The text of a number that is an `int` other than INT_MIN is coerced to that number. INT_MIN is
-- left out: reading its digits overflows.
pub text-int-round :
    (f : Format) (z : ℤ)
    → fits_int z ≡ true
    → is_int_min z ≡ false
    → (text_of f (val int_type z) >>= λ s. coerce_to f int_type (str s)) ≡ ok (val int_type z)
unfolding text_of coerce_to decimal_int
text-int-round f (pos n) h g =
    let small : n < 2147483648 = ground (arith, h) in
    int_of_digits (decimal n) n (read_decimal n small) ∙ whole_decimal false n small
text-int-round f (negsuc n) h g =
    let small : n + 1 < 2147483648 = ground (arith, h, g) in
    minus_digits (decimal (n + 1))
    ∙ whole_decimal true (n + 1) small
    ∙ ap (λ z. ok (val int_type z)) (ground arith)

-- Two digits.
abbrev pub two : ℕ → Chars
two k = (k / 10 + 48) ∷ (k % 10 + 48) ∷ []

pub two_digits : every 100 (λ k. same_chars (padded 2 k) (two k)) ≡ true
unfolding every padded zeros decimal digits_loop
two_digits = refl

pub same_chars→eq : (s t : Chars) → same_chars s t ≡ true → s ≡ t
same_chars→eq [] [] h = refl
same_chars→eq [] (d ∷ t) h = absurd cc
same_chars→eq (c ∷ s) [] h = absurd cc
same_chars→eq (c ∷ s) (d ∷ t) h = ground (arith, same_chars→eq s t)

pub padded-two : (k : ℕ) → k < 100 → padded 2 k ≡ two k
padded-two k h = same_chars→eq _ _ (every_below _ 100 k two_digits h)

pub read_two :
    (e : Error) (k : ℕ) (s : Chars) → k < 100 → number e (padded 2 k ++ s) ≡ read_digits k s
unfolding number
read_two e k s h =
    let back : (0 * 10 + k / 10) * 10 + k % 10 ≡ k = omega arith in
    let digit : is_digit (k / 10 + 48) ≡ true = ground arith in
    rw (padded-two k h) (
      rw digit (
        read_digit 0 (k / 10) ((k % 10 + 48) ∷ s) (omega arith) (omega arith)
        ∙ read_digit (0 * 10 + k / 10) (k % 10) s (omega arith) (omega arith)
        ∙ ap (λ z. read_digits z s) back))

after_sep_two :
    (f : Format) (k : ℕ)
    → is_time_sep f f.time_sep ≡ true
    → k < 100
    → after_sep (is_time_sep f) e_bad_time (f.time_sep ∷ padded 2 k) ≡ ok (k, [])
unfolding after_sep read_digits
after_sep_two f k h lt =
    let back : padded 2 k ++ [] ≡ padded 2 k = rw (padded-two k lt) refl in
    rw h (subst (λ z. number e_bad_time z ≡ ok (k, [])) back (read_two e_bad_time k [] lt))

time_of_parts : (n : ℕ) → n < 1440 → time_of (n / 60) (n % 60) 0 ≡ ok n
unfolding time_of
time_of_parts n h =
    let hour : ltb 23 (n / 60) ≡ false = ground arith in
    let minute : ltb 59 (n % 60) ≡ false = ground arith in
    let back : n / 60 * 60 + n % 60 ≡ n = omega arith in rw (hour, minute) (ap ok back)

own_time_sep : (f : Format) → is_time_sep f f.time_sep ≡ true
own_time_sep f = ground arith

parse_time_text :
    (f : Format) (n : ℕ)
    → is_digit f.time_sep ≡ false
    → n < 1440
    → parse_literal_time f (time_text f n) ≡ ok (n, [])
unfolding parse_literal_time time_text read_ampm
parse_time_text f n h lt =
    let minute = after_sep_two f (n % 60) (own_time_sep f) (omega arith) in
    let hour =
      read_two e_bad_time (n / 60) (f.time_sep ∷ padded 2 (n % 60)) (omega arith)
      ∙ not_digit (n / 60) f.time_sep (padded 2 (n % 60)) h in
    rw hour (rw minute (rw (time_of_parts n lt) refl))

-- The text of a time is coerced to that time, if $TimeSep is no digit.
pub text-time-round :
    (f : Format) (n : ℕ)
    → is_digit f.time_sep ≡ false
    → n < 1440
    → (text_of f (val time_type (pos n)) >>= λ s. coerce_to f time_type (str s))
      ≡ ok (val time_type (pos n))
unfolding text_of coerce_to time_of_text
text-time-round f n h lt = rw (parse_time_text f n h lt) refl
