-- ===== src/Expr/Number.antt =====
-- make_atom and set_constant_value of remind-v06.02.10/src/expr.c: the node of a name or a constant.
use remind_rb.Base.{
  ℕ, ◌+◌, ◌*◌, ◌%◌, ◌^◌, Bool, true, false, ◌&&◌, ◌||◌, List, [], ◌∷◌, Option, none, some, length,
  take, ltb, leb, ◌==◌, if◌then◌else◌,
}
use remind_rb.Base.Int.{pos}
use remind_rb.Errors.{
  Error, Result, ok, err, ◌>>=◌, e_nosuch_var, e_eoln, e_bad_date, e_bad_time, e_bad_number,
  e_too_high, e_expecting_atom, e_illegal_char,
}
use remind_rb.Expr.{
  Chars, Format, int_type, time_type, date_type, datetime_type, Value, val, str, minutes_in_day,
  Node, constant, variable, local_var, sysvar,
}
use remind_rb.Expr.Text.{is_digit}
use remind_rb.Expr.Literal.{is_time_sep, number, read_ampm, time_of, parse_literal_date_or_time}
use remind_rb.Expr.Coerce.{in_int}
use remind_rb.Expr.Token.{is_alpha, is_xdigit, xdigit_value, starts_with}

abbrev pub var_name_len : ℕ
var_name_len = 64

abbrev pub short_name_buf : ℕ
short_name_buf = 16

abbrev pub to_lower : ℕ → ℕ
to_lower c = if leb 65 c && leb c 90 then c + 32 else c

-- strtolower().
unfoldable pub lower : Chars → Chars
lower [] = []
lower (c ∷ s) = to_lower c ∷ lower s

abbrev pub same_chars : Chars → Chars → Bool
same_chars [] [] = true
same_chars (c ∷ s) (d ∷ t) = (c == d) && same_chars s t
same_chars _ _ = false

-- A name that does not fit the node is cut at VAR_NAME_LEN.
unfoldable pub node_name : Chars → Chars
node_name s = if ltb (length s) short_name_buf then s else take var_name_len s

-- The `int` that wraps around is the next value unless it is negative or less than the one before.
-- The test comes after the sum, so it does not see every overflow.
abbrev wrapped : ℕ → ℕ → ℕ → ℕ
wrapped base value digit = (value * base + digit) % 2 ^ 32

abbrev drops : ℕ → ℕ → Bool
drops before next = leb (2 ^ 31) next || ltb next before

unfoldable pub digits_wrapped : ℕ → (ℕ → Bool) → ℕ → Chars → Result (ℕ × Chars)
digits_wrapped base test value [] = ok (value, [])
digits_wrapped base test value (c ∷ s) =
    let next = wrapped base value (xdigit_value c) in
    let more = digits_wrapped base test next s in
    if test c then (if drops value next then err e_too_high else more) else ok (value, c ∷ s)

abbrev whole : Error → Value → Chars → Result Value
whole e v [] = ok v
whole e v (c ∷ s) = err e

unfoldable pub hex_value : Chars → Result Value
unfolding digits_wrapped
hex_value s =
    if starts_with is_xdigit s
    then (digits_wrapped 16 is_xdigit 0 s >>= λ r. whole e_bad_number (val int_type (pos r.0)) r.1)
    else err e_bad_number

-- Behind the hour and its separator.
unfoldable pub time_value : ℕ → Chars → Result Value
unfolding number read_ampm
time_value h s = number e_bad_time s >>= λ m.
    let ampm = read_ampm m.1 in
    whole e_bad_time (val int_type (pos 0)) ampm.1 >>= λ end.
    time_of h m.0 ampm.0 >>= λ t. ok (val time_type (pos t))

unfoldable pub after_digits : Format → ℕ → Chars → Result Value
unfolding time_value
after_digits f n [] = ok (val int_type (pos n))
after_digits f n (c ∷ s) = if is_time_sep f c then time_value n s else err e_bad_number

abbrev is_hex_prefix : Chars → Bool
is_hex_prefix (b ∷ c ∷ s) = (b == 48) && ((c == 120) || (c == 88))
is_hex_prefix _ = false

abbrev drop_two : Chars → Chars
drop_two (c ∷ d ∷ s) = s
drop_two _ = []

unfoldable pub number_value : Format → Chars → Result Value
unfolding hex_value after_digits digits_wrapped
number_value f s =
    if is_hex_prefix s
    then hex_value (drop_two s)
    else (digits_wrapped 10 is_digit 0 s >>= λ r. after_digits f r.0 r.1)

-- The date and the time of a constant in single quotes, of which one is there at least.
abbrev of_parts : Option ℕ → Option ℕ → Result Value
of_parts none none = err e_bad_time
of_parts none (some t) = ok (val time_type (pos t))
of_parts (some n) none = ok (val date_type (pos n))
of_parts (some n) (some t) = in_int datetime_type (pos (n * minutes_in_day + t))

abbrev not_closed : Option ℕ → Error
not_closed none = e_bad_time
not_closed (some n) = e_bad_date

unfoldable pub date_value : Format → Chars → Result Value
date_value f s = parse_literal_date_or_time f s >>= λ (day, tim, rest).
    if starts_with (λ c. c == 39) rest then of_parts day tim else err (not_closed day)

-- A string in its quotes: without the last character.
abbrev unquoted : Chars → Chars
unquoted [] = []
unquoted (c ∷ []) = []
unquoted (c ∷ d ∷ s) = c ∷ unquoted (d ∷ s)

-- The characters of LEGAL_CHARS.
abbrev is_legal : ℕ → Bool
is_legal c =
    (c == 43)
    || ((c == 45)
        || ((c == 42)
            || ((c == 47)
                || ((c == 37)
                    || ((c == 38)
                        || ((c == 124)
                            || ((c == 61)
                                || ((c == 60) || ((c == 62) || ((c == 33) || (c == 41)))))))))))

unfoldable pub no_atom : ℕ → Error
no_atom c = if is_legal c then e_expecting_atom else e_illegal_char

unfoldable pub set_constant_value : Format → Chars → Result Value
unfolding date_value number_value
set_constant_value f [] = err e_eoln
set_constant_value f (c ∷ s) =
    if c == 34
    then ok (str (unquoted s))
    else if c == 39
    then date_value f s
    else if is_digit c
    then number_value f (c ∷ s)
    else err (no_atom c)

-- The arguments of the function that is defined, in order: strncasecmp() looks at VAR_NAME_LEN
-- characters.
unfoldable pub find_local : ℕ → Chars → List Chars → Option ℕ
unfolding lower
find_local i s [] = none
find_local i s (x ∷ locals) =
    let rest = find_local (i + 1) s locals in
    if same_chars (take var_name_len (lower s)) (take var_name_len (lower x)) then some i else rest

abbrev local_or_variable : Chars → Option ℕ → Node
local_or_variable s none = variable (node_name s)
local_or_variable s (some i) = local_var i

abbrev sysvar_node : Option Chars → Result Node
sysvar_node none = err e_nosuch_var
sysvar_node (some x) = ok (sysvar x)

-- FindSysVar() is an argument.
unfoldable pub make_atom : Format → (Chars → Option Chars) → List Chars → Chars → Result Node
unfolding set_constant_value find_local
make_atom f find_sysvar locals [] = err e_eoln
make_atom f find_sysvar locals (c ∷ s) =
    if is_alpha c || (c == 95)
    then ok (local_or_variable (c ∷ s) (find_local 0 (c ∷ s) locals))
    else if (c == 36) && starts_with is_alpha s
    then sysvar_node (find_sysvar s)
    else (set_constant_value f (c ∷ s) >>= λ v. ok (constant v))
