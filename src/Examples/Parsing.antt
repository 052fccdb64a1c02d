-- ===== src/Examples/Parsing.antt =====
-- The parser of expressions: runs, and the theorems of Expr.Parse at an input.
use remind_rb.Base.{
  ℕ, ◌≡◌, refl, ◌≤◌, arith, true, false, List, [], ◌∷◌, Option, none, some, if◌then◌else◌,
}
use remind_rb.Base.Int.{pos, negsuc}
use remind_rb.Errors.{
  Result, ok, err, e_miss_right_paren, e_parse_err, e_too_few_args, e_expecting_eoxpr, e_too_high,
  e_miss_quote,
}
use remind_rb.Calendar.{
  from_dse, dse, is_leap_year, days_in_month, days_in_year, month_index, month_days, year_start,
  back_year, find_month,
}
use remind_rb.Expr.{
  Chars, Format, int_type, time_type, val, str, lt, op_add, op_subtract, op_multiply, op_compare,
  op_minus, Node, constant, variable, local_var, builtin_func, user_func, unary, binary, no_kids,
  kid,
}
use remind_rb.Expr.Text.{read_digits}
use remind_rb.Expr.Literal.{
  date_ok, number, after_sep, skip_m, read_ampm, time_of, parse_literal_time, time_part, date_part,
  parse_literal_date_or_time,
}
use remind_rb.Expr.Coerce.{in_int}
use remind_rb.Expr.Token.{
  Tokens, done, tok, parse_expr_token, run_of, quoted, single_quoted, paired, compared, with_paren,
  word, token_at, tokens_loop, tokens,
}
use remind_rb.Expr.Number.{
  same_chars, lower, node_name, digits_wrapped, hex_value, time_value, after_digits, number_value,
  date_value, no_atom, set_constant_value, find_local, make_atom,
}
use remind_rb.Expr.Parse.{
  Context, binary_loop, signed, arguments, parse_function_call, closed, atom_of, parse,
  parse_expression, or_rule, and_rule, eq_rule, cmp_rule, sum_rule, term_rule, factor_rule, ends,
}
use remind_rb.Expr.Parse.Grammar.{Derives, operand, operation, unsigned, leaf, ◌++>◌}
use remind_rb.Expr.Parse.Levels.{levels}
use remind_rb.Expr.Parse.Complete.{Derives-parse_expression}
use remind_rb.Expr.Parse.Sound.{parse_expression-Derives}

abbrev standard : Format
standard = record { date_sep = 45; time_sep = 58; date_time_sep = 64; max_string_len = 65535 }

-- One built-in function, `b`, of two arguments; the function being defined has the argument `a`.
abbrev builtins : Chars → Option (Chars × ℕ × ℕ)
builtins t = if same_chars t (98 ∷ []) then some (t, 2, 2) else none

abbrev context : Context
context = record { find_builtin = builtins; atom = make_atom standard (λ x. none) ((97 ∷ []) ∷ []) }

abbrev read : Chars → Result Node
read s = parse_expression false context 2001 (tokens standard s)

abbrev int : ℕ → Node
int n = constant (val int_type (pos n))

runs : Unit {0}
unfolding from_dse dse is_leap_year days_in_month days_in_year month_index month_days year_start
    back_year find_month read_digits date_ok number after_sep skip_m read_ampm time_of
    parse_literal_time time_part date_part parse_literal_date_or_time in_int parse_expr_token run_of
    quoted single_quoted paired compared with_paren word token_at tokens_loop tokens lower node_name
    digits_wrapped hex_value time_value after_digits number_value date_value no_atom
    set_constant_value find_local make_atom binary_loop signed arguments parse_function_call closed
    atom_of parse parse_expression
runs = tt

-- 1-2-3
left_to_right :
    read (49 ∷ 45 ∷ 50 ∷ 45 ∷ 51 ∷ [])
    ≡ ok (binary op_subtract (binary op_subtract (int 1) (int 2)) (int 3))
unfolding runs
left_to_right = refl

-- 1 + 2*3 < 4
products_first :
    read (49 ∷ 32 ∷ 43 ∷ 32 ∷ 50 ∷ 42 ∷ 51 ∷ 32 ∷ 60 ∷ 32 ∷ 52 ∷ [])
    ≡ ok (
        binary (op_compare lt) (binary op_add (int 1) (binary op_multiply (int 2) (int 3))) (int 4))
unfolding runs
products_first = refl

-- (1+a)*-x
in_parentheses :
    read (40 ∷ 49 ∷ 43 ∷ 97 ∷ 41 ∷ 42 ∷ 45 ∷ 120 ∷ [])
    ≡ ok (
        binary op_multiply
          (binary op_add (int 1) (local_var 0))
          (unary op_minus (variable (120 ∷ []))))
unfolding runs
in_parentheses = refl

-- -3
folded : read (45 ∷ 51 ∷ []) ≡ ok (constant (val int_type (negsuc 2)))
unfolding runs
folded = refl

-- b(1, F(2))
a_call :
    read (98 ∷ 40 ∷ 49 ∷ 44 ∷ 32 ∷ 70 ∷ 40 ∷ 50 ∷ 41 ∷ 41 ∷ [])
    ≡ ok (
        builtin_func
          (98 ∷ [])
          (kid (int 1) (kid (user_func (102 ∷ []) (kid (int 2) no_kids)) no_kids)))
unfolding runs
a_call = refl

-- b(1)
few_arguments : read (98 ∷ 40 ∷ 49 ∷ 41 ∷ []) ≡ err e_too_few_args
unfolding runs
few_arguments = refl

-- b(1,)
last_comma : read (98 ∷ 40 ∷ 49 ∷ 44 ∷ 41 ∷ []) ≡ err e_parse_err
unfolding runs
last_comma = refl

-- (1
not_closed_run : read (40 ∷ 49 ∷ []) ≡ err e_miss_right_paren
unfolding runs
not_closed_run = refl

-- 1 2
behind : read (49 ∷ 32 ∷ 50 ∷ []) ≡ err e_expecting_eoxpr
unfolding runs
behind = refl

-- 1:05pm
a_time : read (49 ∷ 58 ∷ 48 ∷ 53 ∷ 112 ∷ 109 ∷ []) ≡ ok (constant (val time_type (pos 785)))
unfolding runs
a_time = refl

-- "a\n"
a_string : read (34 ∷ 97 ∷ 92 ∷ 110 ∷ 34 ∷ []) ≡ ok (constant (str (97 ∷ 10 ∷ [])))
unfolding runs
a_string = refl

-- 2147483648
too_high : read (50 ∷ 49 ∷ 52 ∷ 55 ∷ 52 ∷ 56 ∷ 51 ∷ 54 ∷ 52 ∷ 56 ∷ []) ≡ err e_too_high
unfolding runs
too_high = refl

-- 5000000000 is read as another number.
missed_overflow : read (53 ∷ 48 ∷ 48 ∷ 48 ∷ 48 ∷ 48 ∷ 48 ∷ 48 ∷ 48 ∷ 48 ∷ []) ≡ ok (int 705032704)
unfolding runs
missed_overflow = refl

-- A string without its closing quote is refused.
missing_quote : read (34 ∷ 97 ∷ 98 ∷ []) ≡ err e_miss_quote
unfolding runs
missing_quote = refl

-- If it is all escapes, it is not, and loses its last character.
unseen_quote : read (34 ∷ 92 ∷ 97 ∷ 92 ∷ 98 ∷ []) ≡ ok (constant (str (7 ∷ [])))
unfolding runs
unseen_quote = refl

-- The derivation of 1-2, with a token for each character.
one : Derives context factor_rule (int 1) ((49 ∷ []) ∷ [])
unfolding runs
one = unsigned refl (leaf 49 [] (int 1) refl refl refl refl)

two : Derives context factor_rule (int 2) ((50 ∷ []) ∷ [])
unfolding runs
two = unsigned refl (leaf 50 [] (int 2) refl refl refl refl)

abbrev difference : Node
difference = binary op_subtract (int 1) (int 2)

abbrev difference_tokens : List Chars
difference_tokens = (49 ∷ []) ∷ (45 ∷ []) ∷ (50 ∷ []) ∷ []

abbrev derivation : Derives context or_rule difference difference_tokens
derivation =
    let first = operand sum_rule refl (operand term_rule refl one) in
    let sum = operation sum_rule (45 ∷ []) op_subtract refl first (operand term_rule refl two) in
    operand or_rule refl (operand and_rule refl (operand eq_rule refl (operand cmp_rule refl sum)))

derivation-levels : levels derivation ≤ 2001
unfolding levels one two
derivation-levels = omega arith

Derives-parse_expression_example :
    parse_expression false context 2001 (difference_tokens ++> done) ≡ ok difference
Derives-parse_expression_example =
    Derives-parse_expression context difference_tokens done difference 2001 derivation
      derivation-levels refl

difference_parsed :
    parse_expression false context 2001 (tok (49 ∷ []) (tok (45 ∷ []) (tok (50 ∷ []) done)))
    ≡ ok difference
unfolding runs
difference_parsed = refl

parse_expression-Derives_example :
    (us : List Chars) × ((rest : Tokens) × ((tok (49 ∷ []) (tok (45 ∷ []) (tok (50 ∷ []) done))
          ≡ us ++> rest)
        × ((ends rest ≡ true) × Derives context or_rule difference us)))
parse_expression-Derives_example =
    parse_expression-Derives false context 2001 (tok (49 ∷ []) (tok (45 ∷ []) (tok (50 ∷ []) done)))
      difference difference_parsed
