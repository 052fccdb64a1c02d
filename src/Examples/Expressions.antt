-- ===== src/Examples/Expressions.antt =====
-- Expressions: runs, and the theorems of Expr at an input.
use remind_rb.Base.{
  ℕ, ◌≡◌, ◌↔◌, ◌⊎◌, refl, subst, ap, arith, Bool, List, ◌==◌, if◌then◌else◌, true, false, [], ◌∷◌,
  Option, none, some,
}
use remind_rb.Base.Int.{pos, negsuc, ◌+ℤ◌, ◌-ℤ◌, ◌*ℤ◌, quot_ℤ, rem_ℤ}
use remind_rb.Errors.{
  ◌>>=◌, ok, err, e_date_over, e_too_high, e_recursive, e_string_too_long, e_swerr,
  undefined_overflow,
}
use remind_rb.Calendar.{
  from_dse, dse, is_leap_year, days_in_month, days_in_year, month_index, month_days, year_start,
  back_year, find_month,
}
use remind_rb.Expr.{
  Chars, Format, int_type, time_type, date_type, datetime_type, Value, val, str, eq, lt, gt, le, ge,
  ne, op_add, op_multiply, Node, constant, variable, local_var, builtin_func, user_func, binary,
  no_kids, kid,
}
use remind_rb.Expr.Text.{digits_loop, decimal, zeros, padded, padded_int, decimal_int, read_digits}
use remind_rb.Expr.Coerce.RoundDate.{text-date-round}
use remind_rb.Expr.Coerce.Round.{text-int-round, text-time-round}
use remind_rb.Expr.Coerce.{
  date_text_ℤ, time_text_ℤ, from_dse_ℤ, back_year_ℤ, of_day, text_of, time_text, date_text,
  datetime_text, coerce_to, in_int, int_of_text, whole_number, date_of_text, datetime_of_text,
  time_of_text,
}
use remind_rb.Expr.Literal.{
  date_ok, number, after_sep, skip_m, read_ampm, time_of, parse_literal_time, time_part, date_part,
  parse_literal_date_or_time,
}
use remind_rb.Expr.Operators.{
  str_less, less, compare, checked, checked_date, checked_time, too_long, concat, add, subtract,
  repeat, repeat_text, multiply, divide_ints, divide_or_mod, unary_minus, apply, apply_unary,
}
use remind_rb.Expr.Operators.Bounds.{in_range, Gives, apply-in_range}
use remind_rb.Expr.Operators.Order.{compare-is_total_order, Yes}
use remind_rb.Expr.Comp.{
  State, Comp, ret, fail, of_result, ◌>>-◌, marked, catching, own_flag, count_node, gated,
}
use remind_rb.Expr.Eval.{
  Env, Builtin, UserFunc, Call, old_style, new_style, catch, is_const, evaluate, eval_at, eval_node,
  eval_builtin, eval_userfunc, eval_body, eval_new, eval_iif, eval_nth, eval_any, choice, call_old,
  check_args, check_nargs, get_var, get_sysvar,
}
use remind_rb.Expr.Eval.Related.{AllGood, Fine}
use remind_rb.Expr.Eval.Bounded.{EndsWithin}
use remind_rb.Expr.Eval.Counts.{Sane, InRange, evaluate-EndsWithin}

abbrev standard : Format
standard = record { date_sep = 45; time_sep = 58; date_time_sep = 64; max_string_len = 20 }

abbrev int : ℕ → Value
int n = val int_type (pos n)

-- A variable named by a letter is not constant; the one with no name is 5.
abbrev find : ℕ → Chars → Option (Value × Bool)
find v [] = some (int 5, true)
find v (c ∷ x) = some (int v, false)

abbrev double : UserFunc
double = record {
  nargs = 1;
  is_constant = true;
  body = binary op_multiply (local_var 0) (constant (int 2));
}

-- A function that calls itself.
abbrev endless : UserFunc
endless = record { nargs = 0; is_constant = true; body = user_func [] no_kids }

abbrev user_table : Chars → Option UserFunc
user_table [] = some endless
user_table (c ∷ x) = some double

abbrev catch_entry : Builtin
catch_entry = record {
  min_args = 2;
  max_args = 2;
  is_constant = true;
  clears = false;
  call = new_style catch;
}

-- What eval() does with a text that reads as f(5).
abbrev five_doubled : Node
five_doubled = user_func (102 ∷ []) (kid (constant (int 5)) no_kids)

abbrev eval_text : (Node → Comp Value) → List Value → Comp Value
eval_text eval vs = eval five_doubled

abbrev eval_entry : Builtin
eval_entry = record {
  min_args = 1;
  max_args = 1;
  is_constant = true;
  clears = false;
  call = old_style eval_text;
}

abbrev first_argument : (Node → Comp Value) → List Value → Comp Value
first_argument eval [] = fail e_swerr
first_argument eval (v ∷ vs) = ret v

abbrev const_entry : Builtin
const_entry = record {
  min_args = 1;
  max_args = 1;
  is_constant = true;
  clears = true;
  call = old_style first_argument;
}

abbrev is_const_entry : Builtin
is_const_entry = record {
  min_args = 1;
  max_args = 1;
  is_constant = true;
  clears = false;
  call = new_style is_const;
}

-- `e` is eval(), `c` is const(), and other letters are isconst().
abbrev entry_of : ℕ → Builtin
entry_of c = if c == 101 then eval_entry else if c == 99 then const_entry else is_const_entry

abbrev table : Chars → Builtin
table [] = catch_entry
table (c ∷ x) = entry_of c

-- catch() and eval().
abbrev CatchOrEval : Chars → Type 0
CatchOrEval [] = Unit
CatchOrEval (c ∷ x) = c ≡ 101

abbrev environment : ℕ → Env
environment v = record {
  limits = record { disabled = false; node_limit = 5000 };
  format = standard;
  find_var = find v;
  get_sysvar = λ x. (ok (int v), false);
  builtin = table;
  find_user_func = user_table;
}

abbrev start : State
start = record { evaluated = 100; this_line = 7; most = 9; nonconst = false; alarm = none }

runs : Unit {0}
unfolding digits_loop decimal zeros padded padded_int date_text_ℤ time_text_ℤ from_dse_ℤ back_year_ℤ
    decimal_int read_digits of_day text_of time_text date_text datetime_text coerce_to in_int
    int_of_text whole_number date_of_text datetime_of_text time_of_text date_ok number after_sep
    skip_m read_ampm time_of parse_literal_time time_part date_part parse_literal_date_or_time
    str_less less compare checked checked_date checked_time too_long concat add subtract repeat
    repeat_text multiply divide_ints divide_or_mod unary_minus apply apply_unary ret fail of_result
    ◌>>-◌ marked catching own_flag count_node gated evaluate eval_at eval_node eval_builtin
    eval_userfunc eval_body eval_new eval_iif eval_nth eval_any choice call_old check_args
    check_nargs get_var get_sysvar ◌+ℤ◌ ◌-ℤ◌ ◌*ℤ◌ quot_ℤ rem_ℤ from_dse dse is_leap_year
    days_in_month days_in_year month_index month_days year_start back_year find_month
runs = tt

date_plus : add standard (val date_type (pos 10)) (val int_type (negsuc 10)) ≡ err e_date_over
unfolding runs
date_plus = refl

time_wraps : add standard (val time_type (pos 1439)) (int 2) ≡ ok (val time_type (pos 1))
unfolding runs
time_wraps = refl

int_overflows : add standard (int 2147483647) (int 1) ≡ err e_too_high
unfolding runs
int_overflows = refl

quotient : divide_or_mod false (val int_type (negsuc 6)) (int 2) ≡ ok (val int_type (negsuc 2))
unfolding runs
quotient = refl

remainder : divide_or_mod true (val int_type (negsuc 6)) (int 2) ≡ ok (val int_type (negsuc 0))
unfolding runs
remainder = refl

-- "ab" * 3
repeated :
    multiply standard (str (97 ∷ 98 ∷ [])) (int 3) ≡ ok (str (97 ∷ 98 ∷ 97 ∷ 98 ∷ 97 ∷ 98 ∷ []))
unfolding runs
repeated = refl

too_long_text : multiply standard (str (97 ∷ 98 ∷ [])) (int 11) ≡ err e_string_too_long
unfolding runs
too_long_text = refl

-- "1990-01-02" to a date.
a_date :
    coerce_to standard date_type (str (49 ∷ 57 ∷ 57 ∷ 48 ∷ 45 ∷ 48 ∷ 49 ∷ 45 ∷ 48 ∷ 50 ∷ []))
    ≡ ok (val date_type (pos 1))
unfolding runs
a_date = refl

-- The text of the first day, at a minute past noon.
a_moment :
    text_of standard (val datetime_type (pos 721))
    ≡ ok (49 ∷ 57 ∷ 57 ∷ 48 ∷ 45 ∷ 48 ∷ 49 ∷ 45 ∷ 48 ∷ 49 ∷ 64 ∷ 49 ∷ 50 ∷ 58 ∷ 48 ∷ 49 ∷ [])
unfolding runs
a_moment = refl

-- The text of five minutes before it, and of the day before it.
before_it :
    (text_of standard (val datetime_type (negsuc 4))
      ≡ ok (49 ∷ 57 ∷ 57 ∷ 48 ∷ 45 ∷ 48 ∷ 49 ∷ 45 ∷ 48 ∷ 49 ∷ 64 ∷ 48 ∷ 48 ∷ 58 ∷ 45 ∷ 53 ∷ []))
    × (text_of standard (val date_type (negsuc 0))
        ≡ ok (49 ∷ 57 ∷ 56 ∷ 57 ∷ 45 ∷ 49 ∷ 50 ∷ 45 ∷ 51 ∷ 49 ∷ []))
    × (text_of standard (val date_type (negsuc 1459))
        ≡ ok (49 ∷ 57 ∷ 56 ∷ 54 ∷ 45 ∷ 48 ∷ 49 ∷ 45 ∷ 48 ∷ 50 ∷ []))
unfolding runs
before_it = (refl, refl, refl)

-- "ab" * 2000000000
undefined_product : multiply standard (str (97 ∷ 98 ∷ [])) (int 2000000000) ≡ err undefined_overflow
unfolding runs
undefined_product = refl

-- "1:05pm" to a time.
a_time :
    coerce_to standard time_type (str (49 ∷ 58 ∷ 48 ∷ 53 ∷ 112 ∷ 109 ∷ []))
    ≡ ok (val time_type (pos 785))
unfolding runs
a_time = refl

-- The function that calls itself stops at the recursion level, and catch() gives its second
-- argument.
recursion : (evaluate (environment 1) (user_func [] no_kids) start).0 ≡ err e_recursive
unfolding runs
recursion = refl

caught :
    (evaluate
      (environment 1)
      (builtin_func [] (kid (user_func [] no_kids) (kid (constant (int 3)) no_kids)))
      start).0
    ≡ ok (int 3)
unfolding runs
caught = refl

compare-is_total_order_example :
    (Yes lt (int 1) (int 2) → Yes lt (int 2) (int 3) → Yes lt (int 1) (int 3))
    × (Yes eq (int 1) (int 2) ↔ (int 1 ≡ int 2))
    × (Yes lt (int 1) (int 2) ⊎ (Yes eq (int 1) (int 2) ⊎ Yes gt (int 1) (int 2)))
    × (compare gt (int 1) (int 2) ≡ compare lt (int 2) (int 1))
    × (compare ge (int 1) (int 2) ≡ compare le (int 2) (int 1))
    × (Yes le (int 1) (int 2) ↔ ¬ Yes gt (int 1) (int 2))
    × (Yes ne (int 1) (int 2) ↔ ¬ Yes eq (int 1) (int 2))
compare-is_total_order_example = compare-is_total_order (int 1) (int 2) (int 3) refl refl

apply-in_range_example : Gives in_range (apply standard op_multiply (int 46341) (int 46341))
apply-in_range_example = apply-in_range standard op_multiply (int 46341) (int 46341) refl refl

sane_vars : (x : Chars) (u : Value) (c : Bool) → find 3 x ≡ some (u, c) → InRange u
sane_vars [] u c h = ground arith
sane_vars (d ∷ x) u c h = ground arith

abbrev or_else : UserFunc → Option UserFunc → UserFunc
or_else g none = g
or_else g (some f) = f

sane_bodies : (x : Chars) (f : UserFunc) → user_table x ≡ some f → Fine CatchOrEval InRange f.body
unfolding Fine
sane_bodies [] f h = subst (λ z. Fine CatchOrEval InRange z.body) (ap (or_else endless) h) tt
sane_bodies (d ∷ x) f h =
    subst (λ z. Fine CatchOrEval InRange z.body) (ap (or_else double) h) (tt, refl)

abbrev function_of : Call → (Node → Comp Value) → List Value → Comp Value
function_of (old_style f) = f
function_of (new_style f) = first_argument

five_doubled-Fine : Fine CatchOrEval InRange five_doubled
unfolding Fine
five_doubled-Fine = (refl, tt)

sane_functions :
    (x : Chars) (f : (Node → Comp Value) → List Value → Comp Value)
    → CatchOrEval x
    → (table x).call ≡ old_style f
    → (vs : List Value) (eval : Node → Comp Value) → AllGood InRange vs
    → ((a : Node)
        → Fine CatchOrEval InRange a
        → (s : State) → EndsWithin (environment 3).limits InRange s (eval a s))
    → (s : State) → EndsWithin (environment 3).limits InRange s (f eval vs s)
sane_functions [] f o e vs eval all agree s = absurd cc
sane_functions (c ∷ x) f o e vs eval all agree s =
    let named : (entry_of 101).call ≡ old_style f =
      subst (λ z. (entry_of z).call ≡ old_style f) o e in
    subst (λ g. EndsWithin (environment 3).limits InRange s (g eval vs s)) (ap function_of named)
      (agree five_doubled five_doubled-Fine s)

environment-Sane : Sane CatchOrEval (environment 3)
environment-Sane = record {
  vars = sane_vars;
  sysvars = λ x. refl;
  functions = sane_functions;
  bodies = sane_bodies;
}

-- f(x) + e("")
abbrev sum : Node
sum =
    binary op_add (user_func (102 ∷ []) (kid (variable (120 ∷ [])) no_kids))
      (builtin_func (101 ∷ []) (kid (constant (str [])) no_kids))

sum-Fine : Fine CatchOrEval InRange sum
unfolding Fine
sum-Fine = ((tt, tt), (refl, (refl, tt)))

sum_run : (evaluate (environment 3) sum start).0 ≡ ok (int 16)
unfolding runs
sum_run = refl

-- const(3), behind a variable, clears the flag that the variable sets.
clearing_run :
    (evaluate
      (environment 3)
      (binary op_add
        (variable (120 ∷ []))
        (builtin_func (99 ∷ []) (kid (constant (int 3)) no_kids)))
      start).1.nonconst
    ≡ false
unfolding runs
clearing_run = refl

evaluate-EndsWithin_example :
    EndsWithin (environment 3).limits InRange start (evaluate (environment 3) sum start)
evaluate-EndsWithin_example =
    evaluate-EndsWithin CatchOrEval (environment 3) sum start environment-Sane sum-Fine

-- f() of the constant variable, and e(""): 10 + 10.
abbrev constant_sum : Node
constant_sum =
    binary op_add (user_func (102 ∷ []) (kid (variable []) no_kids))
      (builtin_func (101 ∷ []) (kid (constant (str [])) no_kids))

text-int-round_example :
    (text_of standard (int 2026) >>= λ s. coerce_to standard int_type (str s)) ≡ ok (int 2026)
text-int-round_example = text-int-round standard (pos 2026) refl refl

text-time-round_example :
    (text_of standard (val time_type (pos 725)) >>= λ s. coerce_to standard time_type (str s))
    ≡ ok (val time_type (pos 725))
text-time-round_example = text-time-round standard 725 refl (omega arith)

a_year : (from_dse 13000).year ≡ 2025
unfolding runs
a_year = refl

text-date-round_example :
    (text_of standard (val date_type (pos 13000)) >>= λ s. coerce_to standard date_type (str s))
    ≡ ok (val date_type (pos 13000))
text-date-round_example = text-date-round standard 13000 refl refl (omega (arith, a_year))
