-- ===== src/Errors.antt =====
-- The error codes of remind-v06.02.10/src/err.h that the modelled functions return, and a result
-- that is a value or such a code.
use remind_rb.Base.{Bool, true, false}

pub data Error : Type 0 where
  e_bad_date e_date_over e_cant_trig e_too_many_localomit e_too_many_full : Error
  e_duration_no_at e_rep_fulspec e_pop_no_push e_spec_mon e_parse_err : Error
  e_nested_if e_else_no_if e_endif_no_if e_bad_time e_bad_number e_no_mem : Error
  e_too_high e_too_low e_div_zero e_bad_type e_string_too_long e_cant_coerce : Error
  e_nosuch_var e_undef_func e_too_few_args e_too_many_args e_recursive : Error
  e_expr_nodes_exceeded e_expr_disabled e_time_exceeded e_swerr : Error
  e_op_stk_over e_miss_right_paren e_expecting_atom e_expect_comma e_eoln : Error
  e_illegal_char e_miss_quote e_expecting_eoxpr e_iif_odd : Error
  -- Not a code of Remind: the source would shift by a negative number here.
  undefined_shift : Error
  -- Nor this: it would compute with NO_TIME, the largest `int`.
  undefined_sum : Error
  -- Nor this: the value of an `int` leaves its range.
  undefined_overflow : Error
  -- Nor this: it would read an argument that a function does not have.
  undefined_local : Error
  -- Nor this: it would read the length of a month behind December.
  undefined_month : Error

pub data Result {ℓ} (A : Type ℓ) : Type ℓ where
  ok : A → Result A
  err : Error → Result A

infixl 5 ◌>>=◌
abbrev pub ◌>>=◌ {ℓ κ} : {A : Type ℓ} {B : Type κ} → Result A → (A → Result B) → Result B
ok a >>= f = f a
err e >>= f = err e

-- Whether the error is a code of Remind.
abbrev pub is_code : Error → Bool
is_code undefined_shift = false
is_code undefined_sum = false
is_code undefined_overflow = false
is_code undefined_local = false
is_code undefined_month = false
is_code e = true
