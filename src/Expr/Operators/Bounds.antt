-- ===== src/Expr/Operators/Bounds.antt =====
-- The operators of remind-v06.02.10/src/expr.c keep their values in range.
use remind_rb.Base.{
  zero, suc, ◌+◌, ◌≡◌, Bool, Bool-cases, inl, inr, true, false, not, ◌&&◌, arith, ltb, ◌/◌, ◌<◌,
}
use remind_rb.Base.Int.{
  ℤ, pos, negsuc, ◌+ℤ◌, ◌-ℤ◌, ◌*ℤ◌, neg_ℤ, quot_ℤ, rem_ℤ, is_negative, magnitude,
}
use native.Mathlib.Nat.{div-le_self, div-lt_self, mod-le}
use remind_rb.Errors.{Error, Result, ok}
use remind_rb.Expr.{
  Chars, Format, int_type, time_type, date_type, datetime_type, Value, val, str, How, fits_int,
  BinaryOp, op_add, op_subtract, op_multiply, op_divide, op_mod, op_and, op_or, op_compare, UnaryOp,
  op_not, op_minus,
}
use remind_rb.Expr.Coerce.{of_day}
use remind_rb.Expr.Operators.{
  checked, checked_date, checked_time, concat, add, subtract, repeat_text, multiply, divide_ints,
  divide_or_mod, unary_minus, compare, mixed_types, of_bool, truthy, same_type, satisfied, less,
  apply, apply_unary, is_minus_one, is_int_min,
}

-- An `int` of 32 bits; for a time a minute of a day; for a date and a moment not negative.
abbrev pub in_range : Value → Bool
in_range (val int_type z) = fits_int z
in_range (val time_type (pos n)) = ltb n 1440
in_range (val time_type (negsuc n)) = false
in_range (val date_type z) = not (is_negative z) && fits_int z
in_range (val datetime_type z) = not (is_negative z) && fits_int z
in_range (str s) = true

-- What a result holds if it is one.
abbrev pub Gives : (Value → Bool) → Result Value → Type 0
Gives p r = (v : Value) → r ≡ ok v → p v ≡ true

checked_lem : (e : Error) (z : ℤ) → Gives in_range (checked e int_type z)
unfolding checked
checked_lem e z v h = ground arith

checked_date-date : (z : ℤ) → Gives in_range (checked_date date_type z)
unfolding checked checked_date
checked_date-date z v h = ground arith

checked_date-datetime : (z : ℤ) → Gives in_range (checked_date datetime_type z)
unfolding checked checked_date
checked_date-datetime z v h = ground arith

of_day-in_range : (z : ℤ) → in_range (val time_type (of_day z)) ≡ true
unfolding of_day rem_ℤ ◌+ℤ◌
of_day-in_range (pos n) = ground arith
of_day-in_range (negsuc n) = ground arith

checked_time-in_range : (e : Error) (z : ℤ) → Gives in_range (checked_time e z)
unfolding checked_time
checked_time-in_range e z v h = ground (arith, of_day-in_range z)

concat-in_range : (f : Format) (v w : Value) → Gives in_range (concat f v w)
unfolding concat
concat-in_range f v w x h = ground arith

repeat_text-in_range : (f : Format) (n : ℤ) (s : Chars) → Gives in_range (repeat_text f n s)
unfolding repeat_text
repeat_text-in_range f (pos n) s v h = ground arith
repeat_text-in_range f (negsuc n) s v h = ground arith

add-in_range : (f : Format) (v w : Value) → Gives in_range (add f v w)
unfolding add
add-in_range f (val int_type x) (val int_type y) = checked_lem _ (x +ℤ y)
add-in_range f (val date_type x) (val int_type y) = checked_date-date (x +ℤ y)
add-in_range f (val int_type x) (val date_type y) = checked_date-date (x +ℤ y)
add-in_range f (val datetime_type x) (val int_type y) = checked_date-datetime (x +ℤ y)
add-in_range f (val datetime_type x) (val time_type y) = checked_date-datetime (x +ℤ y)
add-in_range f (val int_type x) (val datetime_type y) = checked_date-datetime (x +ℤ y)
add-in_range f (val time_type x) (val datetime_type y) = checked_date-datetime (x +ℤ y)
add-in_range f (val time_type x) (val int_type y) = checked_time-in_range _ (x +ℤ y)
add-in_range f (val int_type x) (val time_type y) = checked_time-in_range _ (x +ℤ y)
add-in_range f (val time_type x) (val time_type y) = checked_time-in_range _ (x +ℤ y)
add-in_range f (val j x) (str t) = concat-in_range f (val j x) (str t)
add-in_range f (str s) w = concat-in_range f (str s) w
add-in_range f (val j x) (val k y) = λ v h. ground arith

subtract-in_range : (v w : Value) → Gives in_range (subtract v w)
unfolding subtract
subtract-in_range (val int_type x) (val int_type y) = checked_lem _ (x -ℤ y)
subtract-in_range (val date_type x) (val int_type y) = checked_date-date (x -ℤ y)
subtract-in_range (val datetime_type x) (val int_type y) = checked_date-datetime (x -ℤ y)
subtract-in_range (val datetime_type x) (val time_type y) = checked_date-datetime (x -ℤ y)
subtract-in_range (val time_type x) (val int_type y) = checked_time-in_range _ (x -ℤ y)
subtract-in_range (val time_type x) (val time_type y) = checked_lem _ (x -ℤ y)
subtract-in_range (val datetime_type x) (val datetime_type y) = checked_lem _ (x -ℤ y)
subtract-in_range (val date_type x) (val date_type y) = checked_lem _ (x -ℤ y)
subtract-in_range (val j x) (val k y) = λ v h. ground arith
subtract-in_range (val j x) (str t) = λ v h. ground arith
subtract-in_range (str s) w = λ v h. ground arith

multiply-in_range : (f : Format) (v w : Value) → Gives in_range (multiply f v w)
unfolding multiply
multiply-in_range f (val int_type x) (val int_type y) = checked_lem _ (x *ℤ y)
multiply-in_range f (val int_type x) (str t) = repeat_text-in_range f x t
multiply-in_range f (str s) (val int_type y) = repeat_text-in_range f y s
multiply-in_range f v w = λ x h. ground arith

-- A signed number in range whose magnitude is at most that of another one.
quot_ℤ-fits :
    (x y : ℤ)
    → fits_int x ≡ true
    → (is_minus_one y && is_int_min x) ≡ false
    → fits_int (quot_ℤ x y) ≡ true
unfolding quot_ℤ
quot_ℤ-fits (pos n) (pos m) h g = ground (arith, div-le_self n m)
quot_ℤ-fits (pos n) (negsuc m) h g = ground (arith, div-le_self n (m + 1))
quot_ℤ-fits (negsuc n) (pos m) h g = ground (arith, div-le_self (n + 1) m)
quot_ℤ-fits (negsuc n) (negsuc zero) h g = ground (arith, div-le_self (n + 1) 1)
quot_ℤ-fits (negsuc n) (negsuc (suc m)) h g =
    let less : suc n / suc (suc m) < suc n = div-lt_self (omega arith) (omega arith) in ground arith

rem_ℤ-fits : (x y : ℤ) → fits_int x ≡ true → fits_int (rem_ℤ x y) ≡ true
unfolding rem_ℤ
rem_ℤ-fits (pos n) y h = ground (arith, mod-le n (magnitude y))
rem_ℤ-fits (negsuc n) y h = ground (arith, mod-le (n + 1) (magnitude y))

divide_ints-in_range : (b : Bool) (x y : ℤ) → fits_int x ≡ true → Gives in_range (divide_ints b x y)
unfolding divide_ints
divide_ints-in_range b x y f v h = ground (arith, quot_ℤ-fits x y f, rem_ℤ-fits x y f)

divide_or_mod-in_range :
    (b : Bool) (v w : Value) → in_range v ≡ true → Gives in_range (divide_or_mod b v w)
unfolding divide_or_mod
divide_or_mod-in_range b (val int_type x) (val int_type y) f = divide_ints-in_range b x y f
divide_or_mod-in_range b v w f = λ x h. ground arith

neg_ℤ-fits : (x : ℤ) → fits_int x ≡ true → is_int_min x ≡ false → fits_int (neg_ℤ x) ≡ true
neg_ℤ-fits (pos n) h g = ground arith
neg_ℤ-fits (negsuc n) h g = ground arith

unary_minus-in_range : (v : Value) → in_range v ≡ true → Gives in_range (unary_minus v)
unfolding unary_minus
unary_minus-in_range (val int_type x) f v h = ground (arith, neg_ℤ-fits x f)
unary_minus-in_range (val time_type x) f v h = ground arith
unary_minus-in_range (val date_type x) f v h = ground arith
unary_minus-in_range (val datetime_type x) f v h = ground arith
unary_minus-in_range (str s) f v h = ground arith

pub of_bool-in_range : (b : Bool) → in_range (of_bool b) ≡ true
of_bool-in_range b = ground arith

mixed_types-in_range : (how : How) → Gives in_range (mixed_types how)
mixed_types-in_range how v h = ground arith

compare-in_range : (how : How) (v w : Value) → Gives in_range (compare how v w)
unfolding compare
compare-in_range how v w x h = elim (Bool-cases (same_type v w)) [
  | inl e ↦ ground (arith, e, of_bool-in_range (satisfied how (less v w) (less w v)))
  | inr e ↦ ground (arith, e, mixed_types-in_range how x)
]

-- Every operator on two values in range gives a value in range or an error.
pub apply-in_range :
    (f : Format) (op : BinaryOp) (v w : Value)
    → in_range v ≡ true
    → in_range w ≡ true
    → Gives in_range (apply f op v w)
unfolding apply
apply-in_range f op_add v w p q = add-in_range f v w
apply-in_range f op_subtract v w p q = subtract-in_range v w
apply-in_range f op_multiply v w p q = multiply-in_range f v w
apply-in_range f op_divide v w p q = divide_or_mod-in_range false v w p
apply-in_range f op_mod v w p q = divide_or_mod-in_range true v w p
apply-in_range f op_and v w p q = λ x h. ground (arith, q)
apply-in_range f op_or v w p q = λ x h. ground (arith, q)
apply-in_range f (op_compare how) v w p q = compare-in_range how v w

pub apply_unary-in_range :
    (op : UnaryOp) (v : Value) → in_range v ≡ true → Gives in_range (apply_unary op v)
unfolding apply_unary
apply_unary-in_range op_not v p = λ x h. ground (arith, of_bool-in_range (not (truthy v)))
apply_unary-in_range op_minus v p = unary_minus-in_range v p
