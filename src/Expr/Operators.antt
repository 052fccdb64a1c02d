-- ===== src/Expr/Operators.antt =====
-- The operators of remind-v06.02.10/src/expr.c on the values of their operands, and truthy(). Their
-- evaluation of the operands is in Expr/Eval. Memory is always there.
pub mod Bounds
pub mod Order
pub mod Codes
use remind_rb.Base.{
  ℕ, zero, suc, ◌+◌, ◌*◌, Bool, true, false, not, ◌&&◌, ◌||◌, List, [], ◌∷◌, ◌++◌, Option, none,
  some, length, ltb, leb, ◌==◌, if◌then◌else◌,
}
use remind_rb.Base.Int.{ℤ, pos, negsuc, ◌+ℤ◌, ◌-ℤ◌, ◌*ℤ◌, ltb_ℤ, neg_ℤ, quot_ℤ, rem_ℤ, is_negative}
use remind_rb.Errors.{
  Error, Result, ok, err, ◌>>=◌, e_too_high, e_too_low, e_date_over, e_bad_type, e_div_zero,
  e_string_too_long, undefined_overflow,
}
use remind_rb.Expr.{
  Chars, Format, Kind, int_type, time_type, date_type, datetime_type, Value, val, str, How, eq, gt,
  lt, ge, le, ne, fits_int, BinaryOp, op_add, op_subtract, op_multiply, op_divide, op_mod, op_and,
  op_or, op_compare, UnaryOp, op_not, op_minus,
}
use remind_rb.Expr.Coerce.{of_day, text_of}

abbrev pub truthy : Value → Bool
truthy (val k (pos zero)) = false
truthy (val k (pos (suc n))) = true
truthy (val k (negsuc n)) = true
truthy (str []) = false
truthy (str (c ∷ s)) = true

abbrev pub same_kind : Kind → Kind → Bool
same_kind int_type int_type = true
same_kind time_type time_type = true
same_kind date_type date_type = true
same_kind datetime_type datetime_type = true
same_kind _ _ = false

abbrev pub same_type : Value → Value → Bool
same_type (val j x) (val k y) = same_kind j k
same_type (val j x) (str t) = false
same_type (str s) (val k y) = false
same_type (str s) (str t) = true

-- The order of strcmp(): by the first character that differs.
unfoldable pub str_less : Chars → Chars → Bool
str_less s [] = false
str_less [] (d ∷ t) = true
str_less (c ∷ s) (d ∷ t) =
    let rest = str_less s t in if ltb c d then true else if ltb d c then false else rest

unfoldable pub less : Value → Value → Bool
unfolding str_less
less (val j x) (val k y) = ltb_ℤ x y
less (str s) (str t) = str_less s t
less (val j x) (str t) = false
less (str s) (val k y) = false

-- The six comparisons of two values of one type.
abbrev pub satisfied : How → Bool → Bool → Bool
satisfied eq below above = not (below || above)
satisfied ne below above = below || above
satisfied lt below above = below
satisfied gt below above = above
satisfied le below above = not above
satisfied ge below above = not below

abbrev pub of_bool : Bool → Value
of_bool b = val int_type (pos (if b then 1 else 0))

abbrev pub mixed_types : How → Result Value
mixed_types eq = ok (of_bool false)
mixed_types ne = ok (of_bool true)
mixed_types lt = err e_bad_type
mixed_types gt = err e_bad_type
mixed_types le = err e_bad_type
mixed_types ge = err e_bad_type

unfoldable pub compare : How → Value → Value → Result Value
unfolding less
compare how v w =
    if same_type v w then ok (of_bool (satisfied how (less v w) (less w v))) else mixed_types how

-- A sum or a difference in an `int`, or the error for its overflow.
unfoldable pub checked : Error → Kind → ℤ → Result Value
checked e k z = if fits_int z then ok (val k z) else err e

-- A date may not be negative either.
unfoldable pub checked_date : Kind → ℤ → Result Value
unfolding checked
checked_date k z = if is_negative z then err e_date_over else checked e_date_over k z

-- A time wraps around at midnight.
unfoldable pub checked_time : Error → ℤ → Result Value
unfolding of_day
checked_time e z = if fits_int z then ok (val time_type (of_day z)) else err e

unfoldable pub too_long : Format → ℕ → Bool
too_long f n = ltb 0 f.max_string_len && ltb f.max_string_len n

unfoldable pub concat : Format → Value → Value → Result Value
unfolding too_long
concat f v w = text_of f v >>= λ s. text_of f w >>= λ t.
    if too_long f (length s + length t) then err e_string_too_long else ok (str (s ++ t))

unfoldable pub add : Format → Value → Value → Result Value
unfolding checked checked_date checked_time concat
add f (val int_type x) (val int_type y) = checked e_too_high int_type (x +ℤ y)
add f (val date_type x) (val int_type y) = checked_date date_type (x +ℤ y)
add f (val int_type x) (val date_type y) = checked_date date_type (x +ℤ y)
add f (val datetime_type x) (val int_type y) = checked_date datetime_type (x +ℤ y)
add f (val datetime_type x) (val time_type y) = checked_date datetime_type (x +ℤ y)
add f (val int_type x) (val datetime_type y) = checked_date datetime_type (x +ℤ y)
add f (val time_type x) (val datetime_type y) = checked_date datetime_type (x +ℤ y)
add f (val time_type x) (val int_type y) = checked_time e_date_over (x +ℤ y)
add f (val int_type x) (val time_type y) = checked_time e_date_over (x +ℤ y)
add f (val time_type x) (val time_type y) = checked_time e_date_over (x +ℤ y)
add f (val j x) (val k y) = err e_bad_type
add f (val j x) (str t) = concat f (val j x) (str t)
add f (str s) w = concat f (str s) w

-- A time less a number is not checked for overflow.
unfoldable pub subtract : Value → Value → Result Value
unfolding checked checked_date checked_time
subtract (val int_type x) (val int_type y) = checked e_too_high int_type (x -ℤ y)
subtract (val date_type x) (val int_type y) = checked_date date_type (x -ℤ y)
subtract (val datetime_type x) (val int_type y) = checked_date datetime_type (x -ℤ y)
subtract (val datetime_type x) (val time_type y) = checked_date datetime_type (x -ℤ y)
subtract (val time_type x) (val int_type y) = checked_time undefined_overflow (x -ℤ y)
subtract (val time_type x) (val time_type y) = checked e_date_over int_type (x -ℤ y)
subtract (val datetime_type x) (val datetime_type y) = checked e_date_over int_type (x -ℤ y)
subtract (val date_type x) (val date_type y) = checked e_date_over int_type (x -ℤ y)
subtract (val j x) (val k y) = err e_bad_type
subtract (val j x) (str t) = err e_bad_type
subtract (str s) w = err e_bad_type

unfoldable pub repeat : ℕ → Chars → Chars
repeat zero s = []
repeat (suc n) s = s ++ repeat n s

-- The product is taken as an `int` first, which is undefined where it overflows.
unfoldable pub repeat_text : Format → ℤ → Chars → Result Value
unfolding repeat too_long
repeat_text f (negsuc n) s = err e_too_low
repeat_text f (pos n) s =
    let l = length s * n in
    if (n == 0) || (length s == 0)
    then ok (str [])
    else if ltb 2147483647 l
    then err undefined_overflow
    else if leb 2147483647 l || too_long f l
    then err e_string_too_long
    else ok (str (repeat n s))

unfoldable pub multiply : Format → Value → Value → Result Value
unfolding checked repeat_text
multiply f (val int_type x) (val int_type y) = checked e_too_high int_type (x *ℤ y)
multiply f (val int_type x) (str t) = repeat_text f x t
multiply f (str s) (val int_type y) = repeat_text f y s
multiply f v w = err e_bad_type

-- INT_MIN / -1 is the one quotient that overflows, and its remainder is refused with it.
abbrev pub is_int_min : ℤ → Bool
is_int_min (pos n) = false
is_int_min (negsuc n) = n == 2147483647

abbrev pub is_minus_one : ℤ → Bool
is_minus_one (pos n) = false
is_minus_one (negsuc n) = n == 0

abbrev pub is_zero : ℤ → Bool
is_zero (pos n) = n == 0
is_zero (negsuc n) = false

unfoldable pub divide_ints : Bool → ℤ → ℤ → Result Value
divide_ints is_mod x y =
    if is_zero y
    then err e_div_zero
    else if is_minus_one y && is_int_min x
    then err e_too_high
    else ok (val int_type (if is_mod then rem_ℤ x y else quot_ℤ x y))

unfoldable pub divide_or_mod : Bool → Value → Value → Result Value
unfolding divide_ints
divide_or_mod is_mod (val int_type x) (val int_type y) = divide_ints is_mod x y
divide_or_mod is_mod v w = err e_bad_type

abbrev pub logical_not : Value → Value
logical_not v = of_bool (not (truthy v))

unfoldable pub unary_minus : Value → Result Value
unary_minus (val int_type x) = if is_int_min x then err e_too_low else ok (val int_type (neg_ℤ x))
unary_minus v = err e_bad_type

-- `&&` returns a first operand that is false, and `||` one that is true.
abbrev pub short_circuits : BinaryOp → Value → Bool
short_circuits op_and v = not (truthy v)
short_circuits op_or v = truthy v
short_circuits op v = false

-- An operator on two evaluated operands; `&&` and `||` return the second.
unfoldable pub apply : Format → BinaryOp → Value → Value → Result Value
apply f op_add v w = add f v w
apply f op_subtract v w = subtract v w
apply f op_multiply v w = multiply f v w
apply f op_divide v w = divide_or_mod false v w
apply f op_mod v w = divide_or_mod true v w
apply f op_and v w = ok w
apply f op_or v w = ok w
apply f (op_compare how) v w = compare how v w

unfoldable pub apply_unary : UnaryOp → Value → Result Value
apply_unary op_not v = ok (logical_not v)
apply_unary op_minus v = unary_minus v
