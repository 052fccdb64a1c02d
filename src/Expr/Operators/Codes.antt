-- ===== src/Expr/Operators/Codes.antt =====
-- The errors of the operators of remind-v06.02.10/src/expr.c.
use remind_rb.Base.{◌*◌, ◌≡◌, Bool, true, false, not, ltb, length}
use remind_rb.Base.Int.{pos, ◌-ℤ◌}
use remind_rb.Errors.{Result, ok, err, is_code}
use remind_rb.Expr.{
  int_type, time_type, date_type, Value, val, str, fits_int, BinaryOp, op_add, op_subtract,
  op_multiply,
}
use remind_rb.Expr.Coerce.{last_day}

-- If the result is an error, it is a code of Remind.
abbrev pub Coded : {A : Type 0} → Result A → Type 0
Coded (ok a) = Unit
Coded (err e) = is_code e ≡ true

-- A date whose text overflows in FromDSE.
abbrev pub is_late : Value → Bool
is_late (val date_type (pos n)) = ltb last_day n
is_late v = false

-- Where C leaves the result of an operator on values in range undefined: the text of a late date in
-- a sum of texts, a time less a number, which the source does not check, and the product of a length
-- and a number, each out of the range of an `int`.
abbrev pub is_undefined : BinaryOp → Value → Value → Bool
is_undefined op_add (str s) w = is_late w
is_undefined op_add (val k x) (str t) = is_late (val k x)
is_undefined op_subtract (val time_type x) (val int_type y) = not (fits_int (x -ℤ y))
is_undefined op_multiply (val int_type (pos n)) (str t) = ltb 2147483647 (length t * n)
is_undefined op_multiply (str s) (val int_type (pos n)) = ltb 2147483647 (length s * n)
is_undefined op v w = false
