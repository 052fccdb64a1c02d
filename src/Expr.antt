-- ===== src/Expr.antt =====
-- Expressions: the values of remind-v06.02.10/src/types.h and the nodes that expr.c builds and
-- evaluates. The children of a node, which are linked as siblings, are its arguments here.
pub mod Text
pub mod Literal
pub mod Coerce
pub mod Operators
pub mod Comp
pub mod Eval
pub mod Token
pub mod Number
pub mod Parse
use remind_rb.Base.{ℕ, Bool, List, ltb}
use remind_rb.Base.Int.{ℤ}

-- The type of a value that is a number: INT_TYPE, TIME_TYPE, DATE_TYPE and DATETIME_TYPE.
pub data Kind : Type 0 where
  int_type time_type date_type datetime_type : Kind

-- Texts are lists of character codes; a text holds no 0.
abbrev pub Chars : Type 0
Chars = List ℕ

pub data Value : Type 0 where
  val : Kind → ℤ → Value
  str : Chars → Value

-- The `how` of compare().
pub data How : Type 0 where
  eq gt lt ge le ne : How

pub data BinaryOp : Type 0 where
  op_add op_subtract op_multiply op_divide op_mod op_and op_or : BinaryOp
  op_compare : How → BinaryOp

pub data UnaryOp : Type 0 where
  op_not op_minus : UnaryOp

-- A short name or text is stored in the node and a long one behind a pointer; both are one
-- constructor here.
mutual
  pub data Node : Type 0 where
    constant : Value → Node
    variable : Chars → Node
    local_var : ℕ → Node
    sysvar : Chars → Node
    builtin_func : Chars → Kids → Node
    user_func : Chars → Kids → Node
    unary : UnaryOp → Node → Node
    binary : BinaryOp → Node → Node → Node

  pub data Kids : Type 0 where
    no_kids : Kids
    kid : Node → Kids → Kids

-- DateSep, TimeSep, DateTimeSep and MaxStringLen, where 0 is no limit.
pub record Format : Type 0 where
  pub date_sep : ℕ
  pub time_sep : ℕ
  pub date_time_sep : ℕ
  pub max_string_len : ℕ

abbrev pub minutes_in_day : ℕ
minutes_in_day = 1440

-- The value fits an `int` of 32 bits.
abbrev pub fits_int : ℤ → Bool
fits_int (ℤ.pos n) = ltb n 2147483648
fits_int (ℤ.negsuc n) = ltb n 2147483648
