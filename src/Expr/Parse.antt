-- ===== src/Expr/Parse.antt =====
-- The parser of remind-v06.02.10/src/expr.c on the tokens of an expression. Memory is always there.
pub mod Grammar
pub mod Steps
pub mod Reads
pub mod Atoms
pub mod Sound
pub mod Levels
pub mod Rules
pub mod Calls
pub mod Complete
use remind_rb.Base.{
  ℕ, zero, suc, ◌+◌, ◌-◌, Bool, true, false, not, ◌&&◌, ◌||◌, List, [], ◌∷◌, Option, none, some,
  length, ltb, leb, ◌==◌, if◌then◌else◌,
}
use remind_rb.Base.Int.{ℤ, pos, neg_ℤ}
use remind_rb.Errors.{
  Error, Result, ok, err, ◌>>=◌, e_op_stk_over, e_miss_right_paren, e_eoln, e_expecting_atom,
  e_illegal_char, e_too_many_args, e_too_few_args, e_expect_comma, e_parse_err, e_expecting_eoxpr,
  e_expr_disabled, e_swerr,
}
use remind_rb.Expr.{
  Chars, Format, Kind, int_type, Value, val, str, How, eq, gt, lt, ge, le, ne, BinaryOp, op_add,
  op_subtract, op_multiply, op_divide, op_mod, op_and, op_or, op_compare, UnaryOp, op_not, op_minus,
  Node, constant, builtin_func, user_func, unary, binary, Kids, no_kids, kid,
}
use remind_rb.Expr.Operators.{logical_not}
use remind_rb.Expr.Eval.{no_max_args, num_kids}
use remind_rb.Expr.Token.{Tokens, done, bad, tok, is_id}
use remind_rb.Expr.Number.{node_name, lower, same_chars, no_atom}

-- FindBuiltinFunc() gives the name in the table and the least and the largest number of arguments.
pub record Context : Type 0 where
  pub find_builtin : Chars → Option (Chars × ℕ × ℕ)
  pub atom : Chars → Result Node

-- The functions of the parser, from parse_expression_aux to parse_atom.
pub data Rule : Type 0 where
  or_rule and_rule eq_rule cmp_rule sum_rule term_rule factor_rule atom_rule call_rule : Rule

-- The rule for the operands of a rule.
abbrev pub below : Rule → Rule
below or_rule = and_rule
below and_rule = eq_rule
below eq_rule = cmp_rule
below cmp_rule = sum_rule
below sum_rule = term_rule
below term_rule = factor_rule
below factor_rule = atom_rule
below atom_rule = call_rule
below call_rule = or_rule

-- The operators, by the rule whose loop takes them.
abbrev pub operator : Rule → Chars → Option BinaryOp
operator or_rule (c ∷ d ∷ []) = if (c == 124) && (d == 124) then some op_or else none
operator and_rule (c ∷ d ∷ []) = if (c == 38) && (d == 38) then some op_and else none
operator eq_rule (c ∷ d ∷ []) =
    if (c == 61) && (d == 61)
    then some (op_compare eq)
    else if (c == 33) && (d == 61)
    then some (op_compare ne)
    else none
operator cmp_rule (c ∷ d ∷ []) =
    if (c == 60) && (d == 61)
    then some (op_compare le)
    else if (c == 62) && (d == 61)
    then some (op_compare ge)
    else none
operator cmp_rule (c ∷ []) =
    if c == 60 then some (op_compare lt) else if c == 62 then some (op_compare gt) else none
operator sum_rule (c ∷ []) =
    if c == 43 then some op_add else if c == 45 then some op_subtract else none
operator term_rule (c ∷ []) =
    if c == 42
    then some op_multiply
    else if c == 47
    then some op_divide
    else if c == 37
    then some op_mod
    else none
operator r t = none

-- What stands in front of a factor; the plus sign has no node.
pub data Sign : Type 0 where
  not_sign minus_sign plus_sign : Sign

abbrev pub sign : Chars → Option Sign
sign (c ∷ []) =
    if c == 33
    then some not_sign
    else if c == 45
    then some minus_sign
    else if c == 43
    then some plus_sign
    else none
sign t = none

-- PEEK_TOKEN: the text of the next token, which is empty at the end.
abbrev pub peek : Tokens → Result Chars
peek done = ok []
peek (bad e) = err e
peek (tok t ts) = ok t

-- GET_TOKEN, behind a PEEK_TOKEN that found a token.
abbrev pub next : Tokens → Tokens
next done = done
next (bad e) = bad e
next (tok t ts) = ts

abbrev pub is_char : ℕ → Chars → Bool
is_char c (d ∷ []) = c == d
is_char c t = false

abbrev pub Parser : Type 0
Parser = Tokens → Result (Node × Tokens)

-- Whether the token at hand is one of those that are looked for.
abbrev pub cases {ℓ κ} : {A : Type ℓ} {B : Type κ} → Option A → B → (A → B) → B
cases none b f = b
cases (some a) b f = f a

-- `while (TOKEN_IS(...))`: the operators of one rule, which group to the left. Each takes a token.
unfoldable pub binary_loop : ℕ → Rule → Parser → Node → Tokens → Result (Node × Tokens)
binary_loop zero r operand node ts = err e_swerr
binary_loop (suc rounds) r operand node ts = peek ts >>= λ t.
    cases (operator r t) (ok (node, ts))
      (λ op. operand (next ts) >>= λ a. binary_loop rounds r operand (binary op node a.0) a.1)

-- A sign in front of a constant that is a number is carried out.
unfoldable pub signed : Sign → Node → Node
signed plus_sign a = a
signed minus_sign (constant (val int_type z)) = constant (val int_type (neg_ℤ z))
signed not_sign (constant (val int_type z)) = constant (logical_not (val int_type z))
signed minus_sign a = unary op_minus a
signed not_sign a = unary op_not a

-- Too many arguments are noticed as soon as they are read, and too few at the end.
abbrev pub fits_most : Option (Chars × ℕ × ℕ) → ℕ → Bool
fits_most none n = true
fits_most (some (name, least, most)) n = not (ltb most n) || (most == no_max_args)

abbrev pub fits_least : Option (Chars × ℕ × ℕ) → ℕ → Bool
fits_least none n = true
fits_least (some (name, least, most)) n = not (ltb n least)

-- Behind an argument: the end of the list, or a comma that is not the last.
abbrev pub more_arguments : Tokens → Result Bool
more_arguments ts = peek ts >>= λ t.
    if is_char 41 t
    then ok false
    else if not (is_char 44 t)
    then err e_expect_comma
    else peek (next ts) >>= λ u. if is_char 41 u then err e_parse_err else ok true

unfoldable pub arguments : ℕ → Option (Chars × ℕ × ℕ) → Parser → ℕ → Tokens → Result (Kids × Tokens)
arguments zero f argument n ts = err e_swerr
arguments (suc rounds) f argument n ts = argument ts >>= λ a.
    if not (fits_most f (n + 1))
    then err e_too_many_args
    else more_arguments a.1 >>= λ more.
        if more
        then (arguments rounds f argument (n + 1) (next a.1) >>= λ rest.
            ok (kid a.0 rest.0, rest.1))
        else ok (kid a.0 no_kids, a.1)

abbrev pub call_node : Option (Chars × ℕ × ℕ) → Chars → Kids → Node
call_node none name kids = user_func (node_name name) kids
call_node (some (f, least, most)) name kids = builtin_func f kids

-- The name of a call: its token without the parenthesis.
abbrev pub call_name : Chars → Chars
call_name [] = []
call_name (c ∷ []) = []
call_name (c ∷ d ∷ s) = c ∷ call_name (d ∷ s)

abbrev pub is_call : Chars → Bool
is_call [] = false
is_call (c ∷ []) = c == 40
is_call (c ∷ d ∷ s) = is_call (d ∷ s)

-- It is called in front of the name.
unfoldable pub parse_function_call : ℕ → Context → Parser → Parser
unfolding arguments lower
parse_function_call rounds c argument (tok t ts) =
    let name = call_name t in
    let f = c.find_builtin name in
    peek ts >>= λ u.
    (if is_char 41 u then ok (no_kids, ts) else arguments rounds f argument 0 ts) >>= λ r.
    if fits_least f (num_kids r.0)
    then ok (call_node f (lower name) r.0, next r.1)
    else err e_too_few_args
parse_function_call rounds c argument ts = err e_swerr

-- `(`, a call, or a name or constant.
abbrev pub may_start_atom : ℕ → Bool
may_start_atom c = is_id c || ((c == 36) || ((c == 34) || (c == 39)))

unfoldable pub closed : Node × Tokens → Result (Node × Tokens)
closed r = peek r.1 >>= λ t. if is_char 41 t then ok (r.0, next r.1) else err e_miss_right_paren

unfoldable pub atom_of : Context → Parser → Tokens → Chars → Result (Node × Tokens)
atom_of c call ts [] = err e_eoln
atom_of c call ts (d ∷ s) =
    if not (may_start_atom d)
    then err (no_atom d)
    else if is_call (d ∷ s)
    then call ts
    else (c.atom (d ∷ s) >>= λ a. ok (a, next ts))

-- CHECK_PARSE_LEVEL: `left` is how many levels are left. Each rule calls the next one a level down.
unfoldable pub parse : Context → ℕ → ℕ → Rule → Parser
unfolding binary_loop parse_function_call atom_of closed
parse c rounds zero r ts = err e_op_stk_over
parse c rounds (suc left) factor_rule ts =
    let atom = parse c rounds left atom_rule ts in
    let factor = parse c rounds left factor_rule (next ts) in
    peek ts >>= λ t. cases (sign t) atom (λ s. factor >>= λ a. ok (signed s a.0, a.1))
parse c rounds (suc left) atom_rule ts =
    let inner = parse c rounds left or_rule (next ts) in
    let call = parse c rounds left call_rule in
    peek ts >>= λ t. if is_char 40 t then inner >>= closed else atom_of c call ts t
parse c rounds (suc left) call_rule ts =
    parse_function_call rounds c (parse c rounds left or_rule) ts
parse c rounds (suc left) r ts =
    let operand = parse c rounds left (below r) in
    operand ts >>= λ a. binary_loop rounds r operand a.0 a.1

-- The end of the text or a `]` must follow.
abbrev pub ends : Tokens → Bool
ends done = true
ends (bad e) = false
ends (tok [] ts) = false
ends (tok (c ∷ t) ts) = c == 93

abbrev pub count_tokens : Tokens → ℕ
count_tokens done = 0
count_tokens (bad e) = 0
count_tokens (tok t ts) = suc (count_tokens ts)

-- `levels` is MAX_PARSE_LEVEL + 1, or more by the number of earlier refusals.
unfoldable pub parse_expression : Bool → Context → ℕ → Tokens → Result Node
unfolding parse
parse_expression disabled c levels ts =
    if disabled
    then err e_expr_disabled
    else (parse c (count_tokens ts + 1) levels or_rule ts >>= λ r.
        if ends r.1 then ok r.0 else err e_expecting_eoxpr)
