-- ===== src/Expr/Eval.antt =====
-- evaluate_expr_node of remind-v06.02.10/src/expr.c with the functions under it, and the functions
-- of funcs.c that evaluate their own arguments. The other built-in functions are a table.
pub mod Related
pub mod Bounded
pub mod Counts
pub mod Twins
pub mod Constancy
use remind_rb.Base.{
  ℕ, zero, suc, ◌+◌, ◌-◌, ◌%◌, Bool, true, false, not, ◌&&◌, ◌||◌, List, [], ◌∷◌, Option, none,
  some, get_elem?, ltb, leb, ◌==◌, if◌then◌else◌,
}
use remind_rb.Base.Int.{ℤ, pos, negsuc}
use remind_rb.Errors.{
  Error, Result, ok, err, e_bad_type, e_swerr, e_nosuch_var, e_undef_func, e_too_few_args,
  e_too_many_args, e_recursive, e_iif_odd, undefined_local,
}
use remind_rb.Expr.{
  Chars, Format, Value, val, str, Kind, int_type, How, eq, BinaryOp, UnaryOp, Node, constant,
  variable, local_var, sysvar, builtin_func, user_func, unary, binary, Kids, no_kids, kid,
}
use remind_rb.Expr.Comp.{
  State, Comp, Limits, ret, fail, of_result, ◌>>-◌, marked, catching, own_flag, gated,
}
use remind_rb.Expr.Operators.{truthy, of_bool, compare, short_circuits, apply, apply_unary}

-- The functions with the new calling convention.
pub data NewFunc : Type 0 where
  iif choose catch is_any is_const value_of : NewFunc

-- An old-style function has evaluated arguments. It may evaluate further nodes, as eval() does, by
-- the evaluation that it is given; the flag of its state is `info.nonconst`.
pub data Call : Type 0 where
  old_style : ((Node → Comp Value) → List Value → Comp Value) → Call
  new_style : NewFunc → Call

-- `clears` is set for the function whose name is `const`.
pub record Builtin : Type 0 where
  pub min_args : ℕ
  pub max_args : ℕ
  pub is_constant : Bool
  pub clears : Bool
  pub call : Call

pub record UserFunc : Type 0 where
  pub nargs : ℕ
  pub is_constant : Bool
  pub body : Node

-- Variables with is_constant, system variables with the test of CONST_INT_TYPE, and functions.
pub record Env : Type 0 where
  pub limits : Limits
  pub format : Format
  pub find_var : Chars → Option (Value × Bool)
  pub get_sysvar : Chars → Result Value × Bool
  pub builtin : Chars → Builtin
  pub find_user_func : Chars → Option UserFunc

abbrev pub no_max_args : ℕ
no_max_args = 127

abbrev pub max_recursion_level : ℕ
max_recursion_level = 1000

abbrev pub num_kids : Kids → ℕ
num_kids no_kids = 0
num_kids (kid a rest) = suc (num_kids rest)

-- The value of a global variable that may exist, and what is evaluated where it does not.
abbrev pub var_or : Comp Value → Option (Value × Bool) → Comp Value
var_or otherwise none = otherwise
var_or otherwise (some (v, fixed)) = marked (not fixed) (ret v)

unfoldable pub get_var : Env → Chars → Comp Value
get_var env x = var_or (fail e_nosuch_var) (env.find_var x)

unfoldable pub get_sysvar : Env → Chars → Comp Value
get_sysvar env x = let r = env.get_sysvar x in marked (not r.1) (of_result r.0)

abbrev pub local_or : Option Value → Result Value
local_or none = err undefined_local
local_or (some v) = ok v

-- The number of arguments against the bounds of a function, with a bound of 127 for no bound.
unfoldable pub check_args : ℕ → ℕ → ℕ → Comp Value → Comp Value
check_args n least most m =
    if ltb n least
    then fail e_too_few_args
    else if ltb most n && not (most == no_max_args)
    then fail e_too_many_args
    else m

-- The end of a call: `info.nonconst` is added to the flag of the expression, which const() clears.
abbrev pub after_call : Bool → Bool → Result Value × State → Result Value × State
after_call clears old (ok v, s) = (ok v, record s { nonconst = not clears && (old || s.nonconst) })
after_call clears old (err e, s) = (err e, record s { nonconst = old || s.nonconst })

-- The call of an old-style function once it has its arguments, with a flag of its own.
unfoldable pub call_old : Builtin → Comp Value → Comp Value
call_old b m s = after_call b.clears s.nonconst (m (record s { nonconst = false }))

-- The index of choose(), from 0, among the arguments behind the first, of which there is one.
unfoldable pub choice : ℕ → ℤ → ℕ
choice n (negsuc i) = 0
choice n (pos i) = if ltb i 1 then 0 else if ltb n i then n - 1 else i - 1

abbrev pub chosen : (ℕ → Comp Value) → ℕ → Value → Comp Value
chosen pick n (val int_type i) = pick (choice n i)
chosen pick n v = fail e_bad_type

abbrev pub named : (Chars → Comp Value) → Value → Comp Value
named find (str x) = find x
named find (val k i) = fail e_bad_type

abbrev pub same_value : Value → Value → Bool
same_value v w = elim (compare eq v w) [ ok (val int_type (pos (suc n))) ↦ true | _ ↦ false ]

unfoldable pub check_nargs : ℕ → ℕ → Comp Value → Comp Value
check_nargs n nargs m =
    if ltb n nargs then fail e_too_few_args else if ltb nargs n then fail e_too_many_args else m

-- The functions that evaluate their own arguments, one recursion level further down.
module _ (env : Env) (eval : Node → Comp Value) where
  unfoldable pub eval_iif : Kids → Comp Value
  eval_iif no_kids = fail e_swerr
  eval_iif (kid a no_kids) = eval a
  eval_iif (kid a (kid b rest)) =
      let more = eval_iif rest in eval a >>- λ v. if truthy v then eval b else more

  unfoldable pub eval_nth : Kids → ℕ → Comp Value
  eval_nth no_kids n = fail e_swerr
  eval_nth (kid a rest) zero = eval a
  eval_nth (kid a rest) (suc n) = eval_nth rest n

  unfoldable pub eval_any : Kids → Value → Comp Value
  eval_any no_kids v = ret (of_bool false)
  eval_any (kid a rest) v =
      let more = eval_any rest v in
      eval a >>- λ w. if same_value v w then ret (of_bool true) else more

  unfoldable pub eval_new : NewFunc → Kids → Comp Value
  unfolding eval_iif eval_nth eval_any
  eval_new iif kids = if num_kids kids % 2 == 0 then fail e_iif_odd else eval_iif kids
  eval_new choose (kid a rest) = eval a >>- chosen (eval_nth rest) (num_kids rest)
  eval_new catch (kid a (kid b rest)) = catching (eval a) (eval b)
  eval_new is_any (kid a rest) = eval a >>- eval_any rest
  eval_new is_const (kid a rest) = own_flag (eval a) >>- λ b. ret (of_bool (not b))
  eval_new value_of (kid a no_kids) = eval a >>- named (get_var env)
  eval_new value_of (kid a (kid b rest)) =
      eval a >>- named (λ x. var_or (marked true (eval b)) (env.find_var x))
  eval_new f kids = fail e_swerr

-- The evaluation at the next recursion level, or `none` at MAX_RECURSION_LEVEL.
abbrev pub Deeper : Type 0
Deeper = Option (List Value → Node → Comp Value)

-- The recursion level is checked before the arguments of a built-in function are evaluated.
unfoldable pub eval_builtin :
    Env → Deeper → List Value → Builtin → Call → Kids → Comp (List Value) → Comp Value
unfolding call_old eval_new
eval_builtin env none locals b call kids args = fail e_recursive
eval_builtin env (some deeper) locals b (old_style f) kids args =
    args >>- λ vs. call_old b (f (deeper []) vs)
eval_builtin env (some deeper) locals b (new_style f) kids args =
    eval_new env (deeper locals) f kids

-- The arguments of a user function come first, and then the check of the recursion level.
unfoldable pub eval_body : Deeper → UserFunc → List Value → Comp Value
eval_body none f vs = fail e_recursive
eval_body (some deeper) f vs = marked (not f.is_constant) (deeper vs f.body)

unfoldable pub eval_userfunc : Deeper → Option UserFunc → ℕ → Comp (List Value) → Comp Value
unfolding check_nargs eval_body
eval_userfunc deeper none n args = fail e_undef_func
eval_userfunc deeper (some f) n args = check_nargs n f.nargs (args >>- eval_body deeper f)

unfoldable mutual
  unfolding get_var get_sysvar check_args eval_builtin eval_userfunc

  pub eval_node : Env → Deeper → List Value → Node → Comp Value
  eval_node env deeper locals (constant v) = gated env.limits (ret v)
  eval_node env deeper locals (variable x) = gated env.limits (get_var env x)
  eval_node env deeper locals (local_var i) =
      gated env.limits (of_result (local_or (get_elem? locals i)))
  eval_node env deeper locals (sysvar x) = gated env.limits (get_sysvar env x)
  eval_node env deeper locals (builtin_func name kids) =
      let b = env.builtin name in
      let args = eval_kids env deeper locals kids in
      gated env.limits (
        marked (not b.is_constant) (
          check_args (num_kids kids) b.min_args b.max_args
            (eval_builtin env deeper locals b b.call kids args)))
  eval_node env deeper locals (user_func name kids) =
      let args = eval_kids env deeper locals kids in
      gated env.limits (eval_userfunc deeper (env.find_user_func name) (num_kids kids) args)
  eval_node env deeper locals (unary op a) =
      gated env.limits (eval_node env deeper locals a >>- λ v. of_result (apply_unary op v))
  eval_node env deeper locals (binary op a b) =
      let second = eval_node env deeper locals b in
      gated env.limits (
        eval_node env deeper locals a >>- λ v.
        if short_circuits op v
        then ret v
        else (second >>- λ w. of_result (apply env.format op v w)))

  pub eval_kids : Env → Deeper → List Value → Kids → Comp (List Value)
  eval_kids env deeper locals no_kids = ret []
  eval_kids env deeper locals (kid a rest) =
      let more = eval_kids env deeper locals rest in
      eval_node env deeper locals a >>- λ v. more >>- λ vs. ret (v ∷ vs)

-- `left` is how far FuncRecursionLevel is below MAX_RECURSION_LEVEL.
unfoldable pub eval_at : Env → ℕ → List Value → Node → Comp Value
unfolding eval_node
eval_at env zero = eval_node env none
eval_at env (suc left) = eval_node env (some (eval_at env left))

-- A whole expression, outside any function.
unfoldable pub evaluate : Env → Node → Comp Value
unfolding eval_at
evaluate env node = eval_at env max_recursion_level [] node
