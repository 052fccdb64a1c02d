-- ===== src/Expr/Eval/Related.antt =====
-- What holds of the evaluation in remind-v06.02.10/src/expr.c because it is composed of the
-- operations of Expr/Comp: a relation between computations that these operations keep relates the
-- evaluations of a node under two related environments.
pub mod Fold
use remind_rb.Base.{
  ℕ, zero, suc, ◌≡◌, refl, Bool, true, false, not, ◌||◌, List, [], ◌∷◌, Option, none, some,
  get_elem?, ltb, sym, subst, ap, ◌&&◌, if◌then◌else◌, ◌%◌, ◌==◌,
}
use remind_rb.Errors.{Error, Result, ok, err}
use remind_rb.Expr.{
  Format, Value, val, str, Kind, int_type, Chars, UnaryOp, BinaryOp, Node, constant, variable,
  local_var, sysvar, builtin_func, user_func, unary, binary, Kids, no_kids, kid,
}
use remind_rb.Expr.Comp.{
  State, Comp, Limits, ret, fail, of_result, ◌>>-◌, marked, catching, own_flag, gated,
}
use remind_rb.Expr.Operators.{apply, apply_unary, of_bool, truthy, short_circuits}
use remind_rb.Expr.Eval.{
  Env, Builtin, UserFunc, Call, old_style, new_style, NewFunc, iif, choose, catch, is_any, is_const,
  value_of, var_or, call_old, get_var, get_sysvar, chosen, named, local_or, same_value, num_kids,
  check_args, check_nargs, Deeper, eval_iif, eval_nth, eval_any, eval_new, eval_builtin,
  eval_userfunc, eval_body, eval_node, eval_kids, eval_at, evaluate, max_recursion_level,
  no_max_args,
}

-- A relation for a flag that says that `nonconst` is already 1 when the computations start, and a
-- predicate on their results.
abbrev pub Relation : Type 1
Relation = (A : Type 0) → Bool → (A → Type 0) → Comp A → Comp A → Type 0

abbrev pub Anything : {A : Type 0} → A → Type 0
Anything a = Unit

pub record Closed (lim : Limits) (Rel : Relation) : Type 1 where
  pub rets : {A : Type 0} {P : A → Type 0} (w : Bool) (a : A) → P a → Rel _ w P (ret a) (ret a)
  pub fails :
      {A : Type 0} {P : A → Type 0} (w : Bool) (e : Error) → Rel _ w P (fail {A = A} e) (fail e)
  pub binds :
      {A B : Type 0} {P : A → Type 0} {Q : B → Type 0} {m n : Comp A} {f g : A → Comp B} (w : Bool)
      → Rel _ w P m n
      → ((a : A) → P a → Rel _ w Q (f a) (g a))
      → Rel _ w Q (m >>- f) (n >>- g)
  pub marks :
      {A : Type 0} {P : A → Type 0} {m n : Comp A} (w test : Bool)
      → Rel _ (w || test) P m n
      → Rel _ w P (marked test m) (marked test n)
  pub catches :
      {A : Type 0} {P : A → Type 0} {m n h k : Comp A} (w : Bool)
      → Rel _ w P m n
      → Rel _ w P h k
      → Rel _ w P (catching m h) (catching n k)
  pub gates :
      {A : Type 0} {P : A → Type 0} {m n : Comp A} (w : Bool)
      → Rel _ w P m n
      → Rel _ w P (gated lim m) (gated lim n)

abbrev pub AllGood : (Value → Type 0) → List Value → Type 0
AllGood Good [] = Unit
AllGood Good (v ∷ vs) = Good v × AllGood Good vs

-- The constants of a node are good, and its built-in functions are among those named by `Ok`.
unfoldable mutual
  pub Fine : (Chars → Type 0) → (Value → Type 0) → Node → Type 0
  Fine Ok Good (constant v) = Good v
  Fine Ok Good (variable x) = Unit
  Fine Ok Good (local_var i) = Unit
  Fine Ok Good (sysvar x) = Unit
  Fine Ok Good (builtin_func name kids) = Ok name × AllFine Ok Good kids
  Fine Ok Good (user_func name kids) = AllFine Ok Good kids
  Fine Ok Good (unary op a) = Fine Ok Good a
  Fine Ok Good (binary op a b) = Fine Ok Good a × Fine Ok Good b

  pub AllFine : (Chars → Type 0) → (Value → Type 0) → Kids → Type 0
  AllFine Ok Good no_kids = Unit
  AllFine Ok Good (kid a rest) = Fine Ok Good a × AllFine Ok Good rest

-- Two ways to evaluate nodes are related at every fine node.
abbrev pub Agree :
    Relation
    → (Chars → Type 0)
    → (Value → Type 0)
    → (Node → Comp Value)
    → (Node → Comp Value)
    → Type 0
Agree Rel Ok Good ev1 ev2 = (w : Bool) (a : Node) → Fine Ok Good a → Rel _ w Good (ev1 a) (ev2 a)

-- A result is good if it is a value.
abbrev pub GoodResult : (Value → Type 0) → Result Value → Type 0
GoodResult Good (ok v) = Good v
GoodResult Good (err e) = Unit

pub record GoodOps (Good : Value → Type 0) (fmt : Format) : Type 0 where
  pub bools : (b : Bool) → Good (of_bool b)
  pub unaries : (op : UnaryOp) (v : Value) → Good v → GoodResult Good (apply_unary op v)
  pub binaries :
      (op : BinaryOp) (v w : Value) → Good v → Good w → GoodResult Good (apply fmt op v w)

-- Two old-style functions of one table entry; `b` and `c` are their entries.
abbrev pub OldRelated :
    Relation → (Chars → Type 0) → (Value → Type 0) → Builtin → Builtin → Call → Call → Type 0
OldRelated Rel Ok Good b c (old_style f) (old_style g) =
    (w : Bool) (vs : List Value) (ev1 ev2 : Node → Comp Value)
    → AllGood Good vs
    → (b.is_constant ≡ false → w ≡ true)
    → Agree Rel Ok Good ev1 ev2
    → Rel _ w Good (call_old b (f ev1 vs)) (call_old c (g ev2 vs))
OldRelated Rel Ok Good b c (new_style f) (new_style g) =
    (f ≡ g)
    × (f ≡ is_const
        → (w : Bool) (m n : Comp Value) → Rel _ false Good m n
        → Rel _ w Anything (own_flag m) (own_flag n))
OldRelated Rel Ok Good b c _ _ = ⊥

pub record Related (Rel : Relation) (Ok : Chars → Type 0) (Good : Value → Type 0) (env1 env2 : Env)
    : Type 0 where
  pub limits : env2.limits ≡ env1.limits
  pub format : env2.format ≡ env1.format
  pub vars :
      (w : Bool) (x : List ℕ) (m n : Comp Value)
      → Rel _ w Good m n
      → Rel _ w Good (var_or m (env1.find_var x)) (var_or n (env2.find_var x))
  pub sysvars : (w : Bool) (x : List ℕ) → Rel _ w Good (get_sysvar env1 x) (get_sysvar env2 x)
  pub min_args : (x : List ℕ) → Ok x → (env2.builtin x).min_args ≡ (env1.builtin x).min_args
  pub max_args : (x : List ℕ) → Ok x → (env2.builtin x).max_args ≡ (env1.builtin x).max_args
  pub constants : (x : List ℕ) → Ok x → (env2.builtin x).is_constant ≡ (env1.builtin x).is_constant
  pub calls :
      (x : List ℕ)
      → Ok x
      → OldRelated Rel Ok Good
          (env1.builtin x)
          (env2.builtin x)
          (env1.builtin x).call
          (env2.builtin x).call
  pub user_funcs : (x : List ℕ) → env2.find_user_func x ≡ env1.find_user_func x
  pub bodies : (x : List ℕ) (f : UserFunc) → env1.find_user_func x ≡ some f → Fine Ok Good f.body
