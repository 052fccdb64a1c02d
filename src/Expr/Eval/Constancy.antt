-- ===== src/Expr/Eval/Constancy.antt =====
-- The flag `nonconst` of remind-v06.02.10/src/expr.c: what an expression without it depends on.
use remind_rb.Base.{◌≡◌, ◌≢◌, Bool, true, false, List, Option, none, some}
use remind_rb.Expr.{Chars, Value, Node}
use remind_rb.Expr.Comp.{Comp}
use remind_rb.Expr.Eval.{Env, UserFunc, is_const, Call, old_style, new_style, get_sysvar}
use remind_rb.Expr.Eval.Related.{Relation, Anything, Agree, Fine, Related}
use remind_rb.Expr.Eval.Twins.{Twins}

-- Both variables exist or none does; constant ones have one value.
abbrev pub SameVar : Option (Value × Bool) → Option (Value × Bool) → Type 0
SameVar none none = Unit
SameVar (some (v, c)) (some (u, d)) = (c ≡ d) × (c ≡ true → v ≡ u)
SameVar _ _ = ⊥

abbrev pub TwinsRel : Relation
TwinsRel A w P m n = Twins w P m n

-- A function of a constant entry does the same in both tables from every state, or ends both times
-- with its own flag at 1, wherever the evaluations that it makes do so. It is not isconst().
abbrev pub SameCall : (Chars → Type 0) → Bool → Call → Call → Type 0
SameCall Ok is_constant (old_style f) (old_style g) =
    is_constant ≡ true
    → (vs : List Value) (ev1 ev2 : Node → Comp Value) → Agree TwinsRel Ok Anything ev1 ev2
    → Twins {A = Value} false Anything (f ev1 vs) (g ev2 vs)
SameCall Ok is_constant (new_style f) (new_style g) = (f ≡ g) × (f ≢ is_const)
SameCall Ok is_constant _ _ = ⊥

-- The conditions on built-in functions are for those named by `Ok`, which are all that the user
-- functions call. The function const() is not among them.
pub record SameConstants (Ok : Chars → Type 0) (env1 env2 : Env) : Type 0 where
  pub limits : env2.limits ≡ env1.limits
  pub format : env2.format ≡ env1.format
  pub vars : (x : Chars) → SameVar (env1.find_var x) (env2.find_var x)
  pub sysvars :
      (x : Chars)
      → ((env1.get_sysvar x).1 ≡ (env2.get_sysvar x).1)
        × ((env1.get_sysvar x).1 ≡ true → (env1.get_sysvar x).0 ≡ (env2.get_sysvar x).0)
  pub min_args : (x : Chars) → Ok x → (env2.builtin x).min_args ≡ (env1.builtin x).min_args
  pub max_args : (x : Chars) → Ok x → (env2.builtin x).max_args ≡ (env1.builtin x).max_args
  pub constants : (x : Chars) → Ok x → (env2.builtin x).is_constant ≡ (env1.builtin x).is_constant
  pub no_clears :
      (x : Chars) → Ok x → ((env1.builtin x).clears ≡ false) × ((env2.builtin x).clears ≡ false)
  pub calls :
      (x : Chars)
      → Ok x
      → SameCall Ok (env1.builtin x).is_constant (env1.builtin x).call (env2.builtin x).call
  pub user_funcs : (x : Chars) → env2.find_user_func x ≡ env1.find_user_func x
  pub bodies : (x : Chars) (f : UserFunc) → env1.find_user_func x ≡ some f → Fine Ok Anything f.body
