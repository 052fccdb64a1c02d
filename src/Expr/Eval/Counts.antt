-- ===== src/Expr/Eval/Counts.antt =====
-- The counts of evaluated nodes of remind-v06.02.10/src/expr.c and the range of the values.
use remind_rb.Base.{◌≡◌, refl, Bool, true, false, not, List, ◌||◌, Option, none, some, arith}
use remind_rb.Errors.{Result, ok, err}
use remind_rb.Expr.{Chars, Format, Value, Node}
use remind_rb.Expr.Operators.Bounds.{
  in_range, Gives, apply-in_range, apply_unary-in_range, of_bool-in_range,
}
use remind_rb.Expr.Eval.Related.Fold.{evaluate-Rel}
use remind_rb.Expr.Comp.{with_flag, State, Comp, Limits, ret, of_result, own_flag}
use remind_rb.Expr.Eval.{
  Env, Builtin, UserFunc, Call, old_style, new_style, var_or, after_call, call_old, get_sysvar,
  evaluate,
}
use remind_rb.Expr.Eval.Related.{
  Anything, Closed, Fine, GoodOps, Related, AllGood, GoodResult, OldRelated,
}
use remind_rb.Expr.Eval.Bounded.{EndsWithin, Bounded, after, Bounded-Closed}

with_flag-EndsWithin :
    {A : Type 0} {P : A → Type 0} (lim : Limits) (s : State) (b : Bool) (r : Result A × State)
    → EndsWithin lim P s r
    → EndsWithin lim Anything s (with_flag b r)
with_flag-EndsWithin lim s b (ok a, t) h = record { good = tt; counts = h.counts }
with_flag-EndsWithin lim s b (err e, t) h = record { good = tt; counts = h.counts }

-- A value in range.
abbrev pub InRange : Value → Type 0
InRange v = in_range v ≡ true

-- Every variable and every system variable is in range, and so are the constants in user functions.
-- The built-in functions that are named by `Ok` are all that the user functions call. Each of them
-- takes values in range to one in range, and what it evaluates changes the counts as other
-- evaluations do.
pub record Sane (Ok : Chars → Type 0) (env : Env) : Type 0 where
  pub vars : (x : Chars) (v : Value) (c : Bool) → env.find_var x ≡ some (v, c) → InRange v
  pub sysvars : (x : Chars) → GoodResult InRange (env.get_sysvar x).0
  pub functions :
      (x : Chars) (f : (Node → Comp Value) → List Value → Comp Value)
      → Ok x
      → (env.builtin x).call ≡ old_style f
      → (vs : List Value) (eval : Node → Comp Value) → AllGood InRange vs
      → ((a : Node) → Fine Ok InRange a → (s : State) → EndsWithin env.limits InRange s (eval a s))
      → (s : State) → EndsWithin env.limits InRange s (f eval vs s)
  pub bodies : (x : Chars) (f : UserFunc) → env.find_user_func x ≡ some f → Fine Ok InRange f.body

GoodResult-of : (r : Result Value) → Gives in_range r → GoodResult InRange r
GoodResult-of (ok v) h = h v refl
GoodResult-of (err e) h = tt

InRange-GoodOps : (fmt : Format) → GoodOps InRange fmt
InRange-GoodOps fmt = record {
  bools = of_bool-in_range;
  unaries = λ op v p. GoodResult-of _ (apply_unary-in_range op v p);
  binaries = λ op v w p q. GoodResult-of _ (apply-in_range fmt op v w p q);
}

of_result-Bounded :
    (lim : Limits) (w : Bool) (r : Result Value)
    → GoodResult InRange r
    → Bounded lim Value w InRange (of_result r) (of_result r)
unfolding of_result
of_result-Bounded lim w (ok v) g s = record { good = g; counts = omega arith }
of_result-Bounded lim w (err e) g s = record { good = tt; counts = omega arith }

after_call-EndsWithin :
    (lim : Limits) (s : State) (clears old : Bool) (r : Result Value × State)
    → EndsWithin lim InRange s r
    → EndsWithin lim InRange s (after_call clears old r)
after_call-EndsWithin lim s clears old (ok v, t) h = record { good = h.good; counts = h.counts }
after_call-EndsWithin lim s clears old (err e, t) h = record { good = tt; counts = h.counts }

module _ (Ok : Chars → Type 0) (env : Env) (sane : Sane Ok env) where
  laws : Closed env.limits (Bounded env.limits)
  laws = Bounded-Closed env.limits

  var_or-Bounded :
      (w : Bool) (o : Option (Value × Bool)) (m n : Comp Value)
      → ((v : Value) (c : Bool) → o ≡ some (v, c) → InRange v)
      → Bounded env.limits Value w InRange m n
      → Bounded env.limits Value w InRange (var_or m o) (var_or n o)
  var_or-Bounded w none m n h k = k
  var_or-Bounded w (some (v, c)) m n h k =
      laws.marks {n = ret v} w (not c) (laws.rets (w || not c) v (h v c refl))

  calls-Bounded :
      (b : Builtin) (call : Call)
      → ((f : (Node → Comp Value) → List Value → Comp Value)
          → call ≡ old_style f
          → (vs : List Value) (eval : Node → Comp Value) → AllGood InRange vs
          → ((a : Node)
              → Fine Ok InRange a
              → (s : State) → EndsWithin env.limits InRange s (eval a s))
          → (s : State) → EndsWithin env.limits InRange s (f eval vs s))
      → OldRelated (Bounded env.limits) Ok InRange b b call call
  unfolding own_flag call_old
  calls-Bounded b (old_style f) h = λ w vs ev1 ev2 all t agree s.
      let start = record s { nonconst = false } in
      let run = h f refl vs ev1 all (λ a fine. agree false a fine) start in
      after env.limits s start _ (omega arith)
        (after_call-EndsWithin env.limits start b.clears s.nonconst (f ev1 vs start) run)
  calls-Bounded b (new_style f) h =
      let run =
        λ (m : Comp Value) (r : (s : State) → EndsWithin env.limits InRange s (m s)) (s : State).
          let t = record s { nonconst = false } in
          after env.limits s t _ (omega arith)
            (with_flag-EndsWithin env.limits t s.nonconst (m t) (r t)) in
      (refl, λ q w m n r s. run m r s)

  Sane-Related : Related (Bounded env.limits) Ok InRange env env
  unfolding get_sysvar
  Sane-Related = record {
    limits = refl;
    format = refl;
    vars = λ w x m n r. var_or-Bounded w (env.find_var x) m n (sane.vars x) r;
    sysvars = λ w x. laws.marks {n = of_result (env.get_sysvar x).0} w (not (env.get_sysvar x).1) (
        of_result-Bounded env.limits (w || not (env.get_sysvar x).1) (env.get_sysvar x).0
          (sane.sysvars x));
    min_args = λ x _. refl;
    max_args = λ x _. refl;
    constants = λ x _. refl;
    calls = λ x o. calls-Bounded (env.builtin x) (env.builtin x).call (λ f. sane.functions x f o);
    user_funcs = λ x. refl;
    bodies = sane.bodies;
  }

-- In a sane environment the value of an expression, whose constants are in range and whose built-in
-- functions are those of the environment's condition, is in range. Whatever comes out, value or
-- error, the two counts of evaluated nodes grow by the same number, the count of the line does not
-- pass a limit that is set and that it had not passed, and the largest count of a line is kept.
pub evaluate-EndsWithin :
    (Ok : Chars → Type 0) (env : Env) (a : Node) (s : State)
    → Sane Ok env
    → Fine Ok InRange a
    → EndsWithin env.limits InRange s (evaluate env a s)
evaluate-EndsWithin Ok env a s sane g =
    evaluate-Rel (Bounded env.limits) Ok InRange env env (Bounded-Closed env.limits)
      (InRange-GoodOps env.format) (Sane-Related Ok env sane) false a g s
