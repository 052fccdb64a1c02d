-- ===== src/Expr/Eval/Related/Fold.antt =====
-- The evaluation in remind-v06.02.10/src/expr.c respects the relations of Expr/Eval/Related.
use remind_rb.Base.{
  ℕ, zero, suc, ◌≡◌, refl, Bool, true, false, not, ◌||◌, List, [], ◌∷◌, Option, none, some,
  get_elem?, arith, ltb, sym, subst, ap, ◌&&◌, if◌then◌else◌, ◌%◌, ◌==◌,
}
use remind_rb.Errors.{Result, ok, err}
use remind_rb.Expr.{
  Value, val, str, int_type, Chars, BinaryOp, Node, constant, variable, local_var, sysvar,
  builtin_func, user_func, unary, binary, Kids, no_kids, kid,
}
use remind_rb.Expr.Comp.{Comp, ret, fail, of_result, marked, own_flag, gated}
use remind_rb.Expr.Operators.{apply, truthy, short_circuits}
use remind_rb.Expr.Eval.{
  Env, Builtin, UserFunc, Call, old_style, new_style, NewFunc, iif, choose, catch, is_any, is_const,
  value_of, get_var, chosen, named, local_or, same_value, num_kids, check_args, check_nargs, Deeper,
  eval_iif, eval_nth, eval_any, eval_new, eval_builtin, eval_userfunc, eval_body, eval_node,
  eval_kids, eval_at, evaluate, max_recursion_level, no_max_args,
}
use remind_rb.Expr.Eval.Related.{
  Relation, Anything, Agree, Closed, AllGood, Fine, AllFine, GoodResult, GoodOps, OldRelated,
  Related,
}

module _ (Rel : Relation) (Ok : Chars → Type 0) (Good : Value → Type 0) (env1 env2 : Env)
    (laws : Closed env1.limits Rel) (ops : GoodOps Good env1.format)
    (rel : Related Rel Ok Good env1 env2) where
  result-Rel :
      (w : Bool) (r : Result Value) → GoodResult Good r → Rel _ w Good (of_result r) (of_result r)
  unfolding of_result ret fail
  result-Rel w (ok v) g = laws.rets w v g
  result-Rel w (err e) g = laws.fails w e

  if-Rel :
      {A : Type 0} {P : A → Type 0} {m n h k : Comp A} (w test : Bool)
      → Rel _ w P m n
      → Rel _ w P h k
      → Rel _ w P (if test then m else h) (if test then n else k)
  if-Rel w true p q = p
  if-Rel w false p q = q

  get_var-Rel : (w : Bool) (x : Chars) → Rel _ w Good (get_var env1 x) (get_var env2 x)
  unfolding get_var
  get_var-Rel w x = rel.vars w x _ _ (laws.fails w _)

  module _ (ev1 ev2 : Node → Comp Value) (h : Agree Rel Ok Good ev1 ev2) where
    iif-Rel :
        (w : Bool) (kids : Kids)
        → AllFine Ok Good kids
        → Rel _ w Good (eval_iif env1 ev1 kids) (eval_iif env2 ev2 kids)
    unfolding eval_iif Fine
    iif-Rel w no_kids g = laws.fails w _
    iif-Rel w (kid a no_kids) g = h w a g.0
    iif-Rel w (kid a (kid b rest)) g =
        laws.binds w (h w a g.0) (λ v _. if-Rel w (truthy v) (h w b g.1.0) (iif-Rel w rest g.1.1))

    nth-Rel :
        (w : Bool) (kids : Kids) (n : ℕ)
        → AllFine Ok Good kids
        → Rel _ w Good (eval_nth env1 ev1 kids n) (eval_nth env2 ev2 kids n)
    unfolding eval_nth Fine
    nth-Rel w no_kids n g = laws.fails w _
    nth-Rel w (kid a rest) zero g = h w a g.0
    nth-Rel w (kid a rest) (suc n) g = nth-Rel w rest n g.1

    any-Rel :
        (w : Bool) (kids : Kids) (v : Value)
        → AllFine Ok Good kids
        → Rel _ w Good (eval_any env1 ev1 kids v) (eval_any env2 ev2 kids v)
    unfolding eval_any Fine
    any-Rel w no_kids v g = laws.rets w _ (ops.bools false)
    any-Rel w (kid a rest) v g =
        laws.binds w (h w a g.0)
          (λ u _. if-Rel w (same_value v u) (laws.rets w _ (ops.bools true)) (any-Rel w rest v g.1))

    chosen-Rel :
        (w : Bool) (rest : Kids) (n : ℕ) (v : Value)
        → AllFine Ok Good rest
        → Rel _ w Good (chosen (eval_nth env1 ev1 rest) n v) (chosen (eval_nth env2 ev2 rest) n v)
    chosen-Rel w rest n (val int_type i) g = nth-Rel w rest _ g
    chosen-Rel w rest n (val k i) g = laws.fails w _
    chosen-Rel w rest n (str t) g = laws.fails w _

    named-Rel :
        (w : Bool) (v : Value) (find1 find2 : Chars → Comp Value)
        → ((x : Chars) → Rel _ w Good (find1 x) (find2 x))
        → Rel _ w Good (named find1 v) (named find2 v)
    named-Rel w (str x) find1 find2 k = k x
    named-Rel w (val j i) find1 find2 k = laws.fails w _

    new-Rel :
        (w : Bool) (f : NewFunc) (kids : Kids)
        → (f ≡ is_const
            → (m n : Comp Value) → Rel _ false Good m n
            → Rel _ w Anything (own_flag m) (own_flag n))
        → AllFine Ok Good kids
        → Rel _ w Good (eval_new env1 ev1 f kids) (eval_new env2 ev2 f kids)
    unfolding eval_new Fine
    new-Rel w iif kids c g = if-Rel w (num_kids kids % 2 == 0) (laws.fails w _) (iif-Rel w kids g)
    new-Rel w choose (kid a rest) c g = laws.binds w (h w a g.0) (λ v _. chosen-Rel w rest _ v g.1)
    new-Rel w catch (kid a (kid b rest)) c g = laws.catches w (h w a g.0) (h w b g.1.0)
    new-Rel w is_any (kid a rest) c g = laws.binds w (h w a g.0) (λ v _. any-Rel w rest v g.1)
    new-Rel w is_const (kid a rest) c g =
        laws.binds w (c refl _ _ (h false a g.0)) (λ b _. laws.rets w _ (ops.bools (not b)))
    new-Rel w value_of (kid a no_kids) c g =
        laws.binds w (h w a g.0) (λ v _. named-Rel w v _ _ (get_var-Rel w))
    new-Rel w value_of (kid a (kid b rest)) c g = laws.binds w (h w a g.0) (λ v _.
        named-Rel w v _ _ (λ x. rel.vars w x _ _ (laws.marks w true (h (w || true) b g.1.0))))
    new-Rel w f kids c g = laws.fails w _

  abbrev DeeperAgree : Deeper → Deeper → Type 0
  DeeperAgree none none = Unit
  DeeperAgree (some d) (some e) =
      (vs : List Value) → AllGood Good vs → Agree Rel Ok Good (d vs) (e vs)
  DeeperAgree _ _ = ⊥

  body-Rel :
      (w : Bool) (d e : Deeper) (f : UserFunc) (vs : List Value)
      → DeeperAgree d e
      → Fine Ok Good f.body
      → AllGood Good vs
      → Rel _ w Good (eval_body d f vs) (eval_body e f vs)
  unfolding eval_body
  body-Rel w none none f vs h g k = laws.fails w _
  body-Rel w (some d) (some e) f vs h g k =
      laws.marks w (not f.is_constant) (h vs k (w || not f.is_constant) f.body g)
  body-Rel w none (some e) f vs h g k = absurd h
  body-Rel w (some d) none f vs h g k = absurd h

  builtin-Rel :
      (w : Bool) (d e : Deeper) (locals : List Value) (b c : Builtin) (p q : Call) (kids : Kids)
      (m n : Comp (List Value))
      → (b.is_constant ≡ false → w ≡ true)
      → OldRelated Rel Ok Good b c p q
      → DeeperAgree d e
      → AllGood Good locals
      → AllFine Ok Good kids
      → Rel _ w (AllGood Good) m n
      → Rel _ w Good (eval_builtin env1 d locals b p kids m) (eval_builtin env2 e locals c q kids n)
  unfolding eval_builtin
  builtin-Rel w none none locals b c p q kids m n t o h k g r = laws.fails w _
  builtin-Rel w none (some e) locals b c p q kids m n t o h k g r = absurd h
  builtin-Rel w (some d) none locals b c p q kids m n t o h k g r = absurd h
  builtin-Rel w (some d) (some e) locals b c (old_style p) (old_style q) kids m n t o h k g r =
      laws.binds w r (λ vs all. o w vs (d []) (e []) all t (h [] tt))
  builtin-Rel w (some d) (some e) locals b c (new_style p) (new_style q) kids m n t o h k g r =
      rw (sym o.0) (new-Rel (d locals) (e locals) (h locals k) w p kids (λ z. o.1 z w) g)
  builtin-Rel w (some d) (some e) locals b c (old_style p) (new_style q) kids m n t o h k g r =
      absurd o
  builtin-Rel w (some d) (some e) locals b c (new_style p) (old_style q) kids m n t o h k g r =
      absurd o

  userfunc-Rel :
      (w : Bool) (d e : Deeper) (f : Option UserFunc) (k : ℕ) (m n : Comp (List Value))
      → ((u : UserFunc) → f ≡ some u → Fine Ok Good u.body)
      → DeeperAgree d e
      → Rel _ w (AllGood Good) m n
      → Rel _ w Good (eval_userfunc d f k m) (eval_userfunc e f k n)
  unfolding eval_userfunc check_nargs
  userfunc-Rel w d e none k m n g h r = laws.fails w _
  userfunc-Rel w d e (some u) k m n g h r = if-Rel w (ltb k u.nargs) (laws.fails w _) (
      if-Rel w (ltb u.nargs k) (laws.fails w _)
        (laws.binds w r (λ vs all. body-Rel w d e u vs h (g u refl) all)))

  local-Rel :
      (w : Bool) (vs : List Value) (i : ℕ)
      → AllGood Good vs
      → Rel _ w Good (of_result (local_or (get_elem? vs i))) (of_result (local_or (get_elem? vs i)))
  local-Rel w [] i g = result-Rel w _ tt
  local-Rel w (v ∷ vs) zero g = result-Rel w (ok v) g.0
  local-Rel w (v ∷ vs) (suc i) g = local-Rel w vs i g.1

  gate-Rel :
      {m n : Comp Value} (w : Bool)
      → Rel _ w Good m n
      → Rel _ w Good (gated env1.limits m) (gated env2.limits n)
  gate-Rel {m} {n} w r =
      subst (λ l. Rel _ w Good (gated env1.limits m) (gated l n)) (sym rel.limits) (laws.gates w r)

  mark-Rel :
      {m n : Comp Value} (w t u : Bool)
      → u ≡ t
      → Rel _ (w || t) Good m n
      → Rel _ w Good (marked t m) (marked u n)
  mark-Rel w t u q r = rw q (laws.marks w t r)

  args-Rel :
      {m n : Comp Value} (w : Bool) (k i j p q : ℕ)
      → j ≡ i
      → q ≡ p
      → Rel _ w Good m n
      → Rel _ w Good (check_args k i p m) (check_args k j q n)
  unfolding check_args
  args-Rel w k i j p q g h r =
      rw (g, h)
        (if-Rel w (ltb k i) (laws.fails w _)
          (if-Rel w (ltb p k && not (p == no_max_args)) (laws.fails w _) r))

  apply-Rel :
      (w : Bool) (op : BinaryOp) (v u : Value)
      → Good v
      → Good u
      → Rel _ w Good (of_result (apply env1.format op v u)) (of_result (apply env2.format op v u))
  apply-Rel w op v u g h =
      subst (λ f. Rel _ w Good (of_result (apply env1.format op v u)) (of_result (apply f op v u)))
        (sym rel.format) (result-Rel w _ (ops.binaries op v u g h))

  known_constant : (w b : Bool) → b ≡ false → (w || not b) ≡ true
  known_constant w b h = ground arith

  mutual
    unfolding eval_node Fine

    node-Rel :
        (w : Bool) (d e : Deeper) (locals : List Value) (a : Node)
        → DeeperAgree d e
        → AllGood Good locals
        → Fine Ok Good a
        → Rel _ w Good (eval_node env1 d locals a) (eval_node env2 e locals a)
    node-Rel w d e locals (constant v) h k g = gate-Rel w (laws.rets w v g)
    node-Rel w d e locals (variable x) h k g = gate-Rel w (get_var-Rel w x)
    node-Rel w d e locals (local_var i) h k g = gate-Rel w (local-Rel w locals i k)
    node-Rel w d e locals (sysvar x) h k g = gate-Rel w (rel.sysvars w x)
    node-Rel w d e locals (builtin_func x kids) h k g =
        let b = env1.builtin x in
        let now = w || not b.is_constant in
        gate-Rel w (
          mark-Rel w _ _ (ap not (rel.constants x g.0)) (
            args-Rel now _ _ _ _ _ (rel.min_args x g.0) (rel.max_args x g.0) (
              builtin-Rel now d e locals _ _ _ _ kids _ _ (known_constant w b.is_constant)
                (rel.calls x g.0) h k g.1 (kids-Rel now d e locals kids h k g.1))))
    node-Rel w d e locals (user_func x kids) h k g = gate-Rel w (
        rw (rel.user_funcs x) (
          userfunc-Rel w d e (env1.find_user_func x) _ _ _ (rel.bodies x) h
            (kids-Rel w d e locals kids h k g)))
    node-Rel w d e locals (unary op a) h k g =
        gate-Rel w (
          laws.binds w (node-Rel w d e locals a h k g) (λ v p. result-Rel w _ (ops.unaries op v p)))
    node-Rel w d e locals (binary op a b) h k g = gate-Rel w (
        laws.binds w (node-Rel w d e locals a h k g.0) (λ v p.
          if-Rel w (short_circuits op v) (laws.rets w v p)
            (laws.binds w (node-Rel w d e locals b h k g.1) (λ u q. apply-Rel w op v u p q))))

    kids-Rel :
        (w : Bool) (d e : Deeper) (locals : List Value) (kids : Kids)
        → DeeperAgree d e
        → AllGood Good locals
        → AllFine Ok Good kids
        → Rel _ w (AllGood Good) (eval_kids env1 d locals kids) (eval_kids env2 e locals kids)
    kids-Rel w d e locals no_kids h k g = laws.rets w _ tt
    kids-Rel w d e locals (kid a rest) h k g =
        laws.binds w (node-Rel w d e locals a h k g.0)
          (λ v p. laws.binds w (kids-Rel w d e locals rest h k g.1) (λ vs q. laws.rets w _ (p, q)))

  at-Rel :
      (left : ℕ) (w : Bool) (locals : List Value) (a : Node)
      → AllGood Good locals
      → Fine Ok Good a
      → Rel _ w Good (eval_at env1 left locals a) (eval_at env2 left locals a)
  unfolding eval_at
  at-Rel zero w locals a k g = node-Rel w none none locals a tt k g
  at-Rel (suc left) w locals a k g =
      node-Rel w (some (eval_at env1 left)) (some (eval_at env2 left)) locals a
        (λ vs all u b f. at-Rel left u vs b all f) k g

  pub evaluate-Rel :
      (w : Bool) (a : Node) → Fine Ok Good a → Rel _ w Good (evaluate env1 a) (evaluate env2 a)
  unfolding evaluate
  evaluate-Rel w a g = at-Rel max_recursion_level w [] a tt g
