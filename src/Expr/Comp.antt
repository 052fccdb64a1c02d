-- ===== src/Expr/Comp.antt =====
-- What the evaluation of remind-v06.02.10/src/expr.c does besides giving a value: the counts of
-- evaluated nodes, the time limit and the flag `nonconst`, as a computation on a state.
use remind_rb.Base.{
  ℕ, zero, suc, ◌+◌, Bool, true, false, ◌&&◌, Option, none, some, ltb, leb, if◌then◌else◌,
}
use remind_rb.Errors.{
  Error, Result, ok, err, is_code, e_expr_disabled, e_time_exceeded, e_expr_nodes_exceeded,
}

-- ExpressionNodesEvaluated, ExpressionNodesEvaluatedThisLine, MaxExprNodesPerLine and *nonconst.
-- ExpressionTimeLimitExceeded is set by a signal: `alarm` is the number of nodes that are still
-- entered before it comes, if it comes.
pub record State : Type 0 where
  pub evaluated : ℕ
  pub this_line : ℕ
  pub most : ℕ
  pub nonconst : Bool
  pub alarm : Option ℕ

abbrev pub Comp : Type 0 → Type 0
Comp A = State → Result A × State

-- ExpressionEvaluationDisabled, and ExpressionNodeLimitPerLine, where 0 is no limit.
pub record Limits : Type 0 where
  pub disabled : Bool
  pub node_limit : ℕ

unfoldable pub ret : {A : Type 0} → A → Comp A
ret a s = (ok a, s)

unfoldable pub fail : {A : Type 0} → Error → Comp A
fail e s = (err e, s)

unfoldable pub of_result : {A : Type 0} → Result A → Comp A
of_result r s = (r, s)

abbrev pub then_run : {A B : Type 0} → (A → Comp B) → Result A × State → Result B × State
then_run f (ok a, s) = f a s
then_run f (err e, s) = (err e, s)

infixl 5 ◌>>-◌
unfoldable pub ◌>>-◌ : {A B : Type 0} → Comp A → (A → Comp B) → Comp B
(m >>- f) s = then_run f (m s)

-- `*nonconst = 1;` where the test holds.
abbrev pub flagged : Bool → State → State
flagged false s = s
flagged true s = record s { nonconst = true }

unfoldable pub marked : {A : Type 0} → Bool → Comp A → Comp A
marked test m s = m (flagged test s)

-- The second computation runs if the first ends with a code, as in FCatch.
abbrev pub or_run : {A : Type 0} → Comp A → Result A × State → Result A × State
or_run h (ok a, s) = (ok a, s)
or_run h (err e, s) = if is_code e then h s else (err e, s)

unfoldable pub catching : {A : Type 0} → Comp A → Comp A → Comp A
catching m h s = or_run h (m s)

-- A computation with a flag of its own, which it returns; the flag of the caller stays.
abbrev pub with_flag : {A : Type 0} → Bool → Result A × State → Result Bool × State
with_flag old (ok a, s) = (ok s.nonconst, record s { nonconst = old })
with_flag old (err e, s) = (err e, record s { nonconst = old })

unfoldable pub own_flag : {A : Type 0} → Comp A → Comp Bool
own_flag m s = with_flag s.nonconst (m (record s { nonconst = false }))

-- The checks before a node is evaluated, in the source's order, and its count.
unfoldable pub count_node : {A : Type 0} → Limits → Comp A → Comp A
count_node lim m s =
    let n = s.this_line + 1 in
    if ltb 0 lim.node_limit && leb lim.node_limit s.this_line
    then (err e_expr_nodes_exceeded, s)
    else m (record s {
      evaluated = s.evaluated + 1;
      this_line = n;
      most = if ltb s.most n then n else s.most;
    })

-- ExpressionTimeLimitExceeded is cleared when it is seen.
abbrev pub timed : {A : Type 0} → Limits → Comp A → Option ℕ → Comp A
timed lim m none s = count_node lim m s
timed lim m (some zero) s = (err e_time_exceeded, record s { alarm = none })
timed lim m (some (suc left)) s = count_node lim m (record s { alarm = some left })

unfoldable pub gated : {A : Type 0} → Limits → Comp A → Comp A
unfolding count_node
gated lim m s = if lim.disabled then (err e_expr_disabled, s) else timed lim m s.alarm s
