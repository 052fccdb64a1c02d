-- ===== src/Expr/Parse/Sound.antt =====
-- What the parser of remind-v06.02.10/src/expr.c accepts is derived by the grammar.
use remind_rb.Base.{
  ℕ, zero, suc, ◌+◌, ◌≡◌, refl, sym, ap, ◌∙◌, inl, inr, ◌⊎◌, Bool, true, false, List, [], ◌∷◌,
  Option, none, some, if◌then◌else◌, subst,
}
use remind_rb.Errors.{Error, Result, ok, ◌>>=◌}
use remind_rb.Expr.{Chars, Node}
use remind_rb.Expr.Token.{Tokens, done, bad, tok}
use remind_rb.Expr.Parse.{
  Context, Rule, or_rule, and_rule, eq_rule, cmp_rule, sum_rule, term_rule, factor_rule, atom_rule,
  call_rule, below, Sign, sign, signed, is_char, cases, Parser, peek, next, binary_loop,
  parse_function_call, closed, atom_of, parse, parse_expression, ends, count_tokens,
}
use remind_rb.Expr.Parse.Grammar.{Derives, operand, unsigned, with_sign, is_binary, first, ◌++>◌}
use remind_rb.Expr.Parse.Steps.{bind_ok, ok_injective, if_ok}
use remind_rb.Expr.Parse.Reads.{Reads, Sound, loop-Sound}
use remind_rb.Expr.Parse.Atoms.{closed-Sound, call-Sound, atom_of-Sound}

first_unsigned :
    (us : List Chars) (t : Chars) (ts rest : Tokens)
    → peek ts ≡ ok t
    → sign t ≡ none
    → ts ≡ us ++> rest
    → sign (first us) ≡ none
first_unsigned [] t ts rest p e q = refl
first_unsigned (u ∷ us) t ts rest p e q =
    let same : t ≡ u = ok_injective (sym p ∙ ap peek q) in subst (λ z. sign z ≡ none) same e

-- A rule with a loop, from the rule for its operands.
binary-Sound :
    (c : Context) (rounds : ℕ) (r : Rule) (p : Parser)
    → is_binary r ≡ true
    → Sound c (below r) p
    → (ts : Tokens) (a : Node × Tokens) → (p ts >>= λ b. binary_loop rounds r p b.0 b.1) ≡ ok a
    → Reads c r ts a
binary-Sound c rounds r p e q ts a h =
    let run = bind_ok (p ts) _ a h in
    let b = run.0 in
    let one = q ts b run.1.0 in
    subst (λ z. Reads c r z a) (sym one.split)
      (loop-Sound c rounds r p q b.1 b.0 one.read a (operand r e one.derived) run.1.1)

factor-Sound :
    (c : Context) (ts : Tokens) (t : Chars) (atom factor : Result (Node × Tokens))
    (a : Node × Tokens) (o : Option Sign)
    → peek ts ≡ ok t
    → sign t ≡ o
    → ((b : Node × Tokens) → atom ≡ ok b → Reads c atom_rule ts b)
    → ((b : Node × Tokens) → factor ≡ ok b → Reads c factor_rule (next ts) b)
    → cases o atom (λ s. factor >>= λ b. ok (signed s b.0, b.1)) ≡ ok a
    → Reads c factor_rule ts a
factor-Sound c ts t atom factor a none p e q k h =
    let got = q a h in
    record {
      read = got.read;
      split = got.split;
      derived = unsigned (first_unsigned got.read t ts a.1 p e got.split) got.derived;
    }
factor-Sound c done t atom factor a (some s) p e q k h =
    absurd (let z : sign [] ≡ some s = ap sign (ok_injective p) ∙ e in cc)
factor-Sound c (bad d) t atom factor a (some s) p e q k h = absurd cc
factor-Sound c (tok u us) t atom factor a (some s) p e q k h =
    let run = bind_ok factor _ a h in
    let got = k run.0 run.1.0 in
    subst (Reads c factor_rule (tok u us)) (ok_injective run.1.1) (record {
      read = u ∷ got.read;
      split = ap (tok u) got.split;
      derived = with_sign u s (ap sign (ok_injective p) ∙ e) got.derived;
    })

atom-Sound :
    (c : Context) (ts : Tokens) (inner : Result (Node × Tokens)) (p : Parser) (a : Node × Tokens)
    → ((b : Node × Tokens) → inner ≡ ok b → Reads c or_rule (next ts) b)
    → ((t : Chars) (us : Tokens) (b : Node × Tokens)
        → p (tok t us) ≡ ok b
        → Reads c call_rule (tok t us) b)
    → (peek ts >>= λ t. if is_char 40 t then inner >>= closed else atom_of c p ts t) ≡ ok a
    → Reads c atom_rule ts a
unfolding atom_of
atom-Sound c done inner p a q k h = absurd cc
atom-Sound c (bad e) inner p a q k h = absurd cc
atom-Sound c (tok t ts) inner p a q k h = open_or_not (is_char 40 t) refl h
  where
    open_or_not :
        (x : Bool)
        → is_char 40 t ≡ x
        → (if x then inner >>= closed else atom_of c p (tok t ts) t) ≡ ok a
        → Reads c atom_rule (tok t ts) a
    open_or_not true e g =
        let run = bind_ok inner closed a g in
        closed-Sound c t ts run.0 a e (q run.0 run.1.0) run.1.1
    open_or_not false e g = atom_of-Sound c p ts t a e (k t ts) g

factor-Reads :
    (c : Context) (ts : Tokens) (atom factor : Result (Node × Tokens)) (a : Node × Tokens)
    → ((b : Node × Tokens) → atom ≡ ok b → Reads c atom_rule ts b)
    → ((b : Node × Tokens) → factor ≡ ok b → Reads c factor_rule (next ts) b)
    → (peek ts >>= λ t. cases (sign t) atom (λ s. factor >>= λ b. ok (signed s b.0, b.1))) ≡ ok a
    → Reads c factor_rule ts a
factor-Reads c ts atom factor a q k h =
    let run = bind_ok (peek ts) _ a h in
    factor-Sound c ts run.0 atom factor a (sign run.0) run.1.0 refl q k run.1.1

call_done :
    (c : Context) (rounds : ℕ) (p : Parser) (ts : Tokens) (a : Node × Tokens)
    → (ts ≡ done) ⊎ ((e : Error) × (ts ≡ bad e))
    → parse_function_call rounds c p ts ≡ ok a
    → ⊥
unfolding parse_function_call
call_done c rounds p done a s h = cc
call_done c rounds p (bad e) a s h = cc
call_done c rounds p (tok t ts) a (inl e) h = absurd cc
call_done c rounds p (tok t ts) a (inr e) h = let z = e.1 in absurd cc

-- What a rule of the parser accepts is a list of tokens from which the grammar derives the node,
-- in front of the tokens that are left. Any number of levels and rounds will do.
pub parse-Sound :
    (c : Context) (rounds left : ℕ) (r : Rule) (ts : Tokens) (a : Node × Tokens)
    → parse c rounds left r ts ≡ ok a
    → Reads c r ts a
unfolding parse
parse-Sound c rounds zero r ts a h = absurd cc
parse-Sound c rounds (suc left) factor_rule ts a h =
    factor-Reads c ts _ _ a (parse-Sound c rounds left atom_rule ts)
      (parse-Sound c rounds left factor_rule (next ts)) h
parse-Sound c rounds (suc left) atom_rule ts a h =
    atom-Sound c ts _ (parse c rounds left call_rule) a
      (parse-Sound c rounds left or_rule (next ts))
      (λ t us b g. parse-Sound c rounds left call_rule (tok t us) b g) h
parse-Sound c rounds (suc left) call_rule done a h =
    absurd (call_done c rounds (parse c rounds left or_rule) done a (inl refl) h)
parse-Sound c rounds (suc left) call_rule (bad e) a h =
    absurd (call_done c rounds (parse c rounds left or_rule) (bad e) a (inr (e, refl)) h)
parse-Sound c rounds (suc left) call_rule (tok t ts) a h =
    call-Sound c t rounds (parse c rounds left or_rule) ts a (parse-Sound c rounds left or_rule) h
parse-Sound c rounds (suc left) or_rule ts a h =
    binary-Sound c rounds or_rule _ refl (parse-Sound c rounds left and_rule) ts a h
parse-Sound c rounds (suc left) and_rule ts a h =
    binary-Sound c rounds and_rule _ refl (parse-Sound c rounds left eq_rule) ts a h
parse-Sound c rounds (suc left) eq_rule ts a h =
    binary-Sound c rounds eq_rule _ refl (parse-Sound c rounds left cmp_rule) ts a h
parse-Sound c rounds (suc left) cmp_rule ts a h =
    binary-Sound c rounds cmp_rule _ refl (parse-Sound c rounds left sum_rule) ts a h
parse-Sound c rounds (suc left) sum_rule ts a h =
    binary-Sound c rounds sum_rule _ refl (parse-Sound c rounds left term_rule) ts a h
parse-Sound c rounds (suc left) term_rule ts a h =
    binary-Sound c rounds term_rule _ refl (parse-Sound c rounds left factor_rule) ts a h

-- An expression that is parsed is derived by the grammar from the tokens in front of the end of the
-- text or of a `]`.
pub parse_expression-Derives :
    (disabled : Bool) (c : Context) (levels : ℕ) (ts : Tokens) (a : Node)
    → parse_expression disabled c levels ts ≡ ok a
    → (us : List Chars) × ((rest : Tokens) × ((ts ≡ us ++> rest)
          × ((ends rest ≡ true) × Derives c or_rule a us)))
unfolding parse_expression
parse_expression-Derives true c levels ts a h = absurd cc
parse_expression-Derives false c levels ts a h =
    let run = bind_ok (parse c (count_tokens ts + 1) levels or_rule ts) _ a h in
    let got = parse-Sound c (count_tokens ts + 1) levels or_rule ts run.0 run.1.0 in
    let end = if_ok (ends run.0.1) _ _ a run.1.1 in
    (
      got.read,
      (
        run.0.1,
        (
          got.split,
          (end.0, subst (λ z. Derives c or_rule z got.read) (ok_injective end.1) got.derived),
        ),
      ),
    )
