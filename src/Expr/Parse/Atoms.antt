-- ===== src/Expr/Parse/Atoms.antt =====
-- Parentheses, names and calls that the parser of remind-v06.02.10/src/expr.c accepts are derived
-- by the grammar.
use remind_rb.Base.{
  ℕ, ◌≡◌, refl, sym, ap, ◌∙◌, Bool, true, false, List, [], ◌∷◌, ◌++◌, if◌then◌else◌, subst,
}
use remind_rb.Errors.{Result, ok, err, ◌>>=◌, e_too_few_args}
use remind_rb.Expr.{Chars, Node, Kids, no_kids}
use remind_rb.Expr.Eval.{num_kids}
use remind_rb.Expr.Token.{Tokens, done, bad, tok}
use remind_rb.Expr.Number.{lower}
use remind_rb.Expr.Parse.{
  Context, or_rule, atom_rule, call_rule, is_char, fits_least, call_node, call_name, is_call,
  may_start_atom, Parser, peek, next, arguments, parse_function_call, closed, atom_of,
}
use remind_rb.Expr.Parse.Grammar.{
  Derives, operand, operation, in_parentheses, leaf, call, no_arguments, with_arguments, first,
  starts_atom, BuiltinInfo, ◌++>◌, append-++>,
}
use remind_rb.Expr.Parse.Steps.{bind_ok, ok_injective, if_ok, unless_ok}
use remind_rb.Expr.Parse.Reads.{Reads, Sound, Starts, arguments-Sound}

pub closed-Sound :
    (c : Context) (t : Chars) (ts : Tokens) (b a : Node × Tokens)
    → is_char 40 t ≡ true
    → Reads c or_rule ts b
    → closed b ≡ ok a
    → Reads c atom_rule (tok t ts) a
unfolding closed
closed-Sound c t ts (n, done) a e one h = absurd cc
closed-Sound c t ts (n, bad d) a e one h = absurd cc
closed-Sound c t ts (n, tok u us) a e one h =
    let end = if_ok (is_char 41 u) _ _ a h in
    subst (Reads c atom_rule (tok t ts)) (ok_injective end.1) (record {
      read = t ∷ (one.read ++ (u ∷ []));
      split = ap (tok t) (one.split ∙ sym (append-++> one.read (u ∷ []) us));
      derived = in_parentheses t u e end.0 one.derived;
    })

module _ (c : Context) (t : Chars) where
  abbrev pub entry : BuiltinInfo
  entry = c.find_builtin (call_name t)

  abbrev pub called : Kids × Tokens → Result (Node × Tokens)
  called r =
      if fits_least entry (num_kids r.0)
      then ok (call_node entry (lower (call_name t)) r.0, next r.1)
      else err e_too_few_args

  pub call_ends :
      (ts : Tokens) (ws : List Chars) (r : Kids × Tokens) (a : Node × Tokens)
      → ts ≡ ws ++> r.1
      → Starts 41 r.1
      → ((u : Chars)
          → is_char 41 u ≡ true
          → fits_least entry (num_kids r.0) ≡ true
          → Derives c call_rule (call_node entry (lower (call_name t)) r.0) (t ∷ (ws ++ (u ∷ []))))
      → called r ≡ ok a
      → Reads c call_rule (tok t ts) a
  call_ends ts ws r a e s d h =
      let end = if_ok (fits_least entry (num_kids r.0)) _ _ a h in
      subst (Reads c call_rule (tok t ts)) (ok_injective end.1) (record {
        read = t ∷ (ws ++ (s.token ∷ []));
        split = ap (tok t) (
            e
            ∙ ap (λ z. ws ++> z) (s.here ∙ ap (tok s.token) (sym (ap next s.here)))
            ∙ sym (append-++> ws (s.token ∷ []) (next r.1)));
        derived = d s.token s.is_token end.0;
      })

  pub with_arguments-Sound :
      (rounds : ℕ) (p : Parser) (ts : Tokens) (a : Node × Tokens)
      → Sound c or_rule p
      → (arguments rounds entry p 0 ts >>= called) ≡ ok a
      → Reads c call_rule (tok t ts) a
  with_arguments-Sound rounds p ts a q h =
      let run = bind_ok (arguments rounds entry p 0 ts) called a h in
      let got = arguments-Sound c rounds entry p q 0 ts run.0 run.1.0 in
      call_ends ts got.read run.0 a got.split got.closing
        (λ u e f. with_arguments t u e f got.derived) run.1.1

  pub either_call :
      (rounds : ℕ) (p : Parser) (u : Chars) (us : Tokens) (a : Node × Tokens) (x : Bool)
      → is_char 41 u ≡ x
      → Sound c or_rule p
      → ((if x then ok (no_kids, tok u us) else arguments rounds entry p 0 (tok u us)) >>= called)
        ≡ ok a
      → Reads c call_rule (tok t (tok u us)) a
  either_call rounds p u us a true e q h =
      call_ends (tok u us) [] (no_kids, tok u us) a refl
        (record { token = u; rest = us; is_token = e; here = refl }) (λ v f g. no_arguments t v f g)
        h
  either_call rounds p u us a false e q h = with_arguments-Sound rounds p (tok u us) a q h

  pub call-Sound :
      (rounds : ℕ) (p : Parser) (ts : Tokens) (a : Node × Tokens)
      → Sound c or_rule p
      → parse_function_call rounds c p (tok t ts) ≡ ok a
      → Reads c call_rule (tok t ts) a
  unfolding parse_function_call
  call-Sound rounds p done a q h = with_arguments-Sound rounds p done a q h
  call-Sound rounds p (bad e) a q h = absurd cc
  call-Sound rounds p (tok u us) a q h = either_call rounds p u us a (is_char 41 u) refl q h

pub first_call :
    (c : Context) (a : Node) (us : List Chars) (t : Chars) (ts rest : Tokens)
    → Derives c call_rule a us
    → tok t ts ≡ us ++> rest
    → first us ≡ t
first_call c a us t ts rest (no_arguments u v e f) q = ok_injective (sym (ap peek q))
first_call c a us t ts rest (with_arguments u v e f g) q = ok_injective (sym (ap peek q))
first_call c a us t ts rest (operand r b d) q = absurd cc
first_call c a us t ts rest (operation r u op e d f) q = absurd cc

pub atom_of-Sound :
    (c : Context) (call : Parser) (ts : Tokens) (t : Chars) (a : Node × Tokens)
    → is_char 40 t ≡ false
    → ((b : Node × Tokens) → call (tok t ts) ≡ ok b → Reads c call_rule (tok t ts) b)
    → atom_of c call (tok t ts) t ≡ ok a
    → Reads c atom_rule (tok t ts) a
unfolding atom_of
atom_of-Sound c p ts [] a e q h = absurd cc
atom_of-Sound c p ts (d ∷ s) a e q h =
    let start = unless_ok (may_start_atom d) _ _ a h in
    name_or_call (is_call (d ∷ s)) refl start.0 start.1
  where
    name_or_call :
        (x : Bool)
        → is_call (d ∷ s) ≡ x
        → may_start_atom d ≡ true
        → (if x then p (tok (d ∷ s) ts) else (c.atom (d ∷ s) >>= λ n. ok (n, ts))) ≡ ok a
        → Reads c atom_rule (tok (d ∷ s) ts) a
    name_or_call true k m g =
        let got = q a g in
        let same : first got.read ≡ d ∷ s =
          first_call c a.0 got.read (d ∷ s) ts a.1 got.derived got.split in
        record {
          read = got.read;
          split = got.split;
          derived =
              call (ap (is_char 40) same ∙ e) (ap starts_atom same ∙ m) (ap is_call same ∙ k)
                got.derived;
        }
    name_or_call false k m g =
        let run = bind_ok (c.atom (d ∷ s)) _ a g in
        subst (Reads c atom_rule (tok (d ∷ s) ts)) (ok_injective run.1.1)
          (record { read = (d ∷ s) ∷ []; split = refl; derived = leaf d s run.0 e m k run.1.0 })
