-- ===== src/Expr/Parse/Complete.antt =====
-- What the grammar derives, the parser of remind-v06.02.10/src/expr.c accepts.
use remind_rb.Base.{
  ℕ, suc, ◌+◌, ◌≤◌, ◌<◌, ◌≡◌, refl, ap, ◌∙◌, true, false, List, [], ◌∷◌, ◌++◌, length,
  length-append, arith, if◌then◌else◌,
}
use remind_rb.Errors.{ok, err, ◌>>=◌, e_expecting_eoxpr}
use remind_rb.Expr.{Chars, Node, binary, Kids}
use remind_rb.Expr.Token.{Tokens}
use remind_rb.Expr.Parse.{Context, Rule, or_rule, parse_expression, ends, count_tokens}
use remind_rb.Expr.Parse.Grammar.{
  Derives, DerivesArguments, operand, operation, unsigned, with_sign, in_parentheses, leaf, call,
  no_arguments, with_arguments, last_argument, more_arguments_follow, is_binary, BuiltinInfo, ◌++>◌,
}
use remind_rb.Expr.Parse.Levels.{
  levels, argument_levels, spine, spine-lt, larger, Derives-StartsWell, ends-Stops,
}
use remind_rb.Expr.Parse.Rules.{
  Parses, Loops, Loops→Parses, operand-Loops, operation-Loops, unsigned-Parses, with_sign-Parses,
  parentheses-Parses, leaf-Parses, call-Parses,
}
use remind_rb.Expr.Parse.Calls.{
  operator-is_binary, arguments-StartsWell, ParsesArguments, last-ParsesArguments,
  more-ParsesArguments, no_arguments-Parses, with_arguments-Parses,
}

module _ (c : Context) (rounds : ℕ) where
  -- What holds of a derivation: it parses, and a rule with a loop reaches its node.
  abbrev Goes : Rule → Node → List Chars → ℕ → ℕ → Type 0
  Goes r a ts used lev =
      Parses c rounds r a ts lev × (is_binary r ≡ true → Loops c rounds r a ts used lev)

  looped :
      (r : Rule) (a : Node) (ts : List Chars) (used lev : ℕ)
      → is_binary r ≡ true
      → used < rounds
      → 0 < lev
      → Loops c rounds r a ts used lev
      → Goes r a ts used lev
  looped r a ts used lev e lt pos_lev h =
      (Loops→Parses c rounds r a ts used lev e lt pos_lev h, λ _. h)

  larger_pos : (m n : ℕ) → 0 < larger m (suc n)
  larger_pos m n = ground arith

  mutual
    unfolding levels spine

    derivation-Goes :
        {r : Rule} {a : Node} {ts : List Chars} (d : Derives c r a ts)
        → length ts < rounds
        → Goes r a ts (spine d) (levels d)
    derivation-Goes {a = a} {ts = ts} (operand r e d) lt =
        looped r a ts 0 (suc (levels d)) e (omega arith) (omega arith)
          (operand-Loops c rounds r a ts (levels d) e (derivation-Goes d lt).0)
    derivation-Goes (operation {a = a} {b = b} {ts = ts} {us = us} r t op e d f) lt =
        let joined = length-append ts (t ∷ us) in
        let e' = operator-is_binary r t op e in
        let left = derivation-Goes d (omega (arith, joined)) in
        let right = derivation-Goes f (omega (arith, joined)) in
        looped r (binary op a b) (ts ++ (t ∷ us)) (suc (spine d))
          (larger (levels d) (suc (levels f))) e' (omega (arith, joined, spine-lt d e'))
          (larger_pos (levels d) (levels f))
          (operation-Loops c rounds r a b ts us t op (spine d) (levels d) (levels f) e' e
            (left.1 e') right.0)
    derivation-Goes (unsigned {a = a} {ts = ts} e d) lt = (
      unsigned-Parses c rounds a ts (levels d) (Derives-StartsWell d refl) e
          (derivation-Goes d lt).0,
      λ z. absurd cc,
    )
    derivation-Goes (with_sign {a = a} {ts = ts} t s e d) lt = (
      with_sign-Parses c rounds a t s ts (levels d) e (derivation-Goes d (omega arith)).0,
      λ z. absurd cc,
    )
    derivation-Goes (in_parentheses {a = a} {ts = ts} t u e f d) lt =
        let joined = length-append ts (u ∷ []) in
        (
          parentheses-Parses c rounds a t u ts (levels d) e f
              (derivation-Goes d (omega (arith, joined))).0,
          λ z. absurd cc,
        )
    derivation-Goes (leaf d s a e f g h) lt = (leaf-Parses c rounds d s a e f g h, λ z. absurd cc)
    derivation-Goes (call {a = a} {ts = ts} e f g d) lt =
        (call-Parses c rounds a ts (levels d) e f g (derivation-Goes d lt).0, λ z. absurd cc)
    derivation-Goes (no_arguments t u e f) lt =
        (no_arguments-Parses c rounds t u e f, λ z. absurd cc)
    derivation-Goes (with_arguments {kids = kids} {ts = ts} t u e f d) lt =
        let joined = length-append ts (u ∷ []) in
        (
          with_arguments-Parses c rounds kids ts t u (argument_levels d) e f
              (arguments-StartsWell d) (omega (arith, joined))
              (arguments-Goes d (omega (arith, joined))),
          λ z. absurd cc,
        )

    arguments-Goes :
        {f : BuiltinInfo} {n : ℕ} {kids : Kids} {ts : List Chars}
        (d : DerivesArguments c f n kids ts)
        → length ts < rounds
        → ParsesArguments c rounds f n kids ts (argument_levels d)
    arguments-Goes (last_argument {a = a} {ts = ts} f n e d) lt =
        last-ParsesArguments c rounds f n a ts (levels d) e (derivation-Goes d lt).0
    arguments-Goes
          (more_arguments_follow {a = a} {kids = kids} {ts = ts} {us = us} f n t e g d rest) lt =
        let joined = length-append ts (t ∷ us) in
        more-ParsesArguments c rounds f n a kids ts us t (levels d) (argument_levels rest) e g
          (arguments-StartsWell rest) (derivation-Goes d (omega (arith, joined))).0
          (arguments-Goes rest (omega (arith, joined)))

length-le-count : (us : List Chars) (rest : Tokens) → length us ≤ count_tokens (us ++> rest)
length-le-count [] rest = omega arith
length-le-count (t ∷ us) rest = omega (arith, length-le-count us rest)

-- The other direction: tokens from which the grammar derives a node, with the end of the text or a
-- `]` behind them, are parsed to that node if there are as many levels as the derivation takes.
pub Derives-parse_expression :
    (c : Context) (us : List Chars) (rest : Tokens) (a : Node) (most : ℕ)
    → (d : Derives c or_rule a us) → levels d ≤ most
    → ends rest ≡ true
    → parse_expression false c most (us ++> rest) ≡ ok a
unfolding parse_expression
Derives-parse_expression c us rest a most d le e =
    let stop = ends-Stops rest e in
    let rounds = count_tokens (us ++> rest) + 1 in
    let run =
      (derivation-Goes c rounds d (omega (arith, length-le-count us rest))).0 most rest stop.0 le
        stop.1.0 stop.1.1 in
    ap (λ m. m >>= λ r. if ends r.1 then ok r.0 else err e_expecting_eoxpr) run ∙ rw e refl
