-- ===== src/Expr/Parse/Grammar.antt =====
-- The grammar of expressions in remind-v06.02.10/src/expr.c, as derivations of a node from a list of
-- tokens. Operators of one rule group to the left.
use remind_rb.Base.{
  ℕ, ◌+◌, ◌≡◌, refl, ap, Bool, true, false, List, [], ◌∷◌, ◌++◌, Option, none, some,
}
use remind_rb.Errors.{ok}
use remind_rb.Expr.{Chars, BinaryOp, Node, binary, Kids, no_kids, kid}
use remind_rb.Expr.Eval.{num_kids}
use remind_rb.Expr.Token.{Tokens, tok}
use remind_rb.Expr.Number.{lower}
use remind_rb.Expr.Parse.{
  Context, Rule, or_rule, factor_rule, atom_rule, call_rule, below, operator, Sign, sign, signed,
  is_char, fits_most, fits_least, call_node, call_name, is_call, may_start_atom,
}

-- The rules with a loop over operators.
abbrev pub is_binary : Rule → Bool
is_binary factor_rule = false
is_binary atom_rule = false
is_binary call_rule = false
is_binary r = true

abbrev pub BuiltinInfo : Type 0
BuiltinInfo = Option (Chars × ℕ × ℕ)

abbrev pub first : List Chars → Chars
first [] = []
first (t ∷ ts) = t

abbrev pub starts_atom : Chars → Bool
starts_atom [] = false
starts_atom (d ∷ s) = may_start_atom d

mutual
  pub data Derives (c : Context) : Rule → Node → List Chars → Type 0 where
    -- An operand alone, or operands on both sides of an operator.
    operand :
        {a : Node} {ts : List Chars} (r : Rule)
        → is_binary r ≡ true
        → Derives c (below r) a ts
        → Derives c r a ts
    operation :
        {a b : Node} {ts us : List Chars} (r : Rule) (t : Chars) (op : BinaryOp)
        → operator r t ≡ some op
        → Derives c r a ts
        → Derives c (below r) b us
        → Derives c r (binary op a b) (ts ++ (t ∷ us))
    unsigned :
        {a : Node} {ts : List Chars}
        → sign (first ts) ≡ none
        → Derives c atom_rule a ts
        → Derives c factor_rule a ts
    with_sign :
        {a : Node} {ts : List Chars} (t : Chars) (s : Sign)
        → sign t ≡ some s
        → Derives c factor_rule a ts
        → Derives c factor_rule (signed s a) (t ∷ ts)
    in_parentheses :
        {a : Node} {ts : List Chars} (t u : Chars)
        → is_char 40 t ≡ true
        → is_char 41 u ≡ true
        → Derives c or_rule a ts
        → Derives c atom_rule a (t ∷ (ts ++ (u ∷ [])))
    leaf :
        (d : ℕ) (s : Chars) (a : Node)
        → is_char 40 (d ∷ s) ≡ false
        → may_start_atom d ≡ true
        → is_call (d ∷ s) ≡ false
        → c.atom (d ∷ s) ≡ ok a
        → Derives c atom_rule a ((d ∷ s) ∷ [])
    call :
        {a : Node} {ts : List Chars}
        → is_char 40 (first ts) ≡ false
        → starts_atom (first ts) ≡ true
        → is_call (first ts) ≡ true
        → Derives c call_rule a ts
        → Derives c atom_rule a ts
    no_arguments :
        (t u : Chars)
        → is_char 41 u ≡ true
        → fits_least (c.find_builtin (call_name t)) 0 ≡ true
        → Derives c call_rule
            (call_node (c.find_builtin (call_name t)) (lower (call_name t)) no_kids)
            (t ∷ u ∷ [])
    with_arguments :
        {kids : Kids} {ts : List Chars} (t u : Chars)
        → is_char 41 u ≡ true
        → fits_least (c.find_builtin (call_name t)) (num_kids kids) ≡ true
        → DerivesArguments c (c.find_builtin (call_name t)) 0 kids ts
        → Derives c call_rule
            (call_node (c.find_builtin (call_name t)) (lower (call_name t)) kids)
            (t ∷ (ts ++ (u ∷ [])))

  -- The arguments behind `n` others.
  pub data DerivesArguments (c : Context) : BuiltinInfo → ℕ → Kids → List Chars → Type 0 where
    last_argument :
        {a : Node} {ts : List Chars} (f : BuiltinInfo) (n : ℕ)
        → fits_most f (n + 1) ≡ true
        → Derives c or_rule a ts
        → DerivesArguments c f n (kid a no_kids) ts
    more_arguments_follow :
        {a : Node} {kids : Kids} {ts us : List Chars} (f : BuiltinInfo) (n : ℕ) (t : Chars)
        → fits_most f (n + 1) ≡ true
        → is_char 44 t ≡ true
        → Derives c or_rule a ts
        → DerivesArguments c f (n + 1) kids us
        → DerivesArguments c f n (kid a kids) (ts ++ (t ∷ us))

-- Tokens in front of a stream.
infixr 5 ◌++>◌
abbrev pub ◌++>◌ : List Chars → Tokens → Tokens
[] ++> rest = rest
(t ∷ ts) ++> rest = tok t (ts ++> rest)

pub append-++> : (ts us : List Chars) (rest : Tokens) → (ts ++ us) ++> rest ≡ ts ++> (us ++> rest)
append-++> [] us rest = refl
append-++> (t ∷ ts) us rest = ap (tok t) (append-++> ts us rest)
