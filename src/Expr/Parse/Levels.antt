-- ===== src/Expr/Parse/Levels.antt =====
-- The levels and rounds that a derivation of Expr/Parse/Grammar takes, and the tokens next to it.
use remind_rb.Base.{
  ℕ, suc, ◌≤◌, ◌<◌, ◌≡◌, refl, ap, Bool, true, false, List, [], ◌∷◌, ◌++◌, length, length-append,
  none, some, arith, ltb, ◌==◌, if◌then◌else◌,
}
use remind_rb.Errors.{ok}
use remind_rb.Expr.Token.{Tokens, done, bad, tok}
use remind_rb.Expr.{Chars, BinaryOp, Node, Kids}
use remind_rb.Expr.Parse.{
  Context, Rule, or_rule, and_rule, eq_rule, cmp_rule, sum_rule, term_rule, factor_rule, atom_rule,
  call_rule, below, operator, Sign, sign, is_char, may_start_atom, ends, peek,
}
use remind_rb.Expr.Parse.Grammar.{
  Derives, DerivesArguments, operand, operation, unsigned, with_sign, in_parentheses, leaf, call,
  no_arguments, with_arguments, last_argument, more_arguments_follow, is_binary, first, starts_atom,
  BuiltinInfo,
}

abbrev pub larger : ℕ → ℕ → ℕ
larger m n = if ltb m n then n else m

pub larger_parts : (m n k : ℕ) → larger m n ≤ k → (m ≤ k) × (n ≤ k)
larger_parts m n k h = ground arith

unfoldable mutual
  pub levels : {c : Context} {r : Rule} {a : Node} {ts : List Chars} → Derives c r a ts → ℕ
  levels (operand r e d) = suc (levels d)
  levels (operation r t op e d f) = larger (levels d) (suc (levels f))
  levels (unsigned e d) = suc (levels d)
  levels (with_sign t s e d) = suc (levels d)
  levels (in_parentheses t u e f d) = suc (levels d)
  levels (leaf d s a e f g h) = 1
  levels (call e f g d) = suc (levels d)
  levels (no_arguments t u e f) = 1
  levels (with_arguments t u e f d) = suc (argument_levels d)

  pub argument_levels :
      {c : Context} {f : BuiltinInfo} {n : ℕ} {kids : Kids} {ts : List Chars}
      → DerivesArguments c f n kids ts
      → ℕ
  argument_levels (last_argument f n e d) = levels d
  argument_levels (more_arguments_follow f n t e g d rest) =
      larger (levels d) (argument_levels rest)

-- The rounds of the loop of a rule.
unfoldable pub spine : {c : Context} {r : Rule} {a : Node} {ts : List Chars} → Derives c r a ts → ℕ
spine (operation r t op e d f) = suc (spine d)
spine d = 0

-- The tokens of a derivation start with one that is not a closing parenthesis.
pub record StartsWell (ts : List Chars) : Type 0 where
  pub head : Chars
  pub tail : List Chars
  pub here : ts ≡ head ∷ tail
  pub not_closing : is_char 41 head ≡ false

sign-open : (t : Chars) (s : Sign) → sign t ≡ some s → is_char 41 t ≡ false
sign-open [] s e = refl
sign-open (c ∷ []) s e = ground arith
sign-open (c ∷ d ∷ t) s e = refl

paren-open : (t : Chars) → is_char 40 t ≡ true → is_char 41 t ≡ false
paren-open [] e = refl
paren-open (c ∷ []) e = ground arith
paren-open (c ∷ d ∷ t) e = refl

atom-open : (d : ℕ) (s : Chars) → may_start_atom d ≡ true → is_char 41 (d ∷ s) ≡ false
atom-open d [] e = ground arith
atom-open d (c ∷ s) e = refl

first-StartsWell : (ts : List Chars) → starts_atom (first ts) ≡ true → StartsWell ts
first-StartsWell [] e = absurd cc
first-StartsWell ([] ∷ ts) e = absurd cc
first-StartsWell ((d ∷ s) ∷ ts) e = record {
  head = d ∷ s;
  tail = ts;
  here = refl;
  not_closing = atom-open d s e;
}

abbrev pub is_call_rule : Rule → Bool
is_call_rule call_rule = true
is_call_rule r = false

below-not_call : (r : Rule) → is_binary r ≡ true → is_call_rule (below r) ≡ false
below-not_call r e = ground arith

pub append-StartsWell : (ts us : List Chars) → StartsWell ts → StartsWell (ts ++ us)
append-StartsWell ts us h = record {
  head = h.head;
  tail = h.tail ++ us;
  here = ap (λ z. z ++ us) h.here;
  not_closing = h.not_closing;
}

pub Derives-StartsWell :
    {c : Context} {r : Rule} {a : Node} {ts : List Chars}
    → Derives c r a ts
    → is_call_rule r ≡ false
    → StartsWell ts
Derives-StartsWell (operand r e d) h = Derives-StartsWell d (below-not_call r e)
Derives-StartsWell (operation r t op e d f) h = append-StartsWell _ _ (Derives-StartsWell d h)
Derives-StartsWell (unsigned e d) h = Derives-StartsWell d refl
Derives-StartsWell (with_sign t s e d) h = record {
  head = t;
  tail = _;
  here = refl;
  not_closing = sign-open t s e;
}
Derives-StartsWell (in_parentheses t u e f d) h = record {
  head = t;
  tail = _;
  here = refl;
  not_closing = paren-open t e;
}
Derives-StartsWell (leaf d s a e f g k) h = record {
  head = d ∷ s;
  tail = _;
  here = refl;
  not_closing = atom-open d s f;
}
Derives-StartsWell (call e f g d) h = first-StartsWell _ f
Derives-StartsWell (no_arguments t u e f) h = absurd cc
Derives-StartsWell (with_arguments t u e f d) h = absurd cc

pub spine-lt :
    {c : Context} {r : Rule} {a : Node} {ts : List Chars} (d : Derives c r a ts)
    → is_binary r ≡ true
    → spine d < length ts
unfolding spine
spine-lt {ts = ts} (operand r e d) h =
    let s = Derives-StartsWell d (below-not_call r e) in
    let n = ap length s.here in omega (arith, n)
spine-lt (operation {ts = ts} {us = us} r t op e d f) h =
    omega (arith, spine-lt d h, length-append ts (t ∷ us))
spine-lt (unsigned e d) h = absurd cc
spine-lt (with_sign t s e d) h = absurd cc
spine-lt (in_parentheses t u e f d) h = absurd cc
spine-lt (leaf d s a e f g k) h = absurd cc
spine-lt (call e f g d) h = absurd cc
spine-lt (no_arguments t u e f) h = absurd cc
spine-lt (with_arguments t u e f d) h = absurd cc

-- A token at which the loops of a rule and of the rules below it stop.
abbrev StopsTerm : Chars → Type 0
StopsTerm t = operator term_rule t ≡ none

abbrev StopsSum : Chars → Type 0
StopsSum t = (operator sum_rule t ≡ none) × StopsTerm t

abbrev StopsCmp : Chars → Type 0
StopsCmp t = (operator cmp_rule t ≡ none) × StopsSum t

abbrev StopsEq : Chars → Type 0
StopsEq t = (operator eq_rule t ≡ none) × StopsCmp t

abbrev StopsAnd : Chars → Type 0
StopsAnd t = (operator and_rule t ≡ none) × StopsEq t

abbrev StopsOr : Chars → Type 0
StopsOr t = (operator or_rule t ≡ none) × StopsAnd t

abbrev pub Stops : Rule → Chars → Type 0
Stops or_rule t = StopsOr t
Stops and_rule t = StopsAnd t
Stops eq_rule t = StopsEq t
Stops cmp_rule t = StopsCmp t
Stops sum_rule t = StopsSum t
Stops term_rule t = StopsTerm t
Stops r t = Unit

pub Stops-below :
    (r : Rule) (t : Chars)
    → is_binary r ≡ true
    → Stops r t
    → (operator r t ≡ none) × Stops (below r) t
Stops-below or_rule t e h = h
Stops-below and_rule t e h = h
Stops-below eq_rule t e h = h
Stops-below cmp_rule t e h = h
Stops-below sum_rule t e h = h
Stops-below term_rule t e h = (h, tt)
Stops-below factor_rule t e h = absurd cc
Stops-below atom_rule t e h = absurd cc
Stops-below call_rule t e h = absurd cc

-- No token is an operator of two rules.
pub operator-Stops :
    (r : Rule) (t : Chars) (op : BinaryOp) → operator r t ≡ some op → Stops (below r) t
operator-Stops or_rule (c ∷ d ∷ []) op e = ground arith
operator-Stops and_rule (c ∷ d ∷ []) op e = ground arith
operator-Stops eq_rule (c ∷ d ∷ []) op e = ground arith
operator-Stops cmp_rule (c ∷ d ∷ []) op e = ground arith
operator-Stops cmp_rule (c ∷ []) op e = ground arith
operator-Stops sum_rule (c ∷ []) op e = ground arith
operator-Stops term_rule t op e = tt
operator-Stops factor_rule t op e = tt
operator-Stops atom_rule t op e = tt
operator-Stops r t op e = absurd cc

nil-Stops : Stops or_rule []
nil-Stops = (refl, (refl, (refl, (refl, (refl, refl)))))

-- A token that starts with `]`.
bracket-Stops : (c : ℕ) (t : Chars) → (c == 93) ≡ true → Stops or_rule (c ∷ t)
bracket-Stops c [] e = ground arith
bracket-Stops c (d ∷ []) e = ground arith
bracket-Stops c (d ∷ f ∷ t) e = nil-Stops

-- The end of an expression stops every loop.
pub ends-Stops : (ts : Tokens) → ends ts ≡ true → (t : Chars) × ((peek ts ≡ ok t) × Stops or_rule t)
ends-Stops done e = ([], (refl, nil-Stops))
ends-Stops (bad d) e = absurd cc
ends-Stops (tok [] ts) e = absurd cc
ends-Stops (tok (c ∷ t) ts) e = (c ∷ t, (refl, bracket-Stops c t e))

pub close-Stops : (t : Chars) → is_char 41 t ≡ true → Stops or_rule t
close-Stops [] e = absurd cc
close-Stops (c ∷ []) e = ground arith
close-Stops (c ∷ d ∷ t) e = absurd cc

pub comma-Stops : (t : Chars) → is_char 44 t ≡ true → Stops or_rule t
comma-Stops [] e = absurd cc
comma-Stops (c ∷ []) e = ground arith
comma-Stops (c ∷ d ∷ t) e = absurd cc
