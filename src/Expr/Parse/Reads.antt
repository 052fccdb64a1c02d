-- ===== src/Expr/Parse/Reads.antt =====
-- The loops of the parser of remind-v06.02.10/src/expr.c read what the grammar derives.
use remind_rb.Base.{
  ℕ, zero, suc, ◌+◌, ◌≡◌, refl, sym, ap, ◌∙◌, inl, inr, ◌⊎◌, Bool, Option-cases, true, false, not,
  List, [], ◌∷◌, ◌++◌, if◌then◌else◌, subst,
}
use remind_rb.Errors.{Error, Result, ok, err, ◌>>=◌, e_parse_err}
use remind_rb.Expr.{Chars, Node, binary, Kids, no_kids, kid}
use remind_rb.Expr.Token.{Tokens, done, bad, tok}
use remind_rb.Expr.Parse.{
  Context, Rule, or_rule, below, operator, is_char, fits_most, Parser, peek, next, binary_loop,
  arguments, more_arguments,
}
use remind_rb.Expr.Parse.Grammar.{
  Derives, DerivesArguments, operation, last_argument, more_arguments_follow, BuiltinInfo, ◌++>◌,
  append-++>,
}
use remind_rb.Expr.Parse.Steps.{
  bind_ok, ok_injective, unless_ok, operator-nil, loop_ends, loop_goes,
}

-- The tokens that are read, which derive the node, and the rest.
pub record Reads (c : Context) (r : Rule) (ts : Tokens) (a : Node × Tokens) : Type 0 where
  pub read : List Chars
  pub split : ts ≡ read ++> a.1
  pub derived : Derives c r a.0 read

abbrev pub Sound : Context → Rule → Parser → Type 0
Sound c r p = (ts : Tokens) (a : Node × Tokens) → p ts ≡ ok a → Reads c r ts a

-- A parser that returns the node and the tokens at hand.
pub Reads-so_far :
    (c : Context) (r : Rule) (node : Node) (us : List Chars) (ts : Tokens) (a : Node × Tokens)
    → Derives c r node us
    → Result.ok (node, ts) ≡ ok a
    → Reads c r (us ++> ts) a
Reads-so_far c r node us ts a d h =
    subst (Reads c r (us ++> ts)) (ok_injective h) (record { read = us; split = refl; derived = d })

-- More tokens in front, which a derivation takes in.
pub Reads-behind :
    (c : Context) (r : Rule) (us : List Chars) (t : Chars) (ws : List Chars) (ts rest : Tokens)
    (a : Node × Tokens)
    → ts ≡ ws ++> rest
    → Reads c r ((us ++ (t ∷ ws)) ++> rest) a
    → Reads c r (us ++> tok t ts) a
Reads-behind c r us t ws ts rest a e h =
    subst (λ z. Reads c r z a) (append-++> us (t ∷ ws) rest ∙ ap (λ z. us ++> tok t z) (sym e)) h

pub loop-Sound :
    (c : Context) (rounds : ℕ) (r : Rule) (p : Parser)
    → Sound c (below r) p
    → (ts : Tokens) (node : Node) (us : List Chars) (a : Node × Tokens) → Derives c r node us
    → binary_loop rounds r p node ts ≡ ok a
    → Reads c r (us ++> ts) a
unfolding binary_loop
loop-Sound c zero r p q ts node us a d h = absurd cc
loop-Sound c (suc rounds) r p q (bad e) node us a d h = absurd cc
loop-Sound c (suc rounds) r p q done node us a d h =
    Reads-so_far c r node us done a d
      (sym (loop_ends rounds r p node done [] refl (operator-nil r)) ∙ h)
loop-Sound c (suc rounds) r p q (tok t ts) node us a d h = elim (Option-cases (operator r t)) [
  | inl e ↦
      Reads-so_far c r node us (tok t ts) a d
        (sym (loop_ends rounds r p node (tok t ts) t refl e) ∙ h)
  | inr (op, e) ↦
      let run = bind_ok (p ts) _ a (sym (loop_goes rounds r p node (tok t ts) t refl op e) ∙ h) in
      let b = run.0 in
      let second = q ts b run.1.0 in
      Reads-behind c r us t second.read ts b.1 a second.split (
        loop-Sound c rounds r p q b.1 (binary op node b.0) (us ++ (t ∷ second.read)) a
          (operation r t op e d second.derived) run.1.1)
]

-- A stream that starts with a given character as its token.
pub record Starts (c : ℕ) (ts : Tokens) : Type 0 where
  pub token : Chars
  pub rest : Tokens
  pub is_token : is_char c token ≡ true
  pub here : ts ≡ tok token rest

abbrev pub Ahead : Bool → Tokens → Type 0
Ahead true ts = Starts 44 ts
Ahead false ts = Starts 41 ts

pub closes_or_goes_on :
    (x y : Bool) (e : Error) (m : Result Bool) (b : Bool)
    → (if x then ok false else if not y then err e else m) ≡ ok b
    → ((x ≡ true) × (b ≡ false)) ⊎ ((y ≡ true) × (m ≡ ok b))
closes_or_goes_on true y e m b h = inl (refl, sym (ok_injective h))
closes_or_goes_on false true e m b h = inr (refl, h)
closes_or_goes_on false false e m b h = absurd cc

pub goes_on :
    (m : Result Chars) (e : Error) (b : Bool)
    → (m >>= λ u. if is_char 41 u then err e else ok true) ≡ ok b
    → b ≡ true
goes_on (err d) e b h = absurd cc
goes_on (ok u) e b h = last (is_char 41 u) h
  where
    last : (x : Bool) → (if x then err e else ok true) ≡ ok b → b ≡ true
    last true h = absurd cc
    last false h = sym (ok_injective h)

pub more_arguments-Ahead : (ts : Tokens) (b : Bool) → more_arguments ts ≡ ok b → Ahead b ts
more_arguments-Ahead done b h = absurd cc
more_arguments-Ahead (bad e) b h = absurd cc
more_arguments-Ahead (tok t ts) b h =
    elim (closes_or_goes_on (is_char 41 t) (is_char 44 t) _ _ b h) [
      | inl (e, f) ↦
          subst (λ z. Ahead z (tok t ts)) (sym f)
            (record { token = t; rest = ts; is_token = e; here = refl })
      | inr (e, g) ↦
          subst (λ z. Ahead z (tok t ts)) (sym (goes_on (peek ts) e_parse_err b g))
            (record { token = t; rest = ts; is_token = e; here = refl })
    ]

-- The tokens of arguments, in front of a closing parenthesis.
pub record ReadsArguments (c : Context) (f : BuiltinInfo) (n : ℕ) (ts : Tokens) (a : Kids × Tokens)
    : Type 0 where
  pub read : List Chars
  pub split : ts ≡ read ++> a.1
  pub derived : DerivesArguments c f n a.0 read
  pub closing : Starts 41 a.1

-- Behind the first argument.
pub arguments_behind :
    (c : Context) (f : BuiltinInfo) (n : ℕ) (ts : Tokens) (b : Node × Tokens) (x : Bool)
    (m : Result (Kids × Tokens)) (a : Kids × Tokens)
    → Reads c or_rule ts b
    → fits_most f (n + 1) ≡ true
    → Ahead x b.1
    → ((r : Kids × Tokens) → m ≡ ok r → ReadsArguments c f (n + 1) (next b.1) r)
    → (if x then (m >>= λ r. ok (kid b.0 r.0, r.1)) else ok (kid b.0 no_kids, b.1)) ≡ ok a
    → ReadsArguments c f n ts a
arguments_behind c f n ts b false m a one few ahead later h =
    subst (ReadsArguments c f n ts) (ok_injective h) (record {
      read = one.read;
      split = one.split;
      derived = last_argument f n few one.derived;
      closing = ahead;
    })
arguments_behind c f n ts b true m a one few ahead later h =
    let run = bind_ok m _ a h in
    let r = run.0 in
    let rest = later r run.1.0 in
    let comma : b.1 ≡ tok ahead.token (rest.read ++> r.1) =
      ahead.here ∙ ap (tok ahead.token) (sym (ap next ahead.here) ∙ rest.split) in
    subst (ReadsArguments c f n ts) (ok_injective run.1.1) (record {
      read = one.read ++ (ahead.token ∷ rest.read);
      split =
          one.split
          ∙ ap (λ z. one.read ++> z) comma
          ∙ sym (append-++> one.read (ahead.token ∷ rest.read) r.1);
      derived = more_arguments_follow f n ahead.token few ahead.is_token one.derived rest.derived;
      closing = rest.closing;
    })

pub arguments-Sound :
    (c : Context) (rounds : ℕ) (f : BuiltinInfo) (p : Parser)
    → Sound c or_rule p
    → (n : ℕ) (ts : Tokens) (a : Kids × Tokens) → arguments rounds f p n ts ≡ ok a
    → ReadsArguments c f n ts a
unfolding arguments
arguments-Sound c zero f p q n ts a h = absurd cc
arguments-Sound c (suc rounds) f p q n ts a h =
    let first = bind_ok (p ts) _ a h in
    let b = first.0 in
    let few = unless_ok (fits_most f (n + 1)) _ _ a first.1.1 in
    let more = bind_ok (more_arguments b.1) _ a few.1 in
    arguments_behind c f n ts b more.0 _ a (q ts b first.1.0) few.0
      (more_arguments-Ahead b.1 more.0 more.1.0) (arguments-Sound c rounds f p q (n + 1) (next b.1))
      more.1.1
