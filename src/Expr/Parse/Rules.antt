-- ===== src/Expr/Parse/Rules.antt =====
-- The rules of the parser of remind-v06.02.10/src/expr.c accept what stands in the grammar.
use remind_rb.Base.{
  ℕ, zero, suc, ◌+◌, ◌-◌, ◌≤◌, ◌<◌, ◌≡◌, refl, ap, ◌∙◌, true, false, List, [], ◌∷◌, ◌++◌, none,
  some, arith,
}
use remind_rb.Errors.{ok, ◌>>=◌}
use remind_rb.Expr.{Chars, BinaryOp, Node, binary}
use remind_rb.Expr.Token.{Tokens, tok}
use remind_rb.Expr.Parse.{
  Context, Rule, or_rule, and_rule, eq_rule, cmp_rule, sum_rule, term_rule, factor_rule, atom_rule,
  call_rule, below, operator, Sign, sign, signed, is_char, is_call, may_start_atom, peek,
  binary_loop, closed, atom_of, parse,
}
use remind_rb.Expr.Parse.Grammar.{is_binary, first, starts_atom, ◌++>◌, append-++>}
use remind_rb.Expr.Parse.Steps.{finds_none, finds_some, loop_ends, loop_goes}
use remind_rb.Expr.Parse.Levels.{
  larger, larger_parts, StartsWell, Stops, Stops-below, operator-Stops, close-Stops,
}

module _ (c : Context) (rounds : ℕ) where
  -- The tokens parse to the node in front of a token that stops the rule.
  abbrev pub Parses : Rule → Node → List Chars → ℕ → Type 0
  Parses r a ts lev =
      (left : ℕ) (rest : Tokens) (t : Chars)
      → lev ≤ left
      → peek rest ≡ ok t
      → Stops r t
      → parse c rounds left r (ts ++> rest) ≡ ok (a, rest)

  -- They bring the loop of the rule to the node, with `spine` rounds less.
  abbrev pub Loops : Rule → Node → List Chars → ℕ → ℕ → Type 0
  Loops r a ts rounds_used lev =
      (left n : ℕ) (rest : Tokens) (t : Chars)
      → lev ≤ suc left
      → rounds_used + n ≡ rounds
      → peek rest ≡ ok t
      → Stops (below r) t
      → parse c rounds (suc left) r (ts ++> rest)
        ≡ binary_loop n r (parse c rounds left (below r)) a rest

  pub binary_parse :
      (r : Rule) (left : ℕ) (ts : Tokens)
      → is_binary r ≡ true
      → parse c rounds (suc left) r ts ≡ (
          parse c rounds left (below r) ts >>= λ b.
          binary_loop rounds r (parse c rounds left (below r)) b.0 b.1)
  unfolding parse
  binary_parse or_rule left ts e = refl
  binary_parse and_rule left ts e = refl
  binary_parse eq_rule left ts e = refl
  binary_parse cmp_rule left ts e = refl
  binary_parse sum_rule left ts e = refl
  binary_parse term_rule left ts e = refl
  binary_parse factor_rule left ts e = absurd cc
  binary_parse atom_rule left ts e = absurd cc
  binary_parse call_rule left ts e = absurd cc

  pub Loops→Parses :
      (r : Rule) (a : Node) (ts : List Chars) (used lev : ℕ)
      → is_binary r ≡ true
      → used < rounds
      → 0 < lev
      → Loops r a ts used lev
      → Parses r a ts lev
  Loops→Parses r a ts used lev e lt pos_lev h zero rest t le q s = absurd (omega arith)
  Loops→Parses r a ts used lev e lt pos_lev h (suc left) rest t le q s =
      let stop = Stops-below r t e s in
      h left (suc (rounds - used - 1)) rest t le (omega arith) q stop.1
      ∙ loop_ends (rounds - used - 1) r (parse c rounds left (below r)) a rest t q stop.0

  pub operand-Loops :
      (r : Rule) (a : Node) (ts : List Chars) (lev : ℕ)
      → is_binary r ≡ true
      → Parses (below r) a ts lev
      → Loops r a ts 0 (suc lev)
  operand-Loops r a ts lev e h left n rest t le q p s =
      let all : rounds ≡ n = omega arith in
      let inner = parse c rounds left (below r) in
      binary_parse r left (ts ++> rest) e
      ∙ ap (λ m. m >>= λ b. binary_loop rounds r inner b.0 b.1) (h left rest t (omega arith) p s)
      ∙ ap (λ z. binary_loop z r inner a rest) all

  pub operation-Loops :
      (r : Rule) (a b : Node) (ts us : List Chars) (u : Chars) (op : BinaryOp) (used lev lev2 : ℕ)
      → is_binary r ≡ true
      → operator r u ≡ some op
      → Loops r a ts used lev
      → Parses (below r) b us lev2
      → Loops r (binary op a b) (ts ++ (u ∷ us)) (suc used) (larger lev (suc lev2))
  operation-Loops r a b ts us u op used lev lev2 e o h k left n rest t le q p s =
      let parts = larger_parts lev (suc lev2) (suc left) le in
      let inner = parse c rounds left (below r) in
      let behind = tok u (us ++> rest) in
      ap (parse c rounds (suc left) r) (append-++> ts (u ∷ us) rest)
      ∙ h left (suc n) behind u parts.0 (omega arith) refl (operator-Stops r u op o)
      ∙ loop_goes n r inner a behind u refl op o
      ∙ ap (λ m. m >>= λ x. binary_loop n r inner (binary op a x.0) x.1)
          (k left rest t (omega (arith, parts.1)) p s)

  pub unsigned-Parses :
      (a : Node) (ts : List Chars) (lev : ℕ)
      → StartsWell ts
      → sign (first ts) ≡ none
      → Parses atom_rule a ts lev
      → Parses factor_rule a ts (suc lev)
  unfolding parse
  unsigned-Parses a ts lev w e h zero rest t le p s = absurd (omega arith)
  unsigned-Parses a [] lev w e h (suc left) rest t le p s = let q = w.here in absurd cc
  unsigned-Parses a (x ∷ ts) lev w e h (suc left) rest t le p s =
      let factor = parse c rounds left factor_rule (ts ++> rest) in
      finds_none (ok x) x sign (parse c rounds left atom_rule (tok x (ts ++> rest)))
        (λ v. factor >>= λ b. ok (signed v b.0, b.1)) refl e
      ∙ h left rest t (omega arith) p s

  pub with_sign-Parses :
      (a : Node) (u : Chars) (g : Sign) (ts : List Chars) (lev : ℕ)
      → sign u ≡ some g
      → Parses factor_rule a ts lev
      → Parses factor_rule (signed g a) (u ∷ ts) (suc lev)
  unfolding parse
  with_sign-Parses a u g ts lev e h zero rest t le p s = absurd (omega arith)
  with_sign-Parses a u g ts lev e h (suc left) rest t le p s =
      let factor = parse c rounds left factor_rule (ts ++> rest) in
      finds_some (ok u) u sign (parse c rounds left atom_rule (tok u (ts ++> rest)))
        (λ v. factor >>= λ b. ok (signed v b.0, b.1)) g refl e
      ∙ ap (λ m. m >>= λ b. ok (signed g b.0, b.1)) (h left rest t (omega arith) p s)

  pub closes :
      (a : Node) (v : Chars) (rest : Tokens)
      → is_char 41 v ≡ true
      → closed (a, tok v rest) ≡ ok (a, rest)
  unfolding closed
  closes a v rest f = rw f refl

  pub parentheses-Parses :
      (a : Node) (u v : Chars) (ts : List Chars) (lev : ℕ)
      → is_char 40 u ≡ true
      → is_char 41 v ≡ true
      → Parses or_rule a ts lev
      → Parses atom_rule a (u ∷ (ts ++ (v ∷ []))) (suc lev)
  unfolding parse
  parentheses-Parses a u v ts lev e f h zero rest t le p s = absurd (omega arith)
  parentheses-Parses a u v ts lev e f h (suc left) rest t le p s =
      let inner = parse c rounds left or_rule in
      rw e (
        ap (λ m. m >>= closed)
          (ap inner (append-++> ts (v ∷ []) rest)
            ∙ h left (tok v rest) v (omega arith) refl (close-Stops v f))
        ∙ closes a v rest f)

  pub leaf-Parses :
      (d : ℕ) (z : Chars) (a : Node)
      → is_char 40 (d ∷ z) ≡ false
      → may_start_atom d ≡ true
      → is_call (d ∷ z) ≡ false
      → c.atom (d ∷ z) ≡ ok a
      → Parses atom_rule a ((d ∷ z) ∷ []) 1
  unfolding parse atom_of
  leaf-Parses d z a e f g h zero rest t le p s = absurd (omega arith)
  leaf-Parses d z a e f g h (suc left) rest t le p s = rw (e, f, g, h) refl

  pub call-Parses :
      (a : Node) (ts : List Chars) (lev : ℕ)
      → is_char 40 (first ts) ≡ false
      → starts_atom (first ts) ≡ true
      → is_call (first ts) ≡ true
      → Parses call_rule a ts lev
      → Parses atom_rule a ts (suc lev)
  unfolding parse atom_of
  call-Parses a ts lev e f g h zero rest t le p s = absurd (omega arith)
  call-Parses a [] lev e f g h (suc left) rest t le p s = absurd cc
  call-Parses a ([] ∷ ts) lev e f g h (suc left) rest t le p s = absurd cc
  call-Parses a ((d ∷ z) ∷ ts) lev e f g h (suc left) rest t le p s =
      rw (e, f, g) (h left rest t (omega arith) p tt)
