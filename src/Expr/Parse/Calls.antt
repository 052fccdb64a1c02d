-- ===== src/Expr/Parse/Calls.antt =====
-- The calls of functions that the parser of remind-v06.02.10/src/expr.c accepts.
use remind_rb.Base.{
  ℕ, zero, suc, ◌+◌, ◌≤◌, ◌<◌, ◌≡◌, refl, sym, ap, ◌∙◌, true, false, List, [], ◌∷◌, ◌++◌, length,
  length-append, some, arith, subst,
}
use remind_rb.Errors.{ok, ◌>>=◌}
use remind_rb.Expr.{Chars, BinaryOp, Node, Kids, no_kids, kid}
use remind_rb.Expr.Eval.{num_kids}
use remind_rb.Expr.Token.{Tokens, tok}
use remind_rb.Expr.Number.{lower}
use remind_rb.Expr.Parse.{
  Context, Rule, or_rule, and_rule, eq_rule, cmp_rule, sum_rule, term_rule, factor_rule, atom_rule,
  call_rule, operator, is_char, fits_most, fits_least, call_node, call_name, Parser, peek,
  arguments, parse_function_call, parse,
}
use remind_rb.Expr.Parse.Grammar.{
  DerivesArguments, last_argument, more_arguments_follow, is_binary, first, BuiltinInfo, ◌++>◌,
  append-++>,
}
use remind_rb.Expr.Parse.Levels.{
  larger, larger_parts, StartsWell, Derives-StartsWell, append-StartsWell, close-Stops, comma-Stops,
}
use remind_rb.Expr.Parse.Rules.{Parses}

pub comma_open : (u : Chars) → is_char 44 u ≡ true → is_char 41 u ≡ false
comma_open [] e = refl
comma_open (c ∷ []) e = ground arith
comma_open (c ∷ d ∷ u) e = refl

module _ (k : ℕ) (f : BuiltinInfo) (p : Parser) (n : ℕ) (ts : Tokens) (a : Node) (u : Chars)
    (rest : Tokens) (q : p ts ≡ ok (a, tok u rest)) (fits : fits_most f (n + 1) ≡ true) where
  pub arguments_last :
      is_char 41 u ≡ true → arguments (suc k) f p n ts ≡ ok (kid a no_kids, tok u rest)
  unfolding arguments
  arguments_last e = rw q (rw fits (rw e refl))

  pub arguments_more :
      (w : Chars)
      → is_char 44 u ≡ true
      → peek rest ≡ ok w
      → is_char 41 w ≡ false
      → arguments (suc k) f p n ts ≡ (arguments k f p (n + 1) rest >>= λ r. ok (kid a r.0, r.1))
  unfolding arguments
  arguments_more w e g h = rw q (rw fits (rw (comma_open u e, e) (rw g (rw h refl))))

pub operator-is_binary :
    (r : Rule) (t : Chars) (op : BinaryOp) → operator r t ≡ some op → is_binary r ≡ true
operator-is_binary or_rule t op e = refl
operator-is_binary and_rule t op e = refl
operator-is_binary eq_rule t op e = refl
operator-is_binary cmp_rule t op e = refl
operator-is_binary sum_rule t op e = refl
operator-is_binary term_rule t op e = refl
operator-is_binary factor_rule t op e = absurd cc
operator-is_binary atom_rule t op e = absurd cc
operator-is_binary call_rule t op e = absurd cc

pub peek-StartsWell :
    (ts : List Chars) (rest : Tokens)
    → StartsWell ts
    → (w : Chars) × ((peek (ts ++> rest) ≡ ok w) × (is_char 41 w ≡ false))
peek-StartsWell [] rest w = let q = w.here in absurd cc
peek-StartsWell (x ∷ ts) rest w =
    (x, (refl, subst (λ z. is_char 41 (first z) ≡ false) (sym w.here) w.not_closing))

pub positive_length : (ts : List Chars) → StartsWell ts → 0 < length ts
positive_length [] w = let q = w.here in absurd cc
positive_length (x ∷ ts) w = omega arith

pub arguments-StartsWell :
    {c : Context} {f : BuiltinInfo} {n : ℕ} {kids : Kids} {ts : List Chars}
    → DerivesArguments c f n kids ts
    → StartsWell ts
arguments-StartsWell (last_argument f n e d) = Derives-StartsWell d refl
arguments-StartsWell (more_arguments_follow {ts = ts} {us = us} f n t e g d rest) =
    append-StartsWell ts (t ∷ us) (Derives-StartsWell d refl)

module _ (c : Context) (rounds : ℕ) where
  abbrev pub ParsesArguments : BuiltinInfo → ℕ → Kids → List Chars → ℕ → Type 0
  ParsesArguments f n kids ts lev =
      (left k : ℕ) (rest : Tokens) (v : Chars)
      → lev ≤ left
      → length ts < k
      → is_char 41 v ≡ true
      → arguments k f (parse c rounds left or_rule) n (ts ++> tok v rest) ≡ ok (kids, tok v rest)

  pub last-ParsesArguments :
      (f : BuiltinInfo) (n : ℕ) (a : Node) (ts : List Chars) (lev : ℕ)
      → fits_most f (n + 1) ≡ true
      → Parses c rounds or_rule a ts lev
      → ParsesArguments f n (kid a no_kids) ts lev
  last-ParsesArguments f n a ts lev e h left zero rest v le lt q = absurd (omega arith)
  last-ParsesArguments f n a ts lev e h left (suc k) rest v le lt q =
      arguments_last k f (parse c rounds left or_rule) n (ts ++> tok v rest) a v rest
        (h left (tok v rest) v le refl (close-Stops v q)) e q

  pub more-ParsesArguments :
      (f : BuiltinInfo) (n : ℕ) (a : Node) (kids : Kids) (ts us : List Chars) (t : Chars)
      (lev lev2 : ℕ)
      → fits_most f (n + 1) ≡ true
      → is_char 44 t ≡ true
      → StartsWell us
      → Parses c rounds or_rule a ts lev
      → ParsesArguments f (n + 1) kids us lev2
      → ParsesArguments f n (kid a kids) (ts ++ (t ∷ us)) (larger lev lev2)
  more-ParsesArguments f n a kids ts us t lev lev2 e g w h k left zero rest v le lt q =
      absurd (omega arith)
  more-ParsesArguments f n a kids ts us t lev lev2 e g w h k left (suc m) rest v le lt q =
      let parts = larger_parts lev lev2 left le in
      let p = parse c rounds left or_rule in
      let behind = us ++> tok v rest in
      let ahead = peek-StartsWell us (tok v rest) w in
      let small : length us < m = omega (arith, length-append ts (t ∷ us)) in
      ap (arguments (suc m) f p n) (append-++> ts (t ∷ us) (tok v rest))
      ∙ arguments_more m f p n (ts ++> tok t behind) a t behind
          (h left (tok t behind) t parts.0 refl (comma-Stops t g)) e ahead.0 g ahead.1.0 ahead.1.1
      ∙ ap (λ z. z >>= λ r. ok (kid a r.0, r.1)) (k left m rest v parts.1 small q)

  pub no_arguments-Parses :
      (t u : Chars)
      → is_char 41 u ≡ true
      → fits_least (c.find_builtin (call_name t)) 0 ≡ true
      → Parses c rounds call_rule
          (call_node (c.find_builtin (call_name t)) (lower (call_name t)) no_kids)
          (t ∷ u ∷ [])
          1
  unfolding parse parse_function_call
  no_arguments-Parses t u e g zero rest w le p s = absurd (omega arith)
  no_arguments-Parses t u e g (suc left) rest w le p s = rw e (rw g refl)

  pub call_goes :
      (p : Parser) (kids : Kids) (t u w : Chars) (ts rest : Tokens)
      → peek ts ≡ ok w
      → is_char 41 w ≡ false
      → arguments rounds (c.find_builtin (call_name t)) p 0 ts ≡ ok (kids, tok u rest)
      → fits_least (c.find_builtin (call_name t)) (num_kids kids) ≡ true
      → parse_function_call rounds c p (tok t ts)
        ≡ ok (call_node (c.find_builtin (call_name t)) (lower (call_name t)) kids, rest)
  unfolding parse_function_call
  call_goes p kids t u w ts rest q e h g = rw q (rw e (rw h (rw g refl)))

  pub with_arguments-Parses :
      (kids : Kids) (ts : List Chars) (t u : Chars) (lev : ℕ)
      → is_char 41 u ≡ true
      → fits_least (c.find_builtin (call_name t)) (num_kids kids) ≡ true
      → StartsWell ts
      → length ts < rounds
      → ParsesArguments (c.find_builtin (call_name t)) 0 kids ts lev
      → Parses c rounds call_rule
          (call_node (c.find_builtin (call_name t)) (lower (call_name t)) kids)
          (t ∷ (ts ++ (u ∷ [])))
          (suc lev)
  unfolding parse
  with_arguments-Parses kids ts t u lev e g s lt h zero rest w le p q = absurd (omega arith)
  with_arguments-Parses kids ts t u lev e g s lt h (suc left) rest w le p q =
      let inner = parse c rounds left or_rule in
      let ahead = peek-StartsWell ts (tok u rest) s in
      ap (λ z. parse_function_call rounds c inner (tok t z)) (append-++> ts (u ∷ []) rest)
      ∙ call_goes inner kids t u ahead.0 (ts ++> tok u rest) rest ahead.1.0 ahead.1.1
          (h left rounds rest u (omega arith) lt e) g
