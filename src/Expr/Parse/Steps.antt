-- ===== src/Expr/Parse/Steps.antt =====
-- Single steps of the parser of remind-v06.02.10/src/expr.c, and results that are values.
use remind_rb.Base.{
  ℕ, suc, ◌≡◌, refl, ap, ◌∙◌, Bool, true, false, not, [], Option, none, some, arith, if◌then◌else◌,
}
use remind_rb.Errors.{Error, Result, ok, err, ◌>>=◌}
use remind_rb.Expr.{Chars, BinaryOp, Node, binary}
use remind_rb.Expr.Token.{Tokens}
use remind_rb.Expr.Parse.{Rule, operator, cases, Parser, peek, next, binary_loop}

-- A computation that ends well has run its first part well.
pub bind_ok :
    {A B : Type 0} (m : Result A) (f : A → Result B) (b : B)
    → (m >>= f) ≡ ok b
    → (a : A) × ((m ≡ ok a) × (f a ≡ ok b))
bind_ok (ok a) f b h = (a, (refl, h))
bind_ok (err e) f b h = absurd cc

-- The two ways on of a token that is looked for.
module _ {A B : Type 0} (m : Result Chars) (t : Chars) (look : Chars → Option A) (stop : Result B)
    (go : A → Result B) where
  pub finds_none : m ≡ ok t → look t ≡ none → (m >>= λ u. cases (look u) stop go) ≡ stop
  finds_none q e = ap (λ n. n >>= λ u. cases (look u) stop go) q ∙ ap (λ o. cases o stop go) e

  pub finds_some : (a : A) → m ≡ ok t → look t ≡ some a → (m >>= λ u. cases (look u) stop go) ≡ go a
  finds_some a q e = ap (λ n. n >>= λ u. cases (look u) stop go) q ∙ ap (λ o. cases o stop go) e

pub ok_injective : {A : Type 0} {a b : A} → Result.ok a ≡ ok b → a ≡ b
ok_injective {A} {a} h = ap (get a) h
  where
    get : A → Result A → A
    get d (ok x) = x
    get d (err e) = d

pub if_ok :
    {A : Type 0} (b : Bool) (x : Result A) (e : Error) (a : A)
    → (if b then x else err e) ≡ ok a
    → (b ≡ true) × (x ≡ ok a)
if_ok true x e a h = (refl, h)
if_ok false x e a h = absurd cc

pub unless_ok :
    {A : Type 0} (b : Bool) (x : Result A) (e : Error) (a : A)
    → (if not b then err e else x) ≡ ok a
    → (b ≡ true) × (x ≡ ok a)
unless_ok true x e a h = (refl, h)
unless_ok false x e a h = absurd cc

pub operator-nil : (r : Rule) → operator r [] ≡ none
operator-nil r = ground arith

module _ (rounds : ℕ) (r : Rule) (p : Parser) (node : Node) (ts : Tokens) (t : Chars)
    (q : peek ts ≡ ok t) where
  abbrev go : BinaryOp → Result (Node × Tokens)
  go op = p (next ts) >>= λ a. binary_loop rounds r p (binary op node a.0) a.1

  pub loop_ends : operator r t ≡ none → binary_loop (suc rounds) r p node ts ≡ ok (node, ts)
  unfolding binary_loop
  loop_ends e = finds_none (peek ts) t (operator r) (ok (node, ts)) go q e

  pub loop_goes :
      (op : BinaryOp)
      → operator r t ≡ some op
      → binary_loop (suc rounds) r p node ts
        ≡ (p (next ts) >>= λ a. binary_loop rounds r p (binary op node a.0) a.1)
  unfolding binary_loop
  loop_goes op e = finds_some (peek ts) t (operator r) (ok (node, ts)) go op q e
