-- ===== src/Expr/Operators/Order.antt =====
-- The comparison operators of remind-v06.02.10/src/expr.c as one order on the values of a type.
use remind_rb.Base.{
  ◌≡◌, refl, sym, Bool-cases, ◌∙◌, ◌↔◌, ◌⊎◌, inl, inr, Bool, true, false, not, ◌||◌, [], ◌∷◌, arith,
  ap,
}
use remind_rb.Base.Int.{eq_of_parts}
use remind_rb.Errors.{Result, ok}
use remind_rb.Expr.{Chars, Value, val, str, Kind, How, eq, lt, gt, le, ge, ne}
use remind_rb.Expr.Operators.{str_less, less, compare, same_type, same_kind, of_bool, satisfied}

str_less-is_asymmetric : (s t : Chars) → str_less s t ≡ true → str_less t s ≡ false
unfolding str_less
str_less-is_asymmetric s [] h = ground arith
str_less-is_asymmetric [] (d ∷ t) h = refl
str_less-is_asymmetric (c ∷ s) (d ∷ t) h = ground (arith, str_less-is_asymmetric s t)

str_less-is_transitive :
    (s t u : Chars) → str_less s t ≡ true → str_less t u ≡ true → str_less s u ≡ true
unfolding str_less
str_less-is_transitive s t [] h g = ground arith
str_less-is_transitive s [] (e ∷ u) h g = ground arith
str_less-is_transitive [] (d ∷ t) (e ∷ u) h g = refl
str_less-is_transitive (c ∷ s) (d ∷ t) (e ∷ u) h g = ground (arith, str_less-is_transitive s t u)

str_less-is_total : (s t : Chars) → str_less s t ≡ false → str_less t s ≡ false → s ≡ t
unfolding str_less
str_less-is_total [] [] h g = refl
str_less-is_total [] (d ∷ t) h g = ground arith
str_less-is_total (c ∷ s) [] h g = ground arith
str_less-is_total (c ∷ s) (d ∷ t) h g = ground (arith, str_less-is_total s t)

same_kind→eq : (j k : Kind) → same_kind j k ≡ true → j ≡ k
same_kind→eq j k h = ground arith

less-is_asymmetric : (v w : Value) → less v w ≡ true → less w v ≡ false
unfolding less
less-is_asymmetric (val j x) (val k y) h = ground arith
less-is_asymmetric (str s) (str t) h = str_less-is_asymmetric s t h
less-is_asymmetric (val j x) (str t) h = refl
less-is_asymmetric (str s) (val k y) h = refl

less-is_transitive : (u v w : Value) → less u v ≡ true → less v w ≡ true → less u w ≡ true
unfolding less
less-is_transitive (str s) (str t) (str u) h g = str_less-is_transitive s t u h g
less-is_transitive (val j x) (val k y) (val l z) h g = ground arith
less-is_transitive (val j x) (str t) w h g = ground arith
less-is_transitive (str s) (val k y) w h g = ground arith
less-is_transitive (val j x) (val k y) (str u) h g = ground arith
less-is_transitive (str s) (str t) (val l z) h g = ground arith

less-is_total : (v w : Value) → same_type v w ≡ true → less v w ≡ false → less w v ≡ false → v ≡ w
unfolding less
less-is_total (val j x) (val k y) e h g =
    let same : x ≡ y = eq_of_parts x y (ground arith) in ground (arith, same_kind→eq j k e)
less-is_total (str s) (str t) e h g = ap str (str_less-is_total s t h g)
less-is_total (val j x) (str t) e h g = ground arith
less-is_total (str s) (val k y) e h g = ground arith

-- The comparison is evaluated and gives 1.
abbrev pub Yes : How → Value → Value → Type 0
Yes how v w = compare how v w ≡ ok (of_bool true)

same_type-is_symmetric : (v w : Value) → same_type v w ≡ same_type w v
same_type-is_symmetric (val j x) (val k y) = ground arith
same_type-is_symmetric (val j x) (str t) = refl
same_type-is_symmetric (str s) (val k y) = refl
same_type-is_symmetric (str s) (str t) = refl

same_type-is_transitive :
    (u v w : Value) → same_type u v ≡ true → same_type v w ≡ true → same_type u w ≡ true
same_type-is_transitive (val i x) (val j y) (val k z) h g =
    rw (same_kind→eq i j h, same_kind→eq j k g) (ground arith)
same_type-is_transitive (str s) (str t) (str u) h g = refl
same_type-is_transitive (val i x) (str t) w h g = ground arith
same_type-is_transitive (str s) (val j y) w h g = ground arith
same_type-is_transitive (val i x) (val j y) (str u) h g = ground arith
same_type-is_transitive (str s) (str t) (val k z) h g = ground arith

compare-same_type :
    (how : How) (v w : Value)
    → same_type v w ≡ true
    → compare how v w ≡ ok (of_bool (satisfied how (less v w) (less w v)))
unfolding compare
compare-same_type how v w e = rw e refl

of_bool→true : (b : Bool) → (Result.ok (of_bool b) ≡ ok (of_bool true)) ↔ (b ≡ true)
of_bool→true b = ground arith

Yes-iff :
    (how : How) (v w : Value)
    → same_type v w ≡ true
    → Yes how v w ↔ (satisfied how (less v w) (less w v) ≡ true)
Yes-iff how v w e = rw (compare-same_type how v w e) (of_bool→true _)

eq_iff : (v w : Value) → same_type v w ≡ true → Yes eq v w ↔ (v ≡ w)
eq_iff v w e =
    let q = Yes-iff eq v w e in
    (
      λ h. less-is_total v w e (ground (arith, q.0 h)) (ground (arith, q.0 h)),
      λ h. q.1 (rw h (ground (arith, less-is_asymmetric w w))),
    )

not_iff : {A B : Type 0} (b : Bool) → A ↔ (not b ≡ true) → B ↔ (b ≡ true) → A ↔ ¬ B
not_iff b p q = (
  λ x y. ground (arith, p.0 x, q.0 y),
  λ n. p.1 (elim (Bool-cases b) [ inl t ↦ absurd (n (q.1 t)) | inr f ↦ rw f refl ]),
)

double_not : (b : Bool) → not (not b) ≡ b
double_not b = ground arith

-- On values of one type the six comparisons are those of one total order. `<` is transitive, `==`
-- holds only of equal values, of `<`, `==` and `>` one holds, `>` is `<` with its operands swapped,
-- `>=` is `<=` swapped, and `<=`, `!=` are what `>`, `==` are not.
pub compare-is_total_order :
    (u v w : Value)
    → same_type u v ≡ true
    → same_type v w ≡ true
    → (Yes lt u v → Yes lt v w → Yes lt u w)
      × (Yes eq u v ↔ (u ≡ v))
      × (Yes lt u v ⊎ (Yes eq u v ⊎ Yes gt u v))
      × (compare gt u v ≡ compare lt v u)
      × (compare ge u v ≡ compare le v u)
      × (Yes le u v ↔ ¬ Yes gt u v)
      × (Yes ne u v ↔ ¬ Yes eq u v)
compare-is_total_order u v w e g =
    let below = Yes-iff lt u v e in
    let above = Yes-iff gt u v e in
    let same = Yes-iff eq u v e in
    let back : same_type v u ≡ true = sym (same_type-is_symmetric u v) ∙ e in
    (
      λ h k.
          (Yes-iff lt u w (same_type-is_transitive u v w e g)).1
            (less-is_transitive u v w (below.0 h) ((Yes-iff lt v w g).0 k)),
      eq_iff u v e,
      ground (arith, below.1, above.1, same.1),
      compare-same_type gt u v e ∙ sym (compare-same_type lt v u back),
      compare-same_type ge u v e ∙ sym (compare-same_type le v u back),
      not_iff (less v u) (Yes-iff le u v e) above,
      not_iff (not (less u v || less v u))
          (rw (double_not (less u v || less v u)) (Yes-iff ne u v e)) same,
    )
