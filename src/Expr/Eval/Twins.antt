-- ===== src/Expr/Eval/Twins.antt =====
-- Two runs of the evaluation of remind-v06.02.10/src/expr.c that differ only once both have set the
-- flag `nonconst`.
use remind_rb.Base.{
  ℕ, zero, suc, ◌≡◌, refl, inl, inr, Bool, Bool-cases, true, false, ◌||◌, ◌&&◌, Option, none, some,
  ltb, leb, subst,
}
use remind_rb.Errors.{Result, ok, err, is_code}
use remind_rb.Expr.Comp.{
  then_run, or_run, State, Comp, Limits, ret, fail, ◌>>-◌, flagged, marked, catching, count_node,
  timed, gated,
}
use remind_rb.Expr.Eval.Related.{Closed}
use remind_rb.Expr.Eval.Bounded.{Holds}

-- The predicate holds of a value that comes out, and the flag stays 1 if it is 1.
pub record Kept {A : Type 0} (P : A → Type 0) (s : State) (r : Result A × State) : Type 0 where
  pub good : Holds P r.0
  pub stays : s.nonconst ≡ true → r.1.nonconst ≡ true

abbrev pub Keeps : {A : Type 0} → (A → Type 0) → Comp A → Type 0
Keeps P m = (s : State) → Kept P s (m s)

-- Two outcomes are the same, or both have the flag.
pub data Alike {A : Type 0} (r q : Result A × State) : Type 0 where
  same : r ≡ q → Alike r q
  both : r.1.nonconst ≡ true → q.1.nonconst ≡ true → Alike r q

pub record Twins {A : Type 0} (w : Bool) (P : A → Type 0) (m n : Comp A) : Type 0 where
  pub left : Keeps P m
  pub right : Keeps P n
  pub alike : (s : State) → (w ≡ true → s.nonconst ≡ true) → Alike (m s) (n s)

module _ {A : Type 0} {P : A → Type 0} where
  pub after :
      (s t : State) (r : Result A × State)
      → (s.nonconst ≡ true → t.nonconst ≡ true)
      → Kept P t r
      → Kept P s r
  after s t r h k = record { good = k.good; stays = λ q. k.stays (h q) }

  or_run-Kept :
      {h : Comp A} (s : State) (r : Result A × State)
      → Kept P s r
      → Keeps P h
      → Kept P s (or_run h r)
  or_run-Kept s (ok a, t) p k = p
  or_run-Kept {h} s (err e, t) p k = elim (Bool-cases (is_code e)) [
    | inl q ↦ rw q (after s t _ p.stays (k t))
    | inr q ↦ rw q p
  ]

  count_node-Kept :
      {m : Comp A} (lim : Limits) (s : State) → Keeps P m → Kept P s (count_node lim m s)
  unfolding count_node
  count_node-Kept lim s h =
      elim (Bool-cases (ltb 0 lim.node_limit && leb lim.node_limit s.this_line)) [
        | inl q ↦ rw q (record { good = tt; stays = λ h. h })
        | inr q ↦ rw q (after s _ _ (λ h. h) (h _))
      ]

  timed-Kept :
      {m : Comp A} (lim : Limits) (a : Option ℕ) (s : State)
      → Keeps P m
      → Kept P s (timed lim m a s)
  timed-Kept lim none s h = count_node-Kept lim s h
  timed-Kept lim (some zero) s h = record { good = tt; stays = λ h. h }
  timed-Kept lim (some (suc n)) s h =
      after s _ _ (λ h. h) (count_node-Kept lim (record s { alarm = some n }) h)

  gated-Kept : {m : Comp A} (lim : Limits) (s : State) → Keeps P m → Kept P s (gated lim m s)
  unfolding gated
  gated-Kept lim s h = elim (Bool-cases lim.disabled) [
    | inl q ↦ rw q (record { good = tt; stays = λ h. h })
    | inr q ↦ rw q (timed-Kept lim s.alarm s h)
  ]

then_run-Kept :
    {A B : Type 0} {P : A → Type 0} {Q : B → Type 0} {f : A → Comp B} (s : State)
    (r : Result A × State)
    → Kept P s r
    → ((a : A) → P a → Keeps Q (f a))
    → Kept Q s (then_run f r)
then_run-Kept s (ok a, t) h k = after s t _ h.stays (k a h.good t)
then_run-Kept s (err e, t) h k = record { good = tt; stays = h.stays }

pub flagged-stays : (test : Bool) (s : State) → s.nonconst ≡ true → (flagged test s).nonconst ≡ true
flagged-stays true s h = refl
flagged-stays false s h = h

module _ {A B : Type 0} {P : A → Type 0} {Q : B → Type 0} {f g : A → Comp B} (w : Bool)
    (k : (a : A) → P a → Twins w Q (f a) (g a)) where
  then_same :
      (r : Result A × State)
      → Holds P r.0
      → (w ≡ true → r.1.nonconst ≡ true)
      → Alike (then_run f r) (then_run g r)
  then_same (ok a, t) h q = (k a h).alike t q
  then_same (err e, t) h q = same refl

  then_run-Alike :
      (r q : Result A × State)
      → Alike r q
      → Holds P r.0
      → Holds P q.0
      → (w ≡ true → r.1.nonconst ≡ true)
      → Alike (then_run f r) (then_run g q)
  then_run-Alike r q (same e) h i v =
      subst (λ z. Alike (then_run f r) (then_run g z)) e (then_same r h v)
  then_run-Alike r q (both a b) h i v =
      both
        ((then_run-Kept r.1 r (record { good = h; stays = λ z. z }) (λ x p. (k x p).left)).stays a)
        ((then_run-Kept q.1 q (record { good = i; stays = λ z. z }) (λ x p. (k x p).right)).stays b)

module _ {A : Type 0} {P : A → Type 0} {h k : Comp A} (w : Bool) (tw : Twins w P h k) where
  or_same :
      (r : Result A × State) → (w ≡ true → r.1.nonconst ≡ true) → Alike (or_run h r) (or_run k r)
  or_same (ok a, t) v = same refl
  or_same (err e, t) v = elim (Bool-cases (is_code e)) [
    | inl q ↦ rw q (tw.alike t v)
    | inr q ↦ rw q (same refl)
  ]

  or_run-Alike :
      (r q : Result A × State)
      → Alike r q
      → Holds P r.0
      → Holds P q.0
      → (w ≡ true → r.1.nonconst ≡ true)
      → Alike (or_run h r) (or_run k q)
  or_run-Alike r q (same e) x y v = subst (λ z. Alike (or_run h r) (or_run k z)) e (or_same r v)
  or_run-Alike r q (both a b) x y v =
      both ((or_run-Kept r.1 r (record { good = x; stays = λ z. z }) tw.left).stays a)
        ((or_run-Kept q.1 q (record { good = y; stays = λ z. z }) tw.right).stays b)

  count_node-Alike :
      (lim : Limits) (s : State)
      → (w ≡ true → s.nonconst ≡ true)
      → Alike (count_node lim h s) (count_node lim k s)
  unfolding count_node
  count_node-Alike lim s v =
      elim (Bool-cases (ltb 0 lim.node_limit && leb lim.node_limit s.this_line)) [
        | inl q ↦ rw q (same refl)
        | inr q ↦ rw q (tw.alike _ v)
      ]

  timed-Alike :
      (lim : Limits) (a : Option ℕ) (s : State)
      → (w ≡ true → s.nonconst ≡ true)
      → Alike (timed lim h a s) (timed lim k a s)
  timed-Alike lim none s v = count_node-Alike lim s v
  timed-Alike lim (some zero) s v = same refl
  timed-Alike lim (some (suc n)) s v = count_node-Alike lim (record s { alarm = some n }) v

  gated-Alike :
      (lim : Limits) (s : State)
      → (w ≡ true → s.nonconst ≡ true)
      → Alike (gated lim h s) (gated lim k s)
  unfolding gated
  gated-Alike lim s v = elim (Bool-cases lim.disabled) [
    | inl q ↦ rw q (same refl)
    | inr q ↦ rw q (timed-Alike lim s.alarm s v)
  ]

pub twins : {A : Type 0} {P : A → Type 0} (w : Bool) (m : Comp A) → Keeps P m → Twins w P m m
twins w m h = record { left = h; right = h; alike = λ s v. same refl }

flagged-known :
    (w test : Bool) (s : State)
    → (w ≡ true → s.nonconst ≡ true)
    → (w || test) ≡ true
    → (flagged test s).nonconst ≡ true
flagged-known w true s h q = refl
flagged-known true false s h q = h refl
flagged-known false false s h q = absurd cc

pub Twins-Closed : (lim : Limits) → Closed lim (λ A w P m n. Twins w P m n)
unfolding ret fail ◌>>-◌ marked catching
Twins-Closed lim = record {
  rets = λ w a p. twins w _ (λ s. record { good = p; stays = λ h. h });
  fails = λ w e. twins w _ (λ s. record { good = tt; stays = λ h. h });
  binds = λ w h k. record {
    left = λ s. then_run-Kept s _ (h.left s) (λ a p. (k a p).left);
    right = λ s. then_run-Kept s _ (h.right s) (λ a p. (k a p).right);
    alike = λ s v.
        then_run-Alike w k _ _ (h.alike s v) (h.left s).good (h.right s).good
          (λ q. (h.left s).stays (v q));
  };
  marks = λ w test h. record {
    left = λ s. after s _ _ (flagged-stays test s) (h.left (flagged test s));
    right = λ s. after s _ _ (flagged-stays test s) (h.right (flagged test s));
    alike = λ s v. h.alike (flagged test s) (flagged-known w test s v);
  };
  catches = λ w h k. record {
    left = λ s. or_run-Kept s _ (h.left s) k.left;
    right = λ s. or_run-Kept s _ (h.right s) k.right;
    alike = λ s v.
        or_run-Alike w k _ _ (h.alike s v) (h.left s).good (h.right s).good
          (λ q. (h.left s).stays (v q));
  };
  gates = λ w h. record {
    left = λ s. gated-Kept lim s h.left;
    right = λ s. gated-Kept lim s h.right;
    alike = λ s v. gated-Alike w h lim s v;
  };
}
