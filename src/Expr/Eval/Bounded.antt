-- ===== src/Expr/Eval/Bounded.antt =====
-- The counts of evaluated nodes of remind-v06.02.10/src/expr.c, through the operations of Expr/Comp.
use remind_rb.Base.{
  ℕ, zero, suc, ◌+◌, ◌≤◌, ◌<◌, ◌≡◌, Bool, Bool-cases, inl, inr, true, false, Option, none, some,
  ltb, leb, arith, if◌then◌else◌, ◌&&◌,
}
use remind_rb.Errors.{Result, ok, err, is_code}
use remind_rb.Expr.Comp.{
  then_run, or_run, State, Comp, Limits, ret, fail, ◌>>-◌, flagged, marked, catching, count_node,
  timed, gated,
}
use remind_rb.Expr.Eval.Related.{Relation, Closed}

-- From one state to a later one: the counts grow together, the count of the line stays within a
-- limit that is set, and the largest count of a line stays at least the count of this line.
abbrev pub Counts : Limits → State → State → Type 0
Counts lim s t =
    (s.this_line ≤ t.this_line)
    × (t.evaluated + s.this_line ≡ s.evaluated + t.this_line)
    × (0 < lim.node_limit → s.this_line ≤ lim.node_limit → t.this_line ≤ lim.node_limit)
    × (s.this_line ≤ s.most → t.this_line ≤ t.most)

abbrev pub Holds : {A : Type 0} → (A → Type 0) → Result A → Type 0
Holds P (ok a) = P a
Holds P (err e) = Unit

pub record EndsWithin {A : Type 0} (lim : Limits) (P : A → Type 0) (s : State)
    (r : Result A × State) : Type 0 where
  pub good : Holds P r.0
  pub counts : Counts lim s r.1

-- The second computation takes no part.
abbrev pub Bounded : Limits → Relation
Bounded lim A w P m n = (s : State) → EndsWithin lim P s (m s)

pub Counts-trans : (lim : Limits) (s t u : State) → Counts lim s t → Counts lim t u → Counts lim s u
Counts-trans lim s t u p q = ground arith

pub after :
    {A : Type 0} {P : A → Type 0} (lim : Limits) (s t : State) (r : Result A × State)
    → Counts lim s t
    → EndsWithin lim P t r
    → EndsWithin lim P s r
after lim s t r c o = record { good = o.good; counts = Counts-trans lim s t r.1 c o.counts }

pub then_run-EndsWithin :
    {A B : Type 0} {P : A → Type 0} {Q : B → Type 0} {f : A → Comp B} (lim : Limits) (s : State)
    (r : Result A × State)
    → EndsWithin lim P s r
    → ((a : A) → P a → (t : State) → EndsWithin lim Q t (f a t))
    → EndsWithin lim Q s (then_run f r)
then_run-EndsWithin lim s (ok a, t) h k = after lim s t _ h.counts (k a h.good t)
then_run-EndsWithin lim s (err e, t) h k = record { good = tt; counts = h.counts }

pub or_run-EndsWithin :
    {A : Type 0} {P : A → Type 0} {h : Comp A} (lim : Limits) (s : State) (r : Result A × State)
    → EndsWithin lim P s r
    → ((t : State) → EndsWithin lim P t (h t))
    → EndsWithin lim P s (or_run h r)
or_run-EndsWithin lim s (ok a, t) h k = h
or_run-EndsWithin {h = h} lim s (err e, t) p k = elim (Bool-cases (is_code e)) [
  | inl q ↦ rw q (after lim s t _ p.counts (k t))
  | inr q ↦ rw q p
]

-- The state in which a node is evaluated.
abbrev counted : State → State
counted s =
    let n = s.this_line + 1 in
    record s {
      evaluated = s.evaluated + 1;
      this_line = n;
      most = if ltb s.most n then n else s.most;
    }

pub counted-Counts :
    (lim : Limits) (s : State)
    → (ltb 0 lim.node_limit && leb lim.node_limit s.this_line) ≡ false
    → Counts lim s (counted s)
counted-Counts lim s h = ground arith

pub count_node-EndsWithin :
    {A : Type 0} {P : A → Type 0} {m : Comp A} (lim : Limits) (s : State)
    → ((t : State) → EndsWithin lim P t (m t))
    → EndsWithin lim P s (count_node lim m s)
unfolding count_node
count_node-EndsWithin lim s h =
    elim (Bool-cases (ltb 0 lim.node_limit && leb lim.node_limit s.this_line)) [
      | inl q ↦ rw q (record { good = tt; counts = omega arith })
      | inr q ↦ rw q (after lim s (counted s) _ (counted-Counts lim s q) (h (counted s)))
    ]

pub timed-EndsWithin :
    {A : Type 0} {P : A → Type 0} {m : Comp A} (lim : Limits) (a : Option ℕ) (s : State)
    → ((t : State) → EndsWithin lim P t (m t))
    → EndsWithin lim P s (timed lim m a s)
timed-EndsWithin lim none s h = count_node-EndsWithin lim s h
timed-EndsWithin lim (some zero) s h = record { good = tt; counts = omega arith }
timed-EndsWithin lim (some (suc n)) s h =
    let t = record s { alarm = some n } in
    after lim s t _ (omega arith) (count_node-EndsWithin lim t h)

pub if-EndsWithin :
    {A : Type 0} {P : A → Type 0} (lim : Limits) (s : State) (test : Bool) (p q : Result A × State)
    → EndsWithin lim P s p
    → EndsWithin lim P s q
    → EndsWithin lim P s (if test then p else q)
if-EndsWithin lim s true p q h k = h
if-EndsWithin lim s false p q h k = k

pub gated-EndsWithin :
    {A : Type 0} {P : A → Type 0} {m : Comp A} (lim : Limits) (s : State)
    → ((t : State) → EndsWithin lim P t (m t))
    → EndsWithin lim P s (gated lim m s)
unfolding gated
gated-EndsWithin lim s h =
    if-EndsWithin lim s lim.disabled _ _ (record { good = tt; counts = omega arith })
      (timed-EndsWithin lim s.alarm s h)

pub flagged-Counts : (lim : Limits) (test : Bool) (s : State) → Counts lim s (flagged test s)
flagged-Counts lim false s = omega arith
flagged-Counts lim true s = omega arith

pub Bounded-Closed : (lim : Limits) → Closed lim (Bounded lim)
unfolding ret fail ◌>>-◌ marked catching
Bounded-Closed lim = record {
  rets = λ w a p s. record { good = p; counts = omega arith };
  fails = λ w e s. record { good = tt; counts = omega arith };
  binds = λ w h k s. then_run-EndsWithin lim s _ (h s) (λ a p t. k a p t);
  marks = λ w test h s. after lim s _ _ (flagged-Counts lim test s) (h (flagged test s));
  catches = λ w h k s. or_run-EndsWithin lim s _ (h s) k;
  gates = λ w h s. gated-EndsWithin lim s h;
}
