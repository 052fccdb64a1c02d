-- ===== src/Trigger/Compute/Answer.antt =====
-- ComputeTrigger of remind-v06.02.10/src/trigger.c for triggers with no BACK, no REP and no BEFORE
-- or AFTER: the first day from today on that the trigger names and that is not omitted.
use remind_rb.Base.{
  ℕ, zero, suc, ◌+◌, ◌≤◌, ◌≡◌, refl, ◌∙◌, ap, ◌⊎◌, inl, inr, Bool, true, false, not, ◌||◌, none,
  arith, dec_lt,
}
use Prim.Native.Nat.{bit_or}
use remind_rb.Base.Int.{ℤ, pos, negsuc, ◌+ℤ◌}
use remind_rb.Errors.{Result, ok, err, ◌>>=◌, Error, e_bad_date, e_cant_trig}
use remind_rb.Trigger.{Trigger, TimeTrig, Skip, no_skip, skip_skip}
use remind_rb.Trigger.Simple.Spec.{First}
use remind_rb.Trigger.Next.{Setting, Attempt, at_date, get_next_trigger_date}
use remind_rb.Trigger.Compute.Plain.{
  IsPlain, IsWithin, NamedBy, Wanted, Step, no_more, candidate, impossible, get_next-Step,
}
use remind_rb.Trigger.Compute.{
  Outcome, expired_, due, attempts, judge, turn, compute_trigger_no_adjust_duration, trig_attempts,
  duration_without_at, is_skip_skip, is_no_skip, omit_of, is_simple,
}

-- The right outcome: the first day from `today` on that is wanted, or none is left.
abbrev pub Right : Setting → Trigger → ℕ → Outcome → Type 0
Right s t today (due (pos k)) = First (Wanted s t) today k
Right s t today (due (negsuc k)) = ⊥
Right s t today (expired_ last) = (k : ℕ) → today ≤ k → ¬ Wanted s t k

judge-due :
    (t : Trigger) (today start j : ℕ) (omit : Bool) (again : ℕ → Result Outcome)
    → today ≤ j
    → (not (is_skip_skip t.skip) || not omit) ≡ true
    → judge t today 0 start (pos j) (j + 1) omit again ≡ ok (due (pos j))
unfolding judge ◌+ℤ◌
judge-due t today start j omit again h e = ground arith

judge-again :
    (t : Trigger) (today start j : ℕ) (again : ℕ → Result Outcome)
    → start ≤ j
    → t.skip ≡ skip_skip
    → judge t today 0 start (pos j) (j + 1) true again ≡ again (j + 1)
unfolding judge is_skip_skip is_no_skip is_simple
judge-again t today start j again h e = ground (arith, ap is_skip_skip e, ap is_no_skip e)

ok_inj : (x y : Outcome) → ◌≡◌ {A = Result Outcome} (ok x) (ok y) → x ≡ y
ok_inj x y e = ground arith

omit_cases : (r : Result Bool) → (r ≡ ok false) ⊎ ((r ≡ ok true) ⊎ ((e : Error) × (r ≡ err e)))
omit_cases (ok false) = inl refl
omit_cases (ok true) = inr (inl refl)
omit_cases (err e) = inr (inr (e, refl))

no_skip_lem : (k : Skip) → k ≡ no_skip → ¬ (k ≡ skip_skip)
no_skip_lem k e f = ground (arith, e, f)

omit_of-no_skip : (s : Setting) (t : Trigger) (r : ℤ) → t.skip ≡ no_skip → omit_of s t r ≡ ok false
unfolding omit_of is_skip_skip
omit_of-no_skip s t r e = ground (arith, ap is_skip_skip e)

omit_of-skip :
    (s : Setting) (t : Trigger) (r : ℤ) → t.skip ≡ skip_skip → omit_of s t r ≡ s.omitted r
unfolding omit_of is_skip_skip
omit_of-skip s t r e = ground (arith, ap is_skip_skip e)

module _ (s : Setting) (t : Trigger) (today start : ℕ) (again : ℕ → Result Outcome) (j : ℕ) where
  abbrev at_j : Result Outcome
  at_j = turn s t today 0 start again (at_date (pos j) (j + 1))

  turn-kept : today ≤ j → omit_of s t (pos j) ≡ ok false → at_j ≡ ok (due (pos j))
  unfolding turn
  turn-kept h e =
      rw e (judge-due t today start j false again h (or_true (not (is_skip_skip t.skip))))
    where
      or_true : (b : Bool) → (b || true) ≡ true
      or_true true = refl
      or_true false = refl

  turn-omitted :
      start ≤ j → t.skip ≡ skip_skip → omit_of s t (pos j) ≡ ok true → at_j ≡ again (j + 1)
  unfolding turn
  turn-omitted h k e = rw e (judge-again t today start j again h k)

  turn-fails : (x : Error) → omit_of s t (pos j) ≡ err x → at_j ≡ err x
  unfolding turn
  turn-fails x e = rw e refl

-- All wanted days from `today` on are still to come.
abbrev Pending : Setting → Trigger → ℕ → ℕ → Type 0
Pending s t today start = (k : ℕ) → today ≤ k → Wanted s t k → start ≤ k

module _ (s : Setting) (t : Trigger) (p : IsPlain t) (today start : ℕ) (le : today ≤ start)
    (pending : Pending s t today start) where
  First-Wanted :
      (j : ℕ)
      → First (NamedBy t) start j
      → IsWithin t.until j
      → (t.skip ≡ skip_skip → s.omitted (pos j) ≡ ok false)
      → First (Wanted s t) today j
  First-Wanted j f w q = record {
    from = omega (arith, f.from);
    holds = (f.holds, w, q);
    least = λ k h x. f.least k (pending k h x) x.0;
  }

  Pending-next :
      (j : ℕ)
      → First (NamedBy t) start j
      → t.skip ≡ skip_skip
      → s.omitted (pos j) ≡ ok true
      → Pending s t today (j + 1)
  Pending-next j f e o k h x = elim (dec_lt j k) [
    | yes lt ↦ omega arith
    | no ge ↦
        let same : k ≡ j = omega (arith, f.least k (pending k h x) x.0) in
        absurd (let q : s.omitted (pos j) ≡ ok false = rw same at (x.2 e) in clash o q)
  ]
    where
      clash : {r : Result Bool} → r ≡ ok true → r ≡ ok false → ⊥
      clash u v = ground (arith, u, v)

  -- What one turn does: it ends with the right outcome, or goes on behind an omitted day, or fails.
  data Turned (again : ℕ → Result Outcome) : Result Outcome → Type 0 where
    done : (o : Outcome) → Right s t today o → Turned again (ok o)
    further :
        (j : ℕ)
        → start ≤ j
        → First (NamedBy t) start j
        → Pending s t today (j + 1)
        → Turned again (again (j + 1))
    fails :
        (e : Error)
        → (e ≡ e_bad_date × ((k : ℕ) → ¬ Wanted s t k)) ⊎ ((j : ℕ) × (s.omitted (pos j) ≡ err e))
        → Turned again (err e)

  turn-Turned :
      (again : ℕ → Result Outcome) (a : Result Attempt)
      → Step s t start a
      → Turned again (a >>= turn s t today 0 start again)
  unfolding turn
  turn-Turned again a (no_more none_) =
      done (expired_ none) (λ k h x. none_ k (pending k h x) x.0 x.1)
  turn-Turned again a (impossible none_) = fails e_bad_date (inl (refl, λ k x. none_ k x.0))
  turn-Turned again a (candidate j f w) =
      let le_j : today ≤ j = omega (arith, f.from) in
      elim p.skips [
        | inl e ↦
            rw (turn-kept s t today start again j le_j (omit_of-no_skip s t (pos j) e))
              (done (due (pos j)) (First-Wanted j f w (λ q. absurd (no_skip_lem t.skip e q))))
        | inr e ↦ elim (omit_cases (s.omitted (pos j))) [
          | inl q ↦
              rw (turn-kept s t today start again j le_j (omit_of-skip s t (pos j) e ∙ q))
                (done (due (pos j)) (First-Wanted j f w (λ _. q)))
          | inr (inl q) ↦
              rw (turn-omitted s t today start again j f.from e (omit_of-skip s t (pos j) e ∙ q))
                (further j f.from f (Pending-next j f e q))
          | inr (inr (x, q)) ↦
              rw (turn-fails s t today start again j x (omit_of-skip s t (pos j) e ∙ q))
                (fails x (inr (j, q)))
        ]
      ]

-- What the attempts come to; `bound` is a day before which no wanted day can hide.
pub data Computed (s : Setting) (t : Trigger) (today bound : ℕ) : Result Outcome → Type 0 where
  answered : (o : Outcome) → Right s t today o → Computed s t today bound (ok o)
  no_date : ((k : ℕ) → ¬ Wanted s t k) → Computed s t today bound (err e_bad_date)
  omit_failed : (e : Error) (j : ℕ) → s.omitted (pos j) ≡ err e → Computed s t today bound (err e)
  gave_up :
      ((k : ℕ) → today ≤ k → Wanted s t k → bound ≤ k) → Computed s t today bound (err e_cant_trig)

later_bound :
    (s : Setting) (t : Trigger) (today b c : ℕ) (r : Result Outcome)
    → b ≤ c
    → Computed s t today c r
    → Computed s t today b r
later_bound s t today b c r h (answered o x) = answered o x
later_bound s t today b c r h (no_date x) = no_date x
later_bound s t today b c r h (omit_failed e j x) = omit_failed e j x
later_bound s t today b c r h (gave_up x) = gave_up (λ k lo w. omega (arith, x k lo w))

Turned-Computed :
    (s : Setting) (t : Trigger) (p : IsPlain t) (today start : ℕ) (le : today ≤ start)
    (pending : Pending s t today start) (n : ℕ) (again : ℕ → Result Outcome)
    → ((next : ℕ)
        → today ≤ next
        → Pending s t today next
        → Computed s t today (next + n) (again next))
    → {r : Result Outcome} → Turned s t p today start le pending again r
    → Computed s t today (start + suc n) r
Turned-Computed s t p today start le pending n again ih (done o x) = answered o x
Turned-Computed s t p today start le pending n again ih (further j h f q) =
    later_bound s t today (start + suc n) (j + 1 + n) (again (j + 1)) (omega arith)
      (ih (j + 1) (omega arith) q)
Turned-Computed s t p today start le pending n again ih (fails e (inl (q, x))) = rw q (no_date x)
Turned-Computed s t p today start le pending n again ih (fails e (inr (j, x))) = omit_failed e j x

attempts-Computed :
    (n : ℕ) (s : Setting) (t : Trigger)
    → IsPlain t
    → (today start : ℕ) → today ≤ start
    → Pending s t today start
    → Computed s t today (start + n) (attempts n s t today 0 start)
unfolding attempts
attempts-Computed zero s t p today start le pending =
    gave_up (λ k h w. omega (arith, pending k h w))
attempts-Computed (suc n) s t p today start le pending =
    let again = λ (next : ℕ). attempts n s t today 0 next in
    let ih = λ (next : ℕ). attempts-Computed n s t p today next in
    Turned-Computed s t p today start le pending n again ih (
      turn-Turned s t p today start le pending again (get_next_trigger_date s t start)
        (get_next-Step s t start p))

-- For a trigger with no BACK, no REP and no TODO, with no SKIP or a plain one, and with some of day,
-- month, year and weekday left open, but not with a day, a year, a weekday and no month, the
-- computation returns the first day from today on that is named, not after the UNTIL and, with SKIP,
-- not omitted; or -1 just when no such day is left. It fails only if the calendar has no such day, if
-- IsOmitted fails for a day, or if all such days lie 500 days or more from today on. The parts are in
-- range, the local and global weekdays do not omit all days, a duration has a time, and today counts
-- alone.
pub compute_trigger-Computed :
    (s : Setting) (weekday_omits : ℕ) (t : Trigger) (tim : TimeTrig) (today : ℕ)
    → IsPlain t
    → ¬ (bit_or weekday_omits t.localomit ≡ 127)
    → duration_without_at tim ≡ false
    → Computed s t today
        (today + trig_attempts)
        (compute_trigger_no_adjust_duration s weekday_omits t tim today 0)
unfolding compute_trigger_no_adjust_duration
compute_trigger-Computed s weekday_omits t tim today p some_day timed =
    rw (guards) (attempts-Computed trig_attempts s t p today today (omega arith) (λ k h w. h))
  where
    guards :
        compute_trigger_no_adjust_duration s weekday_omits t tim today 0
        ≡ attempts trig_attempts s t today 0 today
    guards = ground (arith, some_day, timed, p.no_rep)
