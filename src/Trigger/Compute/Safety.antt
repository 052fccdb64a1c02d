-- ===== src/Trigger/Compute/Safety.antt =====
-- ComputeTrigger of remind-v06.02.10/src/trigger.c never gives a date in the past, whatever BACK, REP,
-- SKIP, UNTIL and the durations are.
use remind_rb.Base.{
  ℕ, zero, suc, Option, some, ◌-◌, ◌≡◌, refl, ◌⊎◌, inl, inr, Bool, true, false, not, ◌&&◌, arith,
  ◌==◌, if◌then◌else◌, ◌∙◌, sym,
}
use remind_rb.Base.Int.{ℤ, pos, negsuc, ◌+ℤ◌, ltb_ℤ}
use remind_rb.Errors.{Result, ok, err, ◌>>=◌}
use remind_rb.Trigger.{Trigger, TimeTrig}
use remind_rb.Trigger.Next.{Setting, Attempt, over, at_date, get_next_trigger_date}
use remind_rb.Trigger.Compute.{
  Outcome, expired_, due, turn, judge, attempts, omit_of, compute_trigger_no_adjust_duration,
  compute_trigger, adjust_trigger_for_duration, date_of, is_today, cut_duration, with_event,
  set_expired, trig_attempts,
}

-- The date, with its duration, is not before today.
abbrev pub Reaches : ℕ → ℕ → ℤ → Type 0
Reaches today days r = ltb_ℤ (r +ℤ pos days) (pos today) ≡ false

due_inj : (a b : ℤ) → ◌≡◌ {A = Result Outcome} (ok (due a)) (ok (due b)) → a ≡ b
due_inj a b e = ground (arith, e)

expired_due : (a : Option ℤ) (b : ℤ) → ◌≡◌ {A = Result Outcome} (ok (expired_ a)) (ok (due b)) → ⊥
expired_due a b e = ground (arith, e)

-- The exits of a turn.
exits :
    {C : Type 0} (l m p q : Bool) (result r : ℤ) (x : Result Outcome)
    → (x ≡ ok (due r) → C)
    → (l ≡ false → result ≡ r → C)
    → (if not l && m
        then ok (due result)
        else if p
        then ok (expired_ (some result))
        else if q
        then ok (expired_ (some result))
        else x)
      ≡ ok (due r)
    → C
exits false true p q result r x f g e = g refl (due_inj result r e)
exits false false true q result r x f g e = absurd (expired_due _ r e)
exits true m true q result r x f g e = absurd (expired_due _ r e)
exits false false false true result r x f g e = absurd (expired_due _ r e)
exits true m false true result r x f g e = absurd (expired_due _ r e)
exits false false false false result r x f g e = f e
exits true m false false result r x f g e = f e

module _ (s : Setting) (t : Trigger) (today days : ℕ) where
  judge_due :
      (start : ℕ) (result : ℤ) (nextstart : ℕ) (omit : Bool) (again : ℕ → Result Outcome) (r : ℤ)
      → ((next : ℕ) → again next ≡ ok (due r) → Reaches today days r)
      → judge t today days start result nextstart omit again ≡ ok (due r)
      → Reaches today days r
  unfolding judge
  judge_due start result nextstart omit again r ih e =
      exits _ _ _ _ result r _ (ih _) (λ q same. rw (← same) q) e

  turn_due :
      (start : ℕ) (again : ℕ → Result Outcome) (a : Result Attempt) (r : ℤ)
      → ((next : ℕ) → again next ≡ ok (due r) → Reaches today days r)
      → (a >>= turn s t today days start again) ≡ ok (due r)
      → Reaches today days r
  unfolding turn
  turn_due start again (err x) r ih e = absurd (let f : ⊥ = ground (arith, e) in f)
  turn_due start again (ok over) r ih e = absurd (let f : ⊥ = ground (arith, e) in f)
  turn_due start again (ok (at_date result nextstart)) r ih e = inside (omit_of s t result) e
    where
      inside :
          (o : Result Bool)
          → (o >>= (λ omit. judge t today days start result nextstart omit again)) ≡ ok (due r)
          → Reaches today days r
      inside (err x) q = absurd (let f : ⊥ = ground (arith, q) in f)
      inside (ok omit) q = judge_due start result nextstart omit again r ih q

  attempts_due :
      (n start : ℕ) (r : ℤ) → attempts n s t today days start ≡ ok (due r) → Reaches today days r
  unfolding attempts
  attempts_due zero start r e = absurd (let f : ⊥ = ground (arith, e) in f)
  attempts_due (suc n) start r e =
      turn_due start (λ next. attempts n s t today days next) (get_next_trigger_date s t start) r
        (λ next q. attempts_due n next r q) e

  compute_due :
      (weekday_omits : ℕ) (tim : TimeTrig) (r : ℤ)
      → compute_trigger_no_adjust_duration s weekday_omits t tim today days ≡ ok (due r)
      → Reaches today days r
  unfolding compute_trigger_no_adjust_duration
  compute_due w tim r e = ground (arith, attempts_due trig_attempts (today - days) r)

abbrev pub Answer : Type 0
Answer = ℤ × Trigger × TimeTrig

abbrev pub NotPast : ℕ → ℤ → Type 0
NotPast today r = (r ≡ negsuc 0) ⊎ (ltb_ℤ r (pos today) ≡ false)

answer_inj : (a b : Answer) → ◌≡◌ {A = Result Answer} (ok a) (ok b) → a.0 ≡ b.0
answer_inj a b e = ground (arith, e)

today_not_past : (today : ℕ) → ltb_ℤ (pos today) (pos today) ≡ false
today_not_past today = ground arith

Reaches-now : (today : ℕ) (r : ℤ) → Reaches today 0 r → ltb_ℤ r (pos today) ≡ false
unfolding ◌+ℤ◌
Reaches-now today r h = ground (arith, h)

NotPast-of :
    (today : ℕ) (a : Answer) (r : ℤ) → ltb_ℤ r (pos today) ≡ false → r ≡ a.0 → NotPast today a.0
NotPast-of today a r h e = inr (rw (← e) h)

adjust-NotPast :
    (today : ℕ) (r : ℤ) (t : Trigger) (tim : TimeTrig) (a : Answer)
    → (NotPast today r) ⊎ (Reaches today t.duration_days r)
    → adjust_trigger_for_duration today r t tim ≡ ok a
    → NotPast today a.0
unfolding adjust_trigger_for_duration
adjust-NotPast today r t tim a h e =
    cases (ltb_ℤ r (pos today)) (ltb_ℤ (r +ℤ pos t.duration_days) (pos today)) refl h e
  where
    cut :
        (m : Result TimeTrig)
        → (m >>= (λ c. ok (pos today, with_event r t tim, c))) ≡ ok a
        → NotPast today a.0
    cut (err x) q = absurd (let f : ⊥ = ground (arith, q) in f)
    cut (ok c) q = NotPast-of today a (pos today) (today_not_past today) (answer_inj _ a q)

    cases :
        (l m : Bool)
        → ltb_ℤ r (pos today) ≡ l
        → ((r ≡ negsuc 0) ⊎ (l ≡ false)) ⊎ (m ≡ false)
        → (if l && not m
            then (cut_duration today r tim >>= λ c. ok (pos today, with_event r t tim, c))
            else ok (r, with_event r t tim, tim))
          ≡ ok a
        → NotPast today a.0
    cases true false i k q = cut (cut_duration today r tim) q
    cases true true i (inl (inl k)) q = inl (sym (answer_inj _ a q) ∙ k)
    cases true true i (inl (inr k)) q = absurd (let f : ⊥ = ground (arith, k) in f)
    cases true true i (inr k) q = absurd (let f : ⊥ = ground (arith, k) in f)
    cases false m i k q = NotPast-of today a r i (answer_inj _ a q)

outcome_known :
    (s : Setting) (t : Trigger) (today days weekday_omits : ℕ) (tim : TimeTrig) (o : Outcome)
    → compute_trigger_no_adjust_duration s weekday_omits t tim today days ≡ ok o
    → (date_of o ≡ negsuc 0) ⊎ Reaches today days (date_of o)
unfolding date_of
outcome_known s t today days w tim (expired_ last) e = inl refl
outcome_known s t today days w tim (due r) e = inr (compute_due s t today days w tim r e)

expired_keeps_days : (o : Outcome) (t : Trigger) → (set_expired o t).duration_days ≡ t.duration_days
unfolding set_expired
expired_keeps_days (expired_ last) t = refl
expired_keeps_days (due r) t = refl

is_today_not_past : (r : ℤ) (today : ℕ) → is_today r today ≡ true → ltb_ℤ r (pos today) ≡ false
unfolding is_today
is_today_not_past (pos n) today e = ground (arith, e)
is_today_not_past (negsuc n) today e = absurd (let f : ⊥ = ground (arith, e) in f)

-- A date that ComputeTrigger returns is -1 or not before today. This holds for all triggers, whatever
-- IsOmitted answers.
pub compute_trigger-NotPast :
    (s : Setting) (weekday_omits : ℕ) (t : Trigger) (tim : TimeTrig) (today : ℕ) (a : Answer)
    → compute_trigger s weekday_omits t tim today ≡ ok a
    → NotPast today a.0
unfolding compute_trigger
compute_trigger-NotPast s w t tim today a e =
    first (compute_trigger_no_adjust_duration s w t tim today 0) refl e
  where
    second :
        (c : Result Outcome)
        → compute_trigger_no_adjust_duration s w t tim today t.duration_days ≡ c
        → (c >>= λ o. adjust_trigger_for_duration today (date_of o) (set_expired o t) tim) ≡ ok a
        → NotPast today a.0
    second (err x) i q = absurd (let f : ⊥ = ground (arith, q) in f)
    second (ok o) i q =
        adjust-NotPast today (date_of o) (set_expired o t) tim a
          (known (outcome_known s t today t.duration_days w tim o i)) q
      where
        known :
            (date_of o ≡ negsuc 0) ⊎ Reaches today t.duration_days (date_of o)
            → NotPast today (date_of o) ⊎ Reaches today (set_expired o t).duration_days (date_of o)
        known (inl k) = inl (inl k)
        known (inr k) = inr (rw (expired_keeps_days o t) k)

    first :
        (c : Result Outcome)
        → compute_trigger_no_adjust_duration s w t tim today 0 ≡ c
        → (c >>= λ o.
            if is_today (date_of o) today
            then ok (date_of o, with_event (date_of o) (set_expired o t) tim, tim)
            else if t.duration_days == 0
            then adjust_trigger_for_duration today (date_of o) (set_expired o t) tim
            else (compute_trigger_no_adjust_duration s w t tim today t.duration_days >>= λ o.
                adjust_trigger_for_duration today (date_of o) (set_expired o t) tim))
          ≡ ok a
        → NotPast today a.0
    first (err x) i q = absurd (let f : ⊥ = ground (arith, q) in f)
    first (ok o) i q = branch (is_today (date_of o) today) (t.duration_days == 0) refl q
      where
        known : (date_of o ≡ negsuc 0) ⊎ Reaches today 0 (date_of o) → NotPast today (date_of o)
        known (inl k) = inl k
        known (inr k) = inr (Reaches-now today (date_of o) k)

        branch :
            (x y : Bool)
            → is_today (date_of o) today ≡ x
            → (if x
                then ok (date_of o, with_event (date_of o) (set_expired o t) tim, tim)
                else if y
                then adjust_trigger_for_duration today (date_of o) (set_expired o t) tim
                else (compute_trigger_no_adjust_duration s w t tim today t.duration_days >>= λ o.
                    adjust_trigger_for_duration today (date_of o) (set_expired o t) tim))
              ≡ ok a
            → NotPast today a.0
        branch true y h k =
            NotPast-of today a (date_of o) (is_today_not_past (date_of o) today h)
              (answer_inj _ a k)
        branch false true h k =
            adjust-NotPast today (date_of o) (set_expired o t) tim a
              (inl (known (outcome_known s t today 0 w tim o i))) k
        branch false false h k =
            second (compute_trigger_no_adjust_duration s w t tim today t.duration_days) refl k
