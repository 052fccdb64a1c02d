-- ===== src/Trigger/Simple/Moved.antt =====
-- The cases of NextSimpleTrig in remind-v06.02.10/src/trigger.c with weekdays and a day of the
-- month: a date that fits is moved on to the first of the weekdays.
use remind_rb.Base.{
  ℕ, ◌+◌, ◌*◌, ◌≤◌, ◌<◌, ◌≡◌, ◌≢◌, inl, inr, refl, true, none, some, arith, dec_le, leb→le, le→leb,
  ℕ_discrete, ap, Bool-cases,
}
use remind_rb.Calendar.{base, Date, date, dse, from_dse, days_in_month}
use remind_rb.Calendar.Days.{IsValid, dse_of, from_dse-IsValid, dse-from_dse}
use remind_rb.Calendar.Order.{key, month_key, day-le, month_gap, dse-le_of_key, dse-lt_of_key}
use remind_rb.Trigger.Weekday.{Advances, Advances-mono, advance_to_wd, advance_to_wd-Advances}
use remind_rb.Trigger.Simple.{Simple, found, never, bad_date, try_month, simple_day_wd}
use remind_rb.Trigger.Simple.Loops.{
  next_month, prev_month, months_up, months_up-Seeks, months_up-lt, same_month, next_month_key,
  prev_month_key, has_previous, prev_month_base,
}
use remind_rb.Trigger.Simple.Dates.{valid_date}
use remind_rb.Trigger.Simple.DayMonths.{same_dse}
use remind_rb.Trigger.Simple.Spec.{Answers, Named}

module _ (wd : ℕ) (some_wd : 0 < wd) (mask : wd < 128) (start : ℕ) where
  abbrev s : Date
  s = from_dse start

  v : IsValid s
  v = from_dse-IsValid start

  abbrev adv : ℕ → ℕ
  adv x = advance_to_wd x wd

  pub advances : (x : ℕ) → Advances wd x (adv x)
  advances x = advance_to_wd-Advances x wd some_wd mask

  pub moved_to : {x k : ℕ} → Advances wd x k → k ≡ adv x
  moved_to {x} {k} a = omega (
    arith,
    Advances-mono wd x x k (adv x) (omega arith) a (advances x),
    Advances-mono wd x x (adv x) k (omega arith) (advances x) a,
  )

  -- A date two months back is moved to a day before the start.
  pub recent :
      (b : Date) (k : ℕ)
      → IsValid b
      → Advances wd (dse_of b) k
      → start ≤ k
      → month_key s ≤ month_key b + 1
  recent b k vb a h = elim (dec_le (month_key s) (month_key b + 1)) [
    | yes p ↦ p
    | no p ↦ absurd (omega (arith, month_gap b s vb v (omega arith), dse-from_dse start, a.near))
  ]

  module _ (d : ℕ) (lo : 1 ≤ d) (hi : d ≤ 31) where
    -- `j` is the first moved day from the start on, of the dates with day `d` from month `n` on.
    record Since (n j : ℕ) : Type 0 where
      from : start ≤ j
      holds : Named wd (some d) none none true j
      least :
          (b : Date) (k : ℕ)
          → IsValid b
          → b.day ≡ d
          → Advances wd (dse_of b) k
          → start ≤ k
          → n ≤ month_key b
          → j ≤ k

    SinceAnswers : ℕ → Simple → Type 0
    SinceAnswers n (found j) = Since n j
    SinceAnswers n never = ⊥
    SinceAnswers n bad_date = ⊥

    moved_date :
        (m y : ℕ)
        → base ≤ y
        → m < 12
        → d ≤ days_in_month m y
        → Named wd (some d) none none true (adv (dse y m d))
    moved_date m y b h fits =
        (date y m d, valid_date d m y b h lo fits, (refl, tt, tt), advances (dse y m d))

    month_reached :
        (m y : ℕ)
        → m < 12
        → base ≤ y
        → (c : Date) → IsValid c
        → c.day ≡ d
        → y * 12 + m ≤ month_key c
        → key (date y (months_up d m y) d) ≤ key c
    month_reached m y h b c vc e n = elim (ℕ_discrete c.year y) [
      | no p ↦ omega (arith, months_up-lt d m y h hi, vc)
      | yes p ↦ omega (
        arith,
        (months_up-Seeks d m y h hi).first c.month (omega (arith, p))
            (le→leb d (days_in_month c.month y) (rw (← e, ← p) vc.day_to)),
      )
    ]

    -- The first date with the day from a month on, if no date of the month before it counts.
    last_Since :
        (m y : ℕ)
        → m < 12
        → base ≤ y
        → month_key s < y * 12 + m
        → Since (y * 12 + m) (adv (dse y (months_up d m y) d))
    last_Since m y h b later =
        let r = months_up d m y in
        let k = months_up-Seeks d m y h hi in
        let vr : IsValid (date y r d) =
          valid_date d r y b (months_up-lt d m y h hi) lo (leb→le _ _ k.passes) in
        record {
          from = omega (
            arith,
            dse-from_dse start,
            dse-lt_of_key s (date y r d) v vr (omega (arith, day-le s v, k.from)),
            (advances (dse y r d)).from,
          );
          holds = moved_date r y b (months_up-lt d m y h hi) (leb→le _ _ k.passes);
          least = λ c j vc e a g n.
              Advances-mono wd _ _ _ _
                (dse-le_of_key (date y r d) c vr vc (month_reached m y h b c vc e n))
                (advances (dse y r d)) a;
        }

    widen :
        (n : ℕ) (next : Simple)
        → ((b : Date) (k : ℕ)
            → IsValid b
            → b.day ≡ d
            → Advances wd (dse_of b) k
            → start ≤ k
            → month_key b ≢ n)
        → SinceAnswers (n + 1) next
        → SinceAnswers n next
    unfolding SinceAnswers
    widen n (found j) skip r = record {
      from = r.from;
      holds = r.holds;
      least = λ b k vb e a g le. r.least b k vb e a g (omega (arith, skip b k vb e a g));
    }
    widen n _ skip r = r

    module _ (m y : ℕ) (h : m < 12) (b : base ≤ y) where
      this_Since :
          d ≤ days_in_month m y → start ≤ adv (dse y m d) → Since (y * 12 + m) (adv (dse y m d))
      this_Since fits from = record {
        from = from;
        holds = moved_date m y b h fits;
        least = λ c j vc e a g n.
            Advances-mono wd _ _ _ _
              (dse-le_of_key (date y m d) c (valid_date d m y b h lo fits) vc (omega arith))
              (advances (dse y m d)) a;
      }

      is_this :
          (c : Date)
          → IsValid c
          → c.day ≡ d
          → month_key c ≡ y * 12 + m
          → (d ≤ days_in_month m y) × (dse_of c ≡ dse y m d)
      is_this c vc e n =
          let (p, q) = same_month c.month m c.year y vc.month_in h n in
          (rw (← e, ← p, ← q) vc.day_to, same_dse c (e, q, p))

      try_Since :
          (next : Simple)
          → SinceAnswers (y * 12 + m + 1) next
          → SinceAnswers (y * 12 + m) (try_month d m y wd start next)
      unfolding try_month SinceAnswers
      try_Since next rest =
          let skip = λ (no_hit : (d ≤ days_in_month m y) → adv (dse y m d) < start).
            widen (y * 12 + m) next
              (λ c k vc e a g n.
                let (fits, same) = is_this c vc e n in
                omega (arith, no_hit fits, moved_to a, ap adv same))
              rest in
          ground (arith, this_Since, skip)

    finish :
        (n : ℕ) (r : Simple)
        → ((b : Date) → IsValid b → month_key s ≤ month_key b + 1 → n ≤ month_key b)
        → SinceAnswers n r
        → Answers (Named wd (some d) none none true) start r
    unfolding SinceAnswers
    finish n (found j) low r = record {
      from = r.from;
      holds = r.holds;
      least = λ k h (b, vb, e, a). r.least b k vb e.0 a h (low b vb (recent b k vb a h));
    }
    finish n never low r = absurd r
    finish n bad_date low r = absurd r

    pub simple_day_wd_lem :
        Answers (Named wd (some d) none none true) start (simple_day_wd d wd start)
    unfolding simple_day_wd
    simple_day_wd_lem =
        let nm = next_month s.month s.year in
        let nk = next_month_key s.month s.year v.month_in in
        let pm = prev_month s.month s.year in
        let pk = prev_month_key s.month s.year v.month_in (omega (arith, v)) in
        let last = last_Since nm.0 nm.1 nk.1 (omega (arith, nk, v)) (omega (arith, nk)) in
        let last_answer = found (adv (dse nm.1 (months_up d nm.0 nm.1) d)) in
        let this =
          try_Since s.month s.year v.month_in v.year_in last_answer
            (unfold SinceAnswers in rw (← nk.0) last) in
        elim (Bool-cases (has_previous s.month s.year)) [
          | inl e ↦
              let previous =
                try_Since pm.0 pm.1 pk.1 (prev_month_base s.month s.year v.year_in e)
                  (try_month d s.month s.year wd start last_answer) (rw pk.0 this) in
              rw e (finish (pm.1 * 12 + pm.0) _ (λ b vb h. omega (arith, h, pk)) previous)
          | inr e ↦ rw e (finish (month_key s) _ (λ b vb h. ground arith) this)
        ]
