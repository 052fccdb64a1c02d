-- ===== src/Trigger/Simple/MovedYears.antt =====
-- The cases of NextSimpleTrig in remind-v06.02.10/src/trigger.c with weekdays, a day and a month,
-- with and without a year.
use remind_rb.Base.{
  ℕ, ◌+◌, ◌-◌, ◌≤◌, ◌<◌, ◌≡◌, refl, true, none, some, arith, ltb, if◌then◌else◌, dec_lt, le→ltb,
  lt→ltb, leb→le, le→leb, ℕ_discrete, ap, ◌∙◌,
}
use remind_rb.Calendar.{base, Date, date, dse, from_dse, days_in_month, month_days}
use remind_rb.Calendar.Months.{days_in_month_range}
use remind_rb.Calendar.Days.{IsValid, dse_of, from_dse-IsValid, dse-from_dse}
use remind_rb.Calendar.Order.{month_key, day-le, dse-le_of_key, dse-lt_of_key}
use remind_rb.Trigger.Weekday.{Advances, Advances-mono, advance_to_wd}
use remind_rb.Trigger.Simple.{simple_day_month_wd, simple_date_wd}
use remind_rb.Trigger.Simple.Loops.{skip_years, skip_years-Seeks}
use remind_rb.Trigger.Simple.Dates.{valid_date}
use remind_rb.Trigger.Simple.DayMonths.{AnswersDate, days_le, same_dse}
use remind_rb.Trigger.Simple.Moved.{recent, moved_to, advances}
use remind_rb.Trigger.Simple.Spec.{Fits, First, Answers, Named}

module _ (wd : ℕ) (some_wd : 0 < wd) (mask : wd < 128) where
  abbrev adv : ℕ → ℕ
  adv x = advance_to_wd x wd

  module _ (d m : ℕ) (lo : 1 ≤ d) (h : m < 12) where
    no_such_day : month_days m < d → (k : ℕ) → ¬ Named wd (some d) (some m) none true k
    no_such_day lt k (b, vb, q, a) =
        omega (arith, days_le b vb q.0 q.1, days_in_month_range m b.year h)

    module _ (start : ℕ) (hi : d ≤ month_days m) where
      abbrev s : Date
      s = from_dse start

      v : IsValid s
      v = from_dse-IsValid start

      year_from : (y : ℕ) → base ≤ y → IsValid (date (skip_years d m y) m d)
      year_from y b =
          let k = skip_years-Seeks d m y hi in
          valid_date d m _ (omega (arith, k.from)) h lo
            (leb→le d (days_in_month m (skip_years d m y)) k.passes)

      -- The dates that count lie in year `y` or later.
      abbrev NotBefore : ℕ → Type 0
      NotBefore y =
          (b : Date) (k : ℕ)
          → IsValid b
          → Fits (some d) (some m) none b
          → Advances wd (dse_of b) k
          → start ≤ k
          → y ≤ b.year

      -- Among the dates from year `y` on, the first one that counts, if the loop finds it not too early.
      First-from :
          (y : ℕ)
          → base ≤ y
          → start ≤ adv (dse (skip_years d m y) m d)
          → NotBefore y
          → First (Named wd (some d) (some m) none true) start (adv (dse (skip_years d m y) m d))
      First-from y b from low =
          let r = skip_years d m y in
          record {
            from = from;
            holds = (
              date r m d,
              year_from y b,
              (refl, refl, tt),
              advances wd some_wd mask start (dse r m d),
            );
            least = λ k g (c, vc, q, a).
                let le =
                  (skip_years-Seeks d m y hi).first c.year (low c k vc q a g)
                    (le→leb d (days_in_month m c.year) (days_le c vc q.0 q.1)) in
                Advances-mono wd _ _ _ _
                  (dse-le_of_key (date r m d) c (year_from y b) vc (omega (arith, le, q)))
                  (advances wd some_wd mask start (dse r m d)) a;
          }

      -- A year whose date is moved to a day before the start is passed over.
      pass :
          (y : ℕ)
          → base ≤ y
          → adv (dse (skip_years d m y) m d) < start
          → NotBefore y
          → NotBefore (skip_years d m y + 1)
      pass y b early low c k vc q a g =
          let r = skip_years d m y in
          let le =
            (skip_years-Seeks d m y hi).first c.year (low c k vc q a g)
              (le→leb d (days_in_month m c.year) (days_le c vc q.0 q.1)) in
          elim (ℕ_discrete c.year r) [
            | no p ↦ omega (arith, le)
            | yes p ↦
                let same : dse_of c ≡ dse r m d = same_dse c (q.0, q.1, p) in
                absurd (omega (arith, moved_to wd some_wd mask start a, ap adv same))
          ]

      abbrev first_year : ℕ
      first_year = if ltb base s.year then s.year - 1 else s.year

      first_year-NotBefore : NotBefore first_year
      first_year-NotBefore b k vb q a g =
          let r : month_key s ≤ month_key b + 1 = recent wd some_wd mask start b k vb a g in
          ground (arith, r, v)

      first_year_range : (base ≤ first_year) × (s.year ≤ first_year + 1)
      first_year_range = ground (arith, v)

      pub simple_day_month_wd_found :
          Answers (Named wd (some d) (some m) none true) start (simple_day_month_wd d m wd start)
      unfolding simple_day_month_wd
      simple_day_month_wd_found =
          let f = first_year_range in
          let y0 = skip_years d m first_year in
          let y1 = skip_years d m (y0 + 1) in
          let y2 = skip_years d m (y1 + 1) in
          let k0 = skip_years-Seeks d m first_year hi in
          let k1 = skip_years-Seeks d m (y0 + 1) hi in
          let k2 = skip_years-Seeks d m (y1 + 1) hi in
          let b1 : base ≤ y0 + 1 = omega (arith, f, k0.from) in
          let b2 : base ≤ y1 + 1 = omega (arith, b1, k1.from) in
          let last : start ≤ adv (dse y2 m d) = omega (
            arith,
            dse-from_dse start,
            (advances wd some_wd mask start (dse y2 m d)).from,
            dse-lt_of_key s (date y2 m d) v (year_from (y1 + 1) b2)
                (omega (arith, day-le s v, v, f, k0.from, k1.from, k2.from)),
          ) in
          let try0 =
            λ (e : start ≤ adv (dse y0 m d)). First-from first_year f.0 e first_year-NotBefore in
          let try1 = λ (n : adv (dse y0 m d) < start) (e : start ≤ adv (dse y1 m d)).
            First-from (y0 + 1) b1 e (pass first_year f.0 n first_year-NotBefore) in
          let try2 = λ (n : adv (dse y0 m d) < start) (n' : adv (dse y1 m d) < start).
            First-from (y1 + 1) b2 last
              (pass (y0 + 1) b1 n' (pass first_year f.0 n first_year-NotBefore)) in
          ground (arith, hi, try0, try1, try2)

    pub simple_day_month_wd_lem :
        (start : ℕ)
        → Answers (Named wd (some d) (some m) none true) start (simple_day_month_wd d m wd start)
    unfolding simple_day_month_wd
    simple_day_month_wd_lem start = elim (dec_lt (month_days m) d) [
      | no p ↦ simple_day_month_wd_found start (omega arith)
      | yes p ↦ rw (lt→ltb (month_days m) d p) (no_such_day p)
    ]

  pub simple_date_wd_lem :
      (d m y : ℕ)
      → 1 ≤ d
      → m < 12
      → base ≤ y
      → AnswersDate (Named wd (some d) (some m) (some y) true) (simple_date_wd d m y wd)
  unfolding simple_date_wd
  simple_date_wd_lem d m y lo h b =
      let P = Named wd (some d) (some m) (some y) true in
      elim (dec_lt (days_in_month m y) d) [
        | yes p ↦ rw (lt→ltb (days_in_month m y) d p) (λ k (c, vc, q, a).
            let w : days_in_month m c.year ≡ days_in_month m y = ap (days_in_month m) q.2 in
            omega (arith, days_le c vc q.0 q.1, w))
        | no p ↦ rw (le→ltb (days_in_month m y) d (omega arith)) (
          (
            date y m d,
            valid_date d m y b h lo (omega arith),
            (refl, refl, refl),
            advances wd some_wd mask 0 (dse y m d),
          ),
          λ k (c, vc, q, a). moved_to wd some_wd mask 0 a ∙ ap adv (same_dse c q),
        )
      ]
