-- ===== src/Trigger/Simple/DayMonths.antt =====
-- The cases of NextSimpleTrig in remind-v06.02.10/src/trigger.c with two or three of day, month and
-- year, and no weekday.
use remind_rb.Base.{
  ℕ, ◌+◌, ◌*◌, ◌≤◌, ◌<◌, ◌≡◌, refl, none, some, arith, leb→le, le→leb, subst, sym, ◌∙◌, dec_lt,
  lt→ltb, le→ltb,
}
use remind_rb.Calendar.{base, Date, date, dse, from_dse, days_in_month, month_days}
use remind_rb.Calendar.Months.{days_in_month_range}
use remind_rb.Calendar.Days.{IsValid, dse_of, from_dse-IsValid, from_dse-dse, dse-from_dse}
use remind_rb.Calendar.Order.{key, month_key, day-le}
use remind_rb.Trigger.Simple.{
  Simple, found, never, bad_date, simple_day_month, simple_day_year, simple_month_year, simple_date,
}
use remind_rb.Trigger.Simple.Loops.{
  skip_years, months_up, skip_years-Seeks, months_up-Seeks, months_up-lt,
}
use remind_rb.Trigger.Simple.Spec.{Fits, First, Answers, First-date, no_date_left, start-First}
use remind_rb.Trigger.Simple.Dates.{first_day, valid_date}

january_days : (y : ℕ) → days_in_month 0 y ≡ 31
unfolding days_in_month month_days
january_days y = refl

pub days_le :
    (t : Date) {d m : ℕ} → IsValid t → t.day ≡ d → t.month ≡ m → d ≤ days_in_month m t.year
days_le t v p q = rw (← p, ← q) v.day_to

module _ (start : ℕ) where
  abbrev s : Date
  s = from_dse start

  v : IsValid s
  v = from_dse-IsValid start

  abbrev OnDayMonth : ℕ → ℕ → ℕ → Type 0
  OnDayMonth d m j = Fits (some d) (some m) none (from_dse j)

  -- The loop starts in the first year in which the day of the month does not lie before the start.
  day_month_found :
      (d m y : ℕ)
      → 1 ≤ d
      → d ≤ month_days m
      → m < 12
      → key s ≤ (y * 12 + m) * 32 + d
      → (y * 12 + m) * 32 + d < key s + 384
      → First (OnDayMonth d m) start (dse (skip_years d m y) m d)
  day_month_found d m y lo hi h from to =
      let r = skip_years d m y in
      let k = skip_years-Seeks d m y hi in
      First-date (Fits (some d) (some m) none) start (date r m d)
        (valid_date d m r (omega (arith, v, k.from, days_in_month_range m y h, day-le s v)) h lo
          (leb→le _ _ k.passes))
        (refl, refl, tt) (omega (arith, k.from))
        (λ t vt q g.
          omega (arith, q, k.first t.year (omega (arith, q)) (le→leb _ _ (days_le t vt q.0 q.1))))

  no_such_day : (d m : ℕ) → m < 12 → month_days m < d → (k : ℕ) → ¬ OnDayMonth d m k
  no_such_day d m h lt k q =
      let t : IsValid (from_dse k) = from_dse-IsValid k in
      omega (arith, days_le (from_dse k) t q.0 q.1, days_in_month_range m (from_dse k).year h)

  pub simple_day_month_lem :
      (d m : ℕ) → 1 ≤ d → m < 12 → Answers (OnDayMonth d m) start (simple_day_month d m start)
  unfolding simple_day_month
  simple_day_month_lem d m lo h = ground (
    arith,
    v,
    day-le s v,
    days_in_month_range m s.year h,
    no_such_day d m h,
    day_month_found d m s.year lo,
    day_month_found d m (s.year + 1) lo,
  )

  abbrev OnDayYear : ℕ → ℕ → ℕ → Type 0
  OnDayYear d y j = Fits (some d) none (some y) (from_dse j)

  day_year_found :
      (d m y : ℕ)
      → 1 ≤ d
      → d ≤ 31
      → m < 12
      → base ≤ y
      → key s ≤ (y * 12 + m) * 32 + d
      → ((t : Date) → IsValid t → t.day ≡ d → t.year ≡ y → key s ≤ key t → m ≤ t.month)
      → First (OnDayYear d y) start (dse y (months_up d m y) d)
  day_year_found d m y lo hi h b from least =
      let r = months_up d m y in
      let k = months_up-Seeks d m y h hi in
      let fits = leb→le _ _ k.passes in
      First-date (Fits (some d) none (some y)) start (date y r d)
        (valid_date d r y b (months_up-lt d m y h hi) lo fits) (refl, tt, refl)
        (omega (arith, k.from))
        (λ t vt q g. omega (
          arith,
          q,
          k.first t.month (least t vt q.0 q.2 g) (le→leb _ _ (rw (← q.0, ← q.2) vt.day_to)),
        ))

  pub simple_day_year_lem :
      (d y : ℕ)
      → 1 ≤ d
      → d ≤ 31
      → base ≤ y
      → Answers (OnDayYear d y) start (simple_day_year d y start)
  unfolding simple_day_year
  simple_day_year_lem d y lo hi b =
      let Q = Fits (some d) none (some y) in
      let january = λ (lt : s.year < y).
        First-date Q start (date y 0 d)
          (valid_date d 0 y b (omega arith) lo (omega (arith, january_days y))) (refl, tt, refl)
          (omega (arith, v, day-le s v)) (λ t vt q k. omega (arith, q)) in
      let past = λ (lt : y < s.year).
        no_date_left Q start (λ t vt q. omega (arith, v, vt, day-le t vt, q)) in
      let over = λ (e : s.year ≡ y) (lt : d < s.day) (last : s.month ≡ 11).
        no_date_left Q start (λ t vt q. omega (arith, v, vt, day-le t vt, q)) in
      let next = λ (e : s.year ≡ y) (lt : d < s.day) (r : s.month + 1 < 12).
        day_year_found d (s.month + 1) y lo hi r b (omega (arith, day-le s v))
          (λ t vt p q g. omega (arith, vt)) in
      let here = λ (e : s.year ≡ y) (le : s.day ≤ d).
        day_year_found d s.month y lo hi v.month_in b (omega arith)
          (λ t vt p q g. omega (arith, vt)) in
      ground (arith, v, january, past, over, next, here)

  abbrev OnMonthYear : ℕ → ℕ → ℕ → Type 0
  OnMonthYear m y j = Fits none (some m) (some y) (from_dse j)

  pub simple_month_year_lem :
      (m y : ℕ) → m < 12 → base ≤ y → Answers (OnMonthYear m y) start (simple_month_year m y start)
  unfolding simple_month_year
  simple_month_year_lem m y h b =
      let Q = Fits none (some m) (some y) in
      let later = λ (lt : month_key s < y * 12 + m).
        First-date Q start (date y m 1) (first_day m y b h) (tt, refl, refl)
          (omega (arith, day-le s v)) (λ t vt q k. omega (arith, vt, q)) in
      let past = λ (lt : y * 12 + m < month_key s).
        no_date_left Q start (λ t vt q. omega (arith, v, day-le t vt, q)) in
      ground (
        arith,
        v,
        later,
        past,
        λ (e : s.year ≡ y) (f : s.month ≡ m). start-First Q start (tt, f, e),
      )

pub same_dse : {d m y : ℕ} (t : Date) → Fits (some d) (some m) (some y) t → dse_of t ≡ dse y m d
same_dse t q = simp (q.0, q.1, q.2)

-- A full date, past or not: the only day that fits, or none.
abbrev pub AnswersDate : (ℕ → Type 0) → Simple → Type 0
AnswersDate P (found j) = P j × ((k : ℕ) → P k → k ≡ j)
AnswersDate P never = ⊥
AnswersDate P bad_date = (k : ℕ) → ¬ P k

pub simple_date_lem :
    (d m y : ℕ)
    → 1 ≤ d
    → m < 12
    → base ≤ y
    → AnswersDate (λ j. Fits (some d) (some m) (some y) (from_dse j)) (simple_date d m y)
unfolding simple_date
simple_date_lem d m y lo h b =
    let Q = Fits (some d) (some m) (some y) in
    let none_fits = λ (lt : days_in_month m y < d) (k : ℕ) (q : Q (from_dse k)).
      let w : days_in_month (from_dse k).month (from_dse k).year ≡ days_in_month m y =
        simp (q.1, q.2) in
      absurd {A = ⊥} (omega (arith, q.0, w, (from_dse-IsValid k).day_to)) in
    let fits = λ (le : d ≤ days_in_month m y).
      subst Q (sym (from_dse-dse (date y m d) (valid_date d m y b h lo le))) (refl, refl, refl) in
    let only = λ (k : ℕ) (q : Q (from_dse k)). sym (dse-from_dse k) ∙ same_dse (from_dse k) q in
    elim (dec_lt (days_in_month m y) d) [
      | yes p ↦ rw (lt→ltb _ _ p) (none_fits p)
      | no p ↦ rw (le→ltb (days_in_month m y) d (omega arith)) (fits (omega arith), only)
    ]
