-- ===== src/Trigger/Simple/Dates.antt =====
-- The cases of NextSimpleTrig in remind-v06.02.10/src/trigger.c without a weekday.
use remind_rb.Base.{ℕ, ◌+◌, ◌*◌, ◌≤◌, ◌<◌, ◌≡◌, refl, none, some, arith}
use remind_rb.Calendar.{base, Date, date, dse, from_dse, days_in_month}
use remind_rb.Calendar.Months.{days_in_month_range}
use remind_rb.Calendar.Days.{IsValid, from_dse-IsValid}
use remind_rb.Calendar.Order.{key, day-le}
use remind_rb.Trigger.Simple.{simple_day, simple_month, simple_year}
use remind_rb.Trigger.Simple.Loops.{
  next_month, skip_months, Skips, skip_months-Skips, next_month_key,
}
use remind_rb.Trigger.Simple.Spec.{Fits, First, Answers, First-date, no_date_left, start-First}

-- A day that every month has.
pub first_day : (m y : ℕ) → base ≤ y → m < 12 → IsValid (date y m 1)
first_day m y h k = record {
  year_in = h;
  month_in = k;
  day_from = omega arith;
  day_to = omega (arith, days_in_month_range m y k);
}

pub valid_date :
    (d m y : ℕ) → base ≤ y → m < 12 → 1 ≤ d → d ≤ days_in_month m y → IsValid (date y m d)
valid_date d m y h k lo hi = record { year_in = h; month_in = k; day_from = lo; day_to = hi }

module _ (start : ℕ) where
  abbrev s : Date
  s = from_dse start

  v : IsValid s
  v = from_dse-IsValid start

  abbrev OnMonth : ℕ → ℕ → Type 0
  OnMonth m j = Fits none (some m) none (from_dse j)

  month_found :
      (m y : ℕ)
      → m < 12
      → s.year ≤ y
      → s.year * 12 + s.month < y * 12 + m
      → y * 12 + m < s.year * 12 + s.month + 12
      → First (OnMonth m) start (dse y m 1)
  month_found m y h le lo hi =
      First-date (Fits none (some m) none) start (date y m 1) (first_day m y (omega (arith, v)) h)
        (tt, refl, tt) (omega (arith, day-le s v))
        (λ t vt q k. omega (arith, day-le s v, day-le t vt, vt.day_from, vt.month_in, v, q))

  pub simple_month_lem : (m : ℕ) → m < 12 → Answers (OnMonth m) start (simple_month m start)
  unfolding simple_month
  simple_month_lem m h = ground (
    arith,
    v,
    λ (e : s.month ≡ m). start-First (Fits none (some m) none) start (tt, e, tt),
    month_found m s.year h,
    month_found m (s.year + 1) h,
  )

  abbrev OnYear : ℕ → ℕ → Type 0
  OnYear y j = Fits none none (some y) (from_dse j)

  year_found : (y : ℕ) → s.year < y → First (OnYear y) start (dse y 0 1)
  year_found y h =
      First-date (Fits none none (some y)) start (date y 0 1)
        (first_day 0 y (omega (arith, v)) (omega arith)) (tt, tt, refl)
        (omega (arith, v, day-le s v)) (λ t vt q k. omega (arith, vt, q))

  pub simple_year_lem : (y : ℕ) → base ≤ y → Answers (OnYear y) start (simple_year y start)
  unfolding simple_year
  simple_year_lem y h =
      let past = λ (lt : y < s.year).
        no_date_left (Fits none none (some y)) start
          (λ t vt q. omega (arith, v, vt, day-le t vt, q)) in
      ground (
        arith,
        past,
        λ (e : s.year ≡ y). start-First (Fits none none (some y)) start (tt, tt, e),
        year_found y,
      )

  abbrev OnDay : ℕ → ℕ → Type 0
  OnDay d j = Fits (some d) none none (from_dse j)

  -- The loop starts in the first month whose day `d` does not lie before the start.
  day_found :
      (d m y : ℕ)
      → 1 ≤ d
      → d ≤ 31
      → m < 12
      → key s ≤ (y * 12 + m) * 32 + d
      → (y * 12 + m) * 32 + d < key s + 32
      → (let r = skip_months 12 d m y in First (OnDay d) start (dse r.1 r.0 d))
  day_found d m y lo hi h from to =
      let r = skip_months 12 d m y in
      let k : Skips d m y r = skip_months-Skips d m y h hi in
      First-date (Fits (some d) none none) start (date r.1 r.0 d)
        (valid_date d r.0 r.1 (omega (arith, v, k.from, k.month_in, day-le s v)) k.month_in lo
          k.has_day)
        (refl, tt, tt) (omega (arith, k.from))
        (λ t vt q g. omega (
          arith,
          q,
          k.first t.month t.year vt.month_in (omega (arith, q)) (omega (arith, vt.day_to, q)),
        ))

  pub simple_day_lem : (d : ℕ) → 1 ≤ d → d ≤ 31 → Answers (OnDay d) start (simple_day d start)
  unfolding simple_day
  simple_day_lem d lo hi =
      let n = next_month_key s.month s.year v.month_in in
      let nm = next_month s.month s.year in
      ground
        (arith, v, day-le s v, n, day_found d s.month s.year lo hi, day_found d nm.0 nm.1 lo hi)
