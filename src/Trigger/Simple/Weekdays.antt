-- ===== src/Trigger/Simple/Weekdays.antt =====
-- The cases of NextSimpleTrig in remind-v06.02.10/src/trigger.c with weekdays and no day of the
-- month.
use remind_rb.Base.{ℕ, ◌+◌, ◌*◌, ◌≤◌, ◌<◌, ◌≡◌, ◌≢◌, none, some, arith, dec_lt}
use remind_rb.Calendar.{base, Date, date, dse, from_dse}
use remind_rb.Calendar.Days.{IsValid, from_dse-IsValid, dse-from_dse}
use remind_rb.Calendar.Order.{
  key, month_key, day-le, key_mono, first_week, month_gap, in_month, dse-le_of_key,
}
use remind_rb.Trigger.Weekday.{IsOn, Advances, advance_to_wd, advance_to_wd-Advances}
use remind_rb.Trigger.Simple.{
  simple_wd, simple_year_wd, simple_month_wd, simple_month_year_wd, dse_year, dse_month,
}
use remind_rb.Trigger.Simple.Spec.{Fits, First, Answers}

module _ (wd : ℕ) (some_wd : 0 < wd) (mask : wd < 128) (start : ℕ) where
  abbrev s : Date
  s = from_dse start

  v : IsValid s
  v = from_dse-IsValid start

  abbrev adv : ℕ → ℕ
  adv x = advance_to_wd x wd

  advances : (x : ℕ) → Advances wd x (adv x)
  advances x = advance_to_wd-Advances x wd some_wd mask

  module _ (Q : Date → Type 0) (x : ℕ) where
    weekday-First :
        start ≤ x
        → ((k : ℕ) → start ≤ k → Q (from_dse k) → IsOn wd k → x ≤ k)
        → Q (from_dse (adv x))
        → First (λ j. Q (from_dse j) × IsOn wd j) start (adv x)
    weekday-First from all q = record {
      from = omega (arith, (advances x).from);
      holds = (q, (advances x).on);
      least = λ k h p. (advances x).first k (all k h p.0 p.1) p.1;
    }

    weekday_never :
        ((k : ℕ) → start ≤ k → Q (from_dse k) → IsOn wd k → x ≤ k)
        → ((k : ℕ) → adv x ≤ k → ¬ Q (from_dse k))
        → (k : ℕ) → Q (from_dse k) × IsOn wd k
        → k < start
    weekday_never all stop k p = elim (dec_lt k start) [
      | yes h ↦ h
      | no h ↦ absurd (stop k ((advances x).first k (all k (omega arith) p.0 p.1) p.1) p.0)
    ]

  pub simple_wd_lem :
      Answers (λ j. Fits none none none (from_dse j) × IsOn wd j) start (simple_wd wd start)
  unfolding simple_wd
  simple_wd_lem =
      weekday-First (Fits none none none) start (omega arith) (λ k h _ _. h) (tt, tt, tt)

  from_first : (y m k : ℕ) → base ≤ y → m < 12 → y * 12 + m ≤ month_key (from_dse k) → dse y m 1 ≤ k
  from_first y m k b h le =
      let t : IsValid (from_dse k) = from_dse-IsValid k in
      omega (
        arith,
        dse-from_dse k,
        dse-le_of_key (date y m 1) (from_dse k) (in_month y m 1 b h (omega arith) (omega arith)) t
            (omega (arith, t.day_from)),
      )

  to_first : (y m : ℕ) → base ≤ y → m < 12 → month_key s < y * 12 + m → start ≤ dse y m 1
  to_first y m b h lt = omega (
    arith,
    dse-from_dse start,
    dse-le_of_key s (date y m 1) v (in_month y m 1 b h (omega arith) (omega arith))
        (omega (arith, day-le s v)),
  )

  week :
      (y m : ℕ)
      → base ≤ y
      → m < 12
      → ((from_dse (adv (dse y m 1))).month ≡ m) × ((from_dse (adv (dse y m 1))).year ≡ y)
  week y m b h = let a = advances (dse y m 1) in first_week y m _ b h a.from a.near

  facts : (k : ℕ) → ((from_dse k).day ≤ 31) × (1 ≤ (from_dse k).day) × ((from_dse k).month < 12)
  facts k = let t = from_dse-IsValid k in (day-le _ t, t.day_from, t.month_in)

  before : (k : ℕ) → key (from_dse k) < key s → k < start
  before k h = elim (dec_lt k start) [ yes p ↦ p | no p ↦ absurd (omega (arith, key_mono start k)) ]

  pub simple_year_wd_lem :
      (y : ℕ)
      → base ≤ y
      → Answers
          (λ j. Fits none none (some y) (from_dse j) × IsOn wd j)
          start
          (simple_year_wd y wd start)
  unfolding simple_year_wd dse_year
  simple_year_wd_lem y b =
      let Q = Fits none none (some y) in
      let past = λ (lt : y < s.year) (k : ℕ) (p : Q (from_dse k) × IsOn wd k).
        before k (omega (arith, p.0.2, facts k, facts start)) in
      let later = λ (lt : s.year < y).
        weekday-First Q (dse y 0 1) (to_first y 0 b (omega arith) (omega (arith, facts start)))
          (λ k h q _. from_first y 0 k b (omega arith) (omega (arith, q)))
          (tt, tt, (week y 0 b (omega arith)).1) in
      let here = λ (e : s.year ≡ y) (f : (from_dse (adv start)).year ≤ y).
        weekday-First Q start (omega arith) (λ k h _ _. h)
          (
            tt,
            tt,
            omega (
              arith,
              key_mono start (adv start) (advances start).from,
              facts start,
              facts (adv start),
            ),
          ) in
      let over = λ (e : s.year ≡ y) (f : y < (from_dse (adv start)).year).
        weekday_never Q start (λ k h _ _. h)
          (λ k h q. omega (arith, key_mono (adv start) k h, facts k, facts (adv start), q)) in
      ground (arith, past, later, here, over, week y 0 b)

  pub simple_month_wd_lem :
      (m : ℕ)
      → m < 12
      → Answers
          (λ j. Fits none (some m) none (from_dse j) × IsOn wd j)
          start
          (simple_month_wd m wd start)
  unfolding simple_month_wd dse_month
  simple_month_wd_lem m h =
      let Q = Fits none (some m) none in
      let j = adv start in
      let moved = key_mono start j (advances start).from in
      let here = λ (f : (from_dse j).month ≡ m).
        weekday-First Q start (omega arith) (λ k h _ _. h) (tt, f, tt) in
      -- From the first of the month `(m, y)`, the next such month after the start.
      let next =
        λ (y : ℕ) (lo : month_key s < y * 12 + m) (hi : y * 12 + m ≤ month_key s + 12)
            (only : (s.month ≡ m) → (from_dse j).month ≢ m).
          weekday-First Q (dse y m 1) (to_first y m (omega (arith, v)) h lo)
            (λ k g q o. from_first y m k (omega (arith, v)) h (
              ground (
                arith,
                q,
                facts k,
                facts start,
                facts j,
                moved,
                only,
                key_mono start k g,
                key_mono j k ((advances start).first k g o),
              )))
            (tt, (week y m (omega (arith, v)) h).0, tt) in
      ground (arith, v, here, next s.year, next (s.year + 1))

  pub simple_month_year_wd_lem :
      (m y : ℕ)
      → m < 12
      → base ≤ y
      → Answers
          (λ j. Fits none (some m) (some y) (from_dse j) × IsOn wd j)
          start
          (simple_month_year_wd m y wd start)
  unfolding simple_month_year_wd
  simple_month_year_wd_lem m y h b =
      let Q = Fits none (some m) (some y) in
      let j = adv start in
      let t : IsValid (from_dse j) = from_dse-IsValid j in
      let moved = key_mono start j (advances start).from in
      let same_year = λ (e : s.year ≡ y) (f : s.month ≡ m) (g : (from_dse j).month ≡ m).
        let r : (from_dse j).year ≡ y = ground (
          arith,
          month_gap s (from_dse j) v t,
          dse-from_dse start,
          dse-from_dse j,
          (advances start).near,
          moved,
          facts j,
          facts start,
        ) in
        r in
      let past = λ (lt : y * 12 + m < month_key s) (k : ℕ) (p : Q (from_dse k) × IsOn wd k).
        before k (omega (arith, p.0, facts k, facts start)) in
      let later = λ (lt : month_key s < y * 12 + m).
        weekday-First Q (dse y m 1) (to_first y m b h lt)
          (λ k g q _. from_first y m k b h (omega (arith, q)))
          (tt, (week y m b h).0, (week y m b h).1) in
      let here = λ (e : s.year ≡ y) (f : s.month ≡ m) (g : (from_dse j).month ≡ m).
        weekday-First Q start (omega arith) (λ k h _ _. h) (tt, g, same_year e f g) in
      let over = λ (e : s.year ≡ y) (f : s.month ≡ m) (g : (from_dse j).month ≢ m).
        weekday_never Q start (λ k h _ _. h)
          (λ k a q. omega (arith, key_mono j k a, q, facts k, facts j, facts start, moved)) in
      ground (arith, v, past, later, here, over)
