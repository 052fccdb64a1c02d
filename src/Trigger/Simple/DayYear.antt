-- ===== src/Trigger/Simple/DayYear.antt =====
-- The case of NextSimpleTrig in remind-v06.02.10/src/trigger.c with a day, a year and weekdays, but
-- no month, which departs from the other cases in two places.
use remind_rb.Base.{
  ℕ, ◌+◌, ◌-◌, ◌*◌, ◌≤◌, ◌<◌, ◌≡◌, refl, true, none, some, arith, ltb, leb, if◌then◌else◌, ◌==◌,
  dec_le, seek, ap, ◌∙◌, subst, zero, suc, Bool, false, dec_lt, lt→ltb, ℕ_discrete, ◌||◌, ◌&&◌,
}
use remind_rb.Calendar.{Date, base, date, dse, from_dse, days_in_month, is_leap_year, month_days}
use remind_rb.Calendar.Months.{days_in_february, days_in_other, month_index-suc}
use remind_rb.Calendar.Days.{IsValid, from_dse-IsValid, dse-from_dse, dse-eq}
use remind_rb.Calendar.Order.{day-le, month_gap, dse-le_of_key, key-le_of_dse}
use remind_rb.Trigger.Weekday.{Advances, advance_to_wd, advance_to_wd-Advances}
use remind_rb.Trigger.Simple.{
  Simple, found, never, bad_date, simple_day_year_wd, stop_after_year, dse_year,
}
use remind_rb.Trigger.Simple.Loops.{months_up, months_down, months_up-Seeks, months_up-lt}
use remind_rb.Trigger.Simple.Dates.{valid_date}
use remind_rb.Trigger.Simple.Spec.{Named}

module _ (wd : ℕ) (some_wd : 0 < wd) (mask : wd < 128) (d y : ℕ) (lo : 1 ≤ d) (hi : d ≤ 31)
    (b : base ≤ y) where
  abbrev day_in : ℕ → ℕ
  day_in m = advance_to_wd (dse y m d) wd

  advances : (m : ℕ) → Advances wd (dse y m d) (day_in m)
  advances m = advance_to_wd-Advances (dse y m d) wd some_wd mask

  -- Before November a date stays in its year when it is moved.
  year_kept : (m : ℕ) → m < 11 → d ≤ days_in_month m y → dse_year (day_in m) ≤ y
  unfolding dse_year
  year_kept m h fits = elim (dec_le (from_dse (day_in m)).year y) [
    | yes p ↦ p
    | no p ↦ absurd (
        omega (
          arith,
          month_gap (date y m d) (from_dse (day_in m)) (valid_date d m y b (omega arith) lo fits)
              (from_dse-IsValid (day_in m)) (omega arith),
          dse-from_dse (day_in m),
          (advances m).near,
        ))
  ]

february_skipped : months_up 29 1 29 ≡ 2
unfolding months_up seek days_in_month month_days is_leap_year
february_skipped = refl

days_table : (y : ℕ) → (days_in_month 0 y ≡ 31) × (days_in_month 2 y ≡ 31)
unfolding days_in_month month_days
days_table y = (refl, refl)

-- The bug: with `DaysInMonth(m, trig->d)` the loop asks for the length of February in the year 29.
-- In a leap year, from a start in January that lies after the moved 29 January, the trigger goes
-- to the moved 29 March, although the trigger names the moved 29 February, which comes earlier and
-- not before the start.
pub leap_day-is_skipped :
    (wd y start : ℕ)
    → 0 < wd
    → wd < 128
    → base ≤ y
    → is_leap_year y ≡ true
    → (from_dse start).year ≡ y
    → (from_dse start).month ≡ 0
    → advance_to_wd (dse y 0 29) wd < start
    → (simple_day_year_wd 29 y wd start ≡ found (advance_to_wd (dse y 2 29) wd))
      × Named wd (some 29) none (some y) true (advance_to_wd (dse y 1 29) wd)
      × (start ≤ advance_to_wd (dse y 1 29) wd)
      × (advance_to_wd (dse y 1 29) wd < advance_to_wd (dse y 2 29) wd)
unfolding simple_day_year_wd stop_after_year
leap_day-is_skipped wd y start some_wd mask b leap ey em late =
    let s = from_dse start in
    let v : IsValid s = from_dse-IsValid start in
    let adv = advances wd some_wd mask 29 y (omega arith) (omega arith) b in
    let kept = year_kept wd some_wd mask 29 y (omega arith) (omega arith) b in
    let t = days_table y in
    let feb : days_in_month 1 y ≡ 29 = days_in_february y ∙ ap (λ l. if l then 29 else 28) leap in
    let vf : IsValid (date y 1 29) =
      valid_date 29 1 y b (omega arith) (omega arith) (omega (arith, feb)) in
    (
      ground (arith, february_skipped, kept 0, kept 2, t, late, ey, em),
      (date y 1 29, vf, (refl, tt, refl), adv 1),
      omega (
        arith,
        (adv 1).from,
        dse-le_of_key s (date y 1 29) v vf (omega (arith, day-le s v, ey, em)),
        dse-from_dse start,
      ),
      omega (
        arith,
        (adv 1).near,
        (adv 2).from,
        dse-eq y 1 29,
        dse-eq y 2 29,
        month_index-suc 1 y,
        feb,
      ),
    )

-- A day of the named year that the trigger names, not before the start.
pub record InYear (wd d y start k : ℕ) : Type 0 where
  pub fits : Named wd (some d) none (some y) true k
  pub from : start ≤ k
  pub year : dse_year k ≡ y

-- All that can be found satisfies the predicate.
abbrev Finds : (ℕ → Type 0) → Simple → Type 0
Finds P (found k) = P k
Finds P never = Unit
Finds P bad_date = Unit

if-Finds :
    (P : ℕ → Type 0) (b : Bool) (x z : Simple)
    → (b ≡ true → Finds P x)
    → (b ≡ false → Finds P z)
    → Finds P (if b then x else z)
if-Finds P true x z h k = h refl
if-Finds P false x z h k = k refl

Finds-found : (P : ℕ → Type 0) (r : Simple) (k : ℕ) → Finds P r → r ≡ found k → P k
Finds-found P r k h e = subst (Finds P) e h

not_late : (y a : ℕ) → ltb y a ≡ false → a ≤ y
not_late y a h = ground arith

not_early : (a b : ℕ) → leb a b ≡ true → a ≤ b
not_early a b h = ground arith

-- A day that fits into February of the year of its own number fits into every February.
short_february : (d : ℕ) → d ≤ 31 → d ≤ days_in_month 1 d → d ≤ 28
unfolding days_in_month is_leap_year
short_february d hi h = ground arith

february_from : (y : ℕ) → 28 ≤ days_in_month 1 y
unfolding days_in_month
february_from y = ground arith

-- The loop that takes the day for the year stops at a month that has the day.
fits_any_year : (d m y : ℕ) → d ≤ 31 → d ≤ days_in_month m d → d ≤ days_in_month m y
fits_any_year d m y hi h = elim (ℕ_discrete m 1) [
  | yes e ↦
      let f : d ≤ days_in_month 1 d = rw (← e) h in
      rw e (omega (arith, short_february d hi f, february_from y))
  | no e ↦ omega (arith, h, days_in_other m d e, days_in_other m y e)
]

months_down-fits : (d m y : ℕ) → d ≤ 31 → d ≤ days_in_month (months_down d m y) y
unfolding months_down
months_down-fits d zero y hi = omega (arith, hi, days_table y)
months_down-fits d (suc m) y hi = elim (dec_lt (days_in_month (suc m) y) d) [
  | yes lt ↦ rw (lt→ltb _ _ lt) (months_down-fits d m y hi)
  | no ge ↦ ground (arith, ge)
]

months_down-le : (d m y : ℕ) → months_down d m y ≤ m
unfolding months_down
months_down-le d zero y = omega arith
months_down-le d (suc m) y = ground (arith, months_down-le d m y)

module _ (wd : ℕ) (some_wd : 0 < wd) (mask : wd < 128) (d y : ℕ) (lo : 1 ≤ d) (hi : d ≤ 31)
    (b : base ≤ y) (start : ℕ) where
  abbrev t : Date
  t = from_dse start

  abbrev moved : ℕ → ℕ
  moved m = advance_to_wd (dse y m d) wd

  abbrev Right : Simple → Type 0
  Right = Finds (InYear wd d y start)

  moved-InYear :
      (m : ℕ)
      → m < 12
      → d ≤ days_in_month m y
      → start ≤ moved m
      → dse_year (moved m) ≤ y
      → InYear wd d y start (moved m)
  unfolding dse_year
  moved-InYear m h fits le year =
      let vd : IsValid (date y m d) = valid_date d m y b h lo fits in
      let vj : IsValid (from_dse (moved m)) = from_dse-IsValid (moved m) in
      let adv = advance_to_wd-Advances (dse y m d) wd some_wd mask in
      let not_before =
        key-le_of_dse (date y m d) (from_dse (moved m)) vd vj
          (omega (arith, adv.from, dse-from_dse (moved m))) in
      record {
        fits = (date y m d, vd, (refl, tt, refl), adv);
        from = le;
        year = omega (arith, year, not_before, vj, day-le _ vj);
      }

  -- A later month starts behind the start.
  later-from :
      (m : ℕ)
      → m < 12
      → d ≤ days_in_month m y
      → t.year * 12 + t.month < y * 12 + m
      → start ≤ moved m
  later-from m h fits lt =
      let vd : IsValid (date y m d) = valid_date d m y b h lo fits in
      let v : IsValid t = from_dse-IsValid start in
      let adv = advance_to_wd-Advances (dse y m d) wd some_wd mask in
      omega (
        arith,
        adv.from,
        dse-le_of_key t (date y m d) v vd (omega (arith, day-le t v, lt)),
        dse-from_dse start,
      )

  stop_after_year-Right :
      (m : ℕ) (next : Simple)
      → m < 12
      → d ≤ days_in_month m y
      → Right next
      → Right (stop_after_year y start (moved m) next)
  unfolding stop_after_year
  stop_after_year-Right m next h fits n =
      if-Finds (InYear wd d y start) (ltb y (dse_year (moved m))) never _ (λ _. tt)
        (λ e.
          if-Finds (InYear wd d y start) (leb start (moved m)) (found (moved m)) next
            (λ f. moved-InYear m h fits (not_early _ _ f) (not_late _ _ e)) (λ _. n))

  last-Right :
      t.year ≡ y
      → Right (
          let j = moved (months_up d (t.month + 1) d) in
          if t.month == 11 then never else if ltb y (dse_year j) then never else found j)
  last-Right ey =
      let m = months_up d (t.month + 1) d in
      let v : IsValid t = from_dse-IsValid start in
      if-Finds (InYear wd d y start) (t.month == 11) never _ (λ _. tt)
        (λ e.
          let room : t.month + 1 < 12 = ground (arith, e, v.month_in) in
          let up = months_up-Seeks d (t.month + 1) d room hi in
          let in_ : m < 12 = months_up-lt d (t.month + 1) d room hi in
          let fits = fits_any_year d m y hi (not_early _ _ up.passes) in
          if-Finds (InYear wd d y start) (ltb y (dse_year (moved m))) never (found (moved m))
            (λ _. tt)
            (λ f.
              moved-InYear m in_ fits (later-from m in_ fits (omega (arith, ey, up.from)))
                (not_late _ _ f)))

-- For a trigger of a day, a year and weekdays and a start in that year or before it, a date that is
-- found lies in that year, is one that the trigger names and does not lie before the start. The day
-- and the year are in range and the weekdays are not empty.
pub day_year_wd-InYear :
    (d wd y start k : ℕ)
    → 0 < wd
    → wd < 128
    → 1 ≤ d
    → d ≤ 31
    → base ≤ y
    → (from_dse start).year ≤ y
    → simple_day_year_wd d y wd start ≡ found k
    → InYear wd d y start k
unfolding simple_day_year_wd
day_year_wd-InYear d wd y start k some_wd mask lo hi b le e =
    let s = from_dse start in
    let v : IsValid s = from_dse-IsValid start in
    let january : d ≤ days_in_month 0 y = omega (arith, days_table y, hi) in
    let kept = year_kept wd some_wd mask d y lo hi b 0 (omega arith) january in
    let back = months_down d (s.month - 1) y in
    let this = λ (ey : s.year ≡ y).
      if-Finds (InYear wd d y start) (leb d (days_in_month s.month y)) _ _
        (λ f.
          stop_after_year-Right wd some_wd mask d y lo hi b start s.month _ v.month_in
            (not_early _ _ f) (last-Right wd some_wd mask d y lo hi b start ey))
        (λ _. last-Right wd some_wd mask d y lo hi b start ey) in
    Finds-found (InYear wd d y start) _ k
      (if-Finds (InYear wd d y start) (ltb (y + 1) s.year || (ltb y s.year && ltb 0 s.month)) never
        _ (λ _. tt)
        (λ _.
          if-Finds (InYear wd d y start) (ltb y s.year) _ _ (λ f. absurd (ground (arith, f, le)))
            (λ _.
              if-Finds (InYear wd d y start) (ltb s.year y) _ _
                (λ f.
                  moved-InYear wd some_wd mask d y lo hi b start 0 (omega arith) january
                    (later-from wd some_wd mask d y lo hi b start 0 (omega arith) january
                      (ground (arith, f, v.month_in)))
                    kept)
                (λ f.
                  let ey : s.year ≡ y = ground (arith, f, le) in
                  if-Finds (InYear wd d y start) (ltb 0 s.month) _ _
                    (λ _.
                      stop_after_year-Right wd some_wd mask d y lo hi b start back _
                        (omega (arith, months_down-le d (s.month - 1) y, v.month_in))
                        (months_down-fits d (s.month - 1) y hi) (this ey))
                    (λ _. this ey)))))
      e
