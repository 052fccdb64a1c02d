-- ===== src/Trigger/Simple/Answer.antt =====
-- NextSimpleTrig of remind-v06.02.10/src/trigger.c against its specification, over all cases of the
-- switch but that of a day, a year and a weekday with no month.
use remind_rb.Base.{ℕ, ◌≤◌, ◌<◌, ◌≡◌, refl, Bool, true, false, not, Option, none, some, arith, ◌==◌}
use remind_rb.Calendar.{base}
use remind_rb.Trigger.{Trigger}
use remind_rb.Trigger.Simple.{next_simple_trig, simple_switch}
use remind_rb.Trigger.Simple.Spec.{Fits, Named, Answers, start-First}
use remind_rb.Trigger.Simple.Dates.{simple_month_lem, simple_year_lem, simple_day_lem}
use remind_rb.Trigger.Simple.DayMonths.{
  AnswersDate, simple_day_month_lem, simple_day_year_lem, simple_month_year_lem, simple_date_lem,
}
use remind_rb.Trigger.Simple.Weekdays.{
  simple_wd_lem, simple_year_wd_lem, simple_month_wd_lem, simple_month_year_wd_lem,
}
use remind_rb.Trigger.Simple.Moved.{simple_day_wd_lem}
use remind_rb.Trigger.Simple.MovedYears.{simple_day_month_wd_lem, simple_date_wd_lem}

abbrev pub IsIn : ℕ → ℕ → Option ℕ → Type 0
IsIn lo hi none = Unit
IsIn lo hi (some x) = (lo ≤ x) × (x ≤ hi)

-- What the parser lets through: a mask of seven bits, a day, a month and a year that are in range.
pub record IsParsed (wd : ℕ) (d m y : Option ℕ) : Type 0 where
  pub mask : wd < 128
  pub day_in : IsIn 1 31 d
  pub month_in : IsIn 0 11 m
  pub year_in : IsIn base 5990 y

-- Some part of the date is open, and it is not a day and a year with a weekday.
abbrev pub IsOpen : Option ℕ → Option ℕ → Option ℕ → Bool → Type 0
IsOpen (some d) (some m) (some y) w = ⊥
IsOpen (some d) none (some y) true = ⊥
IsOpen _ _ _ _ = Unit

switch_Answers :
    (start wd : ℕ) (d m y : Option ℕ) (w : Bool)
    → IsParsed wd d m y
    → (w ≡ true → 0 < wd)
    → IsOpen d m y w
    → Answers (Named wd d m y w) start (simple_switch start wd d m y w)
unfolding simple_switch
switch_Answers start wd none none none false p e o =
    start-First (Fits none none none) start (tt, tt, tt)
switch_Answers start wd none none none true p e o = simple_wd_lem wd (e refl) p.mask start
switch_Answers start wd (some d) none none false p e o =
    simple_day_lem start d p.day_in.0 p.day_in.1
switch_Answers start wd none (some m) none false p e o = simple_month_lem start m (omega arith)
switch_Answers start wd none none (some y) false p e o = simple_year_lem start y p.year_in.0
switch_Answers start wd (some d) (some m) none false p e o =
    simple_day_month_lem start d m p.day_in.0 (omega arith)
switch_Answers start wd (some d) none (some y) false p e o =
    simple_day_year_lem start d y p.day_in.0 p.day_in.1 p.year_in.0
switch_Answers start wd none (some m) (some y) false p e o =
    simple_month_year_lem start m y (omega arith) p.year_in.0
switch_Answers start wd (some d) (some m) (some y) w p e o = absurd o
switch_Answers start wd none none (some y) true p e o =
    simple_year_wd_lem wd (e refl) p.mask start y p.year_in.0
switch_Answers start wd none (some m) none true p e o =
    simple_month_wd_lem wd (e refl) p.mask start m (omega arith)
switch_Answers start wd (some d) none none true p e o =
    simple_day_wd_lem wd (e refl) p.mask start d p.day_in.0 p.day_in.1
switch_Answers start wd (some d) none (some y) true p e o = absurd o
switch_Answers start wd (some d) (some m) none true p e o =
    simple_day_month_wd_lem wd (e refl) p.mask d m p.day_in.0 (omega arith) start
switch_Answers start wd none (some m) (some y) true p e o =
    simple_month_year_wd_lem wd (e refl) p.mask start m y (omega arith) p.year_in.0

abbrev pub has_wd : ℕ → Bool
has_wd wd = not (wd == 0)

-- With some of day, month, year and weekday left open, NextSimpleTrig returns the first day from the
-- start on that the trigger names, -1 just when no such day is left, and E_BAD_DATE only if the
-- calendar has no such day. The parts are in range, and they are not a day and a year with a
-- weekday and no month.
pub next_simple_trig-Answers :
    (start : ℕ) (t : Trigger)
    → IsParsed t.wd t.d t.m t.y
    → IsOpen t.d t.m t.y (has_wd t.wd)
    → Answers (Named t.wd t.d t.m t.y (has_wd t.wd)) start (next_simple_trig start t)
unfolding next_simple_trig
next_simple_trig-Answers start t p o =
    switch_Answers start t.wd t.d t.m t.y (has_wd t.wd) p (λ e. ground arith) o

date_Answers :
    (wd start d m y : ℕ) (w : Bool)
    → IsParsed wd (some d) (some m) (some y)
    → (w ≡ true → 0 < wd)
    → AnswersDate
        (Named wd (some d) (some m) (some y) w)
        (simple_switch start wd (some d) (some m) (some y) w)
unfolding simple_switch
date_Answers wd start d m y false p e = simple_date_lem d m y p.day_in.0 (omega arith) p.year_in.0
date_Answers wd start d m y true p e =
    simple_date_wd_lem wd (e refl) p.mask d m y p.day_in.0 (omega arith) p.year_in.0

-- With a day, a month and a year, NextSimpleTrig returns the only day that the trigger names,
-- before the start or not, and E_BAD_DATE just when the calendar has no such day.
pub next_simple_trig-AnswersDate :
    (start d m y : ℕ) (t : Trigger)
    → IsParsed t.wd t.d t.m t.y
    → t.d ≡ some d
    → t.m ≡ some m
    → t.y ≡ some y
    → AnswersDate (Named t.wd (some d) (some m) (some y) (has_wd t.wd)) (next_simple_trig start t)
unfolding next_simple_trig
next_simple_trig-AnswersDate start d m y t p ed em ey =
    let q : IsParsed t.wd (some d) (some m) (some y) = rw (ed, em, ey) at p in
    rw (ed, em, ey) (date_Answers t.wd start d m y (has_wd t.wd) q (λ e. ground arith))
