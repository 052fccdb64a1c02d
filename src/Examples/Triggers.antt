-- ===== src/Examples/Triggers.antt =====
-- Trigger dates: runs, and the theorems of Trigger at an input.
use remind_rb.Base.{◌≤◌, ◌<◌, ◌≡◌, refl, true, false, none, some, arith, seek}
use remind_rb.Base.Int.{pos}
use remind_rb.Calendar.{
  dse, from_dse, is_leap_year, days_in_month, days_in_year, month_index, month_days, year_start,
  back_year, find_month,
}
use remind_rb.Trigger.{Trigger, no_skip}
use remind_rb.Trigger.Weekday.{wd_bit, advance_to_wd}
use remind_rb.Trigger.Simple.{
  found, bad_date, next_simple_trig, simple_switch, try_month, stop_after_year, dse_year, dse_month,
  simple_wd, simple_day, simple_month, simple_year, simple_day_month, simple_day_year,
  simple_month_year, simple_date, simple_year_wd, simple_month_wd, simple_day_wd,
  simple_day_year_wd, simple_day_month_wd, simple_month_year_wd, simple_date_wd,
}
use remind_rb.Trigger.Simple.Loops.{
  next_month, prev_month, skip_months, skip_years, months_up, months_down,
}
use remind_rb.Trigger.Simple.Spec.{Named, Answers}
use remind_rb.Trigger.Simple.Answer.{next_simple_trig-Answers, next_simple_trig-AnswersDate}
use remind_rb.Trigger.Simple.DayMonths.{AnswersDate}
use remind_rb.Trigger.Simple.DayYear.{leap_day-is_skipped, InYear, day_year_wd-InYear}

pub simple_runs : Unit {0}
unfolding dse from_dse is_leap_year days_in_month days_in_year month_index month_days year_start
    back_year find_month seek wd_bit advance_to_wd next_month prev_month skip_months skip_years
    months_up months_down try_month stop_after_year dse_year dse_month next_simple_trig
    simple_switch simple_wd simple_day simple_month simple_year simple_day_month simple_day_year
    simple_month_year simple_date simple_year_wd simple_month_wd simple_day_wd simple_day_year_wd
    simple_day_month_wd simple_month_year_wd simple_date_wd
simple_runs = tt

-- `REM Mon 13`: the Monday on or after the 13th.
abbrev pub mon_13 : Trigger
mon_13 = record {
  expired = false;
  wd = 1;
  d = some 13;
  m = none;
  y = none;
  back = pos 0;
  rep = 0;
  localomit = 0;
  skip = no_skip;
  until = none;
  is_todo = false;
  complete_through = none;
  duration_days = 0;
  eventstart = none;
  eventstart_orig = none;
  eventduration = none;
}

-- 19 August 2026 is day 13379; the next one is 14 September 2026, day 13405.
mon_13_run : next_simple_trig 13379 mon_13 ≡ found 13405
unfolding simple_runs
mon_13_run = refl

-- `REM 29 Feb 2023`
abbrev bad_leap_day : Trigger
bad_leap_day = record mon_13 { d = some 29; m = some 1; y = some 2023; wd = 0 }

bad_leap_day_run : next_simple_trig 13379 bad_leap_day ≡ bad_date
unfolding simple_runs
bad_leap_day_run = refl

next_simple_trig-Answers_example :
    Answers (Named 1 (some 13) none none true) 13379 (next_simple_trig 13379 mon_13)
next_simple_trig-Answers_example = next_simple_trig-Answers 13379 mon_13 (omega arith) tt

next_simple_trig-AnswersDate_example :
    AnswersDate (Named 0 (some 29) (some 1) (some 2023) false) (next_simple_trig 13379 bad_leap_day)
next_simple_trig-AnswersDate_example =
    next_simple_trig-AnswersDate 13379 29 1 2023 bad_leap_day (omega arith) refl refl refl

-- `REM Mon 29 2024` from 30 January 2024, day 12447, whose Monday was the 29th.
leap_day-is_skipped_example :
    (simple_day_year_wd 29 2024 1 12447 ≡ found (advance_to_wd (dse 2024 2 29) 1))
    × Named 1 (some 29) none (some 2024) true (advance_to_wd (dse 2024 1 29) 1)
    × (12447 ≤ advance_to_wd (dse 2024 1 29) 1)
    × (advance_to_wd (dse 2024 1 29) 1 < advance_to_wd (dse 2024 2 29) 1)
unfolding simple_runs
leap_day-is_skipped_example =
    leap_day-is_skipped 1 2024 12447 (omega arith) (omega arith) (omega arith) refl refl refl
      (omega arith)

day_year_wd-InYear_example : InYear 1 1 2024 12000 12418
unfolding simple_runs
day_year_wd-InYear_example =
    day_year_wd-InYear 1 1 2024 12000 12418 (omega arith) (omega arith) (omega arith) (omega arith)
      (omega arith) (omega arith) refl
