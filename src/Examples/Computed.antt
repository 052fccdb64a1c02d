-- ===== src/Examples/Computed.antt =====
-- BACK, REP, SKIP and the attempts: runs, and the theorems of Trigger.Next and Trigger.Compute at an
-- input.
use Prim.Native.Nat.{bit_or}
use remind_rb.Base.{
  ℕ, ◌+◌, ◌*◌, ◌≤◌, ◌<◌, ◌≡◌, ◌↔◌, ◌⊎◌, inr, refl, false, not, ◌&&◌, [], ◌∷◌, none, some, arith,
  seek, if◌then◌else◌,
}
use remind_rb.Base.Int.{ℤ, pos, ◌+ℤ◌, ◌-ℤ◌, ◌*ℤ◌, ltb_ℤ}
use remind_rb.Errors.{ok}
use remind_rb.Calendar.{
  dse, from_dse, is_leap_year, days_in_month, days_in_year, month_index, month_days, year_start,
  back_year, find_month,
}
use remind_rb.Omit.{Omits, is_omitted, omitted_day, syndrome}
use remind_rb.Omit.Arrays.{bexists_int_array, bexists_loop}
use remind_rb.Trigger.{Trigger, TimeTrig, skip_skip}
use remind_rb.Trigger.Weekday.{wd_bit, advance_to_wd}
use remind_rb.Trigger.Simple.{next_simple_trig, simple_switch, try_month, simple_day_wd}
use remind_rb.Trigger.Simple.Loops.{next_month, prev_month, months_up}
use remind_rb.Trigger.Next.{
  Setting, skip_after, skip_before, next_repeat, get_next_trigger_date, from_simple, search_start,
  until_passed, completed, until_exceeded, attempt_of, back_up, skip_moves,
}
use remind_rb.Trigger.Next.Moves.{EndsBlock, StartsBlock, skip_after_iff, skip_before_iff}
use remind_rb.Trigger.Next.Repeat.{next_repeat-first}
use remind_rb.Trigger.Compute.{
  compute_trigger_no_adjust_duration, compute_trigger, trig_attempts, attempts, turn, judge,
  omit_of, is_simple, is_skip_skip, is_no_skip, is_no_back, duration_without_at, has_full_date,
  date_of, set_expired, with_event, is_today, adjust_trigger_for_duration, cut_duration,
}
use remind_rb.Trigger.Compute.Plain.{IsPlain}
use remind_rb.Trigger.Compute.Answer.{Computed, compute_trigger-Computed}
use remind_rb.Trigger.Compute.Safety.{NotPast, compute_trigger-NotPast}
use remind_rb.Trigger.Compute.Duration.{end_of, adjust-keeps_end}
use remind_rb.Examples.Triggers.{mon_13}

compute_runs : Unit {0}
unfolding dse from_dse is_leap_year days_in_month days_in_year month_index month_days year_start
    back_year find_month is_omitted omitted_day syndrome bexists_int_array bexists_loop seek wd_bit
    advance_to_wd next_simple_trig simple_switch try_month simple_day_wd next_month prev_month
    months_up skip_after skip_before next_repeat get_next_trigger_date from_simple search_start
    until_passed completed until_exceeded attempt_of back_up skip_moves
    compute_trigger_no_adjust_duration compute_trigger attempts turn judge omit_of is_simple
    is_skip_skip is_no_skip is_no_back duration_without_at has_full_date date_of set_expired
    with_event is_today adjust_trigger_for_duration cut_duration ◌+ℤ◌ ◌-ℤ◌ ◌*ℤ◌
compute_runs = tt

-- 14 September 2026 is omitted.
abbrev omits : Omits
omits = record { full = 13405 ∷ []; partial = []; weekday_omits = 0; saved = [] }

abbrev setting : Setting
setting = record { omitted = λ r. is_omitted omits none 0 r; max_sat_iter = 10000; calmode = false }

-- `REM Mon 13 SKIP`
abbrev mon_13_skip : Trigger
mon_13_skip = record mon_13 { skip = skip_skip }

abbrev untimed : TimeTrig
untimed = record { ttime = none; duration = none }

no_change :
    compute_trigger setting 0 mon_13_skip untimed 13379 ≡ ok (pos 13440, mon_13_skip, untimed)
unfolding compute_runs
no_change = refl

some_weekday : ¬ (bit_or 0 0 ≡ 127)
some_weekday e = absurd (omega arith)

no_duration : duration_without_at untimed ≡ false
unfolding compute_runs
no_duration = refl

mon_13_skip-IsPlain : IsPlain mon_13_skip
mon_13_skip-IsPlain = record {
  no_back = refl;
  no_rep = refl;
  skips = inr refl;
  not_todo = refl;
  parsed = omega arith;
  open_ = tt;
}

compute_trigger-Computed_example :
    Computed setting mon_13_skip 13379
      (13379 + trig_attempts)
      (compute_trigger_no_adjust_duration setting 0 mon_13_skip untimed 13379 0)
compute_trigger-Computed_example =
    compute_trigger-Computed setting 0 mon_13_skip untimed 13379 mon_13_skip-IsPlain some_weekday
      no_duration

compute_trigger-NotPast_example : NotPast 13379 (pos 13440)
compute_trigger-NotPast_example =
    compute_trigger-NotPast setting 0 mon_13_skip untimed 13379 (pos 13440, mon_13_skip, untimed)
      no_change

-- An event of three days from 18:00 on day 100, seen on day 102.
abbrev three_days : Trigger
three_days = record mon_13 { duration_days = 3 }

abbrev long_event : TimeTrig
long_event = record { ttime = some 1080; duration = some (pos 4320) }

adjust-keeps_end_example :
    (at' : ℕ) × (n' : ℤ) × (r' : ℤ) × (adjust_trigger_for_duration 102
        (pos 100)
        three_days
        long_event
      ≡ ok (
        r',
        with_event (pos 100) three_days long_event,
        record long_event { ttime = some at'; duration = some n' },
      ))
    × (end_of r' at' n' ≡ end_of (pos 100) 1080 (pos 4320))
    × (r' ≡ (
        if ltb_ℤ (pos 100) (pos 102) && not (ltb_ℤ (pos 100 +ℤ pos 3) (pos 102))
        then pos 102
        else pos 100))
adjust-keeps_end_example =
    adjust-keeps_end 102 1080 (pos 100) (pos 4320) three_days long_event refl refl

skip_after_iff_example :
    (skip_after setting.omitted 10 (pos 13405) ≡ ok (pos 13406))
    ↔ EndsBlock setting.omitted 10 13405 13406
skip_after_iff_example = skip_after_iff setting.omitted 10 13405 13406

skip_before_iff_example :
    (skip_before setting.omitted 10 (pos 13405) ≡ ok (pos 13404))
    ↔ StartsBlock setting.omitted 10 13405 13404
skip_before_iff_example = skip_before_iff setting.omitted 10 13405 13404

next_repeat-first_example :
    (i k : ℕ) × (next_repeat 7 100 (pos 50) ≡ pos k)
    × (k ≡ 50 + i * 7)
    × (100 ≤ k)
    × ((i ≡ 0) ⊎ (k < 100 + 7))
next_repeat-first_example = next_repeat-first 6 100 50
