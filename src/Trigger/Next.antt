-- ===== src/Trigger/Next.antt =====
-- GetNextTriggerDate of remind-v06.02.10/src/trigger.c: the UNTIL and the completion of a TODO, the
-- simple trigger date, and then BACK, REP and SKIP. A loop `while (iter++ <= max)` gives up on its
-- last round whatever it finds there; its rounds are a number here.
pub mod Moves
pub mod Repeat
use remind_rb.Base.{
  ℕ, zero, suc, ◌+◌, ◌-◌, ◌*◌, ◌/◌, Bool, true, false, not, ◌&&◌, Option, none, some, ltb, leb,
  if◌then◌else◌,
}
use remind_rb.Base.Int.{ℤ, pos, negsuc, pos_part, neg_part, ◌+ℤ◌, ◌-ℤ◌, ltb_ℤ}
use remind_rb.Errors.{Result, ok, err, ◌>>=◌, e_cant_trig, e_bad_date}
use remind_rb.Trigger.{Trigger, Skip, no_skip, skip_skip, before_skip, after_skip}
use remind_rb.Trigger.Simple.{Simple, found, never, bad_date, next_simple_trig}

-- IsOmitted for the trigger's LOCALOMIT and OMITFUNC, MaxSatIter, and whether a calendar is made.
pub record Setting : Type 0 where
  pub omitted : ℤ → Result Bool
  pub max_sat_iter : ℕ
  pub calmode : Bool

-- The return of -1, or a date and where the next attempt starts.
pub data Attempt : Type 0 where
  over : Attempt
  at_date : ℤ → ℕ → Attempt

unfoldable pub until_passed : Trigger → ℕ → Bool
until_passed t start = not t.is_todo && elim t.until [ none ↦ false | some u ↦ ltb u start ]

unfoldable pub completed : Bool → Trigger → ℕ → Bool
completed calmode t start =
    not calmode && (t.is_todo && elim t.complete_through [ none ↦ false | some c ↦ leb start c ])

module _ (omitted : ℤ → Result Bool) where
  -- The AFTER skip goes back to the start of a block of omitted days.
  unfoldable pub block_start : ℕ → ℕ → Result ℕ
  block_start zero start = omitted (pos start -ℤ pos 1) >>= λ omit. err e_cant_trig
  block_start (suc rounds) zero =
      omitted (negsuc 0) >>= λ omit. if omit then err e_cant_trig else ok 0
  block_start (suc rounds) (suc before) =
      omitted (pos before) >>= λ omit. if omit then block_start rounds before else ok (suc before)

  -- BACK by a number of days that are not omitted.
  unfoldable pub back_days : ℕ → ℕ → ℤ → Result ℤ
  back_days zero zero simple = err e_cant_trig
  back_days zero (suc mod_) simple = omitted (simple -ℤ pos 1) >>= λ omit. err e_cant_trig
  back_days (suc rounds) zero simple = ok simple
  back_days (suc rounds) (suc mod_) simple = omitted (simple -ℤ pos 1) >>= λ omit.
      back_days rounds (if omit then suc mod_ else mod_) (simple -ℤ pos 1)

  unfoldable pub skip_before : ℕ → ℤ → Result ℤ
  skip_before zero simple = omitted simple >>= λ omit. err e_cant_trig
  skip_before (suc rounds) simple = omitted simple >>= λ omit.
      if omit
      then (if ltb_ℤ (simple -ℤ pos 1) (pos 0)
          then err e_cant_trig
          else skip_before rounds (simple -ℤ pos 1))
      else ok simple

  unfoldable pub skip_after : ℕ → ℤ → Result ℤ
  skip_after zero simple = omitted simple >>= λ omit. err e_cant_trig
  skip_after (suc rounds) simple =
      omitted simple >>= λ omit. if omit then skip_after rounds (simple +ℤ pos 1) else ok simple

  unfoldable pub back_up : ℕ → ℤ → ℤ → Result ℤ
  back_up max_iter (negsuc n) simple = ok (simple +ℤ negsuc n)
  back_up max_iter (pos zero) simple = ok simple
  back_up max_iter (pos (suc n)) simple =
      back_days (if ltb max_iter (suc n * 2) then suc n * 2 else max_iter) (suc n) simple

  unfoldable pub skip_moves : Skip → ℕ → ℤ → Result ℤ
  skip_moves no_skip max_iter simple = ok simple
  skip_moves skip_skip max_iter simple = ok simple
  skip_moves before_skip max_iter simple = skip_before max_iter simple
  skip_moves after_skip max_iter simple = skip_after max_iter simple

-- `if (simple < start) { mod = (start - simple) / rep; simple += mod * rep; if (simple < start) ... }`
unfoldable pub next_repeat : ℕ → ℕ → ℤ → ℤ
next_repeat zero start simple = simple
next_repeat (suc rep) start simple =
    let gap = start + neg_part simple - pos_part simple in
    let moved = simple +ℤ pos (gap / suc rep * suc rep) in
    if ltb_ℤ simple (pos start)
    then (if ltb_ℤ moved (pos start) then moved +ℤ pos (suc rep) else moved)
    else simple

unfoldable pub until_exceeded : Option ℕ → ℤ → Bool
until_exceeded none simple = false
until_exceeded (some u) simple = ltb_ℤ (pos u) simple

-- A date of -1 is read by the caller as the end of the trigger.
unfoldable pub attempt_of : ℤ → ℕ → Attempt
attempt_of (negsuc zero) nextstart = over
attempt_of (negsuc (suc n)) nextstart = at_date (negsuc (suc n)) nextstart
attempt_of (pos n) nextstart = at_date (pos n) nextstart

-- From the simple trigger date on.
unfoldable pub from_simple : Setting → Trigger → ℕ → Simple → Result Attempt
from_simple s t start never = ok over
from_simple s t start bad_date = err e_bad_date
from_simple s t start (found j) = back_up s.omitted s.max_sat_iter t.back (pos j) >>= λ backed.
    skip_moves s.omitted t.skip s.max_sat_iter (next_repeat t.rep start backed) >>= λ simple.
    ok (if until_exceeded t.until simple then over else attempt_of simple (j + 1))

unfoldable pub search_start : Setting → Skip → ℕ → Result ℕ
search_start s no_skip start = ok start
search_start s skip_skip start = ok start
search_start s before_skip start = ok start
search_start s after_skip start = block_start s.omitted s.max_sat_iter start

unfoldable pub get_next_trigger_date : Setting → Trigger → ℕ → Result Attempt
get_next_trigger_date s t start =
    if until_passed t start
    then ok over
    else if completed s.calmode t start
    then ok over
    else (search_start s t.skip start >>= λ from. from_simple s t from (next_simple_trig from t))
