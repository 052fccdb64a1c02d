-- ===== src/Trigger/Compute.antt =====
-- ComputeTrigger, ComputeTriggerNoAdjustDuration and AdjustTriggerForDuration of
-- remind-v06.02.10/src/trigger.c, for triggers with no time zone.
pub mod Plain
pub mod Answer
pub mod Safety
pub mod Duration
use Prim.Native.Nat.{bit_or}
use remind_rb.Base.{
  ℕ, zero, suc, ◌+◌, ◌-◌, ◌*◌, Bool, true, false, not, ◌&&◌, ◌||◌, Option, none, some, ltb, leb,
  ◌==◌, if◌then◌else◌,
}
use remind_rb.Base.Int.{ℤ, pos, negsuc, pos_part, ◌+ℤ◌, ◌-ℤ◌, ◌*ℤ◌, ltb_ℤ}
use remind_rb.Errors.{
  Result, ok, err, ◌>>=◌, e_cant_trig, e_too_many_localomit, e_date_over, e_duration_no_at,
  e_rep_fulspec, undefined_sum,
}
use remind_rb.Trigger.{Trigger, TimeTrig, Skip, no_skip, skip_skip, before_skip, after_skip}
use remind_rb.Trigger.Next.{Setting, Attempt, over, at_date, get_next_trigger_date}

abbrev pub trig_attempts : ℕ
trig_attempts = 500

abbrev pub minutes_per_day : ℕ
minutes_per_day = 1440

-- The return of -1 with `expired` set, and LastTriggerDate where it is saved, or a date.
pub data Outcome : Type 0 where
  expired_ : Option ℤ → Outcome
  due : ℤ → Outcome

unfoldable pub is_skip_skip : Skip → Bool
is_skip_skip skip_skip = true
is_skip_skip no_skip = false
is_skip_skip before_skip = false
is_skip_skip after_skip = false

unfoldable pub is_no_skip : Skip → Bool
is_no_skip no_skip = true
is_no_skip skip_skip = false
is_no_skip before_skip = false
is_no_skip after_skip = false

unfoldable pub is_no_back : ℤ → Bool
is_no_back (pos zero) = true
is_no_back (pos (suc n)) = false
is_no_back (negsuc n) = false

unfoldable pub omit_of : Setting → Trigger → ℤ → Result Bool
omit_of s t r = if is_skip_skip t.skip then s.omitted r else ok false

-- Whether the trigger is one that need not be scanned again.
unfoldable pub is_simple : Trigger → Bool
is_simple t = is_no_back t.back && (is_no_skip t.skip && (t.rep == 0))

-- One turn of `while (nattempts++ < TRIG_ATTEMPTS)` after its calls, with what further turns do.
unfoldable pub judge : Trigger → ℕ → ℕ → ℕ → ℤ → ℕ → Bool → (ℕ → Result Outcome) → Result Outcome
judge t today duration_days start result nextstart omit again =
    let next =
      if is_skip_skip t.skip && (omit && (leb nextstart start && not (ltb_ℤ result (pos start))))
      then pos_part result + 1
      else nextstart in
    if not (ltb_ℤ (result +ℤ pos duration_days) (pos today))
      && (not (is_skip_skip t.skip) || not omit)
    then ok (due result)
    else if is_simple t
    then ok (expired_ (some result))
    else if leb next start
    then ok (expired_ (some result))
    else again next

unfoldable pub turn :
    Setting → Trigger → ℕ → ℕ → ℕ → (ℕ → Result Outcome) → Attempt → Result Outcome
turn s t today duration_days start again over = ok (expired_ none)
turn s t today duration_days start again (at_date result nextstart) =
    omit_of s t result >>= λ omit. judge t today duration_days start result nextstart omit again

unfoldable pub attempts : ℕ → Setting → Trigger → ℕ → ℕ → ℕ → Result Outcome
attempts zero s t today duration_days start = err e_cant_trig
attempts (suc left) s t today duration_days start =
    get_next_trigger_date s t start
    >>= turn s t today duration_days start (λ next. attempts left s t today duration_days next)

unfoldable pub has_full_date : Trigger → Bool
has_full_date t = elim t.d [
  | none ↦ false
  | some d ↦ elim t.m [ none ↦ false | some m ↦ elim t.y [ none ↦ false | some y ↦ true ] ]
]

unfoldable pub duration_without_at : TimeTrig → Bool
duration_without_at tim = elim tim.duration [
  | none ↦ false
  | some n ↦ elim tim.ttime [ none ↦ true | some a ↦ false ]
]

-- The weekdays are the global WeekdayOmits.
unfoldable pub compute_trigger_no_adjust_duration :
    Setting → ℕ → Trigger → TimeTrig → ℕ → ℕ → Result Outcome
compute_trigger_no_adjust_duration s weekday_omits t tim today duration_days =
    if bit_or weekday_omits t.localomit == 127
    then err e_too_many_localomit
    else if ltb today duration_days
    then err e_date_over
    else if duration_without_at tim
    then err e_duration_no_at
    else if not (t.rep == 0) && not (has_full_date t)
    then err e_rep_fulspec
    else attempts trig_attempts s t today duration_days (today - duration_days)

-- The event's start and length, where the trigger has a time.
unfoldable pub with_event : ℤ → Trigger → TimeTrig → Trigger
with_event r t tim = elim tim.ttime [
  | none ↦ t
  | some at ↦
      let start = pos minutes_per_day *ℤ r +ℤ pos at in
      record t {
        eventstart = some start;
        eventstart_orig = some start;
        eventduration = elim tim.duration [ none ↦ t.eventduration | some n ↦ some n ];
      }
]

-- What is left of the duration from midnight on.
unfoldable pub cut_duration : ℕ → ℤ → TimeTrig → Result TimeTrig
cut_duration today r tim = elim tim.duration [
  | none ↦ err undefined_sum
  | some n ↦ elim tim.ttime [
    | none ↦ err undefined_sum
    | some at ↦ ok (record tim {
      duration = some ((n -ℤ (pos today -ℤ r) *ℤ pos minutes_per_day) +ℤ pos at);
      ttime = some 0;
    })
  ]
]

unfoldable pub adjust_trigger_for_duration :
    ℕ → ℤ → Trigger → TimeTrig → Result (ℤ × Trigger × TimeTrig)
adjust_trigger_for_duration today r t tim =
    if ltb_ℤ r (pos today) && not (ltb_ℤ (r +ℤ pos t.duration_days) (pos today))
    then (cut_duration today r tim >>= λ cut. ok (pos today, with_event r t tim, cut))
    else ok (r, with_event r t tim, tim)

-- The date that is returned, and the trigger with `expired` as it is set.
unfoldable pub date_of : Outcome → ℤ
date_of (expired_ last) = negsuc 0
date_of (due r) = r

unfoldable pub set_expired : Outcome → Trigger → Trigger
set_expired (expired_ last) t = record t { expired = true }
set_expired (due r) t = record t { expired = false }

unfoldable pub is_today : ℤ → ℕ → Bool
is_today (pos n) today = n == today
is_today (negsuc n) today = false

unfoldable pub compute_trigger :
    Setting → ℕ → Trigger → TimeTrig → ℕ → Result (ℤ × Trigger × TimeTrig)
compute_trigger s weekday_omits t tim today =
    compute_trigger_no_adjust_duration s weekday_omits t tim today 0 >>= λ o.
    if is_today (date_of o) today
    then ok (date_of o, with_event (date_of o) (set_expired o t) tim, tim)
    else if t.duration_days == 0
    then adjust_trigger_for_duration today (date_of o) (set_expired o t) tim
    else (compute_trigger_no_adjust_duration s weekday_omits t tim today t.duration_days
        >>= λ again. adjust_trigger_for_duration today (date_of again) (set_expired again t) tim)
