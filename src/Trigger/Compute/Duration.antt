-- ===== src/Trigger/Compute/Duration.antt =====
-- AdjustTriggerForDuration of remind-v06.02.10/src/trigger.c moves the start of an event to today's
-- midnight and keeps its end.
use remind_rb.Base.{
  ℕ, ◌+◌, ◌*◌, ◌≡◌, refl, some, arith, not, ◌&&◌, inl, inr, Bool-cases, if◌then◌else◌,
}
use remind_rb.Base.Int.{
  ℤ, pos, pos_part, neg_part, ◌+ℤ◌, ◌-ℤ◌, ◌*ℤ◌, ltb_ℤ, -ℤ_parts, +ℤ_parts, eq_of_parts,
}
use remind_rb.Errors.{ok}
use remind_rb.Trigger.{Trigger, TimeTrig}
use remind_rb.Trigger.Compute.{
  adjust_trigger_for_duration, cut_duration, with_event, minutes_per_day,
}

-- The minute in which an event ends that starts at `at` on day `r` and lasts `n` minutes.
abbrev pub end_of : ℤ → ℕ → ℤ → ℤ
end_of r at n = pos minutes_per_day *ℤ r +ℤ pos at +ℤ n

day_times :
    (a : ℤ)
    → pos_part (a *ℤ pos 1440) + neg_part a * 1440 ≡ neg_part (a *ℤ pos 1440) + pos_part a * 1440
unfolding ◌*ℤ◌
day_times a = ground arith

times_day :
    (a : ℤ)
    → pos_part (pos 1440 *ℤ a) + neg_part a * 1440 ≡ neg_part (pos 1440 *ℤ a) + pos_part a * 1440
unfolding ◌*ℤ◌
times_day a = ground arith

cut_end :
    (today at : ℕ) (r n : ℤ)
    → end_of (pos today) 0 ((n -ℤ (pos today -ℤ r) *ℤ pos minutes_per_day) +ℤ pos at)
      ≡ end_of r at n
cut_end today at r n =
    let gap = pos today -ℤ r in
    let m = gap *ℤ pos 1440 in
    let left = n -ℤ m in
    eq_of_parts _ _ (
      omega (
        arith,
        -ℤ_parts (pos today) r,
        day_times gap,
        -ℤ_parts n m,
        +ℤ_parts left (pos at),
        times_day (pos today),
        +ℤ_parts (pos 1440 *ℤ pos today) (pos 0),
        +ℤ_parts (pos 1440 *ℤ pos today +ℤ pos 0) (left +ℤ pos at),
        times_day r,
        +ℤ_parts (pos 1440 *ℤ r) (pos at),
        +ℤ_parts (pos 1440 *ℤ r +ℤ pos at) n,
      ))

-- For an event with a time and a duration the adjustment succeeds and the event still ends in the
-- same minute. The result is today, or the date itself, and it is the date itself just when that
-- is not past or the event does not reach to today.
pub adjust-keeps_end :
    (today at : ℕ) (r n : ℤ) (t : Trigger) (tim : TimeTrig)
    → tim.ttime ≡ some at
    → tim.duration ≡ some n
    → (at' : ℕ) × (n' : ℤ) × (r' : ℤ) × (adjust_trigger_for_duration today r t tim
        ≡ ok (r', with_event r t tim, record tim { ttime = some at'; duration = some n' }))
      × (end_of r' at' n' ≡ end_of r at n)
      × (r' ≡ (
          if ltb_ℤ r (pos today) && not (ltb_ℤ (r +ℤ pos t.duration_days) (pos today))
          then pos today
          else r))
unfolding adjust_trigger_for_duration cut_duration
adjust-keeps_end today at r n t tim ea en =
    elim (Bool-cases (ltb_ℤ r (pos today) && not (ltb_ℤ (r +ℤ pos t.duration_days) (pos today)))) [
      | inl e ↦ rw e (
          rw (ea, en)
            (
              0,
              (n -ℤ (pos today -ℤ r) *ℤ pos minutes_per_day) +ℤ pos at,
              pos today,
              refl,
              cut_end today at r n,
              refl,
            ))
      | inr e ↦ rw e (rw (ea, en) (at, n, r, refl, refl, refl))
    ]
