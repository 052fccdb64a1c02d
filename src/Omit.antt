-- ===== src/Omit.antt =====
-- The global OMITs of remind-v06.02.10/src/omit.c: the sorted arrays of full and partial dates, the
-- weekdays, and the stack of saved contexts. A day of the year is `month * 32 + day`. What is
-- saved only for a warning, a file name and a line number, is left out.
pub mod Arrays
pub mod Day
pub mod Ranges
pub mod Contexts
use remind_rb.Base.{
  ℕ, zero, suc, ◌+◌, ◌-◌, ◌*◌, ◌%◌, Bool, true, false, not, ◌&&◌, ◌||◌, List, [], ◌∷◌, Option, none,
  some, length, ltb, leb, ◌==◌, if◌then◌else◌,
}
use remind_rb.Base.Int.{ℤ, pos, negsuc}
use remind_rb.Errors.{
  Error, Result, ok, err, e_pop_no_push, e_no_mem, e_too_many_full, e_too_many_localomit,
  e_bad_date, e_spec_mon, undefined_shift,
}
use remind_rb.Calendar.{Date, dse, from_dse, month_days, days_in_month}
use remind_rb.Trigger.Weekday.{wd_bit}
use Arrays.{bexists_int_array, insert_into_sorted_array}

abbrev pub max_full_omits : ℕ
max_full_omits = 1000

abbrev pub max_partial_omits : ℕ
max_partial_omits = 366

pub record OmitContext : Type 0 where
  pub full_save : List ℕ
  pub part_save : List ℕ
  pub weekday_save : ℕ

pub record Omits : Type 0 where
  pub full : List ℕ
  pub partial : List ℕ
  pub weekday_omits : ℕ
  pub saved : List OmitContext

unfoldable pub clear_global_omits : Omits → Omits
clear_global_omits o = record o { full = []; partial = []; weekday_omits = 0 }

unfoldable pub destroy_omit_contexts : Omits → Omits × ℕ
destroy_omit_contexts o = (record o { saved = [] }, length o.saved)

-- `memory` tells whether the three allocations succeed.
unfoldable pub push_omit_context : Bool → Omits → Result Omits
push_omit_context memory o =
    if memory
    then ok (record o {
      saved =
          record { full_save = o.full; part_save = o.partial; weekday_save = o.weekday_omits }
          ∷ o.saved;
    })
    else err e_no_mem

restore : Omits → List OmitContext → Result Omits
restore o [] = err e_pop_no_push
restore o (c ∷ rest) = ok (record {
  full = c.full_save;
  partial = c.part_save;
  weekday_omits = c.weekday_save;
  saved = rest;
})

unfoldable pub pop_omit_context : Omits → Result Omits
unfolding restore
pop_omit_context o = restore o o.saved

unfoldable pub syndrome : ℕ → ℕ → ℕ
syndrome m d = m * 32 + d

-- The part of IsOmitted after the OMITFUNC, for a day from 1990 on.
unfoldable pub omitted_day : Omits → ℕ → ℕ → Bool
unfolding syndrome
omitted_day o n localomit =
    let t = from_dse n in
    if wd_bit localomit (n % 7)
    then true
    else if wd_bit o.weekday_omits (n % 7)
    then true
    else if bexists_int_array o.full n
    then true
    else bexists_int_array o.partial (syndrome t.month t.day)

-- `omitfunc` is the OMITFUNC's answer for a day, if there is such a function. A day before 1990 is
-- shifted by a negative remainder in the source.
unfoldable pub is_omitted : Omits → Option (ℤ → Result Bool) → ℕ → ℤ → Result Bool
unfolding omitted_day
is_omitted o (some f) localomit n = f n
is_omitted o none localomit (pos n) = ok (omitted_day o n localomit)
is_omitted o none localomit (negsuc n) = err undefined_shift

unfoldable pub add_global_omit : Omits → ℤ → Omits × Result (Unit {0})
add_global_omit o (negsuc n) = (o, ok tt)
add_global_omit o (pos n) =
    if length o.full == max_full_omits
    then (o, err e_too_many_full)
    else if bexists_int_array o.full n
    then (o, ok tt)
    else (record o { full = insert_into_sorted_array o.full n }, ok tt)

-- `for (tmp = start; tmp <= end; tmp++)` over the full OMITs, with the days left to go.
unfoldable pub omit_full_loop : ℕ → ℕ → Omits → Omits × Result (Unit {0})
omit_full_loop zero n o = (o, ok tt)
omit_full_loop (suc left) n o =
    let next =
      omit_full_loop left (n + 1) (record o { full = insert_into_sorted_array o.full n }) in
    let same = omit_full_loop left (n + 1) o in
    if bexists_int_array o.full n
    then same
    else if leb max_full_omits (length o.full)
    then (o, err e_too_many_full)
    else next

-- The full OMITs of `OMIT date THROUGH date`.
unfoldable pub omit_full_range : Date → Date → Omits → Omits × Result (Unit {0})
omit_full_range a b o =
    let start = dse a.year a.month a.day in
    let end = dse b.year b.month b.day in
    if ltb (days_in_month a.month a.year) a.day || ltb (days_in_month b.month b.year) b.day
    then (o, err e_bad_date)
    else if ltb end start
    then (o, err e_bad_date)
    else omit_full_loop (end + 1 - start) start o

-- `dc++; if (dc > MonthDays[mc]) { dc = 1; mc++; if (mc > 11) mc = 0; }`
unfoldable pub next_day : ℕ × ℕ → ℕ × ℕ
next_day (m, d) =
    if ltb (month_days m) (d + 1)
    then (if ltb 11 (m + 1) then (0, 1) else (m + 1, 1))
    else (m, d + 1)

-- The `while(1)` over the partial OMITs, on rounds. `none` means that the rounds ran out.
unfoldable pub omit_partial_loop : ℕ → ℕ × ℕ → ℕ × ℕ → List ℕ → Option (List ℕ)
unfolding syndrome
omit_partial_loop zero c e a = none
omit_partial_loop (suc rounds) c e a =
    let key = syndrome c.0 c.1 in
    let a' = if bexists_int_array a key then a else insert_into_sorted_array a key in
    let rest = omit_partial_loop rounds (next_day c) e a' in
    if (c.0 == e.0) && (c.1 == e.1) then some a' else rest
