-- ===== src/Examples/Omits.antt =====
-- The omits: runs, and the theorems of Omit at an input.
use remind_rb.Base.{
  ℕ, ◌≤◌, ◌<◌, ◌≡◌, ◌↔◌, ◌⊎◌, refl, Bool, true, List, [], ◌∷◌, none, arith, get_or, zero, suc,
}
use remind_rb.Base.Int.{pos}
use remind_rb.Errors.{ok, err, e_too_many_full}
use remind_rb.Calendar.{
  Date, date, dse, is_leap_year, days_in_month, month_index, month_days, year_start,
}
use remind_rb.Calendar.Days.{dse_of}
use remind_rb.Trigger.Weekday.{wd_bit}
use remind_rb.Omit.{
  Omits, max_full_omits, push_omit_context, pop_omit_context, clear_global_omits, add_global_omit,
  omit_full_range, omit_full_loop, is_omitted, omitted_day,
}
use remind_rb.Omit.Arrays.{
  bexists_int_array, bexists_loop, insert_into_sorted_array, insert_loop, Contains, IsSorted,
  bexists_iff, Contains-insert, insert-IsSorted,
}
use remind_rb.Omit.Day.{IsValid, Omitted, Adds, is_omitted_iff, add_global_omit-Adds}
use remind_rb.Omit.Ranges.{Added, omit_full_range-adds}
use remind_rb.Omit.Contexts.{Inside, done, clear, add, nest, pop-push}

omit_runs : Unit {0}
unfolding bexists_int_array bexists_loop insert_into_sorted_array insert_loop dse is_leap_year
    days_in_month month_index month_days year_start push_omit_context pop_omit_context
    clear_global_omits add_global_omit omit_full_range omit_full_loop is_omitted omitted_day wd_bit
omit_runs = tt

abbrev three : List ℕ
three = 10 ∷ 20 ∷ 40 ∷ []

three_up : (i j : ℕ) → i < j → j < 3 → get_or three i 0 < get_or three j 0
three_up i zero h l = absurd (omega arith)
three_up zero (suc zero) h l = omega arith
three_up (suc i) (suc zero) h l = absurd (omega arith)
three_up zero (suc (suc zero)) h l = omega arith
three_up (suc zero) (suc (suc zero)) h l = omega arith
three_up (suc (suc i)) (suc (suc zero)) h l = absurd (omega arith)
three_up i (suc (suc (suc j))) h l = absurd (omega arith)

three-IsSorted : IsSorted three
three-IsSorted = three_up

insert_30 : insert_into_sorted_array three 30 ≡ 10 ∷ 20 ∷ 30 ∷ 40 ∷ []
unfolding omit_runs
insert_30 = refl

not_30 : ¬ Contains three 30
unfolding omit_runs
not_30 c =
    let e : bexists_int_array three 30 ≡ true = (bexists_iff three 30 three-IsSorted).1 c in
    ground (arith, e)

bexists_iff_example : (bexists_int_array three 20 ≡ true) ↔ Contains three 20
bexists_iff_example = bexists_iff three 20 three-IsSorted

Contains-insert_example :
    Contains (insert_into_sorted_array three 30) 40 ↔ ((◌≡◌ {A = ℕ} 40 30) ⊎ Contains three 40)
Contains-insert_example = Contains-insert three 30 three-IsSorted 40

insert-IsSorted_example : IsSorted (insert_into_sorted_array three 30)
insert-IsSorted_example = insert-IsSorted three 30 three-IsSorted not_30

-- Three full dates, and Sundays.
abbrev some_omits : Omits
some_omits = record { full = three; partial = []; weekday_omits = 64; saved = [] }

some_omits-IsValid : IsValid some_omits
some_omits-IsValid = record {
  full_sorted = three-IsSorted;
  partial_sorted = λ i j h l. absurd (omega arith);
  full_fits = omega arith;
}

is_omitted_iff_example :
    (b : Bool) × (is_omitted some_omits none 0 (pos 20) ≡ ok b)
    × ((b ≡ true) ↔ Omitted some_omits 0 20)
is_omitted_iff_example = is_omitted_iff some_omits 0 20 some_omits-IsValid

add_global_omit-Adds_example :
    (((add_global_omit some_omits (pos 30)).1 ≡ ok tt)
      × (3 < max_full_omits)
      × Adds some_omits 30 (add_global_omit some_omits (pos 30)).0)
    ⊎ (((add_global_omit some_omits (pos 30)).1 ≡ err e_too_many_full)
        × (3 ≡ max_full_omits)
        × ((add_global_omit some_omits (pos 30)).0 ≡ some_omits))
add_global_omit-Adds_example = add_global_omit-Adds some_omits 30 some_omits-IsValid

-- `OMIT Feb 27 2024 THROUGH Mar 2 2024`.
abbrev from_day : Date
from_day = date 2024 1 27

abbrev to_day : Date
to_day = date 2024 2 2

from_fits : 27 ≤ days_in_month 1 2024
unfolding omit_runs
from_fits = omega arith

to_fits : 2 ≤ days_in_month 2 2024
unfolding omit_runs
to_fits = omega arith

in_order : dse_of from_day ≤ dse_of to_day
unfolding omit_runs
in_order = omega arith

omit_full_range-adds_example :
    Added some_omits (dse_of from_day) (dse_of to_day) (omit_full_range from_day to_day some_omits)
omit_full_range-adds_example =
    omit_full_range-adds from_day to_day some_omits some_omits-IsValid from_fits to_fits in_order

abbrev save : Omits → Omits
save o = record o {
  saved =
      record { full_save = o.full; part_save = o.partial; weekday_save = o.weekday_omits }
      ∷ o.saved;
}

abbrev no_dates : Omits → Omits
no_dates o = record o { full = []; partial = []; weekday_omits = 0 }

pushed : (o : Omits) → push_omit_context true o ≡ ok (save o)
unfolding omit_runs
pushed o = refl

popped : (o : Omits) → pop_omit_context (save o) ≡ ok o
unfolding omit_runs
popped o = refl

-- A clear, a push with its pop, and a new date.
abbrev inner_push :
    Inside (save some_omits) (add_global_omit (clear_global_omits (save some_omits)) (pos 30)).0
inner_push =
    let o = clear_global_omits (save some_omits) in
    clear (nest (pushed o) done (popped o) (add (pos 30) done))

pop-push_example :
    pop_omit_context (add_global_omit (clear_global_omits (save some_omits)) (pos 30)).0
    ≡ ok some_omits
pop-push_example = pop-push some_omits (save some_omits) _ (pushed some_omits) inner_push
