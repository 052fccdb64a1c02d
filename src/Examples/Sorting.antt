-- ===== src/Examples/Sorting.antt =====
-- The sort buffer: runs, and the theorems of Sort at an input.
use remind_rb.Base.{◌≡◌, refl, true, [], ◌∷◌, none, some}
use remind_rb.Sort.{
  SortFlags, sort_ascend, sort_descend, sort_none, Sortrem, SortBuffer, compare_rems,
  compare_number, compare_time, insert_sorted, insert_into_sort_buffer,
}
use remind_rb.Sort.Order.{Orders, compare_rems-Orders}
use remind_rb.Sort.Buffer.{IsSorted, ties, insert_each, insert_each-sorts_stably}

sort_runs : Unit {0}
unfolding compare_rems compare_number compare_time insert_sorted insert_into_sort_buffer
sort_runs = tt

abbrev by_date_down : SortFlags
by_date_down = record {
  by_date = sort_descend;
  by_time = sort_ascend;
  by_prio = sort_none;
  untimed_first = true;
}

abbrev late : Sortrem
late = record { trigdate = 20; trigtime = some 600; priority = 5000; typ = 0; text = 1 }

abbrev untimed : Sortrem
untimed = record { trigdate = 20; trigtime = none; priority = 5000; typ = 0; text = 2 }

abbrev early : Sortrem
early = record { trigdate = 10; trigtime = none; priority = 5000; typ = 0; text = 3 }

abbrev late_too : Sortrem
late_too = record late { text = 4 }

abbrev empty : SortBuffer
empty = record { queue = []; flags = by_date_down }

sorted_run :
    (insert_each (early ∷ late ∷ untimed ∷ late_too ∷ []) empty).queue
    ≡ untimed ∷ late ∷ late_too ∷ early ∷ []
unfolding sort_runs
sorted_run = refl

compare_rems-Orders_example : Orders (compare_rems by_date_down)
compare_rems-Orders_example = compare_rems-Orders by_date_down

insert_each-sorts_stably_example :
    IsSorted by_date_down (insert_each (early ∷ late ∷ untimed ∷ late_too ∷ []) empty).queue
    × ((x : Sortrem)
        → ties by_date_down x (insert_each (early ∷ late ∷ untimed ∷ late_too ∷ []) empty).queue
          ≡ ties by_date_down x (early ∷ late ∷ untimed ∷ late_too ∷ []))
insert_each-sorts_stably_example =
    insert_each-sorts_stably (early ∷ late ∷ untimed ∷ late_too ∷ []) empty refl
