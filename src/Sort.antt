-- ===== src/Sort.antt =====
-- The buffer of sorted reminders in remind-v06.02.10/src/sort.c. The globals SortByDate, SortByTime,
-- SortByPrio and UntimedBeforeTimed are a record, NO_TIME is `none`, and of the three signs `plus`
-- says that the first reminder comes first.
pub mod Order
pub mod Buffer
use remind_rb.Base.{
  ℕ, Bool, true, false, List, [], ◌∷◌, Option, none, some, not, ltb, if◌then◌else◌,
}
use remind_rb.Errors.{Result, ok, err, e_no_mem}

-- SORT_NONE, SORT_ASCEND and SORT_DESCEND.
pub data SortFlag : Type 0 where
  sort_none sort_ascend sort_descend : SortFlag

pub record SortFlags : Type 0 where
  pub by_date : SortFlag
  pub by_time : SortFlag
  pub by_prio : SortFlag
  pub untimed_first : Bool

-- The text and the url are known by a number.
pub record Sortrem : Type 0 where
  pub trigdate : ℕ
  pub trigtime : Option ℕ
  pub priority : ℕ
  pub typ : ℕ
  pub text : ℕ

pub data Sign : Type 0 where
  minus none_ plus : Sign

abbrev pub negate : Sign → Sign
negate minus = plus
negate none_ = none_
negate plus = minus

-- `(flag != SORT_DESCEND) ? 1 : -1`
abbrev pub after_sign : SortFlag → Sign
after_sign sort_none = plus
after_sign sort_ascend = plus
after_sign sort_descend = minus

-- `if (a < b) return after; if (a > b) return -after;` and what comes next in the code.
unfoldable pub compare_number : SortFlag → ℕ → ℕ → Sign → Sign
compare_number flag a b next =
    if ltb a b then after_sign flag else if ltb b a then negate (after_sign flag) else next

-- The tests on the times, where one or both may be NO_TIME, and what comes next.
unfoldable pub compare_time : Bool → SortFlag → Option ℕ → Option ℕ → Sign → Sign
unfolding compare_number
compare_time untimed_first flag none none next = next
compare_time untimed_first flag none (some b) next = if untimed_first then plus else minus
compare_time untimed_first flag (some a) none next = if untimed_first then minus else plus
compare_time untimed_first flag (some a) (some b) next = compare_number flag a b next

unfoldable pub compare_rems : SortFlags → Sortrem → Sortrem → Sign
compare_rems f a b = compare_number f.by_date a.trigdate b.trigdate (
    compare_time f.untimed_first f.by_time a.trigtime b.trigtime
      (compare_number f.by_prio a.priority b.priority none_))

-- The search for the place and the links around it.
unfoldable pub insert_sorted : SortFlags → Sortrem → List Sortrem → List Sortrem
insert_sorted f srem [] = srem ∷ []
insert_sorted f srem (cur ∷ rest) =
    let later = insert_sorted f srem rest in
    elim (compare_rems f srem cur) [
      | plus ↦ srem ∷ cur ∷ rest
      | minus ↦ cur ∷ later
      | none_ ↦ cur ∷ later
    ]

pub record SortBuffer : Type 0 where
  pub queue : List Sortrem
  pub flags : SortFlags

-- With no memory for the entry the queue is issued, here the second result, and sorting ends.
unfoldable pub insert_into_sort_buffer :
    Bool → Sortrem → SortBuffer → SortBuffer × List Sortrem × Result (Unit {0})
insert_into_sort_buffer memory srem s =
    if memory then (record s { queue = insert_sorted s.flags srem s.queue }, [], ok tt) else (
      record {
        queue = [];
        flags = record {
          by_date = sort_none;
          by_time = sort_none;
          by_prio = sort_none;
          untimed_first = false;
        };
      },
      s.queue,
      err e_no_mem,
    )
