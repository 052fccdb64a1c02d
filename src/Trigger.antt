-- ===== src/Trigger.antt =====
-- The types Trigger and TimeTrig of remind-v06.02.10/src/types.h, as far as trigger.c computes with
-- them. The sentinels NO_DAY, NO_MON, NO_YR, NO_UNTIL, NO_DATE and NO_TIME are `none`; NO_WD is the
-- empty mask 0, and NO_BACK and NO_REP are 0.
pub mod Weekday
pub mod Simple
pub mod Next
pub mod Compute
use remind_rb.Base.{ℕ, Bool, Option}
use remind_rb.Base.Int.{ℤ}

-- NO_SKIP, SKIP_SKIP, BEFORE_SKIP and AFTER_SKIP.
pub data Skip : Type 0 where
  no_skip skip_skip before_skip after_skip : Skip

pub record Trigger : Type 0 where
  pub expired : Bool
  pub wd : ℕ
  pub d : Option ℕ
  pub m : Option ℕ
  pub y : Option ℕ
  pub back : ℤ
  pub rep : ℕ
  pub localomit : ℕ
  pub skip : Skip
  pub until : Option ℕ
  pub is_todo : Bool
  pub complete_through : Option ℕ
  pub duration_days : ℕ
  pub eventstart : Option ℤ
  pub eventstart_orig : Option ℤ
  pub eventduration : Option ℤ

pub record TimeTrig : Type 0 where
  pub ttime : Option ℕ
  pub duration : Option ℤ
