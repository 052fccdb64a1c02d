-- ===== src/Trigger/Simple/Spec.antt =====
-- What NextSimpleTrig of remind-v06.02.10/src/trigger.c has to find: the first date, from the start
-- on, that fits the day, month, year and weekdays which the trigger names.
use remind_rb.Base.{ℕ, ◌≤◌, ◌<◌, ◌≡◌, sym, subst, Bool, true, false, Option, none, some, arith}
use remind_rb.Calendar.{Date, from_dse}
use remind_rb.Calendar.Days.{IsValid, dse_of, from_dse-IsValid, dse-from_dse, from_dse-dse}
use remind_rb.Calendar.Order.{key, dse-le_of_key, key-le_of_dse, dse-lt_of_key}
use remind_rb.Trigger.Simple.{Simple, found, never, bad_date}
use remind_rb.Trigger.Weekday.{IsOn, Advances}

abbrev pub OptIs : Option ℕ → ℕ → Type 0
OptIs none x = Unit
OptIs (some a) x = x ≡ a

-- The parts of a date that are named.
abbrev pub Fits : Option ℕ → Option ℕ → Option ℕ → Date → Type 0
Fits d m y t = OptIs d t.day × OptIs m t.month × OptIs y t.year

-- The days that a trigger names. With no weekday, or with weekdays and no day of the month, they
-- are the days that fit. With both, they are the days on which the first such weekday from a date
-- that fits comes.
abbrev pub Named : ℕ → Option ℕ → Option ℕ → Option ℕ → Bool → ℕ → Type 0
Named wd d m y false j = Fits d m y (from_dse j)
Named wd none m y true j = Fits none m y (from_dse j) × IsOn wd j
Named wd (some d) m y true j =
    (b : Date) × IsValid b × Fits (some d) m y b × Advances wd (dse_of b) j

-- `j` is the first day from `start` on that satisfies `P`.
pub record First (P : ℕ → Type 0) (start j : ℕ) : Type 0 where
  pub from : start ≤ j
  pub holds : P j
  pub least : (k : ℕ) → start ≤ k → P k → j ≤ k

-- The right answer: the first day, or no day is left, or there is no such day at all.
abbrev pub Answers : (ℕ → Type 0) → ℕ → Simple → Type 0
Answers P start (found j) = First P start j
Answers P start never = (k : ℕ) → P k → k < start
Answers P start bad_date = (k : ℕ) → ¬ P k

-- Answers by dates, in the order of `key`.
module _ (Q : Date → Type 0) (start : ℕ) where
  key_of_start : (k : ℕ) → start ≤ k → key (from_dse start) ≤ key (from_dse k)
  key_of_start k h =
      key-le_of_dse _ _ (from_dse-IsValid start) (from_dse-IsValid k)
        (omega (arith, dse-from_dse start, dse-from_dse k))

  pub First-date :
      (r : Date)
      → IsValid r
      → Q r
      → key (from_dse start) ≤ key r
      → ((t : Date) → IsValid t → Q t → key (from_dse start) ≤ key t → key r ≤ key t)
      → First (λ j. Q (from_dse j)) start (dse_of r)
  First-date r v q h least = record {
    from = omega (arith, dse-from_dse start, dse-le_of_key _ r (from_dse-IsValid start) v h);
    holds = subst Q (sym (from_dse-dse r v)) q;
    least = λ k hk qk. omega (
      arith,
      dse-from_dse k,
      dse-le_of_key r (from_dse k) v (from_dse-IsValid k)
          (least (from_dse k) (from_dse-IsValid k) qk (key_of_start k hk)),
    );
  }

  pub no_date_left :
      ((t : Date) → IsValid t → Q t → key t < key (from_dse start))
      → (k : ℕ) → Q (from_dse k)
      → k < start
  no_date_left past k q = omega (
    arith,
    dse-from_dse k,
    dse-from_dse start,
    dse-lt_of_key _ _ (from_dse-IsValid k) (from_dse-IsValid start)
        (past (from_dse k) (from_dse-IsValid k) q),
  )

  pub start-First : Q (from_dse start) → First (λ j. Q (from_dse j)) start start
  start-First q = record { from = omega arith; holds = q; least = λ k h _. h }
