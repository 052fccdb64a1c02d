-- ===== src/Trigger/Compute/Plain.antt =====
-- GetNextTriggerDate of remind-v06.02.10/src/trigger.c for triggers with no BACK, no REP and no
-- BEFORE or AFTER: one call of it gives the next named day, up to the UNTIL.
use remind_rb.Base.{
  ℕ, ◌+◌, ◌≤◌, ◌<◌, ◌≡◌, refl, ◌⊎◌, inl, inr, Bool, true, false, Option, none, some, arith, ltb,
  if◌then◌else◌, dec_lt, le→ltb, lt→ltb,
}
use remind_rb.Base.Int.{ℤ, pos}
use remind_rb.Errors.{Result, ok, err, e_bad_date}
use remind_rb.Trigger.{Trigger, no_skip, skip_skip}
use remind_rb.Trigger.Simple.{Simple, found, never, bad_date, next_simple_trig}
use remind_rb.Trigger.Simple.Spec.{Named, Answers, First}
use remind_rb.Trigger.Simple.Answer.{IsParsed, IsOpen, has_wd, next_simple_trig-Answers}
use remind_rb.Trigger.Next.{
  Setting, Attempt, over, at_date, get_next_trigger_date, from_simple, search_start, until_passed,
  completed, until_exceeded, attempt_of, back_up, next_repeat, skip_moves,
}

-- A trigger of a plain kind, with parts in range, one of them open.
pub record IsPlain (t : Trigger) : Type 0 where
  pub no_back : t.back ≡ pos 0
  pub no_rep : t.rep ≡ 0
  pub skips : (t.skip ≡ no_skip) ⊎ (t.skip ≡ skip_skip)
  pub not_todo : t.is_todo ≡ false
  pub parsed : IsParsed t.wd t.d t.m t.y
  pub open_ : IsOpen t.d t.m t.y (has_wd t.wd)

abbrev pub IsWithin : Option ℕ → ℕ → Type 0
IsWithin none k = Unit
IsWithin (some u) k = k ≤ u

abbrev pub NamedBy : Trigger → ℕ → Type 0
NamedBy t = Named t.wd t.d t.m t.y (has_wd t.wd)

-- A day on which the trigger is due: it is named, up to the UNTIL, and with SKIP it is not omitted.
abbrev pub Wanted : Setting → Trigger → ℕ → Type 0
Wanted s t k =
    NamedBy t k × IsWithin t.until k × (t.skip ≡ skip_skip → s.omitted (pos k) ≡ ok false)

-- What one call of GetNextTriggerDate answers.
pub data Step (s : Setting) (t : Trigger) (start : ℕ) : Result Attempt → Type 0 where
  no_more : ((k : ℕ) → start ≤ k → NamedBy t k → ¬ IsWithin t.until k) → Step s t start (ok over)
  candidate :
      (j : ℕ)
      → First (NamedBy t) start j
      → IsWithin t.until j
      → Step s t start (ok (at_date (pos j) (j + 1)))
  impossible : ((k : ℕ) → ¬ NamedBy t k) → Step s t start (err e_bad_date)

until_none : (r : ℤ) → until_exceeded none r ≡ false
unfolding until_exceeded
until_none r = refl

until_after : (u j : ℕ) → u < j → until_exceeded (some u) (pos j) ≡ true
unfolding until_exceeded
until_after u j h = ground arith

until_before : (u j : ℕ) → j ≤ u → until_exceeded (some u) (pos j) ≡ false
unfolding until_exceeded
until_before u j h = ground arith

skip_moves-plain :
    (s : Setting) (t : Trigger) (r : ℤ)
    → (t.skip ≡ no_skip) ⊎ (t.skip ≡ skip_skip)
    → skip_moves s.omitted t.skip s.max_sat_iter r ≡ ok r
unfolding skip_moves
skip_moves-plain s t r (inl e) = rw e refl
skip_moves-plain s t r (inr e) = rw e refl

search_start-plain :
    (s : Setting) (t : Trigger) (start : ℕ)
    → (t.skip ≡ no_skip) ⊎ (t.skip ≡ skip_skip)
    → search_start s t.skip start ≡ ok start
unfolding search_start
search_start-plain s t start (inl e) = rw e refl
search_start-plain s t start (inr e) = rw e refl

from_simple-plain :
    (s : Setting) (t : Trigger) (start j : ℕ)
    → IsPlain t
    → from_simple s t start (found j)
      ≡ ok (if until_exceeded t.until (pos j) then over else at_date (pos j) (j + 1))
unfolding from_simple back_up next_repeat attempt_of
from_simple-plain s t start j p =
    rw (p.no_back, p.no_rep, skip_moves-plain s t (pos j) p.skips) refl

from_plain :
    (s : Setting) (t : Trigger) (start : ℕ)
    → IsPlain t
    → (a : Simple) → Answers (NamedBy t) start a
    → Step s t start (from_simple s t start a)
unfolding from_simple
from_plain s t start p never a = no_more (λ k h n _. absurd (omega (arith, a k n)))
from_plain s t start p bad_date a = impossible a
from_plain s t start p (found j) a = rw (from_simple-plain s t start j p) (last t.until refl)
  where
    last :
        (u : Option ℕ)
        → u ≡ t.until
        → Step s t start (ok (if until_exceeded u (pos j) then over else at_date (pos j) (j + 1)))
    last none e = rw (until_none (pos j)) (candidate j a (rw (← e) tt))
    last (some u) e = elim (dec_lt u j) [
      | yes h ↦
          rw (until_after u j h) (
            no_more (λ k lo n w. let v : k ≤ u = rw (← e) at w in omega (arith, a.least k lo n, v)))
      | no h ↦
          rw (until_before u j (omega arith))
            (candidate j a (rw (← e) (let v : j ≤ u = omega arith in v)))
    ]

abbrev passed : Option ℕ → ℕ → Bool
passed u start = elim u [ none ↦ false | some u ↦ ltb u start ]

until_cases :
    (u : Option ℕ) (start : ℕ)
    → ((passed u start ≡ true) × ((k : ℕ) → start ≤ k → ¬ IsWithin u k)) ⊎ (passed u start ≡ false)
until_cases none start = inr refl
until_cases (some u) start = elim (dec_lt u start) [
  | yes h ↦ inl (lt→ltb u start h, λ k lo w. omega arith)
  | no h ↦ inr (le→ltb u start (omega arith))
]

get_next-plain :
    (s : Setting) (t : Trigger) (start : ℕ)
    → IsPlain t
    → get_next_trigger_date s t start
      ≡ (if passed t.until start then ok over else from_simple s t start (next_simple_trig start t))
unfolding get_next_trigger_date completed until_passed
get_next-plain s t start p = ground (arith, p.not_todo, search_start-plain s t start p.skips)

pub get_next-Step :
    (s : Setting) (t : Trigger) (start : ℕ)
    → IsPlain t
    → Step s t start (get_next_trigger_date s t start)
get_next-Step s t start p = rw (get_next-plain s t start p) (elim (until_cases t.until start) [
  | inl (e, late) ↦ rw e (no_more (λ k lo n w. late k lo w))
  | inr e ↦ rw e (
      from_plain s t start p (next_simple_trig start t)
        (next_simple_trig-Answers start t p.parsed p.open_))
])
