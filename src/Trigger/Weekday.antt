-- ===== src/Trigger/Weekday.antt =====
-- The macro ADVANCE_TO_WD of remind-v06.02.10/src/trigger.c. A set of weekdays is a mask of seven
-- bits, Monday first, and day 0 is a Monday.
use remind_rb.Base.{
  ℕ, ◌+◌, ◌-◌, ◌/◌, ◌%◌, ◌^◌, ◌≤◌, ◌<◌, ◌≡◌, refl, Bool, true, ◌||◌, ◌&&◌, arith, ltb, ◌==◌, every,
  every_below, seek, seek-Seeks,
}

-- `wd & (1 << k)`
unfoldable pub wd_bit : ℕ → ℕ → Bool
wd_bit wd k = wd / 2 ^ k % 2 == 1

-- `while (!(wd & (1 << (x % 7)))) x++`, in at most seven rounds.
unfoldable pub advance_to_wd : ℕ → ℕ → ℕ
advance_to_wd x wd = seek 7 (λ k. wd_bit wd (k % 7)) x

-- Day `j` falls on a weekday of the mask.
abbrev pub IsOn : ℕ → ℕ → Type 0
IsOn wd j = wd_bit wd (j % 7) ≡ true

-- `j` is the first day from `x` on that falls on a weekday of the mask.
pub record Advances (wd x j : ℕ) : Type 0 where
  pub from : x ≤ j
  pub near : j < x + 7
  pub on : IsOn wd j
  pub first : (k : ℕ) → x ≤ k → IsOn wd k → j ≤ k

bit_table :
    every 128 (λ w. w == 0 || (ltb (advance_to_wd 0 w) 7 && wd_bit w (advance_to_wd 0 w))) ≡ true
unfolding every advance_to_wd seek wd_bit
bit_table = refl

-- A mask of seven bits that is not empty has a bit.
some_bit : (wd : ℕ) → 0 < wd → wd < 128 → (k : ℕ) × (k < 7) × (wd_bit wd k ≡ true)
some_bit wd lo hi = (
  advance_to_wd 0 wd,
  ground (arith, every_below _ 128 wd bit_table hi),
  ground (arith, every_below _ 128 wd bit_table hi),
)

-- The loop of ADVANCE_TO_WD ends for every mask that is not empty, within seven days.
pub advance_to_wd-Advances : (x wd : ℕ) → 0 < wd → wd < 128 → Advances wd x (advance_to_wd x wd)
unfolding advance_to_wd
advance_to_wd-Advances x wd lo hi =
    let (k, small, on) = some_bit wd lo hi in
    let i = x + (k + 7 - x % 7) % 7 in
    let e : i % 7 ≡ k = omega arith in
    let s = seek-Seeks 7 (λ d. wd_bit wd (d % 7)) x i (omega arith) (omega arith) (rw e on) in
    record {
      from = s.from;
      near = omega (arith, s.first i (omega arith) (rw e on));
      on = s.passes;
      first = s.first;
    }

-- A later day advances to no earlier one.
pub Advances-mono : (wd x y j k : ℕ) → x ≤ y → Advances wd x j → Advances wd y k → j ≤ k
Advances-mono wd x y j k h a b = a.first k (omega (arith, b.from)) b.on
