-- ===== src/Trigger/Next/Repeat.antt =====
-- REP in GetNextTriggerDate of remind-v06.02.10/src/trigger.c.
use remind_rb.Base.{
  ℕ, suc, ◌+◌, ◌-◌, ◌*◌, ◌/◌, ◌%◌, ◌≤◌, ◌<◌, ◌≡◌, refl, ◌⊎◌, inl, inr, arith, dec_lt,
}
use native.Mathlib.Nat.{div-add-mod', mod-lt, suc-mul}
use remind_rb.Base.Int.{pos, ◌+ℤ◌}
use remind_rb.Trigger.Next.{next_repeat}

add_pos : (a b : ℕ) → pos a +ℤ pos b ≡ pos (a + b)
unfolding ◌+ℤ◌
add_pos a b = ground arith

-- A date with REP is moved by a number of whole periods to the first one that is not before the
-- start, and a date that is not before the start stays.
pub next_repeat-first :
    (rep start j : ℕ)
    → (i k : ℕ) × (next_repeat (suc rep) start (pos j) ≡ pos k)
      × (k ≡ j + i * suc rep)
      × (start ≤ k)
      × ((i ≡ 0) ⊎ (k < start + suc rep))
unfolding next_repeat
next_repeat-first rep start j =
    let gap = start + 0 - j in
    let q = gap / suc rep in
    let whole : q * suc rep + gap % suc rep ≡ gap = div-add-mod' gap (suc rep) in
    let small : gap % suc rep < suc rep = mod-lt gap (omega arith) in
    elim (dec_lt j start) [
      | yes h ↦ elim (dec_lt (j + q * suc rep) start) [
        | yes m ↦ (
          suc q,
          j + q * suc rep + suc rep,
          ground (arith, add_pos j (q * suc rep), add_pos (j + q * suc rep) (suc rep)),
          omega (arith, suc-mul q (suc rep)),
          omega arith,
          inr (omega arith),
        )
        | no m ↦ (
          q,
          j + q * suc rep,
          ground (arith, add_pos j (q * suc rep)),
          refl,
          omega arith,
          inr (omega arith),
        )
      ]
      | no h ↦ (0, j, ground arith, omega arith, omega arith, inl refl)
    ]
