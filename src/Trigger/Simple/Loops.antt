-- ===== src/Trigger/Simple/Loops.antt =====
-- The loops of NextSimpleTrig in remind-v06.02.10/src/trigger.c over months and years that are too
-- short for the day asked for. A loop has a number of rounds; the lemmas show that it ends by its
-- test.
use remind_rb.Base.{
  ℕ, zero, suc, ◌+◌, ◌-◌, ◌*◌, ◌%◌, ◌≤◌, ◌<◌, ◌≡◌, ◌≢◌, inl, inr, refl, Bool, true, arith, ltb,
  ◌==◌, if◌then◌else◌, leb, seek, Seeks, seek-Seeks, every, every_below, Bool-cases, ap, dec_lt,
  not, ◌||◌, ◌&&◌, ℕ_discrete,
}
use remind_rb.Calendar.Months.{days_in_other}
use remind_rb.Calendar.{base, days_in_month, month_days, is_leap_year}

-- `m++; if (m == 12) { m = 0; y++; }`
unfoldable pub next_month : ℕ → ℕ → ℕ × ℕ
next_month m y = if m + 1 == 12 then (0, y + 1) else (m + 1, y)

-- `m2 = m-1; if (m2 < 0) { y2 = y-1; m2 = 11; }`
unfoldable pub prev_month : ℕ → ℕ → ℕ × ℕ
prev_month m y = if m == 0 then (11, y - 1) else (m - 1, y)

-- `while (d > DaysInMonth(m, y)) { m++; if (m == 12) { m = 0; y++; } }`
unfoldable pub skip_months : ℕ → ℕ → ℕ → ℕ → ℕ × ℕ
skip_months zero d m y = (m, y)
skip_months (suc rounds) d m y =
    let rest = skip_months rounds d (next_month m y).0 (next_month m y).1 in
    if ltb (days_in_month m y) d then rest else (m, y)

-- `while (d > DaysInMonth(m, y)) y++;`
unfoldable pub skip_years : ℕ → ℕ → ℕ → ℕ
skip_years d m y = seek 8 (λ z. leb d (days_in_month m z)) y

-- `while (d > DaysInMonth(m, y)) m++;`
unfoldable pub months_up : ℕ → ℕ → ℕ → ℕ
months_up d m y = seek 12 (λ n. leb d (days_in_month n y)) m

-- `while (d > DaysInMonth(m2, y)) m2--;`
unfoldable pub months_down : ℕ → ℕ → ℕ → ℕ
months_down d zero y = zero
months_down d (suc m) y =
    let rest = months_down d m y in if ltb (days_in_month (suc m) y) d then rest else suc m

-- The month found by the loop over months and years: it has the day, and those passed over do not.
pub record Skips (d m y : ℕ) (r : ℕ × ℕ) : Type 0 where
  pub month_in : r.0 < 12
  pub from : y * 12 + m ≤ r.1 * 12 + r.0
  pub has_day : d ≤ days_in_month r.0 r.1
  pub first :
      (n z : ℕ)
      → n < 12
      → y * 12 + m ≤ z * 12 + n
      → d ≤ days_in_month n z
      → r.1 * 12 + r.0 ≤ z * 12 + n

pub next_month_key :
    (m y : ℕ)
    → m < 12
    → ((next_month m y).1 * 12 + (next_month m y).0 ≡ y * 12 + m + 1) × ((next_month m y).0 < 12)
unfolding next_month
next_month_key m y h = ground arith

pub prev_month_key :
    (m y : ℕ)
    → m < 12
    → 1 ≤ y
    → ((prev_month m y).1 * 12 + (prev_month m y).0 + 1 ≡ y * 12 + m) × ((prev_month m y).0 < 12)
unfolding prev_month
prev_month_key m y h k = ground arith

-- The test before the code goes back a month, which keeps it from going back beyond the base year.
abbrev pub has_previous : ℕ → ℕ → Bool
has_previous m y = not (m == 0) || ltb base y

pub prev_month_base : (m y : ℕ) → base ≤ y → has_previous m y ≡ true → base ≤ (prev_month m y).1
unfolding prev_month
prev_month_base m y h e = ground arith

-- After a month of less than 31 days comes one of 31.
long_next :
    every 12 (λ m.
      leb 31 (month_days m)
      || ((month_days (next_month m 0).0 == 31) && not ((next_month m 0).0 == 1)))
    ≡ true
unfolding every month_days next_month
long_next = refl

next_month-month : (m y : ℕ) → (next_month m y).0 ≡ (next_month m 0).0
unfolding next_month
next_month-month m y = ground arith

february : month_days 1 ≡ 29
unfolding month_days
february = refl

next_long :
    (m : ℕ)
    → m < 12
    → month_days m < 31
    → (month_days (next_month m 0).0 ≡ 31) × ((next_month m 0).0 ≢ 1)
next_long m h k = ground (arith, every_below _ 12 m long_next h)

days_in_next :
    (m y : ℕ)
    → m < 12
    → days_in_month m y < 31
    → days_in_month (next_month m y).0 (next_month m y).1 ≡ 31
days_in_next m y h k =
    let short : month_days m < 31 = elim (ℕ_discrete m 1) [
      | yes e ↦ rw (e, february) (omega arith)
      | no e ↦ rw (← days_in_other m y e) k
    ] in
    let (long, other) = next_long m h short in
    rw (next_month-month m y, days_in_other (next_month m 0).0 (next_month m y).1 other) long

skip_stays : (n d m y : ℕ) → d ≤ days_in_month m y → skip_months (suc n) d m y ≡ (m, y)
unfolding skip_months
skip_stays n d m y h = ground arith

skip_passes :
    (n d m y : ℕ)
    → days_in_month m y < d
    → skip_months (suc n) d m y ≡ skip_months n d (next_month m y).0 (next_month m y).1
unfolding skip_months
skip_passes n d m y h = ground arith

pub same_month : (n m z y : ℕ) → n < 12 → m < 12 → z * 12 + n ≡ y * 12 + m → (z ≡ y) × (n ≡ m)
same_month n m z y h k e = omega arith

-- The loop over months and years ends, after one month at most.
pub skip_months-Skips : (d m y : ℕ) → m < 12 → d ≤ 31 → Skips d m y (skip_months 12 d m y)
skip_months-Skips d m y h k = elim (dec_lt (days_in_month m y) d) [
  | no q ↦
      rw (skip_stays 11 d m y (omega arith))
        (record { month_in = h; from = omega arith; has_day = omega arith; first = λ n z _ f _. f })
  | yes q ↦
      let e = days_in_next m y h (omega arith) in
      let key = next_month_key m y h in
      rw
        (
          skip_passes 11 d m y q,
          skip_stays 10 d (next_month m y).0 (next_month m y).1 (omega (arith, e)),
        )
        (record {
          month_in = key.1;
          from = omega (arith, key);
          has_day = omega (arith, e);
          first = λ n z a f g. elim (ℕ_discrete (z * 12 + n) (y * 12 + m)) [
            | no p ↦ omega (arith, key)
            | yes p ↦
                let (u, v) = same_month n m z y a h p in
                absurd (let w : d ≤ days_in_month m y = rw (← u, ← v) g in omega arith)
          ];
        })
]

pub leap_soon : (y : ℕ) → (i : ℕ) × (y ≤ i) × (i < y + 8) × (is_leap_year i ≡ true)
unfolding is_leap_year
leap_soon y =
    let i = y + (4 - y % 4) % 4 in
    elim (Bool-cases (is_leap_year i)) [
      | inl e ↦ (i, omega arith, omega arith, e)
      | inr e ↦ (i + 4, omega arith, omega arith, ground arith)
    ]

-- The loop over years ends for each day that the month can have.
pub skip_years-Seeks :
    (d m y : ℕ) → d ≤ month_days m → Seeks (λ z. leb d (days_in_month m z)) y (skip_years d m y)
unfolding skip_years days_in_month
skip_years-Seeks d m y h =
    let (i, lo, hi, leap) = leap_soon y in
    seek-Seeks 8 (λ z. leb d (days_in_month m z)) y i lo hi
      (ground (arith, ap month_days, february))

-- The loop over months ends, in December at the latest.
pub months_up-Seeks :
    (d m y : ℕ) → m < 12 → d ≤ 31 → Seeks (λ n. leb d (days_in_month n y)) m (months_up d m y)
unfolding months_up days_in_month month_days
months_up-Seeks d m y h k = seek-Seeks 12 _ m 11 (omega arith) (omega arith) (ground arith)

december : (d y : ℕ) → d ≤ 31 → leb d (days_in_month 11 y) ≡ true
unfolding days_in_month month_days
december d y h = ground arith

pub months_up-lt : (d m y : ℕ) → m < 12 → d ≤ 31 → months_up d m y < 12
months_up-lt d m y h k =
    omega (arith, (months_up-Seeks d m y h k).first 11 (omega arith) (december d y k))
