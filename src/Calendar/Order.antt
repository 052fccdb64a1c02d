-- ===== src/Calendar/Order.antt =====
-- The order of dates as an order of numbers: `(year * 12 + month) * 32 + day` is in calendar order.
use remind_rb.Base.{ℕ, ◌+◌, ◌*◌, ◌/◌, ◌%◌, ◌≤◌, ◌<◌, ◌≡◌, arith}
use remind_rb.Calendar.{base, Date, date, dse, from_dse}
use remind_rb.Calendar.Months.{days_in_month_range}
use remind_rb.Calendar.Days.{
  IsValid, Before, dse_of, Before-dse, from_dse-IsValid, dse-from_dse, dse-eq,
}

abbrev pub month_key : Date → ℕ
month_key t = t.year * 12 + t.month

abbrev pub key : Date → ℕ
key t = month_key t * 32 + t.day

pub day-le : (t : Date) → IsValid t → t.day ≤ 31
day-le t v = omega (arith, days_in_month_range t.month t.year v.month_in, v.day_to)

pub in_month : (y m d : ℕ) → base ≤ y → m < 12 → 1 ≤ d → d ≤ 28 → IsValid (date y m d)
in_month y m d b h lo hi = record {
  year_in = b;
  month_in = h;
  day_from = lo;
  day_to = omega (arith, days_in_month_range m y h);
}

key-lt-Before : (a b : Date) → IsValid a → IsValid b → key a < key b → Before a b
key-lt-Before a b va vb h = grind (arith, day-le a va, day-le b vb)

key_inj : (a b : Date) → IsValid a → IsValid b → key a ≡ key b → dse_of a ≡ dse_of b
key_inj a b va vb h =
    let y : a.year ≡ b.year = omega (arith, day-le a va, day-le b vb, va.month_in, vb.month_in) in
    let m : a.month ≡ b.month = omega (arith, day-le a va, day-le b vb, va.month_in, vb.month_in) in
    let d : a.day ≡ b.day = omega (arith, day-le a va, day-le b vb) in simp (y, m, d)

pub dse-lt_of_key : (a b : Date) → IsValid a → IsValid b → key a < key b → dse_of a < dse_of b
dse-lt_of_key a b va vb h = Before-dse a b va vb (key-lt-Before a b va vb h)

pub dse-le_of_key : (a b : Date) → IsValid a → IsValid b → key a ≤ key b → dse_of a ≤ dse_of b
dse-le_of_key a b va vb h = grind (arith, dse-lt_of_key a b va vb, key_inj a b va vb)

pub key-le_of_dse : (a b : Date) → IsValid a → IsValid b → dse_of a ≤ dse_of b → key a ≤ key b
key-le_of_dse a b va vb h = grind (arith, dse-lt_of_key b a vb va)

pub key-lt_of_dse : (a b : Date) → IsValid a → IsValid b → dse_of a < dse_of b → key a < key b
key-lt_of_dse a b va vb h = grind (arith, dse-le_of_key b a vb va)

-- Dates with a month between them are more than a week apart.
pub month_gap :
    (a b : Date) → IsValid a → IsValid b → month_key a + 2 ≤ month_key b → dse_of a + 7 < dse_of b
month_gap a b va vb h =
    let y = (month_key a + 1) / 12 in
    let m = (month_key a + 1) % 12 in
    let early = λ (d : ℕ) (lo : 1 ≤ d) (hi : d ≤ 28).
      in_month y m d (omega (arith, va)) (omega arith) lo hi in
    omega (
      arith,
      dse-lt_of_key a (date y m 1) va (early 1 (omega arith) (omega arith))
          (omega (arith, day-le a va)),
      dse-lt_of_key (date y m 8) b (early 8 (omega arith) (omega arith)) vb (omega arith),
      dse-eq y m 1,
      dse-eq y m 8,
    )

pub key_mono : (i j : ℕ) → i ≤ j → key (from_dse i) ≤ key (from_dse j)
key_mono i j h =
    key-le_of_dse _ _ (from_dse-IsValid i) (from_dse-IsValid j)
      (omega (arith, dse-from_dse i, dse-from_dse j))

-- The first week of a month lies in the month.
pub first_week :
    (y m j : ℕ)
    → base ≤ y
    → m < 12
    → dse y m 1 ≤ j
    → j < dse y m 1 + 7
    → ((from_dse j).month ≡ m) × ((from_dse j).year ≡ y)
first_week y m j b h lo hi =
    let t = from_dse j in
    let v : IsValid t = from_dse-IsValid j in
    let v1 = in_month y m 1 b h (omega arith) (omega arith) in
    let v8 = in_month y m 8 b h (omega arith) (omega arith) in
    let from = key-le_of_dse (date y m 1) t v1 v (omega (arith, dse-from_dse j)) in
    let to =
      key-lt_of_dse t (date y m 8) v v8
        (omega (arith, dse-from_dse j, dse-eq y m 1, dse-eq y m 8)) in
    (omega (arith, from, to, v, day-le t v), omega (arith, from, to, v, day-le t v))
