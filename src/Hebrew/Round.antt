-- ===== src/Hebrew/Round.antt =====
-- Day numbers to Hebrew dates and back, in remind-v06.02.10/src/hbcal.c.
use remind_rb.Base.{
  ℕ, zero, suc, ◌+◌, ◌-◌, ◌≤◌, ◌<◌, ◌≡◌, refl, Bool, true, not, ◌&&◌, ◌||◌, List, [], ◌∷◌, some,
  ltb, leb, ◌==◌, arith, every, every_below, ap, ◌∙◌, leb→le, dec_lt, le→ltb, lt→ltb,
}
use remind_rb.Base.Int.{
  ℤ, pos, pos_part, neg_part, ◌+ℤ◌, ◌-ℤ◌, ltb_ℤ, +ℤ_parts, -ℤ_parts, eq_of_parts,
}
use remind_rb.Calendar.{year_start, from_dse}
use remind_rb.Calendar.Months.{year_start-suc}
use remind_rb.Calendar.Days.{dse_in_year, from_dse-IsValid, dse-from_dse}
use remind_rb.Hebrew.{
  correction, days_to_heb_year, is_postponed, rosh_hashana, days_in_heb_year, days_in_heb_months,
  days_before, heb_to_dse, heb_year_of, heb_month_of, dse_to_heb,
}

-- A possible length of a year, as a test.
abbrev pub is_length : ℕ → Bool
is_length n = (leb 353 n && leb n 355) || (leb 383 n && leb n 385)

-- All years from 3744 to 10743.
length_table :
    every 7000 (λ k.
      leb (days_to_heb_year k + 353) (days_to_heb_year (k + 1))
      && is_length (days_to_heb_year (k + 1) - days_to_heb_year k))
    ≡ true
unfolding every days_to_heb_year is_postponed
length_table = refl

length_sums :
    every 386 (λ n. not (is_length n) || (days_before (days_in_heb_months n) 13 == n)) ≡ true
unfolding every days_before days_in_heb_months
length_sums = refl

-- The Hebrew new year before the last one of a year comes in that year.
new_years :
    every 3998 (λ k. leb (year_start (1991 + k) + correction) (days_to_heb_year (2010 + k))) ≡ true
unfolding every days_to_heb_year is_postponed year_start
new_years = refl

ends_known : (days_to_heb_year 0 ≤ correction) × (days_to_heb_year 2007 ≡ correction + 262)
unfolding days_to_heb_year is_postponed
ends_known = (omega arith, refl)

pub days_suc :
    (k : ℕ)
    → k < 7000
    → (days_to_heb_year k + 353 ≤ days_to_heb_year (k + 1))
      × (is_length (days_to_heb_year (k + 1) - days_to_heb_year k) ≡ true)
days_suc k h = ground (arith, every_below _ 7000 k length_table h)

days_mono : (i j : ℕ) → i ≤ j → j < 7000 → days_to_heb_year i ≤ days_to_heb_year j
days_mono i zero h l = let e : i ≡ 0 = omega arith in rw e (omega arith)
days_mono i (suc j) h l = elim (dec_lt j i) [
  | yes p ↦ let e : i ≡ suc j = omega arith in rw e (omega arith)
  | no p ↦
      let e : days_to_heb_year (j + 1) ≡ days_to_heb_year (suc j) =
        ap days_to_heb_year (omega arith) in
      omega (arith, days_mono i j (omega arith) (omega arith), days_suc j (omega arith), e)
]

rosh_parts :
    (y : ℕ)
    → pos_part (rosh_hashana y) + correction
      ≡ neg_part (rosh_hashana y) + days_to_heb_year (y - 3744)
unfolding rosh_hashana
rosh_parts y = ground arith

rosh_after :
    (n y : ℕ) → ltb_ℤ (pos n) (rosh_hashana y) ≡ ltb (n + correction) (days_to_heb_year (y - 3744))
rosh_after n y = ground (arith, rosh_parts y)

-- The year in which a day falls.
record IsYear (n y z : ℕ) : Type 0 where
  from : 3744 ≤ z
  to : z ≤ y
  starts : days_to_heb_year (z - 3744) ≤ n + correction
  ends : n + correction < days_to_heb_year (z - 3743)

heb_year_of-IsYear :
    (y n : ℕ)
    → 3744 ≤ y
    → n + correction < days_to_heb_year (y - 3743)
    → IsYear n y (heb_year_of y n)
unfolding heb_year_of
heb_year_of-IsYear zero n h e = absurd (omega arith)
heb_year_of-IsYear (suc y) n h e =
    elim (dec_lt (n + correction) (days_to_heb_year (suc y - 3744))) [
      | yes p ↦
          let more : 3744 ≤ y = elim (dec_lt y 3744) [
            | yes small ↦
                let q : days_to_heb_year (suc y - 3744) ≡ days_to_heb_year 0 =
                  ap days_to_heb_year (omega arith) in
                absurd (omega (arith, q, ends_known))
            | no large ↦ omega arith
          ] in
          let q : days_to_heb_year (suc y - 3744) ≡ days_to_heb_year (y - 3743) =
            ap days_to_heb_year (omega arith) in
          let r = heb_year_of-IsYear y n more (omega (arith, q)) in
          rw (rosh_after n (suc y) ∙ lt→ltb _ _ p)
            (record { from = r.from; to = omega (arith, r.to); starts = r.starts; ends = r.ends })
      | no p ↦
          rw (rosh_after n (suc y) ∙ le→ltb _ _ (omega arith))
            (record { from = h; to = omega arith; starts = omega arith; ends = e })
    ]

heb_month_of_lem :
    (ls : List ℕ) (n h : ℕ)
    → n < days_before ls h
    → (days_before ls (heb_month_of ls n).0 + (heb_month_of ls n).1 ≡ n)
unfolding heb_month_of days_before
heb_month_of_lem [] n h e = absurd (omega arith)
heb_month_of_lem (l ∷ ls) n zero e = absurd (omega arith)
heb_month_of_lem (l ∷ ls) n (suc h) e = elim (dec_lt n l) [
  | yes p ↦ rw (lt→ltb n l p) (omega arith)
  | no p ↦
      rw (le→ltb n l (omega arith)) (omega (arith, heb_month_of_lem ls (n - l) h (omega arith)))
]

year_length :
    (z : ℕ)
    → 3744 ≤ z
    → z < 10743
    → (days_in_heb_year z + days_to_heb_year (z - 3744) ≡ days_to_heb_year (z - 3743))
      × (days_before (days_in_heb_months (days_in_heb_year z)) 13 ≡ days_in_heb_year z)
unfolding days_in_heb_year
year_length z h l =
    let k = z - 3744 in
    let e : days_to_heb_year (k + 1) ≡ days_to_heb_year (z - 3743) =
      ap days_to_heb_year (omega arith) in
    let r = days_suc k (omega arith) in
    let n = days_to_heb_year (z - 3743) - days_to_heb_year k in
    let known : is_length n ≡ true = rw e at r.1 in
    let small : n < 386 = ground (arith, known) in
    (omega (arith, e, r.0), ground (arith, known, every_below _ 386 n length_sums small))

left_of :
    (n : ℕ) (b : ℤ)
    → pos_part b ≤ n + neg_part b
    → pos_part (pos n -ℤ b) + pos_part b ≡ n + neg_part b
unfolding ◌-ℤ◌
left_of n b h = ground arith

in_range :
    (hy hm hd : ℕ)
    → 5751 ≤ hy
    → hy ≤ 9750
    → heb_to_dse hy hm hd
      ≡ some (
          rosh_hashana hy
          +ℤ pos (days_before (days_in_heb_months (days_in_heb_year hy)) hm)
          +ℤ (pos hd -ℤ pos 1))
unfolding heb_to_dse
in_range hy hm hd lo hi = ground arith

-- A day number from 20 September 1990, where the range of HebToDSE starts, to the end of 5987, with
-- DSEToHeb and back by HebToDSE, gives the same day number.
pub heb_to_dse-dse_to_heb :
    (n : ℕ)
    → 262 ≤ n
    → (from_dse n).year ≤ 5987
    → (let t = dse_to_heb n in heb_to_dse t.0 t.1 t.2 ≡ some (pos n))
unfolding dse_to_heb
heb_to_dse-dse_to_heb n lo hi =
    let t = from_dse n in
    let v = from_dse-IsValid n in
    let k = t.year - 1990 in
    let next : year_start (1991 + k) ≡ year_start (suc t.year) =
      ap year_start (omega (arith, v.year_in)) in
    let top : days_to_heb_year (2010 + k) ≡ days_to_heb_year (t.year + 3763 - 3743) =
      ap days_to_heb_year (omega (arith, v.year_in)) in
    let table = every_below _ 3998 k new_years (omega arith) in
    let z = heb_year_of (t.year + 3763) n in
    let y : IsYear n (t.year + 3763) z =
      heb_year_of-IsYear (t.year + 3763) n (omega (arith, v.year_in)) (
        omega (
          arith,
          dse_in_year t v,
          dse-from_dse n,
          next,
          top,
          leb→le _ _ table,
          year_start-suc t.year v.year_in,
        )) in
    let from : 5751 ≤ z = elim (dec_lt z 5751) [
      | yes p ↦
          absurd (
            omega
              (arith, days_mono (z - 3743) 2007 (omega arith) (omega arith), y.ends, ends_known))
      | no p ↦ omega arith
    ] in
    let len = year_length z y.from (omega (arith, y.to)) in
    let lens = days_in_heb_months (days_in_heb_year z) in
    let left = pos_part (pos n -ℤ rosh_hashana z) in
    let left_is : left + days_to_heb_year (z - 3744) ≡ n + correction =
      omega
        (arith, left_of n (rosh_hashana z) (omega (arith, rosh_parts z, y.starts)), rosh_parts z) in
    let month = heb_month_of_lem lens left 13 (omega (arith, left_is, len, y.ends)) in
    let before = days_before lens (heb_month_of lens left).0 in
    let d = (heb_month_of lens left).1 in
    in_range z (heb_month_of lens left).0 (d + 1) from (omega (arith, y.to))
    ∙ ap some (
        eq_of_parts _ (pos n) (
          omega (
            arith,
            month,
            left_is,
            rosh_parts z,
            +ℤ_parts (rosh_hashana z) (pos before),
            -ℤ_parts (pos (d + 1)) (pos 1),
            +ℤ_parts (rosh_hashana z +ℤ pos before) (pos (d + 1) -ℤ pos 1),
          )))

pub year_is_length : (y : ℕ) → 3744 ≤ y → y < 10743 → is_length (days_in_heb_year y) ≡ true
unfolding days_in_heb_year
year_is_length y lo hi =
    let e : days_to_heb_year (y - 3744 + 1) ≡ days_to_heb_year (y - 3743) =
      ap days_to_heb_year (omega arith) in
    rw e at (days_suc (y - 3744) (omega arith)).1
