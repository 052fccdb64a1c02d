-- ===== src/Omit/Day.antt =====
-- Which days IsOmitted of remind-v06.02.10/src/omit.c omits, and AddGlobalOmit.
use remind_rb.Base.{
  ℕ, ◌%◌, ◌≤◌, ◌<◌, ◌≡◌, ◌⊎◌, inl, inr, ◌↔◌, refl, Bool, true, false, none, length, arith,
  Bool-cases, if◌then◌else◌, ℕ_discrete, ne→not-eq,
}
use remind_rb.Base.Int.{pos}
use remind_rb.Errors.{ok, err, e_too_many_full}
use remind_rb.Calendar.{from_dse}
use remind_rb.Trigger.Weekday.{IsOn, wd_bit}
use remind_rb.Omit.{Omits, max_full_omits, omitted_day, is_omitted, add_global_omit, syndrome}
use remind_rb.Omit.Arrays.{
  Contains, IsSorted, bexists_int_array, bexists_iff, insert_into_sorted_array, insert-IsSorted,
  Contains-insert, length-insert,
}

-- Both arrays are sorted, and the full one fits its space.
pub record IsValid (o : Omits) : Type 0 where
  pub full_sorted : IsSorted o.full
  pub partial_sorted : IsSorted o.partial
  pub full_fits : length o.full ≤ max_full_omits

-- The days that the omits name: by weekday, by date, or by day of the year.
abbrev pub Omitted : Omits → ℕ → ℕ → Type 0
Omitted o localomit n =
    (IsOn localomit n ⊎ IsOn o.weekday_omits n)
    ⊎ (Contains o.full n ⊎ Contains o.partial (syndrome (from_dse n).month (from_dse n).day))

four_tests :
    (a b c d : Bool)
    → ((if a then true else if b then true else if c then true else d) ≡ true)
      ↔ ((a ≡ true ⊎ b ≡ true) ⊎ (c ≡ true ⊎ d ≡ true))
four_tests true b c d = (λ _. inl (inl refl), λ _. refl)
four_tests false true c d = (λ _. inl (inr refl), λ _. refl)
four_tests false false true d = (λ _. inr (inl refl), λ _. refl)
four_tests false false false d = (λ e. inr (inr e), λ s. ground arith)

map_or {ℓ κ} : {A B C D : Type ℓ} {P : Type κ} → A ↔ C → B ↔ D → (P ⊎ (A ⊎ B)) ↔ (P ⊎ (C ⊎ D))
map_or {A} {B} {C} {D} {P} f g = (into, out)
  where
    into : P ⊎ (A ⊎ B) → P ⊎ (C ⊎ D)
    into (inl p) = inl p
    into (inr (inl a)) = inr (inl (f.0 a))
    into (inr (inr b)) = inr (inr (g.0 b))

    out : P ⊎ (C ⊎ D) → P ⊎ (A ⊎ B)
    out (inl p) = inl p
    out (inr (inl c)) = inr (inl (f.1 c))
    out (inr (inr d)) = inr (inr (g.1 d))

omitted_day_iff :
    (o : Omits) (localomit n : ℕ)
    → IsValid o
    → (omitted_day o n localomit ≡ true) ↔ Omitted o localomit n
unfolding omitted_day
omitted_day_iff o localomit n v =
    let day = syndrome (from_dse n).month (from_dse n).day in
    let tests =
      four_tests (wd_bit localomit (n % 7)) (wd_bit o.weekday_omits (n % 7))
        (bexists_int_array o.full n) (bexists_int_array o.partial day) in
    let named =
      map_or (bexists_iff o.full n v.full_sorted) (bexists_iff o.partial day v.partial_sorted) in
    (λ e. named.0 (tests.0 e), λ s. tests.1 (named.1 s))

-- With no OMITFUNC, IsOmitted answers for every day from 1990 on, and it answers 1 just for the
-- days that the local or global weekdays, the full dates or the days of the year name.
pub is_omitted_iff :
    (o : Omits) (localomit n : ℕ)
    → IsValid o
    → (b : Bool) × (is_omitted o none localomit (pos n) ≡ ok b)
      × ((b ≡ true) ↔ Omitted o localomit n)
unfolding is_omitted
is_omitted_iff o localomit n v = (omitted_day o n localomit, refl, omitted_day_iff o localomit n v)

insert-IsValid :
    (o : Omits) (n : ℕ)
    → IsValid o
    → length o.full < max_full_omits
    → bexists_int_array o.full n ≡ false
    → IsValid (record o { full = insert_into_sorted_array o.full n })
insert-IsValid o n v room new = record {
  full_sorted = insert-IsSorted o.full n v.full_sorted (λ c.
      let e : bexists_int_array o.full n ≡ true = (bexists_iff o.full n v.full_sorted).1 c in cc);
  partial_sorted = v.partial_sorted;
  full_fits = omega (arith, length-insert o.full n v.full_sorted);
}

-- What one run of the body of AddGlobalOmit, or of the loop of DoOmit, does to the full omits.
pub record Adds (o : Omits) (n : ℕ) (p : Omits) : Type 0 where
  pub valid : IsValid p
  pub full_are : (k : ℕ) → Contains p.full k ↔ ((k ≡ n) ⊎ Contains o.full k)
  pub partial_same : p.partial ≡ o.partial
  pub weekdays_same : p.weekday_omits ≡ o.weekday_omits
  pub saved_same : p.saved ≡ o.saved

pub insert-Adds :
    (o : Omits) (n : ℕ)
    → IsValid o
    → length o.full < max_full_omits
    → bexists_int_array o.full n ≡ false
    → Adds o n (record o { full = insert_into_sorted_array o.full n })
insert-Adds o n v room new = record {
  valid = insert-IsValid o n v room new;
  full_are = Contains-insert o.full n v.full_sorted;
  partial_same = refl;
  weekdays_same = refl;
  saved_same = refl;
}

pub present-Adds : (o : Omits) (n : ℕ) → IsValid o → bexists_int_array o.full n ≡ true → Adds o n o
present-Adds o n v e = record {
  valid = v;
  full_are = λ k. (λ c. inr c, found k);
  partial_same = refl;
  weekdays_same = refl;
  saved_same = refl;
}
  where
    found : (k : ℕ) → (k ≡ n) ⊎ Contains o.full k → Contains o.full k
    found k (inl q) = rw q ((bexists_iff o.full n v.full_sorted).0 e)
    found k (inr c) = c

-- AddGlobalOmit of a day from 1990 on adds that day and nothing else, unless the array of full
-- dates has no room left: then it returns E_2MANY_FULL and changes nothing.
pub add_global_omit-Adds :
    (o : Omits) (n : ℕ)
    → IsValid o
    → (let r = add_global_omit o (pos n) in
        ((r.1 ≡ ok tt) × (length o.full < max_full_omits) × Adds o n r.0)
        ⊎ ((r.1 ≡ err e_too_many_full) × (length o.full ≡ max_full_omits) × (r.0 ≡ o)))
unfolding add_global_omit
add_global_omit-Adds o n v = elim (ℕ_discrete (length o.full) max_full_omits) [
  | yes e ↦ inr (ground arith, e, ground arith)
  | no e ↦
      let room : length o.full < max_full_omits = omega (arith, v.full_fits) in
      elim (Bool-cases (bexists_int_array o.full n)) [
        | inl q ↦
            rw (ne→not-eq (length o.full) max_full_omits e, q)
              (inl (refl, room, present-Adds o n v q))
        | inr q ↦
            rw (ne→not-eq (length o.full) max_full_omits e, q)
              (inl (refl, room, insert-Adds o n v room q))
      ]
]
