-- ===== src/Omit/Ranges.antt =====
-- The ranges of days that DoOmit of remind-v06.02.10/src/omit.c adds.
use remind_rb.Base.{
  ℕ, zero, suc, ◌+◌, ◌-◌, ◌≤◌, ◌<◌, ◌≡◌, ◌⊎◌, inl, inr, refl, length, arith, Bool-cases, dec_le,
  le→leb, lt→not-leb, ℕ_discrete,
}
use remind_rb.Errors.{Result, ok, err, e_too_many_full}
use remind_rb.Calendar.{Date, days_in_month}
use remind_rb.Calendar.Days.{dse_of}
use remind_rb.Omit.{Omits, max_full_omits, omit_full_loop, omit_full_range}
use remind_rb.Omit.Arrays.{Contains, bexists_int_array, insert_into_sorted_array}
use remind_rb.Omit.Day.{IsValid, Adds, insert-Adds, present-Adds}

-- The loop over the days from `n` on, as far as it came.
record FullRange (o : Omits) (n left : ℕ) (r : Omits × Result (Unit {0})) : Type 0 where
  valid : IsValid r.0
  keeps : (k : ℕ) → Contains o.full k → Contains r.0.full k
  only : (k : ℕ) → Contains r.0.full k → ((n ≤ k) × (k < n + left)) ⊎ Contains o.full k
  ends :
      ((r.1 ≡ ok tt) × ((k : ℕ) → n ≤ k → k < n + left → Contains r.0.full k))
      ⊎ ((r.1 ≡ err e_too_many_full) × (length r.0.full ≡ max_full_omits))

module _ (o : Omits) (n left : ℕ) (p : Omits) (r : Omits × Result (Unit {0})) where
  after_day : Adds o n p → FullRange p (n + 1) left r → FullRange o n (suc left) r
  after_day a f = record {
    valid = f.valid;
    keeps = λ k c. f.keeps k ((a.full_are k).1 (inr c));
    only = λ k c. only k (f.only k c);
    ends = ends f.ends;
  }
    where
      widen :
          (k : ℕ) → (k ≡ n) ⊎ Contains o.full k → ((n ≤ k) × (k < n + suc left)) ⊎ Contains o.full k
      widen k (inl e) = inl (omega arith, omega arith)
      widen k (inr c) = inr c

      only :
          (k : ℕ)
          → ((n + 1 ≤ k) × (k < n + 1 + left)) ⊎ Contains p.full k
          → ((n ≤ k) × (k < n + suc left)) ⊎ Contains o.full k
      only k (inl b) = inl (omega arith, omega arith)
      only k (inr c) = widen k ((a.full_are k).0 c)

      ends :
          ((r.1 ≡ ok tt) × ((k : ℕ) → n + 1 ≤ k → k < n + 1 + left → Contains r.0.full k))
            ⊎ ((r.1 ≡ err e_too_many_full) × (length r.0.full ≡ max_full_omits))
          → ((r.1 ≡ ok tt) × ((k : ℕ) → n ≤ k → k < n + suc left → Contains r.0.full k))
            ⊎ ((r.1 ≡ err e_too_many_full) × (length r.0.full ≡ max_full_omits))
      ends (inr e) = inr e
      ends (inl (e, all)) = inl (
        e,
        λ k lo hi. elim (ℕ_discrete k n) [
          | yes q ↦ f.keeps k ((a.full_are k).1 (inl q))
          | no q ↦ all k (omega arith) (omega arith)
        ],
      )

omit_full_loop-FullRange :
    (left n : ℕ) (o : Omits) → IsValid o → FullRange o n left (omit_full_loop left n o)
unfolding omit_full_loop
omit_full_loop-FullRange zero n o v = record {
  valid = v;
  keeps = λ k c. c;
  only = λ k c. inr c;
  ends = inl (refl, λ k lo hi. absurd (omega arith));
}
omit_full_loop-FullRange (suc left) n o v = elim (Bool-cases (bexists_int_array o.full n)) [
  | inl q ↦
      let a = present-Adds o n v q in
      rw q (after_day o n left o _ a (omit_full_loop-FullRange left (n + 1) o v))
  | inr q ↦ elim (dec_le max_full_omits (length o.full)) [
    | yes full ↦
        rw (q, le→leb max_full_omits (length o.full) full)
          (record {
            valid = v;
            keeps = λ k c. c;
            only = λ k c. inr c;
            ends = inr (refl, omega (arith, v.full_fits));
          })
    | no room ↦
        let p = record o { full = insert_into_sorted_array o.full n } in
        let a = insert-Adds o n v (omega arith) q in
        let f : FullRange p (n + 1) left (omit_full_loop left (n + 1) p) =
          omit_full_loop-FullRange left (n + 1) p a.valid in
        rw (q, lt→not-leb max_full_omits (length o.full) (omega arith)) (after_day o n left p _ a f)
  ]
]

checks_pass :
    (a b : Date) (o : Omits)
    → a.day ≤ days_in_month a.month a.year
    → b.day ≤ days_in_month b.month b.year
    → dse_of a ≤ dse_of b
    → omit_full_range a b o ≡ omit_full_loop (dse_of b + 1 - dse_of a) (dse_of a) o
unfolding omit_full_range
checks_pass a b o ha hb h = ground arith

-- What a range of days comes to: the arrays stay valid, the old dates are kept, and no date comes in
-- but those of the range; on success all of them do, and else the array is full.
pub record Added (o : Omits) (from to : ℕ) (r : Omits × Result (Unit {0})) : Type 0 where
  pub valid : IsValid r.0
  pub keeps : (k : ℕ) → Contains o.full k → Contains r.0.full k
  pub only : (k : ℕ) → Contains r.0.full k → ((from ≤ k) × (k ≤ to)) ⊎ Contains o.full k
  pub ends :
      ((r.1 ≡ ok tt) × ((k : ℕ) → from ≤ k → k ≤ to → Contains r.0.full k))
      ⊎ ((r.1 ≡ err e_too_many_full) × (length r.0.full ≡ max_full_omits))

FullRange-Added :
    (o : Omits) (from to : ℕ) (r : Omits × Result (Unit {0}))
    → from ≤ to
    → FullRange o from (to + 1 - from) r
    → Added o from to r
FullRange-Added o from to r h f = record {
  valid = f.valid;
  keeps = f.keeps;
  only = λ k c. into k (f.only k c);
  ends = outcome f.ends;
}
  where
    into :
        (k : ℕ)
        → ((from ≤ k) × (k < from + (to + 1 - from))) ⊎ Contains o.full k
        → ((from ≤ k) × (k ≤ to)) ⊎ Contains o.full k
    into k (inl b) = inl (omega arith, omega arith)
    into k (inr c) = inr c

    outcome :
        ((r.1 ≡ ok tt) × ((k : ℕ) → from ≤ k → k < from + (to + 1 - from) → Contains r.0.full k))
          ⊎ ((r.1 ≡ err e_too_many_full) × (length r.0.full ≡ max_full_omits))
        → ((r.1 ≡ ok tt) × ((k : ℕ) → from ≤ k → k ≤ to → Contains r.0.full k))
          ⊎ ((r.1 ≡ err e_too_many_full) × (length r.0.full ≡ max_full_omits))
    outcome (inr e) = inr e
    outcome (inl (e, all)) = inl (e, λ k lo hi. all k lo (omega arith))

-- The full OMITs of a range keep the arrays valid and, in success or failure, all old dates; no date
-- is added but those of the range. On success all of them are there, and the only failure after the
-- checks of the dates is a full array.
pub omit_full_range-adds :
    (a b : Date) (o : Omits)
    → IsValid o
    → a.day ≤ days_in_month a.month a.year
    → b.day ≤ days_in_month b.month b.year
    → dse_of a ≤ dse_of b
    → Added o (dse_of a) (dse_of b) (omit_full_range a b o)
omit_full_range-adds a b o v ha hb h =
    rw (checks_pass a b o ha hb h)
      (FullRange-Added o (dse_of a) (dse_of b) _ h (omit_full_loop-FullRange _ (dse_of a) o v))
