-- ===== src/Trigger/Next/Moves.antt =====
-- BEFORE, AFTER and REP in GetNextTriggerDate of remind-v06.02.10/src/trigger.c, from days since
-- 1990 on.
use remind_rb.Base.{
  ℕ, zero, suc, ◌+◌, ◌≤◌, ◌<◌, ◌≡◌, ◌↔◌, refl, ◌⊎◌, inl, inr, Bool, true, false, arith, ◌∙◌, sym,
  ℕ_discrete,
}
use remind_rb.Base.Int.{ℤ, pos, ◌+ℤ◌, ◌-ℤ◌}
use remind_rb.Errors.{Result, ok, err, Error}
use remind_rb.Trigger.Next.{skip_after, skip_before}

answer_cases : (r : Result Bool) → (r ≡ ok false) ⊎ ((r ≡ ok true) ⊎ ((e : Error) × (r ≡ err e)))
answer_cases (ok false) = inl refl
answer_cases (ok true) = inr (inl refl)
answer_cases (err e) = inr (inr (e, refl))

-- Days `n` to `k` are omitted, up to `k`, which is not.
pub record EndsBlock (omitted : ℤ → Result Bool) (rounds n k : ℕ) : Type 0 where
  pub from : n ≤ k
  pub within : k < n + rounds
  pub free : omitted (pos k) ≡ ok false
  pub block : (j : ℕ) → n ≤ j → j < k → omitted (pos j) ≡ ok true

-- The same towards the past.
pub record StartsBlock (omitted : ℤ → Result Bool) (rounds n k : ℕ) : Type 0 where
  pub to : k ≤ n
  pub within : n < k + rounds
  pub free : omitted (pos k) ≡ ok false
  pub block : (j : ℕ) → k < j → j ≤ n → omitted (pos j) ≡ ok true

pos_inj : (a b : ℕ) → ◌≡◌ {A = Result ℤ} (ok (pos a)) (ok (pos b)) → a ≡ b
pos_inj a b e = ground (arith, e)

err_ok : {x : Error} {b : ℤ} → ◌≡◌ {A = Result ℤ} (err x) (ok b) → ⊥
err_ok e = ground (arith, e)

up_one : (n : ℕ) → pos n +ℤ pos 1 ≡ pos (n + 1)
unfolding ◌+ℤ◌
up_one n = ground arith

down_one : (n : ℕ) → pos (suc n) -ℤ pos 1 ≡ pos n
unfolding ◌-ℤ◌
down_one n = ground arith

module _ (omitted : ℤ → Result Bool) where
  after_stop :
      (rounds n : ℕ)
      → omitted (pos n) ≡ ok false
      → skip_after omitted (suc rounds) (pos n) ≡ ok (pos n)
  unfolding skip_after
  after_stop rounds n e = rw e refl

  after_go :
      (rounds n : ℕ)
      → omitted (pos n) ≡ ok true
      → skip_after omitted (suc rounds) (pos n) ≡ skip_after omitted rounds (pos (n + 1))
  unfolding skip_after
  after_go rounds n e = rw (e, up_one n) refl

  after_fail :
      (rounds n : ℕ) (x : Error)
      → omitted (pos n) ≡ err x
      → skip_after omitted (suc rounds) (pos n) ≡ err x
  unfolding skip_after
  after_fail rounds n x e = rw e refl

  after_none : (n : ℕ) (r : ℤ) → skip_after omitted zero (pos n) ≡ ok r → ⊥
  unfolding skip_after
  after_none n r e = elim (answer_cases (omitted (pos n))) [
    | inl q ↦ err_ok (rw q at e)
    | inr (inl q) ↦ err_ok (rw q at e)
    | inr (inr (x, q)) ↦ err_ok (rw q at e)
  ]

  after_sound :
      (rounds n k : ℕ)
      → skip_after omitted rounds (pos n) ≡ ok (pos k)
      → EndsBlock omitted rounds n k
  after_sound zero n k e = absurd (after_none n (pos k) e)
  after_sound (suc rounds) n k e = elim (answer_cases (omitted (pos n))) [
    | inl q ↦
        let same : n ≡ k = pos_inj n k (sym (after_stop rounds n q) ∙ e) in
        record {
          from = omega arith;
          within = omega arith;
          free = rw (← same) q;
          block = λ j lo hi. absurd (omega arith);
        }
    | inr (inl q) ↦
        let b = after_sound rounds (n + 1) k (sym (after_go rounds n q) ∙ e) in
        record {
          from = omega (arith, b.from);
          within = omega (arith, b.within);
          free = b.free;
          block = λ j lo hi. elim (ℕ_discrete j n) [
            | yes same ↦ rw same q
            | no other ↦ b.block j (omega arith) hi
          ];
        }
    | inr (inr (x, q)) ↦ absurd (err_ok (sym (after_fail rounds n x q) ∙ e))
  ]

  after_complete :
      (rounds n k : ℕ)
      → EndsBlock omitted rounds n k
      → skip_after omitted rounds (pos n) ≡ ok (pos k)
  after_complete zero n k b = absurd (omega (arith, b.from, b.within))
  after_complete (suc rounds) n k b = elim (ℕ_discrete n k) [
    | yes same ↦ rw same (after_stop rounds k b.free)
    | no other ↦
        let q = b.block n (omega arith) (omega (arith, b.from)) in
        after_go rounds n q
        ∙ after_complete rounds (n + 1) k (record {
          from = omega (arith, b.from);
          within = omega (arith, b.within);
          free = b.free;
          block = λ j lo hi. b.block j (omega arith) hi;
        })
  ]

  -- AFTER goes to a day just when that is the first day from the date on that is not omitted, IsOmitted
  -- answers for all days up to it, and fewer than the greatest number of rounds lie between.
  pub skip_after_iff :
      (rounds n k : ℕ)
      → (skip_after omitted rounds (pos n) ≡ ok (pos k)) ↔ EndsBlock omitted rounds n k
  skip_after_iff rounds n k = (after_sound rounds n k, after_complete rounds n k)

  before_stop :
      (rounds n : ℕ)
      → omitted (pos n) ≡ ok false
      → skip_before omitted (suc rounds) (pos n) ≡ ok (pos n)
  unfolding skip_before
  before_stop rounds n e = rw e refl

  before_go :
      (rounds n : ℕ)
      → omitted (pos (suc n)) ≡ ok true
      → skip_before omitted (suc rounds) (pos (suc n)) ≡ skip_before omitted rounds (pos n)
  unfolding skip_before
  before_go rounds n e = rw (e, down_one n) (ground arith)

  before_zero :
      (rounds : ℕ) (r : ℤ)
      → omitted (pos 0) ≡ ok true
      → skip_before omitted (suc rounds) (pos 0) ≡ ok r
      → ⊥
  unfolding skip_before ◌-ℤ◌
  before_zero rounds r e q = err_ok (rw e at q)

  before_fail :
      (rounds n : ℕ) (x : Error)
      → omitted (pos n) ≡ err x
      → skip_before omitted (suc rounds) (pos n) ≡ err x
  unfolding skip_before
  before_fail rounds n x e = rw e refl

  before_none : (n : ℕ) (r : ℤ) → skip_before omitted zero (pos n) ≡ ok r → ⊥
  unfolding skip_before
  before_none n r e = elim (answer_cases (omitted (pos n))) [
    | inl q ↦ err_ok (rw q at e)
    | inr (inl q) ↦ err_ok (rw q at e)
    | inr (inr (x, q)) ↦ err_ok (rw q at e)
  ]

  at_stop :
      (rounds n k : ℕ)
      → omitted (pos n) ≡ ok false
      → skip_before omitted (suc rounds) (pos n) ≡ ok (pos k)
      → StartsBlock omitted (suc rounds) n k
  at_stop rounds n k q e =
      let same : n ≡ k = pos_inj n k (sym (before_stop rounds n q) ∙ e) in
      record {
        to = omega arith;
        within = omega arith;
        free = rw (← same) q;
        block = λ j lo hi. absurd (omega arith);
      }

  before_sound :
      (rounds n k : ℕ)
      → skip_before omitted rounds (pos n) ≡ ok (pos k)
      → StartsBlock omitted rounds n k
  before_sound zero n k e = absurd (before_none n (pos k) e)
  before_sound (suc rounds) zero k e = elim (answer_cases (omitted (pos zero))) [
    | inl q ↦ at_stop rounds zero k q e
    | inr (inl q) ↦ absurd (before_zero rounds (pos k) q e)
    | inr (inr (x, q)) ↦ absurd (err_ok (sym (before_fail rounds zero x q) ∙ e))
  ]
  before_sound (suc rounds) (suc n) k e = elim (answer_cases (omitted (pos (suc n)))) [
    | inl q ↦ at_stop rounds (suc n) k q e
    | inr (inl q) ↦
        let b = before_sound rounds n k (sym (before_go rounds n q) ∙ e) in
        record {
          to = omega (arith, b.to);
          within = omega (arith, b.within);
          free = b.free;
          block = λ j lo hi. elim (ℕ_discrete j (suc n)) [
            | yes same ↦ rw same q
            | no other ↦ b.block j lo (omega arith)
          ];
        }
    | inr (inr (x, q)) ↦ absurd (err_ok (sym (before_fail rounds (suc n) x q) ∙ e))
  ]

  before_complete :
      (rounds n k : ℕ)
      → StartsBlock omitted rounds n k
      → skip_before omitted rounds (pos n) ≡ ok (pos k)
  before_complete zero n k b = absurd (omega (arith, b.to, b.within))
  before_complete (suc rounds) zero k b =
      let same : 0 ≡ k = omega (arith, b.to) in rw same (before_stop rounds k b.free)
  before_complete (suc rounds) (suc n) k b = elim (ℕ_discrete (suc n) k) [
    | yes same ↦ rw same (before_stop rounds k b.free)
    | no other ↦
        let q = b.block (suc n) (omega (arith, b.to)) (omega arith) in
        before_go rounds n q
        ∙ before_complete rounds n k (record {
          to = omega (arith, b.to);
          within = omega (arith, b.within);
          free = b.free;
          block = λ j lo hi. b.block j lo (omega arith);
        })
  ]

  -- BEFORE goes to a day just when that is the last day up to the date that is not omitted, IsOmitted
  -- answers for all days from it on, and fewer than the greatest number of rounds lie between.
  pub skip_before_iff :
      (rounds n k : ℕ)
      → (skip_before omitted rounds (pos n) ≡ ok (pos k)) ↔ StartsBlock omitted rounds n k
  skip_before_iff rounds n k = (before_sound rounds n k, before_complete rounds n k)
