-- ===== src/Base/Seek.antt =====
-- A loop `while (!test(x)) x++` with a number of rounds, and what it finds.
use remind_rb.Base.Tests.{if◌then◌else◌, Bool-cases}
use Prim.Native.Nat.{ℕ, zero, suc, ◌+◌, ◌≤◌, ◌<◌}
use mathlib.Core.Path.{◌≡◌}
use mathlib.Core.Logic.{inl, inr}
use mathlib.Core.Bool.{Bool, true, false}
use native.Mathlib.Decide.{ℕ_discrete}
use native.Mathlib.Omega.{arith}

unfoldable pub seek : ℕ → (ℕ → Bool) → ℕ → ℕ
seek zero test x = x
seek (suc rounds) test x = let rest = seek rounds test (x + 1) in if test x then x else rest

-- `r` is the first number from `x` on that passes the test.
pub record Seeks (test : ℕ → Bool) (x r : ℕ) : Type 0 where
  pub from : x ≤ r
  pub passes : test r ≡ true
  pub first : (k : ℕ) → x ≤ k → test k ≡ true → r ≤ k

not_now : (test : ℕ → Bool) (x k : ℕ) → x ≤ k → test x ≡ false → test k ≡ true → x + 1 ≤ k
not_now test x k h e p = elim (ℕ_discrete x k) [
  | yes q ↦ absurd (let b : test x ≡ true = rw q p in cc)
  | no q ↦ omega arith
]

-- The loop ends by its test if a number within its rounds passes.
pub seek-Seeks :
    (rounds : ℕ) (test : ℕ → Bool) (x i : ℕ)
    → x ≤ i
    → i < x + rounds
    → test i ≡ true
    → Seeks test x (seek rounds test x)
unfolding seek
seek-Seeks zero test x i lo hi p = absurd (omega arith)
seek-Seeks (suc rounds) test x i lo hi p = elim (Bool-cases (test x)) [
  | inl e ↦ rw e (record { from = omega arith; passes = e; first = λ k h _. h })
  | inr e ↦
      let later = λ (k : ℕ) (h : x ≤ k) (q : test k ≡ true). not_now test x k h e q in
      let rest : Seeks test (x + 1) (seek rounds test (x + 1)) =
        seek-Seeks rounds test (x + 1) i (later i lo p) (omega arith) p in
      rw e (record {
        from = omega (arith, rest.from);
        passes = rest.passes;
        first = λ k h q. rest.first k (later k h q) q;
      })
]
