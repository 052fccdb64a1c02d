-- ===== src/Sort/Order.antt =====
-- CompareRems of remind-v06.02.10/src/sort.c is a total order up to ties, for all flags.
use remind_rb.Base.{ℕ, ◌≡◌, Option, arith}
use mathlib.Core.Path.{fun_ext}
use remind_rb.Sort.{
  SortFlag, SortFlags, Sortrem, Sign, minus, none_, plus, negate, compare_number, compare_time,
  compare_rems,
}

-- The first sign that is not 0.
abbrev pub lex : Sign → Sign → Sign
lex minus s = minus
lex none_ s = s
lex plus s = plus

-- A comparison by signs that orders its type up to ties.
pub record Orders {ℓ} {A : Type ℓ} (c : A → A → Sign) : Type ℓ where
  pub flip : (a b : A) → c b a ≡ negate (c a b)
  pub tie : (a b d : A) → c a b ≡ none_ → c a d ≡ c b d
  pub trans : (a b d : A) → c a b ≡ plus → c b d ≡ plus → c a d ≡ plus

number : SortFlag → ℕ → ℕ → Sign
number flag a b = compare_number flag a b none_

time : SortFlags → Option ℕ → Option ℕ → Sign
time f a b = compare_time f.untimed_first f.by_time a b none_

number-Orders : (flag : SortFlag) → Orders (number flag)
unfolding number compare_number
number-Orders flag = record {
  flip = λ a b. ground arith;
  tie = λ a b d e. ground arith;
  trans = λ a b d e g. ground arith;
}

time-flip : (f : SortFlags) (a b : Option ℕ) → time f b a ≡ negate (time f a b)
unfolding time compare_time compare_number
time-flip f a b = ground arith

time-tie : (f : SortFlags) (a b d : Option ℕ) → time f a b ≡ none_ → time f a d ≡ time f b d
unfolding time compare_time compare_number
time-tie f a b d e = ground arith

time_trans :
    (f : SortFlags) (a b d : Option ℕ) → time f a b ≡ plus → time f b d ≡ plus → time f a d ≡ plus
unfolding time compare_time compare_number
time_trans f a b d e g = ground arith

time-Orders : (f : SortFlags) → Orders (time f)
time-Orders f = record { flip = time-flip f; tie = time-tie f; trans = time_trans f }

-- Two orders, one behind the other.
lex-Orders {ℓ} :
    {A : Type ℓ} {c e : A → A → Sign} → Orders c → Orders e → Orders (λ a b. lex (c a b) (e a b))
lex-Orders {A} {c} {e} p q = record {
  flip = λ a b. ground (arith, p.flip a b, q.flip a b);
  tie = λ a b d h. ground (arith, p.tie a b d, q.tie a b d);
  trans = λ a b d h k. ground (arith, p.tie a b d, p.trans a b d, q.trans a b d, back p a b d);
}
  where
    back : {c : A → A → Sign} → Orders c → (a b d : A) → c a b ≡ plus → c b d ≡ none_ → c a d ≡ plus
    back {c} o a b d h k =
        ground (arith, o.flip b d, o.tie d b a, o.flip a b, o.flip a d, o.flip d a)

compare_rems-lex :
    (f : SortFlags) (a b : Sortrem)
    → compare_rems f a b
      ≡ lex
          (number f.by_date a.trigdate b.trigdate)
          (lex (time f a.trigtime b.trigtime) (number f.by_prio a.priority b.priority))
unfolding compare_rems compare_number compare_time number time
compare_rems-lex f a b = ground arith

on {ℓ κ} :
    {A : Type ℓ} {B : Type κ} {c : B → B → Sign} (g : A → B)
    → Orders c
    → Orders (λ a b. c (g a) (g b))
on g o = record {
  flip = λ a b. o.flip (g a) (g b);
  tie = λ a b d. o.tie (g a) (g b) (g d);
  trans = λ a b d. o.trans (g a) (g b) (g d);
}

-- For all flags CompareRems is antisymmetric and transitive, and reminders that tie compare alike
-- with all others.
pub compare_rems-Orders : (f : SortFlags) → Orders (compare_rems f)
compare_rems-Orders f = rw (fun_ext (λ a. fun_ext (λ b. compare_rems-lex f a b))) (
    lex-Orders (on (λ (a : Sortrem). a.trigdate) (number-Orders f.by_date)) (
      lex-Orders (on (λ (a : Sortrem). a.trigtime) (time-Orders f))
        (on (λ (a : Sortrem). a.priority) (number-Orders f.by_prio))))
