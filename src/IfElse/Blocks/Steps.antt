-- ===== src/IfElse/Blocks/Steps.antt =====
-- What each command of remind-v06.02.10/src/ifelse.c does to the stack of entries.
use remind_rb.Base.{
  ℕ, suc, ◌-◌, ◌≤◌, ◌<◌, ◌≡◌, refl, ap, sym, Bool, true, false, not, ◌||◌, List, [], ◌∷◌, ◌++◌,
  ◌&&◌, ◌∙◌, Option, none, some, length, take, arith, lt→not-leb,
}
use mathlib.Core.List.{append_assoc}
use remind_rb.IfElse.{
  IfEntry, IfState, Command, Action, plain, set_, do_set, all_constant, in_constant_context,
  return_, else_, endif_, if_, if_nest, encounter_else, encounter_endif, do_return, ignores,
  any_ignores, should_ignore_line, do_if, do_line, do_reminders,
}
use remind_rb.IfElse.Blocks.{holds, known, plain_actions, set_action}

abbrev pub st : List IfEntry → ℕ → Bool → IfState
st es base ret = record { entries = es; base = base; returned = ret }

abbrev pub prefix : List Action → IfState × List Action → IfState × List Action
prefix xs (u, ys) = (u, xs ++ ys)

pub prefix-prefix :
    (xs ys : List Action) (p : IfState × List Action)
    → prefix xs (prefix ys p) ≡ prefix (xs ++ ys) p
prefix-prefix xs ys p = ap (λ zs. (p.0, zs)) (sym (append_assoc xs ys p.1))

-- Whether the entries above the base make a line one to ignore.
abbrev pub inner : List IfEntry → ℕ → Bool
inner es base = any_ignores (take (length es - base) es)

-- The entry that DoIf pushes.
abbrev pub entry : Bool → Option Bool → Bool → IfEntry
entry true v c = record { lineno = 0; if_true = true; before_else = true; was_constant = true }
entry false none c = record { lineno = 0; if_true = true; before_else = true; was_constant = false }
entry false (some b) c = record { lineno = 0; if_true = b; before_else = true; was_constant = c }

pub inner-cons :
    (e : IfEntry) (es : List IfEntry) (base : ℕ)
    → base ≤ length es
    → inner (e ∷ es) base ≡ (ignores e || inner es base)
unfolding any_ignores
inner-cons e es base h =
    let k : suc (length es) - base ≡ suc (length es - base) = omega arith in rw k refl

pub ignore-eq :
    (es : List IfEntry) (base : ℕ) (ret : Bool)
    → should_ignore_line (st es base ret) ≡ (ret || inner es base)
unfolding should_ignore_line
ignore-eq es base true = refl
ignore-eq es base false = refl

pub do_if_lem :
    (v : Option Bool) (c : Bool) (es : List IfEntry) (base : ℕ) (ret : Bool)
    → length es < if_nest
    → (do_if v c (st es base ret)).0 ≡ st (entry (ret || inner es base) v c ∷ es) base ret
unfolding do_if
do_if_lem none c es base ret h = ground (arith, ignore-eq es base ret)
do_if_lem (some true) c es base ret h = ground (arith, ignore-eq es base ret)
do_if_lem (some false) c es base ret h = ground (arith, ignore-eq es base ret)

pub if_step :
    (v : Option Bool) (c : Bool) (r : List Command) (es : List IfEntry) (base : ℕ) (ret : Bool)
    → length es < if_nest
    → do_reminders (if_ v c ∷ r) (st es base ret)
      ≡ do_reminders r (st (entry (ret || inner es base) v c ∷ es) base ret)
unfolding do_reminders do_line
if_step v c r es base ret h = ap (do_reminders r) (do_if_lem v c es base ret h)

pub endif_step :
    (r : List Command) (e : IfEntry) (es : List IfEntry) (base : ℕ) (ret : Bool)
    → base ≤ length es
    → do_reminders (endif_ ∷ r) (st (e ∷ es) base ret) ≡ do_reminders r (st es base ret)
unfolding do_reminders do_line encounter_endif
endif_step r e es base ret h = rw (lt→not-leb (suc (length es)) base (omega arith)) refl

abbrev pub behind_else : IfEntry → IfEntry
behind_else e = record e { before_else = false }

pub else_step :
    (r : List Command) (e : IfEntry) (es : List IfEntry) (base : ℕ) (ret : Bool)
    → base ≤ length es
    → e.before_else ≡ true
    → do_reminders (else_ ∷ r) (st (e ∷ es) base ret)
      ≡ do_reminders r (st (behind_else e ∷ es) base ret)
unfolding do_reminders do_line encounter_else
else_step r e es base ret h k = rw (lt→not-leb (suc (length es)) base (omega arith)) (rw k refl)

pub plain_step :
    (n : ℕ) (r : List Command) (es : List IfEntry) (base : ℕ) (ret i : Bool)
    → (ret || inner es base) ≡ i
    → do_reminders (plain n ∷ r) (st es base ret)
      ≡ prefix (plain_actions i n) (do_reminders r (st es base ret))
unfolding do_reminders do_line
plain_step n r es base ret true q = rw (ignore-eq es base ret ∙ q) refl
plain_step n r es base ret false q = rw (ignore-eq es base ret ∙ q) refl

pub set_step :
    (n : ℕ) (r : List Command) (es : List IfEntry) (base : ℕ) (ret i k : Bool)
    → (ret || inner es base) ≡ i
    → all_constant es ≡ k
    → do_reminders (set_ n ∷ r) (st es base ret)
      ≡ prefix (set_action i k n ∷ []) (do_reminders r (st es base ret))
unfolding do_reminders do_line do_set in_constant_context
set_step n r es base ret true true q h = rw (ignore-eq es base ret ∙ q) (rw h refl)
set_step n r es base ret true false q h = rw (ignore-eq es base ret ∙ q) (rw h refl)
set_step n r es base ret false k q h = rw (ignore-eq es base ret ∙ q) refl

pub return_step :
    (r : List Command) (es : List IfEntry) (base : ℕ) (ret i : Bool)
    → (ret || inner es base) ≡ i
    → do_reminders (return_ ∷ r) (st es base ret) ≡ do_reminders r (st es base (ret || not i))
unfolding do_reminders do_line do_return
return_step r es base true true q = rw (ignore-eq es base true) refl
return_step r es base false true q = rw (ignore-eq es base false ∙ q) refl
return_step r es base true false q = absurd cc
return_step r es base false false q = rw (ignore-eq es base false ∙ q) refl

-- The constancy of the context in an IF, before and behind its ELSE.
pub entry-known :
    (i : Bool) (v : Option Bool) (c : Bool) (es : List IfEntry) (k : Bool)
    → all_constant es ≡ k
    → all_constant (entry i v c ∷ es) ≡ (known i v c && k)
unfolding all_constant
entry-known true v c es k h = h
entry-known false none c es k h = refl
entry-known false (some b) c es k h = ap (λ x. c && x) h

pub else-known :
    (i : Bool) (v : Option Bool) (c : Bool) (es : List IfEntry) (k : Bool)
    → all_constant es ≡ k
    → all_constant (behind_else (entry i v c) ∷ es) ≡ (known i v c && k)
unfolding all_constant
else-known true v c es k h = h
else-known false none c es k h = refl
else-known false (some b) c es k h = ap (λ x. c && x) h

-- What the entry of an IF adds to the reasons to ignore a line, before and behind its ELSE.
pub entry-ignores :
    (v : Option Bool) (c ret g : Bool)
    → (ret || (ignores (entry (ret || g) v c) || g)) ≡ ((ret || g) || not (holds v))
unfolding ignores
entry-ignores none c ret g = ground arith
entry-ignores (some b) c ret g = ground arith

pub else-ignores :
    (v : Option Bool) (c ret g f : Bool)
    → ((ret || f) || (ignores (behind_else (entry (ret || g) v c)) || g))
      ≡ (((ret || f) || g) || holds v)
unfolding ignores
else-ignores none c ret g f = ground arith
else-ignores (some b) c ret g f = ground arith

pub entry-before_else : (g : Bool) (v : Option Bool) (c : Bool) → (entry g v c).before_else ≡ true
entry-before_else true v c = refl
entry-before_else false none c = refl
entry-before_else false (some b) c = refl
