-- ===== src/IfElse/Blocks/Meaning.antt =====
-- The commands of remind-v06.02.10/src/ifelse.c carry out nested blocks.
use remind_rb.Base.{
  ℕ, ◌+◌, ◌≤◌, ◌≡◌, refl, ap, ◌∙◌, sym, Bool, true, false, not, ◌&&◌, ◌||◌, List, [], ◌∷◌, ◌++◌,
  Option, length, arith,
}
use remind_rb.IfElse.{
  IfEntry, IfState, Command, Action, else_, endif_, if_nest, do_reminders, should_ignore_line,
  all_constant, in_constant_context,
}
use remind_rb.IfElse.Blocks.{
  Block, stop, line, set_line, return_then, when, branch, lines, depth, holds, known, plain_actions,
  set_action, meaning,
}
use remind_rb.IfElse.Blocks.Steps.{
  st, prefix, prefix-prefix, inner, entry, inner-cons, if_step, endif_step, else_step, plain_step,
  set_step, return_step, behind_else, entry-ignores, else-ignores, entry-before_else, ignore-eq,
  entry-known, else-known,
}

-- `i` tells whether lines are ignored where the block begins, and `k` whether the context is
-- constant.
abbrev Runs : Block → Type 0
Runs b =
    (r : List Command) (es : List IfEntry) (base : ℕ) (ret i k : Bool)
    → (ret || inner es base) ≡ i
    → all_constant es ≡ k
    → base ≤ length es
    → length es + depth b ≤ if_nest
    → (let w = meaning b i k in
        do_reminders (lines b r) (st es base ret)
        ≡ prefix w.0 (do_reminders r (st es base (ret || w.1))))

under_if :
    (v : Option Bool) (c : Bool) (es : List IfEntry) (base : ℕ) (ret : Bool)
    → base ≤ length es
    → (ret || inner (entry (ret || inner es base) v c ∷ es) base)
      ≡ ((ret || inner es base) || not (holds v))
under_if v c es base ret h =
    ap (λ x. ret || x) (inner-cons (entry (ret || inner es base) v c) es base h)
    ∙ entry-ignores v c ret (inner es base)

under_else :
    (v : Option Bool) (c : Bool) (es : List IfEntry) (base : ℕ) (ret f : Bool)
    → base ≤ length es
    → ((ret || f) || inner (behind_else (entry (ret || inner es base) v c) ∷ es) base)
      ≡ (((ret || f) || inner es base) || holds v)
under_else v c es base ret f h =
    ap (λ x. (ret || f) || x)
      (inner-cons (behind_else (entry (ret || inner es base) v c)) es base h)
    ∙ else-ignores v c ret (inner es base) f

or_assoc : (a b c : Bool) → ((a || b) || c) ≡ (a || (b || c))
or_assoc a b c = ground arith

or_swap : (a b c i : Bool) → (a || c) ≡ i → ((a || b) || c) ≡ (i || b)
or_swap a b c i e = ground arith

or_false : (a : Bool) → (a || false) ≡ a
or_false a = ground arith

returned : (ret g i : Bool) → (ret || g) ≡ i → ((ret || not i) || g) ≡ true
returned ret g i e = ground arith

-- What stands behind a part, with the flag that the part leaves.
rejoin :
    (xs : List Action) (a b c : Bool) (next : Bool → IfState × List Action)
    → prefix xs (next ((a || b) || c)) ≡ prefix xs (next (a || (b || c)))
rejoin xs a b c next = ap (λ f. prefix xs (next f)) (or_assoc a b c)

lines-Runs : (b : Block) → Runs b
unfolding lines depth meaning
lines-Runs stop r es base ret i k q h le n =
    ap (λ f. do_reminders r (st es base f)) (sym (or_false ret))
lines-Runs (line n b) r es base ret i k q h le m =
    let w = meaning b i k in
    plain_step n (lines b r) es base ret i q
    ∙ ap (prefix (plain_actions i n)) (lines-Runs b r es base ret i k q h le m)
    ∙ prefix-prefix (plain_actions i n) w.0 (do_reminders r (st es base (ret || w.1)))
lines-Runs (set_line n b) r es base ret i k q h le m =
    let w = meaning b i k in
    set_step n (lines b r) es base ret i k q h
    ∙ ap (prefix (set_action i k n ∷ [])) (lines-Runs b r es base ret i k q h le m)
    ∙ prefix-prefix (set_action i k n ∷ []) w.0 (do_reminders r (st es base (ret || w.1)))
lines-Runs (return_then b) r es base ret i k q h le m =
    let w = meaning b true k in
    return_step (lines b r) es base ret i q
    ∙ lines-Runs b r es base (ret || not i) true k (returned ret (inner es base) i q) h le m
    ∙ rejoin w.0 ret (not i) w.1 (λ f. do_reminders r (st es base f))
lines-Runs (when v c t b) r es base ret i k q h le d =
    let e0 = entry (ret || inner es base) v c in
    let j = known i v c && k in
    let m = meaning t (i || not (holds v)) j in
    let w = meaning b (i || m.1) k in
    let next = endif_ ∷ lines b r in
    let last = λ (f : Bool). do_reminders r (st es base f) in
    let inside =
      lines-Runs t next (e0 ∷ es) base ret (i || not (holds v)) j
        (under_if v c es base ret le ∙ ap (λ x. x || not (holds v)) q)
        (entry-known (ret || inner es base) v c es k h ∙ ap (λ x. known x v c && k) q) (omega arith)
        (omega arith) in
    let behind =
      endif_step (lines b r) e0 es base (ret || m.1) le
      ∙ lines-Runs b r es base (ret || m.1) (i || m.1) k (or_swap ret m.1 (inner es base) i q) h le
          (omega arith) in
    if_step v c (lines t next) es base ret (omega arith)
    ∙ inside
    ∙ ap (prefix m.0) behind
    ∙ prefix-prefix m.0 w.0 (last ((ret || m.1) || w.1))
    ∙ rejoin (m.0 ++ w.0) ret m.1 w.1 last
lines-Runs (branch v c t e b) r es base ret i k q h le d =
    let g = inner es base in
    let e0 = entry (ret || g) v c in
    let j = known i v c && k in
    let m = meaning t (i || not (holds v)) j in
    let n = meaning e ((i || m.1) || holds v) j in
    let w = meaning b ((i || m.1) || n.1) k in
    let last = endif_ ∷ lines b r in
    let next = else_ ∷ lines e last in
    let rest = λ (f : Bool). do_reminders r (st es base f) in
    let swap = or_swap ret m.1 g i q in
    let inside =
      lines-Runs t next (e0 ∷ es) base ret (i || not (holds v)) j
        (under_if v c es base ret le ∙ ap (λ x. x || not (holds v)) q)
        (entry-known (ret || g) v c es k h ∙ ap (λ x. known x v c && k) q) (omega arith)
        (omega arith) in
    let other =
      else_step (lines e last) e0 es base (ret || m.1) le (entry-before_else (ret || g) v c)
      ∙ lines-Runs e last (behind_else e0 ∷ es) base (ret || m.1) ((i || m.1) || holds v) j
          (under_else v c es base ret m.1 le ∙ ap (λ x. x || holds v) swap)
          (else-known (ret || g) v c es k h ∙ ap (λ x. known x v c && k) q) (omega arith)
          (omega arith) in
    let behind =
      endif_step (lines b r) (behind_else e0) es base ((ret || m.1) || n.1) le
      ∙ lines-Runs b r es base ((ret || m.1) || n.1) ((i || m.1) || n.1) k
          (or_swap (ret || m.1) n.1 g (i || m.1) swap) h le (omega arith) in
    let end = rest (((ret || m.1) || n.1) || w.1) in
    if_step v c (lines t next) es base ret (omega arith)
    ∙ inside
    ∙ ap (prefix m.0) (other ∙ ap (prefix n.0) behind ∙ prefix-prefix n.0 w.0 end)
    ∙ prefix-prefix m.0 (n.0 ++ w.0) end
    ∙ ap (λ f. prefix (m.0 ++ (n.0 ++ w.0)) (rest (f || w.1))) (or_assoc ret m.1 n.1)
    ∙ rejoin (m.0 ++ (n.0 ++ w.0)) ret (m.1 || n.1) w.1 rest

-- The line loop carries out nested blocks as they are meant. From a state with the base not above
-- the pointer and room for the nesting, it does what the blocks mean where lines are ignored as in
-- that state, and goes on behind them with the entries as they were and a RETURN noted if there was
-- one. A SET or FSET in a part that is not carried out marks what it would set as not constant,
-- unless the conditions around it are constant.
pub do_reminders-lines :
    (b : Block) (r : List Command) (s : IfState)
    → s.base ≤ length s.entries
    → length s.entries + depth b ≤ if_nest
    → (let m = meaning b (should_ignore_line s) (in_constant_context s) in
        let (t, more) = do_reminders r (record s { returned = s.returned || m.1 }) in
        do_reminders (lines b r) s ≡ (t, m.0 ++ more))
unfolding in_constant_context
do_reminders-lines b r s h k =
    lines-Runs b r s.entries s.base s.returned (should_ignore_line s) (all_constant s.entries)
      (sym (ignore-eq s.entries s.base s.returned)) refl h k
