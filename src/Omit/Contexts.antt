-- ===== src/Omit/Contexts.antt =====
-- POP-OMIT-CONTEXT undoes what was done since the matching PUSH-OMIT-CONTEXT.
use remind_rb.Base.{ℕ, zero, suc, ◌≡◌, refl, sym, ap, ◌∙◌, true, List, ◌∷◌, ◌-◌, arith, ◌+◌}
use remind_rb.Base.Int.{ℤ, pos, negsuc}
use remind_rb.Errors.{Result, ok}
use remind_rb.Calendar.{Date, dse}
use remind_rb.Omit.{
  Omits, restore, push_omit_context, pop_omit_context, clear_global_omits, add_global_omit,
  omit_full_loop, omit_full_range,
}
use remind_rb.Omit.Arrays.{insert_into_sorted_array}

omit_full_loop-saved : (left n : ℕ) (o : Omits) → (omit_full_loop left n o).0.saved ≡ o.saved
unfolding omit_full_loop
omit_full_loop-saved zero n o = refl
omit_full_loop-saved (suc left) n o = ground (
  arith,
  omit_full_loop-saved left (n + 1) (record o { full = insert_into_sorted_array o.full n }),
  omit_full_loop-saved left (n + 1) o,
)

omit_full_range-saved : (a b : Date) (o : Omits) → (omit_full_range a b o).0.saved ≡ o.saved
unfolding omit_full_range
omit_full_range-saved a b o =
    let start = dse a.year a.month a.day in
    ground (arith, omit_full_loop-saved (dse b.year b.month b.day + 1 - start) start o)

add_global_omit-saved : (o : Omits) (n : ℤ) → (add_global_omit o n).0.saved ≡ o.saved
unfolding add_global_omit
add_global_omit-saved o (pos n) = ground arith
add_global_omit-saved o (negsuc n) = refl

-- What a file does between a push and its pop: commands on the omits, and pushes with their pops.
pub data Inside : Omits → Omits → Type 0 where
  done : {o : Omits} → Inside o o
  clear : {o p : Omits} → Inside (clear_global_omits o) p → Inside o p
  add : {o p : Omits} (n : ℤ) → Inside (add_global_omit o n).0 p → Inside o p
  full_range : {o p : Omits} (a b : Date) → Inside (omit_full_range a b o).0 p → Inside o p
  part_days : {o p : Omits} (days : List ℕ) → Inside (record o { partial = days }) p → Inside o p
  weekdays : {o p : Omits} (wd : ℕ) → Inside (record o { weekday_omits = wd }) p → Inside o p
  nest :
      {o p q r t : Omits}
      → push_omit_context true o ≡ ok p
      → Inside p q
      → pop_omit_context q ≡ ok r
      → Inside r t
      → Inside o t

saved-push :
    (o p : Omits)
    → push_omit_context true o ≡ ok p
    → p.saved
      ≡ record { full_save = o.full; part_save = o.partial; weekday_save = o.weekday_omits }
        ∷ o.saved
unfolding push_omit_context
saved-push o p e = ground arith

pop-push_saved :
    (o p q : Omits)
    → push_omit_context true o ≡ ok p
    → q.saved ≡ p.saved
    → pop_omit_context q ≡ ok o
unfolding pop_omit_context
pop-push_saved o p q e s = ap (restore q) (s ∙ saved-push o p e)

same_saved : (r o : Omits) → ◌≡◌ {A = Result Omits} (ok r) (ok o) → r.saved ≡ o.saved
same_saved r o e = ground arith

Inside-saved : {o p : Omits} → Inside o p → p.saved ≡ o.saved
unfolding clear_global_omits
Inside-saved done = refl
Inside-saved (clear i) = Inside-saved i
Inside-saved {o} (add n i) = Inside-saved i ∙ add_global_omit-saved o n
Inside-saved {o} (full_range a b i) = Inside-saved i ∙ omit_full_range-saved a b o
Inside-saved (part_days d i) = Inside-saved i
Inside-saved (weekdays w i) = Inside-saved i
Inside-saved {o} (nest {p = p} {q = q} {r = r} e i f j) =
    Inside-saved j ∙ same_saved r o (sym f ∙ pop-push_saved o p q e (Inside-saved i))

-- A pop succeeds, and gives back the omits and the saved contexts of the matching push, whatever
-- commands, pushes and pops stand in between.
pub pop-push :
    (o p q : Omits) → push_omit_context true o ≡ ok p → Inside p q → pop_omit_context q ≡ ok o
pop-push o p q e i = pop-push_saved o p q e (Inside-saved i)
