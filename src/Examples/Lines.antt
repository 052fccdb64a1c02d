-- ===== src/Examples/Lines.antt =====
-- IF, ELSE and ENDIF: runs, and the theorem of IfElse at an input.
use remind_rb.Base.{◌≤◌, ◌+◌, ◌≡◌, refl, true, false, [], ◌∷◌, ◌++◌, some, arith}
use remind_rb.IfElse.{
  IfState, plain, do_set, carried_out, marked_nonconst, left_alone, in_constant_context,
  all_constant, if_nest, should_ignore_line, any_ignores, ignores, do_reminders, do_line, do_if,
  if_stack_full, push_if, encounter_else, encounter_endif, do_return,
}
use remind_rb.IfElse.Blocks.{
  Block, stop, line, set_line, return_then, when, branch, lines, depth, meaning,
}
use remind_rb.IfElse.Blocks.Meaning.{do_reminders-lines}

line_runs : Unit {0}
unfolding should_ignore_line any_ignores ignores do_reminders do_line do_if if_stack_full push_if
    encounter_else encounter_endif do_return do_set in_constant_context all_constant lines depth
    meaning
line_runs = tt

-- In an IF of the including file.
abbrev inside_if : IfState
inside_if = record {
  entries = record { lineno = 0; if_true = true; before_else = true; was_constant = true } ∷ [];
  base = 1;
  returned = false;
}

abbrev nested : Block
nested = line 1 (
    branch (some false) false (line 2 (set_line 8 stop))
      (when (some true) false (line 3 stop) (line 4 stop)) (line 5 (return_then (set_line 6 stop))))

nested_run :
    (do_reminders (lines nested (plain 7 ∷ [])) inside_if).1
    ≡ carried_out 1
      ∷ marked_nonconst 8
      ∷ carried_out 3
      ∷ carried_out 4
      ∷ carried_out 5
      ∷ left_alone 6
      ∷ []
unfolding line_runs
nested_run = refl

room : 1 + depth nested ≤ if_nest
unfolding line_runs
room = omega arith

do_reminders-lines_example :
    (let m = meaning nested (should_ignore_line inside_if) (in_constant_context inside_if) in
      let (t, more) = do_reminders (plain 7 ∷ []) (record inside_if { returned = m.1 }) in
      do_reminders (lines nested (plain 7 ∷ [])) inside_if ≡ (t, m.0 ++ more))
do_reminders-lines_example = do_reminders-lines nested (plain 7 ∷ []) inside_if (omega arith) room
