-- ===== src/IfElse.antt =====
-- The nesting of IF, ELSE and ENDIF: remind-v06.02.10/src/ifelse.c, with DoIf, DoElse, DoEndif and
-- the test of the line loop DoReminders of main.c. The array of entries up to the pointer is a
-- list, innermost first; the base pointer, which INCLUDE moves, is the number of entries below it.
pub mod Blocks
use remind_rb.Base.{
  ℕ, zero, suc, ◌+◌, ◌-◌, Bool, true, false, not, ◌&&◌, ◌||◌, List, [], ◌∷◌, ◌++◌, Option, none,
  some, length, take, ltb, leb, if◌then◌else◌,
}
use remind_rb.Errors.{Result, ok, err, e_nested_if, e_else_no_if, e_endif_no_if}

abbrev pub if_nest : ℕ
if_nest = 64

pub record IfEntry : Type 0 where
  pub lineno : ℕ
  pub if_true : Bool
  pub before_else : Bool
  pub was_constant : Bool

pub record IfState : Type 0 where
  pub entries : List IfEntry
  pub base : ℕ
  pub returned : Bool

unfoldable pub push_if : ℕ → Bool → Bool → IfState → IfState × Result (Unit {0})
push_if lineno is_true was_constant s =
    if leb if_nest (length s.entries) then (s, err e_nested_if) else (
      record s {
        entries =
            record {
              lineno = lineno;
              if_true = is_true;
              before_else = true;
              was_constant = was_constant;
            }
            ∷ s.entries;
      },
      ok tt,
    )

unfoldable pub if_stack_full : IfState → Result (Unit {0})
if_stack_full s = if leb if_nest (length s.entries) then err e_nested_if else ok tt

else_entries : List IfEntry → List IfEntry × Result (Unit {0})
else_entries [] = ([], err e_else_no_if)
else_entries (e ∷ rest) =
    if not e.before_else
    then (e ∷ rest, err e_else_no_if)
    else (record e { before_else = false } ∷ rest, ok tt)

unfoldable pub encounter_else : IfState → IfState × Result (Unit {0})
unfolding else_entries
encounter_else s =
    if leb (length s.entries) s.base
    then (s, err e_else_no_if)
    else let (es, r) = else_entries s.entries in (record s { entries = es }, r)

-- DoReturn; the check of the rest of the line is left out.
unfoldable pub do_return : IfState → IfState
do_return s = record s { returned = true }

pop_entry : List IfEntry → List IfEntry
pop_entry [] = []
pop_entry (e ∷ rest) = rest

unfoldable pub encounter_endif : IfState → IfState × Result (Unit {0})
unfolding pop_entry
encounter_endif s =
    if leb (length s.entries) s.base
    then (s, err e_endif_no_if)
    else (record s { entries = pop_entry s.entries }, ok tt)

unfoldable pub get_base_if_pointer : IfState → ℕ
get_base_if_pointer s = s.base

unfoldable pub get_if_pointer : IfState → ℕ
get_if_pointer s = length s.entries

unfoldable pub set_base_if_pointer : ℕ → IfState → IfState
set_base_if_pointer n s = record s { base = n }

-- An entry makes the current line one to ignore.
unfoldable pub ignores : IfEntry → Bool
ignores e = (e.if_true && not e.before_else) || (not e.if_true && e.before_else)

unfoldable pub any_ignores : List IfEntry → Bool
any_ignores [] = false
any_ignores (e ∷ rest) = ignores e || any_ignores rest

unfoldable pub should_ignore_line : IfState → Bool
should_ignore_line s =
    if s.returned then true else any_ignores (take (length s.entries - s.base) s.entries)

unfoldable pub all_constant : List IfEntry → Bool
all_constant [] = true
all_constant (e ∷ rest) = e.was_constant && all_constant rest

unfoldable pub in_constant_context : IfState → Bool
unfolding all_constant
in_constant_context s = all_constant s.entries

drop_to : ℕ → List IfEntry → List IfEntry
drop_to n [] = []
drop_to n (e ∷ rest) = if ltb n (suc (length rest)) then drop_to n rest else e ∷ rest

-- pop_excess_ifs, without its messages.
unfoldable pub pop_excess_ifs : IfState → IfState
unfolding drop_to
pop_excess_ifs s =
    let t = record s { returned = false } in
    if leb (length s.entries) s.base then t else record t { entries = drop_to s.base s.entries }

-- A line of a file. INCLUDE and EXIT are left out; all other commands that are not named here leave
-- the stack as it is: they are plain lines. So a line is a plain one or a SET or FSET by its number, RETURN, or IF with the value of its
-- condition (`none` where the evaluation fails) and whether that is constant, ELSE and ENDIF.
pub data Command : Type 0 where
  plain set_ : ℕ → Command
  return_ else_ endif_ : Command
  if_ : Option Bool → Bool → Command

unfoldable pub do_if : Option Bool → Bool → IfState → IfState × Result (Unit {0})
unfolding if_stack_full push_if should_ignore_line
do_if value constant s = elim (if_stack_full s) [
  | err e ↦ (s, err e)
  | ok _ ↦ if should_ignore_line s then ((push_if 0 true true s).0, ok tt) else elim value [
    | none ↦ ((push_if 0 true false s).0, ok tt)
    | some true ↦ ((push_if 0 true constant s).0, ok tt)
    | some false ↦ ((push_if 0 false constant s).0, ok tt)
  ]
]

-- What a line does besides: it is carried out, or, as a SET or FSET that is ignored, it marks the
-- variable or function that it would set, if there is one, as not constant or, in a constant context,
-- leaves it alone.
pub data Action : Type 0 where
  carried_out marked_nonconst left_alone : ℕ → Action

-- DoSet and DoFset up to the end of their case for an ignored line, with a name that can be read.
unfoldable pub do_set : ℕ → IfState → Action
unfolding in_constant_context
do_set n s =
    if should_ignore_line s
    then (if in_constant_context s then left_alone n else marked_nonconst n)
    else carried_out n

-- One turn of the loop in DoReminders: the new state, and what is done. SET and FSET are taken also
-- where lines are ignored.
unfoldable pub do_line : Command → IfState → IfState × List Action
unfolding do_set
do_line (plain n) s = if should_ignore_line s then (s, []) else (s, carried_out n ∷ [])
do_line (set_ n) s = (s, do_set n s ∷ [])
do_line return_ s = if should_ignore_line s then (s, []) else (do_return s, [])
do_line else_ s = ((encounter_else s).0, [])
do_line endif_ s = ((encounter_endif s).0, [])
do_line (if_ value constant) s = ((do_if value constant s).0, [])

unfoldable pub do_reminders : List Command → IfState → IfState × List Action
do_reminders [] s = (s, [])
do_reminders (c ∷ rest) s =
    let (t, done) = do_line c s in let (u, more) = do_reminders rest t in (u, done ++ more)
