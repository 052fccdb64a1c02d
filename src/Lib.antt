-- ===== src/Lib.antt =====
-- The calendar program Remind, in remind-v06.02.10/src, written in C.
--
-- The parts and how they interact. A reminder file is read line by line (main.c, DoReminders); IF,
-- ELSE, ENDIF and RETURN decide which lines are carried out (ifelse.c); OMIT, CLEAR-OMIT-CONTEXT,
-- PUSH-OMIT-CONTEXT and POP-OMIT-CONTEXT change the global omits (omit.c); REM computes the date on
-- which a reminder is due from its day, month, year and weekdays (trigger.c) over a count of days
-- (main.c, DSE and FromDSE); a reminder that is due can be kept in a sorted buffer (sort.c).
-- Expressions stand in the lines and are parsed and evaluated on values of their own (expr.c).
--
-- Which file models which part:
--   Calendar   DSE and FromDSE of main.c, with the macros and tables of globals.h
--   Trigger    the types Trigger and TimeTrig of types.h, and trigger.c; Trigger.Simple is
--              NextSimpleTrig, with one function for each case of its switch, Trigger.Next is
--              GetNextTriggerDate, and Trigger.Compute is ComputeTrigger with its two helpers;
--              IsOmitted is a parameter of Trigger.Next, since it depends on the OMITFUNC
--   Hebrew     DSEToHeb, HebToDSE and GetValidHebDate of hbcal.c, with the lengths of years and months
--   Omit       the global omits of omit.c: its arrays, contexts and tests
--   IfElse     ifelse.c, with DoIf, DoElse, DoEndif and the test in DoReminders of main.c, and what
--              DoSet of var.c and DoFset of userfns.c do in an ignored line; IFTRIG is not modelled
--   Expr       expr.c: Expr.Text, Expr.Literal and Expr.Coerce are DoCoerce and the parsers of literal
--              dates and times, Expr.Operators the operators on values, Expr.Comp the counts and the
--              flag that evaluation changes, and Expr.Eval evaluate_expr_node with the functions under
--              it, with iif, choose, isany, catch, isconst and value of funcs.c; the other built-in
--              functions, which may evaluate more nodes as eval() does, the variables and the table of
--              user functions are an argument;
--              Expr.Token, Expr.Number and Expr.Parse are parse_expr_token, make_atom with
--              set_constant_value, and the functions from parse_expression to parse_atom, with the
--              grammar that they follow in Expr.Parse.Grammar
--   Sort       the order and the buffer of sort.c
--   Errors     the codes of err.h that these functions return
--   Base       shared names, Boolean tests, lists and integers, and a bounded search
--   Examples   runs of the definitions, and each theorem at an input
--
-- How the code is read. An `int` that is not negative in all runs is a natural number; one that can
-- be negative is an integer. The sentinels NO_DAY, NO_MON, NO_YR, NO_UNTIL, NO_DATE and NO_TIME are
-- `none`. An error code is a value of a result. Global variables are the fields of a state that each
-- function takes and returns. A year in a trigger or an OMIT is at most 5990, far from the end of an
-- `int`, and the numbers of the calendar are not bounded. The values of expressions can be any `int`;
-- where C leaves a result undefined, the model has an error that is no code of Remind. So has the text
-- of a date from day 2146013850 on, for which FromDSE overflows. Only
-- set_constant_value is read with an `int` that wraps around, as its own test for overflow does. The
-- allocation of memory succeeds in the expressions, and debugging output, the call stack, RunDisabled
-- and the marks on used variables are left out there.
--
-- Bounds and fuel. A loop over months that are too short has twelve rounds, one over years that are
-- too short has eight, one over weekdays seven; the lemmas of Trigger.Simple.Loops and
-- Trigger.Weekday show that each ends by its own test within them. The loop of FromDSE over years is
-- a recursion on the year, and the one over months has eleven rounds; Calendar.Days shows that both
-- suffice for every day number. The Hebrew loops are recursions on the year and on the table of
-- months. The binary search has as many rounds as the array has elements.
-- The evaluator recurs on the node, within a recursion on the levels that are left below
-- MAX_RECURSION_LEVEL. The digits of a number have one more round than its value. The parser recurs on
-- the levels that CHECK_PARSE_LEVEL leaves, and its loops have a round for each token;
-- Expr.Parse.Complete shows that these are enough.
-- The loops of BEFORE, AFTER and BACK in GetNextTriggerDate give up after MaxSatIter rounds, as in
-- the source, and ComputeTriggerNoAdjustDuration after TRIG_ATTEMPTS attempts; these failures are
-- values of the model, and the theorems say when they can happen.
-- What is not modelled: triggers with a time zone in ComputeTrigger, the saving of its arguments in
-- global variables for trigdate() and the like, the INFO lines of trigger.c, the parser of reminders,
-- the built-in functions on evaluated arguments, files, the calendar and PostScript output, the
-- queue, the moon and the sun, and the Ruby library around the program. They are printing, input, or
-- large parts of their own. json.c and md5.c are copies of other libraries.
pub mod Base
pub mod Calendar
pub mod Errors
pub mod Examples
pub mod Expr
pub mod Hebrew
pub mod IfElse
pub mod Omit
pub mod Sort
pub mod Trigger
