-- ===== src/Expr/Token.antt =====
-- parse_expr_token of remind-v06.02.10/src/expr.c: the tokens of an expression. A token is the text
-- in ExprBuf, and the empty one is the end.
use remind_rb.Base.{
  ℕ, zero, suc, ◌+◌, ◌-◌, ◌*◌, Bool, true, false, not, ◌&&◌, ◌||◌, [], ◌∷◌, ◌++◌, length, leb, ◌==◌,
  if◌then◌else◌,
}
use remind_rb.Errors.{Error, Result, ok, err, e_parse_err, e_miss_quote, e_illegal_char, e_no_mem}
use remind_rb.Expr.{Chars, Format}
use remind_rb.Expr.Text.{is_digit}

abbrev pub is_alpha : ℕ → Bool
is_alpha c = (leb 65 c && leb c 90) || (leb 97 c && leb c 122)

abbrev pub is_id : ℕ → Bool
is_id c = is_alpha c || (is_digit c || (c == 95))

abbrev pub is_xdigit : ℕ → Bool
is_xdigit c = is_digit c || ((leb 65 c && leb c 70) || (leb 97 c && leb c 102))

abbrev pub xdigit_value : ℕ → ℕ
xdigit_value c = if is_digit c then c - 48 else if leb c 70 then c - 55 else c - 87

-- isempty(): white space, which is 9 to 13 and 32, and the backslash.
abbrev pub is_empty : ℕ → Bool
is_empty c = (leb 9 c && leb c 13) || ((c == 32) || (c == 92))

abbrev pub skip_empty : Chars → Chars
skip_empty [] = []
skip_empty (c ∷ s) = let rest = skip_empty s in if is_empty c then rest else c ∷ s

abbrev pub starts_with : (ℕ → Bool) → Chars → Bool
starts_with test [] = false
starts_with test (c ∷ s) = test c

-- A character in front of what is read behind it.
abbrev pub push : ℕ → Result (Chars × Chars) → Result (Chars × Chars)
push c (ok (t, s)) = ok (c ∷ t, s)
push c (err e) = err e

-- The longest run of characters that pass a test.
unfoldable pub run_of : (ℕ → Bool) → Chars → Chars × Chars
run_of test [] = ([], [])
run_of test (c ∷ s) =
    let more = run_of test s in if test c then (c ∷ more.0, more.1) else ([], c ∷ s)

-- Where the loop over a quoted string stands: between characters, behind a backslash, in front of
-- the first digit of \x, or of a second one.
pub data Mode : Type 0 where
  plain escaped hex_first : Mode
  hex_second : ℕ → Mode

abbrev escape : ℕ → ℕ
escape c =
    if c == 97
    then 7
    else if c == 98
    then 8
    else if c == 102
    then 12
    else if c == 110
    then 10
    else if c == 114
    then 13
    else if c == 116
    then 9
    else if c == 118
    then 11
    else c

-- \x00 is refused, with the code that every failure in this loop has.
abbrev push_code : ℕ → Result (Chars × Chars) → Result (Chars × Chars)
push_code c r = if c == 0 then err e_no_mem else push c r

-- Behind the opening quote. While only escapes have been read (`fresh`), the variable `c` still
-- holds that quote, and the end of the text is taken for the closing one.
unfoldable pub quoted : Bool → Mode → Chars → Result (Chars × Chars)
quoted fresh plain [] = if fresh then ok ([], []) else err e_miss_quote
quoted fresh mode [] = err e_miss_quote
quoted fresh plain (c ∷ s) =
    let behind = quoted fresh escaped s in
    let more = quoted false plain s in
    if c == 92 then behind else if c == 34 then ok (c ∷ [], s) else push c more
quoted fresh escaped (c ∷ s) =
    let hex = quoted fresh hex_first s in
    let more = quoted fresh plain s in
    if (c == 120) && starts_with is_xdigit s then hex else push (escape c) more
quoted fresh hex_first (c ∷ s) =
    let second = quoted fresh (hex_second (xdigit_value c)) s in
    let more = quoted fresh plain s in
    if starts_with is_xdigit s then second else push_code (xdigit_value c) more
quoted fresh (hex_second d) (c ∷ s) = push_code (d * 16 + xdigit_value c) (quoted fresh plain s)

unfoldable pub single_quoted : Chars → Result (Chars × Chars)
single_quoted [] = err e_miss_quote
single_quoted (c ∷ s) =
    let more = single_quoted s in if c == 39 then ok (c ∷ [], s) else push c more

-- `,` `]` `+` `-` `*` `/` `(` `)` and `%`.
abbrev is_single : ℕ → Bool
is_single c =
    (c == 44)
    || ((c == 93)
        || ((c == 43)
            || ((c == 45)
                || ((c == 42) || ((c == 47) || ((c == 40) || ((c == 41) || (c == 37))))))))

-- `&`, `|` and `=`, which come in pairs.
abbrev is_paired : ℕ → Bool
is_paired c = (c == 38) || ((c == 124) || (c == 61))

-- `!`, `>` and `<`, which `=` may follow.
abbrev is_compared : ℕ → Bool
is_compared c = (c == 33) || ((c == 62) || (c == 60))

-- The second character of an operator.
unfoldable pub paired : ℕ → Chars → Result (Chars × Chars)
paired c [] = err e_parse_err
paired c (d ∷ s) = if c == d then ok (c ∷ d ∷ [], s) else err e_parse_err

unfoldable pub compared : ℕ → Chars → Result (Chars × Chars)
compared c [] = ok (c ∷ [], [])
compared c (d ∷ s) = if d == 61 then ok (c ∷ d ∷ [], s) else ok (c ∷ [], d ∷ s)

-- A name takes a `(` behind it, with white space between.
unfoldable pub with_paren : ℕ → Chars → Chars → Chars × Chars
with_paren c t [] = (t, [])
with_paren c t (d ∷ s) =
    if (is_alpha c || (c == 95)) && (d == 40) then (t ++ (d ∷ []), s) else (t, d ∷ s)

unfoldable pub word : Format → ℕ → Chars → Chars × Chars
unfolding run_of with_paren
word f c s =
    let r = run_of (λ d. is_id d || ((d == 58) || ((d == 46) || (d == f.time_sep)))) s in
    with_paren c (c ∷ r.0) (skip_empty r.1)

abbrev behind_quote : (Chars → Result (Chars × Chars)) → Chars → Result (Chars × Chars)
behind_quote read [] = err e_miss_quote
behind_quote read (c ∷ s) = read (c ∷ s)

abbrev as_ok : Chars × Chars → Result (Chars × Chars)
as_ok r = ok r

unfoldable pub token_at : Format → ℕ → Chars → Result (Chars × Chars)
unfolding quoted single_quoted paired compared run_of word
token_at f c s =
    if is_single c
    then ok (c ∷ [], s)
    else if is_paired c
    then paired c s
    else if is_compared c
    then compared c s
    else if c == 34
    then push c (behind_quote (quoted true plain) s)
    else if c == 39
    then push c (behind_quote single_quoted s)
    else if not (is_id c) && not (c == 36)
    then err e_illegal_char
    else if (c == 36) && starts_with is_alpha s
    then push c (as_ok (run_of is_id s))
    else ok (word f c s)

abbrev token_or_end : Format → Chars → Result (Chars × Chars)
token_or_end f [] = ok ([], [])
token_or_end f (c ∷ s) = token_at f c s

unfoldable pub parse_expr_token : Format → Chars → Result (Chars × Chars)
unfolding token_at
parse_expr_token f s = token_or_end f (skip_empty s)

-- What the parser reads of a text: its tokens up to the end, or up to one that is an error.
pub data Tokens : Type 0 where
  done : Tokens
  bad : Error → Tokens
  tok : Chars → Tokens → Tokens

abbrev then_tokens : (Chars → Tokens) → Result (Chars × Chars) → Tokens
then_tokens more (ok ([], s)) = done
then_tokens more (ok (c ∷ t, s)) = tok (c ∷ t) (more s)
then_tokens more (err e) = bad e

-- A token has a character at least, so there is a round for each.
unfoldable pub tokens_loop : ℕ → Format → Chars → Tokens
unfolding parse_expr_token
tokens_loop zero f s = done
tokens_loop (suc rounds) f s = then_tokens (tokens_loop rounds f) (parse_expr_token f s)

unfoldable pub tokens : Format → Chars → Tokens
unfolding tokens_loop
tokens f s = tokens_loop (length s + 1) f s
