-- ===== src/Expr/Text.antt =====
-- Numbers as text: the formats %d and %0*d of the coercions in remind-v06.02.10/src/expr.c, and the
-- loops of its parsers over digits.
use remind_rb.Base.{
  ℕ, zero, suc, ◌+◌, ◌-◌, ◌*◌, ◌/◌, ◌%◌, Bool, ◌&&◌, [], ◌∷◌, length, ltb, leb, if◌then◌else◌,
}
use remind_rb.Base.Int.{ℤ, pos, negsuc}
use remind_rb.Errors.{Result, ok, err, undefined_overflow}
use remind_rb.Expr.{Chars}

abbrev pub is_digit : ℕ → Bool
is_digit c = leb 48 c && leb c 57

-- The decimal digits of a number, in front of others. There are no more of them than rounds.
unfoldable pub digits_loop : ℕ → ℕ → Chars → Chars
digits_loop zero n acc = acc
digits_loop (suc rounds) n acc =
    let rest = digits_loop rounds (n / 10) ((n % 10 + 48) ∷ acc) in
    if ltb n 10 then (n + 48) ∷ acc else rest

unfoldable pub decimal : ℕ → Chars
unfolding digits_loop
decimal n = digits_loop (n + 1) n []

unfoldable pub zeros : ℕ → Chars → Chars
zeros zero s = s
zeros (suc n) s = 48 ∷ zeros n s

-- %0*d for a number that is not negative.
unfoldable pub padded : ℕ → ℕ → Chars
unfolding zeros decimal
padded width n = let s = decimal n in zeros (width - length s) s

-- %0*d, where the sign takes a place of the width.
unfoldable pub padded_int : ℕ → ℤ → Chars
unfolding padded
padded_int width (pos n) = padded width n
padded_int width (negsuc n) = 45 ∷ padded (width - 1) (n + 1)

-- %d.
unfoldable pub decimal_int : ℤ → Chars
unfolding decimal
decimal_int (pos n) = decimal n
decimal_int (negsuc n) = 45 ∷ decimal (n + 1)

-- `while (isdigit(*s)) { i *= 10; i += *s++ - '0'; }`, with the rest of the text.
unfoldable pub read_digits : ℕ → Chars → Result (ℕ × Chars)
read_digits i [] = ok (i, [])
read_digits i (c ∷ s) =
    let next = i * 10 + (c - 48) in
    let more = if ltb next 2147483648 then read_digits next s else err undefined_overflow in
    if is_digit c then more else ok (i, c ∷ s)
