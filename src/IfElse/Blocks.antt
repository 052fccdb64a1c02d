-- ===== src/IfElse/Blocks.antt =====
-- IF, ELSE and ENDIF of remind-v06.02.10/src/ifelse.c against nested blocks.
mod Steps
pub mod Meaning
use remind_rb.Base.{
  ℕ, suc, Bool, true, false, not, ◌&&◌, ◌||◌, List, [], ◌∷◌, ◌++◌, Option, none, some,
}
use Prim.Native.Nat.{max}
use remind_rb.IfElse.{
  Command, plain, set_, return_, else_, endif_, if_, Action, carried_out, marked_nonconst,
  left_alone,
}

pub data Block : Type 0 where
  stop : Block
  line set_line : ℕ → Block → Block
  return_then : Block → Block
  -- The condition, the lines of the IF, and the lines behind its ENDIF.
  when : Option Bool → Bool → Block → Block → Block
  -- The condition, the lines of the IF and of the ELSE, and the lines behind the ENDIF.
  branch : Option Bool → Bool → Block → Block → Block → Block

-- The lines of a block, in front of others.
unfoldable pub lines : Block → List Command → List Command
lines stop r = r
lines (line n b) r = plain n ∷ lines b r
lines (set_line n b) r = set_ n ∷ lines b r
lines (return_then b) r = return_ ∷ lines b r
lines (when v c t b) r = if_ v c ∷ lines t (endif_ ∷ lines b r)
lines (branch v c t e b) r = if_ v c ∷ lines t (else_ ∷ lines e (endif_ ∷ lines b r))

unfoldable pub depth : Block → ℕ
depth stop = 0
depth (line n b) = depth b
depth (set_line n b) = depth b
depth (return_then b) = depth b
depth (when v c t b) = max (suc (depth t)) (depth b)
depth (branch v c t e b) = max (suc (max (depth t) (depth e))) (depth b)

-- A condition that cannot be evaluated counts as true.
abbrev pub holds : Option Bool → Bool
holds none = true
holds (some b) = b

-- Whether the entry of an IF is constant: it is where lines are ignored.
abbrev pub known : Bool → Option Bool → Bool → Bool
known true v c = true
known false none c = false
known false (some b) c = c

abbrev pub plain_actions : Bool → ℕ → List Action
plain_actions true n = []
plain_actions false n = carried_out n ∷ []

abbrev pub set_action : Bool → Bool → ℕ → Action
set_action false k n = carried_out n
set_action true true n = left_alone n
set_action true false n = marked_nonconst n

-- What a block means where lines are ignored or not, in a context that is constant or not: what is
-- done, and whether it returned. Behind a RETURN that is carried out, lines are ignored.
unfoldable pub meaning : Block → Bool → Bool → List Action × Bool
meaning stop i k = ([], false)
meaning (line n b) i k = let w = meaning b i k in (plain_actions i n ++ w.0, w.1)
meaning (set_line n b) i k = let w = meaning b i k in (set_action i k n ∷ w.0, w.1)
meaning (return_then b) i k = let w = meaning b true k in (w.0, not i || w.1)
meaning (when v c t b) i k =
    let m = meaning t (i || not (holds v)) (known i v c && k) in
    let w = meaning b (i || m.1) k in (m.0 ++ w.0, m.1 || w.1)
meaning (branch v c t e b) i k =
    let m = meaning t (i || not (holds v)) (known i v c && k) in
    let n = meaning e ((i || m.1) || holds v) (known i v c && k) in
    let w = meaning b ((i || m.1) || n.1) k in (m.0 ++ (n.0 ++ w.0), (m.1 || n.1) || w.1)
