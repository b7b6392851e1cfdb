-- ===== src/Wild.antt =====
-- Wildcard matching, `do_match_wild`, `match_wild` and `match_wild_nocase` of src/core.c.
-- A pattern and a string are C strings, so neither holds a zero byte. The `for (;;)` loop consumes
-- one character of the pattern in each round and is a recursion on the pattern; each round is given
-- the rest of the loop, `rest`, as a function of the string that is left.
pub mod Relation
pub mod Soundness
pub mod Completeness
mod Examples
use denora.Prelude.{
  ℕ, Bool, true, false, List, [], ◌∷◌, CString, is_nil, tolower, ◌==◌, if◌then◌else◌, ◌&&◌, ◌||◌,
}

-- the comparison under `docase`
unfoldable pub same : Bool → ℕ → ℕ → Bool
unfolding tolower
same docase x c = if docase then x == c else tolower x == tolower c

-- `case '?'`
unfoldable pub any_one : (CString → Bool) → CString → Bool
any_one rest [] = false
any_one rest (x ∷ s) = rest s

-- `default`: at the end of the string the terminator differs from the pattern's character
unfoldable pub literal : Bool → ℕ → (CString → Bool) → CString → Bool
unfolding same
literal docase c rest [] = false
literal docase c rest (x ∷ s) = if same docase x c then rest s else false

-- the `while (*s)` loop of `case '*'`: a candidate starts with the pattern's next character `h`.
-- The pattern and the candidate are not empty there, so the recursive call passes its first guard.
unfoldable pub scan : Bool → ℕ → (CString → Bool) → CString → Bool
unfolding same
scan docase h rest [] = false
scan docase h rest (x ∷ s) = if same docase x h && rest (x ∷ s) then true else scan docase h rest s

-- `case '*'`: after the loop the outer loop goes on at the same place of the string
unfoldable pub star : Bool → CString → (CString → Bool) → CString → Bool
unfolding scan
star docase [] rest str = true
star docase (h ∷ p) rest str = if scan docase h rest str then true else rest str

-- one round of the loop, at a character `c` of the pattern that `p` follows
unfoldable pub round : Bool → ℕ → CString → (CString → Bool) → CString → Bool
unfolding any_one literal star
round docase c p rest str =
    if c == b'?'
    then any_one rest str
    else if c == b'*'
    then star docase p rest str
    else literal docase c rest str

unfoldable pub match_loop : Bool → CString → CString → Bool
unfolding round
match_loop docase [] str = is_nil str
match_loop docase (c ∷ p) str = round docase c p (match_loop docase p) str

unfoldable pub do_match_wild : CString → CString → Bool → Bool
unfolding match_loop
do_match_wild pattern str docase =
    if is_nil str || is_nil pattern then false else match_loop docase pattern str

unfoldable pub match_wild : CString → CString → Bool
unfolding do_match_wild
match_wild pattern str = do_match_wild pattern str true

unfoldable pub match_wild_nocase : CString → CString → Bool
unfolding do_match_wild
match_wild_nocase pattern str = do_match_wild pattern str false
