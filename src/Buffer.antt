-- ===== src/Buffer.antt =====
-- Lines of text, `split_buf`, `doCleanBuffer` and `normalizeBuffer` of src/core.c. A buffer is a C
-- string. A pointer into the buffer is the part of the string from there on; what the code writes
-- over a buffer that it goes on reading is the result of the function.
pub mod Splitting
pub mod Cleaning
pub mod Stripping
mod Examples
use denora.Prelude.{
  ℕ, zero, suc, ◌+◌, Bool, true, false, ◌&&◌, ◌||◌, List, [], ◌∷◌, Option, none, some, CString,
  length, is_digit, ltb, ◌==◌, if◌then◌else◌,
}

-- `issp`
abbrev pub space : ℕ
space = 32

-- what stands before the place that `strpbrk(s, " ")` finds, and what stands from there on
unfoldable pub before_space : CString → CString
before_space [] = []
before_space (x ∷ s) = if x == space then [] else x ∷ before_space s

unfoldable pub from_space : CString → CString
from_space [] = []
from_space (x ∷ s) = if x == space then x ∷ s else from_space s

-- `while (*s == ' ') s++`
unfoldable pub skip_spaces : CString → CString
skip_spaces [] = []
skip_spaces (x ∷ s) = if x == space then skip_spaces s else x ∷ s

unfoldable pub behind : CString → CString
behind [] = []
behind (x ∷ s) = s

-- where the next argument is read: behind the spaces, or the end of the buffer
unfoldable pub next_word : CString → CString
unfolding from_space behind skip_spaces
next_word buf = skip_spaces (behind (from_space buf))

abbrev pub push : CString → Option (List CString) → Option (List CString)
push arg none = none
push arg (some args) = some (arg ∷ args)

-- The loop of `split_buf`, with the arguments that it still stores. `none` stands for a write
-- outside of the vector, or for fuel that ran out.
unfoldable pub split_loop : ℕ → CString → ℕ → ℕ → Option (List CString)
unfolding before_space next_word
split_loop zero buf argc argvsize = none
split_loop (suc fuel) [] argc argvsize = some []
split_loop (suc fuel) (c ∷ r) argc argvsize =
    let size = if argc == argvsize then argvsize + 8 else argvsize in
    let rest = split_loop fuel (next_word (c ∷ r)) (argc + 1) size in
    let last = split_loop fuel [] (argc + 1) size in
    if ltb argc size
    then (if c == b':' then push r last else push (before_space (c ∷ r)) rest)
    else none

-- The fuel is two rounds more than the buffer has characters.
unfoldable pub split_buf : CString → Option (List CString)
unfolding split_loop
split_buf buf = split_loop (length buf + 2) buf 0 8

-- The `for (;;)` loop of `doCleanBuffer`, with what it writes. `gap` says that the inner `while`
-- has read a space since the last character that was written; at the terminator both loops break.
unfoldable pub clean_loop : Bool → CString → CString
clean_loop gap [] = []
clean_loop gap (ch ∷ s) =
    let spaces = clean_loop true s in
    let word = ch ∷ clean_loop false s in
    if ch == space then spaces else if gap then space ∷ word else word

-- the first `while`, and the loop if a character is left
unfoldable pub do_clean_buffer : CString → CString
unfolding clean_loop
do_clean_buffer [] = []
do_clean_buffer (ch ∷ s) =
    let spaces = do_clean_buffer s in if ch == space then spaces else ch ∷ clean_loop false s

-- `if (isdigit(buf[i + 1])) i++`
unfoldable pub drop_digit : CString → CString
drop_digit [] = []
drop_digit (x ∷ s) = if is_digit x then s else x ∷ s

-- the background of a colour code
unfoldable pub skip_background : CString → CString
unfolding drop_digit
skip_background [] = []
skip_background (x ∷ s) = if x == b',' then drop_digit (drop_digit s) else x ∷ s

-- what `case 3` leaves behind the control character
unfoldable pub skip_color : CString → CString
unfolding skip_background is_digit
skip_color [] = []
skip_color (x ∷ s) = if is_digit x then skip_background (drop_digit s) else x ∷ s

-- the cases that drop one character: 1, 2, 9, 10, 13, 22 and 31
unfoldable pub is_dropped : ℕ → Bool
is_dropped c = c == 1 || c == 2 || c == 9 || c == 10 || c == 13 || c == 22 || c == 31

unfoldable pub normalize_loop : ℕ → CString → CString
unfolding skip_color is_dropped
normalize_loop zero s = []
normalize_loop (suc fuel) [] = []
normalize_loop (suc fuel) (c ∷ s) =
    let colored = normalize_loop fuel (skip_color s) in
    let rest = normalize_loop fuel s in
    if c == 3 then colored else if is_dropped c then rest else c ∷ rest

-- An empty buffer gives a null pointer.
unfoldable pub normalize_buffer : CString → Option CString
unfolding normalize_loop
normalize_buffer [] = none
normalize_buffer (c ∷ s) = some (normalize_loop (length (c ∷ s)) (c ∷ s))
