-- ===== src/Tokens.antt =====
-- Tokens of a string, `myStrSubString`, `myStrGetToken`, `myStrGetOnlyToken`,
-- `myStrGetTokenRemainder` and `myNumToken` of src/core.c. A null result is `none`. The loops run
-- over the characters from `idx` on, with the local variables of the source as further arguments;
-- positions are counted in bytes, without the int's bound. The delimiter is no zero byte, as in
-- every call.
pub mod Fields
pub mod Positions
pub mod Agreement
mod Examples
use denora.Prelude.{
  ℕ, ◌+◌, ◌-◌, Bool, true, false, not, ◌&&◌, List, [], ◌∷◌, Option, none, some, CString, length,
  take, drop, ltb, leb, ◌==◌, if◌then◌else◌,
}

-- positions are never negative here, so `start >= 0` holds
unfoldable pub str_sub_string : CString → ℕ → ℕ → Option CString
str_sub_string src start end =
    if leb end (length src) && ltb start end
    then some (take (end - start) (drop start src))
    else none

-- The loop of `myStrGetToken` and of `myStrGetTokenRemainder`, which differ in what they cut out:
-- `cut start_pos idx`. The last round, `idx == len`, is the clause for the empty rest.
unfoldable pub token_loop :
    (ℕ → ℕ → Option CString) → ℕ → ℕ → CString → ℕ → ℕ → ℕ → Option CString → Option CString
token_loop cut dilim token_number [] idx counter start_pos substring =
    if counter == token_number then cut start_pos idx else substring
token_loop cut dilim token_number (x ∷ rest) idx counter start_pos substring =
    let ends = x == dilim in
    let hit = ends && counter == token_number in
    token_loop cut dilim token_number rest (idx + 1) (if ends then counter + 1 else counter)
      (if ends && not hit then idx + 1 else start_pos)
      (if hit then cut start_pos idx else substring)

unfoldable pub str_get_token : CString → ℕ → ℕ → Option CString
unfolding token_loop str_sub_string
str_get_token str dilim token_number =
    token_loop (λ start_pos idx. str_sub_string str start_pos idx) dilim token_number str 0 0 0 none

unfoldable pub str_get_token_remainder : CString → ℕ → ℕ → Option CString
unfolding token_loop str_sub_string
str_get_token_remainder str dilim token_number =
    token_loop (λ start_pos idx. str_sub_string str start_pos (length str)) dilim token_number str 0
      0 0 none

-- The loop of `myStrGetOnlyToken`. The terminator at `idx == len` is no delimiter, so nothing
-- happens in the last round.
unfoldable pub only_token_loop :
    CString → ℕ → ℕ → CString → ℕ → ℕ → ℕ → Option CString → Option CString
only_token_loop str dilim token_number [] idx counter start_pos substring = substring
only_token_loop str dilim token_number (x ∷ rest) idx counter start_pos substring =
    let ends = x == dilim in
    let hit = ends && counter == token_number in
    only_token_loop str dilim token_number rest (idx + 1) (if ends then counter + 1 else counter)
      (if ends && not hit then idx + 1 else start_pos)
      (if hit then str_sub_string str start_pos (if x == 13 then idx - 1 else idx) else substring)

unfoldable pub str_get_only_token : CString → ℕ → ℕ → Option CString
unfolding only_token_loop str_sub_string
str_get_only_token str dilim token_number = only_token_loop str dilim token_number str 0 0 0 none

-- the loop of `myNumToken`
unfoldable pub num_token_loop : CString → ℕ → ℕ → ℕ
num_token_loop [] dilim counter = counter
num_token_loop (x ∷ rest) dilim counter =
    num_token_loop rest dilim (if x == dilim then counter + 1 else counter)

unfoldable pub num_token : CString → ℕ → ℕ
unfolding num_token_loop
num_token str dilim = num_token_loop str dilim 0
