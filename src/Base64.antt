-- ===== src/Base64.antt =====
-- The base 64 numbers of the protocols, `int_to_base64`, `base64_to_int`, `inttobase64` and
-- `base64toint` of src/base64.c. An int and an unsigned int are 32-bit words; `long` is wider.
-- `none` is an access outside of a buffer or a string, or the call of abort. The argument of
-- `int_to_base64` is not negative.
pub mod RoundTrip
mod Examples
use denora.Prelude.{
  ℕ, zero, suc, ◌+◌, ◌-◌, ◌*◌, ◌/◌, ◌%◌, ◌^◌, List, [], ◌∷◌, Option, none, some, CString, codes,
  ltb, ◌==◌, if◌then◌else◌,
}

-- -1 as a word
abbrev pub no_digit : ℕ
no_digit = 2 ^ 32 - 1

abbrev pub int6_to_base64_map : CString
int6_to_base64_map = codes "0123456789ABCDEFGHIJKLMNOPQRSTUVWXYZabcdefghijklmnopqrstuvwxyz{}"

abbrev pub base64_to_int6_map : List ℕ
base64_to_int6_map =
    no_digit ∷ no_digit ∷ no_digit ∷ no_digit ∷ no_digit ∷ no_digit ∷ no_digit ∷ no_digit ∷ no_digit
    ∷ no_digit ∷ no_digit ∷ no_digit ∷ no_digit ∷ no_digit ∷ no_digit ∷ no_digit ∷ no_digit
    ∷ no_digit ∷ no_digit ∷ no_digit ∷ no_digit ∷ no_digit ∷ no_digit ∷ no_digit ∷ no_digit
    ∷ no_digit ∷ no_digit ∷ no_digit ∷ no_digit ∷ no_digit ∷ no_digit ∷ no_digit ∷ no_digit
    ∷ no_digit ∷ no_digit ∷ no_digit ∷ no_digit ∷ no_digit ∷ no_digit ∷ no_digit ∷ no_digit
    ∷ no_digit ∷ no_digit ∷ no_digit ∷ no_digit ∷ no_digit ∷ no_digit ∷ no_digit ∷ 0 ∷ 1 ∷ 2 ∷ 3 ∷ 4
    ∷ 5 ∷ 6 ∷ 7 ∷ 8 ∷ 9 ∷ no_digit ∷ no_digit ∷ no_digit ∷ no_digit ∷ no_digit ∷ no_digit ∷ no_digit
    ∷ 10 ∷ 11 ∷ 12 ∷ 13 ∷ 14 ∷ 15 ∷ 16 ∷ 17 ∷ 18 ∷ 19 ∷ 20 ∷ 21 ∷ 22 ∷ 23 ∷ 24 ∷ 25 ∷ 26 ∷ 27 ∷ 28
    ∷ 29 ∷ 30 ∷ 31 ∷ 32 ∷ 33 ∷ 34 ∷ 35 ∷ no_digit ∷ no_digit ∷ no_digit ∷ no_digit ∷ no_digit
    ∷ no_digit ∷ 36 ∷ 37 ∷ 38 ∷ 39 ∷ 40 ∷ 41 ∷ 42 ∷ 43 ∷ 44 ∷ 45 ∷ 46 ∷ 47 ∷ 48 ∷ 49 ∷ 50 ∷ 51 ∷ 52
    ∷ 53 ∷ 54 ∷ 55 ∷ 56 ∷ 57 ∷ 58 ∷ 59 ∷ 60 ∷ 61 ∷ 62 ∷ no_digit ∷ 63 ∷ no_digit ∷ no_digit
    ∷ no_digit ∷ no_digit ∷ no_digit ∷ no_digit ∷ no_digit ∷ no_digit ∷ no_digit ∷ no_digit
    ∷ no_digit ∷ no_digit ∷ no_digit ∷ no_digit ∷ no_digit ∷ no_digit ∷ no_digit ∷ no_digit
    ∷ no_digit ∷ no_digit ∷ no_digit ∷ no_digit ∷ no_digit ∷ no_digit ∷ no_digit ∷ no_digit
    ∷ no_digit ∷ no_digit ∷ no_digit ∷ no_digit ∷ no_digit ∷ no_digit ∷ no_digit ∷ no_digit
    ∷ no_digit ∷ no_digit ∷ no_digit ∷ no_digit ∷ no_digit ∷ no_digit ∷ no_digit ∷ no_digit
    ∷ no_digit ∷ no_digit ∷ no_digit ∷ no_digit ∷ no_digit ∷ no_digit ∷ no_digit ∷ no_digit
    ∷ no_digit ∷ no_digit ∷ no_digit ∷ no_digit ∷ no_digit ∷ no_digit ∷ no_digit ∷ no_digit
    ∷ no_digit ∷ no_digit ∷ no_digit ∷ no_digit ∷ no_digit ∷ no_digit ∷ no_digit ∷ no_digit
    ∷ no_digit ∷ no_digit ∷ no_digit ∷ no_digit ∷ no_digit ∷ no_digit ∷ no_digit ∷ no_digit
    ∷ no_digit ∷ no_digit ∷ no_digit ∷ no_digit ∷ no_digit ∷ no_digit ∷ no_digit ∷ no_digit
    ∷ no_digit ∷ no_digit ∷ no_digit ∷ no_digit ∷ no_digit ∷ no_digit ∷ no_digit ∷ no_digit
    ∷ no_digit ∷ no_digit ∷ no_digit ∷ no_digit ∷ no_digit ∷ no_digit ∷ no_digit ∷ no_digit
    ∷ no_digit ∷ no_digit ∷ no_digit ∷ no_digit ∷ no_digit ∷ no_digit ∷ no_digit ∷ no_digit
    ∷ no_digit ∷ no_digit ∷ no_digit ∷ no_digit ∷ no_digit ∷ no_digit ∷ no_digit ∷ no_digit
    ∷ no_digit ∷ no_digit ∷ no_digit ∷ no_digit ∷ no_digit ∷ no_digit ∷ no_digit ∷ no_digit
    ∷ no_digit ∷ no_digit ∷ no_digit ∷ no_digit ∷ no_digit ∷ no_digit ∷ no_digit ∷ no_digit ∷ []

abbrev pub convert2y : CString
convert2y = codes "ABCDEFGHIJKLMNOPQRSTUVWXYZabcdefghijklmnopqrstuvwxyz0123456789[]"

abbrev pub convert2n : List ℕ
convert2n =
    0 ∷ 0 ∷ 0 ∷ 0 ∷ 0 ∷ 0 ∷ 0 ∷ 0 ∷ 0 ∷ 0 ∷ 0 ∷ 0 ∷ 0 ∷ 0 ∷ 0 ∷ 0 ∷ 0 ∷ 0 ∷ 0 ∷ 0 ∷ 0 ∷ 0 ∷ 0 ∷ 0
    ∷ 0 ∷ 0 ∷ 0 ∷ 0 ∷ 0 ∷ 0 ∷ 0 ∷ 0 ∷ 0 ∷ 0 ∷ 0 ∷ 0 ∷ 0 ∷ 0 ∷ 0 ∷ 0 ∷ 0 ∷ 0 ∷ 0 ∷ 0 ∷ 0 ∷ 0 ∷ 0 ∷ 0
    ∷ 52 ∷ 53 ∷ 54 ∷ 55 ∷ 56 ∷ 57 ∷ 58 ∷ 59 ∷ 60 ∷ 61 ∷ 0 ∷ 0 ∷ 0 ∷ 0 ∷ 0 ∷ 0 ∷ 0 ∷ 0 ∷ 1 ∷ 2 ∷ 3
    ∷ 4 ∷ 5 ∷ 6 ∷ 7 ∷ 8 ∷ 9 ∷ 10 ∷ 11 ∷ 12 ∷ 13 ∷ 14 ∷ 15 ∷ 16 ∷ 17 ∷ 18 ∷ 19 ∷ 20 ∷ 21 ∷ 22 ∷ 23
    ∷ 24 ∷ 25 ∷ 62 ∷ 0 ∷ 63 ∷ 0 ∷ 0 ∷ 0 ∷ 26 ∷ 27 ∷ 28 ∷ 29 ∷ 30 ∷ 31 ∷ 32 ∷ 33 ∷ 34 ∷ 35 ∷ 36 ∷ 37
    ∷ 38 ∷ 39 ∷ 40 ∷ 41 ∷ 42 ∷ 43 ∷ 44 ∷ 45 ∷ 46 ∷ 47 ∷ 48 ∷ 49 ∷ 50 ∷ 51 ∷ 0 ∷ 0 ∷ 0 ∷ 0 ∷ 0 ∷ 0
    ∷ 0 ∷ 0 ∷ 0 ∷ 0 ∷ 0 ∷ 0 ∷ 0 ∷ 0 ∷ 0 ∷ 0 ∷ 0 ∷ 0 ∷ 0 ∷ 0 ∷ 0 ∷ 0 ∷ 0 ∷ 0 ∷ 0 ∷ 0 ∷ 0 ∷ 0 ∷ 0 ∷ 0
    ∷ 0 ∷ 0 ∷ 0 ∷ 0 ∷ 0 ∷ 0 ∷ 0 ∷ 0 ∷ 0 ∷ 0 ∷ 0 ∷ 0 ∷ 0 ∷ 0 ∷ 0 ∷ 0 ∷ 0 ∷ 0 ∷ 0 ∷ 0 ∷ 0 ∷ 0 ∷ 0 ∷ 0
    ∷ 0 ∷ 0 ∷ 0 ∷ 0 ∷ 0 ∷ 0 ∷ 0 ∷ 0 ∷ 0 ∷ 0 ∷ 0 ∷ 0 ∷ 0 ∷ 0 ∷ 0 ∷ 0 ∷ 0 ∷ 0 ∷ 0 ∷ 0 ∷ 0 ∷ 0 ∷ 0 ∷ 0
    ∷ 0 ∷ 0 ∷ 0 ∷ 0 ∷ 0 ∷ 0 ∷ 0 ∷ 0 ∷ 0 ∷ 0 ∷ 0 ∷ 0 ∷ 0 ∷ 0 ∷ 0 ∷ 0 ∷ 0 ∷ 0 ∷ 0 ∷ 0 ∷ 0 ∷ 0 ∷ 0 ∷ 0
    ∷ 0 ∷ 0 ∷ 0 ∷ 0 ∷ 0 ∷ 0 ∷ 0 ∷ 0 ∷ 0 ∷ 0 ∷ 0 ∷ 0 ∷ 0 ∷ 0 ∷ 0 ∷ 0 ∷ 0 ∷ 0 ∷ 0 ∷ 0 ∷ 0 ∷ 0 ∷ 0 ∷ 0
    ∷ 0 ∷ 0 ∷ 0 ∷ 0 ∷ 0 ∷ 0 ∷ 0 ∷ []

-- An index into a table; the code never leaves one, as a byte is below 256.
abbrev pub entry : List ℕ → ℕ → ℕ
entry [] i = 0
entry (x ∷ xs) zero = x
entry (x ∷ xs) (suc i) = entry xs i

-- The `do` loop of `int_to_base64`, with the slots of the buffer that are left in front of `i`.
unfoldable pub encode_loop : ℕ → ℕ → CString → Option CString
encode_loop zero val written = none
encode_loop (suc i) val written =
    let c = entry int6_to_base64_map (val % 64) in
    let rest = encode_loop i (val / 64) (c ∷ written) in
    if val / 64 == 0 then some (c ∷ written) else rest

unfoldable pub int_to_base64 : ℕ → Option CString
unfolding encode_loop
int_to_base64 val = if ltb 2147483647 val then none else encode_loop 7 val []

-- The loops of `base64_to_int` and `base64toint`, which differ in the table.
unfoldable pub decode_loop : List ℕ → ℕ → CString → ℕ
decode_loop table v [] = v
decode_loop table v (c ∷ s) = decode_loop table ((v * 2 ^ 6 % 2 ^ 32 + entry table c) % 2 ^ 32) s

unfoldable pub base64_to_int : CString → Option ℕ
unfolding decode_loop
base64_to_int [] = none
base64_to_int (c ∷ s) = some (decode_loop base64_to_int6_map (entry base64_to_int6_map c) s)

-- The `while` of `inttobase64`, which goes from the end of the buffer to its front.
unfoldable pub fill_loop : ℕ → ℕ → CString → CString
fill_loop zero v written = written
fill_loop (suc count) v written = fill_loop count (v / 64) (entry convert2y (v % 64) ∷ written)

unfoldable pub inttobase64 : ℕ → ℕ → CString
unfolding fill_loop
inttobase64 v count = fill_loop count v []

unfoldable pub base64toint : CString → Option ℕ
unfolding decode_loop
base64toint [] = none
base64toint (c ∷ s) = some (decode_loop convert2n (entry convert2n c) s)
