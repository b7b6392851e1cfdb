-- ===== src/Base64/RoundTrip.antt =====
-- Encoding and decoding of base 64 numbers, src/base64.c.
use denora.Prelude.{
  ℕ, zero, suc, ◌+◌, ◌*◌, ◌/◌, ◌%◌, ◌^◌, ◌<◌, ◌≤◌, ◌≡◌, refl, ap, sym, ◌∙◌, List, [], ◌∷◌, some,
  CString, inl, inr, Bool-cases, arith, length, not_lt→ltb, ◌==◌, ==_iff, ==_eq, all_below_lem,
}
use denora.Base64.{
  int6_to_base64_map, base64_to_int6_map, convert2y, convert2n, entry, encode_loop, int_to_base64,
  decode_loop, base64_to_int, fill_loop, inttobase64, base64toint,
}

-- 64 to the power of the number
abbrev pub bound : ℕ → ℕ
bound zero = 1
bound (suc n) = 64 * bound n

digit : (d : ℕ) → d < 64 → entry base64_to_int6_map (entry int6_to_base64_map d) ≡ d
digit d lt =
    (==_iff _ _).0
      (all_below_lem 64 (λ m. entry base64_to_int6_map (entry int6_to_base64_map m) == m) d refl lt)

digit_y : (d : ℕ) → d < 64 → entry convert2n (entry convert2y d) ≡ d
digit_y d lt =
    (==_iff _ _).0 (all_below_lem 64 (λ m. entry convert2n (entry convert2y m) == m) d refl lt)

-- Decoding of a last digit in front of what was decoded.
join_digits : (v : ℕ) → v < 2 ^ 32 → (v / 64 * 2 ^ 6 % 2 ^ 32 + v % 64) % 2 ^ 32 ≡ v
join_digits v lt = omega arith

-- What the decoding gives of a string that is not empty, as the loop from 0.
decode_first :
    (table : List ℕ) (c : ℕ) (s : CString)
    → entry table c < 2 ^ 32
    → decode_loop table 0 (c ∷ s) ≡ decode_loop table (entry table c) s
unfolding decode_loop
decode_first table c s lt = ap (λ x. decode_loop table x s) (omega arith)

-- One step of the decoding undoes one of the encoding.
decode_last :
    (v : ℕ) (written : CString)
    → v < 2 ^ 32
    → decode_loop base64_to_int6_map (v / 64) (entry int6_to_base64_map (v % 64) ∷ written)
      ≡ decode_loop base64_to_int6_map v written
unfolding decode_loop
decode_last v written word =
    ap (λ x. decode_loop base64_to_int6_map ((v / 64 * 2 ^ 6 % 2 ^ 32 + x) % 2 ^ 32) written)
      (digit (v % 64) (omega arith))
    ∙ ap (λ x. decode_loop base64_to_int6_map x written) (join_digits v word)

decode_last_y :
    (v : ℕ) (written : CString)
    → v < 2 ^ 32
    → decode_loop convert2n (v / 64) (entry convert2y (v % 64) ∷ written)
      ≡ decode_loop convert2n v written
unfolding decode_loop
decode_last_y v written word =
    ap (λ x. decode_loop convert2n ((v / 64 * 2 ^ 6 % 2 ^ 32 + x) % 2 ^ 32) written)
      (digit_y (v % 64) (omega arith))
    ∙ ap (λ x. decode_loop convert2n x written) (join_digits v word)

-- A string that decodes as a number does.
abbrev Decodes : CString → ℕ → CString → Type 0
Decodes r v written =
    (c : ℕ) × (s : CString) × (r ≡ c ∷ s)
    × (entry base64_to_int6_map c < 2 ^ 32)
    × (decode_loop base64_to_int6_map 0 (c ∷ s) ≡ decode_loop base64_to_int6_map v written)

last_digit :
    (v : ℕ) (written : CString)
    → v < 2 ^ 32
    → v / 64 ≡ 0
    → Decodes (entry int6_to_base64_map (v % 64) ∷ written) v written
last_digit v written word z =
    let c = entry int6_to_base64_map (v % 64) in
    (
      c,
      written,
      refl,
      omega (arith, digit (v % 64) (omega arith)),
      ap (λ x. decode_loop base64_to_int6_map x (c ∷ written)) (sym z) ∙ decode_last v written word,
    )

encode_loop-Decodes :
    (i v : ℕ) (written : CString)
    → v < bound (suc i)
    → v < 2 ^ 32
    → (r : CString) × (encode_loop (suc i) v written ≡ some r) × Decodes r v written
unfolding encode_loop
encode_loop-Decodes zero v written fits word =
    let c = entry int6_to_base64_map (v % 64) in
    (c ∷ written, rw (==_eq (v / 64) 0 (omega arith)) refl, last_digit v written word (omega arith))
encode_loop-Decodes (suc i) v written fits word = elim (Bool-cases (v / 64 == 0)) [
  | inl e ↦
      let z : v / 64 ≡ 0 = (==_iff (v / 64) 0).0 e in
      let c = entry int6_to_base64_map (v % 64) in
      (c ∷ written, rw e refl, last_digit v written word z)
  | inr e ↦
      let c = entry int6_to_base64_map (v % 64) in
      let (r, h, (d, s, k, w, q)) =
        encode_loop-Decodes i (v / 64) (c ∷ written) (omega arith) (omega arith) in
      (r, rw e h, (d, s, k, w, q ∙ decode_last v written word))
]

-- `base64_to_int` reads back what `int_to_base64` writes, up to 2147483647, and neither leaves its
-- buffer.
pub base64_to_int-int_to_base64 :
    (val : ℕ)
    → val ≤ 2147483647
    → (s : CString) × (int_to_base64 val ≡ some s) × (base64_to_int s ≡ some val)
unfolding int_to_base64 base64_to_int
base64_to_int-int_to_base64 val le =
    let (r, h, (c, s, k, w, q)) = encode_loop-Decodes 6 val [] (omega arith) (omega arith) in
    (
      r,
      rw (not_lt→ltb 2147483647 val (λ p. omega arith)) h,
      ap base64_to_int k ∙ ap some (sym (decode_first base64_to_int6_map c s w) ∙ q),
    )

fill_loop-decode_loop :
    (count v : ℕ) (written : CString)
    → v < bound count
    → v < 2 ^ 32
    → decode_loop convert2n 0 (fill_loop count v written) ≡ decode_loop convert2n v written
unfolding fill_loop
fill_loop-decode_loop zero v written fits word =
    ap (λ x. decode_loop convert2n x written) (omega arith)
fill_loop-decode_loop (suc count) v written fits word =
    fill_loop-decode_loop count (v / 64) (entry convert2y (v % 64) ∷ written) (omega arith)
      (omega arith)
    ∙ decode_last_y v written word

length-fill_loop :
    (count v : ℕ) (written : CString) → length (fill_loop count v written) ≡ count + length written
unfolding fill_loop
length-fill_loop zero v written = omega arith
length-fill_loop (suc count) v written =
    omega (arith, length-fill_loop count (v / 64) (entry convert2y (v % 64) ∷ written))

-- A first character that is a digit.
abbrev Begins : CString → Type 0
Begins r = (c : ℕ) × (s : CString) × (r ≡ c ∷ s) × (entry convert2n c < 2 ^ 32)

fill_loop-Begins :
    (count v : ℕ) (written : CString) → Begins written → Begins (fill_loop count v written)
unfolding fill_loop
fill_loop-Begins zero v written b = b
fill_loop-Begins (suc count) v written b =
    fill_loop-Begins count (v / 64) (entry convert2y (v % 64) ∷ written)
      (entry convert2y (v % 64), written, refl, omega (arith, digit_y (v % 64) (omega arith)))

-- `inttobase64` writes as many characters as it is told, at least one, and `base64toint` reads back
-- the number if it is a word that has room in them.
pub base64toint-inttobase64 :
    (n v : ℕ)
    → v < bound (suc n)
    → v < 2 ^ 32
    → (length (inttobase64 v (suc n)) ≡ suc n) × (base64toint (inttobase64 v (suc n)) ≡ some v)
unfolding inttobase64 base64toint decode_loop
base64toint-inttobase64 n v fits word =
    let first = entry convert2y (v % 64) in
    let (c, s, k, w) =
      fill_loop-Begins n (v / 64) (first ∷ [])
        (first, [], refl, omega (arith, digit_y (v % 64) (omega arith))) in
    (
      omega (arith, length-fill_loop (suc n) v []),
      ap base64toint k
          ∙ ap some (
              sym (decode_first convert2n c s w)
              ∙ ap (decode_loop convert2n 0) (sym k)
              ∙ fill_loop-decode_loop (suc n) v [] fits word),
    )
