-- ===== src/Tokens/Positions.antt =====
-- Cutting out what stands between two positions.
use denora.Prelude.{
  ◌+◌, ◌-◌, ◌≡◌, [], ◌∷◌, ◌++◌, CString, length, length-append, drop-length_append,
  take-length_append, append-nil, arith,
}
use denora.Tokens.{str_sub_string}
use denora.Tokens.Fields.{non_empty}

-- The part `c` between the end of `b` and the end of `c`; a null pointer if it is empty.
pub sub_string-between :
    (b c r : CString)
    → str_sub_string (b ++ (c ++ r)) (length b) (length b + length c) ≡ non_empty c
unfolding str_sub_string
sub_string-between b [] r = ground arith
sub_string-between b (x ∷ c) r =
    let e : length b + length (x ∷ c) - length b ≡ length (x ∷ c) = omega arith in
    rw
      (
        length-append b (x ∷ (c ++ r)),
        drop-length_append b (x ∷ (c ++ r)),
        e,
        take-length_append (x ∷ c) r,
      )
      (ground (arith, length-append c r))

-- The part behind `b`, up to the end of the string.
pub sub_string-behind :
    (b c : CString) → str_sub_string (b ++ c) (length b) (length (b ++ c)) ≡ non_empty c
sub_string-behind b c = rw (length-append b c) (rw append-nil at (sub_string-between b c []))
