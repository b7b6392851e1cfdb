-- ===== src/Tokens/Agreement.antt =====
-- The token functions against the fields of the string.
use denora.Prelude.{
  ◌≤◌, ℕ, zero, suc, ◌+◌, ◌<◌, ◌≡◌, ◌≢◌, refl, ap, ◌∙◌, List, [], ◌∷◌, ◌++◌, append-nil,
  append_assoc, Option, none, CString, length, length-append, arith, true, ◌==◌, Bool-cases, inl,
  inr, ==_iff, ==_eq, ==_ne,
}
use denora.Tokens.{
  str_sub_string, token_loop, only_token_loop, str_get_token, str_get_only_token,
  str_get_token_remainder, num_token_loop, num_token,
}
use denora.Tokens.Fields.{
  fields, join, fields_from, non_empty, prefix, prefix-nil, join-cons_fields, prefix-fields_end,
  length-prepend-fields, fields_from-nil, prefix-fields_at, prefix-fields_past,
}
use denora.Tokens.Positions.{sub_string-between, sub_string-behind}

-- The first of the fields that are left; a null pointer if there is none or it is empty.
abbrev pub first_field : List CString → Option CString
first_field [] = none
first_field (f ∷ fs) = non_empty f

-- All the fields that are left, as they stand in the string; a null pointer if this is empty.
abbrev pub all_fields : ℕ → List CString → Option CString
all_fields d fs = non_empty (join d fs)

-- Behind the token that was asked for the result stays.
token_loop_past :
    (cut : ℕ → ℕ → Option CString) (d n : ℕ) (rest : CString) (idx counter start : ℕ)
    (sub : Option CString)
    → n < counter
    → token_loop cut d n rest idx counter start sub ≡ sub
unfolding token_loop
token_loop_past cut d n [] idx counter start sub h = rw (==_ne counter n (omega arith))
token_loop_past cut d n (x ∷ rest) idx counter start sub h = elim (Bool-cases (x == d)) [
  | inl e ↦
      rw (e, ==_ne counter n (omega arith))
        (token_loop_past cut d n rest (idx + 1) (counter + 1) (idx + 1) sub (omega arith))
  | inr e ↦ rw e (token_loop_past cut d n rest (idx + 1) counter start sub h)
]

module _ (str : CString) (d n : ℕ) (cut : ℕ → ℕ → Option CString)
    (token : List CString → Option CString) (none_left : token [] ≡ none)
    (cut_last : (b c : CString)
      → b ++ (c ++ []) ≡ str
      → cut (length b) (length b + length c) ≡ token (c ∷ []))
    (cut_before : (b c : CString) (x : ℕ) (rest : CString)
      → (x == d) ≡ true
      → b ++ (c ++ x ∷ rest) ≡ str
      → cut (length b) (length b + length c) ≡ token (c ∷ fields d rest)) where
  -- The loop in the middle of a string: the fields before the last delimiter are in `b`, the field
  -- that is being read has `c` so far, and `k` delimiters are still to be passed.
  token_loop-fields :
      (b c rest : CString) (k counter idx : ℕ)
      → n ≡ counter + k
      → idx ≡ length b + length c
      → b ++ (c ++ rest) ≡ str
      → token_loop cut d n rest idx counter (length b) none
        ≡ token (fields_from k (prefix c (fields d rest)))
  unfolding token_loop
  token_loop-fields b c [] zero counter idx e p s =
      rw (==_eq counter n (omega arith), p) (rw (prefix-fields_end d c) (cut_last b c s))
  token_loop-fields b c [] (suc k) counter idx e p s =
      rw (prefix-fields_end d c, ==_ne counter n (omega arith), fields_from-nil k, none_left)
  token_loop-fields b c (x ∷ rest) zero counter idx e p s = elim (Bool-cases (x == d)) [
    | inl t ↦
        rw (t, prefix-fields_at d x c rest t, ==_eq counter n (omega arith))
          (token_loop_past cut d n rest (idx + 1) (counter + 1) (length b) _ (omega arith)
            ∙ rw p (cut_before b c x rest t s))
    | inr t ↦
        rw (t, prefix-fields_past d x c rest t)
          (token_loop-fields b (c ++ x ∷ []) rest zero counter (idx + 1) e
            (omega (arith, length-append c (x ∷ []))) (rw (append_assoc c (x ∷ []) rest) s))
  ]
  token_loop-fields b c (x ∷ rest) (suc k) counter idx e p s = elim (Bool-cases (x == d)) [
    | inl t ↦
        let read = b ++ (c ++ x ∷ []) in
        let q : idx + 1 ≡ length read =
          omega (arith, length-append b (c ++ x ∷ []), length-append c (x ∷ [])) in
        rw (t, prefix-fields_at d x c rest t, ==_ne counter n (omega arith), q, ← prefix-nil d rest)
          (token_loop-fields read [] rest k (counter + 1) (length read) (omega arith) (omega arith)
            (rw (append_assoc b (c ++ x ∷ []) rest, append_assoc c (x ∷ []) rest) s))
    | inr t ↦
        rw (t, prefix-fields_past d x c rest t)
          (token_loop-fields b (c ++ x ∷ []) rest (suc k) counter (idx + 1) e
            (omega (arith, length-append c (x ∷ []))) (rw (append_assoc c (x ∷ []) rest) s))
  ]

-- `myStrGetToken` returns the field with the number that it is given, counted from 0: a null
-- pointer if there are not so many fields or the field is empty.
pub str_get_token-fields :
    (str : CString) (dilim n : ℕ)
    → str_get_token str dilim n ≡ first_field (fields_from n (fields dilim str))
unfolding str_get_token
str_get_token-fields str d n =
    token_loop-fields str d n (λ start idx. str_sub_string str start idx) first_field refl
      (λ b c e. rw (← e) (sub_string-between b c []))
      (λ b c x rest t e. rw (← e) (sub_string-between b c (x ∷ rest))) [] [] str n 0 0 (omega arith)
      (omega arith) refl
    ∙ ap (λ fs. first_field (fields_from n fs)) (prefix-nil d str)

-- `myStrGetTokenRemainder` returns what stands behind the delimiters in front of the field with the
-- given number, up to the end of the string: a null pointer if there are not so many fields or
-- nothing stands there.
pub str_get_token_remainder-fields :
    (str : CString) (dilim n : ℕ)
    → str_get_token_remainder str dilim n ≡ all_fields dilim (fields_from n (fields dilim str))
unfolding str_get_token_remainder join
str_get_token_remainder-fields str d n =
    token_loop-fields str d n (λ start idx. str_sub_string str start (length str)) (all_fields d)
      refl (λ b c e. rw (← e, append-nil) (sub_string-behind b c))
      (λ b c x rest t e.
        rw (← e, (==_iff x d).0 t, join-cons_fields) (sub_string-behind b (c ++ d ∷ rest)))
      [] [] str n 0 0 (omega arith) (omega arith) refl
    ∙ ap (λ fs. all_fields d (fields_from n fs)) (prefix-nil d str)

only_token_loop_past :
    (str : CString) (d n : ℕ) (rest : CString) (idx counter start : ℕ) (sub : Option CString)
    → n < counter
    → only_token_loop str d n rest idx counter start sub ≡ sub
unfolding only_token_loop
only_token_loop_past str d n [] idx counter start sub h = refl
only_token_loop_past str d n (x ∷ rest) idx counter start sub h = elim (Bool-cases (x == d)) [
  | inl e ↦
      rw (e, ==_ne counter n (omega arith))
        (only_token_loop_past str d n rest (idx + 1) (counter + 1) (idx + 1) sub (omega arith))
  | inr e ↦ rw e (only_token_loop_past str d n rest (idx + 1) counter start sub h)
]

num_token_loop-add : (s : CString) (d k : ℕ) → num_token_loop s d k ≡ k + num_token_loop s d 0
unfolding num_token_loop
num_token_loop-add [] d k = omega arith
num_token_loop-add (x ∷ s) d k = elim (Bool-cases (x == d)) [
  | inl e ↦ rw e (omega (arith, num_token_loop-add s d (k + 1), num_token_loop-add s d (0 + 1)))
  | inr e ↦ rw e (num_token_loop-add s d k)
]

-- The two loops agree as long as the delimiter behind the token is still ahead.
only_token_loop-token_loop :
    (str : CString) (d n : ℕ)
    → d ≢ 13
    → (rest : CString) (idx counter start : ℕ) → counter ≤ n
    → n < num_token_loop rest d counter
    → only_token_loop str d n rest idx counter start none
      ≡ token_loop (λ s i. str_sub_string str s i) d n rest idx counter start none
unfolding only_token_loop token_loop num_token_loop
only_token_loop-token_loop str d n cr [] idx counter start le lt = absurd (omega arith)
only_token_loop-token_loop str d n cr (x ∷ rest) idx counter start le lt =
    elim (Bool-cases (x == d)) [
      | inr e ↦
          let lt' : n < num_token_loop rest d counter = rw (e, num_token_loop) at lt in
          rw e (only_token_loop-token_loop str d n cr rest (idx + 1) counter start le lt')
      | inl e ↦ elim (Bool-cases (counter == n)) [
        | inl t ↦
            let here = str_sub_string str start idx in
            rw (
              e,
              t,
              ==_ne x 13 (ground arith),
              only_token_loop_past str d n rest (idx + 1) (counter + 1) start here (ground arith),
              token_loop_past (λ s i. str_sub_string str s i) d n rest (idx + 1) (counter + 1) start
                  here (ground arith),
            )
        | inr t ↦
            let lt' : n < num_token_loop rest d (counter + 1) = rw (e, num_token_loop) at lt in
            rw (e, t)
              (only_token_loop-token_loop str d n cr rest (idx + 1) (counter + 1) (idx + 1)
                (ground arith) lt')
      ]
    ]

-- If the delimiter is no carriage return and the string has more than `n` delimiters,
-- `myStrGetOnlyToken` and `myStrGetToken` return the same for number `n`.
str_get_only_token-str_get_token :
    (str : CString) (dilim n : ℕ)
    → dilim ≢ 13
    → n < num_token str dilim
    → str_get_only_token str dilim n ≡ str_get_token str dilim n
unfolding str_get_only_token str_get_token num_token
str_get_only_token-str_get_token str d n cr lt =
    only_token_loop-token_loop str d n cr str 0 0 0 (omega arith) lt

fields-num_token_loop : (d : ℕ) (s : CString) → length (fields d s) ≡ suc (num_token_loop s d 0)
unfolding fields num_token_loop
fields-num_token_loop d [] = refl
fields-num_token_loop d (x ∷ s) = elim (Bool-cases (x == d)) [
  | inl e ↦ rw e (omega (arith, fields-num_token_loop d s, num_token_loop-add s d (0 + 1)))
  | inr e ↦ rw e (rw (length-prepend-fields d x s) (fields-num_token_loop d s))
]

-- `myNumToken` counts the delimiters, one less than the fields.
num_token-fields : (str : CString) (dilim : ℕ) → num_token str dilim + 1 ≡ length (fields dilim str)
unfolding num_token
num_token-fields str d = omega (arith, fields-num_token_loop d str)
