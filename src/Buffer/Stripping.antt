-- ===== src/Buffer/Stripping.antt =====
-- What `normalizeBuffer` removes and what it leaves.
use denora.Prelude.{
  ℕ, zero, suc, ◌≤◌, ◌≡◌, refl, ap, ◌∙◌, true, false, [], ◌∷◌, ◌++◌, CString, length, some, arith,
  ◌⊎◌, ◌==◌, ◌||◌, is_digit, Bool-cases, inl, inr,
}
use mathlib.Core.Option.{some-injective}
use denora.Buffer.{
  is_dropped, drop_digit, skip_background, skip_color, normalize_loop, normalize_buffer,
}

-- No character is one that the code takes away: 3 or one of 1, 2, 9, 10, 13, 22, 31.
abbrev pub IsPlain : CString → Type 0
IsPlain [] = Unit
IsPlain (c ∷ s) = ((c == 3 || is_dropped c) ≡ false) × IsPlain s

length-drop_digit-le : (s : CString) → length (drop_digit s) ≤ length s
unfolding drop_digit
length-drop_digit-le [] = omega arith
length-drop_digit-le (x ∷ s) = ground arith

length-skip_background-le : (s : CString) → length (skip_background s) ≤ length s
unfolding skip_background
length-skip_background-le [] = omega arith
length-skip_background-le (x ∷ s) =
    ground (arith, length-drop_digit-le s, length-drop_digit-le (drop_digit s))

length-skip_color-le : (s : CString) → length (skip_color s) ≤ length s
unfolding skip_color
length-skip_color-le [] = omega arith
length-skip_color-le (x ∷ s) =
    ground (arith, length-drop_digit-le s, length-skip_background-le (drop_digit s))

normalize_loop-IsPlain : (fuel : ℕ) (s : CString) → IsPlain (normalize_loop fuel s)
unfolding normalize_loop
normalize_loop-IsPlain zero s = tt
normalize_loop-IsPlain (suc fuel) [] = tt
normalize_loop-IsPlain (suc fuel) (c ∷ s) = elim (Bool-cases (c == 3)) [
  | inl e ↦ rw e (normalize_loop-IsPlain fuel (skip_color s))
  | inr e ↦ elim (Bool-cases (is_dropped c)) [
    | inl d ↦ rw (e, d) (normalize_loop-IsPlain fuel s)
    | inr d ↦ rw (e, d) (rw (e, d), normalize_loop-IsPlain fuel s)
  ]
]

-- One round at a character that stays.
normalize_loop-plain :
    (fuel c : ℕ) (s : CString)
    → (c == 3 || is_dropped c) ≡ false
    → normalize_loop (suc fuel) (c ∷ s) ≡ c ∷ normalize_loop fuel s
unfolding normalize_loop
normalize_loop-plain fuel c s h = ground arith

-- More fuel than characters changes nothing.
normalize_loop_fuel :
    (f g : ℕ) (s : CString) → length s ≤ f → length s ≤ g → normalize_loop f s ≡ normalize_loop g s
unfolding normalize_loop
normalize_loop_fuel zero zero s h k = refl
normalize_loop_fuel zero (suc g) [] h k = refl
normalize_loop_fuel zero (suc g) (c ∷ s) h k = absurd (omega arith)
normalize_loop_fuel (suc f) zero [] h k = refl
normalize_loop_fuel (suc f) zero (c ∷ s) h k = absurd (omega arith)
normalize_loop_fuel (suc f) (suc g) [] h k = refl
normalize_loop_fuel (suc f) (suc g) (c ∷ s) h k = rw (
  normalize_loop_fuel f g s (omega arith) (omega arith),
  normalize_loop_fuel f g (skip_color s) (omega (arith, length-skip_color-le s))
      (omega (arith, length-skip_color-le s)),
)

-- The text without the codes, of an empty buffer too.
abbrev pub normalized : CString → CString
normalized s = normalize_loop (length s) s

normalized-append : (a s : CString) → IsPlain a → normalized (a ++ s) ≡ a ++ normalized s
normalized-append [] s h = refl
normalized-append (c ∷ a) s h =
    normalize_loop-plain (length (a ++ s)) c (a ++ s) h.0
    ∙ ap (λ t. c ∷ t) (normalized-append a s h.1)

normalized-color : (s : CString) → normalized (3 ∷ s) ≡ normalized (skip_color s)
unfolding normalize_loop
normalized-color s =
    normalize_loop_fuel (length s) (length (skip_color s)) (skip_color s) (length-skip_color-le s)
      (omega arith)

skip_color-code :
    (d₁ d₂ b₁ b₂ : ℕ) (s : CString)
    → is_digit d₁ ≡ true
    → is_digit d₂ ≡ true
    → is_digit b₁ ≡ true
    → is_digit b₂ ≡ true
    → skip_color (d₁ ∷ d₂ ∷ b',' ∷ b₁ ∷ b₂ ∷ s) ≡ s
unfolding skip_color skip_background drop_digit
skip_color-code d₁ d₂ b₁ b₂ s p q r t = rw (p, q, r, t)

normalize_buffer-append :
    (a : CString) (c : ℕ) (s : CString)
    → IsPlain a
    → normalize_buffer (a ++ c ∷ s) ≡ some (a ++ normalized (c ∷ s))
unfolding normalize_buffer
normalize_buffer-append [] c s h = refl
normalize_buffer-append (x ∷ a) c s h = ap some (normalized-append (x ∷ a) (c ∷ s) h)

-- A colour code of two digits, a comma and two more digits is taken out as a whole, wherever it
-- stands behind characters that stay; what follows is treated as a buffer of its own.
pub normalize_buffer-color :
    (a s : CString) (d₁ d₂ b₁ b₂ : ℕ)
    → IsPlain a
    → is_digit d₁ ≡ true
    → is_digit d₂ ≡ true
    → is_digit b₁ ≡ true
    → is_digit b₂ ≡ true
    → normalize_buffer (a ++ 3 ∷ d₁ ∷ d₂ ∷ b',' ∷ b₁ ∷ b₂ ∷ s) ≡ some (a ++ normalized s)
normalize_buffer-color a s d₁ d₂ b₁ b₂ h p q r t =
    let code = d₁ ∷ d₂ ∷ b',' ∷ b₁ ∷ b₂ ∷ s in
    normalize_buffer-append a 3 code h
    ∙ rw (normalized-color code, skip_color-code d₁ d₂ b₁ b₂ s p q r t)

normalized_of_IsPlain : (s : CString) → IsPlain s → normalized s ≡ s
normalized_of_IsPlain [] h = unfold normalize_loop in refl
normalized_of_IsPlain (c ∷ s) h =
    normalize_loop-plain (length s) c s h.0 ∙ ap (λ t. c ∷ t) (normalized_of_IsPlain s h.1)

normalize_buffer_of_IsPlain : (s : CString) → IsPlain s → (s ≡ []) ⊎ (normalize_buffer s ≡ some s)
unfolding normalize_buffer
normalize_buffer_of_IsPlain [] h = inl refl
normalize_buffer_of_IsPlain (c ∷ s) h = inr (ap some (normalized_of_IsPlain (c ∷ s) h))

normalize_buffer-IsPlain : (s t : CString) → normalize_buffer s ≡ some t → IsPlain t
unfolding normalize_buffer
normalize_buffer-IsPlain [] t h = cc
normalize_buffer-IsPlain (c ∷ s) t h =
    let e : normalized (c ∷ s) ≡ t = some-injective _ _ h in
    rw (← e) (normalize_loop-IsPlain (length (c ∷ s)) (c ∷ s))

-- The text that `normalizeBuffer` returns holds none of the characters that it removes, and is
-- empty or returned unchanged by a second call.
pub normalize_buffer_idem :
    (s t : CString)
    → normalize_buffer s ≡ some t
    → IsPlain t × ((t ≡ []) ⊎ (normalize_buffer t ≡ some t))
normalize_buffer_idem s t h =
    let plain = normalize_buffer-IsPlain s t h in (plain, normalize_buffer_of_IsPlain t plain)
