-- ===== src/Wild/Soundness.antt =====
-- A match that the code finds is a match of the relation.
use denora.Prelude.{
  ℕ, ◌≡◌, ◌≢◌, refl, Bool, true, [], ◌∷◌, CString, ◌&&◌, arith, inl, inr, Bool-cases,
}
use native.Mathlib.Decide.{ℕ_discrete}
use denora.Wild.{same, any_one, literal, scan, star, round, match_loop, do_match_wild}
use denora.Wild.Relation.{Matches, done, one, lit, skip, more, Matches-star}

module _ (docase : Bool) (p : CString) (rest : CString → Bool)
    (sound : (s : CString) → rest s ≡ true → Matches docase p s) where
  any_one-Matches : (s : CString) → any_one rest s ≡ true → Matches docase (b'?' ∷ p) s
  unfolding any_one
  any_one-Matches [] h = cc
  any_one-Matches (x ∷ s) h = one refl (sound s h)

  literal-Matches :
      (c : ℕ) (s : CString)
      → c ≢ b'?'
      → c ≢ b'*'
      → literal docase c rest s ≡ true
      → Matches docase (c ∷ p) s
  unfolding literal
  literal-Matches c [] n m h = cc
  literal-Matches c (x ∷ s) n m h = elim (Bool-cases (same docase x c)) [
    | inl e ↦ lit n m e (sound s (rw e at h))
    | inr e ↦ absurd (cc (rw e at h))
  ]

  scan-Matches : (h : ℕ) (s : CString) → scan docase h rest s ≡ true → Matches docase (b'*' ∷ p) s
  unfolding scan
  scan-Matches h [] e = cc
  scan-Matches h (x ∷ s) e = elim (Bool-cases (same docase x h && rest (x ∷ s))) [
    | inl t ↦ skip refl (sound (x ∷ s) (ground arith))
    | inr t ↦ more refl (scan-Matches h s (rw t at e))
  ]

star-Matches :
    (docase : Bool) (p : CString) (rest : CString → Bool)
    → ((s : CString) → rest s ≡ true → Matches docase p s)
    → (s : CString) → star docase p rest s ≡ true
    → Matches docase (b'*' ∷ p) s
unfolding star
star-Matches docase [] rest sound s e = Matches-star docase s
star-Matches docase (h ∷ p) rest sound s e = elim (Bool-cases (scan docase h rest s)) [
  | inl t ↦ scan-Matches docase (h ∷ p) rest sound h s t
  | inr t ↦ skip refl (sound s (rw t at e))
]

round-Matches :
    (docase : Bool) (c : ℕ) (p : CString) (rest : CString → Bool)
    → ((s : CString) → rest s ≡ true → Matches docase p s)
    → (s : CString) → round docase c p rest s ≡ true
    → Matches docase (c ∷ p) s
unfolding round
round-Matches docase c p rest sound s e = elim (ℕ_discrete c b'?') [
  | yes q ↦ rw q (any_one-Matches docase p rest sound s (rw (q, round) at e))
  | no q ↦ elim (ℕ_discrete c b'*') [
    | yes r ↦ rw r (star-Matches docase p rest sound s (rw (r, round) at e))
    | no r ↦ literal-Matches docase p rest sound c s q r (ground arith)
  ]
]

match_loop-Matches :
    (docase : Bool) (p s : CString) → match_loop docase p s ≡ true → Matches docase p s
unfolding match_loop
match_loop-Matches docase [] [] h = done
match_loop-Matches docase [] (x ∷ s) h = absurd (cc h)
match_loop-Matches docase (c ∷ p) s h =
    round-Matches docase c p (match_loop docase p) (match_loop-Matches docase p) s h

-- Whenever `do_match_wild` answers 1, under either comparison of characters, the string matches the
-- pattern: `?` taken for one character, `*` for any run of characters, any other for itself.
pub do_match_wild-Matches :
    (pattern str : CString) (docase : Bool)
    → do_match_wild pattern str docase ≡ true
    → Matches docase pattern str
unfolding do_match_wild
do_match_wild-Matches pattern str docase h = match_loop-Matches docase pattern str (ground arith)
