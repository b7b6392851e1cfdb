-- ===== src/Wild/Completeness.antt =====
-- A match of the relation is found by the code, if no `*` of the pattern is directly followed by a
-- `?`. With such a pair the code tries the rest of the pattern at one place only.
use denora.Prelude.{
  ◌↔◌, ℕ, ◌≡◌, ◌≢◌, refl, Bool, true, false, [], ◌∷◌, CString, ◌==◌, ◌&&◌, arith, is_nil,
}
use native.Mathlib.Decide.{ℕ_discrete}
use denora.Wild.{same, any_one, literal, scan, star, round, match_loop, do_match_wild}
use denora.Wild.Soundness.{do_match_wild-Matches}
use denora.Wild.Relation.{Matches, one, lit, skip, more, HasNoStarOne, begins_with}

-- `t` is what is left of `s` behind some run of characters
data IsTail : CString → CString → Type 0 where
  whole : {s : CString} → IsTail s s
  later : {x : ℕ} {t s : CString} → IsTail t s → IsTail t (x ∷ s)

-- What follows a `*` matches behind some run of characters.
Matches-star_rest :
    (docase : Bool) (c : ℕ) (p s : CString)
    → c ≡ b'*'
    → Matches docase (c ∷ p) s
    → (t : CString) × IsTail t s × Matches docase p t
Matches-star_rest docase c p s e (one q m) = absurd (omega arith)
Matches-star_rest docase c p s e (lit q r _ m) = absurd (r e)
Matches-star_rest docase c p s e (skip q m) = (s, whole, m)
Matches-star_rest docase c p (x ∷ s) e (more q m) =
    let (t, l, n) = Matches-star_rest docase c p s e m in (t, later l, n)

-- ... and a run of characters in front of a `*` may be added.
Matches-star-IsTail :
    (docase : Bool) (c : ℕ) (p : CString) {t s : CString}
    → c ≡ b'*'
    → IsTail t s
    → Matches docase (c ∷ p) t
    → Matches docase (c ∷ p) s
Matches-star-IsTail docase c p e whole m = m
Matches-star-IsTail docase c p e (later l) m = more e (Matches-star-IsTail docase c p e l m)

-- The loop of `case '*'` finds the place, if the place begins with the next character.
scan-IsTail :
    (docase : Bool) (h x : ℕ) (rest : CString → Bool) {t s : CString}
    → IsTail (x ∷ t) s
    → same docase x h ≡ true
    → rest (x ∷ t) ≡ true
    → scan docase h rest s ≡ true
unfolding scan
scan-IsTail docase h x rest whole e r = rw (e, r)
scan-IsTail docase h x rest (later {x = y} {s = s} l) e r =
    ground (arith, scan-IsTail docase h x rest l e r)

Matches-one :
    {docase : Bool} {c : ℕ} {p s : CString}
    → c ≡ b'?'
    → Matches docase (c ∷ p) s
    → (x : ℕ) × (t : CString) × (s ≡ x ∷ t) × Matches docase p t
Matches-one e (one {x = x} {s = s} q m) = (x, s, refl, m)
Matches-one e (lit q r _ m) = absurd (q e)
Matches-one e (skip q m) = absurd (omega arith)
Matches-one e (more q m) = absurd (omega arith)

Matches-lit :
    {docase : Bool} {c : ℕ} {p s : CString}
    → c ≢ b'?'
    → c ≢ b'*'
    → Matches docase (c ∷ p) s
    → (x : ℕ) × (t : CString) × (s ≡ x ∷ t) × (same docase x c ≡ true) × Matches docase p t
Matches-lit n k (one q m) = absurd (n q)
Matches-lit n k (lit {x = x} {s = s} _ _ e m) = (x, s, refl, e, m)
Matches-lit n k (skip q m) = absurd (k q)
Matches-lit n k (more q m) = absurd (k q)

-- The candidates that `case '*'` tries suffice, if the next character is no `?`.
star_complete :
    (docase : Bool) (h : ℕ) (p : CString) (rest : CString → Bool)
    → ((s : CString) → Matches docase (h ∷ p) s → rest s ≡ true)
    → h ≢ b'?'
    → (s : CString) → Matches docase (b'*' ∷ h ∷ p) s
    → star docase (h ∷ p) rest s ≡ true
unfolding star
star_complete docase h p rest found n s m =
    let (t, l, mt) = Matches-star_rest docase b'*' (h ∷ p) s refl m in
    elim (ℕ_discrete h b'*') [
      | yes e ↦ ground (arith, found s (Matches-star-IsTail docase h p e l mt))
      | no k ↦
          let (x, u, e, q, _) = Matches-lit n k mt in
          rw (scan-IsTail docase h x rest (rw e at l) q (found (x ∷ u) (rw e at mt)))
    ]

-- `case '*'`, at the end of the pattern too
star_end :
    (docase : Bool) (p : CString) (rest : CString → Bool)
    → ((s : CString) → Matches docase p s → rest s ≡ true)
    → (true && begins_with b'?' p) ≡ false
    → (s : CString) → Matches docase (b'*' ∷ p) s
    → star docase p rest s ≡ true
unfolding star
star_end docase [] rest found w s m = refl
star_end docase (h ∷ p) rest found w s m = star_complete docase h p rest found (ground arith) s m

round-lit :
    (docase : Bool) (c x : ℕ) (p s : CString) (rest : CString → Bool)
    → c ≢ b'?'
    → c ≢ b'*'
    → same docase x c ≡ true
    → round docase c p rest (x ∷ s) ≡ rest s
unfolding round literal
round-lit docase c x p s rest n k e = ground arith

round_complete :
    (docase : Bool) (c : ℕ) (p : CString) (rest : CString → Bool)
    → ((s : CString) → Matches docase p s → rest s ≡ true)
    → (c == b'*' && begins_with b'?' p) ≡ false
    → (s : CString) → Matches docase (c ∷ p) s
    → round docase c p rest s ≡ true
round_complete docase c p rest found w s m = elim (ℕ_discrete c b'?') [
  | yes q ↦ let (x, t, e, n) = Matches-one q m in rw (q, e) (unfold round any_one in found t n)
  | no q ↦ elim (ℕ_discrete c b'*') [
    | yes r ↦ rw r (unfold round in star_end docase p rest found (rw r at w) s (rw r at m))
    | no r ↦
        let (x, t, e, k, n) = Matches-lit q r m in
        rw (e, round-lit docase c x p t rest q r k) (found t n)
  ]
]

match_loop_complete :
    (docase : Bool) (p s : CString)
    → HasNoStarOne p
    → Matches docase p s
    → match_loop docase p s ≡ true
unfolding match_loop
match_loop_complete docase [] [] w m = refl
match_loop_complete docase [] (x ∷ s) w m = elim m [ ]
match_loop_complete docase (c ∷ p) s w m =
    round_complete docase c p (match_loop docase p) (λ t n. match_loop_complete docase p t w.1 n)
      w.0 s m

-- `do_match_wild` answers 1 exactly on the strings that match the pattern, under either comparison
-- of characters, if the pattern and the string are not empty and no `*` of the pattern is directly
-- followed by a `?`.
pub do_match_wild_iff :
    (pattern str : CString) (docase : Bool)
    → is_nil pattern ≡ false
    → is_nil str ≡ false
    → HasNoStarOne pattern
    → (do_match_wild pattern str docase ≡ true) ↔ Matches docase pattern str
unfolding do_match_wild
do_match_wild_iff pattern str docase p s w = (
  do_match_wild-Matches pattern str docase,
  λ m. rw (p, s) (match_loop_complete docase pattern str w m),
)

-- No character of the string is a `?`.
abbrev pub HasNoOne : CString → Type 0
HasNoOne [] = Unit
HasNoOne (x ∷ s) = (x ≢ b'?') × HasNoOne s

same-one : (docase : Bool) (x : ℕ) → x ≢ b'?' → same docase x b'?' ≡ false
unfolding same
same-one true x h = ground arith
same-one false x h = ground arith

scan-one :
    (docase : Bool) (rest : CString → Bool) (s : CString)
    → HasNoOne s
    → scan docase b'?' rest s ≡ false
unfolding scan
scan-one docase rest [] h = refl
scan-one docase rest (x ∷ s) h = rw (same-one docase x h.0) (scan-one docase rest s h.1)

-- In a string without a literal `?` the code reads the wildcards `*?` as a lone `?`, whatever
-- follows them in the pattern: it tries no other place for the rest of the pattern.
pub do_match_wild-star_one :
    (pattern str : CString) (docase : Bool)
    → HasNoOne str
    → do_match_wild (b'*' ∷ b'?' ∷ pattern) str docase ≡ do_match_wild (b'?' ∷ pattern) str docase
unfolding do_match_wild star
do_match_wild-star_one pattern str docase h =
    rw (scan-one docase (match_loop docase (b'?' ∷ pattern)) str h)
