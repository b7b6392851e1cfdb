-- ===== src/Wild/Relation.antt =====
-- What a wildcard pattern means: `?` stands for one character, `*` for any run of characters, any
-- other character for itself (up to case, if `docase` is false).
use denora.Prelude.{ℕ, ◌≡◌, ◌≢◌, refl, Bool, true, false, [], ◌∷◌, CString, ◌==◌, ◌&&◌}
use denora.Wild.{same}

pub data Matches (docase : Bool) : CString → CString → Type 0 where
  done : Matches docase [] []
  one : {c x : ℕ} {p s : CString} → c ≡ b'?' → Matches docase p s → Matches docase (c ∷ p) (x ∷ s)
  lit :
      {c x : ℕ} {p s : CString}
      → c ≢ b'?'
      → c ≢ b'*'
      → same docase x c ≡ true
      → Matches docase p s
      → Matches docase (c ∷ p) (x ∷ s)
  skip : {c : ℕ} {p s : CString} → c ≡ b'*' → Matches docase p s → Matches docase (c ∷ p) s
  more :
      {c x : ℕ} {p s : CString}
      → c ≡ b'*'
      → Matches docase (c ∷ p) s
      → Matches docase (c ∷ p) (x ∷ s)

-- A trailing `*` matches every string.
pub Matches-star : (docase : Bool) (s : CString) → Matches docase (b'*' ∷ []) s
Matches-star docase [] = skip refl done
Matches-star docase (x ∷ s) = more refl (Matches-star docase s)

-- `*?` matches every string of one character at least.
pub Matches-star_one :
    (docase : Bool) (x : ℕ) (s : CString) → Matches docase (b'*' ∷ b'?' ∷ []) (x ∷ s)
Matches-star_one docase x [] = skip refl (one refl done)
Matches-star_one docase x (y ∷ s) = more refl (Matches-star_one docase y s)

-- No `*` of the pattern is directly followed by a `?`.
abbrev pub begins_with : ℕ → CString → Bool
begins_with c [] = false
begins_with c (h ∷ p) = h == c

abbrev pub HasNoStarOne : CString → Type 0
HasNoStarOne [] = Unit
HasNoStarOne (c ∷ p) = ((c == b'*' && begins_with b'?' p) ≡ false) × HasNoStarOne p
