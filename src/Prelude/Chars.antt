-- ===== src/Prelude/Chars.antt =====
-- Characters and C strings. A string is the list of its bytes before the terminating zero, each a
-- number below 256 (an `unsigned char`); the C locale is assumed for the classes of characters.
-- `tolower` and `toupper` are those of src/core.c, `stricmp` is that of src/strings.c.
use Prim.Native.Nat.{ℕ, ◌+◌, ◌-◌}
use Prim.Native.Char.{code}
use Prim.Native.String.{String}
use mathlib.Core.Path.{◌≡◌, refl, ap₂}
use mathlib.Core.Bool.{Bool, true, false, ◌&&◌}
use mathlib.Core.List.{List, [], ◌∷◌}
use native.Mathlib.Omega.{arith}
use denora.Prelude.Tests.{and_left, and_right, ==_iff, leb, ◌==◌, if◌then◌else◌}

abbrev pub CString : Type 0
CString = List ℕ

-- The bytes of an ASCII literal.
abbrev pub codes : String → CString
codes String.[] = []
codes (String.◌∷◌ c s) = code c ∷ codes s

unfoldable pub is_upper : ℕ → Bool
is_upper c = leb b'A' c && leb c b'Z'

unfoldable pub is_lower : ℕ → Bool
is_lower c = leb b'a' c && leb c b'z'

unfoldable pub is_digit : ℕ → Bool
is_digit c = leb b'0' c && leb c b'9'

unfoldable pub tolower : ℕ → ℕ
unfolding is_upper
tolower c = if is_upper c then c + (b'a' - b'A') else c

unfoldable pub toupper : ℕ → ℕ
unfolding is_lower
toupper c = if is_lower c then c - (b'a' - b'A') else c

-- `strcmp (s, t) == 0`
unfoldable pub str_eq : CString → CString → Bool
str_eq [] [] = true
str_eq [] (d ∷ t) = false
str_eq (c ∷ s) [] = false
str_eq (c ∷ s) (d ∷ t) = c == d && str_eq s t

-- the loop of `stricmp`, at its result 0
unfoldable pub same_nocase : CString → CString → Bool
unfolding tolower
same_nocase [] [] = true
same_nocase [] (d ∷ t) = false
same_nocase (c ∷ s) [] = false
same_nocase (c ∷ s) (d ∷ t) = tolower c == tolower d && same_nocase s t

-- `stricmp (s, t) == 0`: an empty string differs from every string, itself included
unfoldable pub stricmp_eq : CString → CString → Bool
unfolding same_nocase
stricmp_eq [] t = false
stricmp_eq (c ∷ s) [] = false
stricmp_eq (c ∷ s) (d ∷ t) = same_nocase (c ∷ s) (d ∷ t)

-- `tolower` maps bytes to bytes, and is idempotent.
pub tolower_idem : (c : ℕ) → tolower (tolower c) ≡ tolower c
unfolding tolower
tolower_idem c = ground arith

pub str_eq-≡ : (s t : CString) → str_eq s t ≡ true → s ≡ t
unfolding str_eq
str_eq-≡ [] [] h = refl
str_eq-≡ [] (d ∷ t) h = absurd (ground arith)
str_eq-≡ (c ∷ s) [] h = absurd (ground arith)
str_eq-≡ (c ∷ s) (d ∷ t) h =
    ap₂ (λ x y. x ∷ y) ((==_iff c d).0 (and_left _ _ h)) (str_eq-≡ s t (and_right (c == d) _ h))
