-- ===== src/Cron/Names.antt =====
-- The names of events as src/strings.c compares them and include/defines.h hashes them.
use denora.Prelude.{
  and_left, and_right, ℕ, ◌+◌, ◌*◌, ◌%◌, ◌^◌, ◌<◌, ◌≡◌, refl, ap, sym, drop, ==_iff, ◌∙◌, true,
  false, List, [], ◌∷◌, some, CString, stricmp_eq, same_nocase, tolower, is_upper, arith, ◌==◌,
  ==_eq, Bool-cases, inl, inr,
}
use mathlib.Core.Path.{ap₂}
use denora.Cron.Events.{cmd_hash, max_cmd_hash}

-- The name without its case.
unfoldable pub folded : CString → CString
unfolding tolower
folded [] = []
folded (c ∷ s) = tolower c ∷ folded s

abbrev head_or : ℕ → List ℕ → ℕ
head_or z [] = z
head_or z (x ∷ xs) = x

same_nocase-folded : (s t : CString) → same_nocase s t ≡ true → folded s ≡ folded t
unfolding same_nocase folded
same_nocase-folded [] [] h = refl
same_nocase-folded [] (d ∷ t) h = absurd (ground arith)
same_nocase-folded (c ∷ s) [] h = absurd (ground arith)
same_nocase-folded (c ∷ s) (d ∷ t) h =
    ap₂ (λ x y. x ∷ y) ((==_iff (tolower c) (tolower d)).0 (and_left _ _ h))
      (same_nocase-folded s t (and_right (tolower c == tolower d) _ h))

folded-same_nocase : (s t : CString) → folded s ≡ folded t → same_nocase s t ≡ true
unfolding same_nocase folded
folded-same_nocase [] [] h = refl
folded-same_nocase [] (d ∷ t) h = absurd (ground arith)
folded-same_nocase (c ∷ s) [] h = absurd (ground arith)
folded-same_nocase (c ∷ s) (d ∷ t) h =
    rw (==_eq _ _ (ap (head_or 0) h), folded-same_nocase s t (ap (drop 1) h))

tolower-hash : (c : ℕ) → tolower c % 2 ^ 5 ≡ c % 2 ^ 5
unfolding tolower is_upper
tolower-hash c = ground arith

cmd_hash-folded_lem : (s : CString) → cmd_hash (folded s) ≡ cmd_hash s
unfolding cmd_hash folded
cmd_hash-folded_lem [] = refl
cmd_hash-folded_lem (c ∷ []) = rw (tolower-hash c)
cmd_hash-folded_lem (c ∷ d ∷ s) = rw (tolower-hash c, tolower-hash d)

-- Names that are equal up to case stand in the same bucket.
pub cmd_hash-folded : (s t : CString) → folded s ≡ folded t → cmd_hash s ≡ cmd_hash t
cmd_hash-folded s t h = sym (cmd_hash-folded_lem s) ∙ ap cmd_hash h ∙ cmd_hash-folded_lem t

pub stricmp_eq-folded :
    (c : ℕ) (s t : CString) → stricmp_eq (c ∷ s) t ≡ true → folded (c ∷ s) ≡ folded t
unfolding stricmp_eq
stricmp_eq-folded c s [] h = absurd (ground arith)
stricmp_eq-folded c s (d ∷ t) h = same_nocase-folded (c ∷ s) (d ∷ t) h

pub folded-stricmp_eq :
    (c : ℕ) (s t : CString) → folded (c ∷ s) ≡ folded t → stricmp_eq (c ∷ s) t ≡ true
unfolding stricmp_eq folded
folded-stricmp_eq c s [] h = absurd (ground arith)
folded-stricmp_eq c s (d ∷ t) h = folded-same_nocase (c ∷ s) (d ∷ t) h

pub cmd_hash_lt : (c : ℕ) (s : CString) → (i : ℕ) × (cmd_hash (c ∷ s) ≡ some i) × (i < max_cmd_hash)
unfolding cmd_hash
cmd_hash_lt c [] = (c % 2 ^ 5 * 2 ^ 5, refl, omega arith)
cmd_hash_lt c (d ∷ s) = (c % 2 ^ 5 * 2 ^ 5 + d % 2 ^ 5, refl, omega arith)

stricmp_eq_sym :
    (c d : ℕ) (s t : CString)
    → stricmp_eq (c ∷ s) (d ∷ t) ≡ true
    → stricmp_eq (d ∷ t) (c ∷ s) ≡ true
stricmp_eq_sym c d s t h = folded-stricmp_eq d t (c ∷ s) (sym (stricmp_eq-folded c s (d ∷ t) h))

stricmp_eq_trans :
    (c d : ℕ) (s t u : CString)
    → stricmp_eq (c ∷ s) (d ∷ t) ≡ true
    → stricmp_eq (d ∷ t) u ≡ true
    → stricmp_eq (c ∷ s) u ≡ true
stricmp_eq_trans c d s t u h k =
    folded-stricmp_eq c s u (stricmp_eq-folded c s (d ∷ t) h ∙ stricmp_eq-folded d t u k)

-- Names that are equal up to case compare alike.
pub stricmp_eq-same :
    (c d : ℕ) (s r t : CString)
    → stricmp_eq (c ∷ s) t ≡ true
    → stricmp_eq (d ∷ r) t ≡ stricmp_eq (d ∷ r) (c ∷ s)
unfolding stricmp_eq
stricmp_eq-same c d s r [] h = absurd (ground arith)
stricmp_eq-same c d s r (x ∷ t) h = elim (Bool-cases (stricmp_eq (d ∷ r) (c ∷ s))) [
  | inl e ↦ stricmp_eq_trans d c r s (x ∷ t) e h ∙ sym e
  | inr e ↦ elim (Bool-cases (stricmp_eq (d ∷ r) (x ∷ t))) [
    | inl f ↦ f ∙ sym (stricmp_eq_trans d x r t (c ∷ s) f (stricmp_eq_sym c x s t h))
    | inr f ↦ f ∙ sym e
  ]
]

pub stricmp_eq-differ :
    (c d : ℕ) (s r t : CString)
    → stricmp_eq (c ∷ s) t ≡ false
    → stricmp_eq (d ∷ r) t ≡ true
    → stricmp_eq (d ∷ r) (c ∷ s) ≡ false
stricmp_eq-differ c d s r t h k = elim (Bool-cases (stricmp_eq (d ∷ r) (c ∷ s))) [
  | inl e ↦
      absurd (let f = stricmp_eq_trans c d s r t (stricmp_eq_sym d c r s e) k in ground (arith, f))
  | inr e ↦ e
]

pub stricmp_eq-hash :
    (c : ℕ) (s t : CString) → stricmp_eq (c ∷ s) t ≡ true → cmd_hash (c ∷ s) ≡ cmd_hash t
stricmp_eq-hash c s t h = cmd_hash-folded (c ∷ s) t (stricmp_eq-folded c s t h)
