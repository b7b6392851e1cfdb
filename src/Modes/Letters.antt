-- ===== src/Modes/Letters.antt =====
-- The letters of channel modes in the buckets of their table, src/ChanMode.c.
use denora.Prelude.{
  and_true, ℕ, ◌*◌, ◌%◌, ◌^◌, ◌<◌, ◌≡◌, refl, ap, sym, ◌∙◌, false, ◌&&◌, List, [], ◌∷◌, Option,
  none, some, CString, ◌⊎◌, inl, inr, Bool-cases, arith, str_eq, stricmp_eq, same_nocase, tolower,
  is_upper, leb, ◌==◌, ==_iff, ==_eq, ==_ne, if◌then◌else◌,
}
use denora.Modes.Tables.{ModeHash, max_mode_hash, mode_hash_sensitive, find_mode, put_mode, printed}

-- A letter is a character that `%c` prints.
abbrev pub IsLetter : ℕ → Type 0
IsLetter c = (0 < c) × (c < 128)

unfoldable pub letter_hash : ℕ → ℕ
letter_hash c = if leb 65 c && leb c 90 then c % 2 ^ 5 * 2 ^ 6 else c % 2 ^ 5 * 2 ^ 5

pub letter_hash_lt : (c : ℕ) → letter_hash c < max_mode_hash
unfolding letter_hash
letter_hash_lt c = ground arith

-- Letters of one bucket that are equal up to case are equal.
letter_hash-tolower :
    (c d : ℕ)
    → IsLetter c
    → IsLetter d
    → letter_hash c ≡ letter_hash d
    → tolower c ≡ tolower d
    → c ≡ d
unfolding letter_hash tolower is_upper
letter_hash-tolower c d lc ld h e = ground arith

pick :
    {V : Type 0} (c m x : ℕ) (v w : V) (o : Option V)
    → (m == x) ≡ false
    → (if c == x then some w else (if c == m then some v else o))
      ≡ (if c == m then some v else (if c == x then some w else o))
pick c m x v w o q = ground arith

str_one : (m x : ℕ) (t : CString) → t ≡ x ∷ [] → str_eq (m ∷ []) t ≡ (m == x)
unfolding str_eq
str_one m x t e = ap (str_eq (m ∷ [])) e ∙ and_true (m == x)

stricmp_one :
    (m x : ℕ) (t : CString) → t ≡ x ∷ [] → stricmp_eq (m ∷ []) t ≡ (tolower m == tolower x)
unfolding stricmp_eq same_nocase
stricmp_one m x t e = ap (stricmp_eq (m ∷ [])) e ∙ and_true (tolower m == tolower x)

pub mode_hash-letter : (c : ℕ) → mode_hash_sensitive (c ∷ []) ≡ some (letter_hash c)
unfolding mode_hash_sensitive letter_hash
mode_hash-letter c = refl

pub printed-letter : (m : ℕ) → IsLetter m → printed m ≡ m ∷ []
printed-letter m l = rw (==_ne (m % 256) 0 (omega arith)) (ap (λ x. x ∷ []) (omega arith))

module _ {V : Type 0} where
  -- The entries of bucket `i` are single letters that belong there.
  abbrev pub AllLetters : ℕ → List (ModeHash V) → Type 0
  AllLetters i [] = Unit
  AllLetters i (h ∷ b) =
      ((x : ℕ) × (h.mode ≡ x ∷ []) × IsLetter x × (letter_hash x ≡ i)) × AllLetters i b

  -- What becomes of a bucket when the letter `m` is registered, as a lookup of `c` sees it.
  abbrev pub Put : ℕ → ℕ → ℕ → V → List (ModeHash V) → Type 0
  Put i m c v b =
      ((w : V) × (find_mode (m ∷ []) b ≡ some w) × (put_mode (m ∷ []) v b ≡ none))
      ⊎ ((find_mode (m ∷ []) b ≡ none)
          × ((b' : List (ModeHash V)) × (put_mode (m ∷ []) v b ≡ some b')
              × AllLetters i b'
              × (find_mode (c ∷ []) b' ≡ (if c == m then some v else find_mode (c ∷ []) b))))

  pub put_lem :
      (i m c : ℕ) (v : V) (b : List (ModeHash V))
      → IsLetter m
      → letter_hash m ≡ i
      → AllLetters i b
      → Put i m c v b
  unfolding find_mode put_mode
  put_lem i m c v [] lm hm a =
      inr (refl, (_, refl, ((m, refl, lm, hm), tt), rw (str_one c m (m ∷ []) refl)))
  put_lem i m c v (h ∷ b) lm hm ((x, e, lx, hx), a) = elim (Bool-cases (m == x)) [
    | inl q ↦
        let p : m ≡ x = (==_iff m x).0 q in
        inl (
          h.value,
          rw (str_one m x h.mode e, q),
          rw (stricmp_one m x h.mode e, ==_eq (tolower m) (tolower x) (ap tolower p)),
        )
    | inr q ↦
        let differ : (tolower m == tolower x) ≡ false = ==_ne (tolower m) (tolower x) (λ f.
          absurd
            (let p : m ≡ x = letter_hash-tolower m x lm lx (hm ∙ sym hx) f in ground (arith, p))) in
        elim (put_lem i m c v b lm hm a) [
          | inl (w, f, k) ↦
              inl (w, rw (str_one m x h.mode e, q) f, rw (stricmp_one m x h.mode e, differ, k))
          | inr (f, (b', k, a', g)) ↦ inr (
            rw (str_one m x h.mode e, q) f,
            (
              h ∷ b',
              rw (stricmp_one m x h.mode e, differ, k),
              ((x, e, lx, hx), a'),
              rw (str_one c x h.mode e, g) (pick c m x v h.value (find_mode (c ∷ []) b) q),
            ),
          )
        ]
  ]
