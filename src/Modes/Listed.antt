-- ===== src/Modes/Listed.antt =====
-- The list of the modes of a channel that are set, `SetChanMode`, `RemoveChanMode` and
-- `ChanHasMode` of src/ChanMode.c.
use denora.Prelude.{
  and_true, and_false, ==_sym, ℕ, suc, ◌-◌, ◌≡◌, refl, ap, sym, ◌∙◌, true, false, List, [], ◌∷◌,
  some, CString, inl, inr, Bool-cases, arith, tolower, str_eq, stricmp_eq, same_nocase, get_elem?,
  ltb, ◌==◌, ==_iff, ==_refl, ==_eq, ==_ne, if◌then◌else◌,
}
use denora.Bans.Queries.{Channel}
use denora.Modes.Values.{set_chan_mode, cut, remove_chan_mode, has, chan_has_mode}

-- A call of `SetChanMode` or of `RemoveChanMode`, with the letter.
pub data ModeCall : Type 0 where
  sets : ℕ → ModeCall
  removes : ℕ → ModeCall

unfoldable pub called : ModeCall → Channel → Channel
unfolding set_chan_mode remove_chan_mode
called (sets m) c = set_chan_mode c (m ∷ [])
called (removes m) c = remove_chan_mode c (m ∷ [])

unfoldable pub all_called : List ModeCall → Channel → Channel
unfolding called
all_called [] c = c
all_called (x ∷ xs) c = all_called xs (called x c)

-- How often the mode is set, by letters.
unfoldable pub times : ℕ → List CString → ℕ
times m [] = 0
times m (x ∷ xs) = let rest = times m xs in if str_eq (m ∷ []) x then suc rest else rest

-- A counter of the mode under the calls.
unfoldable pub counter : ℕ → List ModeCall → ℕ → ℕ
counter m [] n = n
counter m (sets k ∷ xs) n = counter m xs (if k == m then suc n else n)
counter m (removes k ∷ xs) n = counter m xs (if k == m then n - 1 else n)

-- No letter but `m` itself is `m` in the other case.
abbrev pub Alone : ℕ → ℕ → Type 0
Alone m k = tolower k ≡ tolower m → k ≡ m

abbrev pub AllAlone : ℕ → List ModeCall → Type 0
AllAlone m [] = Unit
AllAlone m (sets k ∷ xs) = Alone m k × AllAlone m xs
AllAlone m (removes k ∷ xs) = Alone m k × AllAlone m xs

abbrev pub AllApart : ℕ → List CString → Type 0
AllApart m [] = Unit
AllApart m ([] ∷ modes) = AllApart m modes
AllApart m ((k ∷ []) ∷ modes) = Alone m k × AllApart m modes
AllApart m ((k ∷ l ∷ s) ∷ modes) = AllApart m modes

has-times : (m : ℕ) (modes : List CString) → has (m ∷ []) modes ≡ ltb 0 (times m modes)
unfolding has times
has-times m [] = refl
has-times m (x ∷ modes) = elim (Bool-cases (str_eq (m ∷ []) x)) [
  | inl q ↦ rw q (sym (ground arith))
  | inr q ↦ rw q (has-times m modes)
]

-- The test of `RemoveChanMode` for the letter of the mode, and for another letter.
same_test : (m k y : ℕ) → Alone m y → k ≡ m → (tolower k == tolower y) ≡ (m == y)
same_test m k y b e = elim (Bool-cases (m == y)) [
  | inl p ↦ rw (e, (==_iff m y).0 p) (==_refl (tolower y) ∙ sym (==_refl y))
  | inr p ↦
      rw p
        (==_ne (tolower k) (tolower y) (λ z. absurd (ground (arith, p, b (sym z ∙ ap tolower e)))))
]

other_test :
    (m k y : ℕ) → Alone m k → (k == m) ≡ false → (tolower k == tolower y) ≡ true → (m == y) ≡ false
other_test m k y a r q =
    ==_ne m y (λ e.
      absurd (ground (arith, r, a ((==_iff (tolower k) (tolower y)).0 q ∙ ap tolower (sym e)))))

times-cut :
    (m k : ℕ) (modes : List CString)
    → Alone m k
    → AllApart m modes
    → times m (cut (k ∷ []) modes) ≡ (if k == m then times m modes - 1 else times m modes)
unfolding cut times AllApart str_eq stricmp_eq same_nocase
times-cut m k [] a w = ground arith
times-cut m k ([] ∷ modes) a w = times-cut m k modes a w
times-cut m k ((y ∷ z ∷ s) ∷ modes) a w =
    rw (and_false (tolower k == tolower y), and_false (m == y)) (times-cut m k modes a w)
times-cut m k ((y ∷ []) ∷ modes) a (b, w) =
    let ih = times-cut m k modes a w in
    elim (Bool-cases (k == m)) [
      | inl r ↦
          rw (same_test m k y b ((==_iff k m).0 r), r)
            (elim (Bool-cases (m == y)) [
              | inl p ↦ rw p (sym (omega arith))
              | inr p ↦ rw p (rw p (rw r at ih))
            ])
      | inr r ↦ elim (Bool-cases (tolower k == tolower y)) [
        | inl q ↦ rw (q, r, other_test m k y a r q) refl
        | inr q ↦ elim (Bool-cases (m == y)) [
          | inl p ↦ rw (q, p) (ap (λ n. suc n) (rw r at ih) ∙ rw r refl)
          | inr p ↦ rw (q, p, r) (rw r at ih)
        ]
      ]
    ]

AllApart-cut : (m k : ℕ) (modes : List CString) → AllApart m modes → AllApart m (cut (k ∷ []) modes)
unfolding AllApart cut stricmp_eq same_nocase
AllApart-cut m k [] w = w
AllApart-cut m k ([] ∷ modes) w = AllApart-cut m k modes w
AllApart-cut m k ((y ∷ []) ∷ modes) (b, w) = elim (Bool-cases (tolower k == tolower y)) [
  | inl q ↦ rw q w
  | inr q ↦ rw q (b, AllApart-cut m k modes w)
]
AllApart-cut m k ((y ∷ z ∷ s) ∷ modes) w = elim (Bool-cases (tolower k == tolower y)) [
  | inl q ↦ rw q (AllApart-cut m k modes w)
  | inr q ↦ rw q (AllApart-cut m k modes w)
]

times-all_called :
    (m : ℕ) (calls : List ModeCall) (c : Channel)
    → AllAlone m calls
    → AllApart m c.modes
    → times m (all_called calls c).modes ≡ counter m calls (times m c.modes)
unfolding all_called called counter set_chan_mode remove_chan_mode times str_eq AllApart
times-all_called m [] c a w = refl
times-all_called m (sets k ∷ calls) c (a, alone) w =
    times-all_called m calls (set_chan_mode c (k ∷ [])) alone (a, w)
    ∙ ap (counter m calls) (rw (==_sym m k, and_true (k == m)) refl)
times-all_called m (removes k ∷ calls) c (a, alone) w =
    times-all_called m calls (remove_chan_mode c (k ∷ [])) alone (AllApart-cut m k c.modes w)
    ∙ ap (counter m calls) (times-cut m k c.modes a w)

-- Let `m` be a letter that is known as a mode of channels, and let neither the modes of the channel
-- nor the calls have the same letter in the other case. Then after any calls of `SetChanMode` and
-- `RemoveChanMode` the function `ChanHasMode` says of `m` what a counter says: it goes up by every
-- set of `m` and down by every removal of `m`, not below zero, and the mode is there while it is
-- above zero.
pub all_called-counter :
    (cmodes : List ℕ) (m k : ℕ) (calls : List ModeCall) (c : Channel)
    → get_elem? cmodes m ≡ some (suc k)
    → AllAlone m calls
    → AllApart m c.modes
    → chan_has_mode cmodes (some (all_called calls c)) m
      ≡ some (ltb 0 (counter m calls (times m c.modes)))
unfolding chan_has_mode
all_called-counter cmodes m k calls c e a w =
    rw e (
      ap some
        (has-times m (all_called calls c).modes ∙ ap (ltb 0) (times-all_called m calls c a w)))

-- Let `t` be `m` but for its case, as K is for k. When both modes are set, `t` last, the removal of
-- `m` removes `t` and leaves `m`.
pub remove_chan_mode-twin :
    (m t : ℕ) (c : Channel)
    → tolower m ≡ tolower t
    → all_called (sets m ∷ sets t ∷ removes m ∷ []) c ≡ all_called (sets m ∷ []) c
unfolding all_called called set_chan_mode remove_chan_mode cut stricmp_eq same_nocase
remove_chan_mode-twin m t c e = rw (==_eq (tolower m) (tolower t) e) refl
