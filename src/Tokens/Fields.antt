-- ===== src/Tokens/Fields.antt =====
-- The fields of a string: what stands between the delimiters, empty fields included.
use denora.Prelude.{
  ℕ, zero, suc, ◌≡◌, refl, ap, ◌∙◌, List, [], ◌∷◌, ◌++◌, Option, none, some, CString, length, ◌==◌,
  if◌then◌else◌, arith, Bool-cases, inl, inr, ==_iff, ==_eq, ==_ne, append-nil, append_assoc, true,
  false, ◌≢◌,
}

unfoldable pub prepend : ℕ → List CString → List CString
prepend x [] = (x ∷ []) ∷ []
prepend x (f ∷ fs) = (x ∷ f) ∷ fs

unfoldable pub fields : ℕ → CString → List CString
unfolding prepend
fields d [] = [] ∷ []
fields d (x ∷ s) = if x == d then [] ∷ fields d s else prepend x (fields d s)

-- the fields, with a delimiter between each two
unfoldable pub join : ℕ → List CString → CString
join d [] = []
join d (f ∷ []) = f
join d (f ∷ g ∷ fs) = f ++ d ∷ join d (g ∷ fs)

-- what stands behind the delimiter in front of field `n`: the fields from `n` on
abbrev pub fields_from : ℕ → List CString → List CString
fields_from zero fs = fs
fields_from (suc n) [] = []
fields_from (suc n) (f ∷ fs) = fields_from n fs

-- A token that is empty reads as a null pointer.
abbrev pub non_empty : CString → Option CString
non_empty [] = none
non_empty (x ∷ s) = some (x ∷ s)

-- A string that has been read since the last delimiter is put in front of the first field.
abbrev pub prefix : CString → List CString → List CString
prefix c [] = c ∷ []
prefix c (f ∷ fs) = (c ++ f) ∷ fs

pub fields-cons :
    (d : ℕ) (s : CString) → (f : CString) × (fs : List CString) × (fields d s ≡ f ∷ fs)
unfolding fields prepend
fields-cons d [] = ([], [], refl)
fields-cons d (x ∷ s) = elim (Bool-cases (x == d)) [
  | inl e ↦ ([], fields d s, rw e)
  | inr e ↦ let (f, fs, h) = fields-cons d s in (x ∷ f, fs, rw (e, h))
]

pub length-prepend-fields :
    (d x : ℕ) (s : CString) → length (prepend x (fields d s)) ≡ length (fields d s)
unfolding prepend
length-prepend-fields d x s = let (f, fs, h) = fields-cons d s in rw h

pub prefix-prepend :
    (c : CString) (x : ℕ) (fs : List CString) → prefix c (prepend x fs) ≡ prefix (c ++ x ∷ []) fs
unfolding prepend
prefix-prepend c x [] = refl
prefix-prepend c x (f ∷ fs) = rw append_assoc

pub prefix-nil : (d : ℕ) (s : CString) → prefix [] (fields d s) ≡ fields d s
prefix-nil d s = let (f, fs, e) = fields-cons d s in rw e

pub prefix-fields_end : (d : ℕ) (c : CString) → prefix c (fields d []) ≡ c ∷ []
unfolding fields
prefix-fields_end d c = rw append-nil

pub fields_from-nil : (k : ℕ) → fields_from k [] ≡ []
fields_from-nil zero = refl
fields_from-nil (suc k) = refl

pub prefix-fields_at :
    (d x : ℕ) (c s : CString) → (x == d) ≡ true → prefix c (fields d (x ∷ s)) ≡ c ∷ fields d s
unfolding fields
prefix-fields_at d x c s e = rw (e, append-nil)

pub prefix-fields_past :
    (d x : ℕ) (c s : CString)
    → (x == d) ≡ false
    → prefix c (fields d (x ∷ s)) ≡ prefix (c ++ x ∷ []) (fields d s)
unfolding fields
prefix-fields_past d x c s e = rw (e, prefix-prepend c x (fields d s))

-- No field holds the delimiter.
abbrev pub HasNo : ℕ → CString → Type 0
HasNo d [] = Unit
HasNo d (x ∷ s) = (x ≢ d) × HasNo d s

abbrev pub AllHaveNo : ℕ → List CString → Type 0
AllHaveNo d [] = Unit
AllHaveNo d (f ∷ fs) = HasNo d f × AllHaveNo d fs

prepend-AllHaveNo :
    (d x : ℕ) (fs : List CString) → x ≢ d → AllHaveNo d fs → AllHaveNo d (prepend x fs)
unfolding prepend
prepend-AllHaveNo d x [] n h = ((n, tt), tt)
prepend-AllHaveNo d x (f ∷ fs) n h = ((n, h.0), h.1)

pub fields-AllHaveNo : (d : ℕ) (s : CString) → AllHaveNo d (fields d s)
unfolding fields
fields-AllHaveNo d [] = (tt, tt)
fields-AllHaveNo d (x ∷ s) = elim (Bool-cases (x == d)) [
  | inl e ↦ rw e (tt, fields-AllHaveNo d s)
  | inr e ↦ rw e (prepend-AllHaveNo d x (fields d s) (ground arith) (fields-AllHaveNo d s))
]

join-longer :
    (d x : ℕ) (f : CString) (fs : List CString) → join d ((x ∷ f) ∷ fs) ≡ x ∷ join d (f ∷ fs)
unfolding join
join-longer d x f [] = refl
join-longer d x f (g ∷ fs) = refl

-- Joining the fields gives back the string.
pub join-fields : (d : ℕ) (s : CString) → join d (fields d s) ≡ s
unfolding fields join prepend
join-fields d [] = refl
join-fields d (x ∷ s) =
    let (f, fs, h) = fields-cons d s in
    let ih : join d (f ∷ fs) ≡ s = rw h at (join-fields d s) in
    elim (Bool-cases (x == d)) [
      | inl e ↦ let q : x ≡ d = (==_iff x d).0 e in rw (e, h, ih, q)
      | inr e ↦ rw (e, h) (join-longer d x f fs ∙ ap (λ t. x ∷ t) ih)
    ]

-- A field in front of the fields of `s`.
pub join-cons_fields : (d : ℕ) (c s : CString) → join d (c ∷ fields d s) ≡ c ++ d ∷ s
unfolding join
join-cons_fields d c s =
    let (f, fs, h) = fields-cons d s in
    let e : join d (f ∷ fs) ≡ s = rw h at (join-fields d s) in rw (h, e)

-- Fields that are put together are found again.
pub fields-append : (d : ℕ) (f s : CString) → HasNo d f → fields d (f ++ d ∷ s) ≡ f ∷ fields d s
unfolding fields prepend
fields-append d [] s h = rw (==_eq d d refl)
fields-append d (x ∷ f) s h = rw (==_ne x d h.0, fields-append d f s h.1)

pub fields-field : (d : ℕ) (f : CString) → HasNo d f → fields d f ≡ f ∷ []
unfolding fields prepend
fields-field d [] h = refl
fields-field d (x ∷ f) h = rw (==_ne x d h.0, fields-field d f h.1)

pub fields-join :
    (d : ℕ) (f : CString) (fs : List CString)
    → AllHaveNo d (f ∷ fs)
    → fields d (join d (f ∷ fs)) ≡ f ∷ fs
unfolding join
fields-join d f [] h = fields-field d f h.0
fields-join d f (g ∷ fs) h = rw (fields-append d f (join d (g ∷ fs)) h.0, fields-join d g fs h.1)
