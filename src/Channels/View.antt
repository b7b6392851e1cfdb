-- ===== src/Channels/View.antt =====
-- How the lists of names that the handlers promise follow the store of the channels.
use mathlib.Core.Path.{fun_ext, ap₂}
use denora.Prelude.{
  ℕ, suc, ◌<◌, ◌≡◌, refl, ap, sym, ◌∙◌, Bool, true, false, not, ◌&&◌, List, [], ◌∷◌, ◌⊎◌, Option,
  none, some, CString, inl, inr, Bool-cases, arith, ◌==◌, ==_iff, if◌then◌else◌, of_some, str_eq,
  str_eq-≡, and_right, stricmp_eq, same_nocase, tolower, is_nil, length,
}
use denora.Bans.Queries.{Channel}
use denora.Channels.{Chans, erase, write}
use denora.Channels.Handlers.{on_chans, find_entry}
use denora.Channels.Spec.{lower, same_key, remove, name_at, names_at, keys}
use denora.Channels.Store.{Live, occurs, erase-head, write_cases}

same_nocase-lower : (s t : CString) → same_nocase s t ≡ str_eq (lower s) (lower t)
unfolding same_nocase str_eq
same_nocase-lower [] [] = refl
same_nocase-lower [] (d ∷ t) = refl
same_nocase-lower (c ∷ s) [] = refl
same_nocase-lower (c ∷ s) (d ∷ t) = ap (λ b. tolower c == tolower d && b) (same_nocase-lower s t)

pub stricmp_eq-lower : (s t : CString) → stricmp_eq s t ≡ same_key (lower s) (lower t)
unfolding stricmp_eq str_eq same_key
stricmp_eq-lower [] t = refl
stricmp_eq-lower (c ∷ s) [] = refl
stricmp_eq-lower (c ∷ s) (d ∷ t) = same_nocase-lower (c ∷ s) (d ∷ t)

pub stricmp_eq-≡ : (s t : CString) → stricmp_eq s t ≡ true → lower s ≡ lower t
unfolding same_key
stricmp_eq-≡ s t q =
    str_eq-≡ (lower s) (lower t)
      (and_right (not (is_nil (lower s))) _ (sym (stricmp_eq-lower s t) ∙ q))

pub length-lower : (s : CString) → length (lower s) ≡ length s
length-lower [] = refl
length-lower (c ∷ s) = ap suc (length-lower s)

-- A place that holds a channel with this name, or none.
abbrev pub key_of : Option Channel → Option CString
key_of none = none
key_of (some c) = some (lower c.name)

-- What is in the memory keeps its name, or is freed.
abbrev pub Names : (ℕ → Option Channel) → (ℕ → Option Channel) → Type 0
Names h h' = (b : ℕ) → (key_of (h' b) ≡ none) ⊎ (key_of (h' b) ≡ key_of (h b))

pub Names-refl : (h : ℕ → Option Channel) → Names h h
Names-refl h b = inr refl

pub Names-trans : (h h' h'' : ℕ → Option Channel) → Names h h' → Names h' h'' → Names h h''
Names-trans h h' h'' p q b = elim (q b) [
  | inl e ↦ inl e
  | inr e ↦ elim (p b) [ inl f ↦ inl (e ∙ f) | inr f ↦ inr (e ∙ f) ]
]

pub Names-write-none : (h : ℕ → Option Channel) (a : ℕ) → Names h (write h a none)
Names-write-none h a b =
    write_cases (λ b o. (key_of o ≡ none) ⊎ (key_of o ≡ key_of (h b))) h a none b (inl refl)
      (λ q. inr refl)

pub Names-write-some :
    (h : ℕ → Option Channel) (a : ℕ) (c c' : Channel)
    → h a ≡ some c
    → c'.name ≡ c.name
    → Names h (write h a (some c'))
Names-write-some h a c c' e name b =
    write_cases (λ b o. (key_of o ≡ none) ⊎ (key_of o ≡ key_of (h b))) h a (some c') b
      (inr (rw (e, name) refl)) (λ q. inr refl)

name_at-key_of : (o o' : Option Channel) → key_of o ≡ key_of o' → name_at o ≡ name_at o'
name_at-key_of none none e = refl
name_at-key_of none (some c) e = absurd (ground (arith, e))
name_at-key_of (some c) none e = absurd (ground (arith, e))
name_at-key_of (some c) (some d) e = ap (of_some []) e

pub keys-same :
    (h h' : ℕ → Option Channel) (l : List ℕ)
    → ((a : ℕ) → 0 < occurs a l → key_of (h' a) ≡ key_of (h a))
    → keys h' l ≡ keys h l
keys-same h h' [] same = refl
keys-same h h' (a ∷ l) same =
    ap₂ (λ x l. x ∷ l) (name_at-key_of (h' a) (h a) (same a (ground arith)))
      (keys-same h h' l (λ b lt. same b (ground (arith, lt))))

-- Behind that, channels that are still there have the names that they had.
pub keys-Names :
    (h h' : ℕ → Option Channel)
    → Names h h'
    → (l : List ℕ) → ((a : ℕ) → 0 < occurs a l → Live h' (some a))
    → keys h' l ≡ keys h l
keys-Names h h' p l live = keys-same h h' l (λ a lt. elim (p a) [
  | inl k ↦ absurd (let z = sym (ap key_of (live a lt).1) ∙ k in ground (arith, z))
  | inr k ↦ k
])

pub keys-on_chans :
    (h : ℕ → Option Channel) (chans : ℕ → List ℕ) (u : ℕ) (l : List ℕ)
    → names_at h (on_chans chans u l) ≡ on_chans (names_at h chans) u (keys h l)
unfolding on_chans
keys-on_chans h chans u l =
    fun_ext (λ w. elim (Bool-cases (w == u)) [ inl q ↦ rw q refl | inr q ↦ rw q refl ])

abbrev pub erased : Option ℕ → List ℕ → List ℕ
erased none l = l
erased (some a) l = erase a l

erase-tail : (a b : ℕ) (l : List ℕ) → (a == b) ≡ false → erase b (a ∷ l) ≡ a ∷ erase b l
unfolding erase
erase-tail a b l q = rw q refl

erased-tail :
    (a : ℕ) (o : Option ℕ) (l : List ℕ)
    → ((b : ℕ) → o ≡ some b → (a == b) ≡ false)
    → erased o (a ∷ l) ≡ a ∷ erased o l
erased-tail a none l other = refl
erased-tail a (some b) l other = erase-tail a b l (other b refl)

find_entry-cons :
    (s : Chans) (name : CString) (a : ℕ) (l : List ℕ) (o : Option ℕ)
    → Live s.heap (some a)
    → find_entry s name l ≡ some o
    → find_entry s name (a ∷ l)
      ≡ some (if same_key (lower name) (name_at (s.heap a)) then some a else o)
unfolding find_entry
find_entry-cons s name a l o (c, e) f = elim (Bool-cases (stricmp_eq name c.name)) [
  | inl q ↦ rw (e, q, sym (stricmp_eq-lower name c.name) ∙ q) refl
  | inr q ↦ rw (e, q, sym (stricmp_eq-lower name c.name) ∙ q) f
]

-- Two numbers that a test tells apart are two.
apart : (f : ℕ → Bool) (a b : ℕ) → f a ≡ false → f b ≡ true → (a == b) ≡ false
apart f a b p q = elim (Bool-cases (a == b)) [
  | inl r ↦ absurd (let z = sym p ∙ ap f ((==_iff a b).0 r) ∙ q in ground (arith, z))
  | inr r ↦ r
]

-- The loop over the list of a user finds what is removed from the names.
pub find_entry-remove :
    (s : Chans) (name : CString) (l : List ℕ)
    → ((a : ℕ) → 0 < occurs a l → Live s.heap (some a))
    → (o : Option ℕ) × (find_entry s name l ≡ some o)
      × ((a : ℕ)
          → o ≡ some a
          → (0 < occurs a l) × (same_key (lower name) (name_at (s.heap a)) ≡ true))
      × (keys s.heap (erased o l) ≡ remove (lower name) (keys s.heap l))
unfolding find_entry
find_entry-remove s name [] live = (none, refl, (λ a e. absurd (ground (arith, e))), refl)
find_entry-remove s name (a ∷ l) live =
    let (o, f, t, k) = find_entry-remove s name l (λ b lt. live b (ground (arith, lt))) in
    let found = find_entry-cons s name a l o (live a (ground arith)) f in
    elim (Bool-cases (same_key (lower name) (name_at (s.heap a)))) [
      | inl q ↦ (
        some a,
        found ∙ rw q refl,
        (λ b e. let same = ap (of_some a) e in rw (← same) (ground arith, q)),
        rw q (ap (keys s.heap) (erase-head a l)),
      )
      | inr q ↦ (
        o,
        found ∙ rw q refl,
        (λ b e. let (lt, r) = t b e in (ground (arith, lt), r)),
        ap (keys s.heap) (
              erased-tail a o l
                (λ b e. apart (λ x. same_key (lower name) (name_at (s.heap x))) a b q (t b e).1))
            ∙ rw q (ap (λ l. name_at (s.heap a) ∷ l) k),
      )
    ]
