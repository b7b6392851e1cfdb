-- ===== src/Buffer/Cleaning.antt =====
-- `doCleanBuffer` leaves the words of the buffer with one space between each two.
use denora.Prelude.{
  ℕ, ◌≡◌, refl, ap, ◌∙◌, true, false, List, [], ◌∷◌, ◌++◌, append-nil, CString, ◌==◌, Bool-cases,
  inl, inr,
}
use denora.Tokens.Fields.{AllHaveNo, fields, fields-AllHaveNo, fields-join, join, prepend}
use denora.Buffer.{space, clean_loop, do_clean_buffer}

pub non_empties : List CString → List CString
non_empties [] = []
non_empties ([] ∷ fs) = non_empties fs
non_empties ((x ∷ f) ∷ fs) = (x ∷ f) ∷ non_empties fs

-- the words of a buffer: its fields between spaces that are not empty
pub words : CString → List CString
words s = non_empties (fields space s)

-- each word with a space in front
spaced : List CString → CString
spaced [] = []
spaced (w ∷ ws) = space ∷ (w ++ spaced ws)

join-spaced : (w : CString) (ws : List CString) → join space (w ∷ ws) ≡ w ++ spaced ws
unfolding join spaced
join-spaced w [] = rw append-nil
join-spaced w (v ∷ ws) = rw (join-spaced v ws)

-- the field that is being read, and the words behind it
glue : List CString → CString
unfolding spaced non_empties
glue [] = []
glue (f ∷ fs) = f ++ spaced (non_empties fs)

glue-prepend : (x : ℕ) (fs : List CString) → glue (prepend x fs) ≡ x ∷ glue fs
unfolding glue prepend
glue-prepend x [] = refl
glue-prepend x (f ∷ fs) = refl

spaced-prepend :
    (x : ℕ) (fs : List CString) → spaced (non_empties (prepend x fs)) ≡ space ∷ x ∷ glue fs
unfolding glue prepend
spaced-prepend x [] = refl
spaced-prepend x (f ∷ fs) = refl

join-prepend : (x : ℕ) (fs : List CString) → join space (non_empties (prepend x fs)) ≡ x ∷ glue fs
unfolding glue prepend join
join-prepend x [] = refl
join-prepend x (f ∷ fs) = join-spaced (x ∷ f) (non_empties fs)

mutual
  unfolding clean_loop fields glue

  clean_loop-word : (s : CString) → clean_loop false s ≡ glue (fields space s)
  clean_loop-word [] = refl
  clean_loop-word (x ∷ s) = elim (Bool-cases (x == space)) [
    | inl e ↦ rw e (clean_loop-gap s)
    | inr e ↦ rw (e, glue-prepend x (fields space s)) (ap (λ t. x ∷ t) (clean_loop-word s))
  ]

  clean_loop-gap : (s : CString) → clean_loop true s ≡ spaced (non_empties (fields space s))
  clean_loop-gap [] = refl
  clean_loop-gap (x ∷ s) = elim (Bool-cases (x == space)) [
    | inl e ↦ rw e (clean_loop-gap s)
    | inr e ↦
        rw (e, spaced-prepend x (fields space s)) (ap (λ t. space ∷ x ∷ t) (clean_loop-word s))
  ]

-- `doCleanBuffer` leaves the words of the buffer in their order, with one space between each two,
-- and no space before the first or behind the last.
pub do_clean_buffer-words : (s : CString) → do_clean_buffer s ≡ join space (words s)
unfolding do_clean_buffer words fields join non_empties
do_clean_buffer-words [] = refl
do_clean_buffer-words (x ∷ s) = elim (Bool-cases (x == space)) [
  | inl e ↦ rw e (do_clean_buffer-words s)
  | inr e ↦ rw (e, join-prepend x (fields space s)) (ap (λ t. x ∷ t) (clean_loop-word s))
]

non_empties-AllHaveNo : (d : ℕ) (fs : List CString) → AllHaveNo d fs → AllHaveNo d (non_empties fs)
unfolding non_empties
non_empties-AllHaveNo d [] h = tt
non_empties-AllHaveNo d ([] ∷ fs) h = non_empties-AllHaveNo d fs h.1
non_empties-AllHaveNo d ((x ∷ f) ∷ fs) h = (h.0, non_empties-AllHaveNo d fs h.1)

non_empties_idem : (fs : List CString) → non_empties (non_empties fs) ≡ non_empties fs
unfolding non_empties
non_empties_idem [] = refl
non_empties_idem ([] ∷ fs) = non_empties_idem fs
non_empties_idem ((x ∷ f) ∷ fs) = ap (λ t. (x ∷ f) ∷ t) (non_empties_idem fs)

words-join :
    (ws : List CString) → AllHaveNo space ws → non_empties ws ≡ ws → words (join space ws) ≡ ws
unfolding words join fields non_empties
words-join [] h e = refl
words-join (w ∷ ws) h e = ap non_empties (fields-join space w ws h) ∙ e

-- Cleaning a buffer that was cleaned before changes nothing.
do_clean_buffer_idem : (s : CString) → do_clean_buffer (do_clean_buffer s) ≡ do_clean_buffer s
do_clean_buffer_idem s =
    let fs = fields space s in
    let again : words (join space (words s)) ≡ words s =
      unfold words in
      words-join (non_empties fs) (non_empties-AllHaveNo space fs (fields-AllHaveNo space s))
        (non_empties_idem fs) in
    rw (do_clean_buffer-words s, do_clean_buffer-words (join space (words s)), again)
