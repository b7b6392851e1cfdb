-- ===== src/Buffer/Splitting.antt =====
-- `split_buf` ends, stays inside its vector, and takes apart what the protocol puts together.
use denora.Prelude.{
  ℕ, zero, suc, ◌+◌, ◌<◌, ◌≤◌, ◌≡◌, ◌≢◌, refl, ap, List, [], ◌∷◌, ◌++◌, Option, some, CString,
  length, length-append, arith, lt→ltb, ◌==◌, if◌then◌else◌, Bool-cases, inl, inr, ==_ne,
}
use denora.Tokens.Fields.{HasNo}
use denora.Buffer.{
  space, before_space, from_space, skip_spaces, behind, next_word, push, split_loop, split_buf,
}

length-skip_spaces-le : (s : CString) → length (skip_spaces s) ≤ length s
unfolding skip_spaces
length-skip_spaces-le [] = omega arith
length-skip_spaces-le (x ∷ s) = ground (arith, length-skip_spaces-le s)

length-behind-from_space-le :
    (x : ℕ) (s : CString) → length (behind (from_space (x ∷ s))) ≤ length s
unfolding behind from_space
length-behind-from_space-le x [] = ground arith
length-behind-from_space-le x (y ∷ s) = ground (arith, length-behind-from_space-le y s)

length-next_word-le : (x : ℕ) (s : CString) → length (next_word (x ∷ s)) ≤ length s
unfolding next_word
length-next_word-le x s =
    omega
      (arith, length-skip_spaces-le (behind (from_space (x ∷ s))), length-behind-from_space-le x s)

-- The vector is grown before it is written to.
abbrev grown : ℕ → ℕ → ℕ
grown argc size = if argc == size then size + 8 else size

grown-fits : (argc size : ℕ) → argc ≤ size → argc < grown argc size
grown-fits argc size h = ground arith

IsSome_push :
    (arg : CString) {r : Option (List CString)}
    → ((args : List CString) × (r ≡ some args))
    → (args : List CString) × (push arg r ≡ some args)
IsSome_push arg (args, e) = (arg ∷ args, rw e)

split_loop_total :
    (fuel : ℕ) (buf : CString) (argc size : ℕ)
    → length buf + 1 < fuel
    → argc ≤ size
    → (args : List CString) × (split_loop fuel buf argc size ≡ some args)
unfolding split_loop
split_loop_total zero buf argc size h fits = absurd (omega arith)
split_loop_total (suc fuel) [] argc size h fits = ([], refl)
split_loop_total (suc fuel) (c ∷ r) argc size h fits =
    let g = grown-fits argc size fits in
    elim (Bool-cases (c == b':')) [
      | inl e ↦
          rw (lt→ltb argc (grown argc size) g, e)
            (IsSome_push r
              (split_loop_total fuel [] (argc + 1) (grown argc size) (omega arith) (omega arith)))
      | inr e ↦
          rw (lt→ltb argc (grown argc size) g, e)
            (IsSome_push (before_space (c ∷ r)) (
              split_loop_total fuel (next_word (c ∷ r)) (argc + 1) (grown argc size)
                (omega (arith, length-next_word-le c r)) (omega arith)))
    ]

-- `split_buf` ends on every buffer and writes only inside the argument vector, which it grows in
-- time.
pub split_buf_total : (buf : CString) → (args : List CString) × (split_buf buf ≡ some args)
unfolding split_buf
split_buf_total buf = split_loop_total (length buf + 2) buf 0 8 (omega arith) (omega arith)

-- An argument that the protocol writes in the middle of a line.
abbrev pub IsWord : CString → Type 0
IsWord [] = ⊥
IsWord (c ∷ w) = (c ≢ b':') × HasNo space (c ∷ w)

abbrev pub AllWords : List CString → Type 0
AllWords [] = Unit
AllWords (w ∷ ws) = IsWord w × AllWords ws

-- A line of the protocol: words, each with a space behind it, and a last argument behind a colon,
-- which may hold anything.
unfoldable pub line : List CString → CString → CString
line [] last = b':' ∷ last
line (w ∷ ws) last = w ++ space ∷ line ws last

before_space-append : (w r : CString) → HasNo space w → before_space (w ++ space ∷ r) ≡ w
unfolding before_space
before_space-append [] r h = refl
before_space-append (x ∷ w) r h =
    rw (==_ne x space h.0) (ap (λ t. x ∷ t) (before_space-append w r h.1))

from_space-append : (w r : CString) → HasNo space w → from_space (w ++ space ∷ r) ≡ space ∷ r
unfolding from_space
from_space-append [] r h = refl
from_space-append (x ∷ w) r h = rw (==_ne x space h.0) (from_space-append w r h.1)

skip_spaces-line :
    (ws : List CString) (t : CString) → AllWords ws → skip_spaces (line ws t) ≡ line ws t
unfolding skip_spaces line
skip_spaces-line [] t h = refl
skip_spaces-line ([] ∷ ws) t h = absurd h.0
skip_spaces-line ((c ∷ w) ∷ ws) t h = rw (==_ne c space h.0.1.0)

next_word-line :
    (w : CString) (ws : List CString) (t : CString)
    → HasNo space w
    → AllWords ws
    → next_word (w ++ space ∷ line ws t) ≡ line ws t
unfolding next_word behind
next_word-line w ws t h all = rw (from_space-append w (line ws t) h) (skip_spaces-line ws t all)

split_loop-line :
    (fuel : ℕ) (ws : List CString) (t : CString) (argc size : ℕ)
    → length (line ws t) + 1 < fuel
    → argc ≤ size
    → AllWords ws
    → split_loop fuel (line ws t) argc size ≡ some (ws ++ t ∷ [])
unfolding split_loop line
split_loop-line zero ws t argc size h fits all = absurd (omega arith)
split_loop-line (suc zero) ws t argc size h fits all = absurd (omega arith)
split_loop-line (suc (suc fuel)) [] t argc size h fits all =
    rw (lt→ltb argc (grown argc size) (grown-fits argc size fits))
split_loop-line (suc (suc fuel)) ([] ∷ ws) t argc size h fits all = absurd all.0
split_loop-line (suc (suc fuel)) ((c ∷ w) ∷ ws) t argc size h fits all =
    let g = grown-fits argc size fits in
    let shorter : length (line ws t) + 1 < suc fuel =
      omega (arith, length-append w (space ∷ line ws t)) in
    let rest =
      split_loop-line (suc fuel) ws t (argc + 1) (grown argc size) shorter (omega arith) all.1 in
    rw
      (
        lt→ltb argc (grown argc size) g,
        ==_ne c b':' all.0.0,
        next_word-line (c ∷ w) ws t all.0.1 all.1,
        before_space-append (c ∷ w) (line ws t) all.0.1,
      )
      (ap (push (c ∷ w)) rest)

-- `split_buf` takes a line of words and a last argument behind a colon apart into just these, if
-- each word is not empty, holds no space and begins with no colon.
pub split_buf-line :
    (ws : List CString) (last : CString)
    → AllWords ws
    → split_buf (line ws last) ≡ some (ws ++ last ∷ [])
unfolding split_buf
split_buf-line ws t all =
    split_loop-line (length (line ws t) + 2) ws t 0 8 (omega arith) (omega arith) all
