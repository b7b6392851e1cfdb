-- ===== src/Bans/Deleting.antt =====
-- `del_ban` takes the first mask that is equal out of its array.
use denora.Prelude.{
  ℕ, zero, suc, ◌+◌, ◌-◌, ◌≤◌, ◌<◌, ◌≡◌, refl, sym, ap, ◌∙◌, Bool, false, List, [], ◌∷◌, ◌++◌, none,
  some, CString, length, length-append, get_elem?, length-take_le, length-drop, get_elem?-middle,
  append_assoc, take, drop, str_eq, arith, lt→ltb, not_lt→ltb, if◌then◌else◌, Bool-cases, inl, inr,
}
use native.Mathlib.Nat.{zero-add, add-zero}
use native.Mathlib.Decide.{dec_lt}
use denora.Bans.Masks.{Pointer, MaskArray, find_ban, move_down, remove_ban}
use denora.Bans.Queries.{Sql, Channel, sql_channel_ban}
use denora.Bans.{done, del_ban}
use denora.Bans.Adding.{contents, IsValid, IsValidChannel, made}

-- The list without the first entry that passes the test; the whole list if none does.
unfoldable pub erase_first {ℓ} : {A : Type ℓ} → (A → Bool) → List A → List A
erase_first test [] = []
erase_first test (x ∷ xs) = if test x then xs else x ∷ erase_first test xs

-- where the first such entry stands, or the length
unfoldable pub position {ℓ} : {A : Type ℓ} → (A → Bool) → List A → ℕ
position test [] = 0
position test (x ∷ xs) = if test x then 0 else suc (position test xs)

module _ {ℓ} {A : Type ℓ} where
  erase_at : ℕ → List A → List A
  erase_at i [] = []
  erase_at zero (x ∷ xs) = xs
  erase_at (suc i) (x ∷ xs) = x ∷ erase_at i xs

  erase_at-position :
      (test : A → Bool) (xs : List A) → erase_at (position test xs) xs ≡ erase_first test xs
  unfolding position erase_at erase_first
  erase_at-position test [] = refl
  erase_at-position test (x ∷ xs) = elim (Bool-cases (test x)) [
    | inl e ↦ rw e
    | inr e ↦ rw e (ap (λ t. x ∷ t) (erase_at-position test xs))
  ]

  position-le : (test : A → Bool) (xs : List A) → position test xs ≤ length xs
  unfolding position
  position-le test [] = omega arith
  position-le test (x ∷ xs) = ground (arith, position-le test xs)

  erase_first-absent :
      (test : A → Bool) (xs : List A) → position test xs ≡ length xs → erase_first test xs ≡ xs
  unfolding position erase_first
  erase_first-absent test [] e = refl
  erase_first-absent test (x ∷ xs) e = elim (Bool-cases (test x)) [
    | inl t ↦ absurd (omega (arith, rw (t, position) at e))
    | inr t ↦
        rw t (ap (λ u. x ∷ u) (erase_first-absent test xs (omega (arith, rw (t, position) at e))))
  ]

  take-erase_last : (i : ℕ) (xs : List A) → i < length xs → take i xs ≡ erase_at i (take (suc i) xs)
  unfolding erase_at
  take-erase_last i [] h = absurd (omega arith)
  take-erase_last zero (x ∷ xs) h = refl
  take-erase_last (suc i) (x ∷ xs) h = ap (λ t. x ∷ t) (take-erase_last i xs (omega arith))

  take-take : (n : ℕ) (xs ys : List A) → n ≤ length xs → take n (take n xs ++ ys) ≡ take n xs
  take-take zero xs ys h = refl
  take-take (suc n) [] ys h = absurd (omega arith)
  take-take (suc n) (x ∷ xs) ys h = ap (λ t. x ∷ t) (take-take n xs ys (omega arith))

take-move_down :
    (n i : ℕ) (xs : List Pointer)
    → i + n < length xs
    → take (i + n) (move_down xs i n) ≡ erase_at i (take (suc (i + n)) xs)
unfolding move_down erase_at
take-move_down n i [] h = absurd (omega arith)
take-move_down n zero (x ∷ xs) h = rw zero-add (take-take n xs (drop n (x ∷ xs)) (omega arith))
take-move_down n (suc i) (x ∷ xs) h =
    let e : suc i + n ≡ suc (i + n) = omega arith in
    let f : suc i + 1 ≡ suc (i + 1) = omega arith in
    rw (e, f) (ap (λ t. x ∷ t) (take-move_down n i xs (omega arith)))

-- The array of bans holds no null pointer.
abbrev pub AllSome : List Pointer → Type 0
AllSome [] = Unit
AllSome (none ∷ ps) = ⊥
AllSome (some m ∷ ps) = AllSome ps

-- the test of `del_ban`
abbrev pub is_mask : CString → Pointer → Bool
is_mask m none = false
is_mask m (some x) = str_eq x m

find_ban-position :
    (m : CString) (before rest : List Pointer) (k i : ℕ)
    → i ≡ length before
    → k ≤ length rest
    → AllSome (take k rest)
    → find_ban (before ++ rest) m k i ≡ some (i + position (is_mask m) (take k rest))
unfolding find_ban position
find_ban-position m before rest zero i p h all = rw add-zero
find_ban-position m before [] (suc k) i p h all = absurd (omega arith)
find_ban-position m before (none ∷ rest) (suc k) i p h all = absurd all
find_ban-position m before (some x ∷ rest) (suc k) i p h all =
    let here : get_elem? (before ++ some x ∷ rest) i ≡ some (some x) =
      rw p (get_elem?-middle before rest (some x)) in
    let further =
      find_ban-position m (before ++ some x ∷ []) rest k (i + 1)
        (omega (arith, length-append before (some x ∷ []))) (omega arith) all in
    elim (Bool-cases (str_eq x m)) [
      | inl e ↦ rw (here, e) (rw add-zero)
      | inr e ↦
          rw (here, e)
            (rw (append_assoc before (some x ∷ []) rest) at further ∙ ap some (omega arith))
    ]

length-take-move_down :
    (n i : ℕ) (xs : List Pointer) → i + n < length xs → length (move_down xs i n) ≡ length xs
unfolding move_down
length-take-move_down n i [] h = absurd (omega arith)
length-take-move_down n zero (x ∷ xs) h = rw zero-add (
    omega (
      arith,
      length-append (take n xs) (drop n (x ∷ xs)),
      length-take_le n xs (omega arith),
      length-drop n (x ∷ xs),
    ))
length-take-move_down n (suc i) (x ∷ xs) h =
    let e : suc i + n ≡ suc (i + n) = omega arith in
    let f : suc i + 1 ≡ suc (i + 1) = omega arith in
    rw (e, f) (ap suc (length-take-move_down n i xs (omega arith)))

-- What `del_ban` does to its array, at the place that it found.
remove_ban_lem :
    (a : MaskArray) (test : Pointer → Bool)
    → IsValid a
    → (a' : MaskArray) × (remove_ban a (some (position test (contents a))) ≡ some a')
      × IsValid a'
      × (contents a' ≡ erase_first test (contents a))
unfolding remove_ban
remove_ban_lem a test v =
    let i = position test (contents a) in
    let full = length-take_le a.count a.slots (omega arith) in
    let low = position-le test (contents a) in
    elim (dec_lt i a.count) [
      | no k ↦ (
        a,
        rw (not_lt→ltb i a.count k),
        v,
        sym (erase_first-absent test (contents a) (omega arith)),
      )
      | yes k ↦ elim (dec_lt i (a.count - 1)) [
        | yes l ↦
            let n = a.count - 1 - i in
            let e : i + n ≡ a.count - 1 = omega arith in
            let f : suc (a.count - 1) ≡ a.count = omega arith in
            (
              record a { count = a.count - 1; slots = move_down a.slots i n },
              rw (lt→ltb i a.count k, lt→ltb i (a.count - 1) l),
              record {
                fits = omega arith;
                allocated = length-take-move_down n i a.slots (omega arith) ∙ v.allocated;
                by_eight = v.by_eight;
              },
              ap (λ t. take t (move_down a.slots i n)) (sym e)
                  ∙ take-move_down n i a.slots (omega arith)
                  ∙ ap (λ t. erase_at i (take (suc t) a.slots)) e
                  ∙ ap (λ t. erase_at i (take t a.slots)) f
                  ∙ erase_at-position test (contents a),
            )
        | no l ↦
            let e : i ≡ a.count - 1 = omega arith in
            let f : suc i ≡ a.count = omega arith in
            (
              record a { count = a.count - 1 },
              rw (lt→ltb i a.count k, not_lt→ltb i (a.count - 1) l),
              record { fits = omega arith; allocated = v.allocated; by_eight = v.by_eight },
              ap (λ t. take t a.slots) (sym e)
                  ∙ take-erase_last i a.slots (omega arith)
                  ∙ ap (λ t. erase_at i (take t a.slots)) f
                  ∙ erase_at-position test (contents a),
            )
      ]
    ]

module _ (db : Sql) (c : Channel) (v : IsValidChannel c) where
  -- On a channel whose arrays are valid and whose array of bans holds no null pointer, `del_ban`
  -- reads and writes inside of the array, leaves it valid, and takes out the first mask that is
  -- equal to the given one, or nothing if there is none; it changes nothing else of the channel,
  -- and makes the queries of the type DEL if the database is used.
  pub del_ban-erase_first :
      (m : CString)
      → AllSome (contents c.bans)
      → (a' : MaskArray) × (del_ban db (some c) (some m)
          ≡ done (record c { bans = a' }) (made db c v (sql_channel_ban db 2 c (some m))))
        × IsValid a'
        × (contents a' ≡ erase_first (is_mask m) (contents c.bans))
  unfolding del_ban
  del_ban-erase_first m all =
      let (a', e, w, k) = remove_ban_lem c.bans (is_mask m) v.bans in
      let f = find_ban-position m [] c.bans.slots c.bans.count 0 refl (omega (arith, v.bans)) all in
      (a', rw (f, zero-add, e), w, k)
