-- ===== src/Bans/Adding.antt =====
-- Adding a mask: the array has room, keeps what it holds, and gets the mask as its last entry.
use denora.Prelude.{
  ℕ, zero, suc, ◌+◌, ◌≤◌, ◌<◌, ◌%◌, ◌≡◌, refl, ap, ◌∙◌, List, [], ◌∷◌, ◌++◌, some, CString, length,
  length-append, length-set, set, take, arith, leb, lt→ltb, if◌then◌else◌, Bool-cases, inl, inr,
}
use native.Mathlib.Numerals.{add-one}
use denora.Bans.Masks.{Pointer, MaskArray, more_slots, grow, store, add_mask}
use denora.Bans.Queries.{
  Sql, Query, Channel, sql_channel_ban, sql_channel_quiet, sql_channel_exception,
  sql_channel_invite,
}
use denora.Bans.{Outcome, done, add_ban, add_exception, add_invite, add_quiet}

-- The masks that the array holds.
abbrev pub contents : MaskArray → List Pointer
contents a = take a.count a.slots

-- The array has as many slots as it says, a multiple of eight, and holds no more masks.
pub record IsValid (a : MaskArray) : Type 0 where
  pub fits : a.count ≤ a.size
  pub allocated : length a.slots ≡ a.size
  pub by_eight : a.size % 8 ≡ 0

pub take-append {ℓ} :
    {A : Type ℓ} (n : ℕ) (xs ys : List A) → n ≤ length xs → take n (xs ++ ys) ≡ take n xs
take-append zero xs ys h = refl
take-append (suc n) [] ys h = absurd (omega arith)
take-append (suc n) (x ∷ xs) ys h = ap (λ t. x ∷ t) (take-append n xs ys (omega arith))

take-set {ℓ} :
    {A : Type ℓ} (n : ℕ) (xs : List A) (v : A)
    → n < length xs
    → take (suc n) (set xs n v) ≡ take n xs ++ v ∷ []
take-set n [] v h = absurd (omega arith)
take-set zero (x ∷ xs) v h = refl
take-set (suc n) (x ∷ xs) v h = ap (λ t. x ∷ t) (take-set n xs v (omega arith))

-- An array with room for one more mask, which holds the same.
grow_room :
    (a : MaskArray)
    → IsValid a
    → IsValid (grow a)
      × ((grow a).count < (grow a).size)
      × ((grow a).count ≡ a.count)
      × (contents (grow a) ≡ contents a)
unfolding grow
grow_room a v = elim (Bool-cases (leb a.size a.count)) [
  | inl e ↦
      rw (e, grow)
        (
          record {
            fits = omega arith;
            allocated = omega (arith, length-append a.slots more_slots);
            by_eight = omega arith;
          },
          omega arith,
          refl,
          take-append a.count a.slots more_slots (omega arith),
        )
  | inr e ↦ rw (e, grow) (v, ground arith, refl, refl)
]

-- An array with room takes the mask.
store_lem :
    (a : MaskArray) (m : Pointer)
    → IsValid a
    → a.count < a.size
    → (a' : MaskArray) × (store a m ≡ some a') × IsValid a' × (contents a' ≡ contents a ++ m ∷ [])
unfolding store
store_lem a m v room =
    let inside : a.count < length a.slots = omega arith in
    (
      record a { count = a.count + 1; slots = set a.slots a.count m },
      rw (lt→ltb a.count (length a.slots) inside),
      record {
        fits = omega arith;
        allocated = length-set a.slots a.count m ∙ v.allocated;
        by_eight = v.by_eight;
      },
      rw add-one (take-set a.count a.slots m inside),
    )

pub add_mask_lem :
    (a : MaskArray) (m : Pointer)
    → IsValid a
    → (a' : MaskArray) × (add_mask a m ≡ some a')
      × IsValid a'
      × (contents a' ≡ contents a ++ m ∷ [])
unfolding add_mask
add_mask_lem a m v =
    let (v', room, _, same) = grow_room a v in
    let (a', e, w, k) = store_lem (grow a) m v' room in (a', e, w, rw (k, same))

-- The four arrays of a channel are valid.
pub record IsValidChannel (c : Channel) : Type 0 where
  pub bans : IsValid c.bans
  pub excepts : IsValid c.excepts
  pub invite : IsValid c.invite
  pub quiet : IsValid c.quiet

-- The outcome is the channel with a valid array that holds the masks of `a` and behind them `m`,
-- and the queries `qs`.
abbrev pub Appends : (MaskArray → Channel) → MaskArray → Pointer → List Query → Outcome → Type 0
Appends with_array a m qs outcome =
    (a' : MaskArray) × (outcome ≡ done (with_array a') qs)
    × IsValid a'
    × (contents a' ≡ contents a ++ m ∷ [])

module _ (db : Sql) (c : Channel) (v : IsValidChannel c) where
  -- the queries of a handler, if the database is used
  abbrev pub made : List Query → List Query
  made qs = if db.do_sql then qs else []

  -- On a channel whose arrays are valid, `add_ban`, `add_exception`, `add_invite` and `add_quiet`
  -- write inside of their array, leave it valid, and put the mask behind the masks that it holds;
  -- they change nothing else of the channel, and make the queries of the type ADD if the database
  -- is used.
  pub add_masks-Appends :
      (m : CString)
      → Appends
          (λ a. record c { bans = a })
          c.bans
          (some m)
          (made (sql_channel_ban db 1 c (some m)))
          (add_ban db (some c) (some m))
        × Appends
            (λ a. record c { excepts = a })
            c.excepts
            (some m)
            (made (sql_channel_exception db 1 c (some m)))
            (add_exception db (some c) (some m))
        × Appends
            (λ a. record c { invite = a })
            c.invite
            (some m)
            (made (sql_channel_invite db 1 c (some m)))
            (add_invite db (some c) (some m))
        × Appends
            (λ a. record c { quiet = a })
            c.quiet
            (some m)
            (made (sql_channel_quiet db 1 c (some m)))
            (add_quiet db (some c) (some m))
  unfolding add_ban add_exception add_invite add_quiet
  add_masks-Appends m =
      let (b, eb, wb, kb) = add_mask_lem c.bans (some m) v.bans in
      let (x, ex, wx, kx) = add_mask_lem c.excepts (some m) v.excepts in
      let (i, ei, wi, ki) = add_mask_lem c.invite (some m) v.invite in
      let (q, eq, wq, kq) = add_mask_lem c.quiet (some m) v.quiet in
      ((b, rw eb, wb, kb), (x, rw ex, wx, kx), (i, rw ei, wi, ki), (q, rw eq, wq, kq))
