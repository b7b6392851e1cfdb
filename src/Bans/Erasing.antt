-- ===== src/Bans/Erasing.antt =====
-- `del_exception`, `del_invite` and `del_quiet`: what they leave, and when they read behind the end
-- of their array.
use denora.Prelude.{
  ℕ, zero, suc, ◌-◌, ◌<◌, ◌≡◌, refl, sym, ap, ◌∙◌, true, false, List, [], ◌∷◌, ◌++◌, none, some,
  CString, length, length-append, take-length_append, take-append-drop, drop-cons, length-take_le,
  take, arith, Bool-cases, inl, inr,
}
use mathlib.Core.Path.{ap₂}
use denora.Bans.Masks.{MaskArray, del_loop, after_loop, del_mask}
use denora.Bans.Queries.{
  Sql, Query, Channel, sql_channel_exception, sql_channel_invite, sql_channel_quiet,
}
use denora.Bans.{Outcome, done, fault, del_exception, del_invite, del_quiet}
use denora.Bans.Adding.{contents, IsValid, IsValidChannel, made}
use denora.Bans.Deleting.{erase_first}
use denora.Bans.Shifting.{
  is_like, any, del_loop-present, del_loop-absent, del_loop-fault, erase_first-present,
  erase_first-any_not,
}

-- What the loop does to an array that has a slot more than it holds masks.
del_mask_lem :
    (a : MaskArray) (m : CString)
    → IsValid a
    → a.count < a.size
    → (a' : MaskArray) × (del_mask a m ≡ some a')
      × IsValid a'
      × (contents a' ≡ erase_first (is_like m) (contents a))
unfolding del_mask after_loop
del_mask_lem a m v room =
    let f = contents a in
    let full : length f ≡ a.count = length-take_le a.count a.slots (omega arith) in
    let (y, r, e) = drop-cons a.count a.slots (omega arith) in
    let all : f ++ y ∷ r ≡ a.slots = rw e at (take-append-drop a.count a.slots) in
    elim (Bool-cases (any (is_like m) f)) [
      | inl t ↦
          let g = erase_first (is_like m) f in
          let one_less : suc (length g) ≡ length f = erase_first-present (is_like m) f t in
          let gone : a.count - 1 ≡ length g = omega arith in
          (
            record a { slots = g ++ y ∷ y ∷ r; count = a.count - 1 },
            rw (
                sym (ap₂ (λ k s. del_loop m k 0 false s) full all)
                ∙ del_loop-present m f [] 0 y r refl t),
            record {
              fits = omega arith;
              allocated =
                  omega
                    (arith, length-append g (y ∷ y ∷ r), length-append f (y ∷ r), ap length all, v);
              by_eight = v.by_eight;
            },
            ap (λ n. take n (g ++ y ∷ y ∷ r)) gone ∙ take-length_append g (y ∷ y ∷ r),
          )
      | inr t ↦ (
        record a { slots = a.slots },
        rw (
            sym (ap (λ k. del_loop m k 0 false a.slots) full)
            ∙ rw all at (del_loop-absent m f [] 0 (y ∷ r) refl t)),
        v,
        sym (erase_first-any_not (is_like m) f t),
      )
    ]

take_all {ℓ} : {A : Type ℓ} (n : ℕ) (xs : List A) → n ≡ length xs → take n xs ≡ xs
take_all zero [] h = refl
take_all zero (x ∷ xs) h = absurd (omega arith)
take_all (suc n) [] h = absurd (omega arith)
take_all (suc n) (x ∷ xs) h = ap (λ t. x ∷ t) (take_all n xs (omega arith))

del_mask-fault :
    (a : MaskArray) (m : CString)
    → IsValid a
    → a.count ≡ a.size
    → any (is_like m) (contents a) ≡ true
    → del_mask a m ≡ none
unfolding del_mask after_loop
del_mask-fault a m v no_room t =
    let all : contents a ≡ a.slots = take_all a.count a.slots (omega arith) in
    let full : length (contents a) ≡ a.count = length-take_le a.count a.slots (omega arith) in
    rw (
      sym (ap₂ (λ k s. del_loop m k 0 false s) full all)
      ∙ del_loop-fault m (contents a) [] 0 refl t)

-- The outcome is the channel with a valid array that holds the masks of `a` without the first that
-- is equal to `m` up to case, and the queries `qs`.
abbrev pub Erases : (MaskArray → Channel) → MaskArray → CString → List Query → Outcome → Type 0
Erases with_array a m qs outcome =
    (a' : MaskArray) × (outcome ≡ done (with_array a') qs)
    × IsValid a'
    × (contents a' ≡ erase_first (is_like m) (contents a))

-- The three arrays have more slots than masks.
pub record HasRoom (c : Channel) : Type 0 where
  pub excepts : c.excepts.count < c.excepts.size
  pub invite : c.invite.count < c.invite.size
  pub quiet : c.quiet.count < c.quiet.size

module _ (db : Sql) (c : Channel) (v : IsValidChannel c) (m : CString) where
  -- On a channel whose arrays are valid, `del_exception`, `del_invite` and `del_quiet` take out the
  -- first mask that is equal to the given one up to case, or nothing if there is none, if their
  -- array has a slot more than it holds masks; they leave the array valid, change nothing else of
  -- the channel, and make the queries of the type DEL if the database is used.
  pub del_masks-Erases :
      HasRoom c
      → Erases
          (λ a. record c { excepts = a })
          c.excepts
          m
          (made db c v (sql_channel_exception db 2 c (some m)))
          (del_exception db (some c) (some m))
        × Erases
            (λ a. record c { invite = a })
            c.invite
            m
            (made db c v (sql_channel_invite db 2 c (some m)))
            (del_invite db (some c) (some m))
        × Erases
            (λ a. record c { quiet = a })
            c.quiet
            m
            (made db c v (sql_channel_quiet db 2 c (some m)))
            (del_quiet db (some c) (some m))
  unfolding del_exception del_invite del_quiet
  del_masks-Erases room =
      let (x, ex, wx, kx) = del_mask_lem c.excepts m v.excepts room.excepts in
      let (i, ei, wi, ki) = del_mask_lem c.invite m v.invite room.invite in
      let (q, eq, wq, kq) = del_mask_lem c.quiet m v.quiet room.quiet in
      ((x, rw ex, wx, kx), (i, rw ei, wi, ki), (q, rw eq, wq, kq))

  -- If the array of exceptions is valid and every slot of it holds a mask, `del_exception` reads
  -- behind the end of the array when one of the masks is equal to the given one up to case.
  pub del_exception-fault :
      c.excepts.count ≡ c.excepts.size
      → any (is_like m) (contents c.excepts) ≡ true
      → del_exception db (some c) (some m) ≡ fault
  unfolding del_exception
  del_exception-fault n t = rw (del_mask-fault c.excepts m v.excepts n t)
