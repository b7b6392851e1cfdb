-- ===== src/Modes/Single.antt =====
-- Tables of modes with one entry, and the bans of a channel under their handlers, src/ChanMode.c
-- and src/ChanBanMode.c.
use denora.Prelude.{
  ℕ, zero, suc, ◌≡◌, ◌≢◌, ap, ◌∙◌, Bool, List, [], ◌∷◌, ◌++◌, Option, none, some, CString, inl, inr,
  Bool-cases, arith, length, length-set, length-replicate, get_elem?, set, replicate, str_eq,
  of_some,
}
use denora.Bans.Masks.{Pointer}
use denora.Bans.Queries.{Sql, Channel}
use denora.Bans.{add_ban, del_ban}
use denora.Bans.Adding.{contents, IsValidChannel, add_masks-Appends}
use denora.Bans.Deleting.{AllSome, erase_first, is_mask, del_ban-erase_first}
use denora.Modes.Tables.{
  ModeHash, Buckets, bucket, looked_up, if_known, find_mode, find_chan_mode, find_chan_ban_mode,
  mode_hash_sensitive,
}
use denora.Modes.Safety.{Kept}

abbrev pub one_entry : {V : Type 0} → ℕ → ℕ → CString → V → Buckets V
one_entry n i name v = set (replicate n []) i (record { mode = name; value = v } ∷ [])

pub length-one_entry :
    {V : Type 0} (n i : ℕ) (name : CString) (v : V) → length (one_entry n i name v) ≡ n
length-one_entry {V} n i name v =
    length-set (replicate n []) i _ ∙ length-replicate {A = List (ModeHash V)} n []

no_entry :
    {V : Type 0} (n j : ℕ) (w : V) (s : CString)
    → looked_up find_mode s (get_elem? (replicate n []) j) ≢ some (some w)
unfolding find_mode
no_entry zero j w s e = ground (arith, e)
no_entry (suc n) zero w s e = ground (arith, ap (of_some none) e)
no_entry (suc n) (suc j) w s e = no_entry n j w s e

one_entry_lem :
    {V : Type 0} (n i j : ℕ) (name : CString) (v w : V) (s : CString)
    → looked_up find_mode s (get_elem? (one_entry n i name v) j) ≡ some (some w)
    → v ≡ w
unfolding find_mode
one_entry_lem zero i j name v w s e = absurd (ground (arith, e))
one_entry_lem (suc n) zero zero name v w s e = elim (Bool-cases (str_eq s name)) [
  | inl q ↦ ap (λ o. of_some v (of_some none o)) (rw q at e)
  | inr q ↦ absurd (let z = ap (of_some none) (rw q at e) in ground (arith, z))
]
one_entry_lem (suc n) zero (suc j) name v w s e = absurd (no_entry n j w s e)
one_entry_lem (suc n) (suc i) zero name v w s e =
    absurd (let z = ap (of_some none) e in ground (arith, z))
one_entry_lem (suc n) (suc i) (suc j) name v w s e = one_entry_lem n i j name v w s e

pub find_chan_mode-one_entry :
    {V : Type 0} (n i : ℕ) (name s : CString) (v w : V)
    → find_chan_mode (one_entry n i name v) (some s) ≡ some (some w)
    → v ≡ w
unfolding find_chan_mode
find_chan_mode-one_entry {V} n i name s v w = go (mode_hash_sensitive s)
  where
    go :
        (o : Option ℕ)
        → looked_up find_mode s (bucket (one_entry n i name v) o) ≡ some (some w)
        → v ≡ w
    go none e = absurd (ground (arith, e))
    go (some j) e = one_entry_lem n i j name v w s e

if_known-some :
    {V : Type 0} (k : Option ℕ) (o : Option (Option V)) (w : V)
    → if_known k o ≡ some (some w)
    → o ≡ some (some w)
if_known-some none o w e = absurd (ground (arith, e))
if_known-some (some zero) o w e = absurd (let z = ap (of_some none) e in ground (arith, z))
if_known-some (some (suc k)) o w e = e

pub find_chan_ban_mode-one_entry :
    {V : Type 0} (flags : List ℕ) (n i : ℕ) (name s : CString) (v w : V)
    → find_chan_ban_mode flags (one_entry n i name v) (some s) ≡ some (some w)
    → v ≡ w
unfolding find_chan_ban_mode
find_chan_ban_mode-one_entry flags n i name [] v w e =
    absurd (let z = if_known-some (get_elem? flags 0) none w e in ground (arith, z))
find_chan_ban_mode-one_entry flags n i name (c ∷ s) v w e =
    go _ (if_known-some (get_elem? flags c) _ w e)
  where
    go :
        (o : Option ℕ)
        → looked_up find_mode (c ∷ s) (bucket (one_entry n i name v) o) ≡ some (some w)
        → v ≡ w
    go none e = absurd (ground (arith, e))
    go (some j) e = one_entry_lem n i j name v w (c ∷ s) e

AllSome-append : (ps : List Pointer) (m : CString) → AllSome ps → AllSome (ps ++ some m ∷ [])
AllSome-append [] m a = tt
AllSome-append (none ∷ ps) m a = a
AllSome-append (some x ∷ ps) m a = AllSome-append ps m a

AllSome-erase_first :
    (test : Pointer → Bool) (ps : List Pointer) → AllSome ps → AllSome (erase_first test ps)
unfolding erase_first
AllSome-erase_first test [] a = tt
AllSome-erase_first test (none ∷ ps) a = elim a [ ]
AllSome-erase_first test (some x ∷ ps) a = elim (Bool-cases (test (some x))) [
  | inl q ↦ rw q a
  | inr q ↦ rw q (AllSome-erase_first test ps a)
]

-- The arrays are valid and no ban is a null pointer.
abbrev pub Sound : Channel → Type 0
Sound c = IsValidChannel c × AllSome (contents c.bans)

module _ (db : Sql) where
  pub add_ban-Sound : (c : Channel) (arg : Pointer) → Sound c → Kept Sound (add_ban db (some c) arg)
  unfolding add_ban
  add_ban-Sound c none i = tt
  add_ban-Sound c (some m) (v, a) =
      let ((b, k, w, q), _, _, _) = add_masks-Appends db c v m in
      rw k (
        record { bans = w; excepts = v.excepts; invite = v.invite; quiet = v.quiet },
        rw q (AllSome-append (contents c.bans) m a),
      )

  pub del_ban-Sound : (c : Channel) (arg : Pointer) → Sound c → Kept Sound (del_ban db (some c) arg)
  unfolding del_ban
  del_ban-Sound c none i = tt
  del_ban-Sound c (some m) (v, a) =
      let (b, k, w, q) = del_ban-erase_first db c v m a in
      rw k (
        record { bans = w; excepts = v.excepts; invite = v.invite; quiet = v.quiet },
        rw q (AllSome-erase_first (is_mask m) (contents c.bans) a),
      )
