-- ===== src/Channels/Naming.antt =====
-- The names by which src/channels.c finds a channel: short ones are found again, long ones never
-- are.
use denora.Prelude.{
  ℕ, ◌<◌, ◌≡◌, refl, ap, sym, ◌∙◌, Bool, true, false, not, ◌&&◌, List, [], ◌∷◌, ◌++◌, Option, none,
  some, CString, inl, inr, Bool-cases, arith, length, ◌==◌, ==_refl, and_right, append_assoc,
  append-nil, take_all, str_eq,
}
use denora.Channels.{Chans, Config, World, findchan}
use denora.Channels.Agreeing.{Agree, Agree-trans, Agree-≡, parted_from-Agree}
use denora.Channels.Commands.{do_join, do_part}
use denora.Channels.Handlers.{names_of, names_in}
use denora.Channels.Promise.{IsConfigured, do_join-Joins, do_part-Goes}
use denora.Channels.Spec.{
  Membership, view, lower, remove, each, joined_to, parted_from, join_of, part_of, on_chans_self,
  on_chans_same, on_chans_twice,
}
use denora.Channels.Store.{findchan-Found, Found}
use denora.Channels.Steps.{IsSound}
use denora.Channels.View.{stricmp_eq-≡, length-lower}

-- No comma is in the string.
abbrev pub no_comma : CString → Bool
no_comma [] = true
no_comma (c ∷ s) = not (c == b',') && no_comma s

names_in-no_comma : (name s : CString) → no_comma s ≡ true → names_in name s ≡ (name ++ s) ∷ []
unfolding names_in
names_in-no_comma name [] h = rw (append-nil name) refl
names_in-no_comma name (c ∷ s) h =
    let rest = names_in-no_comma (name ++ c ∷ []) s (and_right (not (c == b',')) _ h) in
    elim (Bool-cases (c == b',')) [
      | inl q ↦ absurd (let k = rw q at h in ground (arith, k))
      | inr q ↦ rw (q, rest, append_assoc name (c ∷ []) s) refl
    ]

names_of-no_comma :
    (x : ℕ) (s : CString) → no_comma (x ∷ s) ≡ true → names_of (x ∷ s) ≡ (x ∷ s) ∷ []
unfolding names_of
names_of-no_comma x s h = names_in-no_comma [] (x ∷ s) h

str_eq_refl : (s : CString) → str_eq s s ≡ true
unfolding str_eq
str_eq_refl [] = refl
str_eq_refl (c ∷ s) = rw (==_refl c) (str_eq_refl s)

parted_from-joined_to :
    (u : ℕ) (on : Membership) (x : ℕ) (name : CString)
    → length (x ∷ name) < 64
    → (x == b'0') ≡ false
    → parted_from u (joined_to u on (x ∷ name)) (x ∷ name) ≡ on
unfolding parted_from joined_to
parted_from-joined_to u on x name lt q =
    let all = take_all 62 name (omega (arith, lt)) in
    let l = lower (x ∷ name) ∷ on u in
    let head : remove (lower (x ∷ name)) l ≡ on u = rw (str_eq_refl (lower (x ∷ name))) refl in
    rw (q, all, on_chans_same on u l, head)
      (on_chans_twice on u l (on u) ∙ on_chans_self on u (on u) refl)

Found-short :
    (chans : ℕ → List ℕ) (s : Chans)
    → IsSound chans s
    → (name : CString) (o : Option ℕ) → Found s.heap name o
    → 63 < length name
    → o ≡ none
Found-short chans s v name none f lt = refl
Found-short chans s v name (some a) (c, e, q) lt =
    let same =
      sym (length-lower c.name) ∙ ap length (stricmp_eq-≡ c.name name q) ∙ length-lower name in
    absurd (let z = v.short a c e in omega (arith, z, same, lt))

-- In a store that is sound, a name that does not fit into the array of a channel, one of more than
-- 63 bytes, is never found, though chan_create makes a channel for it.
pub findchan-long :
    (chans : ℕ → List ℕ) (s : Chans)
    → IsSound chans s
    → (name : CString) → 63 < length name
    → findchan s (some name) ≡ some none
findchan-long chans s v name lt =
    let (o, e, f) = findchan-Found chans s v name in e ∙ ap some (Found-short chans s v name o f lt)

module _ (list_find : (A : Type 0) → (A → Bool) → List A → Option ℕ) (cfg : Config)
    (ok : IsConfigured list_find cfg) where
  -- In a store that is sound, when a user joins a channel and parts from it, every user but the own
  -- client is on the channels that it was on before, when the name fits, has no comma and does not
  -- begin with 0. This holds with what IsConfigured says: `list_find` finds entries, the table of
  -- the flags has a place for every character, the own client has its nick, and it does not part
  -- from a channel that is left empty.
  pub do_part-do_join :
      (w : World)
      → IsSound w.chans w.store
      → (now later : ℕ) (strtoul : CString → ℕ) (u x : ℕ) (name : CString) → length (x ∷ name) < 64
      → no_comma (x ∷ name) ≡ true
      → (x == b'0') ≡ false
      → (w' : World) × (w'' : World) × (do_join list_find cfg now strtoul w
            (some u)
            ((x ∷ name) ∷ [])
          ≡ some w')
        × (do_part list_find cfg later w' (some u) ((x ∷ name) ∷ []) ≡ some w'')
        × Agree cfg.own (view w'') (view w)
  unfolding join_of part_of
  do_part-do_join w v now later strtoul u x name lt plain q =
      let av = (x ∷ name) ∷ [] in
      let one = names_of-no_comma x name plain in
      let (w', e, v', s) = do_join-Joins list_find cfg now ok strtoul w v (some u) av in
      let (w'', f, v'', t) = do_part-Goes list_find cfg later ok w' v' (some u) av in
      let joins : Agree cfg.own (view w') (joined_to u (view w) (x ∷ name)) =
        Agree-trans cfg.own (view w') _ _ s
          (Agree-≡ cfg.own _ _ (ap (each (joined_to u) (view w)) one)) in
      (
        w',
        w'',
        e,
        f,
        Agree-trans cfg.own (view w'') (parted_from u (view w') (x ∷ name)) (view w)
            (Agree-≡ cfg.own _ _ (t ∙ ap (each (parted_from u) (view w')) one))
            (Agree-trans cfg.own _ _ (view w)
              (parted_from-Agree cfg.own u (view w') _ (x ∷ name) joins)
              (Agree-≡ cfg.own _ _ (parted_from-joined_to u (view w) x name lt q))),
      )
