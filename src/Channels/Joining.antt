-- ===== src/Channels/Joining.antt =====
-- A JOIN keeps the invariant of the store of the channels, src/channels.c: join_user_update and
-- do_join, for any way to add a user to a channel and to take one off it that does.
use mathlib.Core.Path.{subst}
use denora.Prelude.{
  ℕ, ◌≡◌, refl, ap, sym, ◌∙◌, Bool, true, List, [], ◌∷◌, Option, none, some, CString, inl, inr,
  Bool-cases, arith, length, stricmp_eq, ◌==◌, bind-some, take_all,
}
use denora.Bans.Queries.{Channel}
use denora.Channels.{Chans, Config, World, cut_name, findchan, chan_create}
use denora.Channels.Handlers.{
  on_chans, join_user_update, on_channel, created, join_one, join_name, join_names, leave_all,
  leave_world, do_join_with, names_of,
}
use denora.Channels.Agreeing.{Agree, Agree-trans, Agree-≡, joined_to-Agree, each-Agree}
use denora.Channels.Store.{Found, findchan-Found}
use denora.Channels.Creating.{Finds, chan_create-Ends}
use denora.Channels.Emptying.{Deletes, loop-Leaves}
use denora.Channels.Spec.{Membership, lower, view, each, joined_to, join_of}
use denora.Channels.View.{stricmp_eq-≡, length-lower}
use denora.Channels.Steps.{keys-Ends, IsSound}

-- A run that does not fault and ends in a world that is sound, in which the users are on the
-- channels of `on`.
abbrev pub Goes : Membership → Option World → Type 0
Goes on o = (w : World) × (o ≡ some w) × IsSound w.chans w.store × (view w ≡ on)

-- The same for all users but the own client.
abbrev pub Joins : Option ℕ → Membership → Option World → Type 0
Joins own on o = (w : World) × (o ≡ some w) × IsSound w.chans w.store × Agree own (view w) on

pub Goes-Joins : (own : Option ℕ) (on : Membership) (o : Option World) → Goes on o → Joins own on o
Goes-Joins own on o (w, e, v, same) = (w, e, v, Agree-≡ own (view w) on same)

-- What `findchan` finds has the name as far as the array of a channel holds it.
found-name :
    (chans : ℕ → List ℕ) (s : Chans)
    → IsSound chans s
    → (a : ℕ) (c : Channel) → s.heap a ≡ some c
    → (name : CString) → stricmp_eq c.name name ≡ true
    → lower c.name ≡ lower (cut_name name)
found-name chans s v a c e name q =
    let same = stricmp_eq-≡ c.name name q in
    let shorter : length c.name ≡ length name =
      sym (length-lower c.name) ∙ ap length same ∙ length-lower name in
    same ∙ ap lower (sym (take_all 63 name (let z = v.short a c e in omega (arith, z, shorter))))

-- What a call of `chan_adduser2` does for a user.
abbrev pub Adds :
    ((A : Type 0) → (A → Bool) → List A → Option ℕ)
    → Config
    → ℕ
    → (World → ℕ → ℕ → Option World)
    → (World → ℕ → ℕ → Option World)
    → ℕ
    → Type 0
Adds list_find cfg now adduser deluser u =
    (w : World)
    → IsSound w.chans w.store
    → (a : ℕ) (c : Channel) → w.store.heap a ≡ some c
    → Joins cfg.own (on_chans (view w) u (lower c.name ∷ view w u))
        (on_channel list_find cfg now adduser deluser u w (some a))

module _ (list_find : (A : Type 0) → (A → Bool) → List A → Option ℕ) (found : Finds list_find)
    (cfg : Config) (now : ℕ) (adduser deluser : World → ℕ → ℕ → Option World)
    (deletes : Deletes deluser) (u : ℕ) (adds : Adds list_find cfg now adduser deluser u) where
  join_user_update-Joins :
      (w : World)
      → IsSound w.chans w.store
      → (x : ℕ) (name : CString) (o : Option ℕ) → Found w.store.heap (x ∷ name) o
      → (ts : ℕ)
      → Joins cfg.own
          (on_chans (view w) u (lower (cut_name (x ∷ name)) ∷ view w u))
          (join_user_update list_find cfg now adduser deluser w u o (x ∷ name) ts)
  unfolding join_user_update created
  join_user_update-Joins w v x name (some a) (c, e, q) ts =
      rw (← found-name w.chans w.store v a c e (x ∷ name) q) (adds w v a c e)
  join_user_update-Joins w v x name none live ts =
      let (a, s, e, v', (c, ec, n), same) =
        chan_create-Ends list_find cfg now found w.chans w.store v x name ts in
      let (w', k, v'', names) = adds (record w { store = s }) v' a c ec in
      (
        w',
        bind-some _ e ∙ k,
        v'',
        subst (Agree cfg.own (view w'))
            (rw n (ap (λ on. on_chans on u (lower (cut_name (x ∷ name)) ∷ on u)) same)) names,
      )

  join_one-Joins :
      (w : World)
      → IsSound w.chans w.store
      → (ts x : ℕ) (name : CString)
      → Joins cfg.own
          (on_chans (view w) u (lower (cut_name (x ∷ name)) ∷ view w u))
          (join_one list_find cfg now adduser deluser w u ts (x ∷ name))
  unfolding join_one
  join_one-Joins w v ts x name =
      let (o, e, f) = findchan-Found w.chans w.store v (x ∷ name) in
      let (w', k, v', g) = join_user_update-Joins w v x name o f ts in
      (w', bind-some _ e ∙ k, v', g)

  leave_all-nil : (w : World) (u : ℕ) → leave_all list_find cfg now adduser deluser w u [] ≡ some w
  unfolding leave_all
  leave_all-nil w u = refl

  leave_all-cons :
      (w : World) (u : ℕ) (l : List ℕ) (a : ℕ) (c : Channel) (w' : World)
      → w.store.heap a ≡ some c
      → deluser w u a ≡ some w'
      → leave_all list_find cfg now adduser deluser w u (a ∷ l)
        ≡ leave_all list_find cfg now adduser deluser w' u l
  unfolding leave_all
  leave_all-cons w u l a c w' e e' = bind-some _ e ∙ bind-some _ e'

  leave_world-Goes :
      (w : World)
      → IsSound w.chans w.store
      → Goes (on_chans (view w) u []) (leave_world list_find cfg now adduser deluser w u)
  unfolding leave_world
  leave_world-Goes w v =
      let (s, e, v', names) =
        loop-Leaves deluser deletes (leave_all list_find cfg now adduser deluser) leave_all-nil
          leave_all-cons w.chans w u (w.chans u) refl v in
      (_, bind-some _ e, v', keys-Ends w.store.heap w.chans u [] s v' names)

  join_name-Joins :
      (w : World)
      → IsSound w.chans w.store
      → (ts : ℕ) (name : CString)
      → Joins cfg.own
          (joined_to u (view w) name)
          (join_name list_find cfg now adduser deluser w u ts name)
  unfolding join_name join_one join_user_update chan_create created on_channel findchan joined_to
  join_name-Joins w v ts [] = (w, refl, v, λ x n. refl)
  join_name-Joins w v ts (c ∷ name) = elim (Bool-cases (c == b'0')) [
    | inl q ↦ rw q (Goes-Joins cfg.own _ _ (leave_world-Goes w v))
    | inr q ↦ rw q (join_one-Joins w v ts c name)
  ]

  pub join_names-Joins :
      (w : World)
      → IsSound w.chans w.store
      → (ts : ℕ) (names : List CString)
      → Joins cfg.own
          (each (joined_to u) (view w) names)
          (join_names list_find cfg now adduser deluser w u ts names)
  unfolding join_names
  join_names-Joins w v ts [] = (w, refl, v, λ x n. refl)
  join_names-Joins w v ts (name ∷ names) =
      let (w', e, v', s) = join_name-Joins w v ts name in
      let (w'', f, v'', t) = join_names-Joins w' v' ts names in
      (
        w'',
        bind-some _ e ∙ f,
        v'',
        Agree-trans cfg.own (view w'') (each (joined_to u) (view w') names)
            (each (joined_to u) (joined_to u (view w) name) names) t
            (each-Agree cfg.own (joined_to u) (joined_to-Agree cfg.own u) (view w')
              (joined_to u (view w) name) names s),
      )

  pub do_join_with-Joins :
      (strtoul : CString → ℕ) (w : World)
      → IsSound w.chans w.store
      → (av : List CString)
      → Joins cfg.own
          (join_of (view w) (some u) av)
          (do_join_with list_find cfg now adduser deluser strtoul w (some u) av)
  unfolding do_join_with join_of
  do_join_with-Joins strtoul w v [] = (w, refl, v, λ x n. refl)
  do_join_with-Joins strtoul w v (names ∷ []) = join_names-Joins w v now (names_of names)
  do_join_with-Joins strtoul w v (names ∷ ts ∷ []) =
      join_names-Joins w v (strtoul ts) (names_of names)
  do_join_with-Joins strtoul w v (names ∷ ts ∷ t ∷ av) = join_names-Joins w v now (names_of names)
