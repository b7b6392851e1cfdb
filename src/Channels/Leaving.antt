-- ===== src/Channels/Leaving.antt =====
-- A PART and a KICK keep the invariant of the store of the channels, src/channels.c: do_part and
-- do_kick, for any way to take a user off a channel that does.
use denora.Prelude.{
  ℕ, ◌<◌, ◌≡◌, refl, ap, sym, ◌∙◌, Bool, ◌&&◌, List, [], ◌∷◌, Option, none, some, CString, inl, inr,
  Bool-cases, get_elem?, get_elem?-lt, length-set, set, stricmp_eq, ◌>>=◌, bind-some,
}
use denora.Bans.Queries.{StatsChannel}
use denora.Channels.{Chans, Config, World, erase, find_cs}
use denora.Channels.Handlers.{
  on_chans, names_of, first_name, count_part, part_entry, part_name, part_names, do_part_with,
  count_kick, kick_entry, kick_user, rejoined, kick_names, do_kick_with,
}
use denora.Channels.Store.{Live, findchan-Live, occurs}
use denora.Channels.Spec.{
  Membership, lower, remove, keys, names_at, view, each, parted_from, kicked, kicked_from, part_of,
  kick_of, on_chans_self,
}
use denora.Channels.View.{Names-refl, Names-trans, erased, find_entry-remove}
use denora.Channels.Steps.{keys-Ends, keys-IsSound, IsSound, Ends, on_channel-Live}
use denora.Channels.Joining.{Goes, Joins}
use denora.Channels.Emptying.{Deletes}
use denora.Channels.Agreeing.{Agree, Agree-trans, each-Agree, kicked_from-Agree}
use mathlib.Core.Path.{subst}

module _ (chans : ℕ → List ℕ) (s : Chans) (v : IsSound chans s) where
  -- The counts of a channel that is there are written.
  counted-Ends :
      (a : ℕ)
      → Live s.heap (some a)
      → (f : StatsChannel → StatsChannel)
      → Ends s.heap chans (
          s.heap a >>= λ c. get_elem? s.stats c.stats >>= λ st.
          some (record s { stats = set s.stats c.stats (f st) }))
  counted-Ends a (c, e) f =
      let (st, es) = get_elem?-lt s.stats c.stats (v.counts a c e) in
      rw (e, es) (_, refl, rw (length-set s.stats c.stats (f st)) v, Names-refl s.heap)

-- What a call of `denora_cmd_join` for the own client does.
abbrev pub Tells : Option ℕ → (World → CString → ℕ → Option World) → Type 0
Tells own cmd_join =
    (w : World)
    → IsSound w.chans w.store
    → (name : CString) (ts : ℕ) → Joins own (view w) (cmd_join w name ts)

-- The names of the channels when the user is not on that of this place any more.
abbrev gone : World → ℕ → Option ℕ → Membership
gone w u o = on_chans (view w) u (keys w.store.heap (erased o (w.chans u)))

module _ (list_find : (A : Type 0) → (A → Bool) → List A → Option ℕ) (cfg : Config) (now : ℕ)
    (adduser deluser : World → ℕ → ℕ → Option World) (deletes : Deletes deluser) where
  count_part-Ends :
      (chans : ℕ → List ℕ) (s : Chans)
      → IsSound chans s
      → (o : Option ℕ) → Live s.heap o
      → Ends s.heap chans (count_part list_find cfg now adduser deluser s o)
  count_part-Ends chans s v none live = (s, refl, v, Names-refl s.heap)
  count_part-Ends chans s v (some a) live = counted-Ends chans s v a live _

  count_kick-Ends :
      (chans : ℕ → List ℕ) (s : Chans)
      → IsSound chans s
      → (o : Option ℕ) → Live s.heap o
      → Ends s.heap chans (count_kick list_find cfg now adduser deluser s o)
  count_kick-Ends chans s v none live = (s, refl, v, Names-refl s.heap)
  count_kick-Ends chans s v (some a) live = counted-Ends chans s v a live _

  part_entry-Goes :
      (w : World)
      → IsSound w.chans w.store
      → (u : ℕ) (first : CString) (o : Option ℕ) → ((a : ℕ) → o ≡ some a → 0 < occurs a (w.chans u))
      → Goes (gone w u o) (part_entry list_find cfg now adduser deluser w u first o)
  unfolding part_entry
  part_entry-Goes w v u first none on = (w, refl, v, sym (on_chans_self (view w) u _ refl))
  part_entry-Goes w v u first (some a) on =
      let l = erase a (w.chans u) in
      let chans = on_chans w.chans u l in
      let (s, e, v', n) = deletes w.chans w v u a (on a refl) in
      let (o, f, live) = findchan-Live chans s v' first in
      let (s', k, v'', n') = count_part-Ends chans s v' o live in
      (
        _,
        bind-some _ e ∙ bind-some _ f ∙ bind-some _ k,
        v'',
        keys-Ends w.store.heap w.chans u l s' v'' (Names-trans w.store.heap s.heap s'.heap n n'),
      )

  part_name-Goes :
      (w : World)
      → IsSound w.chans w.store
      → (u : ℕ) (first name : CString)
      → Goes
          (parted_from u (view w) name)
          (part_name list_find cfg now adduser deluser w u first name)
  unfolding part_name parted_from
  part_name-Goes w v u first name =
      let (o, e, on, k) =
        find_entry-remove w.store name (w.chans u) (on_channel-Live w.chans w.store v u) in
      let (w', f, v', s) = part_entry-Goes w v u first o (λ a q. (on a q).0) in
      (w', bind-some _ e ∙ f, v', s ∙ ap (on_chans (view w) u) k)

  part_names-Goes :
      (w : World)
      → IsSound w.chans w.store
      → (u : ℕ) (first : CString) (names : List CString)
      → Goes
          (each (parted_from u) (view w) names)
          (part_names list_find cfg now adduser deluser w u first names)
  unfolding part_names
  part_names-Goes w v u first [] = (w, refl, v, refl)
  part_names-Goes w v u first (name ∷ names) =
      let (w', e, v', s) = part_name-Goes w v u first name in
      let (w'', f, v'', t) = part_names-Goes w' v' u first names in
      (w'', bind-some _ e ∙ f, v'', t ∙ ap (λ on. each (parted_from u) on names) s)

  pub do_part_with-Goes :
      (w : World)
      → IsSound w.chans w.store
      → (user : Option ℕ) (av : List CString)
      → Goes (part_of (view w) user av) (do_part_with list_find cfg now adduser deluser w user av)
  unfolding do_part_with part_of
  do_part_with-Goes w v user [] = (w, refl, v, refl)
  do_part_with-Goes w v none (names ∷ av) = (w, refl, v, refl)
  do_part_with-Goes w v (some u) (names ∷ av) =
      part_names-Goes w v u (first_name (names_of names)) (names_of names)

  kick_entry-Goes :
      (w : World)
      → IsSound w.chans w.store
      → (u : ℕ) (o : Option ℕ) → ((a : ℕ) → o ≡ some a → 0 < occurs a (w.chans u))
      → Goes (gone w u o) (kick_entry list_find cfg now adduser deluser w u o)
  unfolding kick_entry
  kick_entry-Goes w v u none on = (w, refl, v, sym (on_chans_self (view w) u _ refl))
  kick_entry-Goes w v u (some a) on =
      let l = erase a (w.chans u) in
      let (s, e, v', n) = deletes w.chans w v u a (on a refl) in
      (_, bind-some _ e, v', keys-Ends w.store.heap w.chans u l s v' n)

  module _ (cmd_join : World → CString → ℕ → Option World) (tells : Tells cfg.own cmd_join) where
    rejoined-Joins :
        (w : World)
        → IsSound w.chans w.store
        → (chan name : CString)
        → Joins cfg.own (view w) (rejoined list_find cfg now adduser deluser cmd_join w chan name)
    unfolding rejoined
    rejoined-Joins w v chan name =
        elim (Bool-cases (find_cs list_find cfg chan && stricmp_eq name cfg.statserv)) [
          | inl q ↦ rw q (tells w v chan now)
          | inr q ↦ rw q (w, refl, v, λ x n. refl)
        ]

    kick_user-Joins :
        (w : World)
        → IsSound w.chans w.store
        → (chan name : CString) (user : Option ℕ)
        → Joins cfg.own
            (kicked chan (view w) user)
            (kick_user list_find cfg now adduser deluser cmd_join w chan name user)
    unfolding kick_user kicked parted_from
    kick_user-Joins w v chan name none = (w, refl, v, λ x n. refl)
    kick_user-Joins w v chan name (some u) =
        let (o, e, live) = findchan-Live w.chans w.store v chan in
        let (s, f, v', n) = count_kick-Ends w.chans w.store v o live in
        let (o', k, on, r) =
          find_entry-remove s chan (w.chans u) (on_channel-Live w.chans s v' u) in
        let (w', j, v'', t) =
          kick_entry-Goes (record w { store = s }) v' u o' (λ a q. (on a q).0) in
        let (w'', i, v3, t') = rejoined-Joins w' v'' chan name in
        (
          w'',
          bind-some _ e ∙ bind-some _ f ∙ bind-some _ k ∙ bind-some _ j ∙ i,
          v3,
          subst (Agree cfg.own (view w''))
              (t
                ∙ ap (on_chans (names_at s.heap w.chans) u) r
                ∙ ap (λ on. on_chans on u (remove (lower chan) (on u)))
                    (keys-IsSound w.store.heap w.chans s v' n))
              t',
        )

    kick_names-Joins :
        (user_find : CString → Option ℕ) (w : World)
        → IsSound w.chans w.store
        → (chan : CString) (names : List CString)
        → Joins cfg.own
            (each (kicked_from user_find chan) (view w) names)
            (kick_names list_find cfg now adduser deluser cmd_join user_find w chan names)
    unfolding kick_names kicked_from kicked
    kick_names-Joins user_find w v chan [] = (w, refl, v, λ x n. refl)
    kick_names-Joins user_find w v chan (name ∷ names) =
        let (w', e, v', s) = kick_user-Joins w v chan name (user_find name) in
        let (w'', f, v'', t) = kick_names-Joins user_find w' v' chan names in
        (
          w'',
          bind-some _ e ∙ f,
          v'',
          Agree-trans cfg.own (view w'') (each (kicked_from user_find chan) (view w') names)
              (each (kicked_from user_find chan) (kicked chan (view w) (user_find name)) names) t
              (each-Agree cfg.own (kicked_from user_find chan)
                (kicked_from-Agree cfg.own user_find chan) (view w')
                (kicked chan (view w) (user_find name)) names s),
        )

    pub do_kick_with-Joins :
        (user_find : CString → Option ℕ) (w : World)
        → IsSound w.chans w.store
        → (chan nicks : CString)
        → Joins cfg.own
            (kick_of user_find (view w) chan nicks)
            (do_kick_with list_find cfg now adduser deluser cmd_join user_find w chan nicks)
    unfolding do_kick_with kick_of kicked_from
    do_kick_with-Joins user_find w v chan nicks =
        kick_names-Joins user_find w v chan (names_of nicks)
