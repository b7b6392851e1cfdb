-- ===== src/Channels/Promise.antt =====
-- The handlers of JOIN, PART and KICK of src/channels.c, with what they call for the own client, do
-- what Channels/Spec says.
use denora.Prelude.{
  ℕ, ◌<◌, ◌≡◌, refl, ap, ◌∙◌, Bool, true, false, not, ◌&&◌, ◌||◌, List, [], ◌∷◌, Option, none, some,
  CString, ◌⊎◌, inl, inr, Bool-cases, length, stricmp_eq, bind-some, if◌then◌else◌,
}
use mathlib.Core.Path.{subst}
use denora.Bans.Queries.{Channel}
use denora.Channels.{Config, World, adduser_with, deluser_with, find_cs, joined}
use denora.Channels.Agreeing.{Agree, Agree-trans, joined_to-own}
use denora.Channels.Commands.{
  bad_chan_name, send_for_own, adduser_own, deluser_own, denora_cmd_join, denora_cmd_part,
  chan_adduser2, chan_deluser, do_join, do_part, do_kick, do_p10_kick, nick_or,
}
use denora.Channels.Creating.{Finds, enrol-Ends}
use denora.Channels.Emptying.{Deletes}
use denora.Channels.Handlers.{on_chans, on_channel, do_join_with, names_of}
use denora.Channels.Joining.{Goes, Joins, Adds, do_join_with-Joins}
use denora.Channels.Leaving.{Tells, do_part_with-Goes, do_kick_with-Joins}
use denora.Channels.Spec.{view, lower, name_at, join_of, part_of, kick_of, p10_kick_of}
use denora.Channels.Steps.{IsSound, keys-Ends, deluser_with-Leaves, and_false}

-- What the handlers rely on: `list_find` finds entries, the table of the flags has a place for
-- every character, and the own client is found under its nick. And the configuration does not let
-- the own client part from a channel that is left empty, or the program is about to end; elsewhere
-- the handlers may write to a channel that is freed.
pub record IsConfigured (list_find : (A : Type 0) → (A → Bool) → List A → Option ℕ) (cfg : Config)
    : Type 1 where
  pub found : Finds list_find
  pub all_flags : length cfg.cmodes ≡ 128
  pub persist : cfg.persist_char < 128
  pub own_nick : (o : ℕ) → cfg.own ≡ some o → stricmp_eq (cfg.nick o) cfg.statserv ≡ true
  pub stays :
      (name : CString) → (find_cs list_find cfg name && (cfg.part_on_empty && not cfg.qmsg)) ≡ false

module _ (list_find : (A : Type 0) → (A → Bool) → List A → Option ℕ) (cfg : Config) (now : ℕ)
    (ok : IsConfigured list_find cfg) where
  deluser_with-Deletes :
      (cmd_part : World → CString → Option World) → Deletes (deluser_with list_find cmd_part cfg)
  deluser_with-Deletes cmd_part =
      deluser_with-Leaves list_find cfg ok.all_flags ok.persist cmd_part ok.stays

  after_enrol :
      (cmd_join : World → CString → ℕ → Option World) (w : World)
      → IsSound w.chans w.store
      → (u : ℕ) (c : Channel) (own_client before : Bool) → c.statservon ≡ (own_client || before)
      → (own_client ≡ true) ⊎ Tells cfg.own cmd_join
      → Joins cfg.own (view w) (
          if find_cs list_find cfg c.name && not c.statservon
          then cmd_join w c.name c.creation_time
          else some w)
  after_enrol cmd_join w v u c own_client before on (inl n) =
      let off : c.statservon ≡ true = on ∙ rw n refl in
      rw (off, and_false (find_cs list_find cfg c.name)) (w, refl, v, λ x n. refl)
  after_enrol cmd_join w v u c own_client before on (inr tells) =
      elim (Bool-cases (find_cs list_find cfg c.name && not c.statservon)) [
        | inl q ↦ rw q (tells w v c.name c.creation_time)
        | inr q ↦ rw q (w, refl, v, λ x n. refl)
      ]

  -- The call for the own client is not made for a user that is it, or does what it should.
  adduser_with-Adds :
      (cmd_join : World → CString → ℕ → Option World) (deluser : World → ℕ → ℕ → Option World)
      (u : ℕ)
      → (stricmp_eq (cfg.nick u) cfg.statserv ≡ true) ⊎ Tells cfg.own cmd_join
      → Adds list_find cfg now (adduser_with list_find cmd_join cfg now) deluser u
  unfolding on_channel adduser_with
  adduser_with-Adds cmd_join deluser u told w v a c e =
      let (s, k, v', names, (c', e', on)) =
        enrol-Ends list_find cfg now w.chans w.store v u a c e in
      let lists = on_chans w.chans u (a ∷ w.chans u) in
      let w₁ : World = record { store = s; chans = lists } in
      let same : view w₁ ≡ on_chans (view w) u (lower c.name ∷ view w u) =
        keys-Ends w.store.heap w.chans u (a ∷ w.chans u) s v' names
        ∙ ap (λ o. on_chans (view w) u (name_at o ∷ view w u)) e in
      let (w', f, v'', agree) =
        after_enrol cmd_join w₁ v' u c' (stricmp_eq (cfg.nick u) cfg.statserv) c.statservon on
          told in
      (w', bind-some _ k ∙ bind-some _ e' ∙ f, v'', subst (Agree cfg.own (view w')) same agree)

  -- The own client joins nothing more, and for another user it is put on the channel.
  cmd_join_run :
      (w : World)
      → IsSound w.chans w.store
      → (name : CString) (own : Option ℕ) → cfg.own ≡ own
      → Joins cfg.own (view w) (
          do_join_with list_find cfg now
            (adduser_own list_find cfg now)
            (deluser_own list_find cfg now)
            (λ s. 0)
            w
            own
            (name ∷ []))
  unfolding do_join_with deluser_with adduser_with join_of
  cmd_join_run w v name none e = (w, refl, v, λ x n. refl)
  cmd_join_run w v name (some o) e =
      let (w', k, v', agree) =
        do_join_with-Joins list_find ok.found cfg now (adduser_own list_find cfg now)
          (deluser_own list_find cfg now) (deluser_with-Deletes (λ w name. none)) o
          (adduser_with-Adds (λ w name ts. none) (deluser_own list_find cfg now) o
            (inl (ok.own_nick o e)))
          (λ s. 0) w v (name ∷ []) in
      (
        w',
        k,
        v',
        Agree-trans cfg.own (view w') _ (view w) agree
            (rw e (joined_to-own o (view w) (names_of name))),
      )

  denora_cmd_join-Tells : Tells cfg.own (denora_cmd_join list_find cfg now)
  unfolding denora_cmd_join
  denora_cmd_join-Tells w v name ts =
      let (w', k, v', agree) = cmd_join_run (send_for_own w (joined name ts)) v name cfg.own refl in
      elim (Bool-cases (bad_chan_name name)) [
        | inl q ↦ rw q (w, refl, v, λ x n. refl)
        | inr q ↦ elim (Bool-cases cfg.db.large_net) [
          | inl r ↦ rw (q, r) (send_for_own w (joined name ts), refl, v, λ x n. refl)
          | inr r ↦ rw (q, r) (w', k, v', agree)
        ]
      ]

  -- In a store that is sound, `do_join` does not fault, leaves a store that is sound, and puts the
  -- user on the channels that are named, one after the other: a name that begins with 0 takes it
  -- off all channels, of a long name as much counts as an array of 64 bytes holds, and no other
  -- user is moved but the own client, of which nothing is said. This holds with what IsConfigured
  -- says: `list_find` finds entries, the table of the flags has a place for every character, the
  -- own client has its nick, and it does not part from a channel that is left empty.
  pub do_join-Joins :
      (strtoul : CString → ℕ) (w : World)
      → IsSound w.chans w.store
      → (user : Option ℕ) (av : List CString)
      → Joins cfg.own (join_of (view w) user av) (do_join list_find cfg now strtoul w user av)
  unfolding do_join chan_adduser2 chan_deluser join_of
  do_join-Joins strtoul w v none [] = (w, refl, v, λ x n. refl)
  do_join-Joins strtoul w v none (names ∷ av) = (w, refl, v, λ x n. refl)
  do_join-Joins strtoul w v (some u) av =
      do_join_with-Joins list_find ok.found cfg now (chan_adduser2 list_find cfg now)
        (chan_deluser list_find cfg now) (deluser_with-Deletes (denora_cmd_part list_find cfg now))
        u
        (adduser_with-Adds (denora_cmd_join list_find cfg now) (chan_deluser list_find cfg now) u
          (inr denora_cmd_join-Tells))
        strtoul w v av

  -- In a store that is sound, `do_part` does not fault, leaves a store that is sound, and takes the
  -- user off the channels that are named, one after the other: off the one that it joined last, if
  -- it is on several of a name, and no other user is moved, though channels without users are
  -- freed. This holds with what IsConfigured says: `list_find` finds entries, the table of the
  -- flags has a place for every character, the own client has its nick, and it does not part from a
  -- channel that is left empty.
  pub do_part-Goes :
      (w : World)
      → IsSound w.chans w.store
      → (user : Option ℕ) (av : List CString)
      → Goes (part_of (view w) user av) (do_part list_find cfg now w user av)
  unfolding do_part chan_deluser
  do_part-Goes w v user av =
      do_part_with-Goes list_find cfg now (chan_adduser2 list_find cfg now)
        (chan_deluser list_find cfg now) (deluser_with-Deletes (denora_cmd_part list_find cfg now))
        w v user av

  -- In a store that is sound, `do_kick` does not fault, leaves a store that is sound, and takes
  -- each user that has one of the nicks off the channel as a PART does; no other user is moved but
  -- the own client, of which nothing is said. This holds with what IsConfigured says: `list_find`
  -- finds entries, the table of the flags has a place for every character, the own client has its
  -- nick, and it does not part from a channel that is left empty.
  pub do_kick-Joins :
      (user_find : CString → Option ℕ) (w : World)
      → IsSound w.chans w.store
      → (chan nicks : CString)
      → Joins cfg.own
          (kick_of user_find (view w) chan nicks)
          (do_kick list_find cfg now user_find w chan nicks)
  unfolding do_kick chan_deluser
  do_kick-Joins user_find w v chan nicks =
      do_kick_with-Joins list_find cfg now (chan_adduser2 list_find cfg now)
        (chan_deluser list_find cfg now) (deluser_with-Deletes (denora_cmd_part list_find cfg now))
        (denora_cmd_join list_find cfg now) denora_cmd_join-Tells user_find w v chan nicks

  pub do_p10_kick-Joins :
      (find_byuid user_find : CString → Option ℕ) (w : World)
      → IsSound w.chans w.store
      → (av : List CString)
      → Joins cfg.own
          (p10_kick_of
            (λ uid. nick_or list_find cfg now uid (find_byuid uid))
            user_find
            (view w)
            av)
          (do_p10_kick list_find cfg now find_byuid user_find w av)
  unfolding do_p10_kick p10_kick_of
  do_p10_kick-Joins find_byuid user_find w v (chan ∷ uid ∷ reason ∷ []) =
      do_kick-Joins user_find w v chan (nick_or list_find cfg now uid (find_byuid uid))
  do_p10_kick-Joins find_byuid user_find w v [] = (w, refl, v, λ x n. refl)
  do_p10_kick-Joins find_byuid user_find w v (chan ∷ []) = (w, refl, v, λ x n. refl)
  do_p10_kick-Joins find_byuid user_find w v (chan ∷ uid ∷ []) = (w, refl, v, λ x n. refl)
  do_p10_kick-Joins find_byuid user_find w v (chan ∷ uid ∷ reason ∷ more ∷ av) =
      (w, refl, v, λ x n. refl)

  pub chan_deluser-Deletes : Deletes (chan_deluser list_find cfg now)
  unfolding chan_deluser
  chan_deluser-Deletes = deluser_with-Deletes (denora_cmd_part list_find cfg now)
