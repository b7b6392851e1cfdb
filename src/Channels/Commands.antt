-- ===== src/Channels/Commands.antt =====
-- The handlers of src/channels.c with what they call for the own client, denora_cmd_join and
-- denora_cmd_part of src/ircd.c, which call do_join and do_part in their turn. That the own client
-- joins calls nothing more, since `chan_adduser2` sees its nick; when it parts a second part would
-- free the entry that the first one is at. So the calls go no deeper than one level, and a result
-- `none` stands below it. What the module of the protocol sends is noted; the modes of AutoMode are
-- left out.
use denora.Prelude.{
  ℕ, ◌++◌, Bool, true, not, List, [], ◌∷◌, Option, none, some, CString, ◌==◌, if◌then◌else◌,
}
use denora.Channels.{Config, World, adduser_with, deluser_with, Sent, joined, parted}
use denora.Channels.Handlers.{do_join_with, do_part_with, do_kick_with}

-- `BadChanName`
abbrev pub bad_chan_name : CString → Bool
bad_chan_name [] = true
bad_chan_name (c ∷ name) = not (c == b'#')

abbrev pub send_for_own : World → Sent → World
send_for_own w m = record w { store = record w.store { sent = w.store.sent ++ m ∷ [] } }

module _ (list_find : (A : Type 0) → (A → Bool) → List A → Option ℕ) (cfg : Config) (now : ℕ) where
  -- The own client is put on a channel, and taken off it.
  abbrev pub adduser_own : World → ℕ → ℕ → Option World
  unfolding adduser_with
  adduser_own = adduser_with list_find (λ w name ts. none) cfg now

  abbrev pub deluser_own : World → ℕ → ℕ → Option World
  unfolding deluser_with
  deluser_own = deluser_with list_find (λ w name. none) cfg

  unfoldable pub denora_cmd_join : World → CString → ℕ → Option World
  unfolding do_join_with adduser_own deluser_own
  denora_cmd_join w name ts =
      let w' = send_for_own w (joined name ts) in
      let run =
        do_join_with list_find cfg now adduser_own deluser_own (λ s. 0) w' cfg.own (name ∷ []) in
      if bad_chan_name name then some w else if cfg.db.large_net then some w' else run

  unfoldable pub denora_cmd_part : World → CString → Option World
  unfolding do_part_with adduser_own deluser_own
  denora_cmd_part w name =
      do_part_with list_find cfg now adduser_own deluser_own (send_for_own w (parted name)) cfg.own
        (name ∷ [])

  unfoldable pub chan_adduser2 : World → ℕ → ℕ → Option World
  unfolding adduser_with denora_cmd_join
  chan_adduser2 = adduser_with list_find denora_cmd_join cfg now

  unfoldable pub chan_deluser : World → ℕ → ℕ → Option World
  unfolding deluser_with denora_cmd_part
  chan_deluser = deluser_with list_find denora_cmd_part cfg

  unfoldable pub do_join : (CString → ℕ) → World → Option ℕ → List CString → Option World
  unfolding do_join_with chan_adduser2 chan_deluser
  do_join = do_join_with list_find cfg now chan_adduser2 chan_deluser

  unfoldable pub do_part : World → Option ℕ → List CString → Option World
  unfolding do_part_with chan_adduser2 chan_deluser
  do_part = do_part_with list_find cfg now chan_adduser2 chan_deluser

  -- The channel, and the nicks.
  unfoldable pub do_kick : (CString → Option ℕ) → World → CString → CString → Option World
  unfolding do_kick_with chan_adduser2 chan_deluser denora_cmd_join
  do_kick = do_kick_with list_find cfg now chan_adduser2 chan_deluser denora_cmd_join

  abbrev pub nick_or : CString → Option ℕ → CString
  nick_or uid none = uid
  nick_or uid (some u) = cfg.nick u

  -- A KICK by the uid.
  unfoldable pub do_p10_kick :
      (CString → Option ℕ) → (CString → Option ℕ) → World → List CString → Option World
  unfolding do_kick
  do_p10_kick find_byuid user_find w (chan ∷ uid ∷ reason ∷ []) =
      do_kick user_find w chan (nick_or uid (find_byuid uid))
  do_p10_kick find_byuid user_find w av = some w
