-- ===== src/Channels/Handlers.antt =====
-- The handlers of JOIN, PART and KICK, do_join_with, do_part_with, do_kick and do_p10_kick of
-- src/channels.c, with join_user_update. A user is what `user_find` gives for its name, a parameter
-- of do_kick, which these handlers do not change; strtoul is that of the C library. The names
-- behind each other in an argument are separated by commas, where the handler writes the terminator
-- of the one before.
use denora.Prelude.{
  ℕ, ◌+◌, ◌%◌, ◌^◌, Bool, List, [], ◌∷◌, ◌++◌, Option, none, some, CString, stricmp_eq, get_elem?,
  set, ◌==◌, ◌&&◌, if◌then◌else◌, ◌>>=◌,
}
use denora.Channels.{Chans, Config, World, findchan, erase, chan_create, find_cs}

-- The user `u` is on the channels of `l` now.
unfoldable pub on_chans {ℓ} : {A : Type ℓ} → (ℕ → List A) → ℕ → List A → ℕ → List A
on_chans chans u l v = if v == u then l else chans v

-- The names of a list with commas; behind the last comma no name begins when the string ends there.
abbrev keep : CString → List CString → List CString
keep [] names = []
keep (c ∷ s) names = names

unfoldable pub names_in : CString → CString → List CString
names_in name [] = name ∷ []
names_in name (c ∷ s) =
    let more = names_in (name ++ c ∷ []) s in
    let rest = names_in [] s in if c == b',' then name ∷ keep s rest else more

unfoldable pub names_of : CString → List CString
unfolding names_in
names_of [] = []
names_of (c ∷ s) = names_in [] (c ∷ s)

-- The name of the first channel: what is left of the argument behind the first round.
abbrev pub first_name : List CString → CString
first_name [] = []
first_name (name ∷ names) = name

-- The loop over the list of a user that looks for a name.
unfoldable pub find_entry : Chans → CString → List ℕ → Option (Option ℕ)
find_entry s name [] = some none
find_entry s name (a ∷ l) = do
  let rest = find_entry s name l
  c ← s.heap a
  if stricmp_eq name c.name then some (some a) else rest

module _ (list_find : (A : Type 0) → (A → Bool) → List A → Option ℕ) (cfg : Config) (now : ℕ)
    (adduser deluser : World → ℕ → ℕ → Option World) where
  unfoldable pub on_channel : ℕ → World → Option ℕ → Option World
  unfolding on_chans
  on_channel u w none = some w
  on_channel u w (some a) = adduser (record w { chans = on_chans w.chans u (a ∷ w.chans u) }) u a

  unfoldable pub created : ℕ → World → Option ℕ × Chans → Option World
  unfolding on_channel
  created u w (a, s) = on_channel u (record w { store = s }) a

  unfoldable pub join_user_update : World → ℕ → Option ℕ → CString → ℕ → Option World
  unfolding on_channel created chan_create
  join_user_update w u (some a) name ts = on_channel u w (some a)
  join_user_update w u none name ts = chan_create list_find cfg w.store name ts >>= created u w

  -- The loop of `do_join` at the name 0.
  unfoldable pub leave_all : World → ℕ → List ℕ → Option World
  leave_all w u [] = some w
  leave_all w u (a ∷ l) = do c ← w.store.heap a; w' ← deluser w u a; leave_all w' u l

  -- One name of a JOIN.
  unfoldable pub join_one : World → ℕ → ℕ → CString → Option World
  unfolding join_user_update findchan
  join_one w u ts name = do found ← findchan w.store (some name); join_user_update w u found name ts

  unfoldable pub leave_world : World → ℕ → Option World
  unfolding leave_all on_chans
  leave_world w u = do
    w' ← leave_all w u (w.chans u)
    some (record w' { chans = on_chans w'.chans u [] })

  unfoldable pub join_name : World → ℕ → ℕ → CString → Option World
  unfolding join_one leave_world
  join_name w u ts [] = join_one w u ts []
  join_name w u ts (c ∷ name) = if c == b'0' then leave_world w u else join_one w u ts (c ∷ name)

  unfoldable pub join_names : World → ℕ → ℕ → List CString → Option World
  unfolding join_name
  join_names w u ts [] = some w
  join_names w u ts (name ∷ names) = do w' ← join_name w u ts name; join_names w' u ts names

  -- The user is what `user_find` gives for the source, and `av` the arguments that are counted.
  unfoldable pub do_join_with : (CString → ℕ) → World → Option ℕ → List CString → Option World
  unfolding join_names names_of
  do_join_with strtoul w user [] = some w
  do_join_with strtoul w none (names ∷ av) = some w
  do_join_with strtoul w (some u) (names ∷ []) = join_names w u now (names_of names)
  do_join_with strtoul w (some u) (names ∷ ts ∷ []) = join_names w u (strtoul ts) (names_of names)
  do_join_with strtoul w (some u) (names ∷ ts ∷ t ∷ av) = join_names w u now (names_of names)

  -- One more part of a channel, if it is found.
  abbrev pub count_part : Chans → Option ℕ → Option Chans
  count_part s none = some s
  count_part s (some a) = do
    c ← s.heap a
    st ← get_elem? s.stats c.stats
    some (record s {
      stats =
          set s.stats c.stats
            (record st { partcount = (st.partcount + 1) % 2 ^ 32; partcounttime = now });
    })

  unfoldable pub part_entry : World → ℕ → CString → Option ℕ → Option World
  unfolding on_chans erase findchan count_part
  part_entry w u first none = some w
  part_entry w u first (some a) = do
    w' ← deluser w u a
    found ← findchan w'.store (some first)
    s ← count_part w'.store found
    some (record { store = s; chans = on_chans w'.chans u (erase a (w'.chans u)) })

  unfoldable pub part_name : World → ℕ → CString → CString → Option World
  unfolding part_entry find_entry
  part_name w u first name = find_entry w.store name (w.chans u) >>= part_entry w u first

  unfoldable pub part_names : World → ℕ → CString → List CString → Option World
  unfolding part_name
  part_names w u first [] = some w
  part_names w u first (name ∷ names) = do
    w' ← part_name w u first name
    part_names w' u first names

  unfoldable pub do_part_with : World → Option ℕ → List CString → Option World
  unfolding part_names names_of
  do_part_with w user [] = some w
  do_part_with w none (names ∷ av) = some w
  do_part_with w (some u) (names ∷ av) =
      part_names w u (first_name (names_of names)) (names_of names)

  abbrev pub count_kick : Chans → Option ℕ → Option Chans
  count_kick s none = some s
  count_kick s (some a) = do
    c ← s.heap a
    st ← get_elem? s.stats c.stats
    some (record s {
      stats =
          set s.stats c.stats
            (record st { kickcount = (st.kickcount + 1) % 2 ^ 32; kickcounttime = now });
    })

  unfoldable pub kick_entry : World → ℕ → Option ℕ → Option World
  unfolding on_chans erase
  kick_entry w u none = some w
  kick_entry w u (some a) = do
    w' ← deluser w u a
    some (record w' { chans = on_chans w'.chans u (erase a (w'.chans u)) })

  -- The own client joins again when it is the one that was kicked; `cmd_join` is the call of
  -- `denora_cmd_join` for it.
  unfoldable pub rejoined :
      (World → CString → ℕ → Option World) → World → CString → CString → Option World
  unfolding find_cs
  rejoined cmd_join w chan name =
      let told = cmd_join w chan now in
      if find_cs list_find cfg chan && stricmp_eq name cfg.statserv then told else some w

  unfoldable pub kick_user :
      (World → CString → ℕ → Option World) → World → CString → CString → Option ℕ → Option World
  unfolding kick_entry find_entry findchan count_kick rejoined
  kick_user cmd_join w chan name none = some w
  kick_user cmd_join w chan name (some u) = do
    found ← findchan w.store (some chan)
    s ← count_kick w.store found
    entry ← find_entry s chan (w.chans u)
    w' ← kick_entry (record w { store = s }) u entry
    rejoined cmd_join w' chan name

  unfoldable pub kick_names :
      (World → CString → ℕ → Option World)
      → (CString → Option ℕ)
      → World
      → CString
      → List CString
      → Option World
  unfolding kick_user
  kick_names cmd_join user_find w chan [] = some w
  kick_names cmd_join user_find w chan (name ∷ names) = do
    w' ← kick_user cmd_join w chan name (user_find name)
    kick_names cmd_join user_find w' chan names

  -- The channel, and the nicks.
  unfoldable pub do_kick_with :
      (World → CString → ℕ → Option World)
      → (CString → Option ℕ)
      → World
      → CString
      → CString
      → Option World
  unfolding kick_names names_of
  do_kick_with cmd_join user_find w chan nicks =
      kick_names cmd_join user_find w chan (names_of nicks)
