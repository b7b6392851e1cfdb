-- ===== src/Users/Quit.antt =====
-- The removal of a user, delete_user of src/users.c: it leaves its channels, which src/channels.c
-- keeps, and the store of the users. A user of that store is the one of its address in the other.
-- The counts of the users on a server, of operators, countries and clients are left out, as are the
-- modes and the uid.
use denora.Prelude.{
  ℕ, ◌<◌, ◌≡◌, refl, ◌∙◌, Bool, List, [], ◌∷◌, ◌++◌, Option, none, some, CString, arith, length,
  length-set, get_elem?, set, stricmp_eq, if◌then◌else◌, ◌>>=◌, bind-some,
}
use denora.Bans.Queries.{Channel}
use denora.Channels.{Config, World}
use denora.Channels.Commands.{chan_deluser}
use denora.Channels.Emptying.{loop-Leaves}
use denora.Channels.Handlers.{on_chans}
use denora.Channels.Joining.{Goes}
use denora.Channels.Promise.{IsConfigured, chan_deluser-Deletes}
use denora.Channels.Spec.{view}
use denora.Channels.Steps.{IsSound, keys-Ends}
use denora.Users.{User, UserList, user_hash, unlink_at, find_nick, finduser}
use denora.Users.Renaming.{AllElsewhere, unlink-append, user_hash_lt, finduser-unlinked}

module _ (list_find : (A : Type 0) → (A → Bool) → List A → Option ℕ) (cfg : Config) (now : ℕ) where
  -- The loop over the channels, which leaves the last one behind it.
  unfoldable pub quit_all : World → ℕ → List ℕ → Option World
  unfolding chan_deluser
  quit_all w u [] = some w
  quit_all w u (a ∷ []) = chan_deluser list_find cfg now w u a
  quit_all w u (a ∷ b ∷ l) = do w' ← chan_deluser list_find cfg now w u a; quit_all w' u (b ∷ l)

  unfoldable pub quit_world : World → ℕ → Option World
  unfolding quit_all on_chans
  quit_world w u = do
    w' ← quit_all w u (w.chans u)
    some (record w' { chans = on_chans w'.chans u [] })

  unfoldable pub delete_user : UserList → World → Option User → Option (UserList × World)
  unfolding quit_world unlink_at user_hash
  delete_user t w none = some (t, w)
  delete_user t w (some u) = do
    w' ← quit_world w u.at
    t' ← unlink_at t (user_hash u.nick) u.at (get_elem? t (user_hash u.nick))
    some (t', w')

  quit_all-nil : (w : World) (u : ℕ) → quit_all w u [] ≡ some w
  unfolding quit_all
  quit_all-nil w u = refl

  quit_all-cons :
      (w : World) (u : ℕ) (l : List ℕ) (a : ℕ) (c : Channel) (w' : World)
      → w.store.heap a ≡ some c
      → chan_deluser list_find cfg now w u a ≡ some w'
      → quit_all w u (a ∷ l) ≡ quit_all w' u l
  unfolding quit_all
  quit_all-cons w u [] a c w' e e' = e'
  quit_all-cons w u (b ∷ l) a c w' e e' = bind-some _ e'

module _ (list_find : (A : Type 0) → (A → Bool) → List A → Option ℕ) (cfg : Config) (now : ℕ)
    (ok : IsConfigured list_find cfg) where
  pub quit_world-Goes :
      (w : World)
      → IsSound w.chans w.store
      → (u : ℕ) → Goes (on_chans (view w) u []) (quit_world list_find cfg now w u)
  unfolding quit_world
  quit_world-Goes w v u =
      let (s, e, v', names) =
        loop-Leaves (chan_deluser list_find cfg now) (chan_deluser-Deletes list_find cfg now ok)
          (quit_all list_find cfg now) (quit_all-nil list_find cfg now)
          (quit_all-cons list_find cfg now) w.chans w u (w.chans u) refl v in
      (_, bind-some _ e, v', keys-Ends w.store.heap w.chans u [] s v' names)

  -- Let the store of the channels be sound, let the array of the users have all of its buckets, and
  -- let the bucket of the nick of `u` hold `u` between `p` and `q`, and none of `p` at its address.
  -- Then `delete_user` does not fault; the user is on no channel any more, every other is on those
  -- that it was on, and the store of the channels is sound; and `finduser` of any nick that is not
  -- empty finds, if it is that of the user up to case, the first of the nick in `p` and `q`, and
  -- else what it found before. This holds with what IsConfigured says: `list_find` finds entries,
  -- the table of the flags has a place for every character, the own client has its nick, and it
  -- does not part from a channel that is left empty.
  pub delete_user-finduser :
      (w : World)
      → IsSound w.chans w.store
      → (t : UserList) (u : User) (p q : List User) (d : ℕ) (r : CString) → length t ≡ 1024
      → get_elem? t (user_hash u.nick) ≡ some (p ++ u ∷ q)
      → AllElsewhere u.at p
      → (t' : UserList) × (w' : World) × (delete_user list_find cfg now t w (some u)
          ≡ some (t', w'))
        × IsSound w'.chans w'.store
        × (view w' ≡ on_chans (view w) u.at [])
        × (length t' ≡ 1024)
        × (finduser t' (some (d ∷ r)) ≡ (
            if stricmp_eq u.nick (d ∷ r)
            then some (find_nick (d ∷ r) (p ++ q))
            else finduser t (some (d ∷ r))))
  unfolding delete_user finduser unlink_at
  delete_user-finduser w v t u p q d r all e away =
      let (w', k, v', s) = quit_world-Goes w v u.at in
      let lt : user_hash u.nick < length t = omega (arith, all, user_hash_lt u.nick) in
      let t' = set t (user_hash u.nick) (p ++ q) in
      (
        t',
        w',
        bind-some _ k ∙ rw (e, unlink-append u p q away) refl,
        v',
        s,
        length-set t (user_hash u.nick) (p ++ q) ∙ all,
        finduser-unlinked t u p q d r (stricmp_eq u.nick (d ∷ r)) refl lt e,
      )
