-- ===== src/Channels.antt =====
-- The channels and who is on them, src/channels.c: findchan, chan_create, chan_delete,
-- chan_adduser2, chan_deluser, join_user_update, and the handlers do_join, do_part and do_kick. A
-- channel, a user and the counts of a channel stand at addresses, numbers. `heap` has the channels,
-- none where no channel stands any more; the counts are never freed, and their address is their
-- place in the list of them. A result `none` is an access to a channel that is freed, or outside of
-- an array. Events, SQL queries and the maximum of channels are left out, and of what a list of
-- channels of a user holds, the status.
pub mod Agreeing
pub mod Changes
pub mod Emptying
mod Examples
pub mod Handlers
pub mod Commands
pub mod Creating
pub mod Joining
pub mod Leaving
pub mod Steps
pub mod Naming
pub mod Promise
pub mod Runs
pub mod Spec
pub mod Store
pub mod Topic
pub mod View
use denora.Prelude.{
  ℕ, zero, suc, ◌+◌, ◌-◌, ◌*◌, ◌%◌, ◌^◌, Bool, true, false, not, ◌&&◌, ◌||◌, List, [], ◌∷◌, ◌++◌,
  Option, none, some, CString, stricmp_eq, get_elem?, set, take, length, is_nil, ltb, ◌==◌,
  if◌then◌else◌, ◌>>=◌,
}
use denora.Bans.Masks.{Pointer, MaskArray}
use denora.Bans.Queries.{Sql, Channel, StatsChannel, rdb_escape}
use denora.Modes.Values.{chan_has_mode}

-- What is sent for the own client.
pub data Sent : Type 0 where
  parted : CString → Sent
  joined : CString → ℕ → Sent

pub record Chans : Type 0 where
  pub chanlist : List (List ℕ)
  pub heap : ℕ → Option Channel
  pub free : ℕ
  pub stats : List StatsChannel
  pub chans : ℕ
  pub sent : List Sent

-- The channels, and for every user the list of those that it is on.
pub record World : Type 0 where
  pub store : Chans
  pub chans : ℕ → List ℕ

-- The configuration, the names of the channels of the channel statistics, the nicks of the users,
-- and the user that is the own client, `user_find (s_StatServ)`, which these functions do not
-- change.
pub record Config : Type 0 where
  pub db : Sql
  pub cmodes : List ℕ
  pub persist_char : ℕ
  pub part_on_empty : Bool
  pub qmsg : Bool
  pub cstats : List CString
  pub statserv : CString
  pub nick : ℕ → CString
  pub own : Option ℕ

abbrev pub chanmax : ℕ
chanmax = 64

-- `strlcpy (c->name, chan, sizeof (c->name))`
abbrev pub cut_name : CString → CString
cut_name name = take (chanmax - 1) name

-- `HASH`; behind an empty name in its array stands another zero.
unfoldable pub chan_hash : CString → ℕ
chan_hash [] = 0
chan_hash (c ∷ []) = 0
chan_hash (c ∷ d ∷ []) = d % 2 ^ 5 * 2 ^ 5
chan_hash (c ∷ d ∷ e ∷ s) = d % 2 ^ 5 * 2 ^ 5 + e % 2 ^ 5

-- The place `a` of the memory holds `c` now.
unfoldable pub write : (ℕ → Option Channel) → ℕ → Option Channel → ℕ → Option Channel
write heap a c b = if b == a then c else heap b

-- The loop of `findchan`.
unfoldable pub find_chain : (ℕ → Option Channel) → CString → List ℕ → Option (Option ℕ)
find_chain heap name [] = some none
find_chain heap name (a ∷ b) = do
  let rest = find_chain heap name b
  c ← heap a
  if stricmp_eq c.name name then some (some a) else rest

unfoldable pub findchan : Chans → Pointer → Option (Option ℕ)
unfolding find_chain chan_hash
findchan s none = some none
findchan s (some []) = some none
findchan s (some (c ∷ name)) =
    get_elem? s.chanlist (chan_hash (c ∷ name)) >>= find_chain s.heap (c ∷ name)

-- `free` or an unlink, by the address.
unfoldable pub erase : ℕ → List ℕ → List ℕ
erase a [] = []
erase a (x ∷ xs) = let rest = erase a xs in if x == a then xs else x ∷ rest

abbrev is_some : Option ℕ → Bool
is_some none = false
is_some (some i) = true

abbrev pub new_stats : CString → StatsChannel
new_stats chan = record {
  name = cut_name chan;
  usercount = 0;
  maxusercount = 0;
  maxusertime = 0;
  in_use = false;
  joincounter = 0;
  joincounttime = 0;
  partcount = 0;
  partcounttime = 0;
  kickcount = 0;
  kickcounttime = 0;
  modecount = 0;
  modecounttime = 0;
  topic_count = 0;
  topiccounttime = 0;
  secret = false;
  private = false;
}

abbrev no_masks : MaskArray
no_masks = record { count = 0; size = 0; slots = [] }

abbrev pub new_channel : Config → CString → ℕ → ℕ → Channel
unfolding rdb_escape
new_channel cfg chan ts stats = record {
  name = cut_name chan;
  sqlchan = if cfg.db.do_sql then rdb_escape cfg.db (some chan) else chan;
  bans = no_masks;
  excepts = no_masks;
  invite = no_masks;
  quiet = no_masks;
  limit = 0;
  rejoinlock = 0;
  nickchgflood = none;
  key = none;
  redirect = none;
  flood = none;
  flood_alt = none;
  modes = [];
  creation_time = ts;
  topic = none;
  topic_setter = [];
  topic_time = 0;
  users = [];
  stats = stats;
  statservon = false;
}

-- The new channel in front of its bucket.
abbrev pub link_channel : Chans → Channel → List ℕ → StatsChannel → Option (Option ℕ × Chans)
unfolding write chan_hash
link_channel s c b st = some (
  some s.free,
  record s {
    chanlist = set s.chanlist (chan_hash c.name) (s.free ∷ b);
    heap = write s.heap s.free (some c);
    free = s.free + 1;
    stats = set s.stats c.stats (record st { in_use = true });
    chans = s.chans + 1;
  },
)

unfoldable pub chan_delete : Chans → ℕ → Option Chans
unfolding write erase chan_hash
chan_delete s a = do
  c ← s.heap a
  st ← get_elem? s.stats c.stats
  b ← get_elem? s.chanlist (chan_hash c.name)
  some (record s {
    chanlist = set s.chanlist (chan_hash c.name) (erase a b);
    heap = write s.heap a none;
    stats = set s.stats c.stats (record st { in_use = false });
    chans = s.chans - 1;
  })

-- The counts behind a join.
abbrev pub joined_stats : ℕ → StatsChannel → StatsChannel
joined_stats now st =
    let count = (st.usercount + 1) % 2 ^ 16 in
    let time = if st.maxusertime == 0 then now else st.maxusertime in
    let grown = ltb st.maxusercount count in
    record st {
      usercount = count;
      maxusercount = if grown then (st.maxusercount + 1) % 2 ^ 16 else st.maxusercount;
      maxusertime = if grown then now else time;
      joincounter = (st.joincounter + 1) % 2 ^ 32;
      joincounttime = now;
    }

-- `ChanHasMode` of a name.
abbrev pub name_has_mode : Config → Chans → Option ℕ → ℕ → Option Bool
unfolding chan_has_mode
name_has_mode cfg s none m = chan_has_mode cfg.cmodes none m
name_has_mode cfg s (some a) m = do c ← s.heap a; chan_has_mode cfg.cmodes (some c) m

abbrev pub delete_empty : Config → Chans → ℕ → Channel → Option Chans
unfolding findchan name_has_mode chan_delete
delete_empty cfg s a c = do
  found ← findchan s (some c.name)
  kept ← name_has_mode cfg s found cfg.persist_char
  let deleted = chan_delete s a
  if kept then some s else deleted

abbrev pub mem : ℕ → List ℕ → Bool
mem u [] = false
mem u (x ∷ xs) = let rest = mem u xs in x == u || rest

abbrev pub or_appended : Chans → CString → Option ℕ → Chans × ℕ
or_appended s chan (some i) = (s, i)
or_appended s chan none = (record s { stats = s.stats ++ new_stats chan ∷ [] }, length s.stats)

-- Whether a user is the own client.
abbrev pub same_user : Option ℕ → ℕ → Bool
same_user none user = false
same_user (some own) user = own == user

-- `list_find` of the list library: the place of the first entry that the test accepts.
module _ (list_find : (A : Type 0) → (A → Bool) → List A → Option ℕ) where
  unfoldable pub find_cs : Config → CString → Bool
  find_cs cfg mask = is_some (list_find CString (λ x. stricmp_eq x mask) cfg.cstats)

  unfoldable pub findstatschan : Chans → CString → Option ℕ
  findstatschan s [] = none
  findstatschan s (c ∷ chan) = list_find StatsChannel (λ x. stricmp_eq x.name (c ∷ chan)) s.stats

  unfoldable pub statschan_create : Chans → CString → Chans × ℕ
  statschan_create s chan =
      or_appended s chan (list_find StatsChannel (λ x. stricmp_eq x.name chan) s.stats)

  abbrev pub or_created : Chans → CString → Option ℕ → Chans × ℕ
  unfolding statschan_create
  or_created s chan (some i) = (s, i)
  or_created s chan none = statschan_create s chan

  unfoldable pub chan_create : Config → Chans → CString → ℕ → Option (Option ℕ × Chans)
  unfolding link_channel or_created findstatschan chan_hash new_channel
  chan_create cfg s [] ts = some (none, s)
  chan_create cfg s (x ∷ chan) ts = do
    b ← get_elem? s.chanlist (chan_hash (cut_name (x ∷ chan)))
    let (s', i) = or_created s (x ∷ chan) (findstatschan s (cut_name (x ∷ chan)))
    st ← get_elem? s'.stats i
    link_channel s' (new_channel cfg (x ∷ chan) ts i) b st

  -- `chan_adduser2` up to the call of `denora_cmd_join`.
  unfoldable pub enrol : Config → ℕ → Chans → ℕ → ℕ → Option Chans
  unfolding write joined_stats
  enrol cfg now s user a = do
    c ← s.heap a
    st ← get_elem? s.stats c.stats
    let on = stricmp_eq (cfg.nick user) cfg.statserv || c.statservon
    some (record s {
      heap = write s.heap a (some (record c { users = user ∷ c.users; statservon = on }));
      stats = set s.stats c.stats (joined_stats now st);
    })

  -- `chan_adduser2`, where `cmd_join` is the call of `denora_cmd_join` for the own client.
  unfoldable pub adduser_with :
      (World → CString → ℕ → Option World) → Config → ℕ → World → ℕ → ℕ → Option World
  unfolding enrol find_cs
  adduser_with cmd_join cfg now w user a = do
    s ← enrol cfg now w.store user a
    c ← s.heap a
    let told = cmd_join (record w { store = s }) c.name c.creation_time
    if find_cs cfg c.name && not c.statservon then told else some (record w { store = s })

  -- The own client parts from a channel on which it seems to be left alone. It may be freed by
  -- that. When it is the own client that leaves, the entry that the caller is at is freed.
  unfoldable pub part_own :
      (World → CString → Option World) → Config → World → ℕ → ℕ → CString → Option World
  unfolding write
  part_own cmd_part cfg w user a name = do
    let parted = cmd_part w name
    w' ← if same_user cfg.own user then none else parted
    c ← w'.store.heap a
    some (record w' {
      store = record w'.store {
        heap = write w'.store.heap a (some (record c { statservon = false }));
      };
    })

  -- The channels without one that has no user any more.
  unfoldable pub when_empty : Config → Chans → ℕ → Channel → Option Chans
  unfolding delete_empty
  when_empty cfg s a c =
      let emptied = delete_empty cfg s a c in if is_nil c.users then emptied else some s

  -- What `chan_deluser` does with a channel that the user has left, when it has `count` users.
  unfoldable pub left :
      (World → CString → Option World) → Config → World → ℕ → ℕ → Channel → ℕ → Option World
  unfolding find_cs part_own when_empty
  left cmd_part cfg w user a c count =
      let parted = part_own cmd_part cfg w user a c.name in
      let emptied = when_empty cfg w.store a c >>= λ s. some (record w { store = s }) in
      if (count == 1 && find_cs cfg c.name) && (cfg.part_on_empty && not cfg.qmsg)
      then parted
      else emptied

  -- The channel `c` is that of the place `a`, without the user that leaves.
  unfoldable pub without_user :
      (World → CString → Option World) → Config → World → ℕ → ℕ → Channel → Option World
  unfolding left write
  without_user cmd_part cfg w user a c = do
    st ← get_elem? w.store.stats c.stats
    let count = (st.usercount + (2 ^ 16 - 1)) % 2 ^ 16
    let s = record w.store {
      heap = write w.store.heap a (some c);
      stats = set w.store.stats c.stats (record st { usercount = count });
    }
    left cmd_part cfg (record w { store = s }) user a c count

  -- `chan_deluser`, where `cmd_part` is the call of `denora_cmd_part` for the own client.
  unfoldable pub deluser_with :
      (World → CString → Option World) → Config → World → ℕ → ℕ → Option World
  unfolding without_user erase
  deluser_with cmd_part cfg w user a = do
    c ← w.store.heap a
    let gone = without_user cmd_part cfg w user a (record c { users = erase user c.users })
    if mem user c.users then gone else some w
