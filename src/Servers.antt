-- ===== src/Servers.antt =====
-- The servers of the network, src/servers.c: the introduction of a server, `do_server` with
-- `make_server`, and the lookups `findserver`, `findserver_uid` and `server_find`. A server stands
-- in the memory at an address, a number, by which others point to it. The counts of servers,
-- countries, the messages that an introduction sends and its queries are left out.
pub mod Lookup
pub mod Linking
pub mod Pointers
pub mod Introduction
pub mod Cursor
mod Examples
use denora.Prelude.{
  ℕ, ◌+◌, ◌%◌, ◌^◌, Bool, true, false, ◌&&◌, List, [], ◌∷◌, ◌++◌, Option, none, some, CString,
  str_eq, stricmp_eq, ◌==◌, if◌then◌else◌,
}
use denora.Bans.Masks.{Pointer}
use denora.Modes.Values.{copied}
use denora.Base64.{base64_to_int}
use denora.Tokens.{num_token}

pub record Server : Type 0 where
  pub at : ℕ
  pub name : CString
  pub desc : Pointer
  pub suid : Pointer
  pub hops : ℕ
  pub slinks : List CString

-- A list of servers, as the pointer to its head: a server, its `links` and its `next`.
pub data ServerList : Type 0 where
  no_server : ServerList
  server : Server → ServerList → ServerList → ServerList

abbrev pub address : ServerList → Option ℕ
address no_server = none
address (server s links next) = some s.at

abbrev pub or_next : ServerList → ServerList → ServerList
or_next no_server next = next
or_next (server s links rest) next = server s links rest

-- The loop of `findserver`: what it finds among the links ends the loop by its name.
unfoldable pub find_name : CString → ServerList → ServerList
find_name name no_server = no_server
find_name name (server s links next) =
    let below = find_name name links in
    let behind = find_name name next in
    if stricmp_eq s.name name then server s links next else or_next below behind

unfoldable pub findserver : ServerList → Pointer → ServerList
unfolding find_name
findserver s none = no_server
findserver s (some []) = no_server
findserver s (some (c ∷ name)) = find_name (c ∷ name) s

-- The configuration and what is known of the server software; `ltoa` is `%ld` of the C library, for
-- the long that a word becomes.
pub record Network : Type 0 where
  pub p10 : Bool
  pub ts6 : Bool
  pub numeric : Bool
  pub server_name : CString
  pub ltoa : ℕ → CString

abbrev pub same_uid : Network → CString → CString → Bool
same_uid ircd suid name =
    (if ircd.p10 then str_eq suid name else stricmp_eq suid name)
    && (if ircd.ts6 then str_eq suid name else stricmp_eq suid name)

-- One round of `findserver_uid` at a server, with what is below it and behind it.
abbrev pub at_uid : Network → CString → Pointer → ServerList → ServerList → ServerList → ServerList
at_uid ircd name none here below behind = behind
at_uid ircd name (some suid) here below behind =
    if same_uid ircd suid name then here else or_next below behind

-- The loop of `findserver_uid`.
unfoldable pub find_suid : Network → CString → ServerList → ServerList
find_suid ircd name no_server = no_server
find_suid ircd name (server s links next) =
    let below = find_suid ircd name links in
    let behind = find_suid ircd name next in
    at_uid ircd name s.suid (server s links next) below behind

unfoldable pub findserver_uid : Network → ServerList → Pointer → ServerList
unfolding find_suid
findserver_uid ircd s none = no_server
findserver_uid ircd s (some []) = no_server
findserver_uid ircd s (some (c ∷ name)) = find_suid ircd (c ∷ name) s

-- The static variables, and the next free place of the memory.
pub record Net : Type 0 where
  pub servlist : ServerList
  pub me_server : Option ℕ
  pub free : ℕ

abbrev pub with_number : Network → ServerList → Option ℕ → Option (Option ℕ)
with_number ircd s none = none
with_number ircd s (some n) = some (address (findserver_uid ircd s (some (ircd.ltoa n))))

-- The result `none` is a read behind the end of an empty string, in `base64_to_int`.
unfoldable pub server_find : Network → Net → CString → Option (Option ℕ)
unfolding findserver findserver_uid
server_find ircd net source =
    let by_name = findserver net.servlist (some source) in
    let by_uid = or_next (findserver_uid ircd net.servlist (some source)) by_name in
    if ircd.p10
    then some (address by_uid)
    else if stricmp_eq ircd.server_name source
    then some net.me_server
    else if ircd.ts6
    then some (address by_uid)
    else if ircd.numeric && num_token source b'.' == 0
    then with_number ircd net.servlist (base64_to_int source)
    else some (address by_name)

-- The entry of the name in the array `slinks` of the server at an address.
unfoldable pub extend : ℕ → CString → ServerList → ServerList
extend a name no_server = no_server
extend a name (server s links next) =
    let links' = extend a name links in
    let next' = extend a name next in
    server (if s.at == a then record s { slinks = s.slinks ++ name ∷ [] } else s) links' next'

-- A server in front of the links of the one at an address, one hop farther.
unfoldable pub link : ℕ → Server → ServerList → ServerList
link a new no_server = no_server
link a new (server s links next) =
    let links' = link a new links in
    let next' = link a new next in
    if s.at == a
    then server s (server (record new { hops = (s.hops + 1) % 2 ^ 16 }) no_server links) next
    else server s links' next'

abbrev pub made_server : ℕ → CString → Pointer → Pointer → Server
made_server at name desc suid = record {
  at = at;
  name = name;
  desc = copied desc;
  suid = suid;
  hops = 0;
  slinks = [];
}

abbrev pub linked : Net → Option ℕ → Server → ServerList
unfolding link
linked net none new = server new no_server net.servlist
linked net (some uplink) new = link uplink new net.servlist

unfoldable pub make_server : Net → CString → Pointer → Option ℕ → Pointer → Net
make_server net name desc uplink numeric = record net {
  servlist = linked net uplink (made_server net.free name desc numeric);
  free = net.free + 1;
}

abbrev pub extended : Net → Option ℕ → CString → Net
unfolding extend
extended net none name = net
extended net (some uplink) name = record net { servlist = extend uplink name net.servlist }

abbrev pub with_uplink : Net → CString → Pointer → Pointer → Option ℕ → Net
unfolding make_server
with_uplink net name desc numeric uplink =
    make_server (extended net uplink name) name desc uplink numeric

-- The uplink, if `source` gives none.
abbrev pub or_me : Net → Option (Option ℕ) → Option (Option ℕ)
or_me net none = none
or_me net (some none) = some net.me_server
or_me net (some (some a)) = some (some a)

abbrev pub uplink_of : Network → Net → Pointer → CString → Option (Option ℕ)
unfolding server_find
uplink_of ircd net none name =
    some (if stricmp_eq name ircd.server_name then net.me_server else none)
uplink_of ircd net (some []) name =
    some (if stricmp_eq name ircd.server_name then net.me_server else none)
uplink_of ircd net (some (c ∷ source)) name = or_me net (server_find ircd net (c ∷ source))

abbrev pub introduced : Net → CString → Pointer → Pointer → Option (Option ℕ) → Option Net
introduced net name desc numeric none = none
introduced net name desc numeric (some uplink) = some (with_uplink net name desc numeric uplink)

unfoldable pub do_server : Network → Net → Pointer → CString → Pointer → Pointer → Option Net
do_server ircd net source name desc numeric =
    introduced net name desc numeric (uplink_of ircd net source name)
