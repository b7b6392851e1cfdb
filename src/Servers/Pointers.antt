-- ===== src/Servers/Pointers.antt =====
-- The pointers to servers that the lookups answer and that `do_server` takes as uplinks,
-- src/servers.c.
use denora.Prelude.{
  or_true, ℕ, ◌≡◌, refl, Bool, true, false, ◌&&◌, [], ◌∷◌, Option, none, some, CString, inl, inr,
  Bool-cases, stricmp_eq, ◌==◌, ==_refl, if◌then◌else◌,
}
use denora.Bans.Masks.{Pointer}
use denora.Base64.{base64_to_int}
use denora.Tokens.{num_token}
use denora.Servers.{
  Server, ServerList, no_server, server, address, or_next, find_name, findserver, Network, same_uid,
  at_uid, find_suid, findserver_uid, Net, server_find, or_me, uplink_of,
}
use denora.Servers.Linking.{holds}

-- The pointer is null or points to a server of the list.
abbrev pub Points : ServerList → Option ℕ → Type 0
Points t none = Unit
Points t (some a) = holds a t ≡ true

Points-below :
    (s : Server) (links next : ServerList) (o : Option ℕ)
    → Points links o
    → Points (server s links next) o
Points-below s links next none h = tt
Points-below s links next (some a) h = rw h (or_true (s.at == a))

Points-behind :
    (s : Server) (links next : ServerList) (o : Option ℕ)
    → Points next o
    → Points (server s links next) o
Points-behind s links next none h = tt
Points-behind s links next (some a) h = rw (h, or_true (holds a links)) (or_true (s.at == a))

Points-or_next :
    (t x y : ServerList)
    → Points t (address x)
    → Points t (address y)
    → Points t (address (or_next x y))
Points-or_next t no_server y h k = k
Points-or_next t (server s links next) y h k = h

Points-find_name : (name : CString) (t : ServerList) → Points t (address (find_name name t))
unfolding find_name
Points-find_name name no_server = tt
Points-find_name name (server s links next) = elim (Bool-cases (stricmp_eq s.name name)) [
  | inl q ↦ rw (q, ==_refl s.at) refl
  | inr q ↦ rw q (
      Points-or_next (server s links next) (find_name name links) (find_name name next)
        (Points-below s links next _ (Points-find_name name links))
        (Points-behind s links next _ (Points-find_name name next)))
]

Points-find_suid :
    (ircd : Network) (name : CString) (t : ServerList) → Points t (address (find_suid ircd name t))
unfolding find_suid
Points-find_suid ircd name no_server = tt
Points-find_suid ircd name (server s links next) =
    by_id s.suid (Points-find_suid ircd name links) (Points-find_suid ircd name next)
  where
    by_id :
        (suid : Pointer)
        → Points links (address (find_suid ircd name links))
        → Points next (address (find_suid ircd name next))
        → Points (server s links next) (
            address (
              at_uid ircd name suid
                (server s links next)
                (find_suid ircd name links)
                (find_suid ircd name next)))
    by_id none h k = Points-behind s links next _ k
    by_id (some suid) h k = elim (Bool-cases (same_uid ircd suid name)) [
      | inl q ↦ rw (q, ==_refl s.at) refl
      | inr q ↦ rw q (
          Points-or_next (server s links next) (find_suid ircd name links)
            (find_suid ircd name next) (Points-below s links next _ h)
            (Points-behind s links next _ k))
    ]

Points-findserver_uid :
    (ircd : Network) (name : CString) (t : ServerList)
    → Points t (address (findserver_uid ircd t (some name)))
unfolding findserver_uid
Points-findserver_uid ircd [] t = tt
Points-findserver_uid ircd (c ∷ name) t = Points-find_suid ircd (c ∷ name) t

-- A lookup that succeeds, with a pointer to a server of the list or the null pointer.
abbrev pub Found : ServerList → Option (Option ℕ) → Type 0
Found t x = (o : Option ℕ) × (x ≡ some o) × Points t o

Found-if :
    (t : ServerList) (b : Bool) (x y : Option (Option ℕ))
    → Found t x
    → Found t y
    → Found t (if b then x else y)
Found-if t true x y h k = h
Found-if t false x y h k = k

Points-if :
    (t : ServerList) (b : Bool) (o : Option ℕ) → Points t o → Points t (if b then o else none)
Points-if t true o h = h
Points-if t false o h = tt

server_find-Found :
    (ircd : Network) (net : Net) (c : ℕ) (source : CString)
    → Points net.servlist net.me_server
    → Found net.servlist (server_find ircd net (c ∷ source))
unfolding server_find findserver base64_to_int
server_find-Found ircd net c source me =
    let t = net.servlist in
    let name = Points-find_name (c ∷ source) t in
    let uid =
      Points-or_next t (findserver_uid ircd t (some (c ∷ source))) (find_name (c ∷ source) t)
        (Points-findserver_uid ircd (c ∷ source) t) name in
    Found-if t ircd.p10 _ _ (_, refl, uid)
      (Found-if t (stricmp_eq ircd.server_name (c ∷ source)) _ _ (_, refl, me)
        (Found-if t ircd.ts6 _ _ (_, refl, uid)
          (Found-if t (ircd.numeric && num_token (c ∷ source) b'.' == 0) _ _
            (_, refl, Points-findserver_uid ircd _ t) (_, refl, name))))

-- The server under which `do_server` puts a server.
pub uplink_of-Found :
    (ircd : Network) (net : Net) (source : Pointer) (name : CString)
    → Points net.servlist net.me_server
    → Found net.servlist (uplink_of ircd net source name)
unfolding uplink_of
uplink_of-Found ircd net none name me =
    (_, refl, Points-if net.servlist (stricmp_eq name ircd.server_name) net.me_server me)
uplink_of-Found ircd net (some []) name me =
    (_, refl, Points-if net.servlist (stricmp_eq name ircd.server_name) net.me_server me)
uplink_of-Found ircd net (some (c ∷ source)) name me =
    let (o, e, h) = server_find-Found ircd net c source me in rw e (or_own o h)
  where
    or_own : (o : Option ℕ) → Points net.servlist o → Found net.servlist (or_me net (some o))
    or_own none h = (_, refl, me)
    or_own (some a) h = (_, refl, h)
