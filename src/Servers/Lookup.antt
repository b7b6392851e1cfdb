-- ===== src/Servers/Lookup.antt =====
-- The lookups of servers against the servers in the order of a walk, src/servers.c.
use denora.Prelude.{
  ℕ, ◌≡◌, refl, Bool, false, List, [], ◌∷◌, ◌++◌, none, some, CString, inl, inr, Bool-cases,
  stricmp_eq, if◌then◌else◌,
}
use denora.Bans.Masks.{Pointer}
use denora.Servers.{
  Server, ServerList, no_server, server, or_next, find_name, findserver, Network, same_uid, at_uid,
  find_suid, findserver_uid,
}

-- The servers of a list: each before the servers that are linked to it, and these before the next.
abbrev pub listed : ServerList → List ServerList
listed no_server = []
listed (server s links next) = server s links next ∷ (listed links ++ listed next)

-- The servers that have an id and whose uplinks all have one, in the same order.
abbrev pub with_ids : Pointer → ServerList → List ServerList → List ServerList → List ServerList
with_ids none s below behind = behind
with_ids (some suid) s below behind = s ∷ (below ++ behind)

abbrev pub listed_ids : ServerList → List ServerList
listed_ids no_server = []
listed_ids (server s links next) =
    with_ids s.suid (server s links next) (listed_ids links) (listed_ids next)

-- The first of them that has a property.
abbrev pub first_of : (Server → Bool) → List ServerList → ServerList
first_of test [] = no_server
first_of test (no_server ∷ xs) = first_of test xs
first_of test (server s links next ∷ xs) =
    let rest = first_of test xs in if test s then server s links next else rest

first_of-append :
    (test : Server → Bool) (xs ys : List ServerList)
    → first_of test (xs ++ ys) ≡ or_next (first_of test xs) (first_of test ys)
first_of-append test [] ys = refl
first_of-append test (no_server ∷ xs) ys = first_of-append test xs ys
first_of-append test (server s links next ∷ xs) ys = elim (Bool-cases (test s)) [
  | inl q ↦ rw q
  | inr q ↦ rw q (first_of-append test xs ys)
]

find_name-listed :
    (name : CString) (s : ServerList)
    → find_name name s ≡ first_of (λ x. stricmp_eq x.name name) (listed s)
unfolding find_name
find_name-listed name no_server = refl
find_name-listed name (server s links next) =
    rw
      (
        find_name-listed name links,
        find_name-listed name next,
        first_of-append (λ x. stricmp_eq x.name name) (listed links) (listed next),
      )
      refl

abbrev pub id_is : Network → CString → Pointer → Bool
id_is ircd name none = false
id_is ircd name (some suid) = same_uid ircd suid name

at_uid-listed :
    (ircd : Network) (name : CString) (suid : Pointer) (x : Server) (links next : ServerList)
    → x.suid ≡ suid
    → at_uid ircd name suid
        (server x links next)
        (first_of (λ y. id_is ircd name y.suid) (listed_ids links))
        (first_of (λ y. id_is ircd name y.suid) (listed_ids next))
      ≡ first_of
          (λ y. id_is ircd name y.suid)
          (with_ids suid (server x links next) (listed_ids links) (listed_ids next))
at_uid-listed ircd name none x links next e = refl
at_uid-listed ircd name (some suid) x links next e =
    rw (e, first_of-append (λ y. id_is ircd name y.suid) (listed_ids links) (listed_ids next)) refl

find_suid-listed :
    (ircd : Network) (name : CString) (s : ServerList)
    → find_suid ircd name s ≡ first_of (λ y. id_is ircd name y.suid) (listed_ids s)
unfolding find_suid
find_suid-listed ircd name no_server = refl
find_suid-listed ircd name (server s links next) =
    rw (find_suid-listed ircd name links, find_suid-listed ircd name next)
      (at_uid-listed ircd name s.suid s links next refl)

-- `findserver` of a name that is not empty finds the first server, in the order of a walk that goes
-- to the links of a server before the next one, whose name is equal up to case. `findserver_uid` of
-- an id that is not empty finds the first server with the id in the same order, but only among the
-- servers whose uplinks have an id each: behind a server without an id none is found.
pub lookups-listed :
    (ircd : Network) (s : ServerList) (c : ℕ) (name : CString)
    → (findserver s (some (c ∷ name)) ≡ first_of (λ x. stricmp_eq x.name (c ∷ name)) (listed s))
      × (findserver_uid ircd s (some (c ∷ name))
          ≡ first_of (λ y. id_is ircd (c ∷ name) y.suid) (listed_ids s))
unfolding findserver findserver_uid
lookups-listed ircd s c name = (find_name-listed (c ∷ name) s, find_suid-listed ircd (c ∷ name) s)
