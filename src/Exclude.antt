-- ===== src/Exclude.antt =====
-- The excluded users, src/exclude.c: a table of masks, looked up by the nick of a user. `Exclude *`
-- is an entry or none for the null pointer; a further `none` outside is an access outside of an
-- array or a string. The store of the users is a parameter. The entries of a bucket are a list; the
-- `prev` pointers, which only the deletion reads, are left out with it.
pub mod Lookup
mod Examples
use denora.Prelude.{
  ℕ, ◌+◌, ◌*◌, ◌%◌, ◌^◌, Bool, true, false, ◌&&◌, not, List, [], ◌∷◌, Option, none, some, CString,
  is_nil, tolower, get_elem?, set, if◌then◌else◌,
}
use denora.Wild.{match_wild_nocase}

pub record Entry : Type 0 where
  pub name : CString
  pub flag : ℕ

abbrev pub Exlists : Type 0
Exlists = List (List Entry)

-- `(tolower((name)[0])&31)<<5 | (tolower((name)[1])&31)`
unfoldable pub exclude_hash : CString → Option ℕ
exclude_hash [] = none
exclude_hash (c ∷ []) = some (tolower c % 2 ^ 5 * 2 ^ 5)
exclude_hash (c ∷ d ∷ s) = some (tolower c % 2 ^ 5 * 2 ^ 5 + tolower d % 2 ^ 5)

abbrev pub insert_at : Exlists → Entry → ℕ → Option (List Entry) → Option Exlists
insert_at t e i none = none
insert_at t e i (some b) = some (set t i (e ∷ b))

abbrev pub insert_hashed : Exlists → Entry → Option ℕ → Option Exlists
insert_hashed t e none = none
insert_hashed t e (some i) = insert_at t e i (get_elem? t i)

unfoldable pub insert_exclude : Exlists → Entry → Option Exlists
unfolding exclude_hash
insert_exclude t e = insert_hashed t e (exclude_hash e.name)

-- `ExcludeServers` holds `NumExcludeServers` masks.
unfoldable pub is_excluded_server : List CString → CString → Bool
is_excluded_server [] name = false
is_excluded_server (m ∷ masks) name =
    if match_wild_nocase m name then true else is_excluded_server masks name

-- `if (NumExcludeServers && server) if (isExcludedServer (server))`
unfoldable pub on_excluded_server : List CString → Option CString → Bool
unfolding is_excluded_server
on_excluded_server masks none = false
on_excluded_server masks (some server) = not (is_nil masks) && is_excluded_server masks server

-- The loop of `find_exclude`.
unfoldable pub find_listed : List CString → CString → Option CString → List Entry → Option Entry
unfolding on_excluded_server
find_listed masks mask server [] = none
find_listed masks mask server (e ∷ b) =
    if match_wild_nocase e.name mask
    then some e
    else if on_excluded_server masks server
    then some e
    else find_listed masks mask server b

abbrev pub exclude_at :
    List CString → CString → Option CString → Option (List Entry) → Option (Option Entry)
exclude_at masks mask server none = none
exclude_at masks mask server (some b) = some (find_listed masks mask server b)

abbrev pub exclude_hashed :
    Exlists → List CString → CString → Option CString → Option ℕ → Option (Option Entry)
exclude_hashed t masks mask server none = none
exclude_hashed t masks mask server (some i) = exclude_at masks mask server (get_elem? t i)

unfoldable pub find_exclude :
    Exlists → List CString → Option CString → Option CString → Option (Option Entry)
unfolding find_listed exclude_hash
find_exclude t masks none server = some none
find_exclude t masks (some mask) server = exclude_hashed t masks mask server (exclude_hash mask)

abbrev pub found : Option (Option Entry) → Option Bool
found none = none
found (some none) = some false
found (some (some e)) = some true

-- A user is its nick and the name of its server.
unfoldable pub is_excluded : Exlists → List CString → CString → CString → Option Bool
unfolding find_exclude
is_excluded t masks nick server = found (find_exclude t masks (some nick) (some server))

-- A server is its name, or none for the null pointer.
unfoldable pub is_excludedserv : List CString → Option CString → Bool
unfolding is_excluded_server
is_excludedserv masks none = false
is_excludedserv masks (some name) = not (is_nil masks) && is_excluded_server masks name

module _ {U V : Type 0} (user_find : CString → U → Option V) (set_cstats : V → ℕ → U → U) where
  abbrev pub clear_cstats : Option V → U → U
  clear_cstats none us = us
  clear_cstats (some u) us = set_cstats u 0 us

  abbrev pub made : CString → Entry → U → Option Exlists → Option (Exlists × U × Entry)
  made mask e us none = none
  made mask e us (some t) = some (t, clear_cstats (user_find mask us) us, e)

  unfoldable pub make_exclude : Exlists → CString → U → Option (Exlists × U × Entry)
  unfolding insert_exclude
  make_exclude t mask us =
      made mask (record { name = mask; flag = 1 }) us
        (insert_exclude t (record { name = mask; flag = 1 }))
