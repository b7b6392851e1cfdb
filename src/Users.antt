-- ===== src/Users.antt =====
-- The store of the users by their nicks, src/users.c. A user stands in the memory at an address, a
-- number. The store is the array of the buckets, and a bucket the list of its users from its head
-- on. A result `none` of a change is an access outside of the array.
pub mod Quit
pub mod Renaming
mod Examples
use denora.Prelude.{
  ℕ, ◌+◌, ◌-◌, ◌*◌, ◌%◌, ◌^◌, Bool, true, false, List, [], ◌∷◌, Option, none, some, CString,
  stricmp_eq, get_elem?, set, take, ◌==◌, if◌then◌else◌,
}
use denora.Bans.Masks.{Pointer}

pub record User : Type 0 where
  pub at : ℕ
  pub nick : CString

abbrev pub UserList : Type 0
UserList = List (List User)

abbrev pub nickmax : ℕ
nickmax = 32

-- `USERHASH`; behind an empty nick in its array stands another zero.
unfoldable pub user_hash : CString → ℕ
user_hash [] = 0
user_hash (c ∷ []) = c % 2 ^ 5 * 2 ^ 5
user_hash (c ∷ d ∷ s) = c % 2 ^ 5 * 2 ^ 5 + d % 2 ^ 5

-- `strlcpy (user->nick, nick, NICKMAX)`
abbrev pub stored : CString → CString
stored nick = take (nickmax - 1) nick

-- The user in front of a bucket.
abbrev pub put_at : UserList → ℕ → User → Option (List User) → Option UserList
put_at t i u none = none
put_at t i u (some b) = some (set t i (u ∷ b))

abbrev pub put : UserList → User → Option UserList
unfolding user_hash
put t u = put_at t (user_hash u.nick) u (get_elem? t (user_hash u.nick))

abbrev pub or_empty : Pointer → CString
or_empty none = []
or_empty (some nick) = nick

-- `new_user`, at a free address.
unfoldable pub new_user : UserList → ℕ → Pointer → Option UserList
unfolding put
new_user t at nick = put t (record { at = at; nick = stored (or_empty nick) })

-- The user out of a bucket; it is told by its address.
unfoldable pub unlink : ℕ → List User → List User
unlink a [] = []
unlink a (u ∷ b) = let rest = unlink a b in if u.at == a then b else u ∷ rest

unfoldable pub unlink_at : UserList → ℕ → ℕ → Option (List User) → Option UserList
unfolding unlink
unlink_at t i a none = none
unlink_at t i a (some b) = some (set t i (unlink a b))

abbrev pub put_then : User → Option UserList → Option UserList
unfolding put
put_then u none = none
put_then u (some t) = put t u

-- `change_user_nick` of a user that stands in the bucket of its nick.
unfoldable pub change_user_nick : UserList → Option User → Pointer → Option UserList
unfolding unlink_at put_then user_hash
change_user_nick t none nick = some t
change_user_nick t (some u) none = some t
change_user_nick t (some u) (some []) = some t
change_user_nick t (some u) (some (c ∷ nick)) =
    put_then (record u { nick = stored (c ∷ nick) })
      (unlink_at t (user_hash u.nick) u.at (get_elem? t (user_hash u.nick)))

-- The loop of `finduser`.
unfoldable pub find_nick : CString → List User → Option User
find_nick nick [] = none
find_nick nick (u ∷ b) = if stricmp_eq u.nick nick then some u else find_nick nick b

unfoldable pub find_user_at : CString → Option (List User) → Option (Option User)
unfolding find_nick
find_user_at nick none = none
find_user_at nick (some b) = some (find_nick nick b)

unfoldable pub finduser : UserList → Pointer → Option (Option User)
unfolding find_user_at user_hash
finduser t none = some none
finduser t (some []) = some none
finduser t (some (c ∷ nick)) = find_user_at (c ∷ nick) (get_elem? t (user_hash (c ∷ nick)))
