-- ===== src/Users/Examples.antt =====
-- Runs of the store of the users on a concrete array.
use denora.Prelude.{
  ◌≡◌, refl, ◌∙◌, List, [], ◌∷◌, some, codes, length, length-set, length-replicate, set, replicate,
  get_elem?, stricmp_eq,
}
use denora.Users.{User, UserList, user_hash, change_user_nick, finduser}
use denora.Users.Renaming.{change_user_nick-finduser}

abbrev alice : User
alice = record { at = 7; nick = codes "Alice" }

abbrev allan : User
allan = record { at = 8; nick = codes "allan" }

-- Both nicks begin with A and L, whose bucket is 44.
abbrev users : UserList
users = set (replicate 1024 []) 44 (alice ∷ allan ∷ [])

length-users : length users ≡ 1024
length-users =
    length-set (replicate 1024 []) 44 (alice ∷ allan ∷ [])
    ∙ length-replicate {A = List User} 1024 []

bucket_of_alice : get_elem? users (user_hash alice.nick) ≡ some (alice ∷ allan ∷ [])
unfolding user_hash
bucket_of_alice = refl

change_user_nick-finduser_example :
    (t : UserList) × (change_user_nick users (some alice) (some (codes "Bob")) ≡ some t)
    × (length t ≡ 1024)
    × (finduser t (some (codes "BOB")) ≡ some (some (record { at = 7; nick = codes "Bob" })))
unfolding stricmp_eq
change_user_nick-finduser_example =
    change_user_nick-finduser users alice [] (allan ∷ []) b'B' b'B' (codes "ob") (codes "OB")
      length-users bucket_of_alice tt
