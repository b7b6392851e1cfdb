-- ===== src/Exclude/Examples.antt =====
-- Lookups in concrete tables of excluded users.
use denora.Prelude.{
  ℕ, zero, suc, ◌≡◌, ◌%◌, ◌^◌, ◌≢◌, refl, ap, true, ◌&&◌, ◌||◌, List, [], ◌∷◌, Option, none, some,
  CString, codes, arith, length, set, length-set, ◌∙◌, tolower, if◌then◌else◌,
}
use denora.Wild.{match_wild_nocase}
use denora.Exclude.{
  Entry, Exlists, exclude_hash, insert_exclude, find_exclude, on_excluded_server, is_excludedserv,
}
use denora.Exclude.Lookup.{IsExlists, same_bucket, find_exclude-insert_exclude}

abbrev copies : ℕ → Exlists
copies zero = []
copies (suc n) = [] ∷ copies n

copies_lem : (n : ℕ) → length (copies n) ≡ n
copies_lem zero = refl
copies_lem (suc n) = ap suc (copies_lem n)

abbrev bob : Entry
bob = record { name = codes "bob"; flag = 1 }

-- Bucket 79 is that of names that start with bo.
abbrev with_bob : Exlists
with_bob = set (copies 1024) 79 (bob ∷ [])

with_bob-IsExlists : IsExlists with_bob
with_bob-IsExlists = length-set (copies 1024) 79 (bob ∷ []) ∙ copies_lem 1024

abbrev hubs : List CString
hubs = codes "hub.*" ∷ []

find_exclude-insert_exclude_example :
    (t' : Exlists) × (o : Option Entry) × (insert_exclude with_bob
        (record { name = codes "bo*"; flag = 1 })
      ≡ some t')
    × IsExlists t'
    × (find_exclude with_bob hubs (some (codes "Bobby")) none ≡ some o)
    × (find_exclude t' hubs (some (codes "Bobby")) none
        ≡ some (
            if same_bucket (exclude_hash (codes "bo*")) (exclude_hash (codes "Bobby"))
              && (match_wild_nocase (codes "bo*") (codes "Bobby") || on_excluded_server hubs none)
            then some (record { name = codes "bo*"; flag = 1 })
            else o))
find_exclude-insert_exclude_example =
    find_exclude-insert_exclude with_bob hubs 1 b'b' b'B' (codes "o*") (codes "obby") none
      with_bob-IsExlists

x_ne : tolower b'x' % 2 ^ 5 ≢ 10
unfolding tolower
x_ne = λ h. absurd (ground (arith, h))

alice_bucket : exclude_hash (codes "alice") ≡ some 44
unfolding exclude_hash tolower
alice_bucket = refl

-- The server of that user is excluded.
is_excludedserv_test : is_excludedserv hubs (some (codes "hub.example")) ≡ true
unfolding is_excludedserv match_wild_nocase
is_excludedserv_test = refl
