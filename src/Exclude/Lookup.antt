-- ===== src/Exclude/Lookup.antt =====
-- What the lookup of src/exclude.c finds.
use denora.Prelude.{
  ℕ, ◌+◌, ◌*◌, ◌%◌, ◌^◌, ◌<◌, ◌≡◌, ◌≢◌, refl, ap, sym, ◌∙◌, Bool, false, ◌&&◌, ◌||◌, List, [], ◌∷◌,
  Option, none, some, CString, inl, inr, Bool-cases, arith, length, get_elem?, set, ◌==◌, ==_iff,
  ==_ne, length-set, get_elem?-lt, get_elem?-set_same, get_elem?-set_other, of_some, tolower,
  is_upper, if◌then◌else◌,
}
use denora.Wild.{match_wild_nocase}
use denora.Exclude.{
  Entry, Exlists, exclude_hash, insert_exclude, find_listed, exclude_at, find_exclude, is_excluded,
  on_excluded_server,
}

-- The table has all of its buckets.
abbrev pub IsExlists : Exlists → Type 0
IsExlists t = length t ≡ 1024

exclude_hash_lt : (c : ℕ) (s : CString) → (i : ℕ) × (exclude_hash (c ∷ s) ≡ some i) × (i < 1024)
unfolding exclude_hash
exclude_hash_lt c [] = (tolower c % 2 ^ 5 * 2 ^ 5, refl, omega arith)
exclude_hash_lt c (d ∷ s) = (tolower c % 2 ^ 5 * 2 ^ 5 + tolower d % 2 ^ 5, refl, omega arith)

abbrev pub same_bucket : Option ℕ → Option ℕ → Bool
same_bucket none o = false
same_bucket (some i) none = false
same_bucket (some i) (some j) = i == j

find_listed-cons :
    (masks : List CString) (mask : CString) (server : Option CString) (e : Entry) (b : List Entry)
    → find_listed masks mask server (e ∷ b) ≡ (
        if match_wild_nocase e.name mask || on_excluded_server masks server
        then some e
        else find_listed masks mask server b)
unfolding find_listed
find_listed-cons masks mask server e b = elim (Bool-cases (match_wild_nocase e.name mask)) [
  | inl h ↦ rw h
  | inr h ↦ rw h
]

exclude_at-set :
    (t : Exlists) (masks : List CString) (e : Entry) (mask : CString) (server : Option CString)
    (i j : ℕ) (b b' : List Entry)
    → i < length t
    → get_elem? t i ≡ some b
    → get_elem? t j ≡ some b'
    → exclude_at masks mask server (get_elem? (set t i (e ∷ b)) j)
      ≡ some (
          if i == j && (match_wild_nocase e.name mask || on_excluded_server masks server)
          then some e
          else find_listed masks mask server b')
exclude_at-set t masks e mask server i j b b' lt bi bj = elim (Bool-cases (i == j)) [
  | inl q ↦
      let p : i ≡ j = (==_iff i j).0 q in
      let k : b ≡ b' = ap (of_some []) (sym bi ∙ ap (get_elem? t) p ∙ bj) in
      rw (
        q,
        ap (get_elem? (set t i (e ∷ b))) (sym p),
        get_elem?-set_same t i (e ∷ b) lt,
        find_listed-cons masks mask server e b,
        k,
      )
  | inr q ↦
      let ne : i ≢ j = (λ p. absurd (ground (arith, p))) in
      rw (q, get_elem?-set_other t i j (e ∷ b) ne, bj)
]

-- After `insert_exclude` a lookup gives the new entry when its name and the nick stand in the same
-- bucket, and the name matches the nick or the user's server is excluded; else it gives what it
-- gave before. In a table with all of its buckets and for strings that are not empty neither call
-- leaves an array.
pub find_exclude-insert_exclude :
    (t : Exlists) (masks : List CString) (flag c d : ℕ) (s r : CString) (server : Option CString)
    → IsExlists t
    → (t' : Exlists) × (o : Option Entry) × (insert_exclude t (record { name = c ∷ s; flag = flag })
        ≡ some t')
      × IsExlists t'
      × (find_exclude t masks (some (d ∷ r)) server ≡ some o)
      × (find_exclude t' masks (some (d ∷ r)) server
          ≡ some (
              if same_bucket (exclude_hash (c ∷ s)) (exclude_hash (d ∷ r))
                && (match_wild_nocase (c ∷ s) (d ∷ r) || on_excluded_server masks server)
              then some (record { name = c ∷ s; flag = flag })
              else o))
unfolding insert_exclude find_exclude
find_exclude-insert_exclude t masks flag c d s r server w =
    let e : Entry = record { name = c ∷ s; flag = flag } in
    let (i, hi, li) = exclude_hash_lt c s in
    let (j, hj, lj) = exclude_hash_lt d r in
    let (b, bi) = get_elem?-lt t i (omega arith) in
    let (b', bj) = get_elem?-lt t j (omega arith) in
    (
      set t i (e ∷ b),
      find_listed masks (d ∷ r) server b',
      rw (hi, bi),
      length-set t i (e ∷ b) ∙ w,
      rw (hj, bj),
      rw (hi, hj) (exclude_at-set t masks e (d ∷ r) server i j b b' (omega arith) bi bj),
    )

star-bucket :
    (d : ℕ) (s r : CString)
    → tolower d % 2 ^ 5 ≢ 10
    → same_bucket (exclude_hash (b'*' ∷ s)) (exclude_hash (d ∷ r)) ≡ false
unfolding exclude_hash tolower is_upper
star-bucket d [] [] h = ==_ne _ _ (omega arith)
star-bucket d [] (y ∷ r) h = ==_ne _ _ (omega arith)
star-bucket d (x ∷ s) [] h = ==_ne _ _ (omega arith)
star-bucket d (x ∷ s) (y ∷ r) h = ==_ne _ _ (omega arith)

-- A mask that starts with * is without effect on a nick whose first letter is not j, in either
-- case, or a character that shares its five low bits: in a table with all of its buckets each
-- lookup of such a nick gives what it gave before the mask was inserted, although the mask may
-- match it.
pub find_exclude-star :
    (t : Exlists) (masks : List CString) (flag d : ℕ) (s r : CString) (server : Option CString)
    → IsExlists t
    → tolower d % 2 ^ 5 ≢ 10
    → (t' : Exlists) × (insert_exclude t (record { name = b'*' ∷ s; flag = flag }) ≡ some t')
      × (find_exclude t' masks (some (d ∷ r)) server ≡ find_exclude t masks (some (d ∷ r)) server)
find_exclude-star t masks flag d s r server w ne =
    let (t', o, inserted, w', before, now) =
      find_exclude-insert_exclude t masks flag b'*' d s r server w in
    (t', inserted, rw (now, before, star-bucket d s r ne))

-- A user whose nick belongs to an empty bucket does not count as excluded, whatever its server and
-- the masks of excluded servers are.
pub is_excluded-empty_bucket :
    (t : Exlists) (masks : List CString) (nick server : CString) (i : ℕ)
    → exclude_hash nick ≡ some i
    → get_elem? t i ≡ some []
    → is_excluded t masks nick server ≡ some false
unfolding is_excluded find_exclude
is_excluded-empty_bucket t masks nick server i h e = rw (h, e)
