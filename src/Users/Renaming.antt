-- ===== src/Users/Renaming.antt =====
-- The lookup of a user behind a change of its nick, src/users.c.
use denora.Prelude.{
  ℕ, ◌<◌, ◌≡◌, refl, ap, sym, ◌∙◌, Bool, true, false, List, [], ◌∷◌, some, CString, inl, inr,
  Bool-cases, arith, stricmp_eq, get_elem?, get_elem?-lt, get_elem?-set_same, get_elem?-set_other,
  length, length-set, set, ◌==◌, ==_iff, ==_refl, ◌++◌, if◌then◌else◌, of_some,
}
use denora.Cron.Events.{cmd_hash}
use denora.Cron.Names.{stricmp_eq-hash}
use denora.Users.{
  User, UserList, user_hash, stored, put, unlink, unlink_at, put_then, change_user_nick, find_nick,
  find_user_at, finduser,
}

user_hash-cmd_hash : (c : ℕ) (s : CString) → cmd_hash (c ∷ s) ≡ some (user_hash (c ∷ s))
unfolding cmd_hash user_hash
user_hash-cmd_hash c [] = refl
user_hash-cmd_hash c (d ∷ s) = refl

-- Nicks that are equal up to case have one bucket.
user_hash-same :
    (c d : ℕ) (s r : CString)
    → stricmp_eq (c ∷ s) (d ∷ r) ≡ true
    → user_hash (c ∷ s) ≡ user_hash (d ∷ r)
user_hash-same c d s r h =
    ap (of_some 0)
      (sym (user_hash-cmd_hash c s) ∙ stricmp_eq-hash c s (d ∷ r) h ∙ user_hash-cmd_hash d r)

pub user_hash_lt : (s : CString) → user_hash s < 1024
unfolding user_hash
user_hash_lt [] = omega arith
user_hash_lt (c ∷ []) = omega arith
user_hash_lt (c ∷ d ∷ s) = omega arith

-- No user of the list stands at the address.
abbrev pub AllElsewhere : ℕ → List User → Type 0
AllElsewhere a [] = Unit
AllElsewhere a (x ∷ b) = ((x.at == a) ≡ false) × AllElsewhere a b

pub unlink-append :
    (u : User) (p q : List User) → AllElsewhere u.at p → unlink u.at (p ++ u ∷ q) ≡ p ++ q
unfolding unlink
unlink-append u [] q k = rw (==_refl u.at) refl
unlink-append u (x ∷ p) q (e, k) = rw e (ap (λ b. x ∷ b) (unlink-append u p q k))

find_nick-without :
    (u : User) (nick : CString) (p q : List User)
    → stricmp_eq u.nick nick ≡ false
    → find_nick nick (p ++ q) ≡ find_nick nick (p ++ u ∷ q)
unfolding find_nick
find_nick-without u nick [] q h = rw h refl
find_nick-without u nick (x ∷ p) q h = elim (Bool-cases (stricmp_eq x.nick nick)) [
  | inl r ↦ rw r refl
  | inr r ↦ rw r (find_nick-without u nick p q h)
]

-- A lookup in an array of which one bucket is replaced, in that bucket and in another one.
module _ (t : UserList) (i : ℕ) (b : List User) (lt : i < length t) where
  find_user_at-set_same :
      (h : ℕ) (nick : CString)
      → h ≡ i
      → find_user_at nick (get_elem? (set t i b) h) ≡ some (find_nick nick b)
  unfolding find_user_at
  find_user_at-set_same h nick e = rw e (ap (find_user_at nick) (get_elem?-set_same t i b lt))

  -- When the new bucket answers as the old one does, the array does.
  find_user_at-set :
      (h : ℕ) (nick : CString) (old : List User)
      → get_elem? t i ≡ some old
      → find_nick nick b ≡ find_nick nick old
      → find_user_at nick (get_elem? (set t i b) h) ≡ find_user_at nick (get_elem? t h)
  unfolding find_user_at
  find_user_at-set h nick old e f = elim (Bool-cases (i == h)) [
    | inl q ↦
        let p = (==_iff i h).0 q in
        find_user_at-set_same h nick (sym p)
        ∙ ap some f
        ∙ ap (find_user_at nick) (sym e ∙ ap (get_elem? t) p)
    | inr q ↦
        ap (find_user_at nick) (get_elem?-set_other t i h b (λ p. absurd (ground (arith, p, q))))
  ]

find_nick-behind :
    (u : User) (nick : CString) (b : List User)
    → stricmp_eq u.nick nick ≡ false
    → find_nick nick (u ∷ b) ≡ find_nick nick b
unfolding find_nick
find_nick-behind u nick b h = rw h refl

find_nick-front :
    (u : User) (nick : CString) (b : List User)
    → stricmp_eq u.nick nick ≡ true
    → find_nick nick (u ∷ b) ≡ some u
unfolding find_nick
find_nick-front u nick b h = rw h refl

-- The bucket of a nick that is equal to that of the user, which is not empty then.
hash_of_same :
    (n : CString) (d : ℕ) (r : CString)
    → stricmp_eq n (d ∷ r) ≡ true
    → user_hash (d ∷ r) ≡ user_hash n
unfolding stricmp_eq
hash_of_same [] d r h = absurd (ground arith)
hash_of_same (e ∷ m) d r h = sym (user_hash-same e d m r h)

-- A lookup when the user is out of the bucket that held it.
pub finduser-unlinked :
    (t : UserList) (u : User) (p q : List User) (d : ℕ) (r : CString) (same : Bool)
    → stricmp_eq u.nick (d ∷ r) ≡ same
    → user_hash u.nick < length t
    → get_elem? t (user_hash u.nick) ≡ some (p ++ u ∷ q)
    → find_user_at (d ∷ r) (get_elem? (set t (user_hash u.nick) (p ++ q)) (user_hash (d ∷ r))) ≡ (
        if same
        then some (find_nick (d ∷ r) (p ++ q))
        else find_user_at (d ∷ r) (get_elem? t (user_hash (d ∷ r))))
finduser-unlinked t u p q d r true k lt e =
    find_user_at-set_same t (user_hash u.nick) (p ++ q) lt (user_hash (d ∷ r)) (d ∷ r)
      (hash_of_same u.nick d r k)
finduser-unlinked t u p q d r false k lt e =
    find_user_at-set t (user_hash u.nick) (p ++ q) lt (user_hash (d ∷ r)) (d ∷ r) (p ++ u ∷ q) e
      (find_nick-without u (d ∷ r) p q k)

-- Let the array have all of its buckets, and let the bucket of the nick of `u` hold `u` between `p`
-- and `q`, and none of `p` at its address. Then `change_user_nick` to a nick that is not empty
-- stays inside of the array, and behind it `finduser` of any nick that is not empty finds the user
-- with the new nick, cut to 31 characters, if the nick is that one up to case; if it is the old
-- one, the first of the nick in `p` and `q`; and else what it found before.
pub change_user_nick-finduser :
    (t : UserList) (u : User) (p q : List User) (c d : ℕ) (nick r : CString)
    → length t ≡ 1024
    → get_elem? t (user_hash u.nick) ≡ some (p ++ u ∷ q)
    → AllElsewhere u.at p
    → (t' : UserList) × (change_user_nick t (some u) (some (c ∷ nick)) ≡ some t')
      × (length t' ≡ 1024)
      × (finduser t' (some (d ∷ r)) ≡ (
          if stricmp_eq (stored (c ∷ nick)) (d ∷ r)
          then some (some (record u { nick = stored (c ∷ nick) }))
          else if stricmp_eq u.nick (d ∷ r)
          then some (find_nick (d ∷ r) (p ++ q))
          else finduser t (some (d ∷ r))))
unfolding change_user_nick finduser unlink_at put_then put
change_user_nick-finduser t u p q c d nick r w e away =
    let i = user_hash u.nick in
    let j = user_hash (stored (c ∷ nick)) in
    let t₁ = set t i (p ++ q) in
    let w₁ = length-set t i (p ++ q) ∙ w in
    let lt : i < length t = omega (arith, w, user_hash_lt u.nick) in
    let lt₁ : j < length t₁ = omega (arith, w₁, user_hash_lt (stored (c ∷ nick))) in
    let (b₁, e₁) = get_elem?-lt t₁ j lt₁ in
    let u₁ = record u { nick = stored (c ∷ nick) } in
    rw (e, unlink-append u p q away)
      (rw e₁ (
        set t₁ j (u₁ ∷ b₁),
        refl,
        length-set t₁ j (u₁ ∷ b₁) ∙ w₁,
        elim (Bool-cases (stricmp_eq (stored (c ∷ nick)) (d ∷ r))) [
          | inl same ↦ rw same (
              find_user_at-set_same t₁ j (u₁ ∷ b₁) lt₁ (user_hash (d ∷ r)) (d ∷ r)
                (hash_of_same (stored (c ∷ nick)) d r same)
              ∙ ap some (find_nick-front u₁ (d ∷ r) b₁ same))
          | inr other ↦ rw other (
              find_user_at-set t₁ j (u₁ ∷ b₁) lt₁ (user_hash (d ∷ r)) (d ∷ r) b₁ e₁
                (find_nick-behind u₁ (d ∷ r) b₁ other)
              ∙ finduser-unlinked t u p q d r (stricmp_eq u.nick (d ∷ r)) refl lt e)
        ],
      ))
