-- ===== src/Channels/Store.antt =====
-- The store of the channels and of who is on them, with its invariant, src/channels.c.
use denora.Prelude.{
  of_some, ◌+◌, set, ap, zero, ℕ, suc, ◌-◌, ◌<◌, ◌≤◌, ◌≡◌, refl, sym, ◌∙◌, true, false, List, [],
  ◌∷◌, Option, none, some, CString, inl, inr, Bool-cases, Option-cases, arith, get_elem?,
  get_elem?-lt, length, stricmp_eq, ltb, ◌==◌, ==_iff, ==_refl, if◌then◌else◌,
}
use denora.Bans.Queries.{Channel}
use denora.Channels.{Chans, chan_hash, write, find_chain, findchan, erase, mem, chanmax}

-- How often an address stands in a list.
abbrev pub occurs : ℕ → List ℕ → ℕ
occurs a [] = 0
occurs a (x ∷ xs) = let rest = occurs a xs in if x == a then suc rest else rest

pub occurs-erase :
    (x y : ℕ) (l : List ℕ) → occurs x (erase y l) ≡ (if y == x then occurs x l - 1 else occurs x l)
unfolding erase
occurs-erase x y [] = ground arith
occurs-erase x y (z ∷ l) =
    let ih = occurs-erase x y l in
    elim (Bool-cases (z == y)) [
      | inl q ↦ rw q (ground (arith, q))
      | inr q ↦ rw q (ground (arith, q, ih))
    ]

pub ==_swap : (a b : ℕ) → (a == b) ≡ false → (b == a) ≡ false
==_swap a b q = elim (Bool-cases (b == a)) [
  | inl t ↦ absurd (let z = (==_iff a b).1 (sym ((==_iff b a).0 t)) in ground (arith, z, q))
  | inr t ↦ t
]

pub occurs-erase_same : (x : ℕ) (l : List ℕ) → occurs x (erase x l) ≡ occurs x l - 1
occurs-erase_same x l = occurs-erase x x l ∙ rw (==_refl x) refl

pub occurs-erase_other :
    (x y : ℕ) (l : List ℕ) → (x == y) ≡ false → occurs x (erase y l) ≡ occurs x l
occurs-erase_other x y l q = occurs-erase x y l ∙ rw (==_swap x y q) refl

pub occurs-cons_same : (x : ℕ) (l : List ℕ) → occurs x (x ∷ l) ≡ suc (occurs x l)
occurs-cons_same x l = rw (==_refl x) refl

pub occurs-cons_other : (x y : ℕ) (l : List ℕ) → (x == y) ≡ false → occurs x (y ∷ l) ≡ occurs x l
occurs-cons_other x y l q = rw (==_swap x y q) refl

pub erase-head : (x : ℕ) (l : List ℕ) → erase x (x ∷ l) ≡ l
unfolding erase
erase-head x l = rw (==_refl x) refl

pub mem-occurs : (u : ℕ) (l : List ℕ) → mem u l ≡ ltb 0 (occurs u l)
mem-occurs u [] = refl
mem-occurs u (x ∷ l) = let ih = mem-occurs u l in ground (arith, ih)

abbrev pub users_of : Option Channel → List ℕ
users_of none = []
users_of (some c) = c.users

-- How often a channel stands in the bucket `i`.
abbrev pub placed : Option Channel → ℕ → ℕ
placed none i = 0
placed (some c) i = if chan_hash c.name == i then 1 else 0

-- How many channels stand in the buckets.
abbrev pub total : List (List ℕ) → ℕ
total [] = 0
total (b ∷ cl) = length b + total cl

pub total-set :
    (cl : List (List ℕ)) (i : ℕ) (l m : List ℕ)
    → get_elem? cl i ≡ some l
    → total (set cl i m) + length l ≡ total cl + length m
total-set [] i l m e = absurd (ground (arith, e))
total-set (b ∷ cl) zero l m e = let same = ap length (ap (of_some l) e) in omega (arith, same)
total-set (b ∷ cl) (suc i) l m e = let ih = total-set cl i l m e in omega (arith, ih)

pub length-erase : (a : ℕ) (l : List ℕ) → 0 < occurs a l → suc (length (erase a l)) ≡ length l
unfolding erase
length-erase a [] lt = absurd (omega arith)
length-erase a (x ∷ l) lt = elim (Bool-cases (x == a)) [
  | inl q ↦ rw q refl
  | inr q ↦ rw q (ap suc (length-erase a l (rw q at lt)))
]

-- The array has all of its buckets; a channel stands once in the bucket of its name, and nothing
-- else in the buckets; a user is as often on a channel by its own list as by that of the channel;
-- what is free holds no channel; and the counts of a channel are in their list, of length `n`;
-- `count` is the number of channels; a name fits into the array of a channel.
pub record IsStore (chans : ℕ → List ℕ) (chanlist : List (List ℕ)) (heap : ℕ → Option Channel)
    (free n count : ℕ) : Type 0 where
  pub buckets : length chanlist ≡ 1024
  pub in_place :
      (i a : ℕ) (b : List ℕ) → get_elem? chanlist i ≡ some b → occurs a b ≡ placed (heap a) i
  pub both : (u a : ℕ) → occurs a (chans u) ≡ occurs u (users_of (heap a))
  pub fresh : (a : ℕ) → free ≤ a → heap a ≡ none
  pub counts : (a : ℕ) (c : Channel) → heap a ≡ some c → c.stats < n
  pub number : count ≡ total chanlist
  pub short : (a : ℕ) (c : Channel) → heap a ≡ some c → length c.name < chanmax

-- A pointer that is null or points to a channel.
abbrev pub Live : (ℕ → Option Channel) → Option ℕ → Type 0
Live heap none = Unit
Live heap (some a) = (c : Channel) × (heap a ≡ some c)

-- A pointer that is null or points to a channel of this name.
abbrev pub Found : (ℕ → Option Channel) → CString → Option ℕ → Type 0
Found heap name none = Unit
Found heap name (some a) = (c : Channel) × (heap a ≡ some c) × (stricmp_eq c.name name ≡ true)

pub Found-Live :
    (heap : ℕ → Option Channel) (name : CString) (o : Option ℕ) → Found heap name o → Live heap o
Found-Live heap name none f = tt
Found-Live heap name (some a) (c, e, q) = (c, e)

placed-Live : (heap : ℕ → Option Channel) (a i : ℕ) → 0 < placed (heap a) i → Live heap (some a)
placed-Live heap a i lt = elim (Option-cases (heap a)) [
  | inl e ↦ absurd (let k = rw e at lt in omega (arith, k))
  | inr e ↦ e
]

find_chain_total :
    (heap : ℕ → Option Channel) (name : CString) (b : List ℕ)
    → ((a : ℕ) → 0 < occurs a b → Live heap (some a))
    → (o : Option ℕ) × (find_chain heap name b ≡ some o) × Found heap name o
unfolding find_chain
find_chain_total heap name [] live = (none, refl, tt)
find_chain_total heap name (a ∷ b) live =
    let (c, e) = live a (ground arith) in
    let (o, k, l) = find_chain_total heap name b (λ x lt. live x (ground (arith, lt))) in
    elim (Bool-cases (stricmp_eq c.name name)) [
      | inl q ↦ rw (e, q) (some a, refl, (c, e, q))
      | inr q ↦ rw (e, q) (o, k, l)
    ]

pub chan_hash_lt : (name : CString) → chan_hash name < 1024
unfolding chan_hash
chan_hash_lt [] = omega arith
chan_hash_lt (c ∷ []) = omega arith
chan_hash_lt (c ∷ d ∷ []) = omega arith
chan_hash_lt (c ∷ d ∷ e ∷ s) = omega arith

-- What holds of the place that is written, and of the others as they were, holds behind the write.
pub write_cases {ℓ} :
    (P : ℕ → Option Channel → Type ℓ) (heap : ℕ → Option Channel) (a : ℕ) (o : Option Channel)
    (b : ℕ)
    → P a o
    → ((b == a) ≡ false → P b (heap b))
    → P b (write heap a o b)
unfolding write
write_cases P heap a o b here there = elim (Bool-cases (b == a)) [
  | inl q ↦ let k = (==_iff b a).0 q in rw (q, k) here
  | inr q ↦ rw q (there q)
]

pub write_same : (heap : ℕ → Option Channel) (a : ℕ) (o : Option Channel) → write heap a o a ≡ o
unfolding write
write_same heap a o = rw (==_refl a) refl

pub write_other :
    (heap : ℕ → Option Channel) (a b : ℕ) (o : Option Channel)
    → (b == a) ≡ false
    → write heap a o b ≡ heap b
unfolding write
write_other heap a b o q = rw q refl

module _ (chans : ℕ → List ℕ) (s : Chans)
    (v : IsStore chans s.chanlist s.heap s.free (length s.stats) s.chans) where
  -- `findchan` stays inside of the buckets and finds no channel that is freed, or has another name.
  pub findchan-Found :
      (name : CString) → (o : Option ℕ) × (findchan s (some name) ≡ some o) × Found s.heap name o
  unfolding findchan
  findchan-Found [] = (none, refl, tt)
  findchan-Found (x ∷ name) =
      let i = chan_hash (x ∷ name) in
      let (b, e) = get_elem?-lt s.chanlist i (omega (arith, v.buckets, chan_hash_lt (x ∷ name))) in
      rw e (
        find_chain_total s.heap (x ∷ name) b
          (λ a lt. placed-Live s.heap a i (omega (arith, lt, v.in_place i a b e))))

pub findchan-Live :
    (chans : ℕ → List ℕ) (s : Chans)
    (v : IsStore chans s.chanlist s.heap s.free (length s.stats) s.chans) (name : CString)
    → (o : Option ℕ) × (findchan s (some name) ≡ some o) × Live s.heap o
findchan-Live chans s v name =
    let (o, e, f) = findchan-Found chans s v name in (o, e, Found-Live s.heap name o f)
