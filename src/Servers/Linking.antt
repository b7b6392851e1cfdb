-- ===== src/Servers/Linking.antt =====
-- What the introduction of a server leaves of the list of servers, src/servers.c.
use denora.Prelude.{
  or_true, ℕ, suc, ◌+◌, ◌%◌, ◌^◌, ◌≡◌, refl, sym, ◌∙◌, Bool, true, false, ◌||◌, [], ◌∷◌, ◌++◌,
  Option, none, some, CString, inl, inr, Bool-cases, arith, stricmp_eq, ◌==◌, if◌then◌else◌,
}
use denora.Cron.Names.{stricmp_eq-same}
use denora.Servers.{
  Server, ServerList, no_server, server, address, or_next, find_name, extend, link,
}

-- A server stands at the address.
abbrev pub holds : ℕ → ServerList → Bool
holds a no_server = false
holds a (server s links next) =
    let below = holds a links in let behind = holds a next in s.at == a || (below || behind)

-- Each server has the hops of its depth, those of the head `d`.
abbrev pub HaveHops : ℕ → ServerList → Type 0
HaveHops d no_server = Unit
HaveHops d (server s links next) =
    (s.hops ≡ d % 2 ^ 16) × (HaveHops (suc d) links × HaveHops d next)

abbrev pub or_else : Option ℕ → Option ℕ → Option ℕ
or_else none o = o
or_else (some a) o = some a

address-or_next : (s t : ServerList) → address (or_next s t) ≡ or_else (address s) (address t)
address-or_next no_server t = refl
address-or_next (server s links next) t = refl

-- What `find_name` finds at a server, by addresses.
address-find_name :
    (name : CString) (s : Server) (links next : ServerList)
    → address (find_name name (server s links next)) ≡ (
        if stricmp_eq s.name name
        then some s.at
        else or_else (address (find_name name links)) (address (find_name name next)))
unfolding find_name
address-find_name name s links next = elim (Bool-cases (stricmp_eq s.name name)) [
  | inl q ↦ rw q
  | inr q ↦ rw q (address-or_next (find_name name links) (find_name name next))
]

pub HaveHops-extend :
    (a d : ℕ) (name : CString) (t : ServerList) → HaveHops d t → HaveHops d (extend a name t)
unfolding extend
HaveHops-extend a d name no_server h = tt
HaveHops-extend a d name (server s links next) (e, (h, k)) = elim (Bool-cases (s.at == a)) [
  | inl q ↦ rw q (e, (HaveHops-extend a (suc d) name links h, HaveHops-extend a d name next k))
  | inr q ↦ rw q (e, (HaveHops-extend a (suc d) name links h, HaveHops-extend a d name next k))
]

pub HaveHops-link :
    (a d : ℕ) (new : Server) (t : ServerList) → HaveHops d t → HaveHops d (link a new t)
unfolding link
HaveHops-link a d new no_server h = tt
HaveHops-link a d new (server s links next) (e, (h, k)) = elim (Bool-cases (s.at == a)) [
  | inl q ↦ rw q (e, ((omega (arith, e), (tt, h)), k))
  | inr q ↦ rw q (e, (HaveHops-link a (suc d) new links h, HaveHops-link a d new next k))
]

pub holds-extend :
    (a b : ℕ) (name : CString) (t : ServerList) → holds b (extend a name t) ≡ holds b t
unfolding extend
holds-extend a b name no_server = refl
holds-extend a b name (server s links next) = elim (Bool-cases (s.at == a)) [
  | inl q ↦ rw (q, holds-extend a b name links, holds-extend a b name next)
  | inr q ↦ rw (q, holds-extend a b name links, holds-extend a b name next)
]

find_name-no_server : (s : CString) → address (find_name s no_server) ≡ none
unfolding find_name
find_name-no_server s = refl

pub find_name-extend :
    (a : ℕ) (name s : CString) (t : ServerList)
    → address (find_name s (extend a name t)) ≡ address (find_name s t)
unfolding extend
find_name-extend a name s no_server = refl
find_name-extend a name s (server x links next) = elim (Bool-cases (x.at == a)) [
  | inl q ↦ rw q (
      address-find_name s (record x { slinks = x.slinks ++ name ∷ [] }) (extend a name links)
        (extend a name next)
      ∙ rw (find_name-extend a name s links, find_name-extend a name s next)
          (sym (address-find_name s x links next)))
  | inr q ↦ rw q (
      address-find_name s x (extend a name links) (extend a name next)
      ∙ rw (find_name-extend a name s links, find_name-extend a name s next)
          (sym (address-find_name s x links next)))
]

or_mono :
    (p q r q' r' : Bool)
    → (q ≡ true → q' ≡ true)
    → (r ≡ true → r' ≡ true)
    → (p || (q || r)) ≡ true
    → (p || (q' || r')) ≡ true
or_mono true q r q' r' f g h = refl
or_mono false true r q' r' f g h = rw (f refl) refl
or_mono false false true q' r' f g h = rw (g refl) (or_true q')
or_mono false false false q' r' f g h = absurd (ground arith)

-- A server that is there stays.
pub holds-link :
    (a b : ℕ) (new : Server) (t : ServerList) → holds b t ≡ true → holds b (link a new t) ≡ true
unfolding link
holds-link a b new no_server h = h
holds-link a b new (server s links next) h = elim (Bool-cases (s.at == a)) [
  | inl q ↦ rw q (
      or_mono (s.at == b) (holds b links) (holds b next) (new.at == b || (false || holds b links))
        (holds b next) (λ k. rw k (or_true (new.at == b))) (λ k. k) h)
  | inr q ↦ rw q (
      or_mono (s.at == b) (holds b links) (holds b next) (holds b (link a new links))
        (holds b (link a new next)) (holds-link a b new links) (holds-link a b new next) h)
]

pub find_name-link_other :
    (a : ℕ) (new : Server) (s : CString) (t : ServerList)
    → stricmp_eq new.name s ≡ false
    → address (find_name s (link a new t)) ≡ address (find_name s t)
unfolding link
find_name-link_other a new s no_server h = refl
find_name-link_other a new s (server x links next) h = elim (Bool-cases (x.at == a)) [
  | inl q ↦ rw q (
      address-find_name s x _ next
      ∙ rw
          (
            address-find_name s (record new { hops = (x.hops + 1) % 2 ^ 16 }) no_server links,
            h,
            find_name-no_server s,
          )
          (sym (address-find_name s x links next)))
  | inr q ↦ rw q (
      address-find_name s x (link a new links) (link a new next)
      ∙ rw (find_name-link_other a new s links h, find_name-link_other a new s next h)
          (sym (address-find_name s x links next)))
]

none_parts :
    (b : Bool) (v : ℕ) (o p : Option ℕ)
    → (if b then some v else or_else o p) ≡ none
    → (b ≡ false) × (o ≡ none) × (p ≡ none)
none_parts true v o p h = absurd (ground (arith, h))
none_parts false v none p h = (refl, refl, h)
none_parts false v (some a) p h = absurd (ground (arith, h))

or_else-if :
    (b c : Bool) (v : ℕ)
    → or_else (if b then some v else none) (if c then some v else none)
      ≡ (if b || c then some v else none)
or_else-if true c v = refl
or_else-if false c v = refl

pub find_name-link_new :
    (a : ℕ) (new : Server) (s : CString) (t : ServerList)
    → stricmp_eq new.name s ≡ true
    → address (find_name s t) ≡ none
    → address (find_name s (link a new t)) ≡ (if holds a t then some new.at else none)
unfolding link
find_name-link_new a new s no_server h e = find_name-no_server s
find_name-link_new a new s (server x links next) h e =
    let (f, l, n) =
      none_parts (stricmp_eq x.name s) x.at _ _ (sym (address-find_name s x links next) ∙ e) in
    elim (Bool-cases (x.at == a)) [
      | inl q ↦ rw q (
          address-find_name s x _ next
          ∙ rw
              (
                f,
                address-find_name s (record new { hops = (x.hops + 1) % 2 ^ 16 }) no_server links,
                h,
              )
              refl)
      | inr q ↦ rw q (
          address-find_name s x (link a new links) (link a new next)
          ∙ rw (f, find_name-link_new a new s links h l, find_name-link_new a new s next h n)
              (or_else-if (holds a links) (holds a next) new.at))
    ]

-- Names that are equal up to case find the same server.
pub find_name-same :
    (c d : ℕ) (n r : CString) (t : ServerList)
    → stricmp_eq (c ∷ n) (d ∷ r) ≡ true
    → address (find_name (d ∷ r) t) ≡ address (find_name (c ∷ n) t)
unfolding stricmp_eq
find_name-same c d n r no_server h = find_name-no_server (d ∷ r) ∙ sym (find_name-no_server (c ∷ n))
find_name-same c d n r (server x links next) h =
    address-find_name (d ∷ r) x links next
    ∙ rw (alike x.name, find_name-same c d n r links h, find_name-same c d n r next h)
        (sym (address-find_name (c ∷ n) x links next))
  where
    alike : (m : CString) → stricmp_eq m (d ∷ r) ≡ stricmp_eq m (c ∷ n)
    alike [] = refl
    alike (e ∷ m) = stricmp_eq-same c e n m (d ∷ r) h
