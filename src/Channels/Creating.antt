-- ===== src/Channels/Creating.antt =====
-- A new channel, and a user that comes onto one: chan_create and chan_adduser2 of src/channels.c
-- keep the invariant of the store and the names.
use denora.Prelude.{
  ℕ, suc, ◌<◌, ◌≤◌, ◌≡◌, refl, ap, sym, ◌∙◌, Bool, true, ◌||◌, List, [], ◌∷◌, Option, none, some,
  CString, arith, get_elem?, get_elem?-lt, lt-get_elem?, length, length-set, length-append,
  stricmp_eq, length-take,
}
use mathlib.Core.Path.{fun_ext}
use denora.Bans.Queries.{Channel, StatsChannel}
use denora.Channels.{
  Chans, Config, chan_hash, cut_name, write, new_channel, new_stats, chan_create, enrol,
  findstatschan, statschan_create, or_created, or_appended, joined_stats,
}
use denora.Channels.Handlers.{on_chans}
use denora.Channels.Changes.{IsStore-update, IsStore-create}
use denora.Channels.Store.{
  occurs, occurs-cons_same, occurs-cons_other, write_cases, write_same, chan_hash_lt,
}
use denora.Channels.Spec.{names_at}
use denora.Channels.View.{Names, Names-write-some, key_of, keys-same}
use denora.Channels.Steps.{IsSound, both-on_chans, on_channel-Live}

-- `list_find` gives the place of an entry that the test accepts.
abbrev pub Finds : ((A : Type 0) → (A → Bool) → List A → Option ℕ) → Type 1
Finds list_find =
    (A : Type 0) (f : A → Bool) (xs : List A) (i : ℕ)
    → list_find A f xs ≡ some i
    → (x : A) × (get_elem? xs i ≡ some x) × (f x ≡ true)

-- The list of counts is not shorter, and the place is in it.
abbrev Grown : Chans → Chans × ℕ → Type 0
Grown s r =
    (l : List StatsChannel) × (i : ℕ) × (r ≡ (record s { stats = l }, i))
    × (i < length l)
    × (length s.stats ≤ length l)

-- The array of channels has a place for every name, and what is found is in the list.
module _ (list_find : (A : Type 0) → (A → Bool) → List A → Option ℕ) (cfg : Config) (now : ℕ) where
  -- The channel at the place `a` after a user has come onto it.
  abbrev Enrolled : ℕ → Channel → (ℕ → Option Channel) → ℕ → Type 0
  Enrolled u c heap a =
      (c' : Channel) × (heap a ≡ some c')
      × (c'.statservon ≡ (stricmp_eq (cfg.nick u) cfg.statserv || c.statservon))

  pub enrol-Ends :
      (chans : ℕ → List ℕ) (s : Chans)
      → IsSound chans s
      → (u a : ℕ) (c : Channel) → s.heap a ≡ some c
      → (s' : Chans) × (enrol list_find cfg now s u a ≡ some s')
        × IsSound (on_chans chans u (a ∷ chans u)) s'
        × Names s.heap s'.heap
        × Enrolled u c s'.heap a
  unfolding enrol
  enrol-Ends chans s v u a c e =
      let (st, es) = get_elem?-lt s.stats c.stats (v.counts a c e) in
      let on = stricmp_eq (cfg.nick u) cfg.statserv || c.statservon in
      let c' = record c { users = u ∷ c.users; statservon = on } in
      let same : occurs a (chans u) ≡ occurs u c.users = v.both u a ∙ rw e refl in
      rw (e, es)
        (
          _,
          refl,
          rw (length-set s.stats c.stats (joined_stats now st)) (
              IsStore-update chans (on_chans chans u (a ∷ chans u)) s.chanlist s.heap s.free
                (length s.stats) s.chans a c v e c' refl refl
                (both-on_chans chans s v u a c c' (a ∷ chans u) e
                  (λ w. occurs-cons_other w u c.users) (λ b. occurs-cons_other b a (chans u))
                  (occurs-cons_same a (chans u) ∙ ap suc same ∙ sym (occurs-cons_same u c.users)))),
          Names-write-some s.heap a c c' e refl,
          (c', write_same s.heap a (some c'), refl),
        )

  -- The counts that a channel gets are in the list of them, which has become no shorter.
  module _ (found : Finds list_find) (s : Chans) (chan : CString) where
    within :
        (f : StatsChannel → Bool) (i : ℕ)
        → list_find StatsChannel f s.stats ≡ some i
        → i < length s.stats
    within f i e = let (x, k, t) = found StatsChannel f s.stats i e in lt-get_elem? s.stats i x k

    appended-Grown :
        (o : Option ℕ)
        → ((i : ℕ) → o ≡ some i → i < length s.stats)
        → Grown s (or_appended s chan o)
    appended-Grown (some i) lt = (s.stats, i, refl, lt i refl, omega arith)
    appended-Grown none lt =
        let longer = length-append s.stats (new_stats chan ∷ []) in
        (_, _, refl, omega (arith, longer), omega (arith, longer))

    created-Grown :
        (o : Option ℕ)
        → ((i : ℕ) → o ≡ some i → i < length s.stats)
        → Grown s (or_created list_find s chan o)
    unfolding or_created statschan_create
    created-Grown (some i) lt = (s.stats, i, refl, lt i refl, omega arith)
    created-Grown none lt = appended-Grown _ (within (λ x. stricmp_eq x.name chan))

    or_created-Grown :
        (name : CString) → Grown s (or_created list_find s chan (findstatschan list_find s name))
    unfolding findstatschan
    or_created-Grown [] = created-Grown none (λ i e. absurd (ground (arith, e)))
    or_created-Grown (x ∷ name) = created-Grown _ (within (λ y. stricmp_eq y.name (x ∷ name)))

  -- A new channel has the name as far as its array holds it, and no user is on it.
  pub chan_create-Ends :
      Finds list_find
      → (chans : ℕ → List ℕ) (s : Chans) → IsSound chans s
      → (x : ℕ) (name : CString) (ts : ℕ)
      → (a : ℕ) × (s' : Chans) × (chan_create list_find cfg s (x ∷ name) ts ≡ some (some a, s'))
        × IsSound chans s'
        × ((c : Channel) × (s'.heap a ≡ some c) × (c.name ≡ cut_name (x ∷ name)))
        × (names_at s'.heap chans ≡ names_at s.heap chans)
  unfolding chan_create
  chan_create-Ends found chans s v x chan ts =
      let name = cut_name (x ∷ chan) in
      let (b, eb) =
        get_elem?-lt s.chanlist (chan_hash name) (omega (arith, v.buckets, chan_hash_lt name)) in
      let (l, i, r, lt, le) = or_created-Grown found s (x ∷ chan) name in
      let (st, es) = get_elem?-lt l i lt in
      let c = new_channel cfg (x ∷ chan) ts i in
      rw (eb, r, es)
        (
          _,
          _,
          refl,
          rw (length-set l i (record st { in_use = true })) (
              IsStore-create chans s.chanlist s.heap s.free (length s.stats) s.chans v c b
                (length l) refl (length-take 63 (x ∷ chan)) lt le eb),
          (c, write_same s.heap s.free (some c), refl),
          fun_ext (λ u. keys-same s.heap (write s.heap s.free (some c)) (chans u) (λ b lt.
              write_cases (λ b o. 0 < occurs b (chans u) → key_of o ≡ key_of (s.heap b)) s.heap
                s.free (some c) b
                (λ lt. absurd (
                  let (d, e) = on_channel-Live chans s v u s.free lt in
                  let z = sym e ∙ v.fresh s.free (omega arith) in ground (arith, z)))
                (λ q lt. refl) lt)),
        )
