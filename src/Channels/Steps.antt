-- ===== src/Channels/Steps.antt =====
-- The operations on the channels and on who is on them keep the invariant of the store,
-- src/channels.c.
use denora.Prelude.{
  ℕ, ◌+◌, ◌-◌, ◌%◌, ◌^◌, ◌<◌, ◌≡◌, refl, sym, ◌∙◌, Bool, true, false, not, ◌&&◌, List, [], ◌∷◌,
  Option, none, some, CString, set, inl, inr, Bool-cases, Option-cases, arith, get_elem?-lt, length,
  length-set, ◌==◌, if◌then◌else◌, is_nil, bind-some,
}
use mathlib.Core.Path.{fun_ext}
use denora.Bans.Queries.{Channel}
use denora.Modes.Safety.{flag_total}
use denora.Modes.Values.{chan_has_mode}
use denora.Channels.{
  Chans, Config, World, chan_hash, write, erase, mem, chan_delete, delete_empty, when_empty, left,
  without_user, deluser_with, find_cs, name_has_mode,
}
use denora.Channels.Handlers.{on_chans}
use denora.Channels.Spec.{keys, names_at, on_chans_cases}
use denora.Channels.View.{
  keys-Names, keys-on_chans, Names, Names-refl, Names-trans, Names-write-none, Names-write-some,
}
use denora.Channels.Changes.{IsStore-update, IsStore-delete}
use denora.Channels.Store.{
  IsStore, Live, findchan-Live, occurs, users_of, occurs-erase_same, occurs-erase_other, mem-occurs,
  write_cases, write_same, chan_hash_lt,
}

-- The invariant, of the store and of the lists of the users.
abbrev pub IsSound : (ℕ → List ℕ) → Chans → Type 0
IsSound chans s = IsStore chans s.chanlist s.heap s.free (length s.stats) s.chans

-- A run that does not fault, ends in a store that is sound, and keeps the names of the channels
-- that were in the memory `h`.
abbrev pub Ends : (ℕ → Option Channel) → (ℕ → List ℕ) → Option Chans → Type 0
Ends h chans o = (s : Chans) × (o ≡ some s) × IsSound chans s × Names h s.heap

-- A channel on the list of a user is there.
pub on_channel-Live :
    (chans : ℕ → List ℕ) (s : Chans)
    → IsSound chans s
    → (u a : ℕ) → 0 < occurs a (chans u)
    → Live s.heap (some a)
on_channel-Live chans s v u a on = elim (Option-cases (s.heap a)) [
  | inl e ↦ absurd (let k : occurs a (chans u) ≡ 0 = v.both u a ∙ rw e refl in omega (arith, k, on))
  | inr e ↦ e
]

-- The names that the users have are those of before.
pub keys-IsSound :
    (h : ℕ → Option Channel) (chans : ℕ → List ℕ) (s : Chans)
    → IsSound chans s
    → Names h s.heap
    → names_at s.heap chans ≡ names_at h chans
keys-IsSound h chans s v names =
    fun_ext (λ u. keys-Names h s.heap names (chans u) (on_channel-Live chans s v u))

pub keys-Ends :
    (h : ℕ → Option Channel) (chans : ℕ → List ℕ) (u : ℕ) (l : List ℕ) (s : Chans)
    → IsSound (on_chans chans u l) s
    → Names h s.heap
    → names_at s.heap (on_chans chans u l) ≡ on_chans (names_at h chans) u (keys h l)
keys-Ends h chans u l s v names =
    keys-IsSound h (on_chans chans u l) s v names ∙ keys-on_chans h chans u l

-- The same of a run on a world, whose lists of the users are then `lists`, while the invariant
-- holds for `chans`.
abbrev pub Leaves : (ℕ → Option Channel) → (ℕ → List ℕ) → (ℕ → List ℕ) → Option World → Type 0
Leaves h chans lists o =
    (s : Chans) × (o ≡ some (record { store = s; chans = lists }))
    × IsSound chans s
    × Names h s.heap

pub and_false : (x : Bool) → (x && false) ≡ false
and_false true = refl
and_false false = refl

and_last : (a b p : Bool) → (b && p) ≡ false → ((a && b) && p) ≡ false
and_last true b p e = e
and_last false b p e = refl

module _ (chans : ℕ → List ℕ) (s : Chans) (v : IsSound chans s) (a : ℕ) (c : Channel)
    (e : s.heap a ≡ some c) where
  chan_delete-Ends : c.users ≡ [] → Ends s.heap chans (chan_delete s a)
  unfolding chan_delete
  chan_delete-Ends no_users =
      let (st, es) = get_elem?-lt s.stats c.stats (v.counts a c e) in
      let (b, eb) =
        get_elem?-lt s.chanlist (chan_hash c.name)
          (omega (arith, v.buckets, chan_hash_lt c.name)) in
      rw (e, es, eb)
        (
          _,
          refl,
          rw (length-set s.stats c.stats (record st { in_use = false })) (
              IsStore-delete chans s.chanlist s.heap s.free (length s.stats) s.chans v a c b e
                no_users eb),
          Names-write-none s.heap a,
        )

-- A channel and a user that hold each other once more, or once less, agree behind that too.
module _ (chans : ℕ → List ℕ) (s : Chans) (v : IsSound chans s) (u a : ℕ) (c c' : Channel)
    (l : List ℕ) (e : s.heap a ≡ some c)
    (same_user : (w : ℕ) → (w == u) ≡ false → occurs w c'.users ≡ occurs w c.users)
    (same_chan : (b : ℕ) → (b == a) ≡ false → occurs b l ≡ occurs b (chans u))
    (agree : occurs a l ≡ occurs u c'.users) where
  pub both-on_chans :
      (w b : ℕ) → occurs b (on_chans chans u l w) ≡ occurs w (users_of (write s.heap a (some c') b))
  both-on_chans w b =
      on_chans_cases (λ w l. occurs b l ≡ occurs w (users_of (write s.heap a (some c') b))) chans u
        l w
        (write_cases (λ b o. occurs b l ≡ occurs u (users_of o)) s.heap a (some c') b agree
          (λ q. same_chan b q ∙ v.both u b))
        (λ p.
          write_cases (λ b o. occurs b (chans w) ≡ occurs w (users_of o)) s.heap a (some c') b
            (v.both w a ∙ rw e (sym (same_user w p))) (λ q. v.both w b))

-- The table of the flags has a place for every character.
module _ (list_find : (A : Type 0) → (A → Bool) → List A → Option ℕ) (cfg : Config)
    (all_flags : length cfg.cmodes ≡ 128) (persist : cfg.persist_char < 128) where
  has_mode_total :
      (s : Chans) (o : Option ℕ)
      → Live s.heap o
      → (b : Bool) × (name_has_mode cfg s o cfg.persist_char ≡ some b)
  unfolding chan_has_mode
  has_mode_total s none live = (false, refl)
  has_mode_total s (some a) live =
      let (c, e) = live in
      let (b, f) = flag_total cfg.cmodes all_flags c cfg.persist_char persist in rw e (b, f)

  delete_empty-Ends :
      (chans : ℕ → List ℕ) (s : Chans)
      → IsSound chans s
      → (a : ℕ) (c : Channel) → s.heap a ≡ some c
      → c.users ≡ []
      → Ends s.heap chans (delete_empty cfg s a c)
  unfolding delete_empty
  delete_empty-Ends chans s v a c e no_users =
      let (o, found, live) = findchan-Live chans s v c.name in
      let (kept, k) = has_mode_total s o live in
      elim (Bool-cases kept) [
        | inl q ↦ rw (found, k, q) (s, refl, v, Names-refl s.heap)
        | inr q ↦ rw (found, k, q) (chan_delete-Ends chans s v a c e no_users)
      ]

  unless_empty :
      (chans : ℕ → List ℕ) (s : Chans)
      → IsSound chans s
      → (o : Option Chans) (l : List ℕ) → (l ≡ [] → Ends s.heap chans o)
      → Ends s.heap chans (if is_nil l then o else some s)
  unless_empty chans s v o [] f = f refl
  unless_empty chans s v o (x ∷ l) f = (s, refl, v, Names-refl s.heap)

  when_empty-Ends :
      (chans : ℕ → List ℕ) (s : Chans)
      → IsSound chans s
      → (a : ℕ) (c : Channel) → s.heap a ≡ some c
      → Ends s.heap chans (when_empty list_find cfg s a c)
  unfolding when_empty
  when_empty-Ends chans s v a c e =
      unless_empty chans s v _ c.users (delete_empty-Ends chans s v a c e)

  -- The own client parts from no channel, as PartOnEmpty is off, or no channel is one of the
  -- channel statistics, or the program ends.
  module _ (cmd_part : World → CString → Option World)
      (stays : (name : CString)
        → (find_cs list_find cfg name && (cfg.part_on_empty && not cfg.qmsg)) ≡ false) where
    left-Leaves :
        (chans : ℕ → List ℕ) (w : World)
        → IsSound chans w.store
        → (u a : ℕ) (c : Channel) → w.store.heap a ≡ some c
        → (count : ℕ)
        → Leaves w.store.heap chans w.chans (left list_find cmd_part cfg w u a c count)
    unfolding left
    left-Leaves chans w v u a c e count =
        let (s, k, v', names) = when_empty-Ends chans w.store v a c e in
        rw
          (and_last (count == 1) (find_cs list_find cfg c.name) (cfg.part_on_empty && not cfg.qmsg)
            (stays c.name))
          (s, bind-some _ k, v', names)

    without_user-Leaves :
        (chans chans' : ℕ → List ℕ) (w : World)
        → IsSound chans w.store
        → (u a : ℕ) (c c' : Channel) → w.store.heap a ≡ some c
        → c'.name ≡ c.name
        → c'.stats ≡ c.stats
        → ((u b : ℕ) → occurs b (chans' u) ≡ occurs u (users_of (write w.store.heap a (some c') b)))
        → Leaves w.store.heap chans' w.chans (without_user list_find cmd_part cfg w u a c')
    unfolding without_user
    without_user-Leaves chans chans' w v u a c c' e name place both =
        let s = w.store in
        let v' =
          IsStore-update chans chans' s.chanlist s.heap s.free (length s.stats) s.chans a c v e c'
            name place both in
        let (st, es) =
          get_elem?-lt s.stats c'.stats (v'.counts a c' (write_same s.heap a (some c'))) in
        let count = (st.usercount + (2 ^ 16 - 1)) % 2 ^ 16 in
        let s₁ : Chans = record s {
          heap = write s.heap a (some c');
          stats = set s.stats c'.stats (record st { usercount = count });
        } in
        let v₁ : IsSound chans' s₁ =
          rw (length-set s.stats c'.stats (record st { usercount = count })) v' in
        let (s', k, v'', names) =
          left-Leaves chans' (record w { store = s₁ }) v₁ u a c' (write_same s.heap a (some c'))
            count in
        (
          s',
          bind-some _ es ∙ k,
          v'',
          Names-trans s.heap s₁.heap s'.heap (Names-write-some s.heap a c c' e name) names,
        )

    deluser_found :
        (w : World) (u a : ℕ) (c : Channel)
        → w.store.heap a ≡ some c
        → mem u c.users ≡ true
        → deluser_with list_find cmd_part cfg w u a
          ≡ without_user list_find cmd_part cfg w u a (record c { users = erase u c.users })
    unfolding deluser_with without_user
    deluser_found w u a c e member = rw (e, member) refl

    -- A user that is on a channel leaves it: nothing faults, the list of the user is one shorter
    -- too.
    pub deluser_with-Leaves :
        (chans : ℕ → List ℕ) (w : World)
        → IsSound chans w.store
        → (u a : ℕ) → 0 < occurs a (chans u)
        → Leaves w.store.heap
            (on_chans chans u (erase a (chans u)))
            w.chans
            (deluser_with list_find cmd_part cfg w u a)
    deluser_with-Leaves chans w v u a on =
        let s = w.store in
        let (c, e) = on_channel-Live chans s v u a on in
        let c' = record c { users = erase u c.users } in
        let same : occurs a (chans u) ≡ occurs u c.users = v.both u a ∙ rw e refl in
        let member : mem u c.users ≡ true = mem-occurs u c.users ∙ ground (arith, same, on) in
        rw (deluser_found w u a c e member) (
          without_user-Leaves chans (on_chans chans u (erase a (chans u))) w v u a c c' e refl refl
            (both-on_chans chans s v u a c c' (erase a (chans u)) e
              (λ w. occurs-erase_other w u c.users) (λ b. occurs-erase_other b a (chans u))
              (occurs-erase_same a (chans u) ∙ rw same (sym (occurs-erase_same u c.users)))))
