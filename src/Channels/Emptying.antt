-- ===== src/Channels/Emptying.antt =====
-- A user leaves all of its channels, one after the other, in a loop of src/channels.c or
-- src/users.c.
use mathlib.Core.Path.{subst}
use denora.Prelude.{ℕ, ◌<◌, ◌≡◌, sym, ◌∙◌, List, [], ◌∷◌, Option, some, arith}
use denora.Bans.Queries.{Channel}
use denora.Channels.{World, erase}
use denora.Channels.Handlers.{on_chans}
use denora.Channels.Spec.{on_chans_self, on_chans_same, on_chans_twice}
use denora.Channels.Steps.{IsSound, Leaves, on_channel-Live}
use denora.Channels.Store.{occurs, erase-head, occurs-cons_same}
use denora.Channels.View.{Names-refl, Names-trans}

-- What a call of `chan_deluser` does, as long as the own client parts from no channel.
abbrev pub Deletes : (World → ℕ → ℕ → Option World) → Type 0
Deletes deluser =
    (chans : ℕ → List ℕ) (w : World)
    → IsSound chans w.store
    → (u a : ℕ) → 0 < occurs a (chans u)
    → Leaves w.store.heap (on_chans chans u (erase a (chans u))) w.chans (deluser w u a)

-- A loop that calls `chan_deluser` for the channels of a list.
module _ (deluser : World → ℕ → ℕ → Option World) (deletes : Deletes deluser)
    (loop : World → ℕ → List ℕ → Option World) (nil : (w : World) (u : ℕ) → loop w u [] ≡ some w)
    (cons : (w : World) (u : ℕ) (l : List ℕ) (a : ℕ) (c : Channel) (w' : World)
      → w.store.heap a ≡ some c
      → deluser w u a ≡ some w'
      → loop w u (a ∷ l) ≡ loop w' u l) where
  pub loop-Leaves :
      (chans : ℕ → List ℕ) (w : World) (u : ℕ) (l : List ℕ)
      → chans u ≡ l
      → IsSound chans w.store
      → Leaves w.store.heap (on_chans chans u []) w.chans (loop w u l)
  loop-Leaves chans w u [] at v = (
    w.store,
    nil w u,
    subst (λ f. IsSound f w.store) (sym (on_chans_self chans u [] at)) v,
    Names-refl w.store.heap,
  )
  loop-Leaves chans w u (a ∷ l) at v =
      let on : 0 < occurs a (chans u) = rw (at, occurs-cons_same a l) (omega arith) in
      let (c, e) = on_channel-Live chans w.store v u a on in
      let (s', e', v', n') = deletes chans w v u a on in
      let rest = on_chans_same chans u (erase a (chans u)) ∙ rw at (erase-head a l) in
      let (s'', e'', v'', n'') =
        loop-Leaves (on_chans chans u (erase a (chans u))) (record w { store = s' }) u l rest v' in
      (
        s'',
        cons w u l a c (record w { store = s' }) e e' ∙ e'',
        subst (λ f. IsSound f s'') (on_chans_twice chans u (erase a (chans u)) []) v'',
        Names-trans w.store.heap s'.heap s''.heap n' n'',
      )
