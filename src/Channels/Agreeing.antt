-- ===== src/Channels/Agreeing.antt =====
-- Lists of names that agree for all users but the own client, which joins channels where others do.
use denora.Prelude.{
  ℕ, ◌≡◌, refl, ap, ◌∙◌, false, List, [], ◌∷◌, Option, none, some, CString, inl, inr, Bool-cases,
  ◌==◌, ==_iff,
}
use mathlib.Core.Path.{subst}
use denora.Channels.{same_user, cut_name}
use denora.Channels.Handlers.{on_chans}
use denora.Channels.Store.{==_swap}
use denora.Channels.Spec.{
  Membership, lower, remove, each, joined_to, parted_from, kicked, kicked_from,
}

abbrev pub Agree : Option ℕ → Membership → Membership → Type 0
Agree own on on' = (v : ℕ) → same_user own v ≡ false → on v ≡ on' v

module _ (own : Option ℕ) where
  pub Agree-trans :
      (on on' on'' : Membership) → Agree own on on' → Agree own on' on'' → Agree own on on''
  Agree-trans on on' on'' p q v n = p v n ∙ q v n

  pub Agree-≡ : (on on' : Membership) → on ≡ on' → Agree own on on'
  Agree-≡ on on' e v n = ap (λ f. f v) e

  pub on_chans-Agree :
      (on on' : Membership)
      → Agree own on on'
      → (u : ℕ) (l l' : List CString) → (same_user own u ≡ false → l ≡ l')
      → Agree own (on_chans on u l) (on_chans on' u l')
  unfolding on_chans
  on_chans-Agree on on' p u l l' same v n = elim (Bool-cases (v == u)) [
    | inl q ↦ rw q (same (subst (λ x. same_user own x ≡ false) ((==_iff v u).0 q) n))
    | inr q ↦ rw q (p v n)
  ]

  pub joined_to-Agree :
      (u : ℕ) (on on' : Membership) (name : CString)
      → Agree own on on'
      → Agree own (joined_to u on name) (joined_to u on' name)
  unfolding joined_to
  joined_to-Agree u on on' [] p = p
  joined_to-Agree u on on' (c ∷ name) p = elim (Bool-cases (c == b'0')) [
    | inl q ↦ rw q (on_chans-Agree on on' p u [] [] (λ n. refl))
    | inr q ↦
        rw q
          (on_chans-Agree on on' p u _ _ (λ n. ap (λ l. lower (cut_name (c ∷ name)) ∷ l) (p u n)))
  ]

  pub parted_from-Agree :
      (u : ℕ) (on on' : Membership) (name : CString)
      → Agree own on on'
      → Agree own (parted_from u on name) (parted_from u on' name)
  unfolding parted_from
  parted_from-Agree u on on' name p =
      on_chans-Agree on on' p u _ _ (λ n. ap (remove (lower name)) (p u n))

  kicked-Agree :
      (chan : CString) (on on' : Membership) (user : Option ℕ)
      → Agree own on on'
      → Agree own (kicked chan on user) (kicked chan on' user)
  unfolding kicked parted_from
  kicked-Agree chan on on' none p = p
  kicked-Agree chan on on' (some u) p =
      on_chans-Agree on on' p u _ _ (λ n. ap (remove (lower chan)) (p u n))

  pub kicked_from-Agree :
      (user_find : CString → Option ℕ) (chan : CString) (on on' : Membership) (name : CString)
      → Agree own on on'
      → Agree own (kicked_from user_find chan on name) (kicked_from user_find chan on' name)
  unfolding kicked_from
  kicked_from-Agree user_find chan on on' name = kicked-Agree chan on on' (user_find name)

  pub each-Agree :
      (f : Membership → CString → Membership)
      → ((on on' : Membership) (x : CString) → Agree own on on' → Agree own (f on x) (f on' x))
      → (on on' : Membership) (xs : List CString) → Agree own on on'
      → Agree own (each f on xs) (each f on' xs)
  each-Agree f keeps on on' [] p = p
  each-Agree f keeps on on' (x ∷ xs) p = each-Agree f keeps (f on x) (f on' x) xs (keeps on on' x p)

joined_to-other :
    (o : ℕ) (on : Membership) (name : CString) (v : ℕ)
    → (v == o) ≡ false
    → joined_to o on name v ≡ on v
unfolding joined_to on_chans
joined_to-other o on [] v q = refl
joined_to-other o on (c ∷ name) v q = elim (Bool-cases (c == b'0')) [
  | inl r ↦ rw (r, q) refl
  | inr r ↦ rw (r, q) refl
]

-- What the own client joins is of no concern to the others.
pub joined_to-own :
    (o : ℕ) (on : Membership) (names : List CString)
    → Agree (some o) (each (joined_to o) on names) on
joined_to-own o on [] v n = refl
joined_to-own o on (name ∷ names) v n =
    joined_to-own o (joined_to o on name) names v n ∙ joined_to-other o on name v (==_swap o v n)
