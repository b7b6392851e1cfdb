-- ===== src/Channels/Changes.antt =====
-- What src/channels.c does to the store of the channels and keeps its invariant by: a channel is
-- written, deleted or made.
use denora.Prelude.{
  ◌-◌, ℕ, suc, ◌+◌, ◌<◌, ◌≤◌, ◌≡◌, refl, ap, sym, ◌∙◌, false, List, [], ◌∷◌, Option, none, some,
  inl, inr, Bool-cases, arith, get_elem?, get_elem?-set_same, get_elem?-set_other, length,
  length-set, set, ◌==◌, ==_iff, ==_refl, of_some,
}
use denora.Bans.Queries.{Channel}
use denora.Channels.{chan_hash, write, erase, chanmax}
use denora.Channels.Store.{
  total-set, length-erase, IsStore, occurs, users_of, placed, occurs-erase_same, occurs-erase_other,
  ==_swap, write_cases, chan_hash_lt,
}

-- What holds of the bucket that is written, and of the others as they were, holds behind the write.
bucket_cases :
    (P : ℕ → List ℕ → Type 0) (cl : List (List ℕ)) (h : ℕ) (l : List ℕ)
    → h < length cl
    → P h l
    → ((i : ℕ) (m : List ℕ) → (h == i) ≡ false → get_elem? cl i ≡ some m → P i m)
    → (i : ℕ) (m : List ℕ) → get_elem? (set cl h l) i ≡ some m
    → P i m
bucket_cases P cl h l lt here there i m j = elim (Bool-cases (h == i)) [
  | inl q ↦
      let same = (==_iff h i).0 q in
      let found : l ≡ m =
        ap (of_some l) (sym (get_elem?-set_same cl h l lt) ∙ rw (sym same) at j) in
      rw (← same, ← found) here
  | inr q ↦ there i m q (
      sym (
        get_elem?-set_other cl h i l
          (λ k. absurd (let z = (==_iff h i).1 k in ground (arith, z, q))))
      ∙ j)
]

module _ (chans chans' : ℕ → List ℕ) (cl : List (List ℕ)) (heap : ℕ → Option Channel)
    (free n count a : ℕ) (c : Channel) (v : IsStore chans cl heap free n count)
    (e : heap a ≡ some c) where
  -- A channel that is there, but for its name and the place of its counts.
  pub IsStore-update :
      (c' : Channel)
      → c'.name ≡ c.name
      → c'.stats ≡ c.stats
      → ((u b : ℕ) → occurs b (chans' u) ≡ occurs u (users_of (write heap a (some c') b)))
      → IsStore chans' cl (write heap a (some c')) free n count
  IsStore-update c' en es both = record {
    buckets = v.buckets;
    in_place = λ i b l k.
        write_cases (λ x o. occurs x l ≡ placed o i) heap a (some c') b
          (v.in_place i a l k ∙ rw (e, en) refl) (λ q. v.in_place i b l k);
    both = both;
    fresh = λ b le.
        write_cases (λ x o. free ≤ x → o ≡ none) heap a (some c') b
          (λ k. absurd (let z = sym e ∙ v.fresh a k in ground (arith, z))) (λ q. v.fresh b) le;
    counts = λ b d.
        write_cases (λ x o. o ≡ some d → d.stats < n) heap a (some c') b
          (λ k. rw (← ap (of_some c) k, es) (v.counts a c e)) (λ q. v.counts b d);
    number = v.number;
    short = λ b d.
        write_cases (λ x o. o ≡ some d → length d.name < chanmax) heap a (some c') b
          (λ k. rw (← ap (of_some c) k, en) (v.short a c e)) (λ q. v.short b d);
  }

module _ (chans : ℕ → List ℕ) (cl : List (List ℕ)) (heap : ℕ → Option Channel) (free n count : ℕ)
    (v : IsStore chans cl heap free n count) where
  -- A channel that has no users, taken out of its bucket.
  pub IsStore-delete :
      (a : ℕ) (c : Channel) (l : List ℕ)
      → heap a ≡ some c
      → c.users ≡ []
      → get_elem? cl (chan_hash c.name) ≡ some l
      → IsStore chans (set cl (chan_hash c.name) (erase a l)) (write heap a none) free n (count - 1)
  IsStore-delete a c l e no_users k =
      let h = chan_hash c.name in
      let lt : h < length cl = omega (arith, v.buckets, chan_hash_lt c.name) in
      let here : occurs a l ≡ 1 = v.in_place h a l k ∙ rw (e, ==_refl h) refl in
      record {
        buckets = length-set cl h (erase a l) ∙ v.buckets;
        in_place = λ i b m j.
            bucket_cases (λ x m. (y : ℕ) → occurs y m ≡ placed (write heap a none y) x) cl h
              (erase a l) lt
              (λ y.
                write_cases (λ x o. occurs x (erase a l) ≡ placed o h) heap a none y
                  (occurs-erase_same a l ∙ rw here refl)
                  (λ q. occurs-erase_other y a l q ∙ v.in_place h y l k))
              (λ x m other g y.
                write_cases (λ y o. occurs y m ≡ placed o x) heap a none y
                  (v.in_place x a m g ∙ rw (e, other) refl) (λ q. v.in_place x y m g))
              i m j b;
        both = λ u b.
            write_cases (λ x o. occurs x (chans u) ≡ occurs u (users_of o)) heap a none b
              (v.both u a ∙ rw (e, no_users) refl) (λ q. v.both u b);
        fresh = λ b le. write_cases (λ x o. o ≡ none) heap a none b refl (λ q. v.fresh b le);
        counts = λ b d.
            write_cases (λ x o. o ≡ some d → d.stats < n) heap a none b
              (λ j. absurd (ground (arith, j))) (λ q. v.counts b d);
        number =
            (let sizes = total-set cl h l (erase a l) k in
              let shorter = length-erase a l (omega (arith, here)) in
              omega (arith, sizes, shorter, v.number));
        short = λ b d.
            write_cases (λ x o. o ≡ some d → length d.name < chanmax) heap a none b
              (λ j. absurd (ground (arith, j))) (λ q. v.short b d);
      }

  -- A channel that is new and has no users, in front of its bucket.
  pub IsStore-create :
      (c : Channel) (l : List ℕ) (n' : ℕ)
      → c.users ≡ []
      → length c.name < chanmax
      → c.stats < n'
      → n ≤ n'
      → get_elem? cl (chan_hash c.name) ≡ some l
      → IsStore chans
          (set cl (chan_hash c.name) (free ∷ l))
          (write heap free (some c))
          (free + 1)
          n'
          (count + 1)
  IsStore-create c l n' no_users fits lt_n le_n k =
      let h = chan_hash c.name in
      let lt : h < length cl = omega (arith, v.buckets, chan_hash_lt c.name) in
      let none_here : heap free ≡ none = v.fresh free (omega arith) in
      record {
        buckets = length-set cl h (free ∷ l) ∙ v.buckets;
        in_place = λ i b m j.
            bucket_cases (λ x m. (y : ℕ) → occurs y m ≡ placed (write heap free (some c) y) x) cl h
              (free ∷ l) lt
              (λ y.
                write_cases (λ x o. occurs x (free ∷ l) ≡ placed o h) heap free (some c) y
                  (rw (==_refl free, ==_refl h)
                    (ap suc (v.in_place h free l k ∙ rw none_here refl)))
                  (λ q. rw (==_swap y free q) (v.in_place h y l k)))
              (λ x m other g y.
                write_cases (λ y o. occurs y m ≡ placed o x) heap free (some c) y
                  (v.in_place x free m g ∙ rw (none_here, other) refl) (λ q. v.in_place x y m g))
              i m j b;
        both = λ u b.
            write_cases (λ x o. occurs x (chans u) ≡ occurs u (users_of o)) heap free (some c) b
              (v.both u free ∙ rw (none_here, no_users) refl) (λ q. v.both u b);
        fresh = λ b le.
            write_cases (λ x o. free + 1 ≤ x → o ≡ none) heap free (some c) b
              (λ k. absurd (omega arith)) (λ q k. v.fresh b (omega arith)) le;
        counts = λ b d.
            write_cases (λ x o. o ≡ some d → d.stats < n') heap free (some c) b
              (λ j. rw (← ap (of_some c) j) lt_n)
              (λ q j. let z = v.counts b d j in omega (arith, z, le_n));
        number = (let sizes = total-set cl h l (free ∷ l) k in omega (arith, sizes, v.number));
        short = λ b d.
            write_cases (λ x o. o ≡ some d → length d.name < chanmax) heap free (some c) b
              (λ j. rw (← ap (of_some c) j) fits) (λ q. v.short b d);
      }
