-- ===== src/Cron/Lookup.antt =====
-- The table of the cron events as a map from names, up to case, to chains of events, src/cron.c.
use denora.Prelude.{
  ℕ, ◌<◌, ◌≡◌, ◌≢◌, ap, sym, ◌∙◌, false, List, [], ◌∷◌, some, CString, inl, inr, Bool-cases, arith,
  stricmp_eq, length, get_elem?, set, ◌==◌, ==_iff, if◌then◌else◌, length-set, of_some,
  get_elem?-lt, get_elem?-set_same, get_elem?-set_other,
}
use denora.Cron.Events.{
  CronEvent, CronEventHash, Table, max_cmd_hash, cmd_hash, find_in, find_at, find_cron_event,
  add_in, add_cron_event, err_ok,
}
use denora.Cron.Names.{cmd_hash_lt, stricmp_eq-same, stricmp_eq-differ, stricmp_eq-hash}

-- Names that stand in other buckets differ.
differ :
    (c d : ℕ) (s r : CString) (i j : ℕ)
    → cmd_hash (c ∷ s) ≡ some i
    → cmd_hash (d ∷ r) ≡ some j
    → i ≢ j
    → stricmp_eq (d ∷ r) (c ∷ s) ≡ false
differ c d s r i j hi hj ne = elim (Bool-cases (stricmp_eq (d ∷ r) (c ∷ s))) [
  | inl f ↦ absurd (ne (ap (of_some 0) (sym hi ∙ sym (stricmp_eq-hash d r (c ∷ s) f) ∙ hj)))
  | inr f ↦ f
]

module _ {S : Type 0} where
  -- The table has all of its buckets.
  abbrev pub IsTable : Table S → Type 0
  IsTable t = length t ≡ max_cmd_hash

  find_in-add_in :
      (e : CronEvent S) (c d : ℕ) (s r : CString) (b : List (CronEventHash S))
      → e.name ≡ c ∷ s
      → find_in (d ∷ r) (add_in e [] b)
        ≡ (if stricmp_eq (d ∷ r) (c ∷ s) then e ∷ find_in (d ∷ r) b else find_in (d ∷ r) b)
  unfolding find_in add_in
  find_in-add_in e c d s r [] en = rw en
  find_in-add_in e c d s r (h ∷ b) en = elim (Bool-cases (stricmp_eq (c ∷ s) h.name)) [
    | inl q ↦
        rw (ap (λ n. stricmp_eq n h.name) en ∙ q, stricmp_eq-same c d s r h.name q)
          (elim (Bool-cases (stricmp_eq (d ∷ r) (c ∷ s))) [ inl f ↦ rw f | inr f ↦ rw f ])
    | inr q ↦
        rw (ap (λ n. stricmp_eq n h.name) en ∙ q) (elim (Bool-cases (stricmp_eq (d ∷ r) h.name)) [
          | inl f ↦ rw (f, stricmp_eq-differ c d s r h.name q f)
          | inr f ↦ rw f (find_in-add_in e c d s r b en)
        ])
  ]

  find_in-set :
      (t : Table S) (e : CronEvent S) (c d : ℕ) (s r : CString) (i j : ℕ)
      (b b' : List (CronEventHash S))
      → e.name ≡ c ∷ s
      → cmd_hash (c ∷ s) ≡ some i
      → cmd_hash (d ∷ r) ≡ some j
      → i < length t
      → get_elem? t i ≡ some b
      → get_elem? t j ≡ some b'
      → find_at (d ∷ r) (get_elem? (set t i (add_in e [] b)) j)
        ≡ some (if stricmp_eq (d ∷ r) (c ∷ s) then e ∷ find_in (d ∷ r) b' else find_in (d ∷ r) b')
  find_in-set t e c d s r i j b b' en hi hj lt bi bj = elim (Bool-cases (i == j)) [
    | inl q ↦
        let p : i ≡ j = (==_iff i j).0 q in
        let k : b ≡ b' = ap (of_some []) (sym bi ∙ ap (get_elem? t) p ∙ bj) in
        rw (← p, ← k, get_elem?-set_same t i (add_in e [] b) lt, find_in-add_in e c d s r b en)
    | inr q ↦
        let ne : i ≢ j = (λ p. absurd (ground (arith, p))) in
        rw (get_elem?-set_other t i j (add_in e [] b) ne, bj, differ c d s r i j hi hj ne)
  ]

  -- After `addCronEvent` of an event with no successor, a lookup finds the event in front of what
  -- it found before when the names are equal up to case, and what it found before otherwise. In a
  -- table with all of its buckets and for names that are not empty neither call leaves an array.
  pub find_cron_event-add_cron_event :
      (t : Table S) (e : CronEvent S) (c d : ℕ) (s r : CString)
      → IsTable t
      → e.name ≡ c ∷ s
      → (t' : Table S) × (es : List (CronEvent S)) × (add_cron_event t (e ∷ []) ≡ some (err_ok, t'))
        × IsTable t'
        × (find_cron_event t (d ∷ r) ≡ some es)
        × (find_cron_event t' (d ∷ r) ≡ some (if stricmp_eq (d ∷ r) (c ∷ s) then e ∷ es else es))
  unfolding find_cron_event add_cron_event
  find_cron_event-add_cron_event t e c d s r w en =
      let (i, hi, li) = cmd_hash_lt c s in
      let (j, hj, lj) = cmd_hash_lt d r in
      let (b, bi) = get_elem?-lt t i (omega arith) in
      let (b', bj) = get_elem?-lt t j (omega arith) in
      (
        set t i (add_in e [] b),
        find_in (d ∷ r) b',
        rw (en, hi, bi),
        length-set t i (add_in e [] b) ∙ w,
        rw (hj, bj),
        rw (hj) (find_in-set t e c d s r i j b b' en hi hj (omega arith) bi bj),
      )
