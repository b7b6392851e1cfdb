-- ===== src/Modes/Registry.antt =====
-- The table of channel modes as a map from letters to handlers, src/ChanMode.c.
use denora.Prelude.{
  ℕ, ◌<◌, ◌≡◌, refl, ap, sym, ◌∙◌, List, [], ◌∷◌, Option, none, some, inl, inr, Bool-cases, arith,
  length, get_elem?, set, ◌==◌, ==_iff, ==_ne, if◌then◌else◌, length-set, of_some, get_elem?-lt,
  get_elem?-set_same, get_elem?-set_other, lt→ltb,
}
use denora.Cron.Events.{err_ok}
use denora.Modes.Tables.{
  bucket, looked_up, replaced, changed, changed_in, registered, ModeHash, Buckets, max_mode_hash,
  err_exists, mode_hash_sensitive, find_mode, put_mode, find_chan_mode, add_chan_mode, ModeState,
  module_set_chan_mode, create_chan_mode,
}
use denora.Modes.Letters.{
  IsLetter, letter_hash, letter_hash_lt, mode_hash-letter, printed-letter, AllLetters, put_lem,
}

flag-set :
    (flags : List ℕ) (m c k : ℕ)
    → m < length flags
    → get_elem? flags c ≡ some k
    → get_elem? (set flags m 1) c ≡ some (if c == m then 1 else k)
flag-set flags m c k lt e = elim (Bool-cases (c == m)) [
  | inl q ↦ rw (q, (==_iff c m).0 q) (get_elem?-set_same flags m 1 lt)
  | inr q ↦ rw q (get_elem?-set_other flags m c 1 (λ p. absurd (ground (arith, p))) ∙ e)
]

module _ {V : Type 0} where
  -- The table and the flags have all of their places, and an entry stands in the bucket of its
  -- letter.
  pub record IsRegistry (st : ModeState V) : Type 0 where
    pub all_buckets : length st.handlers ≡ max_mode_hash
    pub all_flags : length st.cmodes ≡ 128
    pub in_place :
        (i : ℕ) (b : List (ModeHash V)) → get_elem? st.handlers i ≡ some b → AllLetters i b

  -- A letter keeps the first handler that it gets.
  abbrev pub first : Option V → V → Option V
  first none v = some v
  first (some w) v = some w

  -- What a state says of a letter: its handler, and its flag.
  abbrev pub Says : ModeState V → ℕ → Option V → ℕ → Type 0
  Says st c o k =
      (find_chan_mode st.handlers (some (c ∷ [])) ≡ some o) × (get_elem? st.cmodes c ≡ some k)

  pub find_chan_mode-letter :
      (t : Buckets V) (c : ℕ)
      → find_chan_mode t (some (c ∷ []))
        ≡ looked_up find_mode (c ∷ []) (get_elem? t (letter_hash c))
  unfolding find_chan_mode
  find_chan_mode-letter t c =
      ap (λ o. looked_up find_mode (c ∷ []) (bucket t o)) (mode_hash-letter c)

  -- What `CreateChanMode` does with a letter, when its bucket is `b`.
  create_chan_mode-letter :
      (st : ModeState V) (m : ℕ) (v : V) (b : List (ModeHash V)) (t : Buckets V) (code : ℕ)
      → IsLetter m
      → m < length st.cmodes
      → get_elem? st.handlers (letter_hash m) ≡ some b
      → replaced err_exists st.handlers (letter_hash m) (put_mode (m ∷ []) v b) ≡ (code, t)
      → create_chan_mode st m v ≡ some (record { handlers = t; cmodes = set st.cmodes m 1 })
  unfolding create_chan_mode add_chan_mode module_set_chan_mode
  create_chan_mode-letter st m v b t code lm lt e k = rw (==_ne m 0 (omega arith)) (
      ap
        (λ n.
          registered st.cmodes m
            (changed err_exists (put_mode n v) st.handlers (mode_hash_sensitive n)))
        (printed-letter m lm)
      ∙ ap (λ o. registered st.cmodes m (changed err_exists (put_mode (m ∷ []) v) st.handlers o))
          (mode_hash-letter m)
      ∙ ap
          (λ o.
            registered st.cmodes m
              (changed_in err_exists (put_mode (m ∷ []) v) st.handlers (letter_hash m) o))
          e
      ∙ ap (λ x. registered st.cmodes m (some x)) k
      ∙ rw (lt→ltb m (length st.cmodes) lt))

  module _ (st : ModeState V) (r : IsRegistry st) where
    in_place-set :
        (i : ℕ) (b' : List (ModeHash V))
        → i < length st.handlers
        → AllLetters i b'
        → (j : ℕ) (b : List (ModeHash V)) → get_elem? (set st.handlers i b') j ≡ some b
        → AllLetters j b
    in_place-set i b' lt a j b e = elim (Bool-cases (i == j)) [
      | inl q ↦
          let p : i ≡ j = (==_iff i j).0 q in
          let k : b' ≡ b = ap (of_some []) (
            sym (get_elem?-set_same st.handlers i b' lt)
            ∙ ap (get_elem? (set st.handlers i b')) p
            ∙ e) in
          rw (← p, ← k) a
      | inr q ↦
          r.in_place j b
            (sym (get_elem?-set_other st.handlers i j b' (λ p. absurd (ground (arith, p)))) ∙ e)
    ]

    -- What is known of a letter is what its bucket says.
    bucket-says :
        (c : ℕ) (o : Option V) (b : List (ModeHash V))
        → get_elem? st.handlers (letter_hash c) ≡ some b
        → find_chan_mode st.handlers (some (c ∷ [])) ≡ some o
        → find_mode (c ∷ []) b ≡ o
    bucket-says c o b e says =
        ap (of_some none)
          (sym (find_chan_mode-letter st.handlers c ∙ ap (looked_up find_mode (c ∷ [])) e) ∙ says)

    -- A lookup in the table whose bucket of `m` was replaced.
    find-set :
        (m c : ℕ) (v : V) (o : Option V) (b b' : List (ModeHash V))
        → letter_hash m < length st.handlers
        → get_elem? st.handlers (letter_hash m) ≡ some b
        → find_mode (m ∷ []) b ≡ none
        → find_mode (c ∷ []) b' ≡ (if c == m then some v else find_mode (c ∷ []) b)
        → find_chan_mode st.handlers (some (c ∷ [])) ≡ some o
        → find_chan_mode (set st.handlers (letter_hash m) b') (some (c ∷ []))
          ≡ some (if c == m then first o v else o)
    find-set m c v o b b' lt e f g says = elim (Bool-cases (letter_hash m == letter_hash c)) [
      | inl q ↦
          let p : letter_hash m ≡ letter_hash c = (==_iff _ _).0 q in
          let known = bucket-says c o b (ap (get_elem? st.handlers) (sym p) ∙ e) says in
          find_chan_mode-letter (set st.handlers (letter_hash m) b') c
          ∙ ap (looked_up find_mode (c ∷ [])) (
              ap (get_elem? (set st.handlers (letter_hash m) b')) (sym p)
              ∙ get_elem?-set_same st.handlers (letter_hash m) b' lt)
          ∙ ap some (g ∙ chosen known)
      | inr q ↦
          find_chan_mode-letter (set st.handlers (letter_hash m) b') c
          ∙ ap (looked_up find_mode (c ∷ [])) (
              get_elem?-set_other st.handlers (letter_hash m) (letter_hash c) b'
                (λ p. absurd (ground (arith, p))))
          ∙ sym (find_chan_mode-letter st.handlers c)
          ∙ says
          ∙ rw (==_ne c m (λ p. absurd (let z = ap letter_hash p in ground (arith, z))))
    ]
      where
        chosen :
            find_mode (c ∷ []) b ≡ o
            → (if c == m then some v else find_mode (c ∷ []) b) ≡ (if c == m then first o v else o)
        chosen k = elim (Bool-cases (c == m)) [
          | inl q ↦
              let z : o ≡ none = sym k ∙ ap (λ x. find_mode (x ∷ []) b) ((==_iff c m).0 q) ∙ f in
              rw (q, z)
          | inr q ↦ rw (q, k)
        ]

    -- The handler of a letter that has one stays.
    first-known :
        (m c : ℕ) (v w : V) (o : Option V) (b : List (ModeHash V))
        → get_elem? st.handlers (letter_hash m) ≡ some b
        → find_mode (m ∷ []) b ≡ some w
        → find_chan_mode st.handlers (some (c ∷ [])) ≡ some o
        → o ≡ (if c == m then first o v else o)
    first-known m c v w o b e f says = elim (Bool-cases (c == m)) [
      | inl q ↦
          let p : c ≡ m = (==_iff c m).0 q in
          let z : o ≡ some w =
            sym (bucket-says c o b (ap (λ x. get_elem? st.handlers (letter_hash x)) p ∙ e) says)
            ∙ ap (λ x. find_mode (x ∷ []) b) p
            ∙ f in
          rw (q, z)
      | inr q ↦ rw q
    ]

    pub create_lem :
        (m c k : ℕ) (v : V) (o : Option V)
        → IsLetter m
        → IsLetter c
        → Says st c o k
        → (st' : ModeState V) × (create_chan_mode st m v ≡ some st')
          × IsRegistry st'
          × Says st' c (if c == m then first o v else o) (if c == m then 1 else k)
    create_lem m c k v o lm lc (says, flag) =
        let i = letter_hash m in
        let lt : i < length st.handlers = omega (arith, r.all_buckets, letter_hash_lt m) in
        let room : m < length st.cmodes = omega (arith, r.all_flags) in
        let (b, e) = get_elem?-lt st.handlers i lt in
        let flags = flag-set st.cmodes m c k room flag in
        let all = length-set st.cmodes m 1 ∙ r.all_flags in
        elim (put_lem i m c v b lm refl (r.in_place i b e)) [
          | inl (w, f, p) ↦ (
            record { handlers = st.handlers; cmodes = set st.cmodes m 1 },
            create_chan_mode-letter st m v b st.handlers err_exists lm room e
                (ap (replaced err_exists st.handlers i) p),
            record { all_buckets = r.all_buckets; all_flags = all; in_place = r.in_place },
            (says ∙ ap some (first-known m c v w o b e f says), flags),
          )
          | inr (f, (b', p, a, g)) ↦ (
            record { handlers = set st.handlers i b'; cmodes = set st.cmodes m 1 },
            create_chan_mode-letter st m v b (set st.handlers i b') err_ok lm room e
                (ap (replaced err_exists st.handlers i) p),
            record {
              all_buckets = length-set st.handlers i b' ∙ r.all_buckets;
              all_flags = all;
              in_place = in_place-set i b' lt a;
            },
            (find-set m c v o b b' lt e f g says, flags),
          )
        ]
