-- ===== src/Modes/Refinement.antt =====
-- Any run of registrations of channel modes against an association list, and the deletion of a mode
-- of an upper-case letter, src/ChanMode.c.
use denora.Prelude.{
  ℕ, ◌*◌, ◌%◌, ◌^◌, ◌≤◌, ◌≡◌, ◌≢◌, Option-cases, refl, ap, sym, ◌∙◌, Bool, true, false, List, [],
  ◌∷◌, Option, none, some, inl, inr, arith, get_elem?, set, length, ◌==◌, if◌then◌else◌, replicate,
  length-replicate, get_elem?-replicate, get_elem?-replicate-some, get_elem?-lt,
  get_elem?-set_other,
}
use denora.Cron.Events.{cmd_hash, err_ok}
use denora.Modes.Tables.{
  ModeHash, Buckets, max_mode_hash, looked_up, replaced, changed_in, find_mode, cut_mode,
  find_chan_mode, err_noexist, ModeState, create_chan_mode, del_chan_mode,
}
use denora.Modes.Letters.{IsLetter, letter_hash, letter_hash_lt}
use denora.Modes.Registry.{IsRegistry, Says, first, create_lem, find_chan_mode-letter}

upper_ne : (m : ℕ) → 65 ≤ m → m ≤ 90 → letter_hash m ≢ m % 2 ^ 5 * 2 ^ 5
unfolding letter_hash
upper_ne m lo hi = λ h. absurd (ground (arith, h))

module _ {V : Type 0} where
  -- The state before the first registration.
  abbrev pub new_state : ModeState V
  new_state = record { handlers = replicate max_mode_hash []; cmodes = replicate 128 0 }

  -- Registrations in a row.
  abbrev pub then_create :
      (ModeState V → Option (ModeState V)) → Option (ModeState V) → Option (ModeState V)
  then_create go none = none
  then_create go (some st) = go st

  abbrev pub create_all : List (ℕ × V) → ModeState V → Option (ModeState V)
  create_all [] st = some st
  create_all ((m, v) ∷ ops) st = then_create (create_all ops) (create_chan_mode st m v)

  abbrev pub AllLetterOps : List (ℕ × V) → Type 0
  AllLetterOps [] = Unit
  AllLetterOps ((m, v) ∷ ops) = IsLetter m × AllLetterOps ops

  -- The first handler of a letter in an association list.
  abbrev pub handler_of : ℕ → List (ℕ × V) → Option V
  handler_of c [] = none
  handler_of c ((m, v) ∷ ops) = let rest = handler_of c ops in if c == m then some v else rest

  abbrev pub flag_of : Option V → ℕ → ℕ
  flag_of none k = k
  flag_of (some v) k = 1

  abbrev or_else : Option V → Option V → Option V
  or_else none p = p
  or_else (some v) p = some v

  or_else-none : (o : Option V) → or_else o none ≡ o
  or_else-none none = refl
  or_else-none (some v) = refl

  or_else-first :
      (b : Bool) (v : V) (o p : Option V)
      → or_else (if b then first o v else o) p ≡ or_else o (if b then some v else p)
  or_else-first true v none p = refl
  or_else-first true v (some w) p = refl
  or_else-first false v o p = refl

  flag_of-if :
      (b : Bool) (v : V) (p : Option V) (k : ℕ)
      → flag_of p (if b then 1 else k) ≡ flag_of (if b then some v else p) k
  flag_of-if true v none k = refl
  flag_of-if true v (some w) k = refl
  flag_of-if false v p k = refl

  create_all_lem :
      (ops : List (ℕ × V)) (st : ModeState V) (c k : ℕ) (o : Option V)
      → IsRegistry st
      → AllLetterOps ops
      → IsLetter c
      → Says st c o k
      → (st' : ModeState V) × (create_all ops st ≡ some st')
        × IsRegistry st'
        × Says st' c (or_else o (handler_of c ops)) (flag_of (handler_of c ops) k)
  create_all_lem [] st c k o r l lc says =
      (st, refl, r, (says.0 ∙ ap some (sym (or_else-none o)), says.1))
  create_all_lem ((m, v) ∷ ops) st c k o r (lm, l) lc says =
      let (st₁, e, r₁, s₁) = create_lem st r m c k v o lm lc says in
      let (st₂, e₂, r₂, (f, g)) = create_all_lem ops st₁ c _ _ r₁ l lc s₁ in
      (
        st₂,
        rw e e₂,
        r₂,
        (
          f ∙ ap some (or_else-first (c == m) v o (handler_of c ops)),
          g ∙ ap some (flag_of-if (c == m) v (handler_of c ops) k),
        ),
      )

  new_state-IsRegistry : IsRegistry new_state
  new_state-IsRegistry = record {
    all_buckets = length-replicate {A = List (ModeHash V)} max_mode_hash [];
    all_flags = length-replicate {A = ℕ} 128 0;
    in_place = λ i b e. rw (← get_elem?-replicate-some max_mode_hash i [] b e) tt;
  }

  -- Any run of `CreateChanMode` for letters, from empty tables on, keeps to the tables, and leaves
  -- them as an association list of the calls: `FindChanMode` of a letter finds the handler of its
  -- first registration, upper and lower case told apart, and the flag of the letter is set when it
  -- has one.
  pub create_all_refines :
      (ops : List (ℕ × V)) (c : ℕ)
      → AllLetterOps ops
      → IsLetter c
      → (st : ModeState V) × (create_all ops new_state ≡ some st)
        × (find_chan_mode st.handlers (some (c ∷ [])) ≡ some (handler_of c ops))
        × (get_elem? st.cmodes c ≡ some (flag_of (handler_of c ops) 0))
  unfolding find_mode
  create_all_refines ops c l lc =
      let empty =
        find_chan_mode-letter new_state.handlers c
        ∙ ap (looked_up find_mode (c ∷ []))
            (get_elem?-replicate max_mode_hash (letter_hash c) [] (letter_hash_lt c)) in
      let (st, e, r, (f, g)) =
        create_all_lem ops new_state c 0 none new_state-IsRegistry l lc
          (empty, get_elem?-replicate 128 c 0 lc.1) in
      (st, e, f, g)

  -- `delChanMode` of a mode of an upper-case letter leaves the handler of that letter in the table,
  -- whatever it answers, in a table with all of its buckets.
  pub del_chan_mode-upper :
      (t : Buckets V) (m : ℕ)
      → length t ≡ max_mode_hash
      → 65 ≤ m
      → m ≤ 90
      → (code : ℕ) × (t' : Buckets V) × (del_chan_mode t (some (m ∷ [])) ≡ some (code, t'))
        × (find_chan_mode t' (some (m ∷ [])) ≡ find_chan_mode t (some (m ∷ [])))
  unfolding del_chan_mode cmd_hash
  del_chan_mode-upper t m w lo hi =
      let i = m % 2 ^ 5 * 2 ^ 5 in
      let (b, e) = get_elem?-lt t i (omega arith) in
      let other : letter_hash m ≢ i = upper_ne m lo hi in
      elim (Option-cases (cut_mode (m ∷ []) b)) [
        | inl p ↦ (
          err_noexist,
          t,
          ap (changed_in err_noexist (cut_mode (m ∷ [])) t i) e
              ∙ ap (λ o. some (replaced err_noexist t i o)) p,
          refl,
        )
        | inr (b', p) ↦ (
          err_ok,
          set t i b',
          ap (changed_in err_noexist (cut_mode (m ∷ [])) t i) e
              ∙ ap (λ o. some (replaced err_noexist t i o)) p,
          find_chan_mode-letter (set t i b') m
              ∙ ap (looked_up find_mode (m ∷ []))
                  (get_elem?-set_other t i (letter_hash m) b' (λ q. other (sym q)))
              ∙ sym (find_chan_mode-letter t m),
        )
      ]
