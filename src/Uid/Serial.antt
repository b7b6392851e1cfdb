-- ===== src/Uid/Serial.antt =====
-- The ids that one run of the program hands out.
use denora.Prelude.{
  ℕ, zero, suc, ◌+◌, ◌%◌, ◌<◌, ◌≡◌, ◌≢◌, refl, sym, ap, ◌∙◌, true, false, [], ◌∷◌, Option, none,
  some, CString, arith, if◌then◌else◌,
}
use mathlib.Core.Path.{subst}
use denora.Uid.{
  UidState, fault, ts6_uid_init, init_sid, first_uid, increment_sid, ts6_uid_retrieve,
  retrieve_next, uid_gen,
}
use denora.Uid.Marks.{Tail, IsTail, serial, all_uids}
use denora.Uid.Step.{buffer, ts6_uid_increment-serial}

-- `n` calls of `ts6_uid_retrieve` one after the other: the state behind them, and the last id.
unfoldable pub retrieve_times : ℕ → UidState → Option (UidState × CString)
retrieve_times zero st = some (st, st.ts6_new_uid)
retrieve_times (suc n) st = elim (retrieve_times n st) [
  | none ↦ none
  | some (st', u) ↦ ts6_uid_retrieve st'
]

retrieve_times-suc :
    (n : ℕ) (st : UidState) (r : UidState × CString)
    → retrieve_times n st ≡ some r
    → retrieve_times (suc n) st ≡ ts6_uid_retrieve r.0
unfolding retrieve_times
retrieve_times-suc n st r e = rw e

wrap_suc : (n : ℕ) → (suc n % all_uids + 1) % all_uids ≡ suc (suc n) % all_uids
wrap_suc n = omega arith

-- The characters behind the SID, read back from a buffer.
abbrev tail_of : CString → Tail
tail_of (_ ∷ _ ∷ _ ∷ a ∷ b ∷ c ∷ d ∷ e ∷ f ∷ s) = record {
  t₀ = a;
  t₁ = b;
  t₂ = c;
  t₃ = d;
  t₄ = e;
  t₅ = f;
}
tail_of s = record { t₀ = 0; t₁ = 0; t₂ = 0; t₃ = 0; t₄ = 0; t₅ = 0 }

module _ (s₀ s₁ s₂ : ℕ) where
  -- the id `u` is valid and has the number `n`
  abbrev pub HasSerial : ℕ → CString → Type 0
  HasSerial n u = (t : Tail) × (u ≡ buffer s₀ s₁ s₂ t) × IsTail t × (serial t ≡ n)

  -- The generator runs with the SID, and its last id has the number `n`.
  pub record Holds (n : ℕ) (st : UidState) : Type 0 where
    pub initted : st.ts6_uid_initted ≡ true
    pub has_sid : st.ts6sid ≡ some (s₀ ∷ s₁ ∷ s₂ ∷ [])
    pub number : HasSerial n st.ts6_new_uid

  -- The program has an SID and has not made an id yet.
  pub record IsFresh (st : UidState) : Type 0 where
    pub not_initted : st.ts6_uid_initted ≡ false
    pub sid : st.ts6sid ≡ some (s₀ ∷ s₁ ∷ s₂ ∷ [])

  retrieve_next-Holds :
      (n : ℕ) (st : UidState)
      → Holds n st
      → (r : UidState × CString) × (retrieve_next st ≡ some r)
        × (r.0.ts6_new_uid ≡ r.1)
        × Holds ((n + 1) % all_uids) r.0
  unfolding retrieve_next increment_sid
  retrieve_next-Holds n st h =
      let (t, e, w, k) = h.number in
      let (t', e', w', k') = ts6_uid_increment-serial s₀ s₁ s₂ t w in
      let u = buffer s₀ s₁ s₂ t' in
      (
        (record st { ts6_new_uid = u }, u),
        rw (h.has_sid, e, e'),
        refl,
        record { initted = h.initted; has_sid = h.has_sid; number = (t', refl, w', rw (← k) k') },
      )

  ts6_uid_init-Holds : (st : UidState) → IsFresh st → Holds 0 (ts6_uid_init st)
  unfolding ts6_uid_init init_sid first_uid
  ts6_uid_init-Holds st h =
      rw (ts6_uid_init, h.sid)
        (record {
          initted = refl;
          has_sid = refl;
          number = (
            record { t₀ = b'A'; t₁ = b'A'; t₂ = b'A'; t₃ = b'A'; t₄ = b'A'; t₅ = b'A' },
            refl,
            ground arith,
            refl,
          );
        })

  ts6_uid_retrieve-initted :
      (st : UidState) → st.ts6_uid_initted ≡ true → ts6_uid_retrieve st ≡ retrieve_next st
  unfolding ts6_uid_retrieve
  ts6_uid_retrieve-initted st h = ap (λ b. retrieve_next (if b then st else ts6_uid_init st)) h

  ts6_uid_retrieve-fresh :
      (st : UidState)
      → st.ts6_uid_initted ≡ false
      → ts6_uid_retrieve st ≡ retrieve_next (ts6_uid_init st)
  unfolding ts6_uid_retrieve
  ts6_uid_retrieve-fresh st h = ap (λ b. retrieve_next (if b then st else ts6_uid_init st)) h

  retrieve_times-Holds :
      (n : ℕ) (st : UidState)
      → IsFresh st
      → (r : UidState × CString) × (retrieve_times (suc n) st ≡ some r)
        × (r.0.ts6_new_uid ≡ r.1)
        × Holds (suc n % all_uids) r.0
  unfolding retrieve_times
  retrieve_times-Holds zero st h =
      let (r, e, u, k) = retrieve_next-Holds 0 (ts6_uid_init st) (ts6_uid_init-Holds st h) in
      (r, ts6_uid_retrieve-fresh st h.not_initted ∙ e, u, k)
  retrieve_times-Holds (suc n) st h =
      let (r, e, u, k) = retrieve_times-Holds n st h in
      let (r', e', u', k') = retrieve_next-Holds (suc n % all_uids) r.0 k in
      (
        r',
        retrieve_times-suc (suc n) st r e ∙ ts6_uid_retrieve-initted r.0 k.initted ∙ e',
        u',
        subst (λ m. Holds m r'.0) (wrap_suc n) k',
      )

  -- If the program has an SID of three characters and has not made an id yet, `n + 1` calls of
  -- `ts6_uid_retrieve` do not fault, and the last returns the SID with six valid characters behind
  -- it, whose number is `n + 1` modulo 26 * 36 ^ 5.
  pub ts6_uid_retrieve-serial :
      (n : ℕ) (st : UidState)
      → IsFresh st
      → (r : UidState × CString) × (retrieve_times (suc n) st ≡ some r)
        × HasSerial (suc n % all_uids) r.1
  ts6_uid_retrieve-serial n st h =
      let (r, e, u, k) = retrieve_times-Holds n st h in
      (r, e, subst (HasSerial (suc n % all_uids)) u k.number)

  HasSerial-injective : (i j : ℕ) (u : CString) → HasSerial i u → HasSerial j u → i ≡ j
  HasSerial-injective i j u (t, e, w, k) (t', e', w', k') =
      sym k ∙ ap (λ s. serial (tail_of s)) (sym e ∙ e') ∙ k'

  -- With an SID of three characters, two ids that fewer than 26 * 36 ^ 5 calls of
  -- `ts6_uid_retrieve` lie between are different.
  pub ts6_uid_retrieve-ne :
      (i d : ℕ) (st : UidState) (r r' : UidState × CString)
      → IsFresh st
      → 0 < d
      → d < all_uids
      → retrieve_times (suc i) st ≡ some r
      → retrieve_times (suc (i + d)) st ≡ some r'
      → r.1 ≢ r'.1
  ts6_uid_retrieve-ne i d st r r' h pos few e e' same =
      let (q, f, k) = ts6_uid_retrieve-serial i st h in
      let (q', f', k') = ts6_uid_retrieve-serial (i + d) st h in
      let a : q ≡ r = cc in
      let b : q' ≡ r' = cc in
      let same_number : suc i % all_uids ≡ suc (i + d) % all_uids =
        HasSerial-injective (suc i % all_uids) (suc (i + d) % all_uids) r.1 (rw a at k)
          (rw (b, ← same) at k') in
      omega arith

-- If the server speaks TS6 and TS6 is on, but no SID is configured and no id was made yet,
-- `uid_gen` reads through the null pointer.
pub uid_gen-no_sid :
    (st : UidState)
    → st.ircd_ts6 ≡ true
    → st.use_ts6 ≡ true
    → st.ts6_uid_initted ≡ false
    → st.ts6sid ≡ none
    → uid_gen st ≡ fault
unfolding uid_gen ts6_uid_retrieve
uid_gen-no_sid st t u i e = ground arith
