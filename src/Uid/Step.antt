-- ===== src/Uid/Step.antt =====
-- One increment of the TS6 id: the six characters behind the SID count in the order A to Z, 0 to 9,
-- the first of them through the letters only.
use denora.Prelude.{
  ℕ, ◌+◌, ◌*◌, ◌%◌, ◌^◌, ◌≡◌, refl, ◌∙◌, [], ◌∷◌, Option, some, CString, arith, ==_ne,
}
use native.Mathlib.Decide.{ℕ_discrete}
use denora.Uid.{ts6_uid_increment}
use denora.Uid.Marks.{
  value, IsLetter, IsMark, all_uids, Tail, IsTail, serial, value-letter-lt, value-mark-lt,
  last_letter, last_digit, next, after,
}

module _ (s₀ s₁ s₂ : ℕ) where
  -- the buffer with an SID of three characters
  abbrev pub buffer : Tail → CString
  buffer t = s₀ ∷ s₁ ∷ s₂ ∷ t.t₀ ∷ t.t₁ ∷ t.t₂ ∷ t.t₃ ∷ t.t₄ ∷ t.t₅ ∷ 0 ∷ []

  -- the buffer holds an id with the number `n`
  abbrev pub Gives : ℕ → Option CString → Type 0
  Gives n r = (t : Tail) × (r ≡ some (buffer t)) × IsTail t × (serial t ≡ n)

  abbrev A : ℕ
  A = b'A'

  step₃ :
      (c : ℕ)
      → IsLetter c
      → Gives ((value c * 36 ^ 5 + 36 ^ 5) % all_uids) (
          ts6_uid_increment 3 3
            (buffer (record { t₀ = c; t₁ = A; t₂ = A; t₃ = A; t₄ = A; t₅ = A })))
  unfolding ts6_uid_increment
  step₃ c m = elim (ℕ_discrete c b'Z') [
    | yes e ↦ (
      record { t₀ = A; t₁ = A; t₂ = A; t₃ = A; t₄ = A; t₅ = A },
      rw e refl,
      ground arith,
      rw e refl,
    )
    | no n ↦ (
      record { t₀ = c + 1; t₁ = A; t₂ = A; t₃ = A; t₄ = A; t₅ = A },
      rw (==_ne c b'Z' n) refl,
      ground arith,
      ground arith,
    )
  ]

  step₄ :
      (a b : ℕ)
      → IsLetter a
      → IsMark b
      → Gives
          ((serial (record { t₀ = a; t₁ = b; t₂ = A; t₃ = A; t₄ = A; t₅ = A }) + 36 ^ 4) % all_uids)
          (ts6_uid_increment 3 4
            (buffer (record { t₀ = a; t₁ = b; t₂ = A; t₃ = A; t₄ = A; t₅ = A })))
  unfolding ts6_uid_increment
  step₄ a b m₀ m₁ = elim (after b m₁) [
    | last_letter z ↦ (
      (record { t₀ = a; t₁ = b'0'; t₂ = A; t₃ = A; t₄ = A; t₅ = A }),
      rw z refl,
      ground arith,
      rw z (omega (arith, value-letter-lt a m₀)),
    )
    | last_digit z ↦
        let (t, r, w, n) = step₃ a m₀ in
        (t, rw z r, w, rw z (n ∙ omega (arith, value-letter-lt a m₀)))
    | next n k m v ↦ (
      (record { t₀ = a; t₁ = (b + 1); t₂ = A; t₃ = A; t₄ = A; t₅ = A }),
      rw (==_ne b b'Z' n, ==_ne b b'9' k) refl,
      ground arith,
      omega (arith, v, value-mark-lt (b + 1) m, value-letter-lt a m₀),
    )
  ]

  step₅ :
      (a b c : ℕ)
      → IsLetter a
      → IsMark b
      → IsMark c
      → Gives
          ((serial (record { t₀ = a; t₁ = b; t₂ = c; t₃ = A; t₄ = A; t₅ = A }) + 36 ^ 3) % all_uids)
          (ts6_uid_increment 3 5
            (buffer (record { t₀ = a; t₁ = b; t₂ = c; t₃ = A; t₄ = A; t₅ = A })))
  unfolding ts6_uid_increment
  step₅ a b c m₀ m₁ m₂ = elim (after c m₂) [
    | last_letter z ↦ (
      (record { t₀ = a; t₁ = b; t₂ = b'0'; t₃ = A; t₄ = A; t₅ = A }),
      rw z refl,
      ground arith,
      rw z (omega (arith, value-letter-lt a m₀, value-mark-lt b m₁)),
    )
    | last_digit z ↦
        let (t, r, w, n) = step₄ a b m₀ m₁ in
        (t, rw z r, w, rw z (n ∙ omega (arith, value-letter-lt a m₀, value-mark-lt b m₁)))
    | next n k m v ↦ (
      (record { t₀ = a; t₁ = b; t₂ = (c + 1); t₃ = A; t₄ = A; t₅ = A }),
      rw (==_ne c b'Z' n, ==_ne c b'9' k) refl,
      ground arith,
      omega (arith, v, value-mark-lt (c + 1) m, value-letter-lt a m₀, value-mark-lt b m₁),
    )
  ]

  step₆ :
      (a b c d : ℕ)
      → IsLetter a
      → IsMark b
      → IsMark c
      → IsMark d
      → Gives
          ((serial (record { t₀ = a; t₁ = b; t₂ = c; t₃ = d; t₄ = A; t₅ = A }) + 36 ^ 2) % all_uids)
          (ts6_uid_increment 3 6
            (buffer (record { t₀ = a; t₁ = b; t₂ = c; t₃ = d; t₄ = A; t₅ = A })))
  unfolding ts6_uid_increment
  step₆ a b c d m₀ m₁ m₂ m₃ = elim (after d m₃) [
    | last_letter z ↦ (
      (record { t₀ = a; t₁ = b; t₂ = c; t₃ = b'0'; t₄ = A; t₅ = A }),
      rw z refl,
      ground arith,
      rw z (omega (arith, value-letter-lt a m₀, value-mark-lt b m₁, value-mark-lt c m₂)),
    )
    | last_digit z ↦
        let (t, r, w, n) = step₅ a b c m₀ m₁ m₂ in
        (
          t,
          rw z r,
          w,
          rw z (n ∙ omega (arith, value-letter-lt a m₀, value-mark-lt b m₁, value-mark-lt c m₂)),
        )
    | next n k m v ↦ (
      (record { t₀ = a; t₁ = b; t₂ = c; t₃ = (d + 1); t₄ = A; t₅ = A }),
      rw (==_ne d b'Z' n, ==_ne d b'9' k) refl,
      ground arith,
      omega (
        arith,
        v,
        value-mark-lt (d + 1) m,
        value-letter-lt a m₀,
        value-mark-lt b m₁,
        value-mark-lt c m₂,
      ),
    )
  ]

  step₇ :
      (a b c d e : ℕ)
      → IsLetter a
      → IsMark b
      → IsMark c
      → IsMark d
      → IsMark e
      → Gives
          ((serial (record { t₀ = a; t₁ = b; t₂ = c; t₃ = d; t₄ = e; t₅ = A }) + 36 ^ 1) % all_uids)
          (ts6_uid_increment 3 7
            (buffer (record { t₀ = a; t₁ = b; t₂ = c; t₃ = d; t₄ = e; t₅ = A })))
  unfolding ts6_uid_increment
  step₇ a b c d e m₀ m₁ m₂ m₃ m₄ = elim (after e m₄) [
    | last_letter z ↦ (
      (record { t₀ = a; t₁ = b; t₂ = c; t₃ = d; t₄ = b'0'; t₅ = A }),
      rw z refl,
      ground arith,
      rw z (
          omega (
            arith,
            value-letter-lt a m₀,
            value-mark-lt b m₁,
            value-mark-lt c m₂,
            value-mark-lt d m₃,
          )),
    )
    | last_digit z ↦
        let (t, r, w, n) = step₆ a b c d m₀ m₁ m₂ m₃ in
        (
          t,
          rw z r,
          w,
          rw z (
              n
              ∙ omega (
                arith,
                value-letter-lt a m₀,
                value-mark-lt b m₁,
                value-mark-lt c m₂,
                value-mark-lt d m₃,
              )),
        )
    | next n k m v ↦ (
      (record { t₀ = a; t₁ = b; t₂ = c; t₃ = d; t₄ = (e + 1); t₅ = A }),
      rw (==_ne e b'Z' n, ==_ne e b'9' k) refl,
      ground arith,
      omega (
        arith,
        v,
        value-mark-lt (e + 1) m,
        value-letter-lt a m₀,
        value-mark-lt b m₁,
        value-mark-lt c m₂,
        value-mark-lt d m₃,
      ),
    )
  ]

  step₈ :
      (a b c d e f : ℕ)
      → IsLetter a
      → IsMark b
      → IsMark c
      → IsMark d
      → IsMark e
      → IsMark f
      → Gives
          ((serial (record { t₀ = a; t₁ = b; t₂ = c; t₃ = d; t₄ = e; t₅ = f }) + 36 ^ 0) % all_uids)
          (ts6_uid_increment 3 8
            (buffer (record { t₀ = a; t₁ = b; t₂ = c; t₃ = d; t₄ = e; t₅ = f })))
  unfolding ts6_uid_increment
  step₈ a b c d e f m₀ m₁ m₂ m₃ m₄ m₅ = elim (after f m₅) [
    | last_letter z ↦ (
      (record { t₀ = a; t₁ = b; t₂ = c; t₃ = d; t₄ = e; t₅ = b'0' }),
      rw z refl,
      ground arith,
      rw z (
          omega (
            arith,
            value-letter-lt a m₀,
            value-mark-lt b m₁,
            value-mark-lt c m₂,
            value-mark-lt d m₃,
            value-mark-lt e m₄,
          )),
    )
    | last_digit z ↦
        let (t, r, w, n) = step₇ a b c d e m₀ m₁ m₂ m₃ m₄ in
        (
          t,
          rw z r,
          w,
          rw z (
              n
              ∙ omega (
                arith,
                value-letter-lt a m₀,
                value-mark-lt b m₁,
                value-mark-lt c m₂,
                value-mark-lt d m₃,
                value-mark-lt e m₄,
              )),
        )
    | next n k m v ↦ (
      (record { t₀ = a; t₁ = b; t₂ = c; t₃ = d; t₄ = e; t₅ = (f + 1) }),
      rw (==_ne f b'Z' n, ==_ne f b'9' k) refl,
      ground arith,
      omega (
        arith,
        v,
        value-mark-lt (f + 1) m,
        value-letter-lt a m₀,
        value-mark-lt b m₁,
        value-mark-lt c m₂,
        value-mark-lt d m₃,
        value-mark-lt e m₄,
      ),
    )
  ]

-- One call at the last slot adds one to the number, and starts again behind the last id.
pub ts6_uid_increment-serial :
    (s₀ s₁ s₂ : ℕ) (t : Tail)
    → IsTail t
    → Gives s₀ s₁ s₂ ((serial t + 1) % all_uids) (ts6_uid_increment 3 8 (buffer s₀ s₁ s₂ t))
ts6_uid_increment-serial s₀ s₁ s₂ t h =
    step₈ s₀ s₁ s₂ t.t₀ t.t₁ t.t₂ t.t₃ t.t₄ t.t₅ h.m₀ h.m₁ h.m₂ h.m₃ h.m₄ h.m₅
