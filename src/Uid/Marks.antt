-- ===== src/Uid/Marks.antt =====
-- The characters of a TS6 id behind the SID, in the order of the generator of src/uid.c, and the
-- number that six of them stand for.
use denora.Prelude.{ℕ, ◌+◌, ◌-◌, ◌*◌, ◌^◌, ◌≤◌, ◌<◌, ◌≡◌, ◌≢◌, arith, ◌⊎◌, leb, if◌then◌else◌}
use native.Mathlib.Decide.{ℕ_discrete}

-- The place of a character in the order of the generator.
abbrev pub value : ℕ → ℕ
value c = if leb b'A' c then c - b'A' else c - b'0' + 26

abbrev pub IsLetter : ℕ → Type 0
IsLetter c = (b'A' ≤ c) × (c ≤ b'Z')

abbrev pub IsMark : ℕ → Type 0
IsMark c = IsLetter c ⊎ ((b'0' ≤ c) × (c ≤ b'9'))

-- The number of ids that an SID has: 26 times 36 ^ 5.
abbrev pub all_uids : ℕ
all_uids = 26 * 36 ^ 5

-- The six characters behind the SID.
pub record Tail : Type 0 where
  pub t₀ : ℕ
  pub t₁ : ℕ
  pub t₂ : ℕ
  pub t₃ : ℕ
  pub t₄ : ℕ
  pub t₅ : ℕ

pub record IsTail (t : Tail) : Type 0 where
  pub m₀ : IsLetter t.t₀
  pub m₁ : IsMark t.t₁
  pub m₂ : IsMark t.t₂
  pub m₃ : IsMark t.t₃
  pub m₄ : IsMark t.t₄
  pub m₅ : IsMark t.t₅

-- The number that they stand for.
abbrev pub serial : Tail → ℕ
serial t =
    value t.t₀ * 36 ^ 5
    + value t.t₁ * 36 ^ 4
    + value t.t₂ * 36 ^ 3
    + value t.t₃ * 36 ^ 2
    + value t.t₄ * 36
    + value t.t₅

pub value-letter-lt : (c : ℕ) → IsLetter c → value c < 26
value-letter-lt c m = ground arith

pub value-mark-lt : (c : ℕ) → IsMark c → value c < 36
value-mark-lt c m = ground arith

-- A character below the last of its kind is followed by the next.
pub data After (c : ℕ) : Type 0 where
  last_letter : c ≡ b'Z' → After c
  last_digit : c ≡ b'9' → After c
  next : c ≢ b'Z' → c ≢ b'9' → IsMark (c + 1) → value (c + 1) ≡ value c + 1 → After c

pub after : (c : ℕ) → IsMark c → After c
after c m = elim (ℕ_discrete c b'Z') [
  | yes e ↦ last_letter e
  | no n ↦ elim (ℕ_discrete c b'9') [
    | yes e ↦ last_digit e
    | no k ↦ next n k (ground arith) (ground arith)
  ]
]
