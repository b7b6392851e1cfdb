-- ===== src/Prelude/Tables.antt =====
-- Reads and writes of tables: lists that are indexed within bounds.
use Prim.Native.Nat.{ℕ, zero, suc, ◌<◌}
use mathlib.Core.Path.{◌≡◌, refl, ap, ◌∙◌}
use mathlib.Core.Logic.{◌≢◌, inl, inr}
use mathlib.Core.Bool.{Bool, true, ◌&&◌}
use denora.Prelude.Tests.{and_left, and_right, ◌==◌, ==_iff, Bool-cases}
use mathlib.Core.List.{List, [], ◌∷◌}
use mathlib.Core.Option.{Option, none, some}
use native.Mathlib.Omega.{arith}
use denora.Prelude.Lists.{length, get_elem?, set}

abbrev pub of_some {ℓ} : {A : Type ℓ} → A → Option A → A
of_some x none = x
of_some x (some y) = y

module _ {ℓ} {A : Type ℓ} where
  pub get_elem?-set_same :
      (xs : List A) (i : ℕ) (v : A) → i < length xs → get_elem? (set xs i v) i ≡ some v
  get_elem?-set_same [] i v h = absurd (omega arith)
  get_elem?-set_same (x ∷ xs) zero v h = refl
  get_elem?-set_same (x ∷ xs) (suc i) v h = get_elem?-set_same xs i v (omega arith)

  pub get_elem?-set_other :
      (xs : List A) (i j : ℕ) (v : A) → i ≢ j → get_elem? (set xs i v) j ≡ get_elem? xs j
  get_elem?-set_other [] i j v h = refl
  get_elem?-set_other (x ∷ xs) zero zero v h = absurd (h refl)
  get_elem?-set_other (x ∷ xs) zero (suc j) v h = refl
  get_elem?-set_other (x ∷ xs) (suc i) zero v h = refl
  get_elem?-set_other (x ∷ xs) (suc i) (suc j) v h =
      get_elem?-set_other xs i j v (λ e. h (ap suc e))

  pub lt-get_elem? : (xs : List A) (i : ℕ) (x : A) → get_elem? xs i ≡ some x → i < length xs
  lt-get_elem? [] i x e = absurd (ground (arith, e))
  lt-get_elem? (y ∷ xs) zero x e = omega arith
  lt-get_elem? (y ∷ xs) (suc i) x e = let ih = lt-get_elem? xs i x e in omega (arith, ih)

  pub get_elem?-lt : (xs : List A) (i : ℕ) → i < length xs → (x : A) × (get_elem? xs i ≡ some x)
  get_elem?-lt [] i h = absurd (omega arith)
  get_elem?-lt (x ∷ xs) zero h = (x, refl)
  get_elem?-lt (x ∷ xs) (suc i) h = get_elem?-lt xs i (omega arith)

abbrev pub replicate {ℓ} : {A : Type ℓ} → ℕ → A → List A
replicate zero x = []
replicate (suc n) x = x ∷ replicate n x

pub length-replicate {ℓ} : {A : Type ℓ} (n : ℕ) (x : A) → length (replicate n x) ≡ n
length-replicate zero x = refl
length-replicate (suc n) x = ap suc (length-replicate n x)

pub get_elem?-replicate {ℓ} :
    {A : Type ℓ} (n i : ℕ) (x : A) → i < n → get_elem? (replicate n x) i ≡ some x
get_elem?-replicate zero i x h = absurd (omega arith)
get_elem?-replicate (suc n) zero x h = refl
get_elem?-replicate (suc n) (suc i) x h = get_elem?-replicate n i x (omega arith)

pub get_elem?-replicate-some {ℓ} :
    {A : Type ℓ} (n i : ℕ) (x y : A) → get_elem? (replicate n x) i ≡ some y → x ≡ y
get_elem?-replicate-some zero i x y h = absurd (ground (arith, h))
get_elem?-replicate-some (suc n) zero x y h = ap (of_some x) h
get_elem?-replicate-some (suc n) (suc i) x y h = get_elem?-replicate-some n i x y h

-- A test of each number below a bound.
abbrev pub all_below : ℕ → (ℕ → Bool) → Bool
all_below zero f = true
all_below (suc n) f = f n && all_below n f

pub all_below_lem : (k : ℕ) (f : ℕ → Bool) (n : ℕ) → all_below k f ≡ true → n < k → f n ≡ true
all_below_lem zero f n h lt = absurd (omega arith)
all_below_lem (suc k) f n h lt = elim (Bool-cases (n == k)) [
  | inl e ↦ ap f ((==_iff n k).0 e) ∙ and_left _ _ h
  | inr e ↦ all_below_lem k f n (and_right (f k) _ h) (ground arith)
]
