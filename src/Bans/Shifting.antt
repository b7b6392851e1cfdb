-- ===== src/Bans/Shifting.antt =====
-- `del_exception`, `del_invite` and `del_quiet` move each slot down behind the mask that they take
-- out, and read one slot more than the array holds masks.
use denora.Prelude.{
  ℕ, suc, ◌+◌, ◌≡◌, refl, sym, ap, ◌∙◌, Bool, true, false, ◌||◌, List, [], ◌∷◌, ◌++◌, append_assoc,
  none, some, CString, length, length-append, get_elem?, get_elem?-middle, get_elem?-end,
  set-middle, set, arith, Bool-cases, inl, inr,
}
use denora.Bans.Masks.{Pointer, stricmp_slot, reset_now, shift_slot, del_loop}
use denora.Bans.Deleting.{erase_first}

-- the test of the loop
abbrev pub is_like : CString → Pointer → Bool
is_like m p = stricmp_slot p m

unfoldable pub any {ℓ} : {A : Type ℓ} → (A → Bool) → List A → Bool
any test [] = false
any test (x ∷ xs) = test x || any test xs

-- One round at a slot `x` that the slot `z` follows.
del_loop-shift :
    (m : CString) (k i : ℕ) (b : List Pointer) (x z : Pointer) (r : List Pointer) (reset : Bool)
    → i ≡ length b
    → (reset || is_like m x) ≡ true
    → del_loop m (suc k) i reset (b ++ x ∷ z ∷ r)
      ≡ del_loop m k (i + 1) true ((b ++ z ∷ []) ++ z ∷ r)
unfolding del_loop reset_now
del_loop-shift m k i b x z r reset p e =
    let here : get_elem? (b ++ x ∷ z ∷ r) i ≡ some x = rw p (get_elem?-middle b (z ∷ r) x) in
    let q : i + 1 ≡ length (b ++ x ∷ []) = omega (arith, length-append b (x ∷ [])) in
    let next : get_elem? (b ++ x ∷ z ∷ r) (i + 1) ≡ some z =
      ap (λ n. get_elem? (b ++ x ∷ z ∷ r) n) (q)
      ∙ rw (append_assoc b (x ∷ []) (z ∷ r)) at (get_elem?-middle (b ++ x ∷ []) r z) in
    let put : set (b ++ x ∷ z ∷ r) i z ≡ (b ++ z ∷ []) ++ z ∷ r =
      rw p (set-middle b (z ∷ r) x z ∙ sym (append_assoc b (z ∷ []) (z ∷ r))) in
    rw (here, e, next, shift_slot, put)

-- `f`, from a slot that is given up on: each slot is moved down, and `y` is the slot behind.
del_loop-shift_all :
    (m : CString) (f b : List Pointer) (i : ℕ) (x y : Pointer) (r : List Pointer) (reset : Bool)
    → i ≡ length b
    → (reset || is_like m x) ≡ true
    → del_loop m (suc (length f)) i reset (b ++ x ∷ (f ++ y ∷ r))
      ≡ some (b ++ (f ++ y ∷ y ∷ r), true)
del_loop-shift_all m [] b i x y r reset p e =
    del_loop-shift m 0 i b x y r reset p e
    ∙ unfold del_loop in ap (λ t. some (t, true)) (append_assoc b (y ∷ []) (y ∷ r))
del_loop-shift_all m (z ∷ f) b i x y r reset p e =
    del_loop-shift m (suc (length f)) i b x z (f ++ y ∷ r) reset p e
    ∙ del_loop-shift_all m f (b ++ z ∷ []) (i + 1) z y r true
        (omega (arith, length-append b (z ∷ []))) refl
    ∙ ap (λ t. some (t, true)) (append_assoc b (z ∷ []) (f ++ y ∷ y ∷ r))

del_loop-last :
    (m : CString) (b : List Pointer) (i : ℕ) (x : Pointer) (reset : Bool)
    → i ≡ length b
    → (reset || is_like m x) ≡ true
    → del_loop m 1 i reset (b ++ x ∷ []) ≡ none
unfolding del_loop reset_now
del_loop-last m b i x reset p e =
    let here : get_elem? (b ++ x ∷ []) i ≡ some x = rw p (get_elem?-middle b [] x) in
    let q : i + 1 ≡ length (b ++ x ∷ []) = omega (arith, length-append b (x ∷ [])) in
    let next : get_elem? (b ++ x ∷ []) (i + 1) ≡ none = rw q (get_elem?-end (b ++ x ∷ [])) in
    rw (here, e, next)

-- ... and with no slot behind the last round reads outside of the array.
del_loop-shift_fault :
    (m : CString) (f b : List Pointer) (i : ℕ) (x : Pointer) (reset : Bool)
    → i ≡ length b
    → (reset || is_like m x) ≡ true
    → del_loop m (suc (length f)) i reset (b ++ x ∷ f) ≡ none
del_loop-shift_fault m [] b i x reset p e = del_loop-last m b i x reset p e
del_loop-shift_fault m (z ∷ f) b i x reset p e =
    del_loop-shift m (suc (length f)) i b x z f reset p e
    ∙ del_loop-shift_fault m f (b ++ z ∷ []) (i + 1) z true
        (omega (arith, length-append b (z ∷ []))) refl

-- One round at a slot that stays.
del_loop-keep :
    (m : CString) (k i : ℕ) (b : List Pointer) (x : Pointer) (r : List Pointer)
    → i ≡ length b
    → is_like m x ≡ false
    → del_loop m (suc k) i false (b ++ x ∷ r) ≡ del_loop m k (i + 1) false ((b ++ x ∷ []) ++ r)
unfolding del_loop reset_now
del_loop-keep m k i b x r p e =
    let here : get_elem? (b ++ x ∷ r) i ≡ some x = rw p (get_elem?-middle b r x) in
    rw (here, e, append_assoc b (x ∷ []) r)

-- The masks `f` of the array, from slot `i` on, with a slot `y` behind them.
pub del_loop-present :
    (m : CString) (f b : List Pointer) (i : ℕ) (y : Pointer) (r : List Pointer)
    → i ≡ length b
    → any (is_like m) f ≡ true
    → del_loop m (length f) i false (b ++ (f ++ y ∷ r))
      ≡ some (b ++ (erase_first (is_like m) f ++ y ∷ y ∷ r), true)
unfolding any erase_first
del_loop-present m [] b i y r p e = absurd (cc e)
del_loop-present m (x ∷ f) b i y r p e = elim (Bool-cases (is_like m x)) [
  | inl t ↦ rw t (del_loop-shift_all m f b i x y r false p t)
  | inr t ↦ rw t (
      del_loop-keep m (length f) i b x (f ++ y ∷ r) p t
      ∙ del_loop-present m f (b ++ x ∷ []) (i + 1) y r (omega (arith, length-append b (x ∷ [])))
          (rw t at e)
      ∙ ap (λ u. some (u, true)) (append_assoc b (x ∷ []) (erase_first (is_like m) f ++ y ∷ y ∷ r)))
]

pub del_loop-absent :
    (m : CString) (f b : List Pointer) (i : ℕ) (r : List Pointer)
    → i ≡ length b
    → any (is_like m) f ≡ false
    → del_loop m (length f) i false (b ++ (f ++ r)) ≡ some (b ++ (f ++ r), false)
unfolding any
del_loop-absent m [] b i r p e = unfold del_loop in refl
del_loop-absent m (x ∷ f) b i r p e =
    let t : is_like m x ≡ false = ground arith in
    del_loop-keep m (length f) i b x (f ++ r) p t
    ∙ del_loop-absent m f (b ++ x ∷ []) (i + 1) r (omega (arith, length-append b (x ∷ [])))
        (ground arith)
    ∙ ap (λ u. some (u, false)) (append_assoc b (x ∷ []) (f ++ r))

pub del_loop-fault :
    (m : CString) (f b : List Pointer) (i : ℕ)
    → i ≡ length b
    → any (is_like m) f ≡ true
    → del_loop m (length f) i false (b ++ f) ≡ none
unfolding any
del_loop-fault m [] b i p e = absurd (cc e)
del_loop-fault m (x ∷ f) b i p e = elim (Bool-cases (is_like m x)) [
  | inl t ↦ del_loop-shift_fault m f b i x false p t
  | inr t ↦
      del_loop-keep m (length f) i b x f p t
      ∙ del_loop-fault m f (b ++ x ∷ []) (i + 1) (omega (arith, length-append b (x ∷ [])))
          (rw t at e)
]

pub erase_first-present :
    (test : Pointer → Bool) (f : List Pointer)
    → any test f ≡ true
    → suc (length (erase_first test f)) ≡ length f
unfolding any erase_first
erase_first-present test [] e = absurd (cc e)
erase_first-present test (x ∷ f) e = ground (arith, erase_first-present test f)

pub erase_first-any_not :
    (test : Pointer → Bool) (f : List Pointer) → any test f ≡ false → erase_first test f ≡ f
unfolding any erase_first
erase_first-any_not test [] e = refl
erase_first-any_not test (x ∷ f) e = ground (arith, erase_first-any_not test f)
