-- ===== src/Bans/Masks.antt =====
-- An array of masks, with the statements of `add_ban`, `del_ban`, `del_exception` and the others of
-- src/ChanBanMode.c that read and write it. The array grows by eight pointers.
use denora.Prelude.{
  ℕ, zero, suc, ◌+◌, ◌-◌, Bool, true, false, ◌||◌, List, [], ◌∷◌, ◌++◌, Option, none, some, CString,
  length, get_elem?, set, take, drop, str_eq, stricmp_eq, leb, ltb, if◌then◌else◌,
}

-- A null pointer in the array is `none`, and so is a slot that was never written.
abbrev pub Pointer : Type 0
Pointer = Option CString

-- `char **bans; int32 bancount, bansize`, and the three like it
pub record MaskArray : Type 0 where
  pub count : ℕ
  pub size : ℕ
  pub slots : List Pointer

-- `realloc` to eight more pointers
abbrev pub more_slots : List Pointer
more_slots = none ∷ none ∷ none ∷ none ∷ none ∷ none ∷ none ∷ none ∷ []

unfoldable pub grow : MaskArray → MaskArray
grow a =
    if leb a.size a.count then record a { size = a.size + 8; slots = a.slots ++ more_slots } else a

-- `array[count++] = sstrdup(mask)`; `none` is a write behind the end
unfoldable pub store : MaskArray → Pointer → Option MaskArray
store a mask =
    if ltb a.count (length a.slots)
    then some (record a { count = a.count + 1; slots = set a.slots a.count mask })
    else none

unfoldable pub add_mask : MaskArray → Pointer → Option MaskArray
unfolding grow store
add_mask a mask = store (grow a) mask

-- `strcmp(*s, mask) == 0`; a null pointer is a fault, so `none`
abbrev pub strcmp_slot : Option Pointer → CString → Option Bool
strcmp_slot none mask = none
strcmp_slot (some none) mask = none
strcmp_slot (some (some m)) mask = some (str_eq m mask)

-- the test of the `while` of `del_ban`, with what the further rounds come to
abbrev pub ban_round : Option Bool → ℕ → Option ℕ → Option ℕ
ban_round none i further = none
ban_round (some true) i further = some i
ban_round (some false) i further = further

-- The `while` of `del_ban`, with the rounds that are left; `none` is a fault. The result is `i`.
unfoldable pub find_ban : List Pointer → CString → ℕ → ℕ → Option ℕ
unfolding str_eq
find_ban slots mask zero i = some i
find_ban slots mask (suc rounds) i =
    ban_round (strcmp_slot (get_elem? slots i) mask) i (find_ban slots mask rounds (i + 1))

-- `memmove(s, s + 1, sizeof(char *) * (count - i))` with the new count
unfoldable pub move_down : List Pointer → ℕ → ℕ → List Pointer
move_down slots i n = take i slots ++ (take n (drop (i + 1) slots) ++ drop (i + n) slots)

unfoldable pub remove_ban : MaskArray → Option ℕ → Option MaskArray
unfolding move_down
remove_ban a none = none
remove_ban a (some i) =
    if ltb i a.count
    then some (record a {
      count = a.count - 1;
      slots = if ltb i (a.count - 1) then move_down a.slots i (a.count - 1 - i) else a.slots;
    })
    else some a

-- `stricmp(slot, mask) == 0`, which is false for a null pointer
unfoldable pub stricmp_slot : Pointer → CString → Bool
unfolding stricmp_eq
stricmp_slot none mask = false
stricmp_slot (some m) mask = stricmp_eq m mask

-- One round of the loop of `del_exception`, at a slot that is read as `cell`; `i == count` is never
-- true in it. `next` is what the slot behind it is read as.
abbrev pub shift_slot : List Pointer → ℕ → Option Pointer → Option (List Pointer)
shift_slot slots i none = none
shift_slot slots i (some p) = some (set slots i p)

unfoldable pub reset_now : Bool → Option Pointer → CString → Option Bool
unfolding stricmp_slot
reset_now reset none mask = none
reset_now reset (some p) mask = some (reset || stricmp_slot p mask)

-- the rest of the round, with the further rounds as a function of `reset` and the slots
abbrev pub shifted :
    (Bool → List Pointer → Option (List Pointer × Bool))
    → Option (List Pointer)
    → Option (List Pointer × Bool)
shifted further none = none
shifted further (some slots) = further true slots

abbrev pub del_round :
    (Bool → List Pointer → Option (List Pointer × Bool))
    → ℕ
    → List Pointer
    → Option Bool
    → Option (List Pointer × Bool)
del_round further i slots none = none
del_round further i slots (some true) =
    shifted further (shift_slot slots i (get_elem? slots (i + 1)))
del_round further i slots (some false) = further false slots

-- The loop of `del_exception`, `del_invite` and `del_quiet`, with the rounds that are left: the
-- slots and `reset` behind it, or `none` for an access behind the end of the array.
unfoldable pub del_loop : CString → ℕ → ℕ → Bool → List Pointer → Option (List Pointer × Bool)
unfolding reset_now
del_loop mask zero i reset slots = some (slots, reset)
del_loop mask (suc rounds) i reset slots =
    del_round (λ again left. del_loop mask rounds (i + 1) again left) i slots
      (reset_now reset (get_elem? slots i) mask)

unfoldable pub after_loop : MaskArray → Option (List Pointer × Bool) → Option MaskArray
after_loop a none = none
after_loop a (some (slots, reset)) =
    some (record a { slots = slots; count = if reset then a.count - 1 else a.count })

unfoldable pub del_mask : MaskArray → CString → Option MaskArray
unfolding del_loop after_loop
del_mask a mask = after_loop a (del_loop mask a.count 0 false a.slots)
