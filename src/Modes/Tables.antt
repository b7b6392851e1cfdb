-- ===== src/Modes/Tables.antt =====
-- The tables of mode handlers, src/ChanMode.c, src/ChanBanMode.c and src/Modes.c, with the hashes
-- of include/defines.h. A table is the array of its buckets. A result `none` is an access outside
-- of an array or a string; inside of it, none is the null pointer.
use denora.Prelude.{
  ℕ, ◌+◌, ◌*◌, ◌%◌, ◌^◌, ◌&&◌, List, [], ◌∷◌, Option, none, some, CString, zero, suc, str_eq,
  stricmp_eq, get_elem?, set, leb, ltb, length, ◌==◌, if◌then◌else◌,
}
use denora.Cron.Events.{cmd_hash, err_ok, err_params}

pub record ModeHash (V : Type 0) : Type 0 where
  pub mode : CString
  pub value : V

abbrev pub Buckets : Type 0 → Type 0
Buckets V = List (List (ModeHash V))

abbrev pub max_mode_hash : ℕ
max_mode_hash = 26625

abbrev pub err_exists : ℕ
err_exists = 3

abbrev pub err_noexist : ℕ
err_noexist = 4

-- `MODEHASHSENSITVE`, where the byte behind the only one of a string is its terminator
unfoldable pub mode_hash_sensitive : CString → Option ℕ
mode_hash_sensitive [] = none
mode_hash_sensitive (c ∷ []) =
    some (if leb 65 c && leb c 90 then c % 2 ^ 5 * 2 ^ 6 else c % 2 ^ 5 * 2 ^ 5)
mode_hash_sensitive (c ∷ d ∷ s) =
    some (
      if leb 65 c && leb c 90 then c % 2 ^ 5 * 2 ^ 6 + d % 2 ^ 5 else c % 2 ^ 5 * 2 ^ 5 + d % 2 ^ 5)

module _ {V : Type 0} where
  abbrev pub kept : ModeHash V → Option (List (ModeHash V)) → Option (List (ModeHash V))
  kept h none = none
  kept h (some b) = some (h ∷ b)

  -- The loop of `FindChanMode` and of `FindChanBanMode`.
  unfoldable pub find_mode : CString → List (ModeHash V) → Option V
  find_mode name [] = none
  find_mode name (h ∷ b) = if str_eq name h.mode then some h.value else find_mode name b

  -- The loop of `FindUserMode`, which compares without case.
  unfoldable pub find_mode_nocase : CString → List (ModeHash V) → Option V
  find_mode_nocase name [] = none
  find_mode_nocase name (h ∷ b) =
      if stricmp_eq name h.mode then some h.value else find_mode_nocase name b

  -- The loop of the three functions that add, and the new entry at the end; none if the name is
  -- there.
  unfoldable pub put_mode : CString → V → List (ModeHash V) → Option (List (ModeHash V))
  put_mode name v [] = some (record { mode = name; value = v } ∷ [])
  put_mode name v (h ∷ b) =
      let rest = put_mode name v b in if stricmp_eq name h.mode then none else kept h rest

  -- The loop of the three functions that delete; none if the name is not there.
  unfoldable pub cut_mode : CString → List (ModeHash V) → Option (List (ModeHash V))
  cut_mode name [] = none
  cut_mode name (h ∷ b) =
      let rest = cut_mode name b in if stricmp_eq name h.mode then some b else kept h rest

  abbrev pub bucket : Buckets V → Option ℕ → Option (List (ModeHash V))
  bucket t none = none
  bucket t (some i) = get_elem? t i

  abbrev pub looked_up :
      (CString → List (ModeHash V) → Option V)
      → CString
      → Option (List (ModeHash V))
      → Option (Option V)
  looked_up find name none = none
  looked_up find name (some b) = some (find name b)

  -- The answer with the table, when the bucket `i` is replaced or left as it is.
  abbrev pub replaced : ℕ → Buckets V → ℕ → Option (List (ModeHash V)) → ℕ × Buckets V
  replaced code t i none = (code, t)
  replaced code t i (some b) = (err_ok, set t i b)

  abbrev pub changed_in :
      ℕ
      → (List (ModeHash V) → Option (List (ModeHash V)))
      → Buckets V
      → ℕ
      → Option (List (ModeHash V))
      → Option (ℕ × Buckets V)
  changed_in code change t i none = none
  changed_in code change t i (some b) = some (replaced code t i (change b))

  abbrev pub changed :
      ℕ
      → (List (ModeHash V) → Option (List (ModeHash V)))
      → Buckets V
      → Option ℕ
      → Option (ℕ × Buckets V)
  changed code change t none = none
  changed code change t (some i) = changed_in code change t i (get_elem? t i)

  unfoldable pub find_chan_mode : Buckets V → Option CString → Option (Option V)
  unfolding find_mode mode_hash_sensitive
  find_chan_mode t none = some none
  find_chan_mode t (some name) = looked_up find_mode name (bucket t (mode_hash_sensitive name))

  unfoldable pub add_chan_mode : Buckets V → CString → V → Option (ℕ × Buckets V)
  unfolding put_mode mode_hash_sensitive
  add_chan_mode t name v = changed err_exists (put_mode name v) t (mode_hash_sensitive name)

  -- The bucket is that of another hash than the one that `addChanMode` uses.
  unfoldable pub del_chan_mode : Buckets V → Option CString → Option (ℕ × Buckets V)
  unfolding cut_mode cmd_hash
  del_chan_mode t none = some (err_params, t)
  del_chan_mode t (some name) = changed err_noexist (cut_mode name) t (cmd_hash name)

  -- `denora_cmode (*name)` reads `cmodes`.
  abbrev pub if_known : Option ℕ → Option (Option V) → Option (Option V)
  if_known none found = none
  if_known (some zero) found = some none
  if_known (some (suc n)) found = found

  unfoldable pub find_chan_ban_mode : List ℕ → Buckets V → Option CString → Option (Option V)
  unfolding find_mode cmd_hash
  find_chan_ban_mode cmodes t none = some none
  find_chan_ban_mode cmodes t (some []) = if_known (get_elem? cmodes 0) none
  find_chan_ban_mode cmodes t (some (c ∷ s)) =
      if_known (get_elem? cmodes c) (looked_up find_mode (c ∷ s) (bucket t (cmd_hash (c ∷ s))))

  unfoldable pub add_chan_ban_mode : Buckets V → CString → V → Option (ℕ × Buckets V)
  unfolding put_mode cmd_hash
  add_chan_ban_mode t name v = changed err_exists (put_mode name v) t (cmd_hash name)

  unfoldable pub del_chan_ban_mode : Buckets V → Option CString → Option (ℕ × Buckets V)
  unfolding cut_mode cmd_hash
  del_chan_ban_mode t none = some (err_params, t)
  del_chan_ban_mode t (some name) = changed err_noexist (cut_mode name) t (cmd_hash name)

  unfoldable pub find_user_mode : Buckets V → Option CString → Option (Option V)
  unfolding find_mode_nocase cmd_hash
  find_user_mode t none = some none
  find_user_mode t (some name) = looked_up find_mode_nocase name (bucket t (cmd_hash name))

  unfoldable pub add_user_mode_call_back : Buckets V → CString → V → Option (ℕ × Buckets V)
  unfolding put_mode cmd_hash
  add_user_mode_call_back t name v = changed err_exists (put_mode name v) t (cmd_hash name)

  unfoldable pub del_user_mode : Buckets V → Option CString → Option (ℕ × Buckets V)
  unfolding cut_mode cmd_hash
  del_user_mode t none = some (err_params, t)
  del_user_mode t (some name) = changed err_noexist (cut_mode name) t (cmd_hash name)

-- The static tables of src/ChanMode.c.
pub record ModeState (V : Type 0) : Type 0 where
  pub handlers : Buckets V
  pub cmodes : List ℕ

-- `ModuleSetChanMode`; none is a write outside of `cmodes`.
unfoldable pub module_set_chan_mode : List ℕ → ℕ → ℕ → Option (List ℕ)
module_set_chan_mode cmodes mode flag =
    if ltb mode (length cmodes) then some (set cmodes mode (if flag == 0 then 0 else 1)) else none

-- `ircsnprintf (modebuf, ..., "%c", mode)`
abbrev pub printed : ℕ → CString
printed mode = if mode % 256 == 0 then [] else mode % 256 ∷ []

module _ {V : Type 0} where
  abbrev pub enabled : Buckets V → Option (List ℕ) → Option (ModeState V)
  enabled t none = none
  enabled t (some cmodes) = some (record { handlers = t; cmodes = cmodes })

  abbrev pub registered : List ℕ → ℕ → Option (ℕ × Buckets V) → Option (ModeState V)
  unfolding module_set_chan_mode
  registered cmodes mode none = none
  registered cmodes mode (some (code, t)) = enabled t (module_set_chan_mode cmodes mode 1)

  -- The handle of the mode is its value; what `addChanMode` answers is not looked at.
  unfoldable pub create_chan_mode : ModeState V → ℕ → V → Option (ModeState V)
  unfolding add_chan_mode module_set_chan_mode
  create_chan_mode st mode v =
      if mode == 0
      then some st
      else registered st.cmodes mode (add_chan_mode st.handlers (printed mode) v)
