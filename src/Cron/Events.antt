-- ===== src/Cron/Events.antt =====
-- The table of the cron events, src/cron.c with the hash of include/defines.h. A `CronEvent *` is
-- the chain of the events from it on, the null pointer is the empty chain. The events of a chain
-- are not shared with another. A result `none` is an access outside of an array or a string.
use denora.Prelude.{
  ℕ, ◌+◌, ◌*◌, ◌%◌, ◌^◌, Bool, true, false, List, [], ◌∷◌, Option, none, some, CString, stricmp_eq,
  get_elem?, set, if◌then◌else◌,
}

-- A handler is called with the name of the event; it returns an int and changes a state.
pub record CronEvent (S : Type 0) : Type 0 where
  pub func : Option (CString → S → ℕ × S)
  pub name : CString
  pub core : Bool
  pub mod_name : Option CString

pub record CronEventHash (S : Type 0) : Type 0 where
  pub name : CString
  pub evh : List (CronEvent S)

abbrev pub Table : Type 0 → Type 0
Table S = List (List (CronEventHash S))

abbrev pub max_cmd_hash : ℕ
max_cmd_hash = 1024

-- `((x)[0]&31)<<5 | ((x)[1]&31)`
unfoldable pub cmd_hash : CString → Option ℕ
cmd_hash [] = none
cmd_hash (c ∷ []) = some (c % 2 ^ 5 * 2 ^ 5)
cmd_hash (c ∷ d ∷ s) = some (c % 2 ^ 5 * 2 ^ 5 + d % 2 ^ 5)

abbrev pub err_ok : ℕ
err_ok = 0

abbrev pub err_params : ℕ
err_params = 2

abbrev pub err_unknown : ℕ
err_unknown = 10

-- `BadPtr (evh->mod_name)`, then the name of the current module.
abbrev pub owned : CString → Option CString → Option CString
owned m none = some m
owned m (some []) = some m
owned m (some (c ∷ s)) = some (c ∷ s)

-- `mod_current_module`, looked up by `mod_current_module_name` when it is null. A module is its
-- name.
abbrev pub current_module :
    (CString → Option CString) → Option CString → Option CString → Option CString
current_module find_module name (some m) = some m
current_module find_module none none = none
current_module find_module (some n) none = find_module n

module _ {S : Type 0} where
  -- The loop of `findCronEvent` over one bucket; the name that is looked for comes first in
  -- stricmp.
  unfoldable pub find_in : CString → List (CronEventHash S) → List (CronEvent S)
  find_in name [] = []
  find_in name (h ∷ b) = if stricmp_eq name h.name then h.evh else find_in name b

  abbrev pub find_at : CString → Option (List (CronEventHash S)) → Option (List (CronEvent S))
  find_at name none = none
  find_at name (some b) = some (find_in name b)

  abbrev pub find_hashed : Table S → CString → Option ℕ → Option (List (CronEvent S))
  find_hashed t name none = none
  find_hashed t name (some i) = find_at name (get_elem? t i)

  unfoldable pub find_cron_event : Table S → CString → Option (List (CronEvent S))
  unfolding find_in cmd_hash
  find_cron_event t name = find_hashed t name (cmd_hash name)

  -- The loop of `addCronEvent` over one bucket, and what it does behind the last entry.
  unfoldable pub add_in :
      CronEvent S → List (CronEvent S) → List (CronEventHash S) → List (CronEventHash S)
  add_in e next [] = record { name = e.name; evh = e ∷ next } ∷ []
  add_in e next (h ∷ b) =
      if stricmp_eq e.name h.name then record h { evh = e ∷ h.evh } ∷ b else h ∷ add_in e next b

  abbrev pub add_at :
      Table S
      → ℕ
      → CronEvent S
      → List (CronEvent S)
      → Option (List (CronEventHash S))
      → Option (ℕ × Table S)
  add_at t i e next none = none
  add_at t i e next (some b) = some (err_ok, set t i (add_in e next b))

  abbrev pub add_hashed :
      Table S → CronEvent S → List (CronEvent S) → Option ℕ → Option (ℕ × Table S)
  add_hashed t e next none = none
  add_hashed t e next (some i) = add_at t i e next (get_elem? t i)

  unfoldable pub add_cron_event : Table S → List (CronEvent S) → Option (ℕ × Table S)
  unfolding add_in cmd_hash
  add_cron_event t [] = some (err_params, t)
  add_cron_event t (e ∷ next) = add_hashed t e next (cmd_hash e.name)

  unfoldable pub create_cron_event : CString → Option (CString → S → ℕ × S) → List (CronEvent S)
  create_cron_event name none = []
  create_cron_event name (some f) =
      record { func = some f; name = name; core = false; mod_name = none } ∷ []

  unfoldable pub add_core_cron_event : Table S → List (CronEvent S) → Option (ℕ × Table S)
  unfolding add_cron_event
  add_core_cron_event t [] = some (err_params, t)
  add_core_cron_event t (e ∷ next) = add_cron_event t (record e { core = true } ∷ next)

  abbrev pub add_owned :
      Table S → CronEvent S → List (CronEvent S) → Option CString → Option (ℕ × Table S)
  unfolding add_cron_event
  add_owned t e next none = some (err_unknown, t)
  add_owned t e next (some m) =
      add_cron_event t (record e { core = false; mod_name = owned m e.mod_name } ∷ next)

  unfoldable pub module_add_cron_event :
      (CString → Option CString)
      → Option CString
      → Option CString
      → Table S
      → List (CronEvent S)
      → Option (ℕ × Table S)
  unfolding add_cron_event
  module_add_cron_event find_module name current t [] = some (err_params, t)
  module_add_cron_event find_module name current t (e ∷ next) =
      add_owned t e next (current_module find_module name current)
