-- ===== src/Bans.antt =====
-- The lists of masks of a channel, src/ChanBanMode.c: bans, exceptions, invites and quiets. A
-- handler is called with a channel and a mask, each of them a pointer that may be null. The texts
-- of the log are left out.
pub mod Masks
pub mod Queries
pub mod Adding
pub mod Deleting
pub mod Shifting
pub mod Erasing
mod Examples
use denora.Prelude.{
  ℕ, zero, suc, ◌+◌, ◌-◌, Bool, true, false, not, ◌&&◌, ◌||◌, List, [], ◌∷◌, ◌++◌, Option, none,
  some, CString, length, get_elem?, set, take, drop, str_eq, stricmp_eq, leb, ltb, ◌==◌,
  if◌then◌else◌,
}
use denora.Bans.Masks.{Pointer, MaskArray, add_mask, find_ban, remove_ban, del_mask}
use denora.Bans.Queries.{
  Sql, Query, Channel, sql_channel_ban, sql_channel_quiet, sql_channel_exception,
  sql_channel_invite,
}

-- What a call comes to: an early return, an access outside of an array or through a null pointer,
-- or the changed channel with the queries that were made.
pub data Outcome : Type 0 where
  ignored : Outcome
  fault : Outcome
  done : Channel → List Query → Outcome

abbrev pub finish :
    Sql → (Sql → ℕ → Channel → Pointer → List Query) → ℕ → Pointer → Option Channel → Outcome
finish db sql type mask none = fault
finish db sql type mask (some c) = done c (if db.do_sql then sql db type c mask else [])

abbrev pub with_bans : Channel → Option MaskArray → Option Channel
with_bans c none = none
with_bans c (some a) = some (record c { bans = a })

abbrev pub with_excepts : Channel → Option MaskArray → Option Channel
with_excepts c none = none
with_excepts c (some a) = some (record c { excepts = a })

abbrev pub with_invite : Channel → Option MaskArray → Option Channel
with_invite c none = none
with_invite c (some a) = some (record c { invite = a })

abbrev pub with_quiet : Channel → Option MaskArray → Option Channel
with_quiet c none = none
with_quiet c (some a) = some (record c { quiet = a })

unfoldable pub add_ban : Sql → Option Channel → Pointer → Outcome
unfolding add_mask sql_channel_ban
add_ban db none mask = ignored
add_ban db (some c) none = ignored
add_ban db (some c) (some m) =
    finish db sql_channel_ban 1 (some m) (with_bans c (add_mask c.bans (some m)))

unfoldable pub add_exception : Sql → Option Channel → Pointer → Outcome
unfolding add_mask sql_channel_exception
add_exception db none mask = ignored
add_exception db (some c) mask =
    finish db sql_channel_exception 1 mask (with_excepts c (add_mask c.excepts mask))

unfoldable pub add_invite : Sql → Option Channel → Pointer → Outcome
unfolding add_mask sql_channel_invite
add_invite db none mask = ignored
add_invite db (some c) mask =
    finish db sql_channel_invite 1 mask (with_invite c (add_mask c.invite mask))

unfoldable pub add_quiet : Sql → Option Channel → Pointer → Outcome
unfolding add_mask sql_channel_quiet
add_quiet db none mask = ignored
add_quiet db (some c) mask =
    finish db sql_channel_quiet 1 mask (with_quiet c (add_mask c.quiet mask))

unfoldable pub del_ban : Sql → Option Channel → Pointer → Outcome
unfolding find_ban remove_ban sql_channel_ban
del_ban db none mask = ignored
del_ban db (some c) none = ignored
del_ban db (some c) (some m) =
    finish db sql_channel_ban 2 (some m)
      (with_bans c (remove_ban c.bans (find_ban c.bans.slots m c.bans.count 0)))

unfoldable pub del_exception : Sql → Option Channel → Pointer → Outcome
unfolding del_mask sql_channel_exception
del_exception db none mask = ignored
del_exception db (some c) none = ignored
del_exception db (some c) (some m) =
    finish db sql_channel_exception 2 (some m) (with_excepts c (del_mask c.excepts m))

unfoldable pub del_invite : Sql → Option Channel → Pointer → Outcome
unfolding del_mask sql_channel_invite
del_invite db none mask = ignored
del_invite db (some c) none = ignored
del_invite db (some c) (some m) =
    finish db sql_channel_invite 2 (some m) (with_invite c (del_mask c.invite m))

-- This one has no guard for the channel.
unfoldable pub del_quiet : Sql → Option Channel → Pointer → Outcome
unfolding del_mask sql_channel_quiet
del_quiet db c none = ignored
del_quiet db none (some m) = fault
del_quiet db (some c) (some m) =
    finish db sql_channel_quiet 2 (some m) (with_quiet c (del_mask c.quiet m))
