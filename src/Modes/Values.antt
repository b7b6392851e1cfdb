-- ===== src/Modes/Values.antt =====
-- The values of the modes of a channel and the list of the modes that are set, src/ChanMode.c. A
-- channel is a pointer that may be null; `strtoul` of the C library and `itostr` are parameters.
use denora.Prelude.{
  ℕ, zero, suc, ◌%◌, ◌^◌, Bool, true, false, List, [], ◌∷◌, Option, none, some, CString, str_eq,
  stricmp_eq, get_elem?, ◌==◌, if◌then◌else◌,
}
use denora.Bans.Masks.{Pointer}
use denora.Bans.Queries.{Channel}

-- `!BadPtr (value) ? sstrdup (value) : NULL`
abbrev pub copied : Pointer → Pointer
copied none = none
copied (some []) = none
copied (some (c ∷ s)) = some (c ∷ s)

-- `!BadPtr (value) ? strtoul (value, NULL, 10) : 0`
abbrev pub number : (CString → ℕ) → Pointer → ℕ
number strtoul none = 0
number strtoul (some []) = 0
number strtoul (some (c ∷ s)) = strtoul (c ∷ s)

unfoldable pub set_flood : Option Channel → Pointer → Option Channel
set_flood none value = none
set_flood (some c) value = some (record c { flood = copied value })

unfoldable pub set_flood_alt : Option Channel → Pointer → Option Channel
set_flood_alt none value = none
set_flood_alt (some c) value = some (record c { flood_alt = copied value })

unfoldable pub set_key : Option Channel → Pointer → Option Channel
set_key none value = none
set_key (some c) value = some (record c { key = copied value })

unfoldable pub set_nickchgflood : Option Channel → Pointer → Option Channel
set_nickchgflood none value = none
set_nickchgflood (some c) value = some (record c { nickchgflood = copied value })

unfoldable pub set_redirect : Option Channel → Pointer → Option Channel
set_redirect none value = none
set_redirect (some c) value = some (record c { redirect = copied value })

module _ (strtoul : CString → ℕ) where
  unfoldable pub set_limit : Option Channel → Pointer → Option Channel
  set_limit none value = none
  set_limit (some c) value = some (record c { limit = number strtoul value % 2 ^ 32 })

  unfoldable pub set_rejoinlock : Option Channel → Pointer → Option Channel
  set_rejoinlock none value = none
  set_rejoinlock (some c) value = some (record c { rejoinlock = number strtoul value % 2 ^ 32 })

unfoldable pub get_flood : Option Channel → Pointer
get_flood none = none
get_flood (some c) = c.flood

unfoldable pub get_flood_alt : Option Channel → Pointer
get_flood_alt none = none
get_flood_alt (some c) = c.flood_alt

unfoldable pub get_key : Option Channel → Pointer
get_key none = none
get_key (some c) = c.key

unfoldable pub get_nickchgflood : Option Channel → Pointer
get_nickchgflood none = none
get_nickchgflood (some c) = c.nickchgflood

unfoldable pub get_redirect : Option Channel → Pointer
get_redirect none = none
get_redirect (some c) = c.redirect

module _ (itostr : ℕ → CString) where
  unfoldable pub get_limit : Option Channel → Pointer
  get_limit none = none
  get_limit (some c) = if c.limit == 0 then none else some (itostr c.limit)

  unfoldable pub get_rejoinlock : Option Channel → Pointer
  get_rejoinlock none = none
  get_rejoinlock (some c) = if c.rejoinlock == 0 then none else some (itostr c.rejoinlock)

-- The list of modes of `SetChanMode`, which takes no look at what is there, and of
-- `RemoveChanMode`, which compares without case.
unfoldable pub set_chan_mode : Channel → CString → Channel
set_chan_mode c mode = record c { modes = mode ∷ c.modes }

unfoldable pub cut : CString → List CString → List CString
cut mode [] = []
cut mode (m ∷ modes) = let rest = cut mode modes in if stricmp_eq mode m then modes else m ∷ rest

unfoldable pub remove_chan_mode : Channel → CString → Channel
unfolding cut
remove_chan_mode c mode = record c { modes = cut mode c.modes }

-- The loop of `ChanHasMode`.
unfoldable pub has : CString → List CString → Bool
has mode [] = false
has mode (m ∷ modes) = if str_eq mode m then true else has mode modes

abbrev pub has_if : Option ℕ → CString → List CString → Option Bool
has_if none mode modes = none
has_if (some zero) mode modes = some false
has_if (some (suc n)) mode modes = some (has mode modes)

-- The channel is what `findchan` gives; none is a read outside of `cmodes`.
unfoldable pub chan_has_mode : List ℕ → Option Channel → ℕ → Option Bool
chan_has_mode cmodes none m = some false
chan_has_mode cmodes (some c) m = has_if (get_elem? cmodes m) (m ∷ []) c.modes
