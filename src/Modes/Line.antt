-- ===== src/Modes/Line.antt =====
-- The change of the modes of a channel by a line of the protocol, `chan_set_modes` of
-- src/ChanMode.c. `av` is the array of the arguments, of which the first is the string of the
-- modes; `at` is the place that the pointer `av` has come to. A result `none` is an access outside
-- of an array, or a fault of a handler. The channel is in the store under its name, and has its
-- counts.
use denora.Prelude.{
  ℕ, ◌+◌, ◌-◌, ◌%◌, ◌^◌, Bool, true, false, ◌||◌, List, [], ◌∷◌, ◌++◌, Option, none, some, CString,
  get_elem?, ltb, ◌==◌, if◌then◌else◌,
}
use denora.Bans.Masks.{Pointer}
use denora.Bans.Queries.{Channel, StatsChannel, Query}
use denora.Bans.{Outcome, ignored, fault, done}
use denora.Modes.Tables.{Buckets, ModeState, find_chan_mode, find_chan_ban_mode}
use denora.Modes.Values.{set_chan_mode, remove_chan_mode, chan_has_mode}

-- The handlers of a mode with a value, and of a mode with masks.
pub record ChanMode : Type 0 where
  pub setvalue : Option (Option Channel → Pointer → Option Channel)

pub record ChanBanMode : Type 0 where
  pub addmask : Option (Option Channel → Pointer → Outcome)
  pub delmask : Option (Option Channel → Pointer → Outcome)

-- `send_event (EVENT_CHANNEL_MODE, ...)`: whether the mode is added, the channel, the mode, and the
-- argument if it is sent.
pub data Event : Type 0 where
  channel_mode : Bool → CString → CString → Pointer → Event

-- The static tables.
pub record Handlers : Type 0 where
  pub modes : ModeState ChanMode
  pub ban_modes : Buckets ChanBanMode

pub record Line : Type 0 where
  pub ac : ℕ
  pub at : ℕ
  pub chan : Channel
  pub stats : StatsChannel
  pub queries : List Query
  pub events : List Event

-- `ac--; av++;`
abbrev pub shift : Line → Line
shift l = record l { ac = l.ac - 1; at = l.at + 1 }

abbrev pub send : Bool → CString → Pointer → Line → Line
send add name arg l = record l { events = l.events ++ channel_mode add l.chan.name name arg ∷ [] }

-- `if (ac > 0 && *av)`
abbrev pub sent_value : Line → Pointer → Pointer
sent_value l arg = if ltb 0 l.ac then arg else none

abbrev pub valued : CString → Pointer → Line → Option Channel → Option Line
valued name arg l none = none
valued name arg l (some c) = some (send true name (sent_value l arg) (record l { chan = c }))

abbrev pub set_value :
    (Option Channel → Pointer → Option Channel) → CString → Line → Option Pointer → Option Line
set_value f name l none = none
set_value f name l (some arg) = valued name arg l (f (some l.chan) arg)

abbrev pub with_value :
    List Pointer → CString → Line → Option (Option Channel → Pointer → Option Channel) → Option Line
with_value av name l none = some (send true name none l)
with_value av name l (some f) =
    if l.ac == 0 then some l else set_value f name (shift l) (get_elem? av (l.at + 1))

-- A mode with a handler of values.
unfoldable pub change_mode : List Pointer → Bool → CString → Line → ChanMode → Option Line
unfolding set_chan_mode remove_chan_mode
change_mode av true name l cm =
    with_value av name (record l { chan = set_chan_mode l.chan name }) cm.setvalue
change_mode av false name l cm =
    some (send false name none (record l { chan = remove_chan_mode l.chan name }))

abbrev pub masked : Line → Outcome → Option Line
masked l ignored = some l
masked l fault = none
masked l (done c qs) = some (record l { chan = c; queries = l.queries ++ qs })

abbrev pub apply_mask : Option (Option Channel → Pointer → Outcome) → Pointer → Line → Option Line
apply_mask none arg l = some l
apply_mask (some f) arg l = masked l (f (some l.chan) arg)

abbrev pub reported : Bool → CString → Pointer → Option Line → Option Line
reported add name arg none = none
reported add name arg (some l) = some (send add name arg l)

abbrev pub change_mask : Bool → CString → Line → ChanBanMode → Option Pointer → Option Line
change_mask add name l cbm none = none
change_mask add name l cbm (some arg) =
    reported add name arg (apply_mask (if add then cbm.addmask else cbm.delmask) arg l)

-- A mode with masks.
unfoldable pub change_ban : List Pointer → Bool → CString → Line → ChanBanMode → Option Line
change_ban av add name l cbm =
    if l.ac == 0 then some l else change_mask add name (shift l) cbm (get_elem? av (l.at + 1))

-- A mode without a handler, one of q, a, o, h and v, which takes an argument.
abbrev pub skip : Line → Line
skip l = if l.ac == 0 then l else shift l

abbrev pub change :
    List Pointer
    → Bool
    → CString
    → Line
    → Option (Option ChanMode)
    → Option (Option ChanBanMode)
    → Option Line
change av add name l none ban = none
change av add name l (some m) none = none
change av add name l (some (some cm)) (some ban) = change_mode av add name l cm
change av add name l (some none) (some (some cbm)) = change_ban av add name l cbm
change av add name l (some none) (some none) = some (skip l)

-- One round of the loop, at a letter.
unfoldable pub change_letter : Handlers → List Pointer → Bool → CString → Line → Option Line
change_letter h av add name l =
    change av add name l (find_chan_mode h.modes.handlers (some name))
      (find_chan_ban_mode h.modes.cmodes h.ban_modes (some name))

abbrev pub then_change : (Line → Option Line) → Option Line → Option Line
then_change go none = none
then_change go (some l) = go l

-- The loop; a character above 127 is negative as a char.
unfoldable pub mode_loop : Handlers → List Pointer → Bool → CString → Line → Option Line
mode_loop h av add [] l = some l
mode_loop h av add (m ∷ modes) l =
    let add' = if m == b'+' then true else if m == b'-' then false else add in
    let rest = mode_loop h av add' modes in
    then_change rest
      (if m == b'+' || m == b'-' || ltb 127 m then some l else change_letter h av add (m ∷ []) l)

abbrev pub with_flags : Line → Option Bool → Option Bool → Option Line
with_flags l none p = none
with_flags l (some s) none = none
with_flags l (some s) (some p) =
    some (record l { stats = record l.stats { secret = s; private = p } })

-- The flags of s and p.
abbrev pub flagged : Handlers → Option Line → Option Line
flagged h none = none
flagged h (some l) =
    with_flags l (chan_has_mode h.modes.cmodes (some l.chan) 115)
      (chan_has_mode h.modes.cmodes (some l.chan) 112)

-- The counts with one more change of modes.
abbrev pub counted : StatsChannel → StatsChannel
counted s = record s { modecount = (s.modecount + 1) % 2 ^ 32; modecounttime = s.modecounttime + 1 }

abbrev pub first_line : ℕ → Channel → StatsChannel → Line
first_line ac c s = record {
  ac = ac - 1;
  at = 0;
  chan = c;
  stats = counted s;
  queries = [];
  events = [];
}

abbrev pub on_modes : Handlers → List Pointer → Line → Option Pointer → Option Line
on_modes h av l none = none
on_modes h av l (some none) = none
on_modes h av l (some (some modes)) = flagged h (mode_loop h av true modes l)

-- Called with one argument at least, with a channel and the counts that it points to.
unfoldable pub chan_set_modes : Handlers → ℕ → List Pointer → Channel → StatsChannel → Option Line
chan_set_modes h ac av c s = on_modes h av (first_line ac c s) (get_elem? av 0)
