-- ===== src/Modes/Keys.antt =====
-- The key of a channel under lines of modes, src/ChanMode.c.
use denora.Prelude.{
  ℕ, ◌≡◌, refl, ◌∙◌, true, false, [], ◌∷◌, Option, none, some, CString, length, arith,
}
use denora.Bans.Queries.{Channel, StatsChannel}
use denora.Modes.Tables.{find_chan_mode, find_chan_ban_mode}
use denora.Modes.Values.{remove_chan_mode, set_key, get_key}
use denora.Modes.Line.{
  channel_mode, ChanMode, ChanBanMode, Handlers, Line, first_line, flagged, mode_loop,
  change_letter, change_mode, chan_set_modes,
}
use denora.Modes.Safety.{flag_total}

module _ (h : Handlers) (cm : ChanMode) (ban : Option ChanBanMode)
    (all_flags : length h.modes.cmodes ≡ 128) (handler : cm.setvalue ≡ some set_key)
    (value : find_chan_mode h.modes.handlers (some (b'k' ∷ [])) ≡ some (some cm))
    (masks : find_chan_ban_mode h.modes.cmodes h.ban_modes (some (b'k' ∷ [])) ≡ some ban) where
  flagged_rest :
      (l : Line)
      → (l' : Line) × (flagged h (some l) ≡ some l')
        × (l'.chan.key ≡ l.chan.key)
        × (l'.events ≡ l.events)
        × (l'.ac ≡ l.ac)
  flagged_rest l =
      let (s, e) = flag_total h.modes.cmodes all_flags l.chan 115 (omega arith) in
      let (p, f) = flag_total h.modes.cmodes all_flags l.chan 112 (omega arith) in
      rw (e, f) (_, refl, refl, refl, refl)

  set_key_line :
      (c : Channel) (s : StatsChannel) (d : ℕ) (key : CString)
      → (l : Line) × (chan_set_modes h 2 (some (b'+' ∷ b'k' ∷ []) ∷ some (d ∷ key) ∷ []) c s
          ≡ some l)
        × (l.chan.key ≡ some (d ∷ key))
        × (l.events ≡ channel_mode true c.name (b'k' ∷ []) none ∷ [])
        × (l.ac ≡ 0)
  unfolding chan_set_modes mode_loop change_letter change_mode set_key
  set_key_line c s d key =
      rw (value, masks, handler)
        (flagged_rest (record (first_line 2 c s) {
          ac = 0;
          at = 1;
          chan = record c { key = some (d ∷ key); modes = (b'k' ∷ []) ∷ c.modes };
          events = channel_mode true c.name (b'k' ∷ []) none ∷ [];
        }))

  remove_key_line :
      (c : Channel) (s : StatsChannel) (key : CString)
      → (l : Line) × (chan_set_modes h 2 (some (b'-' ∷ b'k' ∷ []) ∷ some key ∷ []) c s ≡ some l)
        × (l.chan.key ≡ c.key)
        × (l.events ≡ channel_mode false c.name (b'k' ∷ []) none ∷ [])
        × (l.ac ≡ 1)
  unfolding chan_set_modes mode_loop change_letter change_mode
  remove_key_line c s key =
      rw (value, masks)
        (flagged_rest (record (first_line 2 c s) {
          chan = remove_chan_mode c (b'k' ∷ []);
          events = channel_mode false c.name (b'k' ∷ []) none ∷ [];
        }))

  -- Let `k` be a mode whose handler is `set_key`. The line of modes `+k` with a key, which is not
  -- empty, and after it the line `-k` with the key leave the key on the channel. The second line
  -- has its argument left over at the end, and none of the two events has the key.
  pub chan_set_modes-key_stays :
      (c : Channel) (s s' : StatsChannel) (d : ℕ) (key : CString)
      → (l l' : Line) × (chan_set_modes h 2 (some (b'+' ∷ b'k' ∷ []) ∷ some (d ∷ key) ∷ []) c s
          ≡ some l)
        × (chan_set_modes h 2 (some (b'-' ∷ b'k' ∷ []) ∷ some (d ∷ key) ∷ []) l.chan s' ≡ some l')
        × (get_key (some l'.chan) ≡ some (d ∷ key))
        × (l.ac ≡ 0)
        × (l'.ac ≡ 1)
        × (l.events ≡ channel_mode true c.name (b'k' ∷ []) none ∷ [])
        × (l'.events ≡ channel_mode false l.chan.name (b'k' ∷ []) none ∷ [])
  unfolding get_key
  chan_set_modes-key_stays c s s' d key =
      let (l, e, k, ev, n) = set_key_line c s d key in
      let (l', e', k', ev', n') = remove_key_line l.chan s' (d ∷ key) in
      (l, l', e, e', k' ∙ k, n, n', ev, ev')
