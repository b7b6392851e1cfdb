-- ===== src/Modes/Banning.antt =====
-- A line of modes that sets bans, src/ChanMode.c with the handlers of src/ChanBanMode.c.
use denora.Prelude.{
  ℕ, zero, suc, ◌+◌, ◌-◌, ◌<◌, ◌≤◌, ◌≡◌, refl, ap, sym, ◌∙◌, true, List, [], ◌∷◌, ◌++◌,
  append_assoc, append-nil, none, some, CString, arith, length, get_elem?, ==_ne, replicate,
}
use mathlib.Core.Path.{subst}
use denora.Bans.Masks.{Pointer}
use denora.Bans.Queries.{StatsChannel, Sql, Channel}
use denora.Bans.{add_ban}
use denora.Bans.Adding.{contents, IsValidChannel, add_masks-Appends}
use denora.Modes.Tables.{find_chan_mode, find_chan_ban_mode}
use denora.Modes.Safety.{flag_total}
use denora.Modes.Line.{
  ChanBanMode, Handlers, Line, change_ban, change_letter, mode_loop, flagged, first_line,
  chan_set_modes,
}

-- The masks as pointers.
abbrev pub pointers : List CString → List Pointer
pointers [] = []
pointers (m ∷ ms) = some m ∷ pointers ms

-- The masks are the arguments behind the place `at`.
abbrev Stand : List Pointer → ℕ → List CString → Type 0
Stand av at ms =
    (i : ℕ) (m : CString) → get_elem? ms i ≡ some m → get_elem? av (at + 1 + i) ≡ some (some m)

get_elem?-pointers :
    (ms : List CString) (i : ℕ) (m : CString)
    → get_elem? ms i ≡ some m
    → get_elem? (pointers ms) i ≡ some (some m)
get_elem?-pointers [] i m e = absurd (ground (arith, e))
get_elem?-pointers (x ∷ ms) zero m e = ap some e
get_elem?-pointers (x ∷ ms) (suc i) m e = get_elem?-pointers ms i m e

pointers-Stand : (ms : List CString) (first : Pointer) → Stand (first ∷ pointers ms) 0 ms
pointers-Stand ms first i m e =
    let r : get_elem? (first ∷ pointers ms) (suc i) ≡ some (some m) = get_elem?-pointers ms i m e in
    let next : suc i ≡ 1 + i = omega arith in
    subst (λ j. get_elem? (first ∷ pointers ms) j ≡ some (some m)) next r

module _ (db : Sql) (h : Handlers) (cbm : ChanBanMode) (handler : cbm.addmask ≡ some (add_ban db))
    (no_value : find_chan_mode h.modes.handlers (some (b'b' ∷ [])) ≡ some none)
    (with_masks : find_chan_ban_mode h.modes.cmodes h.ban_modes (some (b'b' ∷ []))
      ≡ some (some cbm)) where
  -- The channel that has more bans.
  abbrev Grown : Channel → Channel → List Pointer → Type 0
  Grown c c' ms = IsValidChannel c' × (contents c'.bans ≡ contents c.bans ++ ms)

  -- One ban, from the argument behind `at`.
  one_ban :
      (av : List Pointer) (l : Line) (m : CString)
      → IsValidChannel l.chan
      → 0 < l.ac
      → get_elem? av (l.at + 1) ≡ some (some m)
      → (l' : Line) × (change_letter h av true (b'b' ∷ []) l ≡ some l')
        × (l'.ac ≡ l.ac - 1)
        × (l'.at ≡ l.at + 1)
        × Grown l.chan l'.chan (some m ∷ [])
  unfolding change_letter change_ban
  one_ban av l m v pos e =
      let ((b, k, w, q), _, _, _) = add_masks-Appends db l.chan v m in
      rw (no_value, with_masks, ==_ne l.ac 0 (omega arith), e, handler, k)
        (
          _,
          refl,
          refl,
          refl,
          (record { bans = w; excepts = v.excepts; invite = v.invite; quiet = v.quiet }, q),
        )

  -- One ban for each of the masks, which stand behind `at`.
  more_bans :
      (av : List Pointer) (ms : List CString) (l : Line)
      → IsValidChannel l.chan
      → length ms ≤ l.ac
      → Stand av l.at ms
      → (l' : Line) × (mode_loop h av true (replicate (length ms) b'b') l ≡ some l')
        × Grown l.chan l'.chan (pointers ms)
  unfolding mode_loop
  more_bans av [] l v le at = (l, refl, (v, sym (append-nil _)))
  more_bans av (m ∷ ms) l v le at =
      let (l1, e1, ac, n, (v1, q1)) =
        one_ban av l m v (omega arith)
          (subst (λ j. get_elem? av j ≡ some (some m)) (omega arith) (at 0 m refl)) in
      let (l2, e2, (v2, q2)) = more_bans av ms l1 v1 (omega arith) (λ i x e.
        rw n (subst (λ j. get_elem? av j ≡ some (some x)) (omega arith) (at (suc i) x e))) in
      rw e1 (l2, e2, (v2, q2 ∙ rw q1 (append_assoc (contents l.chan.bans) _ _)))

  flagged_bans :
      (l : Line)
      → length h.modes.cmodes ≡ 128
      → IsValidChannel l.chan
      → (l' : Line) × (flagged h (some l) ≡ some l') × Grown l.chan l'.chan []
  flagged_bans l w v =
      let (s, e) = flag_total h.modes.cmodes w l.chan 115 (omega arith) in
      let (p, f) = flag_total h.modes.cmodes w l.chan 112 (omega arith) in
      rw (e, f) (_, refl, (v, sym (append-nil _)))

  -- Let `b` be a mode whose handler is `add_ban`, and `ms` some masks. Then the change of the modes
  -- by `+` and as many letters `b` as there are masks, and the masks behind it, succeeds on a
  -- channel whose arrays of masks are valid. It puts the masks behind the bans of the channel, in
  -- their order, and leaves the arrays valid.
  pub chan_set_modes-bans :
      (c : Channel) (s : StatsChannel) (ms : List CString)
      → IsValidChannel c
      → length h.modes.cmodes ≡ 128
      → (l : Line) × (chan_set_modes h
            (1 + length ms)
            (some (b'+' ∷ replicate (length ms) b'b') ∷ pointers ms)
            c
            s
          ≡ some l)
        × IsValidChannel l.chan
        × (contents l.chan.bans ≡ contents c.bans ++ pointers ms)
  unfolding chan_set_modes mode_loop
  chan_set_modes-bans c s ms v w =
      let av = some (b'+' ∷ replicate (length ms) b'b') ∷ pointers ms in
      let (l, e, (v', q)) =
        more_bans av ms (first_line (1 + length ms) c s) v (omega arith) (pointers-Stand ms _) in
      let (l', e', (v'', q')) = flagged_bans l w v' in (l', rw e e', v'', q' ∙ append-nil _ ∙ q)
