-- ===== src/Modes/Safety.antt =====
-- A line of modes stays within its arguments, src/ChanMode.c.
use denora.Prelude.{
  ℕ, zero, suc, ◌+◌, ◌*◌, ◌%◌, ◌^◌, ◌<◌, ◌≤◌, ◌≡◌, refl, ap, ◌∙◌, Bool, true, false, ◌||◌, List, [],
  ◌∷◌, Option, none, some, CString, inl, inr, Bool-cases, Option-cases, arith, length, get_elem?,
  get_elem?-lt, ltb, ◌==◌, if◌then◌else◌,
}
use denora.Bans.Masks.{Pointer}
use denora.Bans.Queries.{Channel, StatsChannel}
use denora.Bans.{Outcome, ignored, fault, done}
use denora.Modes.Tables.{
  Buckets, looked_up, max_mode_hash, find_mode, find_chan_mode, find_chan_ban_mode, if_known,
}
use denora.Modes.Letters.{letter_hash, letter_hash_lt}
use denora.Modes.Registry.{find_chan_mode-letter}
use denora.Modes.Values.{set_chan_mode, remove_chan_mode, chan_has_mode, has, has_if}
use denora.Modes.Line.{
  ChanMode, ChanBanMode, Handlers, Line, shift, send, with_value, change_mode, masked, apply_mask,
  change_ban, change, change_letter, mode_loop, flagged, first_line, chan_set_modes,
}

-- A handler of masks may ignore the call, and must not fault.
abbrev pub Kept : (Channel → Type 0) → Outcome → Type 0
Kept Inv ignored = Unit
Kept Inv fault = ⊥
Kept Inv (done c qs) = Inv c

find_chan_mode_total :
    {V : Type 0} (t : Buckets V) (c : ℕ)
    → length t ≡ max_mode_hash
    → (o : Option V) × (find_chan_mode t (some (c ∷ [])) ≡ some o)
find_chan_mode_total t c w =
    let (b, e) = get_elem?-lt t (letter_hash c) (omega (arith, letter_hash_lt c)) in
    (find_mode (c ∷ []) b, find_chan_mode-letter t c ∙ ap (looked_up find_mode (c ∷ [])) e)

if_known_total :
    {V : Type 0} (k : ℕ) (o : Option V) → (o' : Option V) × (if_known (some k) (some o) ≡ some o')
if_known_total zero o = (none, refl)
if_known_total (suc k) o = (o, refl)

find_chan_ban_mode_total :
    {V : Type 0} (flags : List ℕ) (t : Buckets V) (c : ℕ)
    → length flags ≡ 128
    → length t ≡ 1024
    → c < 128
    → (o : Option V) × (find_chan_ban_mode flags t (some (c ∷ [])) ≡ some o)
unfolding find_chan_ban_mode
find_chan_ban_mode_total flags t c f w lt =
    let (k, e) = get_elem?-lt flags c (omega arith) in
    let (b, g) = get_elem?-lt t (c % 2 ^ 5 * 2 ^ 5) (omega arith) in
    rw (e, g) (if_known_total k (find_mode (c ∷ []) b))

known :
    (k : ℕ) (mode : CString) (modes : List CString)
    → (b : Bool) × (has_if (some k) mode modes ≡ some b)
known zero mode modes = (false, refl)
known (suc k) mode modes = (has mode modes, refl)

pub flag_total :
    (cmodes : List ℕ)
    → length cmodes ≡ 128
    → (c : Channel) (m : ℕ) → m < 128
    → (b : Bool) × (chan_has_mode cmodes (some c) m ≡ some b)
unfolding chan_has_mode
flag_total cmodes w c m lt =
    let (k, e) = get_elem?-lt cmodes m (omega arith) in rw e (known k (m ∷ []) c.modes)

module _ (Inv : Channel → Type 0) (h : Handlers) (av : List Pointer)
    (all_flags : length h.modes.cmodes ≡ 128) (all_modes : length h.modes.handlers ≡ max_mode_hash)
    (all_ban_modes : length h.ban_modes ≡ 1024)
    (keep_modes : (c : Channel) (modes : List CString) → Inv c → Inv (record c { modes = modes }))
    (keep_value : (name : CString) (cm : ChanMode) (f : Option Channel → Pointer → Option Channel)
        (c : Channel) (arg : Pointer)
      → find_chan_mode h.modes.handlers (some name) ≡ some (some cm)
      → cm.setvalue ≡ some f
      → Inv c
      → (c' : Channel) × (f (some c) arg ≡ some c') × Inv c')
    (keep_mask : (name : CString) (cbm : ChanBanMode) (add : Bool)
        (f : Option Channel → Pointer → Outcome) (c : Channel) (arg : Pointer)
      → find_chan_ban_mode h.modes.cmodes h.ban_modes (some name) ≡ some (some cbm)
      → (if add then cbm.addmask else cbm.delmask) ≡ some f
      → Inv c
      → Kept Inv (f (some c) arg)) where
  -- The arguments that are counted stand in the array behind `av`.
  abbrev Good : Line → Type 0
  Good l = Inv l.chan × (l.at + l.ac < length av)

  abbrev Goes : Option Line → Type 0
  Goes o = (l : Line) × (o ≡ some l) × Good l

  with_value-Goes :
      (name : CString) (l : Line) (cm : ChanMode)
      → Good l
      → find_chan_mode h.modes.handlers (some name) ≡ some (some cm)
      → Goes (with_value av name l cm.setvalue)
  with_value-Goes name l cm (i, lt) e = elim (Option-cases cm.setvalue) [
    | inl p ↦ rw p (send true name none l, refl, (i, lt))
    | inr (f, p) ↦ elim (Bool-cases (l.ac == 0)) [
      | inl q ↦ rw (p, q) (l, refl, (i, lt))
      | inr q ↦
          let (arg, r) = get_elem?-lt av (l.at + 1) (ground arith) in
          let (c', k, i') = keep_value name cm f l.chan arg e p i in
          rw (p, q, r, k) (_, refl, (i', ground arith))
    ]
  ]

  change_mode-Goes :
      (add : Bool) (name : CString) (l : Line) (cm : ChanMode)
      → Good l
      → find_chan_mode h.modes.handlers (some name) ≡ some (some cm)
      → Goes (change_mode av add name l cm)
  unfolding change_mode set_chan_mode remove_chan_mode
  change_mode-Goes true name l cm (i, lt) e =
      with_value-Goes name (record l { chan = set_chan_mode l.chan name }) cm
        (keep_modes l.chan _ i, lt) e
  change_mode-Goes false name l cm (i, lt) e = (_, refl, (keep_modes l.chan _ i, lt))

  apply_mask-Goes :
      (add : Bool) (name : CString) (l : Line) (cbm : ChanBanMode) (arg : Pointer)
      → Good l
      → find_chan_ban_mode h.modes.cmodes h.ban_modes (some name) ≡ some (some cbm)
      → Goes (apply_mask (if add then cbm.addmask else cbm.delmask) arg l)
  apply_mask-Goes add name l cbm arg (i, lt) e =
      elim (Option-cases (if add then cbm.addmask else cbm.delmask)) [
        | inl p ↦ rw p (l, refl, (i, lt))
        | inr (f, p) ↦
            rw p (outcome (f (some l.chan) arg) (keep_mask name cbm add f l.chan arg e p i))
      ]
    where
      outcome : (o : Outcome) → Kept Inv o → Goes (masked l o)
      outcome ignored k = (l, refl, (i, lt))
      outcome fault k = elim k [ ]
      outcome (done c qs) k = (_, refl, (k, lt))

  change_ban-Goes :
      (add : Bool) (name : CString) (l : Line) (cbm : ChanBanMode)
      → Good l
      → find_chan_ban_mode h.modes.cmodes h.ban_modes (some name) ≡ some (some cbm)
      → Goes (change_ban av add name l cbm)
  unfolding change_ban
  change_ban-Goes add name l cbm (i, lt) e = elim (Bool-cases (l.ac == 0)) [
    | inl q ↦ rw q (l, refl, (i, lt))
    | inr q ↦
        let (arg, r) = get_elem?-lt av (l.at + 1) (ground arith) in
        let (l', k, g) = apply_mask-Goes add name (shift l) cbm arg (i, ground arith) e in
        rw (q, r, k) (send add name arg l', refl, g)
  ]

  change-Goes :
      (add : Bool) (name : CString) (l : Line) (m : Option ChanMode) (ban : Option ChanBanMode)
      → Good l
      → find_chan_mode h.modes.handlers (some name) ≡ some m
      → find_chan_ban_mode h.modes.cmodes h.ban_modes (some name) ≡ some ban
      → Goes (change av add name l (some m) (some ban))
  change-Goes add name l (some cm) ban g e f = change_mode-Goes add name l cm g e
  change-Goes add name l none (some cbm) g e f = change_ban-Goes add name l cbm g f
  change-Goes add name l none none (i, lt) e f = elim (Bool-cases (l.ac == 0)) [
    | inl q ↦ rw q (l, refl, (i, lt))
    | inr q ↦ rw q (shift l, refl, (i, ground arith))
  ]

  change_letter-Goes :
      (add : Bool) (m : ℕ) (l : Line) → m < 128 → Good l → Goes (change_letter h av add (m ∷ []) l)
  unfolding change_letter
  change_letter-Goes add m l lt g =
      let (cm, e) = find_chan_mode_total h.modes.handlers m all_modes in
      let (cbm, f) =
        find_chan_ban_mode_total h.modes.cmodes h.ban_modes m all_flags all_ban_modes lt in
      rw (e, f) (change-Goes add (m ∷ []) l cm cbm g e f)

  mode_loop-Goes :
      (modes : CString) (add : Bool) (l : Line) → Good l → Goes (mode_loop h av add modes l)
  unfolding mode_loop
  mode_loop-Goes [] add l g = (l, refl, g)
  mode_loop-Goes (m ∷ modes) add l g = elim (Bool-cases (m == b'+' || m == b'-' || ltb 127 m)) [
    | inl q ↦ rw q (mode_loop-Goes modes _ l g)
    | inr q ↦
        let (l', e, g') = change_letter-Goes add m l (ground arith) g in
        rw (q, e) (mode_loop-Goes modes _ l' g')
  ]

  flagged-Goes :
      (l : Line) → Inv l.chan → (l' : Line) × (flagged h (some l) ≡ some l') × Inv l'.chan
  flagged-Goes l i =
      let (s, e) = flag_total h.modes.cmodes all_flags l.chan 115 (omega arith) in
      let (p, f) = flag_total h.modes.cmodes all_flags l.chan 112 (omega arith) in
      (record l { stats = record l.stats { secret = s; private = p } }, rw (e, f), i)

  -- Let the tables have all of their places, and let a property of channels be kept by the handlers
  -- of the tables, which do not fault on channels that have it, and not depend on the list of
  -- modes. Then `chan_set_modes`, called with at most as many arguments as there are, and a string
  -- as the first of them, reads no argument that is not there and does not fault, whatever the
  -- string is, and the channel that it leaves has the property.
  pub chan_set_modes-Keeps :
      (c : Channel) (s : StatsChannel) (ac : ℕ) (modes : CString)
      → Inv c
      → 0 < ac
      → ac ≤ length av
      → get_elem? av 0 ≡ some (some modes)
      → (l : Line) × (chan_set_modes h ac av c s ≡ some l) × Inv l.chan
  unfolding chan_set_modes
  chan_set_modes-Keeps c s ac modes i pos le e =
      let (l, k, (i', lt)) = mode_loop-Goes modes true (first_line ac c s) (i, omega arith) in
      let (l', k', i'') = flagged-Goes l i' in (l', rw (e, k) k', i'')
