-- ===== src/Modes/Examples.antt =====
-- Runs of the modes of channels on concrete tables and lines. The tables have the mode k with a
-- value and the mode b with masks.
use denora.Prelude.{
  ℕ, ◌≡◌, refl, ap, ◌∙◌, Bool, true, false, List, [], ◌∷◌, Option, none, some, CString, codes,
  arith, tolower, length-replicate, get_elem?, replicate, str_eq, of_some, if◌then◌else◌,
}
use denora.Bans.Masks.{Pointer, MaskArray}
use denora.Bans.Queries.{StatsChannel, Sql, Channel}
use denora.Bans.{Outcome, add_ban, del_ban}
use denora.Bans.Adding.{contents, IsValid, IsValidChannel}
use denora.Modes.Tables.{
  max_mode_hash, find_mode, find_chan_mode, find_chan_ban_mode, mode_hash_sensitive, ModeState,
}
use denora.Cron.Events.{cmd_hash}
use denora.Modes.Refinement.{new_state, create_all, create_all_refines}
use denora.Modes.Values.{set_key, get_key, chan_has_mode}
use denora.Modes.Line.{ChanMode, ChanBanMode, Handlers, Line, channel_mode, chan_set_modes}
use denora.Modes.Safety.{Kept, chan_set_modes-Keeps}
use denora.Modes.Banning.{chan_set_modes-bans}
use denora.Modes.Single.{
  length-one_entry, one_entry, find_chan_mode-one_entry, find_chan_ban_mode-one_entry, Sound,
  add_ban-Sound, del_ban-Sound,
}
use denora.Modes.Keys.{chan_set_modes-key_stays}
use denora.Modes.Listed.{sets, removes, all_called, counter, times, all_called-counter}

abbrev db : Sql
db = record { large_net = false; do_sql = true; quote = λ s. s; rows = λ q. some 0 }

abbrev no_masks : MaskArray
no_masks = record { count = 0; size = 0; slots = [] }

abbrev channel : Channel
channel = record {
  name = codes "#c";
  sqlchan = codes "#c";
  bans = no_masks;
  excepts = no_masks;
  invite = no_masks;
  quiet = no_masks;
  limit = 0;
  rejoinlock = 0;
  nickchgflood = none;
  key = none;
  redirect = none;
  flood = none;
  flood_alt = none;
  modes = [];
  creation_time = 0;
  topic = none;
  topic_setter = [];
  topic_time = 0;
  users = [];
  stats = 0;
  statservon = false;
}

no_masks-IsValid : IsValid no_masks
no_masks-IsValid = record { fits = omega arith; allocated = refl; by_eight = refl }

abbrev stats : StatsChannel
stats = record {
  name = codes "#c";
  usercount = 0;
  maxusercount = 0;
  maxusertime = 0;
  in_use = true;
  joincounter = 0;
  joincounttime = 0;
  partcount = 0;
  partcounttime = 0;
  kickcount = 0;
  kickcounttime = 0;
  modecount = 0;
  modecounttime = 0;
  topic_count = 0;
  topiccounttime = 0;
  secret = false;
  private = false;
}

channel-IsValidChannel : IsValidChannel channel
channel-IsValidChannel = record {
  bans = no_masks-IsValid;
  excepts = no_masks-IsValid;
  invite = no_masks-IsValid;
  quiet = no_masks-IsValid;
}

abbrev bans_mode : ChanBanMode
bans_mode = record { addmask = some (add_ban db); delmask = some (del_ban db) }

abbrev key_mode : ChanMode
key_mode = record { setvalue = some set_key }

abbrev handlers : Handlers
handlers = record {
  modes = record {
    handlers = one_entry max_mode_hash 352 (codes "k") key_mode;
    cmodes = replicate 128 1;
  };
  ban_modes = one_entry 1024 64 (codes "b") bans_mode;
}

channel-Sound : Sound channel
channel-Sound = (channel-IsValidChannel, tt)

keep_key :
    (name : CString) (cm : ChanMode) (f : Option Channel → Pointer → Option Channel) (c : Channel)
    (arg : Pointer)
    → find_chan_mode handlers.modes.handlers (some name) ≡ some (some cm)
    → cm.setvalue ≡ some f
    → Sound c
    → (c' : Channel) × (f (some c) arg ≡ some c') × Sound c'
unfolding set_key
keep_key name cm f c arg e k (v, a) =
    let is_key = find_chan_mode-one_entry max_mode_hash 352 (codes "k") name key_mode cm e in
    let g : some set_key ≡ some f = ap (λ m. m.setvalue) is_key ∙ k in
    let p : set_key ≡ f = ap (of_some set_key) g in
    rw (← p) (
      _,
      refl,
      (record { bans = v.bans; excepts = v.excepts; invite = v.invite; quiet = v.quiet }, a),
    )

keep_bans :
    (name : CString) (cbm : ChanBanMode) (add : Bool) (f : Option Channel → Pointer → Outcome)
    (c : Channel) (arg : Pointer)
    → find_chan_ban_mode handlers.modes.cmodes handlers.ban_modes (some name) ≡ some (some cbm)
    → (if add then cbm.addmask else cbm.delmask) ≡ some f
    → Sound c
    → Kept Sound (f (some c) arg)
keep_bans name cbm true f c arg e k i =
    let is_bans =
      find_chan_ban_mode-one_entry handlers.modes.cmodes 1024 64 (codes "b") name bans_mode cbm e in
    let g : some (add_ban db) ≡ some f = ap (λ m. m.addmask) is_bans ∙ k in
    let p : add_ban db ≡ f = ap (of_some (add_ban db)) g in rw (← p) (add_ban-Sound db c arg i)
keep_bans name cbm false f c arg e k i =
    let is_bans =
      find_chan_ban_mode-one_entry handlers.modes.cmodes 1024 64 (codes "b") name bans_mode cbm e in
    let g : some (del_ban db) ≡ some f = ap (λ m. m.delmask) is_bans ∙ k in
    let p : del_ban db ≡ f = ap (of_some (del_ban db)) g in rw (← p) (del_ban-Sound db c arg i)

abbrev bans_and_key : List Pointer
bans_and_key =
    some (codes "+bk-bX") ∷ some (codes "a!*") ∷ some (codes "secret") ∷ some (codes "A!*") ∷ []

chan_set_modes-Keeps_example :
    (l : Line) × (chan_set_modes handlers 4 bans_and_key channel stats ≡ some l) × Sound l.chan
chan_set_modes-Keeps_example =
    chan_set_modes-Keeps Sound handlers bans_and_key (length-replicate {A = ℕ} 128 1)
      (length-one_entry max_mode_hash 352 (codes "k") key_mode)
      (length-one_entry 1024 64 (codes "b") bans_mode)
      (λ c s i. (
        record { bans = i.0.bans; excepts = i.0.excepts; invite = i.0.invite; quiet = i.0.quiet },
        i.1,
      ))
      keep_key keep_bans channel stats 4 (codes "+bk-bX") channel-Sound (omega arith) (omega arith)
      refl

abbrev registrations : List (ℕ × ℕ)
registrations = (b'b', 1) ∷ (b'B', 2) ∷ (b'b', 3) ∷ []

create_all_refines_example :
    (st : ModeState ℕ) × (create_all registrations new_state ≡ some st)
    × (find_chan_mode st.handlers (some (codes "b")) ≡ some (some 1))
    × (get_elem? st.cmodes b'b' ≡ some 1)
create_all_refines_example =
    create_all_refines registrations b'b'
      ((omega arith, omega arith), ((omega arith, omega arith), ((omega arith, omega arith), tt)))
      (omega arith, omega arith)

no_value_of_b : find_chan_mode handlers.modes.handlers (some (codes "b")) ≡ some none
unfolding find_chan_mode find_mode mode_hash_sensitive
no_value_of_b = refl

masks_of_b :
    find_chan_ban_mode handlers.modes.cmodes handlers.ban_modes (some (codes "b"))
    ≡ some (some bans_mode)
unfolding find_chan_ban_mode find_mode cmd_hash str_eq
masks_of_b = refl

chan_set_modes-bans_example :
    (l : Line) × (chan_set_modes handlers 3
        (some (codes "+bb") ∷ some (codes "a!*") ∷ some (codes "*!b") ∷ [])
        channel
        stats
      ≡ some l)
    × IsValidChannel l.chan
    × (contents l.chan.bans ≡ some (codes "a!*") ∷ some (codes "*!b") ∷ [])
chan_set_modes-bans_example =
    chan_set_modes-bans db handlers bans_mode refl no_value_of_b masks_of_b channel stats
      (codes "a!*" ∷ codes "*!b" ∷ []) channel-IsValidChannel (length-replicate {A = ℕ} 128 1)

all_called-counter_example :
    chan_has_mode
      (replicate 128 1)
      (some (all_called (sets b'l' ∷ sets b'l' ∷ removes b'l' ∷ []) channel))
      b'l'
    ≡ some true
unfolding counter times
all_called-counter_example =
    all_called-counter (replicate 128 1) b'l' 0 (sets b'l' ∷ sets b'l' ∷ removes b'l' ∷ []) channel
      refl (λ e. refl, (λ e. refl, (λ e. refl, tt))) tt

k_and_K : tolower b'k' ≡ tolower b'K'
unfolding tolower
k_and_K = refl

value_of_k : find_chan_mode handlers.modes.handlers (some (codes "k")) ≡ some (some key_mode)
unfolding find_chan_mode find_mode mode_hash_sensitive str_eq
value_of_k = refl

masks_of_k :
    find_chan_ban_mode handlers.modes.cmodes handlers.ban_modes (some (codes "k")) ≡ some none
unfolding find_chan_ban_mode find_mode cmd_hash str_eq
masks_of_k = refl

chan_set_modes-key_stays_example :
    (l l' : Line) × (chan_set_modes handlers 2
        (some (codes "+k") ∷ some (codes "x") ∷ [])
        channel
        stats
      ≡ some l)
    × (chan_set_modes handlers 2 (some (codes "-k") ∷ some (codes "x") ∷ []) l.chan stats ≡ some l')
    × (get_key (some l'.chan) ≡ some (codes "x"))
    × (l.ac ≡ 0)
    × (l'.ac ≡ 1)
    × (l.events ≡ channel_mode true (codes "#c") (codes "k") none ∷ [])
    × (l'.events ≡ channel_mode false l.chan.name (codes "k") none ∷ [])
chan_set_modes-key_stays_example =
    chan_set_modes-key_stays handlers key_mode none (length-replicate {A = ℕ} 128 1) refl value_of_k
      masks_of_k channel stats stats b'x' []
