-- ===== src/Cron.antt =====
-- The cron events, src/cron.c: the table and what runs the events by the clock. A `time_t` is a
-- number of seconds; where the difference `ts - lastrun` would be negative the code returns, and so
-- it does at 0, the difference of the model. `localtime` is a parameter.
pub mod Events
pub mod Names
pub mod Lookup
pub mod Running
pub mod Schedule
pub mod Hourly
mod Examples
use denora.Prelude.{
  ℕ, ◌-◌, Bool, true, false, ◌||◌, List, [], ◌∷◌, Option, none, some, CString, codes, ltb, leb,
  ◌==◌, if◌then◌else◌,
}
use denora.Cron.Events.{
  CronEvent, CronEventHash, Table, find_cron_event, create_cron_event, add_cron_event,
}

abbrev pub mod_cont : ℕ
mod_cont = 0

pub record Tm : Type 0 where
  pub tm_min : ℕ
  pub tm_hour : ℕ
  pub tm_mday : ℕ
  pub tm_wday : ℕ

-- The names of the hours, in the order of the tests.
abbrev pub hour_names : List (ℕ × CString)
hour_names =
    (1, codes "cron_hour_1")
    ∷ (2, codes "cron_hour_2")
    ∷ (3, codes "cron_hour_3")
    ∷ (4, codes "cron_hour_4")
    ∷ (5, codes "cron_hour_5")
    ∷ (6, codes "cron_hour_6")
    ∷ (7, codes "cron_hour_7")
    ∷ (8, codes "cron_hour_8")
    ∷ (9, codes "cron_hour_9")
    ∷ (10, codes "cron_hour_10")
    ∷ (11, codes "cron_hour_11")
    ∷ (12, codes "cron_hour_12")
    ∷ (13, codes "cron_hour_13")
    ∷ (14, codes "cron_hour_14")
    ∷ (15, codes "cron_hour_15")
    ∷ (16, codes "cron_hour_16")
    ∷ (17, codes "cron_hour_17")
    ∷ (18, codes "cron_hour_18")
    ∷ (19, codes "cron_hour_19")
    ∷ (20, codes "cron_hour_20")
    ∷ (21, codes "cron_hour_21")
    ∷ (22, codes "cron_hour_22")
    ∷ (23, codes "cron_hour_23")
    ∷ []

abbrev pub weekday_names : List (ℕ × CString)
weekday_names =
    (0, codes "cron_sunday")
    ∷ (1, codes "cron_monday")
    ∷ (2, codes "cron_tuesday")
    ∷ (3, codes "cron_wednesday")
    ∷ (4, codes "cron_thursday")
    ∷ (5, codes "cron_friday")
    ∷ (6, codes "cron_saturday")
    ∷ []

pub record Cron (S : Type 0) : Type 0 where
  pub lastrun : ℕ
  pub world : S

unfoldable pub is_skipped : Tm → ℕ → ℕ → Bool
is_skipped tm ts lastrun = ltb 30 tm.tm_min || leb (ts - lastrun) 2400

module _ {S : Type 0} where
  -- The loop over a chain. The first handler is called as the others are, as `retVal` begins at 0.
  abbrev pub go_on : (S → S) → ℕ × S → S
  go_on rest (r, s) = if r == mod_cont then rest s else s

  abbrev pub run_event : CString → (S → S) → Option (CString → S → ℕ × S) → S → S
  run_event name rest none s = s
  run_event name rest (some f) s = go_on rest (f name s)

  unfoldable pub run_chain : CString → List (CronEvent S) → S → S
  run_chain name [] s = s
  run_chain name (e ∷ rest) s = run_event name (run_chain name rest) e.func s

  abbrev pub run_found : CString → Option (List (CronEvent S)) → S → Option S
  unfolding run_chain
  run_found name none s = none
  run_found name (some evh) s = some (run_chain name evh s)

  unfoldable pub cron_process_events : Table S → CString → S → Option S
  unfolding run_chain find_cron_event
  cron_process_events t name s = run_found name (find_cron_event t name) s

  -- The calls of `cron_process_events`, one after the other.
  abbrev pub after : (S → Option S) → Option S → Option S
  after f none = none
  after f (some s) = f s

  -- Tests in a row, each with a call of its own.
  abbrev pub run_tests : Table S → ℕ → List (ℕ × CString) → Option S → Option S
  run_tests t n [] s = s
  run_tests t n ((k, name) ∷ tests) s =
      run_tests t n tests (if n == k then after (cron_process_events t name) s else s)

  -- The `else if` chain: the first test that holds.
  abbrev pub run_first : Table S → ℕ → List (ℕ × CString) → Option S → Option S
  run_first t n [] s = s
  run_first t n ((k, name) ∷ tests) s =
      let rest = run_first t n tests s in
      if n == k then after (cron_process_events t name) s else rest

  unfoldable pub midnight : Table S → Tm → S → Option S
  midnight t tm s =
      let weekly =
        run_tests t tm.tm_wday weekday_names (cron_process_events t (codes "cron_midnight") s) in
      if tm.tm_mday == 1
      then after (cron_process_events t (codes "cron_monthly")) weekly
      else weekly

  unfoldable pub run_hour : Table S → Tm → S → Option S
  unfolding midnight
  run_hour t tm s =
      after (cron_process_events t (codes "cron_hourly"))
        (if tm.tm_hour == 0 then midnight t tm s else run_first t tm.tm_hour hour_names (some s))

  abbrev pub ran : ℕ → Option S → Option (Cron S)
  ran ts none = none
  ran ts (some s) = some (record { lastrun = ts; world = s })

  unfoldable pub denora_cron : (ℕ → Tm) → Table S → ℕ → Cron S → Option (Cron S)
  unfolding run_hour is_skipped
  denora_cron localtime t ts c =
      if is_skipped (localtime ts) ts c.lastrun
      then some c
      else ran ts (run_hour t (localtime ts) c.world)

  abbrev pub added : Option (ℕ × Table S) → Option (Table S)
  added none = none
  added (some (r, t)) = some t

  abbrev pub add_hourly : (CString → S → ℕ × S) → Option (Table S) → Option (Table S)
  unfolding create_cron_event add_cron_event
  add_hourly f none = none
  add_hourly f (some t) =
      added (add_cron_event t (create_cron_event (codes "cron_hourly") (some f)))

  -- With the handlers `users_hourly`, `chans_hourly` and `servers_hourly` of other files.
  unfoldable pub setup_cron_event :
      (CString → S → ℕ × S)
      → (CString → S → ℕ × S)
      → (CString → S → ℕ × S)
      → Table S
      → Option (Table S)
  unfolding add_cron_event create_cron_event
  setup_cron_event users chans servers t =
      add_hourly servers (add_hourly chans (add_hourly users (some t)))
