-- ===== src/Cron/Examples.antt =====
-- Runs of the cron events on concrete tables.
use denora.Prelude.{
  ℕ, zero, suc, false, length, ap, ◌/◌, ◌%◌, ◌≡◌, refl, set, length-set, ◌∙◌, List, [], ◌∷◌, none,
  some, CString, codes, stricmp_eq, if◌then◌else◌,
}
use denora.Cron.Events.{
  CronEvent, CronEventHash, Table, max_cmd_hash, err_ok, find_cron_event, add_cron_event,
}
use denora.Cron.Lookup.{IsTable, find_cron_event-add_cron_event}
use denora.Cron.Running.{Runs, cron_process_events-Runs}
use denora.Cron.{Tm, Cron, denora_cron, setup_cron_event, cron_process_events}

-- A state that notes the names that were run.
abbrev World : Type 0
World = List CString

abbrev note : CString → World → ℕ × World
note name w = (0, name ∷ w)

abbrev copies : ℕ → List (List (CronEventHash World))
copies zero = []
copies (suc n) = [] ∷ copies n

abbrev empty_table : Table World
empty_table = copies max_cmd_hash

copies_lem : (n : ℕ) → length (copies n) ≡ n
copies_lem zero = refl
copies_lem (suc n) = ap suc (copies_lem n)

abbrev hourly_event : CronEvent World
hourly_event = record {
  func = some note;
  name = codes "cron_hourly";
  core = false;
  mod_name = none;
}

abbrev cron_table : Table World
cron_table =
    set empty_table 114 (record { name = codes "cron_hourly"; evh = hourly_event ∷ [] } ∷ [])

cron_table-IsTable : IsTable cron_table
cron_table-IsTable =
    length-set empty_table 114 (record { name = codes "cron_hourly"; evh = hourly_event ∷ [] } ∷ [])
    ∙ copies_lem max_cmd_hash

abbrev in_utc : ℕ → Tm
in_utc ts = record { tm_min = ts / 60 % 60; tm_hour = ts / 3600 % 24; tm_mday = 1; tm_wday = 4 }

abbrev started : Cron World
started = record { lastrun = 14400; world = [] }

find_cron_event-add_cron_event_example :
    (t' : Table World) × (es : List (CronEvent World)) × (add_cron_event cron_table
        (hourly_event ∷ [])
      ≡ some (err_ok, t'))
    × IsTable t'
    × (find_cron_event cron_table (codes "CRON_HOURLY") ≡ some es)
    × (find_cron_event t' (codes "CRON_HOURLY")
        ≡ some (
            if stricmp_eq (codes "CRON_HOURLY") (codes "cron_hourly")
            then hourly_event ∷ es
            else es))
find_cron_event-add_cron_event_example =
    find_cron_event-add_cron_event cron_table hourly_event b'c' b'C' (codes "ron_hourly")
      (codes "RON_HOURLY") cron_table-IsTable refl

cron_process_events-Runs_example :
    (es : List (CronEvent World)) × (s' : World) × (find_cron_event cron_table (codes "cron_hourly")
      ≡ some es)
    × (cron_process_events cron_table (codes "cron_hourly") [] ≡ some s')
    × Runs (codes "cron_hourly") es [] s'
cron_process_events-Runs_example =
    cron_process_events-Runs cron_table b'c' (codes "ron_hourly") [] cron_table-IsTable

-- A run after five hours and twelve minutes, with the hourly event in the table.
denora_cron_test :
    denora_cron in_utc cron_table 18720 started
    ≡ some (record { lastrun = 18720; world = codes "cron_hourly" ∷ [] })
unfolding denora_cron cron_process_events stricmp_eq
denora_cron_test = refl

setup_cron_event_test :
    setup_cron_event note note note empty_table
    ≡ some (
        set empty_table 114 (
          record {
            name = codes "cron_hourly";
            evh = hourly_event ∷ hourly_event ∷ hourly_event ∷ [];
          }
          ∷ []))
unfolding setup_cron_event stricmp_eq
setup_cron_event_test = refl
