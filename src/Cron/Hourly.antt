-- ===== src/Cron/Hourly.antt =====
-- When `denora_cron` of src/cron.c runs the events.
use denora.Prelude.{List, [], ◌∷◌, CString}
use denora.Cron.{Cron}

-- No name is empty.
abbrev AllNamed : List CString → Type 0
AllNamed [] = Unit
AllNamed ([] ∷ names) = ⊥
AllNamed ((c ∷ s) ∷ names) = AllNamed names
