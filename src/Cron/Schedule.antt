-- ===== src/Cron/Schedule.antt =====
-- Which events `denora_cron` of src/cron.c runs at an hour of the clock.
use denora.Prelude.{
  str_eq-≡, ℕ, zero, suc, ◌+◌, ◌/◌, ◌%◌, ◌<◌, ◌≡◌, refl, ap, sym, ◌∙◌, Bool, true, false, ◌&&◌,
  List, [], ◌∷◌, ◌++◌, Option, some, CString, codes, inl, inr, Bool-cases, arith, str_eq, ltb, take,
  ◌==◌, if◌then◌else◌, all_below_lem, and_left, and_right,
}
use mathlib.Core.Path.{ap₂}
use denora.Cron.Events.{Table}
use denora.Cron.{
  Tm, hour_names, weekday_names, cron_process_events, after, run_tests, run_first, midnight,
  run_hour,
}

-- The number in decimal digits, below 100.
abbrev pub decimal : ℕ → CString
decimal n = if ltb n 10 then (b'0' + n) ∷ [] else (b'0' + n / 10) ∷ (b'0' + n % 10) ∷ []

abbrev nth : ℕ → List CString → CString
nth n [] = []
nth zero (s ∷ ss) = s
nth (suc n) (s ∷ ss) = nth n ss

abbrev pub weekday : ℕ → CString
weekday n = nth n (
    codes "sunday"
    ∷ codes "monday"
    ∷ codes "tuesday"
    ∷ codes "wednesday"
    ∷ codes "thursday"
    ∷ codes "friday"
    ∷ codes "saturday"
    ∷ [])

-- The names of the events that are due at an hour.
abbrev pub due : Tm → List CString
due tm =
    (if tm.tm_hour == 0
      then codes "cron_midnight"
        ∷ (codes "cron_" ++ weekday tm.tm_wday)
        ∷ (if tm.tm_mday == 1 then codes "cron_monthly" ∷ [] else [])
      else (codes "cron_hour_" ++ decimal tm.tm_hour) ∷ [])
    ++ codes "cron_hourly" ∷ []

-- The names of the tests that hold.
abbrev matching : ℕ → List (ℕ × CString) → List CString
matching n [] = []
matching n ((k, name) ∷ tests) = if n == k then name ∷ matching n tests else matching n tests

abbrev same_names : List CString → List CString → Bool
same_names [] [] = true
same_names [] (t ∷ ts) = false
same_names (s ∷ ss) [] = false
same_names (s ∷ ss) (t ∷ ts) = str_eq s t && same_names ss ts

same_names-≡ : (ss ts : List CString) → same_names ss ts ≡ true → ss ≡ ts
same_names-≡ [] [] h = refl
same_names-≡ [] (t ∷ ts) h = absurd (ground arith)
same_names-≡ (s ∷ ss) [] h = absurd (ground arith)
same_names-≡ (s ∷ ss) (t ∷ ts) h =
    ap₂ (λ x y. x ∷ y) (str_eq-≡ s t (and_left _ _ h))
      (same_names-≡ ss ts (and_right (str_eq s t) _ h))

matching-hour :
    (n : ℕ) → n < 23 → matching (suc n) hour_names ≡ (codes "cron_hour_" ++ decimal (suc n)) ∷ []
unfolding str_eq
matching-hour n lt = same_names-≡ _ _ (
    all_below_lem 23
      (λ m. same_names (matching (suc m) hour_names) ((codes "cron_hour_" ++ decimal (suc m)) ∷ []))
      n refl lt)

matching-weekday : (n : ℕ) → n < 7 → matching n weekday_names ≡ (codes "cron_" ++ weekday n) ∷ []
unfolding str_eq
matching-weekday n lt = same_names-≡ _ _ (
    all_below_lem 7 (λ m. same_names (matching m weekday_names) ((codes "cron_" ++ weekday m) ∷ []))
      n refl lt)

module _ {S : Type 0} where
  -- The events of these names, run in this order.
  abbrev pub run_names : Table S → List CString → Option S → Option S
  run_names t [] s = s
  run_names t (name ∷ names) s = run_names t names (after (cron_process_events t name) s)

  run_names-append :
      (t : Table S) (a b : List CString) (s : Option S)
      → run_names t (a ++ b) s ≡ run_names t b (run_names t a s)
  run_names-append t [] b s = refl
  run_names-append t (name ∷ a) b s = run_names-append t a b (after (cron_process_events t name) s)

  run_tests-matching :
      (t : Table S) (n : ℕ) (tests : List (ℕ × CString)) (s : Option S)
      → run_tests t n tests s ≡ run_names t (matching n tests) s
  run_tests-matching t n [] s = refl
  run_tests-matching t n ((k, name) ∷ tests) s = elim (Bool-cases (n == k)) [
    | inl e ↦ rw e (run_tests-matching t n tests (after (cron_process_events t name) s))
    | inr e ↦ rw e (run_tests-matching t n tests s)
  ]

  run_first-matching :
      (t : Table S) (n : ℕ) (tests : List (ℕ × CString)) (s : Option S)
      → run_first t n tests s ≡ run_names t (take 1 (matching n tests)) s
  run_first-matching t n [] s = refl
  run_first-matching t n ((k, name) ∷ tests) s = elim (Bool-cases (n == k)) [
    | inl e ↦ rw e
    | inr e ↦ rw e (run_first-matching t n tests s)
  ]

  midnight-names :
      (t : Table S) (tm : Tm) (s : S)
      → tm.tm_wday < 7
      → midnight t tm s
        ≡ run_names t
            (codes "cron_midnight"
              ∷ (codes "cron_" ++ weekday tm.tm_wday)
              ∷ (if tm.tm_mday == 1 then codes "cron_monthly" ∷ [] else []))
            (some s)
  unfolding midnight
  midnight-names t tm s lt =
      rw
        (
          run_tests-matching t tm.tm_wday weekday_names
              (cron_process_events t (codes "cron_midnight") s),
          matching-weekday tm.tm_wday lt,
        )
        (elim (Bool-cases (tm.tm_mday == 1)) [ inl e ↦ rw e | inr e ↦ rw e ])

  hour-names :
      (t : Table S) (n : ℕ) (s : Option S)
      → (n == 0) ≡ false
      → n < 24
      → run_first t n hour_names s
        ≡ after (cron_process_events t (codes "cron_hour_" ++ decimal n)) s
  hour-names t zero s e lt = absurd (ground arith)
  hour-names t (suc n) s e lt =
      run_first-matching t (suc n) hour_names s
      ∙ ap (λ m. run_names t (take 1 m) s) (matching-hour n (omega arith))

  pub run_hour-due :
      (t : Table S) (tm : Tm) (s : S)
      → tm.tm_hour < 24
      → tm.tm_wday < 7
      → run_hour t tm s ≡ run_names t (due tm) (some s)
  unfolding run_hour
  run_hour-due t tm s hour wday = elim (Bool-cases (tm.tm_hour == 0)) [
    | inl e ↦ rw e (
        ap (after (cron_process_events t (codes "cron_hourly"))) (midnight-names t tm s wday)
        ∙ sym (
            run_names-append t
              (codes "cron_midnight"
                ∷ (codes "cron_" ++ weekday tm.tm_wday)
                ∷ (if tm.tm_mday == 1 then codes "cron_monthly" ∷ [] else []))
              (codes "cron_hourly" ∷ []) (some s)))
    | inr e ↦ rw e (
        ap (after (cron_process_events t (codes "cron_hourly")))
          (hour-names t tm.tm_hour (some s) e hour))
  ]
