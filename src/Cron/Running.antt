-- ===== src/Cron/Running.antt =====
-- The call of the handlers of an event, `cron_process_events` of src/cron.c.
use denora.Prelude.{
  get_elem?-lt, ℕ, ◌≡◌, ◌≢◌, refl, ap, ◌∙◌, List, [], ◌∷◌, Option, none, some, CString, Bool-cases,
  inl, inr, arith, ◌==◌, ==_iff,
}
use denora.Cron.Events.{CronEvent, Table, find_cron_event, find_in}
use denora.Cron.Names.{cmd_hash_lt}
use denora.Cron.Lookup.{IsTable}
use denora.Cron.{mod_cont, run_chain, run_event, go_on, cron_process_events}

module _ {S : Type 0} where
  -- What the handlers of a chain do to the state: each is called once, from the head on, until one
  -- returns something other than MOD_CONT or an event has none.
  pub data Runs (name : CString) : List (CronEvent S) → S → S → Type 0 where
    ends : {s : S} → Runs name [] s s
    no_handler :
        {e : CronEvent S} {es : List (CronEvent S)} {s : S} → e.func ≡ none → Runs name (e ∷ es) s s
    stops :
        {e : CronEvent S} {es : List (CronEvent S)} {s s' : S} (f : CString → S → ℕ × S) (r : ℕ)
        → e.func ≡ some f
        → f name s ≡ (r, s')
        → r ≢ mod_cont
        → Runs name (e ∷ es) s s'
    goes_on :
        {e : CronEvent S} {es : List (CronEvent S)} {s s' s'' : S} (f : CString → S → ℕ × S)
        → e.func ≡ some f
        → f name s ≡ (mod_cont, s')
        → Runs name es s' s''
        → Runs name (e ∷ es) s s''

  run_chain-Runs :
      (name : CString) (es : List (CronEvent S)) (s : S) → Runs name es s (run_chain name es s)
  unfolding run_chain
  run_chain-Runs name [] s = ends
  run_chain-Runs name (e ∷ es) s = handled (run_chain-Runs name es) e.func refl
    where
      called :
          ((s' : S) → Runs name es s' (run_chain name es s'))
          → (f : CString → S → ℕ × S) → e.func ≡ some f
          → (p : ℕ × S) → f name s ≡ p
          → Runs name (e ∷ es) s (go_on (run_chain name es) p)
      called go f ef (r, s') fs = elim (Bool-cases (r == mod_cont)) [
        | inl q ↦
            let z : r ≡ mod_cont = (==_iff r mod_cont).0 q in
            rw q (goes_on f ef (fs ∙ ap (λ x. (x, s')) z) (go s'))
        | inr q ↦ rw q (stops f r ef fs (λ z. absurd (ground (arith, z))))
      ]

      handled :
          ((s' : S) → Runs name es s' (run_chain name es s'))
          → (o : Option (CString → S → ℕ × S)) → e.func ≡ o
          → Runs name (e ∷ es) s (run_event name (run_chain name es) o s)
      handled go none ef = no_handler ef
      handled go (some f) ef = called go f ef (f name s) refl

  find_cron_event_total :
      (t : Table S) (d : ℕ) (r : CString)
      → IsTable t
      → (es : List (CronEvent S)) × (find_cron_event t (d ∷ r) ≡ some es)
  unfolding find_cron_event
  find_cron_event_total t d r w =
      let (i, h, lt) = cmd_hash_lt d r in
      let (b, e) = get_elem?-lt t i (omega arith) in (find_in (d ∷ r) b, rw (h, e))

  -- In a table with all of its buckets `cron_process_events` of a name that is not empty succeeds:
  -- it calls the handlers of the chain that `findCronEvent` finds, in their order, each once, up to
  -- the first that does not return MOD_CONT or is null.
  pub cron_process_events-Runs :
      (t : Table S) (d : ℕ) (r : CString) (s : S)
      → IsTable t
      → (es : List (CronEvent S)) × (s' : S) × (find_cron_event t (d ∷ r) ≡ some es)
        × (cron_process_events t (d ∷ r) s ≡ some s')
        × Runs (d ∷ r) es s s'
  unfolding cron_process_events
  cron_process_events-Runs t d r s w =
      let (es, e) = find_cron_event_total t d r w in
      (es, run_chain (d ∷ r) es s, e, rw e, run_chain-Runs (d ∷ r) es s)
