-- ===== src/Examples/Secrets.antt =====
-- Reauthentication tokens, proposals, and the batch controller.
use zbag_app_tauri.Base.{◌≡◌, refl, List, [], ◌∷◌, none, some, All, arith}
use zbag_app_tauri.Reauth.{spend, view_seed_phrase, invalid, Tokens, issue, validate_and_consume}
use zbag_app_tauri.Reauth.Tokens.{Event, issues, validates, Avoids, run, validate_once}
use zbag_app_tauri.Sync.Batch
use zbag_app_tauri.Sync.Batch.{ScanBatchActivity, record_scan_result}
use zbag_app_tauri.Sync.Batch.Sizes.{IsRunning, after_results, new_results-IsRunning}

abbrev tokens : Tokens
tokens = (issue [] 11 1000 8 spend).0

accepted : (validate_and_consume tokens 11 2000 8 spend).1 ≡ none
unfolding validate_and_consume issue
accepted = refl

abbrev events : List Event
events = issues 12 3000 8 spend ∷ validates 11 4000 9 view_seed_phrase ∷ []

events_avoid : All (Avoids 11) events
events_avoid = ((λ e. omega (arith, e)), (tt, tt))

validate_once_example :
    (validate_and_consume
      (run (validate_and_consume tokens 11 2000 8 spend).0 events)
      11
      5000
      8
      spend).1
    ≡ some invalid
validate_once_example =
    validate_once tokens 11 2000 8 spend events 5000 8 spend accepted events_avoid

abbrev quiet : ScanBatchActivity
quiet = record {
  scanned_blocks = 250;
  spent_sapling = 0;
  spent_orchard = 0;
  received_sapling = 0;
  received_orchard = 0;
}

new_results-IsRunning_example :
    IsRunning 2100000 (after_results (Batch.new 2100000) ((2100000, 500000000, quiet) ∷ []))
new_results-IsRunning_example = new_results-IsRunning 2100000 ((2100000, 500000000, quiet) ∷ [])
