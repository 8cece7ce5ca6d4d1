-- ===== src/Examples/Syncs.antt =====
-- A sync that is offline and then scans, its channel, its percentages, and what the manager says.
use mathlib.Core.List.Permᴰ.{swap}
use zbag_app_tauri.Base.{
  ℕ, ◌≡◌, ◌≢◌, refl, true, false, List, [], ◌∷◌, Option, none, some, arith, text, Text,
}
use zbag_app_tauri.Examples.Wallets.{wallet, directory}
use zbag_app_tauri.Sync.Pipeline.{
  Pipe, start_pipe, Reach, here, next, loads, sends, receives, batch, ended, left, receiving,
  loading, dropped,
}
use zbag_app_tauri.Sync.Pipeline.Joined.{scan_left-never_ended}
use zbag_app_tauri.Sync.Pipeline.Order.{Chain, run-Chain}
use zbag_app_tauri.Sync.Progress.{Estimate}
use zbag_app_tauri.Sync.Progress.Percent.{IsRising, percents, percents-IsRising}
use zbag_app_tauri.Sync.Starts.{SyncProgress, scanning, offline}
use zbag_app_tauri.Sync.Task.{
  Task, TopAnswer, RangesAnswer, progress_at, step_top, step_ranges, complete_pass,
}
use zbag_app_tauri.Sync.Task.Caught.{caught_ups}
use zbag_app_tauri.Sync.Task.Machine as Machine
use zbag_app_tauri.Sync.Task.Machine.{Run, prepare, prepared, no_wallet_db, step}
use zbag_app_tauri.Wallets.{Manager}
use zbag_app_tauri.Wallets.Status.{
  SyncStatus, synced, Speaker, Summary, cached_transparent_total_zat,
}
use zbag_app_tauri.Wallets.Status.Emitted.{Call, tells, logs_out}
use zbag_app_tauri.Wallets.Status.Observers.{sync_status_of}
use zbag_app_tauri.Wallets.Status.Synced.{last_shown, prepare_synced}
use zbag_app_tauri.Wallets.Status.Totals.{Perm-cached_transparent_total}

-- The server cannot be reached; the wallet has scanned 400 of 900 blocks.
abbrev unreached : TopAnswer
unreached = record {
  cancelled = false;
  latest = none;
  updated = none;
  totals = some (record { progress_percent = 44; fully_scanned = 400; chain_height = some 900 });
}

abbrev offline_progress : SyncProgress
offline_progress = record (progress_at offline 400 900 44) { retry_in_seconds = some 20 }

-- The task after the first round.
offline_task : Task
unfolding prepare step
offline_task = step (prepare prepared) unreached

one_round : Run (prepare prepared) offline_task
unfolding prepare step offline_task
one_round = Machine.next {u = prepare prepared} Machine.here unreached

-- The server answers that the tip is at 900.
abbrev reached : TopAnswer
reached = record { cancelled = false; latest = some 900; updated = some true; totals = none }

-- The database has no range left to scan.
abbrev scanned_all : RangesAnswer
scanned_all = record {
  cancelled = false;
  suggested = some (some []);
  totals = none;
  enhancement = record { total = 0; counts = [] };
}

-- The task after a second round, in which it is caught up.
updated_task : Task
unfolding prepare step offline_task
updated_task = step offline_task reached

caught_up_task : Task
unfolding prepare step offline_task updated_task
caught_up_task = step updated_task scanned_all

caught_up_once : caught_ups caught_up_task.effects ≡ 1
unfolding prepare step offline_task updated_task caught_up_task step_top step_ranges complete_pass
caught_up_once = refl

prepare_synced_example :
    (p : SyncProgress) × (last_shown (prepare no_wallet_db).effects ≡ some p)
    × (sync_status_of p ≡ synced)
prepare_synced_example = prepare_synced no_wallet_db tt

scan_left-never_ended_example :
    (p : Pipe) × Reach (start_pipe 1000 9000) p
    × (p.receiver ≡ left)
    × (p.delivered ≡ batch 1000 1100 ∷ [])
    × ((q : Pipe) → Reach p q → q.receiver ≢ dropped → q.sender ≢ ended)
scan_left-never_ended_example = scan_left-never_ended 1000 9000 100 (omega arith) (omega arith)

abbrev one_batch : Pipe
one_batch = record {
  range_end = 1150;
  current = 1100;
  sender = loading;
  receiver = receiving;
  queue = [];
  delivered = batch 1000 1100 ∷ [];
}

not_dropped : receiving ≢ dropped
not_dropped e = cc

first_batch : Reach (start_pipe 1000 1150) one_batch
first_batch =
    next
      (next (next here (loads 100 (omega arith) refl (omega arith)))
        (sends (batch 1000 1100) refl (omega arith) not_dropped))
      (receives (batch 1000 1100) [] refl refl)

run-Chain_example : Chain 1150 1000 (batch 1000 1100 ∷ [])
run-Chain_example = run-Chain 1000 1150 one_batch (omega arith) first_batch

abbrev estimate : Estimate
estimate = record {
  start_height = some 100;
  target_height = some 1100;
  last_frontier_height = some 100;
  last_percent = none;
  last_eta_seconds = none;
}

abbrev heights : List (SyncProgress × Option ℕ)
heights =
    (progress_at scanning 600 1100 0, none)
    ∷ (progress_at scanning 350 1100 0, none)
    ∷ (progress_at scanning 1099 1100 0, some 3)
    ∷ []

percents-IsRising_example : IsRising 0 (percents (some estimate) heights)
percents-IsRising_example = percents-IsRising estimate heights (omega arith) (
  tt,
  (omega arith, omega arith),
  (tt, (omega arith, omega arith), (tt, (omega arith, omega arith), tt)),
)

abbrev watched : List ((ℕ × ℕ) × Text) → Manager SyncStatus
watched balances = record {
  wallets = (8, (wallet, directory)) ∷ [];
  encryption = [];
  backup_required = (8, false) ∷ [];
  mnemonics = [];
  active_wallet = none;
  reauth = [];
  job_service = record { jobs = []; progress = [] };
  backup_challenges = [];
  cached_balances = balances;
  cached_sync_status = [];
  sync_stop_requested = [];
}

abbrev closed_book : Summary
closed_book active = none

abbrev silent : Speaker
silent = record { manager = watched []; last_emitted_status = []; handled = true; events = [] }

abbrev calls : List Call
calls =
    tells 8 (watched [])
    ∷ tells 8 (watched [])
    ∷ logs_out 8 (watched [])
    ∷ tells 9 (watched [])
    ∷ tells 8 (watched (((8, 0), text "70") ∷ []))
    ∷ []

abbrev balances : List ((ℕ × ℕ) × Text)
balances = ((8, 1), text "30") ∷ ((8, 0), text "70") ∷ []

Perm-cached_transparent_total_example :
    cached_transparent_total_zat (watched (((8, 0), text "70") ∷ ((8, 1), text "30") ∷ [])) 8
    ≡ cached_transparent_total_zat (watched balances) 8
Perm-cached_transparent_total_example =
    Perm-cached_transparent_total 8 (watched (((8, 0), text "70") ∷ ((8, 1), text "30") ∷ []))
      balances (swap refl refl)
