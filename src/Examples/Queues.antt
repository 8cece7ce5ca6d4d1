-- ===== src/Examples/Queues.antt =====
-- The scan of the retry queue, the guards of blocking scans, and the checks before a send.
use zbag_app_tauri.Base.{
  ◌↔◌, ℕ, ◌/◌, ◌≡◌, refl, true, false, List, [], ◌∷◌, none, some, ascii_lowercase,
}
use zbag_app_tauri.Base.Int.{ℤ, pos}
use zbag_app_tauri.Base.Maps.{Map, lookup, has}
use zbag_app_tauri.Base.Results.{ok}
use zbag_app_tauri.Broadcast.{transient_transport}
use zbag_app_tauri.RetryQueue.{
  QueuedBroadcastMeta, normalize_queued_broadcast_meta, apply_retry_policy,
}
use zbag_app_tauri.RetryQueue.Scan.{
  QueueFile, unparseable, parsed, due_retries, list_due_retry_txids,
}
use zbag_app_tauri.RetryQueue.Scan.Due.{IsDue, scanned, has-list_due_retry_txids}
use zbag_app_tauri.Sync.Starts.{State, acquire, start_sync}
use zbag_app_tauri.Sync.Starts.Guards.{
  Reach, begins, acquires, held, count_entry, blocking_scans-held, start_sync_twice,
}

abbrev waiting : ℤ → QueuedBroadcastMeta
waiting next_at = record {
  created_at_ms = pos 1000;
  attempt_count = 1;
  next_attempt_at_ms = some next_at;
  last_attempt_at_ms = some (pos 1000);
  transport_failure_streak = 1;
  retryable = true;
  last_error_class = some transient_transport;
  terminal_reason = none;
  last_error = none;
}

-- Two are due, one waits, one lost its bytes, one cannot be parsed.
abbrev files : List QueueFile
files =
    record { txid = 1; meta = parsed (waiting (pos 9000)); has_bin = true }
    ∷ record { txid = 2; meta = parsed (waiting (pos 5000)); has_bin = true }
    ∷ record { txid = 3; meta = parsed (waiting (pos 60000)); has_bin = true }
    ∷ record { txid = 4; meta = parsed (waiting (pos 5000)); has_bin = false }
    ∷ record { txid = 5; meta = unparseable; has_bin = true }
    ∷ []

-- Ten seconds after the epoch.
abbrev clock : ℕ
clock = 10000000000

abbrev entries : Map QueuedBroadcastMeta
entries = (1, waiting (pos 9000)) ∷ (2, waiting (pos 5000)) ∷ []

due_retries_run : due_retries (pos 10000) entries ≡ (pos 5000, 2) ∷ (pos 9000, 1) ∷ []
unfolding due_retries
due_retries_run = refl

listed : list_due_retry_txids ascii_lowercase clock clock (some files) ≡ ok (2 ∷ 1 ∷ [])
unfolding list_due_retry_txids normalize_queued_broadcast_meta apply_retry_policy
listed = refl

has-list_due_retry_txids_example : (has 2 (2 ∷ 1 ∷ []) ≡ true) ↔ (
    (meta : QueuedBroadcastMeta) × (lookup 2 (scanned ascii_lowercase clock clock files)
      ≡ some meta)
    × IsDue (pos (clock / 1000000)) meta)
has-list_due_retry_txids_example =
    has-list_due_retry_txids ascii_lowercase clock clock files (2 ∷ 1 ∷ []) 2 listed

-- The sync of wallet 8 runs, and its scan holds a guard.
abbrev running : State ℕ
running = record {
  jobs = (8, 1) ∷ [];
  blocking_scans = [];
  progress = [];
  started_at = (8, 100) ∷ [];
  progress_estimates = [];
}

scanning : Reach (acquire 8 running) (8 ∷ [])
scanning = acquires 8 running [] (begins running refl)

blocking_scans-held_example :
    lookup 8 (acquire 8 running).blocking_scans ≡ count_entry (held 8 (8 ∷ []))
blocking_scans-held_example = blocking_scans-held (acquire 8 running) (8 ∷ []) 8 scanning

starts_9 : (start_sync 9 100 running).1 ≡ ok tt
unfolding start_sync
starts_9 = refl

start_sync_twice_example : (start_sync 9 101 (start_sync 9 100 running).0).1 ≡ ok tt
start_sync_twice_example = start_sync_twice running 9 100 101 starts_9
