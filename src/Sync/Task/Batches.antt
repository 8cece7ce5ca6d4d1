-- ===== src/Sync/Task/Batches.antt =====
-- What the task does with the batches of a range: the inner loop of the task in
-- crates/zbag-engine/src/sync_service.rs.
use zbag_app_tauri.Base.{
  ℕ, Bool, false, not, ◌||◌, List, ◌++◌, Option, none, some, Text, text, if◌then◌else◌,
}
use zbag_app_tauri.Sync.Starts.{scanning}
use zbag_app_tauri.Sync.Throttle.{successful_scan_batch}
use zbag_app_tauri.Sync.Task.{
  ScanRange, Totals, Task, at, does, progress_at, worker_failed, stopped, error_pass, go_on, shows,
  balances, of_all, joining, at_batches,
}

pub data Download : Type 0 where
  batch range_complete download_error download_cancelled : Download

pub data ScanOutcome : Type 0 where
  success : ScanOutcome
  reorg_detected : ℕ → ScanOutcome
  scan_error : Text → ScanOutcome

pub record ScanBatchResult : Type 0 where
  pub scan_outcome : ScanOutcome
  pub scanned_blocks : ℕ
  pub progress_percent : ℕ
  pub fully_scanned : ℕ

-- What the channel holds, and what comes of it; `joined` says whether the download task ends.
pub record BatchAnswer : Type 0 where
  pub received : Option Download
  pub cancelled : Bool
  pub cached : Bool
  pub chain_state : Bool
  pub scanned : Option ScanBatchResult
  pub joined : Bool
  pub totals : Option Totals

abbrev pub after_join : Task → BatchAnswer → Task → Task
after_join t answer next = if answer.joined then next else at joining t

-- The loop over the batches is left without an error.
abbrev pub range_over : ℕ → ℕ → List ScanRange → Task → Option Totals → Task
range_over tip wallet_tip rest t none = worker_failed tip t
range_over tip wallet_tip rest t (some totals) =
    go_on tip rest (
      does (shows (progress_at scanning totals.fully_scanned wallet_tip totals.progress_percent)) t)

abbrev pub range_failed : ℕ → Text → Task → BatchAnswer → Task
range_failed tip message t answer = after_join t answer (error_pass tip message t answer.totals)

abbrev pub with_outcome :
    ℕ → ℕ → List ScanRange → Task → BatchAnswer → ScanBatchResult → ScanOutcome → Task
with_outcome tip wallet_tip rest t answer scan success = at (at_batches tip wallet_tip false rest) (
    does (balances (successful_scan_batch scan.scanned_blocks))
      (does (shows (progress_at scanning scan.fully_scanned wallet_tip scan.progress_percent)) t))
with_outcome tip wallet_tip rest t answer scan (reorg_detected height) =
    after_join t answer (range_over tip wallet_tip rest t answer.totals)
with_outcome tip wallet_tip rest t answer scan (scan_error message) =
    range_failed tip (text "Failed to scan blocks: " ++ message) t answer

abbrev pub with_scan : ℕ → ℕ → List ScanRange → Task → BatchAnswer → Option ScanBatchResult → Task
with_scan tip wallet_tip rest t answer none = worker_failed tip t
with_scan tip wallet_tip rest t answer (some scan) =
    with_outcome tip wallet_tip rest t answer scan scan.scan_outcome

-- The chain state of the first batch is known from the start of the range.
abbrev pub with_batch : ℕ → ℕ → Bool → List ScanRange → Task → BatchAnswer → Task
with_batch tip wallet_tip first rest t answer =
    if not answer.cached
    then worker_failed tip t
    else (if first || answer.chain_state
        then with_scan tip wallet_tip rest t answer answer.scanned
        else range_failed tip (text "Failed to fetch chain state") t answer)

abbrev pub received : ℕ → ℕ → Bool → List ScanRange → Task → BatchAnswer → Option Download → Task
received tip wallet_tip first rest t answer none =
    after_join t answer (range_over tip wallet_tip rest t answer.totals)
received tip wallet_tip first rest t answer (some batch) =
    if answer.cancelled
    then after_join t answer (stopped of_all t)
    else with_batch tip wallet_tip first rest t answer
received tip wallet_tip first rest t answer (some range_complete) =
    after_join t answer (range_over tip wallet_tip rest t answer.totals)
received tip wallet_tip first rest t answer (some download_error) =
    range_failed tip (text "Failed to download blocks") t answer
received tip wallet_tip first rest t answer (some download_cancelled) =
    after_join t answer (stopped of_all t)

unfoldable pub step_batches : ℕ → ℕ → Bool → List ScanRange → Task → BatchAnswer → Task
step_batches tip wallet_tip first rest t answer =
    received tip wallet_tip first rest t answer answer.received
