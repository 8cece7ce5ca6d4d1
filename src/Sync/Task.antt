-- ===== src/Sync/Task.antt =====
-- The task that `start_sync` of crates/zbag-engine/src/sync_service.rs spawns. It stands at one of
-- the places where it looks around, and goes on by what it finds there: whether it is cancelled, and
-- the answers of the server, of the wallet's database and of the workers on blocking threads, where
-- `none` is a worker that failed. A time to sleep is in seconds.
pub mod Batches
pub mod Machine
pub mod Paced
pub mod Caught
pub mod Steady
use zbag_app_tauri.Base.{
  ℕ, ◌+◌, ◌-◌, ◌*◌, min, max, Bool, true, false, not, ◌||◌, List, [], ◌∷◌, ◌++◌, Option, none, some,
  Text, text, leb, ◌==◌, if◌then◌else◌,
}
use zbag_app_tauri.Sync.Starts.{
  SyncPhase, idle, preparing, downloading, scanning, enhancing, catching_up, offline, error,
  SyncProgress, empty_progress,
}
use zbag_app_tauri.Sync.Throttle.{BalanceEmitTrigger, successful_scan_batch, forced_milestone}

pub record ScanRange : Type 0 where
  pub start : ℕ
  pub end : ℕ
  pub ignored : Bool

-- What `get_progress_blocking` finds.
pub record Totals : Type 0 where
  pub progress_percent : ℕ
  pub fully_scanned : ℕ
  pub chain_height : Option ℕ

-- What the task does: it passes a progress to `update`, may tell of balances, begins a round of
-- `'auto_sync`, or sleeps.
pub data Effect : Type 0 where
  shows : SyncProgress → Effect
  balances : BalanceEmitTrigger → Effect
  new_iteration : Effect
  sleeps : ℕ → Effect

-- What a task that ends removes from the state: only its job; the job and the instant of its start; the
-- estimate too, and the directory of cached blocks.
pub data Cleanup : Type 0 where
  of_job of_start of_all : Cleanup

-- `joining` waits for the download task. `at_batches` has the tip of the chain, the tip of the wallet,
-- the first block of the range, whether the next batch is the first, and the ranges to come.
pub data Place : Type 0 where
  at_top joining : Place
  at_ranges : ℕ → Place
  at_range : ℕ → ScanRange → List ScanRange → Place
  at_batches : ℕ → ℕ → Bool → List ScanRange → Place
  finished : Cleanup → Place

-- The effects, the latest first.
pub record Task : Type 0 where
  pub place : Place
  pub poll_backoff : ℕ
  pub effects : List Effect

abbrev pub poll_interval : ℕ
poll_interval = 20

abbrev pub max_poll_backoff : ℕ
max_poll_backoff = 300

abbrev pub at : Place → Task → Task
at place t = record t { place = place }

abbrev pub does : Effect → Task → Task
does e t = record t { effects = e ∷ t.effects }

abbrev pub error_progress : ℕ → ℕ → ℕ → Option ℕ → Text → SyncProgress
error_progress frontier tip percent retry message = record {
  phase = error;
  scan_frontier_height = frontier;
  wallet_tip_height = tip;
  progress_percent = percent;
  eta_seconds = none;
  retry_in_seconds = retry;
  error_message = some message;
}

abbrev pub progress_at : SyncPhase → ℕ → ℕ → ℕ → SyncProgress
progress_at phase frontier tip percent = record {
  phase = phase;
  scan_frontier_height = frontier;
  wallet_tip_height = tip;
  progress_percent = percent;
  eta_seconds = none;
  retry_in_seconds = none;
  error_message = none;
}

-- A worker failed: the error has no time of a retry, and the task ends.
abbrev pub worker_failed : ℕ → Task → Task
worker_failed tip t =
    at (finished of_all) (does (shows (error_progress 0 tip 0 none (text "Sync worker failed"))) t)

abbrev pub stopped : Cleanup → Task → Task
stopped c t =
    at (finished c) (does (shows (empty_progress idle)) (does (balances forced_milestone) t))

-- `sleep(poll_backoff)`, and the next time is twice as long, up to five minutes.
abbrev pub backed_off : Task → Task
backed_off t = record t {
  place = at_top;
  poll_backoff = min (t.poll_backoff * 2) max_poll_backoff;
  effects = sleeps t.poll_backoff ∷ t.effects;
}

-- At the top of `'auto_sync`: the server's latest block, whether the wallet took it as its tip, and
-- the totals for a progress, if one of the two failed.
pub record TopAnswer : Type 0 where
  pub cancelled : Bool
  pub latest : Option ℕ
  pub updated : Option Bool
  pub totals : Option Totals

abbrev pub unreachable : Task → Option Totals → Task
unreachable t none = worker_failed 0 t
unreachable t (some totals) =
    let tip : ℕ = elim totals.chain_height [ none ↦ 0 | some h ↦ h ] in
    let p = record (progress_at offline totals.fully_scanned tip totals.progress_percent) {
      retry_in_seconds = some t.poll_backoff;
    } in
    backed_off (does (shows p) t)

abbrev pub retried : ℕ → Text → Task → Totals → Task
retried tip message t totals =
    does
      (shows (
        error_progress totals.fully_scanned tip totals.progress_percent (some t.poll_backoff)
          message))
      t

abbrev pub not_updated : ℕ → Task → Option Totals → Task
not_updated tip t none = worker_failed tip t
not_updated tip t (some totals) =
    backed_off (retried tip (text "Failed to update wallet chain tip") t totals)

abbrev pub with_update : ℕ → Task → Option Totals → Option Bool → Task
with_update tip t totals none = worker_failed tip t
with_update tip t totals (some true) = at (at_ranges tip) t
with_update tip t totals (some false) = not_updated tip t totals

abbrev pub with_latest : Task → TopAnswer → Option ℕ → Task
with_latest t answer none = unreachable t answer.totals
with_latest t answer (some tip) =
    with_update tip (record t { poll_backoff = poll_interval }) answer.totals answer.updated

unfoldable pub step_top : Task → TopAnswer → Task
step_top t answer =
    if answer.cancelled
    then stopped of_all (does new_iteration t)
    else with_latest (does new_iteration t) answer answer.latest

-- The scan failed: the whole pass is tried again.
abbrev pub error_pass : ℕ → Text → Task → Option Totals → Task
error_pass tip message t none = worker_failed tip t
error_pass tip message t (some totals) =
    backed_off (does (balances forced_milestone) (retried tip message t totals))

-- `99.0 + enhanced / total`, cut down to a `u8`.
abbrev pub enhancement_progress : ℕ → ℕ → ℕ
enhancement_progress enhanced total =
    if total == 0 then 100 else (if leb total enhanced then 100 else 99)

abbrev pub enhances : ℕ → ℕ → ℕ → Effect
enhances tip total enhanced =
    shows (progress_at enhancing tip tip (enhancement_progress enhanced total))

-- What has been enhanced at the start of each batch of transactions.
unfoldable pub enhance_batches : ℕ → ℕ → List ℕ → List Effect → List Effect
enhance_batches tip total [] effects = effects
enhance_batches tip total (enhanced ∷ counts) effects =
    enhance_batches tip total counts (enhances tip total enhanced ∷ effects)

-- How many transactions lack their memos, 0 if that is not known, and the batches of the phase, which
-- a cancellation or an error cuts short.
pub record Enhancement : Type 0 where
  pub total : ℕ
  pub counts : List ℕ

abbrev pub enhance : ℕ → Enhancement → List Effect → List Effect
enhance tip e effects =
    if e.total == 0 then effects else enhance_batches tip e.total e.counts effects

unfoldable pub complete_pass : ℕ → Enhancement → Task → Task
unfolding enhance_batches
complete_pass tip e t = record t {
  place = at_top;
  effects =
      sleeps poll_interval
      ∷ balances forced_milestone
      ∷ shows (progress_at catching_up tip tip 100)
      ∷ enhance tip e (enhances tip e.total 0 ∷ balances forced_milestone ∷ t.effects);
}

-- At the top of `'sync_loop`.
pub record RangesAnswer : Type 0 where
  pub cancelled : Bool
  pub suggested : Option (Option (List ScanRange))
  pub totals : Option Totals
  pub enhancement : Enhancement

abbrev pub with_ranges : ℕ → Task → RangesAnswer → Option (Option (List ScanRange)) → Task
with_ranges tip t answer none = worker_failed tip t
with_ranges tip t answer (some none) =
    error_pass tip (text "Failed to determine scan ranges") t answer.totals
with_ranges tip t answer (some (some [])) = complete_pass tip answer.enhancement t
with_ranges tip t answer (some (some (range ∷ rest))) = at (at_range tip range rest) t

unfoldable pub step_ranges : ℕ → Task → RangesAnswer → Task
unfolding complete_pass
step_ranges tip t answer =
    if answer.cancelled then stopped of_all t else with_ranges tip t answer answer.suggested

-- Before a range.
pub record RangeAnswer : Type 0 where
  pub cancelled : Bool
  pub before : Option Totals
  pub after : Option Totals
  pub chain_state : Bool
  pub totals : Option Totals

-- The next range, or the ranges anew.
abbrev pub go_on : ℕ → List ScanRange → Task → Task
go_on tip [] t = at (at_ranges tip) t
go_on tip (range ∷ rest) t = at (at_range tip range rest) t

abbrev pub wallet_tip_of : ScanRange → Totals → ℕ
wallet_tip_of range totals = elim totals.chain_height [ none ↦ range.start | some h ↦ h ]

-- The download has begun.
abbrev pub with_download :
    ℕ → ℕ → ScanRange → List ScanRange → Task → RangeAnswer → Option Totals → Task
with_download tip wallet_tip range rest t answer none = worker_failed tip t
with_download tip wallet_tip range rest t answer (some totals) =
    let frontier = max totals.fully_scanned (range.start - 1) in
    let u = does (shows (progress_at downloading frontier wallet_tip totals.progress_percent)) t in
    if answer.chain_state
    then at (at_batches tip wallet_tip true rest) u
    else error_pass tip (text "Failed to fetch chain state") u answer.totals

abbrev pub with_range : ℕ → ScanRange → List ScanRange → Task → RangeAnswer → Option Totals → Task
with_range tip range rest t answer none = worker_failed tip t
with_range tip range rest t answer (some totals) =
    with_download tip (wallet_tip_of range totals) range rest t answer answer.after

unfoldable pub step_range : ℕ → ScanRange → List ScanRange → Task → RangeAnswer → Task
step_range tip range rest t answer =
    if answer.cancelled
    then stopped of_all t
    else (if range.ignored
        then go_on tip rest t
        else with_range tip range rest t answer answer.before)
