-- ===== src/Sync/Starts.antt =====
-- The state of `SyncService` behind its mutex, with one function for each time that `start_sync`,
-- `stop_sync` and the guard of a blocking scan hold the lock. A wallet's `Uuid`, a task and an
-- `Instant` are numbers, and an estimate is of a type that nothing here looks into. The balances,
-- which these steps do not touch, are left out. A count of scans is a `usize`.
pub mod Guards
use zbag_app_tauri.Base.{
  ℕ, ◌+◌, ◌-◌, Bool, true, false, ◌||◌, [], Option, none, some, Text, ◌==◌, if◌then◌else◌,
}
use zbag_app_tauri.Base.Maps.{Map, lookup, insert, remove}
use zbag_app_tauri.Base.Results.{Result, ok, err, ErrorCode, sync_in_progress}

pub data SyncPhase : Type 0 where
  idle preparing downloading scanning enhancing catching_up offline error : SyncPhase

pub record SyncProgress : Type 0 where
  pub phase : SyncPhase
  pub scan_frontier_height : ℕ
  pub wallet_tip_height : ℕ
  pub progress_percent : ℕ
  pub eta_seconds : Option ℕ
  pub retry_in_seconds : Option ℕ
  pub error_message : Option Text

-- `default_progress`, with another phase in `start_sync`.
abbrev pub empty_progress : SyncPhase → SyncProgress
empty_progress phase = record {
  phase = phase;
  scan_frontier_height = 0;
  wallet_tip_height = 0;
  progress_percent = 0;
  eta_seconds = none;
  retry_in_seconds = none;
  error_message = none;
}

pub record State (E : Type 0) : Type 0 where
  pub jobs : Map ℕ
  pub blocking_scans : Map ℕ
  pub progress : Map SyncProgress
  pub started_at : Map ℕ
  pub progress_estimates : Map E

abbrev pub contains_key {ℓ} : {V : Type ℓ} → Option V → Bool
contains_key none = false
contains_key (some v) = true

module _ {E : Type 0} where
  unfoldable pub acquire : ℕ → State E → State E
  unfolding lookup insert
  acquire wallet_id s =
      let count : ℕ = elim (lookup wallet_id s.blocking_scans) [ none ↦ 0 | some n ↦ n ] in
      record s { blocking_scans = insert wallet_id (count + 1) s.blocking_scans }

  abbrev pub drop_count : ℕ → State E → Option ℕ → State E
  drop_count wallet_id s none = s
  drop_count wallet_id s (some count) =
      if (count - 1) == 0
      then record s { blocking_scans = remove wallet_id s.blocking_scans }
      else record s { blocking_scans = insert wallet_id (count - 1) s.blocking_scans }

  -- `drop` of the guard.
  unfoldable pub drop_guard : ℕ → State E → State E
  unfolding lookup insert remove
  drop_guard wallet_id s = drop_count wallet_id s (lookup wallet_id s.blocking_scans)

  -- The first time that `start_sync` holds the lock. The job is stored only later.
  unfoldable pub start_sync : ℕ → ℕ → State E → State E × Result (Unit {0})
  unfolding lookup insert
  start_sync wallet_id now s =
      if contains_key (lookup wallet_id s.jobs) || contains_key (lookup wallet_id s.blocking_scans)
      then (s, err sync_in_progress)
      else (
        record s {
          started_at = insert wallet_id now s.started_at;
          progress = insert wallet_id (empty_progress preparing) s.progress;
        },
        ok tt,
      )

  -- The second time, once the task is spawned.
  unfoldable pub store_job : ℕ → ℕ → State E → State E
  unfolding insert
  store_job wallet_id task s = record s { jobs = insert wallet_id task s.jobs }

  -- The third time, if the task had ended before it was stored.
  unfoldable pub remove_finished : ℕ → State E → State E
  unfolding remove
  remove_finished wallet_id s = record s { jobs = remove wallet_id s.jobs }

  -- The end of the task.
  unfoldable pub finish_task : ℕ → State E → State E
  unfolding remove
  finish_task wallet_id s = record s {
    jobs = remove wallet_id s.jobs;
    started_at = remove wallet_id s.started_at;
    progress_estimates = remove wallet_id s.progress_estimates;
  }

  abbrev pub stop_job : ℕ → State E → Option ℕ → State E
  stop_job wallet_id s none = s
  stop_job wallet_id s (some task) = record s {
    jobs = remove wallet_id s.jobs;
    progress = insert wallet_id (empty_progress idle) s.progress;
    started_at = remove wallet_id s.started_at;
    progress_estimates = remove wallet_id s.progress_estimates;
  }

  -- The task is signalled and aborted, where there is one; a blocking scan of it goes on.
  unfoldable pub stop_sync : ℕ → State E → State E
  unfolding lookup insert remove
  stop_sync wallet_id s = stop_job wallet_id s (lookup wallet_id s.jobs)
