-- ===== src/Sync/Throttle.antt =====
-- How often the task tells of balances: `BalanceEmitThrottle` of
-- crates/zbag-engine/src/sync_service.rs. An instant is a number of milliseconds.
use zbag_app_tauri.Base.{
  ℕ, ◌+◌, ◌-◌, min, Bool, true, false, not, ◌||◌, Option, none, some, leb, if◌then◌else◌,
}

pub data BalanceEmitTrigger : Type 0 where
  successful_scan_batch : ℕ → BalanceEmitTrigger
  forced_milestone : BalanceEmitTrigger

pub record BalanceEmitThrottle : Type 0 where
  pub last_emit_at : Option ℕ
  pub scanned_blocks_since_emit : ℕ
  pub saw_successful_scan_batch : Bool

abbrev u32_max : ℕ
u32_max = 4294967295

abbrev pub balance_emit_min_interval : ℕ
balance_emit_min_interval = 1500

abbrev pub balance_emit_block_threshold : ℕ
balance_emit_block_threshold = 250

abbrev pub time_gate : Option ℕ → ℕ → Bool
time_gate none now = true
time_gate (some last) now = leb balance_emit_min_interval (now - last)

unfoldable pub should_emit_after_successful_scan_batch :
    BalanceEmitThrottle → ℕ → ℕ → BalanceEmitThrottle × Bool
should_emit_after_successful_scan_batch throttle scanned_blocks now =
    let since = min (throttle.scanned_blocks_since_emit + scanned_blocks) u32_max in
    if not throttle.saw_successful_scan_batch
    then (
      record throttle { scanned_blocks_since_emit = since; saw_successful_scan_batch = true },
      true,
    )
    else (
      record throttle { scanned_blocks_since_emit = since },
      time_gate throttle.last_emit_at now || leb balance_emit_block_threshold since,
    )

unfoldable pub should_emit_and_update :
    BalanceEmitThrottle → BalanceEmitTrigger → ℕ → BalanceEmitThrottle × Bool
unfolding should_emit_after_successful_scan_batch
should_emit_and_update throttle forced_milestone now = (throttle, true)
should_emit_and_update throttle (successful_scan_batch scanned_blocks) now =
    should_emit_after_successful_scan_batch throttle scanned_blocks now

unfoldable pub record_emit : BalanceEmitThrottle → ℕ → BalanceEmitThrottle
record_emit throttle now = record throttle {
  last_emit_at = some now;
  scanned_blocks_since_emit = 0;
}

unfoldable pub start_new_auto_sync_iteration : BalanceEmitThrottle → BalanceEmitThrottle
start_new_auto_sync_iteration throttle = record throttle {
  scanned_blocks_since_emit = 0;
  saw_successful_scan_batch = false;
}
