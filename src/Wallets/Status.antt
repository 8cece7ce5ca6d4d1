-- ===== src/Wallets/Status.antt =====
-- The status of a wallet and its events (`compute_wallet_status`, the observers and
-- `maybe_emit_wallet_status` of crates/zbag-engine/src/wallet_manager.rs). `summary` is what
-- zcash_client_sqlite says of the transparent totals of the accounts of an open wallet: an error, no
-- summary yet, or the totals. An amount to shield is a number.
pub mod Observers
pub mod Totals
pub mod Emitted
pub mod Synced
use zbag_app_tauri.Base.{
  ℕ, ◌+◌, min, Bool, true, false, not, ◌&&◌, ◌||◌, List, [], ◌∷◌, ◌++◌, Option, none, some, Text,
  text, text_eq, leb, ltb, ◌==◌, if◌then◌else◌,
}
use zbag_app_tauri.Base.Maps.{Map, lookup, insert, remove}
use zbag_app_tauri.Base.Results.{Result, ok, err, wallet_not_found}
use zbag_app_tauri.Swap.Amounts.{u64_modulus, parse_unsigned}
use zbag_app_tauri.Swap.Refresh.{without}
use zbag_app_tauri.Sync.Starts.{
  SyncPhase, idle, preparing, downloading, scanning, enhancing, catching_up, offline, error,
  SyncProgress,
}
use zbag_app_tauri.Sync.Task.{poll_interval}
use zbag_app_tauri.Wallets.{
  WalletInfo, ActiveWallet, WalletLockStatus, locked, Manager, lock_eq, is_unlocked, is_some,
}

pub data SyncStatus : Type 0 where
  synced : SyncStatus
  syncing is_offline : ℕ → SyncStatus
  has_error : Text → SyncStatus

pub data BackupAction : Type 0 where
  required complete : BackupAction

pub data ShieldAction : Type 0 where
  nothing : ShieldAction
  available : ℕ → ShieldAction

pub data PrivacyPosture : Type 0 where
  optimal needs_action : PrivacyPosture

pub record WalletStatus : Type 0 where
  pub lock_status : WalletLockStatus
  pub backup_status : BackupAction
  pub sync_status : SyncStatus
  pub shield_status : ShieldAction
  pub privacy_posture : PrivacyPosture

-- The manager with what it has said: the last status of each wallet, and the events, in order, with the
-- wallet that each is about. `handled` says whether a handler was set.
pub record Speaker : Type 0 where
  pub manager : Manager SyncStatus
  pub last_emitted_status : Map WalletStatus
  pub handled : Bool
  pub events : List (ℕ × WalletStatus)

abbrev pub u64_max : ℕ
u64_max = 18446744073709551615

abbrev pub or_zero : Option ℕ → ℕ
or_zero none = 0
or_zero (some n) = n

-- `parse().unwrap_or(0)`.
unfoldable pub amount_of : Text → ℕ
unfolding parse_unsigned
amount_of total = or_zero (parse_unsigned u64_modulus total)

-- The loop over the map, with the total so far and whether an entry of the wallet was seen.
unfoldable pub sum_cached : ℕ → ℕ → Bool → List ((ℕ × ℕ) × Text) → Option ℕ
unfolding amount_of
sum_cached wallet_id total seen [] = if seen then some total else none
sum_cached wallet_id total seen (((owner, account), value) ∷ rest) =
    sum_cached wallet_id
      (if owner == wallet_id then min (total + amount_of value) u64_max else total)
      (owner == wallet_id || seen) rest

unfoldable pub cached_transparent_total_zat : Manager SyncStatus → ℕ → Option ℕ
unfolding sum_cached
cached_transparent_total_zat m wallet_id = sum_cached wallet_id 0 false m.cached_balances

unfoldable pub saturating_sum : ℕ → List ℕ → ℕ
saturating_sum total [] = total
saturating_sum total (n ∷ ns) = saturating_sum (min (total + n) u64_max) ns

abbrev pub Summary : Type 0
Summary = ActiveWallet → Option (Option (List ℕ))

abbrev pub sum_of : Option (Option (List ℕ)) → Option ℕ
sum_of none = none
sum_of (some none) = some 0
sum_of (some (some totals)) = some (saturating_sum 0 totals)

-- A wallet that is not open has 0; `none` is an error.
abbrev pub total_of_active : Summary → ℕ → Option ActiveWallet → Option ℕ
total_of_active summary wallet_id none = some 0
total_of_active summary wallet_id (some active) =
    if active.wallet.id == wallet_id && is_unlocked active && is_some active.wallet_db
    then sum_of (summary active)
    else some 0

unfoldable pub transparent_total_from_wallet_db : Summary → Manager SyncStatus → ℕ → Option ℕ
unfolding saturating_sum
transparent_total_from_wallet_db summary m wallet_id =
    total_of_active summary wallet_id m.active_wallet

abbrev pub total_or : Option ℕ → Option ℕ → ℕ
total_or (some total) from_db = total
total_or none from_db = or_zero from_db

unfoldable pub transparent_total : Summary → Manager SyncStatus → ℕ → ℕ
unfolding cached_transparent_total_zat transparent_total_from_wallet_db
transparent_total summary m wallet_id =
    total_or (cached_transparent_total_zat m wallet_id)
      (transparent_total_from_wallet_db summary m wallet_id)

abbrev pub lock_status_of : ℕ → Option ActiveWallet → WalletLockStatus
lock_status_of wallet_id none = locked
lock_status_of wallet_id (some active) =
    if active.wallet.id == wallet_id then active.lock_status else locked

abbrev pub or_required : Option Bool → Bool
or_required none = true
or_required (some b) = b

abbrev pub or_synced : Option SyncStatus → SyncStatus
or_synced none = synced
or_synced (some s) = s

abbrev pub status_with : WalletLockStatus → Bool → SyncStatus → ℕ → WalletStatus
status_with lock_status backup_required sync_status total = record {
  lock_status = lock_status;
  backup_status = if backup_required then required else complete;
  sync_status = sync_status;
  shield_status = if ltb 0 total then available total else nothing;
  privacy_posture = if backup_required || ltb 0 total then needs_action else optimal;
}

abbrev pub status_of_row :
    Summary → Manager SyncStatus → ℕ → Option (WalletInfo × Text) → Result WalletStatus
status_of_row summary m wallet_id none = err wallet_not_found
status_of_row summary m wallet_id (some row) = ok (
    status_with (lock_status_of wallet_id m.active_wallet)
      (or_required (lookup row.0.id m.backup_required))
      (or_synced (lookup wallet_id m.cached_sync_status)) (transparent_total summary m wallet_id))

unfoldable pub compute_wallet_status : Summary → Manager SyncStatus → ℕ → Result WalletStatus
unfolding lookup transparent_total
compute_wallet_status summary m wallet_id =
    status_of_row summary m wallet_id (lookup wallet_id m.wallets)
