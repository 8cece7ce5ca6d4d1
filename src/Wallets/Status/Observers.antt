-- ===== src/Wallets/Status/Observers.antt =====
-- What changes the status of a wallet, and when it is told: the observers and
-- `maybe_emit_wallet_status`, with the logout, of crates/zbag-engine/src/wallet_manager.rs.
use zbag_app_tauri.Base.{
  ℕ, Bool, true, false, not, ◌&&◌, List, [], ◌∷◌, ◌++◌, Option, none, some, Text, text, text_eq,
  leb, ltb, ◌==◌, if◌then◌else◌,
}
use zbag_app_tauri.Base.Maps.{lookup, insert, remove}
use zbag_app_tauri.Proposals.{ProposalRecord}
use zbag_app_tauri.Wallets.Session.{logout_wallet}
use zbag_app_tauri.Base.Results.{Result, ok, err}
use zbag_app_tauri.Swap.Refresh.{without}
use zbag_app_tauri.Sync.Starts.{SyncPhase, idle, catching_up, offline, error, SyncProgress}
use zbag_app_tauri.Sync.Task.{poll_interval}
use zbag_app_tauri.Wallets.{lock_eq, Manager}
use zbag_app_tauri.Wallets.Status.{
  SyncStatus, BackupAction, ShieldAction, PrivacyPosture, WalletStatus, Speaker, Summary,
  compute_wallet_status, synced, syncing, is_offline, has_error, required, complete, nothing,
  available, optimal, needs_action,
}

abbrev pub sync_eq : SyncStatus → SyncStatus → Bool
sync_eq synced synced = true
sync_eq (syncing a) (syncing b) = a == b
sync_eq (is_offline a) (is_offline b) = a == b
sync_eq (has_error a) (has_error b) = text_eq a b
sync_eq a b = false

abbrev pub backup_eq : BackupAction → BackupAction → Bool
backup_eq required required = true
backup_eq complete complete = true
backup_eq a b = false

abbrev pub shield_eq : ShieldAction → ShieldAction → Bool
shield_eq nothing nothing = true
shield_eq (available a) (available b) = a == b
shield_eq a b = false

abbrev pub posture_eq : PrivacyPosture → PrivacyPosture → Bool
posture_eq optimal optimal = true
posture_eq needs_action needs_action = true
posture_eq a b = false

-- `==` of statuses.
unfoldable pub status_eq : WalletStatus → WalletStatus → Bool
unfolding text_eq
status_eq a b =
    lock_eq a.lock_status b.lock_status
    && backup_eq a.backup_status b.backup_status
    && sync_eq a.sync_status b.sync_status
    && shield_eq a.shield_status b.shield_status
    && posture_eq a.privacy_posture b.privacy_posture

abbrev pub changed_from : Option WalletStatus → WalletStatus → Bool
changed_from none status = true
changed_from (some previous) status = not (status_eq previous status)

abbrev pub emit_status : Speaker → ℕ → WalletStatus → Speaker
emit_status s wallet_id status = record s {
  last_emitted_status = insert wallet_id status s.last_emitted_status;
  events = if s.handled then s.events ++ ((wallet_id, status) ∷ []) else s.events;
}

abbrev pub emit_result : Speaker → ℕ → Result WalletStatus → Speaker
emit_result s wallet_id (err e) = s
emit_result s wallet_id (ok status) =
    if changed_from (lookup wallet_id s.last_emitted_status) status
    then emit_status s wallet_id status
    else s

unfoldable pub maybe_emit_wallet_status : Summary → Speaker → ℕ → Speaker
unfolding compute_wallet_status lookup insert status_eq
maybe_emit_wallet_status summary s wallet_id =
    emit_result s wallet_id (compute_wallet_status summary s.manager wallet_id)

abbrev pub or_poll_interval : Option ℕ → ℕ
or_poll_interval none = poll_interval
or_poll_interval (some s) = s

abbrev pub or_local_error : Option Text → Text
or_local_error none = text "Sync failed due to local error"
or_local_error (some message) = message

abbrev pub at_tip : SyncProgress → Bool
at_tip progress =
    ltb 0 progress.wallet_tip_height && leb progress.wallet_tip_height progress.scan_frontier_height

abbrev pub status_in : SyncPhase → SyncProgress → SyncStatus
status_in idle progress = synced
status_in offline progress = is_offline (or_poll_interval progress.retry_in_seconds)
status_in catching_up progress =
    if at_tip progress then synced else syncing progress.progress_percent
status_in error progress = has_error (or_local_error progress.error_message)
status_in phase progress = syncing progress.progress_percent

-- The status that a progress means.
abbrev pub sync_status_of : SyncProgress → SyncStatus
sync_status_of progress = status_in progress.phase progress

-- Whether a request to stop is settled by it.
abbrev pub settles : SyncPhase → SyncProgress → Bool
settles idle progress = true
settles catching_up progress = at_tip progress
settles phase progress = false

unfoldable pub observe_sync_progress : Summary → Speaker → ℕ → SyncProgress → Speaker
unfolding maybe_emit_wallet_status insert without
observe_sync_progress summary s wallet_id progress =
    let requests = s.manager.sync_stop_requested in
    let m = record s.manager {
      cached_sync_status = insert wallet_id (sync_status_of progress) s.manager.cached_sync_status;
      sync_stop_requested =
          if settles progress.phase progress then without wallet_id requests else requests;
    } in
    maybe_emit_wallet_status summary (record s { manager = m }) wallet_id

unfoldable pub observe_sync_stop_requested : Speaker → ℕ → Speaker
unfolding without
observe_sync_stop_requested s wallet_id = record s {
  manager = record s.manager {
    sync_stop_requested = wallet_id ∷ without wallet_id s.manager.sync_stop_requested;
  };
}

-- `insert` under the wallet and the account.
unfoldable pub insert_balance : ℕ → ℕ → Text → List ((ℕ × ℕ) × Text) → List ((ℕ × ℕ) × Text)
insert_balance wallet_id account total [] = ((wallet_id, account), total) ∷ []
insert_balance wallet_id account total (((owner, other), old) ∷ rest) =
    let later = insert_balance wallet_id account total rest in
    if owner == wallet_id && other == account
    then ((wallet_id, account), total) ∷ rest
    else ((owner, other), old) ∷ later

unfoldable pub observe_balance_changed : Summary → Speaker → ℕ → ℕ → Text → Speaker
unfolding maybe_emit_wallet_status insert_balance
observe_balance_changed summary s wallet_id account total =
    maybe_emit_wallet_status summary
      (record s {
        manager = record s.manager {
          cached_balances = insert_balance wallet_id account total s.manager.cached_balances;
        };
      })
      wallet_id

-- A logout forgets what was told of the wallet.
abbrev pub after_logout :
    Speaker
    → ℕ
    → (Manager SyncStatus × List (ℕ × ProposalRecord (Unit {0}))) × Result (Unit {0})
    → Speaker
after_logout s wallet_id ((m, proposals), err e) = record s { manager = m }
after_logout s wallet_id ((m, proposals), ok u) = record s {
  manager = m;
  last_emitted_status = remove wallet_id s.last_emitted_status;
}

-- `logout_wallet`, as far as the statuses go.
unfoldable pub logout_status : Speaker → ℕ → Speaker
unfolding logout_wallet remove
logout_status s wallet_id = after_logout s wallet_id (logout_wallet s.manager [] wallet_id)
