-- ===== src/Wallets/Session.antt =====
-- Opening, unlocking, locking and leaving a wallet (`load_wallet`, `unlock_wallet`, `lock_wallet` and
-- `logout_wallet`). `scanned` says whether `scan_queued_broadcasts` succeeds, which comes after the
-- change of the state.
pub mod Sealed
pub mod Created
pub mod Machine
pub mod Runs
use zbag_app_tauri.Base.{
  ℕ, Bool, true, false, not, ◌&&◌, List, [], ◌∷◌, Option, none, some, Text, ◌==◌, if◌then◌else◌,
}
use zbag_app_tauri.Base.Int.{ℤ}
use zbag_app_tauri.Base.Maps.{Map, lookup, insert, remove}
use zbag_app_tauri.Base.Results.{Result, ok, err, wallet_not_found, io_error}
use zbag_app_tauri.Jobs.Service.{clear_finished_jobs}
use zbag_app_tauri.Proposals.{ProposalRecord, clear_proposals_for_wallet}
use zbag_app_tauri.Swap.Refresh.{without}
use zbag_app_tauri.Wallets.{
  WalletInfo, ActiveWallet, WalletLockStatus, locked, unlocked, Manager, World, is_unlocked,
  is_some, find_wallet, key_of_password,
}

abbrev pub locked_wallet : WalletInfo → Text → ActiveWallet
locked_wallet wallet directory = record {
  wallet = wallet;
  wallet_dir = directory;
  lock_status = locked;
  dek = none;
  wallet_db = none;
}

abbrev pub unlocked_wallet : WalletInfo → Text → List ℕ → ActiveWallet
unlocked_wallet wallet directory dek = record {
  wallet = wallet;
  wallet_dir = directory;
  lock_status = unlocked;
  dek = some dek;
  wallet_db = some directory;
}

abbrev pub after_scan {ℓ} : {A : Type ℓ} → Bool → A → Result A
after_scan scanned a = if scanned then ok a else err io_error

abbrev pub stays_open : ℕ → ActiveWallet → Bool
stays_open wallet_id active =
    active.wallet.id == wallet_id
    && is_unlocked active
    && is_some active.dek
    && is_some active.wallet_db

unfoldable pub without_balances : ℕ → List ((ℕ × ℕ) × Text) → List ((ℕ × ℕ) × Text)
without_balances wallet_id [] = []
without_balances wallet_id (((owner, account), total) ∷ rest) =
    let kept = without_balances wallet_id rest in
    if not (owner == wallet_id) then ((owner, account), total) ∷ kept else kept

module _ {ℓ} {S : Type ℓ} where
  abbrev pub activate : Manager S → ActiveWallet → Manager S
  activate m active = record m { active_wallet = some active }

  -- The row's update: the caller keeps the wallet that it read before.
  abbrev pub update_row : Manager S → ℕ → WalletInfo → Text → Manager S
  update_row m wallet_id wallet directory = record m {
    wallets = insert wallet_id (wallet, directory) m.wallets;
  }

  abbrev pub load_locked :
      Manager S → WalletInfo → Text → Bool → Manager S × Result (WalletInfo × WalletLockStatus)
  load_locked m wallet directory scanned =
      (activate m (locked_wallet wallet directory), after_scan scanned (wallet, locked))

  -- The wallet that is open already stays so.
  abbrev pub load_found :
      Manager S
      → ℕ
      → WalletInfo
      → Text
      → Bool
      → Option ActiveWallet
      → Manager S × Result (WalletInfo × WalletLockStatus)
  load_found m wallet_id wallet directory scanned none = load_locked m wallet directory scanned
  load_found m wallet_id wallet directory scanned (some active) =
      if stays_open wallet_id active
      then (activate m (record active { wallet = wallet }), ok (wallet, unlocked))
      else load_locked m wallet directory scanned

  abbrev pub load_checked :
      Manager S
      → ℕ
      → ℤ
      → Bool
      → Result (WalletInfo × Text)
      → Manager S × Result (WalletInfo × WalletLockStatus)
  load_checked m wallet_id now_ms scanned (err e) = (m, err e)
  load_checked m wallet_id now_ms scanned (ok (wallet, directory)) =
      load_found (update_row m wallet_id (record wallet { last_opened_at = some now_ms }) directory)
        wallet_id wallet directory scanned m.active_wallet

  unfoldable pub load_wallet :
      World → Manager S → ℕ → ℤ → Bool → Manager S × Result (WalletInfo × WalletLockStatus)
  unfolding find_wallet insert
  load_wallet world m wallet_id now_ms scanned =
      load_checked m wallet_id now_ms scanned (find_wallet world m wallet_id)

  abbrev pub unlock_with :
      World
      → Manager S
      → ℕ
      → WalletInfo
      → Text
      → Bool
      → Result (List ℕ)
      → Manager S × Result WalletLockStatus
  unlock_with world m wallet_id wallet directory scanned (err e) = (m, err e)
  unlock_with world m wallet_id wallet directory scanned (ok dek) =
      if world.opens_db directory wallet.network dek
      then (
        activate
            (update_row m wallet_id (record wallet { remember_unlock_enabled = false }) directory)
            (unlocked_wallet wallet directory dek),
        after_scan scanned unlocked,
      )
      else (m, err io_error)

  abbrev pub unlock_checked :
      World
      → Manager S
      → ℕ
      → Text
      → Bool
      → Result (WalletInfo × Text)
      → Manager S × Result WalletLockStatus
  unlock_checked world m wallet_id password scanned (err e) = (m, err e)
  unlock_checked world m wallet_id password scanned (ok (wallet, directory)) =
      unlock_with world m wallet_id wallet directory scanned
        (key_of_password world m wallet_id wallet.network password)

  unfoldable pub unlock_wallet :
      World → Manager S → ℕ → Text → Bool → Manager S × Result WalletLockStatus
  unfolding find_wallet key_of_password insert
  unlock_wallet world m wallet_id password scanned =
      unlock_checked world m wallet_id password scanned (find_wallet world m wallet_id)

  abbrev pub lock_active : Manager S → ℕ → Option ActiveWallet → Manager S × Result WalletLockStatus
  lock_active m wallet_id none = (m, ok locked)
  lock_active m wallet_id (some active) =
      if not (active.wallet.id == wallet_id) then (m, ok active.lock_status) else (
        activate m (record active { wallet_db = none; dek = none; lock_status = locked }),
        ok locked,
      )

  unfoldable pub lock_wallet : Manager S → ℕ → Manager S × Result WalletLockStatus
  lock_wallet m wallet_id = lock_active m wallet_id m.active_wallet

  -- The state of a logout; the proposals of the `TxService` are cleared with it, and the status that
  -- was told last is removed in Status/Observers.
  unfoldable pub cleared : Manager S → ℕ → Manager S
  unfolding without_balances remove without clear_finished_jobs
  cleared m wallet_id = record m {
    cached_balances = without_balances wallet_id m.cached_balances;
    cached_sync_status = remove wallet_id m.cached_sync_status;
    sync_stop_requested = without wallet_id m.sync_stop_requested;
    backup_challenges = remove wallet_id m.backup_challenges;
    job_service = clear_finished_jobs m.job_service wallet_id;
    active_wallet = none;
  }

  module _ {κ} {P : Type κ} where
    abbrev pub logout_active :
        Manager S
        → Map (ProposalRecord P)
        → ℕ
        → Option ActiveWallet
        → (Manager S × Map (ProposalRecord P)) × Result (Unit {0})
    logout_active m proposals wallet_id none = ((m, proposals), err wallet_not_found)
    logout_active m proposals wallet_id (some active) =
        if not (active.wallet.id == wallet_id)
        then ((m, proposals), err wallet_not_found)
        else ((cleared m wallet_id, clear_proposals_for_wallet proposals wallet_id), ok tt)

    unfoldable pub logout_wallet :
        Manager S
        → Map (ProposalRecord P)
        → ℕ
        → (Manager S × Map (ProposalRecord P)) × Result (Unit {0})
    unfolding cleared clear_proposals_for_wallet
    logout_wallet m proposals wallet_id = logout_active m proposals wallet_id m.active_wallet
