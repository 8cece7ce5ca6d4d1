-- ===== src/Wallets/Retries.antt =====
-- The tasks that send a queued transaction again (crates/zbag-engine/src/wallet_manager.rs): how they
-- are prepared, checked and executed. A transaction id is a number. `resolved` is the answer of
-- `resolve_grpc_url` for a network, `due` that of the scan of the queue and of `list_due_retry_txids`,
-- and `retry` that of `TxService::retry_broadcast`, each of which has its own module.
pub mod Intent
use zbag_app_tauri.Base.{
  ℕ, Bool, true, false, not, ◌&&◌, ◌||◌, List, [], ◌∷◌, Option, none, some, Text, text_eq, ◌==◌,
  if◌then◌else◌,
}
use zbag_app_tauri.Base.Results.{
  Result, ok, err, wallet_locked, reauth_required, ◌>>=◌, ◌>>◌, fail_if,
}
use zbag_app_tauri.Reauth.{spend}
use zbag_app_tauri.Servers.{Network, network_eq}
use zbag_app_tauri.Wallets.{ActiveWallet, Manager, is_unlocked, is_some, unlocked_wallet_dek}
use zbag_app_tauri.Wallets.Access.{consume_reauth_token}

-- The wallet's database and the Tor client go with the directory and the service.
pub record RetryBroadcastTask : Type 0 where
  pub txid : ℕ
  pub user_intent_confirmed : Bool
  pub wallet_id : ℕ
  pub wallet_network : Network
  pub wallet_dir : Text
  pub wallet_dek : List ℕ
  pub grpc_url : Text

abbrev pub same_wallet : RetryBroadcastTask → Option ActiveWallet → Result (Unit {0})
same_wallet task none = err wallet_locked
same_wallet task (some active) = do
  fail_if (not (is_unlocked active)) wallet_locked
  fail_if (not (active.wallet.id == task.wallet_id)) wallet_locked
  fail_if (not (network_eq active.wallet.network task.wallet_network)) wallet_locked
  fail_if (not (text_eq active.wallet_dir task.wallet_dir)) wallet_locked
  fail_if (not (is_some active.dek) || not (is_some active.wallet_db)) wallet_locked

unfoldable pub ensure_retry_task_user_intent : RetryBroadcastTask → Result (Unit {0})
ensure_retry_task_user_intent task =
    if task.user_intent_confirmed then ok tt else err reauth_required

-- Whatever wallet is active by then.
unfoldable pub execute_prepared_retry_broadcast_task :
    (RetryBroadcastTask → Result ℕ) → RetryBroadcastTask → Result ℕ
unfolding ensure_retry_task_user_intent
execute_prepared_retry_broadcast_task retry task = do ensure_retry_task_user_intent task; retry task

abbrev pub counted : Result ℕ → ℕ
counted (ok txid) = 1
counted (err e) = 0

module _ {ℓ} {S : Type ℓ} where
  abbrev pub task_of :
      Manager S
      → ℕ
      → Bool
      → (Network → Result Text)
      → Option ActiveWallet
      → Result RetryBroadcastTask
  task_of m txid confirmed resolved none = err wallet_locked
  task_of m txid confirmed resolved (some active) = do
    fail_if (not (is_unlocked active)) wallet_locked
    dek ← unlocked_wallet_dek m active.wallet.id
    url ← resolved active.wallet.network
    ok (record {
      txid = txid;
      user_intent_confirmed = confirmed;
      wallet_id = active.wallet.id;
      wallet_network = active.wallet.network;
      wallet_dir = active.wallet_dir;
      wallet_dek = dek;
      grpc_url = url;
    })

  unfoldable pub build_retry_broadcast_task :
      Manager S → ℕ → Bool → (Network → Result Text) → Result RetryBroadcastTask
  unfolding unlocked_wallet_dek
  build_retry_broadcast_task m txid user_intent_confirmed resolved =
      task_of m txid user_intent_confirmed resolved m.active_wallet

  abbrev pub build_with_token :
      ℕ
      → (Network → Result Text)
      → Manager S × Result (Unit {0})
      → Manager S × Result RetryBroadcastTask
  build_with_token txid resolved (m, err e) = (m, err e)
  build_with_token txid resolved (m, ok u) = (m, build_retry_broadcast_task m txid true resolved)

  abbrev pub prepare_for :
      Manager S
      → ℕ
      → ℕ
      → ℕ
      → (Network → Result Text)
      → Option ActiveWallet
      → Manager S × Result RetryBroadcastTask
  prepare_for m txid token now resolved none = (m, err wallet_locked)
  prepare_for m txid token now resolved (some active) =
      build_with_token txid resolved (consume_reauth_token m active.wallet.id token now spend)

  unfoldable pub prepare_retry_broadcast_task :
      Manager S → ℕ → ℕ → ℕ → (Network → Result Text) → Manager S × Result RetryBroadcastTask
  unfolding consume_reauth_token build_retry_broadcast_task
  prepare_retry_broadcast_task m txid reauth_token now resolved =
      prepare_for m txid reauth_token now resolved m.active_wallet

  abbrev pub first_task :
      Manager S → (Network → Result Text) → List ℕ → Result (Option RetryBroadcastTask)
  first_task m resolved [] = ok none
  first_task m resolved (txid ∷ later) = do
    task ← build_retry_broadcast_task m txid false resolved
    ok (some task)

  abbrev pub next_for :
      Manager S
      → Result (List ℕ)
      → (Network → Result Text)
      → Option ActiveWallet
      → Result (Option RetryBroadcastTask)
  next_for m due resolved none = ok none
  next_for m due resolved (some active) =
      if not (is_unlocked active) then ok none else due >>= first_task m resolved

  -- At most one due transaction, and without the user's intent.
  unfoldable pub prepare_next_queued_broadcast_retry_task :
      Manager S → Result (List ℕ) → (Network → Result Text) → Result (Option RetryBroadcastTask)
  unfolding build_retry_broadcast_task
  prepare_next_queued_broadcast_retry_task m due resolved = next_for m due resolved m.active_wallet

  unfoldable pub ensure_retry_task_wallet_state : Manager S → RetryBroadcastTask → Result (Unit {0})
  ensure_retry_task_wallet_state m task = same_wallet task m.active_wallet

  unfoldable pub validate_retry_broadcast_task : Manager S → RetryBroadcastTask → Result (Unit {0})
  unfolding ensure_retry_task_wallet_state ensure_retry_task_user_intent
  validate_retry_broadcast_task m task = do
    ensure_retry_task_wallet_state m task
    ensure_retry_task_user_intent task

  module _ (retry : RetryBroadcastTask → Result ℕ) where
    unfoldable pub execute_retry_broadcast_task : Manager S → RetryBroadcastTask → Result ℕ
    unfolding validate_retry_broadcast_task execute_prepared_retry_broadcast_task
    execute_retry_broadcast_task m task = do
      validate_retry_broadcast_task m task
      execute_prepared_retry_broadcast_task retry task

    abbrev pub process_prepared : Manager S → Option RetryBroadcastTask → ℕ
    process_prepared m none = 0
    process_prepared m (some task) =
        counted (execute_retry_broadcast_task m (record task { user_intent_confirmed = true }))

    -- The explicit call is the user's intent.
    unfoldable pub process_queued_broadcast_retries :
        Manager S → Result (List ℕ) → (Network → Result Text) → Result ℕ
    unfolding prepare_next_queued_broadcast_retry_task execute_retry_broadcast_task
    process_queued_broadcast_retries m due resolved = do
      task ← prepare_next_queued_broadcast_retry_task m due resolved
      ok (process_prepared m task)
