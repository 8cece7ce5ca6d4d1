-- ===== src/Wallets/Context.antt =====
-- What an operation on the wallet's transactions takes with it when it leaves the mutex:
-- `get_tx_operation_context` of crates/zbag-engine/src/wallet_manager.rs. `resolved` is the answer of
-- `resolve_grpc_url` for a network.
use zbag_app_tauri.Base.{ℕ, not, List, Option, none, some, Text}
use zbag_app_tauri.Base.Results.{Result, ok, err, wallet_locked, ◌>>=◌, ◌>>◌, fail_if, ok_or}
use zbag_app_tauri.Servers.{Network}
use zbag_app_tauri.Wallets.{ActiveWallet, Manager, is_unlocked}

pub record TxOperationContext : Type 0 where
  pub wallet_id : ℕ
  pub network : Network
  pub wallet_dir : Text
  pub dek : List ℕ
  pub grpc_url : Text

abbrev pub context_of : (Network → Result Text) → Option ActiveWallet → Result TxOperationContext
context_of resolved none = err wallet_locked
context_of resolved (some active) = do
  fail_if (not (is_unlocked active)) wallet_locked
  dek ← ok_or active.dek wallet_locked
  url ← resolved active.wallet.network
  ok (record {
    wallet_id = active.wallet.id;
    network = active.wallet.network;
    wallet_dir = active.wallet_dir;
    dek = dek;
    grpc_url = url;
  })

unfoldable pub get_tx_operation_context {ℓ} :
    {S : Type ℓ} → Manager S → (Network → Result Text) → Result TxOperationContext
get_tx_operation_context m resolved = context_of resolved m.active_wallet
