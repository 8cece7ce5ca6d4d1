-- ===== src/Wallets.antt =====
-- The wallets of one application: `WalletManager` of crates/zbag-engine/src/wallet_manager.rs. The
-- tables that it reads stand as maps in its state; a failure of the database or of the file system
-- that is no part of an operation's outcome is left out, and so are the events that tell the
-- application of a status. An id is a number, a time is in milliseconds.
pub mod Session
pub mod Creation
pub mod Access
pub mod Backup
pub mod Retries
pub mod Context
pub mod Status
use zbag_app_tauri.Base.{
  ℕ, Bool, true, false, not, ◌&&◌, List, [], ◌∷◌, ◌++◌, Option, none, some, Text, text, text_eq,
  ◌==◌, if◌then◌else◌,
}
use zbag_app_tauri.Base.Int.{ℤ}
use zbag_app_tauri.Base.Maps.{Map, lookup}
use zbag_app_tauri.Base.Results.{
  Result, ok, err, wallet_not_found, wallet_locked, invalid_request, internal_error,
  invalid_wallet_password, ◌>>=◌, ◌>>◌, fail_if, ok_or,
}
use zbag_app_tauri.Encryption.{
  Crypto, WalletKdfParams, WalletAeadParams, Fallible, done, failed, unwrap_dek,
}
use zbag_app_tauri.Jobs.Service.{JobServiceState}
use zbag_app_tauri.Reauth.{Tokens}
use zbag_app_tauri.Servers.{Network, mainnet, testnet}

pub data WalletType : Type 0 where
  software watch_only : WalletType

pub data WalletLockStatus : Type 0 where
  locked unlocked : WalletLockStatus

pub record WalletInfo : Type 0 where
  pub id : ℕ
  pub name : Text
  pub wallet_type : WalletType
  pub network : Network
  pub remember_unlock_enabled : Bool
  pub created_at : ℤ
  pub last_opened_at : Option ℤ

-- The key is a list of bytes, and an open connection is the directory of its database.
pub record ActiveWallet : Type 0 where
  pub wallet : WalletInfo
  pub wallet_dir : Text
  pub lock_status : WalletLockStatus
  pub dek : Option (List ℕ)
  pub wallet_db : Option Text

pub record WalletEncryptionMeta : Type 0 where
  pub kdf : WalletKdfParams
  pub aead : WalletAeadParams
  pub wrapped_dek_b64 : Text

pub record BackupChallengeState : Type 0 where
  pub challenge_id : ℕ
  pub indices : List ℕ
  pub expires_at : ℤ
  pub failed_attempts : ℕ

-- The text of a cached balance's transparent total, under the wallet and the account; what the cached
-- statuses say is of a type `S` that nothing here looks into.
pub record Manager {ℓ} (S : Type ℓ) : Type ℓ where
  pub wallets : Map (WalletInfo × Text)
  pub encryption : Map WalletEncryptionMeta
  pub backup_required : Map Bool
  pub mnemonics : Map (List ℕ)
  pub active_wallet : Option ActiveWallet
  pub reauth : Tokens
  pub job_service : JobServiceState
  pub backup_challenges : Map BackupChallengeState
  pub cached_balances : List ((ℕ × ℕ) × Text)
  pub cached_sync_status : Map S
  pub sync_stop_requested : List ℕ

-- What surrounds the manager: the libraries, the root of the wallets' directories, and whether
-- SQLCipher opens the database of a directory, for a network, with a key.
pub record World : Type 0 where
  pub crypto : Crypto
  pub wallets_root : Text
  pub opens_db : Text → Network → List ℕ → Bool

unfoldable pub network_dir_name : Network → Text
network_dir_name mainnet = text "mainnet"
network_dir_name testnet = text "testnet"

unfoldable pub wallet_dir : World → ℕ → Network → Text
unfolding network_dir_name
wallet_dir world wallet_id network =
    world.wallets_root
    ++ (text "/" ++ (network_dir_name network ++ (text "/" ++ world.crypto.uuid_text wallet_id)))

abbrev pub lock_eq : WalletLockStatus → WalletLockStatus → Bool
lock_eq locked locked = true
lock_eq locked unlocked = false
lock_eq unlocked locked = false
lock_eq unlocked unlocked = true

abbrev pub is_unlocked : ActiveWallet → Bool
is_unlocked active = lock_eq active.lock_status unlocked

abbrev pub is_some {ℓ} : {A : Type ℓ} → Option A → Bool
is_some none = false
is_some (some a) = true

abbrev pub checked_directory : World → Option (WalletInfo × Text) → Result (WalletInfo × Text)
checked_directory world none = err wallet_not_found
checked_directory world (some (wallet, directory)) =
    if text_eq directory (wallet_dir world wallet.id wallet.network)
    then ok (wallet, directory)
    else err invalid_request

-- The checks that `load_wallet` and `unlock_wallet` begin with.
unfoldable pub find_wallet {ℓ} : {S : Type ℓ} → World → Manager S → ℕ → Result (WalletInfo × Text)
unfolding lookup wallet_dir
find_wallet world m wallet_id = checked_directory world (lookup wallet_id m.wallets)

abbrev pub or_password_error : Fallible (List ℕ) → Result (List ℕ)
or_password_error (done dek) = ok dek
or_password_error (failed e) = err invalid_wallet_password

abbrev pub unwrapped : World → ℕ → Network → Text → Option WalletEncryptionMeta → Result (List ℕ)
unwrapped world wallet_id network password none = err internal_error
unwrapped world wallet_id network password (some meta) =
    or_password_error
      (unwrap_dek world.crypto wallet_id network password meta.kdf meta.aead meta.wrapped_dek_b64)

-- The key that the password gives.
unfoldable pub key_of_password {ℓ} :
    {S : Type ℓ} → World → Manager S → ℕ → Network → Text → Result (List ℕ)
unfolding lookup unwrap_dek
key_of_password world m wallet_id network password =
    unwrapped world wallet_id network password (lookup wallet_id m.encryption)

abbrev pub snapshot : ℕ → Option ActiveWallet → Result (WalletInfo × List ℕ)
snapshot wallet_id none = err wallet_locked
snapshot wallet_id (some active) = do
  fail_if (not (active.wallet.id == wallet_id)) wallet_not_found
  fail_if (not (is_unlocked active)) wallet_locked
  dek ← ok_or active.dek wallet_locked
  ok (active.wallet, dek)

unfoldable pub require_unlocked_wallet_snapshot {ℓ} :
    {S : Type ℓ} → Manager S → ℕ → Result (WalletInfo × List ℕ)
require_unlocked_wallet_snapshot m wallet_id = snapshot wallet_id m.active_wallet

abbrev pub key_of : Result (WalletInfo × List ℕ) → Result (List ℕ)
key_of (ok (wallet, dek)) = ok dek
key_of (err e) = err e

unfoldable pub unlocked_wallet_dek {ℓ} : {S : Type ℓ} → Manager S → ℕ → Result (List ℕ)
unlocked_wallet_dek m wallet_id = key_of (snapshot wallet_id m.active_wallet)

abbrev pub active_unlocked : ℕ → Option ActiveWallet → Bool
active_unlocked wallet_id none = false
active_unlocked wallet_id (some active) = active.wallet.id == wallet_id && is_unlocked active

unfoldable pub is_active_wallet_unlocked {ℓ} : {S : Type ℓ} → Manager S → ℕ → Bool
is_active_wallet_unlocked m wallet_id = active_unlocked wallet_id m.active_wallet

abbrev pub watch_only_id : ℕ → Option ActiveWallet → Bool
watch_only_id wallet_id none = false
watch_only_id wallet_id (some active) =
    active.wallet.id == wallet_id
    && elim active.wallet.wallet_type [ software ↦ false | watch_only ↦ true ]
