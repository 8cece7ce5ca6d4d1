-- ===== src/Examples/Wallets.antt =====
-- One wallet, its session, its phrase and its retries.
use zbag_app_tauri.Base.{
  ℕ, ◌≡◌, ◌⊎◌, refl, Bool, true, false, List, [], ◌∷◌, ◌++◌, Option, none, some, arith, Text, text,
  text_eq, trim, All,
}
use zbag_app_tauri.Base.Int.{pos}
use zbag_app_tauri.Base.Maps.{lookup}
use zbag_app_tauri.Base.Results.{Result, ok, err, invalid_request}
use zbag_app_tauri.Examples.Toy.{crypto, kdf, aead, dek, zeros}
use zbag_app_tauri.Reauth
use zbag_app_tauri.Reauth.{spend, validate_and_consume, issue, Tokens}
use zbag_app_tauri.Reauth.Tokens.{Event, Avoids, run as run_tokens}
use zbag_app_tauri.Servers.{Network, mainnet}
use zbag_app_tauri.Wallets.{WalletInfo, software, Manager, World, ActiveWallet, watch_only_id}
use zbag_app_tauri.Wallets.Access.{stored_words, view_seed_phrase}
use zbag_app_tauri.Wallets.Access.Seed.{is_ok, view_seed_phrase_once}
use zbag_app_tauri.Wallets.Creation.{Draws, Request, create_wallet}
use zbag_app_tauri.Wallets.Retries.{
  RetryBroadcastTask, prepare_retry_broadcast_task, prepare_next_queued_broadcast_retry_task,
  execute_prepared_retry_broadcast_task,
}
use zbag_app_tauri.Wallets.Retries.Intent.{IsFor, prepare_retry-execute}
use zbag_app_tauri.Wallets.Session.{unlocked_wallet, load_wallet, unlock_wallet, lock_wallet}
use zbag_app_tauri.Wallets.Session.Sealed.{
  Action, loads, unlocks, locks, run, IsSealed, unlocked_as, view,
}
use zbag_app_tauri.Wallets.Session.Runs.{
  Refines, SomeUnlock, run-IsSealed, run-Refines, run-unlocked,
}

abbrev pub world : World
world = record {
  crypto = crypto;
  wallets_root = text "/w";
  opens_db = λ directory network key. true;
}

abbrev pub wallet : WalletInfo
wallet = record {
  id = 8;
  name = text "savings";
  wallet_type = software;
  network = mainnet;
  remember_unlock_enabled = false;
  created_at = pos 1000;
  last_opened_at = none;
}

abbrev pub directory : Text
directory = text "/w/mainnet/" ++ (8 ∷ [])

-- Twenty-four words "a", sealed under a nonce.
abbrev pub stored : List ℕ
stored = 1 ∷ (zeros 24 ++ (zeros 16 ++ text "a a a a a a a a a a a a a a a a a a a a a a a a"))

abbrev pub manager : Option ActiveWallet → Tokens → Manager (Unit {0})
manager active tokens = record {
  wallets = (8, (wallet, directory)) ∷ [];
  encryption = (8, record { kdf = kdf; aead = aead; wrapped_dek_b64 = zeros 16 ++ dek }) ∷ [];
  backup_required = (8, true) ∷ [];
  mnemonics = (8, stored) ∷ [];
  active_wallet = active;
  reauth = tokens;
  job_service = record { jobs = []; progress = [] };
  backup_challenges = [];
  cached_balances = [];
  cached_sync_status = [];
  sync_stop_requested = [];
}

abbrev closed_manager : Manager (Unit {0})
closed_manager = manager none []

closed-IsSealed : IsSealed closed_manager
unfolding lookup
closed-IsSealed = record { keyed = λ key row e. ground (arith, e); sealed = tt }

abbrev actions : List Action
actions =
    loads 8 (pos 2000) true
    ∷ unlocks 8 (text "secret") true
    ∷ locks 8
    ∷ unlocks 8 (text "secret") false
    ∷ []

run-IsSealed_example : IsSealed (run world closed_manager actions)
run-IsSealed_example = run-IsSealed world closed_manager actions closed-IsSealed

run-Refines_example : Refines world closed_manager actions
run-Refines_example = run-Refines world closed_manager actions closed-IsSealed

ends_unlocked : view (run world closed_manager actions).active_wallet ≡ unlocked_as 8
unfolding run unlock_wallet lock_wallet load_wallet text_eq crypto
ends_unlocked = refl

run-unlocked_example :
    (view closed_manager.active_wallet ≡ unlocked_as 8) ⊎ SomeUnlock world closed_manager 8 actions
run-unlocked_example = run-unlocked world closed_manager 8 actions closed-IsSealed ends_unlocked

-- The draws of a new wallet 9, whose phrase is twenty-four words "a".
abbrev draws : Draws
draws = record {
  wallet_id = 9;
  now_ms = pos 3000;
  phrase = some (text "a a a a a a a a a a a a a a a a a a a a a a a a");
  parses_ufvk = true;
  parses_derivation = true;
  dek = dek;
  kdf = kdf;
  aead = aead;
  nonce = zeros 24;
  pool = 0 ∷ 1 ∷ 2 ∷ 3 ∷ 4 ∷ 5 ∷ [];
  challenge_id = 50;
  challenged_at = pos 3001;
  creates_dir = true;
  inserts_wallet = true;
  sets_backup = true;
  inserts_encryption = true;
  initializes_db = true;
  creates_account = true;
  stores_mnemonic = true;
  inserts_account = true;
  scanned = true;
}

abbrev request : Request
request = record { name = text " new "; network = mainnet; password = text "secret" }

abbrev created : Manager (Unit {0})
created = (create_wallet world closed_manager request draws).0

created_unlocked : view created.active_wallet ≡ unlocked_as 9
unfolding create_wallet crypto lookup trim text_eq
created_unlocked = refl

created_stored : lookup 9 created.mnemonics ≡ some stored
unfolding create_wallet crypto lookup trim text_eq
created_stored = refl

blank_refused :
    create_wallet world closed_manager (record request { name = text " " }) draws
    ≡ (closed_manager, err invalid_request)
unfolding create_wallet crypto trim
blank_refused = refl

abbrev pub open_wallet : Option ActiveWallet
open_wallet = some (unlocked_wallet wallet directory dek)

abbrev viewing : Manager (Unit {0})
viewing = manager open_wallet (issue [] 11 1000 8 Reauth.view_seed_phrase).0

abbrev pub words : List Text
words =
    let a = text "a" in
    a ∷ a ∷ a ∷ a ∷ a ∷ a ∷ a ∷ a ∷ a ∷ a ∷ a ∷ a ∷ a ∷ a ∷ a ∷ a ∷ a ∷ a ∷ a ∷ a ∷ a ∷ a ∷ a ∷ a
    ∷ []

abbrev viewed : Manager (Unit {0})
viewed = (view_seed_phrase world viewing 8 11 2000).0

views_words : view_seed_phrase world viewing 8 11 2000 ≡ (viewed, ok words)
unfolding view_seed_phrase issue crypto
views_words = refl

view_seed_phrase_once_example :
    ((validate_and_consume viewing.reauth 11 2000 8 Reauth.view_seed_phrase).1 ≡ none)
    × (watch_only_id 8 viewing.active_wallet ≡ false)
    × (stored_words world viewing 8 ≡ ok words)
    × ((events : List Event) (later : Manager (Unit {0})) (w' now' : ℕ)
        → All (Avoids 11) events
        → later.reauth ≡ run_tokens viewed.reauth events
        → is_ok (view_seed_phrase world later w' 11 now').1 ≡ false)
view_seed_phrase_once_example =
    view_seed_phrase_once world viewing viewed 8 11 2000 words views_words

abbrev resolved : Network → Result Text
resolved network = ok (text "https://node")

abbrev spending : Manager (Unit {0})
spending = manager open_wallet (issue [] 11 1000 8 spend).0

abbrev task : Bool → RetryBroadcastTask
task confirmed = record {
  txid = 5;
  user_intent_confirmed = confirmed;
  wallet_id = 8;
  wallet_network = mainnet;
  wallet_dir = directory;
  wallet_dek = dek;
  grpc_url = text "https://node";
}

abbrev retry : RetryBroadcastTask → Result ℕ
retry t = ok t.txid

prepares :
    prepare_retry_broadcast_task spending 5 11 2000 resolved
    ≡ ((prepare_retry_broadcast_task spending 5 11 2000 resolved).0, ok (task true))
unfolding prepare_retry_broadcast_task issue
prepares = refl

prepare_retry-execute_example :
    (active : ActiveWallet) × (spending.active_wallet ≡ some active)
    × IsFor resolved 5 active (task true) true
    × ((validate_and_consume spending.reauth 11 2000 active.wallet.id spend).1 ≡ none)
    × (execute_prepared_retry_broadcast_task retry (task true) ≡ retry (task true))
prepare_retry-execute_example =
    prepare_retry-execute spending resolved
      (prepare_retry_broadcast_task spending 5 11 2000 resolved).0 5 11 2000 (task true) retry
      prepares

queues :
    prepare_next_queued_broadcast_retry_task spending (ok (5 ∷ [])) resolved
    ≡ ok (some (task false))
unfolding prepare_next_queued_broadcast_retry_task
queues = refl
