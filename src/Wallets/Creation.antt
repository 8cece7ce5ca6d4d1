-- ===== src/Wallets/Creation.antt =====
-- New wallets: `create_wallet`, `restore_wallet` and `create_keystone_wallet` of
-- crates/zbag-engine/src/wallet_manager.rs. Of the results only the wallet is kept. What the libraries,
-- the file system and the database answer are fields of `Draws`; the accounts are not modelled.
use zbag_app_tauri.Base.{
  ℕ, Bool, true, false, not, List, [], ◌∷◌, Option, none, some, Text, trim, length, ltb,
}
use zbag_app_tauri.Base.Int.{ℤ}
use zbag_app_tauri.Base.Maps.{insert}
use zbag_app_tauri.Base.Results.{
  Result, ok, err, ErrorCode, invalid_request, internal_error, invalid_seed_phrase, invalid_ufvk,
  io_error,
}
use zbag_app_tauri.Encryption.{WalletKdfParams, WalletAeadParams, Fallible, done, failed, wrap_dek}
use zbag_app_tauri.Encryption.Mnemonic.{encrypt_mnemonic}
use zbag_app_tauri.Servers.{Network}
use zbag_app_tauri.Wallets.{
  WalletType, software, watch_only, WalletInfo, Manager, World, wallet_dir, WalletEncryptionMeta,
}
use zbag_app_tauri.Wallets.Backup.{issue_backup_challenge}
use zbag_app_tauri.Wallets.Session.{activate, unlocked_wallet, after_scan}

pub record Request : Type 0 where
  pub name : Text
  pub network : Network
  pub password : Text

-- `phrase` is the new or the given phrase as bytes, `none` if it is no phrase of 24 words. `parses_ufvk`
-- says whether the viewing key is one of the network, `parses_derivation` whether the seed
-- fingerprint and the index of its account, where both are given, can be read. The new id and key, the parameters with their
-- salt and nonces, the shuffled places of the challenge and the clock are drawn; the other fields say
-- whether a write or a call succeeds.
pub record Draws : Type 0 where
  pub wallet_id : ℕ
  pub now_ms : ℤ
  pub phrase : Option (List ℕ)
  pub parses_ufvk : Bool
  pub parses_derivation : Bool
  pub dek : List ℕ
  pub kdf : WalletKdfParams
  pub aead : WalletAeadParams
  pub nonce : List ℕ
  pub pool : List ℕ
  pub challenge_id : ℕ
  pub challenged_at : ℤ
  pub creates_dir : Bool
  pub inserts_wallet : Bool
  pub sets_backup : Bool
  pub inserts_encryption : Bool
  pub initializes_db : Bool
  pub creates_account : Bool
  pub stores_mnemonic : Bool
  pub inserts_account : Bool
  pub scanned : Bool

abbrev pub is_blank : Text → Bool
is_blank [] = true
is_blank (c ∷ s) = false

abbrev pub new_wallet : WalletType → Request → Draws → WalletInfo
new_wallet wallet_type request draws = record {
  id = draws.wallet_id;
  name = request.name;
  wallet_type = wallet_type;
  network = request.network;
  remember_unlock_enabled = false;
  created_at = draws.now_ms;
  last_opened_at = none;
}

abbrev pub phrase_or_empty : Option (List ℕ) → List ℕ
phrase_or_empty none = []
phrase_or_empty (some phrase) = phrase

abbrev pub is_phrase : Option (List ℕ) → Bool
is_phrase none = false
is_phrase (some phrase) = true

abbrev pub outcome_of {ℓ} : {A : Type ℓ} → Result A → Result (Unit {0})
outcome_of (ok a) = ok tt
outcome_of (err e) = err e

-- A step of a creation: a check, or a write that can fail, which puts a row, the phrase or the challenge.
pub data Step : Type 0 where
  needs : Bool → ErrorCode → Step
  puts_wallet : Bool → WalletInfo → Text → Step
  puts_backup : Bool → ℕ → Bool → Step
  puts_encryption : Bool → Draws → Fallible Text → Step
  encrypts : Fallible (List ℕ) → Step
  puts_mnemonic : Bool → ℕ → Fallible (List ℕ) → Step
  puts_challenge : Draws → Step

abbrev pub encryption_row : Draws → Text → WalletEncryptionMeta
encryption_row draws wrapped = record {
  kdf = draws.kdf;
  aead = draws.aead;
  wrapped_dek_b64 = wrapped;
}

module _ {ℓ} {S : Type ℓ} where
  unfoldable pub perform : Step → Manager S → Manager S × Result (Unit {0})
  unfolding insert issue_backup_challenge
  perform (needs true e) m = (m, ok tt)
  perform (needs false e) m = (m, err e)
  perform (puts_wallet true wallet directory) m =
      (record m { wallets = insert wallet.id (wallet, directory) m.wallets }, ok tt)
  perform (puts_wallet false wallet directory) m = (m, err io_error)
  perform (puts_backup true wallet_id required) m =
      (record m { backup_required = insert wallet_id required m.backup_required }, ok tt)
  perform (puts_backup false wallet_id required) m = (m, err io_error)
  perform (puts_encryption inserts draws (failed e)) m = (m, err io_error)
  perform (puts_encryption false draws (done wrapped)) m = (m, err io_error)
  perform (puts_encryption true draws (done wrapped)) m = (
    record m { encryption = insert draws.wallet_id (encryption_row draws wrapped) m.encryption },
    ok tt,
  )
  perform (encrypts (failed e)) m = (m, err io_error)
  perform (encrypts (done stored)) m = (m, ok tt)
  perform (puts_mnemonic stores wallet_id (failed e)) m = (m, err io_error)
  perform (puts_mnemonic false wallet_id (done stored)) m = (m, err io_error)
  perform (puts_mnemonic true wallet_id (done stored)) m =
      (record m { mnemonics = insert wallet_id stored m.mnemonics }, ok tt)
  perform (puts_challenge draws) m =
      let r =
        issue_backup_challenge m draws.wallet_id draws.pool draws.challenge_id
          draws.challenged_at in
      (r.0, outcome_of r.1)

  -- The steps one after the other, up to the first one that fails.
  abbrev pub go_on :
      Manager S × Result (Unit {0})
      → (Manager S → Manager S × Result (Unit {0}))
      → Manager S × Result (Unit {0})
  go_on (m, err e) later = (m, err e)
  go_on (m, ok u) later = later m

  unfoldable pub run_steps : List Step → Manager S → Manager S × Result (Unit {0})
  unfolding perform
  run_steps [] m = (m, ok tt)
  run_steps (step ∷ steps) m = go_on (perform step m) (run_steps steps)

  -- The wallet is open once every step is done.
  abbrev pub activated :
      World → WalletInfo → Draws → Manager S × Result (Unit {0}) → Manager S × Result WalletInfo
  activated world wallet draws (m, err e) = (m, err e)
  activated world wallet draws (m, ok u) = (
    activate m (unlocked_wallet wallet (wallet_dir world wallet.id wallet.network) draws.dek),
    after_scan draws.scanned wallet,
  )

abbrev pub checks : Request → List Step → List Step
checks request later =
    needs (not (is_blank (trim request.name))) invalid_request
    ∷ needs (not (ltb 50 (length request.name))) invalid_request
    ∷ needs (not (is_blank request.password)) invalid_request
    ∷ later

-- The directory, the rows and the wrapped key. A restored wallet and one of a viewing key need no
-- backup.
abbrev pub stored : World → WalletInfo → Bool → Request → Draws → List Step → List Step
stored world wallet required request draws later =
    needs draws.creates_dir io_error
    ∷ puts_wallet draws.inserts_wallet wallet (wallet_dir world wallet.id wallet.network)
    ∷ puts_backup draws.sets_backup wallet.id required
    ∷ puts_encryption draws.inserts_encryption draws (
        wrap_dek world.crypto wallet.id wallet.network request.password draws.kdf draws.aead
          draws.dek)
    ∷ later

abbrev pub encrypted : World → WalletInfo → Draws → Fallible (List ℕ)
encrypted world wallet draws =
    encrypt_mnemonic world.crypto draws.nonce wallet.id wallet.network draws.dek
      (phrase_or_empty draws.phrase)

unfoldable pub create_steps : World → Request → Draws → List Step
unfolding wrap_dek encrypt_mnemonic wallet_dir
create_steps world request draws =
    let wallet = new_wallet software request draws in
    checks request (
      needs (is_phrase draws.phrase) internal_error
      ∷ stored world wallet true request draws (
          needs draws.initializes_db io_error
          ∷ needs draws.creates_account io_error
          ∷ puts_mnemonic draws.stores_mnemonic wallet.id (encrypted world wallet draws)
          ∷ needs draws.inserts_account io_error
          ∷ puts_challenge draws
          ∷ []))

unfoldable pub restore_steps : World → Request → Draws → List Step
unfolding wrap_dek encrypt_mnemonic wallet_dir
restore_steps world request draws =
    let wallet = new_wallet software request draws in
    checks request (
      needs (is_phrase draws.phrase) invalid_seed_phrase
      ∷ stored world wallet false request draws (
          encrypts (encrypted world wallet draws)
          ∷ needs draws.initializes_db io_error
          ∷ needs draws.creates_account io_error
          ∷ puts_mnemonic draws.stores_mnemonic wallet.id (encrypted world wallet draws)
          ∷ needs draws.inserts_account io_error
          ∷ []))

unfoldable pub keystone_steps : World → Request → Draws → List Step
unfolding wrap_dek wallet_dir
keystone_steps world request draws = checks request (
    needs draws.parses_ufvk invalid_ufvk
    ∷ stored world (new_wallet watch_only request draws) false request draws (
        needs draws.initializes_db io_error
        ∷ needs draws.parses_derivation invalid_request
        ∷ needs draws.creates_account io_error
        ∷ needs draws.inserts_account io_error
        ∷ []))

module _ {ℓ} {S : Type ℓ} (world : World) (m : Manager S) (request : Request) (draws : Draws) where
  unfoldable pub create_wallet : Manager S × Result WalletInfo
  unfolding create_steps run_steps
  create_wallet =
      activated world (new_wallet software request draws) draws
        (run_steps (create_steps world request draws) m)

  unfoldable pub restore_wallet : Manager S × Result WalletInfo
  unfolding restore_steps run_steps
  restore_wallet =
      activated world (new_wallet software request draws) draws
        (run_steps (restore_steps world request draws) m)

  unfoldable pub create_keystone_wallet : Manager S × Result WalletInfo
  unfolding keystone_steps run_steps
  create_keystone_wallet =
      activated world (new_wallet watch_only request draws) draws
        (run_steps (keystone_steps world request draws) m)
