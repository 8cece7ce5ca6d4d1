-- ===== src/Encryption.antt =====
-- crates/zbag-engine/src/encryption.rs: the parameters under which a wallet's data key (DEK) is
-- wrapped by a key that the password gives, and the wrapping itself. The libraries for base64,
-- Argon2 and XChaCha20-Poly1305 are the fields of `Crypto`; bytes and characters are numbers, and a
-- `Uuid` is its number, with the library's printing.
pub mod Accepted
pub mod Wrapping
pub mod Mnemonic
use zbag_app_tauri.Base.{
  ℕ, zero, suc, ◌+◌, ◌*◌, ◌/◌, ◌%◌, ◌^◌, Bool, true, false, not, ◌&&◌, ◌||◌, List, [], ◌∷◌, ◌++◌,
  Option, none, some, ◌==◌, leb, ltb, if◌then◌else◌, Text, text, text_eq, length,
}
use zbag_app_tauri.Servers.{Network, mainnet, testnet}

pub record WalletKdfParams : Type 0 where
  pub algorithm : Text
  pub version : ℕ
  pub memory_mib : ℕ
  pub iterations : ℕ
  pub parallelism : ℕ
  pub salt_b64 : Text

pub record WalletAeadParams : Type 0 where
  pub scheme : Text
  pub version : ℕ
  pub nonce_b64 : Text

pub data EncryptionError : Type 0 where
  unsupported_kdf_algorithm unsupported_kdf_version : EncryptionError
  memory_out_of_bounds iterations_out_of_bounds parallelism_out_of_bounds : EncryptionError
  invalid_salt invalid_salt_length : EncryptionError
  unsupported_aead_scheme unsupported_aead_version : EncryptionError
  invalid_nonce_base64 invalid_nonce_length : EncryptionError
  memory_overflow invalid_kdf_params kek_failed : EncryptionError
  invalid_wrapped_base64 invalid_wrapped_length invalid_dek_length : EncryptionError
  wrap_failed unwrap_failed : EncryptionError
  mnemonic_too_short unsupported_mnemonic_version mnemonic_failed : EncryptionError

pub data Fallible {ℓ} (A : Type ℓ) : Type ℓ where
  done : A → Fallible A
  failed : EncryptionError → Fallible A

abbrev pub ◌>>=◌ {ℓ ℓ'} : {A : Type ℓ} {B : Type ℓ'} → Fallible A → (A → Fallible B) → Fallible B
◌>>=◌ r next = elim r [ failed e ↦ failed e | done a ↦ next a ]

abbrev pub ◌>>◌ {ℓ} : {A : Type ℓ} → Fallible (Unit {0}) → Fallible A → Fallible A
◌>>◌ r next = elim r [ failed e ↦ failed e | done u ↦ next ]

infixl 5 ◌>>=◌ ◌>>◌
-- Fails with `e` unless the test holds.
abbrev pub require : Bool → EncryptionError → Fallible (Unit {0})
require true e = done tt
require false e = failed e

abbrev pub done_or {ℓ} : {A : Type ℓ} → Option A → EncryptionError → Fallible A
done_or none e = failed e
done_or (some a) e = done a

-- What `decode_slice` into a buffer says: the bytes, a buffer too small, or text that is no base64.
pub data Decoded : Type 0 where
  bytes : List ℕ → Decoded
  too_small : Decoded
  invalid : Decoded

-- `decode_salt` is `Salt::from_b64` and `decode_b64`; `params` says whether `Params::new` takes the
-- memory in KiB, the iterations and the parallelism; `hash_password` takes these, the password and
-- the salt; `encrypt` and `decrypt` take the key, the nonce, the associated data and the text.
pub record Crypto : Type 0 where
  pub decode_salt : Text → Option (List ℕ)
  pub decode_slice : ℕ → Text → Decoded
  pub encode : List ℕ → Text
  pub params : ℕ → ℕ → ℕ → Bool
  pub hash_password : ℕ → ℕ → ℕ → Text → List ℕ → Option (List ℕ)
  pub encrypt : List ℕ → List ℕ → Text → List ℕ → Option (List ℕ)
  pub decrypt : List ℕ → List ℕ → Text → List ℕ → Option (List ℕ)
  pub uuid_text : ℕ → Text

unfoldable pub argon2id : Text
argon2id = text "argon2id"

unfoldable pub xchacha20poly1305 : Text
xchacha20poly1305 = text "xchacha20poly1305"

-- Between the bounds, both included.
abbrev pub between : ℕ → ℕ → ℕ → Bool
between low high n = leb low n && leb n high

abbrev pub nonce_len : ℕ
nonce_len = 24

abbrev pub dek_len : ℕ
dek_len = 32

-- The key and a tag of 16 bytes.
abbrev pub wrapped_dek_len : ℕ
wrapped_dek_len = 32 + 16

unfoldable pub validate_and_decode_kdf_salt : Crypto → WalletKdfParams → Fallible (List ℕ)
unfolding argon2id
validate_and_decode_kdf_salt crypto kdf = do
  require (text_eq kdf.algorithm argon2id) unsupported_kdf_algorithm
  require (kdf.version == 1) unsupported_kdf_version
  require (between 1 256 kdf.memory_mib) memory_out_of_bounds
  require (between 1 100 kdf.iterations) iterations_out_of_bounds
  require (between 1 16 kdf.parallelism) parallelism_out_of_bounds
  salt ← done_or (crypto.decode_salt kdf.salt_b64) invalid_salt
  require (not (ltb (length salt) 8)) invalid_salt_length
  done salt

unfoldable pub validate_kdf_params : Crypto → WalletKdfParams → Fallible (Unit {0})
unfolding validate_and_decode_kdf_salt
validate_kdf_params crypto kdf = do salt ← validate_and_decode_kdf_salt crypto kdf; done tt

-- The two errors of `decode_slice`, and a length that is not the buffer's.
abbrev pub exactly : ℕ → EncryptionError → EncryptionError → Decoded → Fallible (List ℕ)
exactly n no_base64 no_length (bytes bs) = if length bs == n then done bs else failed no_length
exactly n no_base64 no_length too_small = failed no_length
exactly n no_base64 no_length invalid = failed no_base64

unfoldable pub validate_and_decode_aead_nonce : Crypto → WalletAeadParams → Fallible (List ℕ)
unfolding xchacha20poly1305
validate_and_decode_aead_nonce crypto aead = do
  require (text_eq aead.scheme xchacha20poly1305) unsupported_aead_scheme
  require (aead.version == 1) unsupported_aead_version
  exactly nonce_len invalid_nonce_base64 invalid_nonce_length
      (crypto.decode_slice nonce_len aead.nonce_b64)

unfoldable pub validate_aead_params : Crypto → WalletAeadParams → Fallible (Unit {0})
unfolding validate_and_decode_aead_nonce
validate_aead_params crypto aead = do nonce ← validate_and_decode_aead_nonce crypto aead; done tt

-- `checked_mul` on `u32`.
abbrev pub checked_mul : ℕ → ℕ → Option ℕ
checked_mul a b = if ltb (a * b) (2 ^ 32) then some (a * b) else none

unfoldable pub derive_kek : Crypto → Text → WalletKdfParams → List ℕ → Fallible (List ℕ)
derive_kek crypto password kdf salt = do
  memory_kib ← done_or (checked_mul kdf.memory_mib 1024) memory_overflow
  require (crypto.params memory_kib kdf.iterations kdf.parallelism) invalid_kdf_params
  done_or (crypto.hash_password memory_kib kdf.iterations kdf.parallelism password salt) kek_failed

unfoldable pub network_debug : Network → Text
network_debug mainnet = text "Mainnet"
network_debug testnet = text "Testnet"

-- A `u32` in decimal; ten digits are enough.
unfoldable pub digits : ℕ → ℕ → Text
digits zero n = []
digits (suc fuel) n =
    let higher = digits fuel (n / 10) in
    if ltb n 10 then (48 + n) ∷ [] else higher ++ ((48 + n % 10) ∷ [])

unfoldable pub aead_aad : Crypto → ℕ → Network → WalletAeadParams → Text
unfolding network_debug digits
aead_aad crypto wallet_id network aead =
    text "wallet_id="
    ++ (crypto.uuid_text wallet_id
        ++ (text ";network="
            ++ (network_debug network
                ++ (text ";aead_scheme="
                    ++ (aead.scheme ++ (text ";aead_version=" ++ digits 10 aead.version))))))

unfoldable pub wrap_dek :
    Crypto → ℕ → Network → Text → WalletKdfParams → WalletAeadParams → List ℕ → Fallible Text
unfolding validate_and_decode_kdf_salt validate_and_decode_aead_nonce derive_kek aead_aad
wrap_dek crypto wallet_id network password kdf aead dek = do
  salt ← validate_and_decode_kdf_salt crypto kdf
  nonce ← validate_and_decode_aead_nonce crypto aead
  kek ← derive_kek crypto password kdf salt
  ciphertext ←
      done_or (crypto.encrypt kek nonce (aead_aad crypto wallet_id network aead) dek) wrap_failed
  done (crypto.encode ciphertext)

unfoldable pub unwrap_dek :
    Crypto → ℕ → Network → Text → WalletKdfParams → WalletAeadParams → Text → Fallible (List ℕ)
unfolding validate_and_decode_kdf_salt validate_and_decode_aead_nonce derive_kek aead_aad
unwrap_dek crypto wallet_id network password kdf aead wrapped_dek_b64 = do
  salt ← validate_and_decode_kdf_salt crypto kdf
  nonce ← validate_and_decode_aead_nonce crypto aead
  kek ← derive_kek crypto password kdf salt
  ciphertext ←
      exactly wrapped_dek_len invalid_wrapped_base64 invalid_wrapped_length
        (crypto.decode_slice wrapped_dek_len wrapped_dek_b64)
  dek ←
      done_or (crypto.decrypt kek nonce (aead_aad crypto wallet_id network aead) ciphertext)
        unwrap_failed
  require (length dek == dek_len) invalid_dek_length
  done dek
