-- ===== src/Encryption/Accepted.antt =====
-- Which parameters are accepted, and that accepted ones reach the key derivation.
use zbag_app_tauri.Base.{
  ℕ, ◌*◌, ◌≤◌, ◌≡◌, ◌≢◌, ◌↔◌, true, List, some, arith, Text, text_eq→eq, text_eq_refl, length,
}
use zbag_app_tauri.Encryption.{
  WalletKdfParams, done, failed, Crypto, argon2id, validate_and_decode_kdf_salt, derive_kek,
  invalid_kdf_params, memory_overflow,
}

-- The key derivation parameters that the program supports, with their salt.
pub record IsSupported (crypto : Crypto) (kdf : WalletKdfParams) (salt : List ℕ) : Type 0 where
  pub algorithm_lem : kdf.algorithm ≡ argon2id
  pub version_lem : kdf.version ≡ 1
  pub memory_low : 1 ≤ kdf.memory_mib
  pub memory_high : kdf.memory_mib ≤ 256
  pub iterations_low : 1 ≤ kdf.iterations
  pub iterations_high : kdf.iterations ≤ 100
  pub parallelism_low : 1 ≤ kdf.parallelism
  pub parallelism_high : kdf.parallelism ≤ 16
  pub salt_lem : crypto.decode_salt kdf.salt_b64 ≡ some salt
  pub salt_low : 8 ≤ length salt

supported :
    (crypto : Crypto) (kdf : WalletKdfParams) (salt : List ℕ)
    → validate_and_decode_kdf_salt crypto kdf ≡ done salt
    → IsSupported crypto kdf salt
unfolding validate_and_decode_kdf_salt
supported crypto kdf salt h = ground (arith, text_eq→eq kdf.algorithm argon2id)

accepted :
    (crypto : Crypto) (kdf : WalletKdfParams) (salt : List ℕ)
    → IsSupported crypto kdf salt
    → validate_and_decode_kdf_salt crypto kdf ≡ done salt
unfolding validate_and_decode_kdf_salt
accepted crypto kdf salt h = ground (arith, h, text_eq_refl argon2id)

-- The parameters are accepted, and give a salt, exactly when the algorithm and version are the
-- supported ones, the memory, iterations and parallelism are within their bounds, and the decoded
-- salt has at least eight bytes.
pub validate_kdf-IsSupported :
    (crypto : Crypto) (kdf : WalletKdfParams) (salt : List ℕ)
    → (validate_and_decode_kdf_salt crypto kdf ≡ done salt) ↔ IsSupported crypto kdf salt
validate_kdf-IsSupported crypto kdf salt = (supported crypto kdf salt, accepted crypto kdf salt)

-- Under accepted parameters the memory in KiB does not overflow, and the key derivation is not
-- refused, given that the library takes every setting whose iterations and parallelism are at
-- least one and whose memory is at least 8 KiB for each lane.
pub derive_kek-validate :
    (crypto : Crypto) (kdf : WalletKdfParams) (salt : List ℕ) (password : Text)
    → ((m t p : ℕ) → 1 ≤ t → 1 ≤ p → 8 * p ≤ m → crypto.params m t p ≡ true)
    → validate_and_decode_kdf_salt crypto kdf ≡ done salt
    → (derive_kek crypto password kdf salt ≢ failed memory_overflow)
      × (derive_kek crypto password kdf salt ≢ failed invalid_kdf_params)
unfolding derive_kek
derive_kek-validate crypto kdf salt password takes h =
    let s : IsSupported crypto kdf salt = supported crypto kdf salt h in
    let low : 8 * kdf.parallelism ≤ kdf.memory_mib * 1024 =
      omega (arith, s.parallelism_high, s.memory_low) in
    let t =
      takes (kdf.memory_mib * 1024) kdf.iterations kdf.parallelism s.iterations_low
        s.parallelism_low low in
    (ground (arith, t, s.memory_high), ground (arith, t, s.memory_high))
