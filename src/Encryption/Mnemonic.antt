-- ===== src/Encryption/Mnemonic.antt =====
-- The mnemonic as it is stored (crates/zbag-engine/src/wallet_manager.rs): a version byte, the
-- nonce and the sealed phrase. The nonce is drawn by the caller.
use zbag_app_tauri.Base.{
  ℕ, zero, suc, ◌+◌, ◌≡◌, refl, not, List, [], ◌∷◌, ◌++◌, some, arith, Text, text, sym, length,
  length-append, take, drop, ◌==◌, ltb, ◌≤◌,
}
use zbag_app_tauri.Servers.{Network}
use zbag_app_tauri.Encryption.{
  Fallible, done, Crypto, network_debug, require, done_or, nonce_len, mnemonic_too_short,
  unsupported_mnemonic_version, mnemonic_failed, ◌>>=◌, ◌>>◌,
}
use zbag_app_tauri.Encryption.Wrapping.{Sound, bind_done, done_or-some}

unfoldable pub mnemonic_aad : Crypto → ℕ → Network → Text
unfolding network_debug
mnemonic_aad crypto wallet_id network =
    text "wallet_id="
    ++ (crypto.uuid_text wallet_id
        ++ (text ";network="
            ++ (network_debug network
                ++ text ";purpose=mnemonic;scheme=xchacha20poly1305;version=1")))

unfoldable pub encrypt_mnemonic :
    Crypto → List ℕ → ℕ → Network → List ℕ → List ℕ → Fallible (List ℕ)
unfolding mnemonic_aad
encrypt_mnemonic crypto nonce wallet_id network dek plaintext = do
  ciphertext ←
      done_or (crypto.encrypt dek nonce (mnemonic_aad crypto wallet_id network) plaintext)
        mnemonic_failed
  done (1 ∷ (nonce ++ ciphertext))

abbrev pub first_byte : List ℕ → ℕ
first_byte [] = 0
first_byte (b ∷ bs) = b

unfoldable pub decrypt_mnemonic_bytes : Crypto → ℕ → Network → List ℕ → List ℕ → Fallible (List ℕ)
unfolding mnemonic_aad
decrypt_mnemonic_bytes crypto wallet_id network dek stored = do
  require (not (ltb (length stored) (1 + 24 + 16))) mnemonic_too_short
  require (first_byte stored == 1) unsupported_mnemonic_version
  done_or
      (crypto.decrypt dek (take nonce_len (drop 1 stored)) (mnemonic_aad crypto wallet_id network)
        (drop (1 + nonce_len) stored))
      mnemonic_failed

take-append : (n : ℕ) (b c : List ℕ) → length b ≡ n → take n (b ++ c) ≡ b
take-append zero [] c h = refl
take-append zero (x ∷ b) c h = ground arith
take-append (suc n) [] c h = ground arith
take-append (suc n) (x ∷ b) c h = ground (arith, take-append n b c)

drop-append : (n : ℕ) (b c : List ℕ) → length b ≡ n → drop n (b ++ c) ≡ c
drop-append zero [] c h = refl
drop-append zero (x ∷ b) c h = ground arith
drop-append (suc n) [] c h = ground arith
drop-append (suc n) (x ∷ b) c h = ground (arith, drop-append n b c)

module _ (crypto : Crypto) (wallet_id : ℕ) (network : Network) (dek plaintext : List ℕ) where
  open_stored :
      (nonce c : List ℕ)
      → length nonce ≡ nonce_len
      → 16 ≤ length c
      → crypto.decrypt dek nonce (mnemonic_aad crypto wallet_id network) c ≡ some plaintext
      → decrypt_mnemonic_bytes crypto wallet_id network dek (1 ∷ (nonce ++ c)) ≡ done plaintext
  unfolding decrypt_mnemonic_bytes
  open_stored nonce c n l d =
      rw (take-append 24 nonce c n, drop-append 24 nonce c n, d)
        (ground (arith, length-append nonce c))

  -- What is stored for a phrase, under a nonce of 24 bytes, opens to that phrase for the same wallet,
  -- network and key; the libraries do what `Sound` says.
  pub encrypt-decrypt_mnemonic :
      (nonce stored : List ℕ)
      → Sound crypto
      → length nonce ≡ nonce_len
      → encrypt_mnemonic crypto nonce wallet_id network dek plaintext ≡ done stored
      → decrypt_mnemonic_bytes crypto wallet_id network dek stored ≡ done plaintext
  unfolding encrypt_mnemonic
  encrypt-decrypt_mnemonic nonce stored sound n h =
      let aad = mnemonic_aad crypto wallet_id network in
      let (c, o, e) =
        bind_done (done_or (crypto.encrypt dek nonce aad plaintext) mnemonic_failed) _ stored h in
      let s = done_or-some (crypto.encrypt dek nonce aad plaintext) mnemonic_failed c o in
      let same : 1 ∷ (nonce ++ c) ≡ stored = cc in
      rw (sym same) (
        open_stored nonce c n (omega (arith, sound.length-encrypt dek nonce aad plaintext c s))
          (sound.decrypt-encrypt dek nonce aad plaintext c s))
