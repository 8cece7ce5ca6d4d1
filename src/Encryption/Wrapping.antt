-- ===== src/Encryption/Wrapping.antt =====
-- A wrapped key opens to the key that was wrapped, and to no other.
use zbag_app_tauri.Base.{
  ℕ, ◌+◌, ◌≡◌, ◌↔◌, refl, Bool, true, false, List, Option, none, some, arith, Text, length, ==→eq,
  ◌==◌, sym,
}
use zbag_app_tauri.Servers.{Network}
use zbag_app_tauri.Encryption.{
  WalletKdfParams, WalletAeadParams, Fallible, done, failed, EncryptionError, ◌>>=◌, ◌>>◌, require,
  wrap_failed, unwrap_failed, invalid_dek_length, invalid_wrapped_base64, invalid_wrapped_length,
  Crypto, Decoded, bytes, too_small, invalid, dek_len, wrapped_dek_len, done_or, exactly,
  validate_and_decode_kdf_salt, validate_and_decode_aead_nonce, derive_kek, aead_aad, wrap_dek,
  unwrap_dek,
}

-- What the libraries promise: base64 decodes what it encodes, into a buffer of the right length, and
-- nothing else; the cipher decrypts what it encrypts, and nothing else, with a tag of 16 bytes.
pub record Sound (crypto : Crypto) : Type 0 where
  pub decode-encode :
      (b : List ℕ)
      → length b ≡ wrapped_dek_len
      → crypto.decode_slice wrapped_dek_len (crypto.encode b) ≡ bytes b
  pub encode-decode :
      (s : Text) (b : List ℕ)
      → crypto.decode_slice wrapped_dek_len s ≡ bytes b
      → crypto.encode b ≡ s
  pub decrypt-encrypt :
      (key nonce : List ℕ) (aad : Text) (m c : List ℕ)
      → crypto.encrypt key nonce aad m ≡ some c
      → crypto.decrypt key nonce aad c ≡ some m
  pub encrypt-decrypt :
      (key nonce : List ℕ) (aad : Text) (m c : List ℕ)
      → crypto.decrypt key nonce aad c ≡ some m
      → crypto.encrypt key nonce aad m ≡ some c
  pub length-encrypt :
      (key nonce : List ℕ) (aad : Text) (m c : List ℕ)
      → crypto.encrypt key nonce aad m ≡ some c
      → length c ≡ length m + 16

-- What a successful step was.
pub bind_done {ℓ ℓ'} :
    {A : Type ℓ} {B : Type ℓ'} (r : Fallible A) (f : A → Fallible B) (b : B)
    → (r >>= f) ≡ done b
    → (a : A) × (r ≡ done a) × (f a ≡ done b)
bind_done (done a) f b h = (a, refl, h)
bind_done (failed e) f b h = cc

pub done_or-some {ℓ} :
    {A : Type ℓ} (o : Option A) (e : EncryptionError) (a : A) → done_or o e ≡ done a → o ≡ some a
done_or-some none e a h = cc
done_or-some (some b) e a h = cc

pub require_done {ℓ} :
    {A : Type ℓ} (b : Bool) (e : EncryptionError) (r : Fallible A) (a : A)
    → (require b e >> r) ≡ done a
    → (b ≡ true) × (r ≡ done a)
require_done true e r a h = (refl, h)
require_done false e r a h = cc

pub exactly_done :
    (n : ℕ) (e f : EncryptionError) (d : Decoded) (b : List ℕ)
    → exactly n e f d ≡ done b
    → (d ≡ bytes b) × (length b ≡ n)
exactly_done n e f (bytes c) b h = (ground arith, ground arith)
exactly_done n e f too_small b h = cc
exactly_done n e f invalid b h = cc

-- The last steps of an unwrapping.
opened :
    (o : Option (List ℕ)) (dek : List ℕ)
    → (done_or o unwrap_failed
        >>= (λ m. require (length m == dek_len) invalid_dek_length >> done m))
      ≡ done dek
    → (o ≡ some dek) × (length dek ≡ dek_len)
opened none dek h = cc
opened (some m) dek h =
    let l = require_done (length m == dek_len) invalid_dek_length (done m) dek h in
    let m_eq : m ≡ dek = cc in let k = ==→eq (length m) dek_len l.0 in (cc, cc)

module _ (crypto : Crypto) (wallet_id : ℕ) (network : Network) (password : Text) where
  module _ (kdf : WalletKdfParams) (aead : WalletAeadParams) (dek : List ℕ) (w : Text) where
    -- The steps that a successful wrapping and a successful unwrapping both take.
    record Steps : Type 0 where
      salt : List ℕ
      nonce : List ℕ
      kek : List ℕ
      ciphertext : List ℕ
      salt_lem : validate_and_decode_kdf_salt crypto kdf ≡ done salt
      nonce_lem : validate_and_decode_aead_nonce crypto aead ≡ done nonce
      kek_lem : derive_kek crypto password kdf salt ≡ done kek
      sealed :
          crypto.encrypt kek nonce (aead_aad crypto wallet_id network aead) dek ≡ some ciphertext
      encoded : crypto.encode ciphertext ≡ w

    wrap-Steps : wrap_dek crypto wallet_id network password kdf aead dek ≡ done w → Steps
    unfolding wrap_dek
    wrap-Steps h =
        let (salt, s, h1) = bind_done (validate_and_decode_kdf_salt crypto kdf) _ w h in
        let (nonce, n, h2) = bind_done (validate_and_decode_aead_nonce crypto aead) _ w h1 in
        let (kek, k, h3) = bind_done (derive_kek crypto password kdf salt) _ w h2 in
        let aad = aead_aad crypto wallet_id network aead in
        let (c, e, h4) =
          bind_done (done_or (crypto.encrypt kek nonce aad dek) wrap_failed) _ w h3 in
        (record {
          salt = salt;
          nonce = nonce;
          kek = kek;
          ciphertext = c;
          salt_lem = s;
          nonce_lem = n;
          kek_lem = k;
          sealed = done_or-some (crypto.encrypt kek nonce aad dek) wrap_failed c e;
          encoded = cc;
        })

    Steps-wrap : Steps → wrap_dek crypto wallet_id network password kdf aead dek ≡ done w
    unfolding wrap_dek
    Steps-wrap s = rw (s.salt_lem, s.nonce_lem, s.kek_lem, s.sealed, s.encoded) refl

    unwrap-Steps :
        Sound crypto
        → unwrap_dek crypto wallet_id network password kdf aead w ≡ done dek
        → Steps × (length dek ≡ dek_len)
    unfolding unwrap_dek
    unwrap-Steps sound h =
        let (salt, s, h1) = bind_done (validate_and_decode_kdf_salt crypto kdf) _ dek h in
        let (nonce, n, h2) = bind_done (validate_and_decode_aead_nonce crypto aead) _ dek h1 in
        let (kek, k, h3) = bind_done (derive_kek crypto password kdf salt) _ dek h2 in
        let aad = aead_aad crypto wallet_id network aead in
        let slice = crypto.decode_slice wrapped_dek_len w in
        let (c, e, h4) =
          bind_done (exactly wrapped_dek_len invalid_wrapped_base64 invalid_wrapped_length slice) _
            dek h3 in
        let d =
          exactly_done wrapped_dek_len invalid_wrapped_base64 invalid_wrapped_length slice c e in
        let (o, l) = opened (crypto.decrypt kek nonce aad c) dek h4 in
        (
          record {
            salt = salt;
            nonce = nonce;
            kek = kek;
            ciphertext = c;
            salt_lem = s;
            nonce_lem = n;
            kek_lem = k;
            sealed = sound.encrypt-decrypt kek nonce aad dek c o;
            encoded = sound.encode-decode w c d.0;
          },
          l,
        )

    Steps-unwrap :
        Sound crypto
        → length dek ≡ dek_len
        → Steps
        → unwrap_dek crypto wallet_id network password kdf aead w ≡ done dek
    unfolding unwrap_dek
    Steps-unwrap sound len s =
        let aad = aead_aad crypto wallet_id network aead in
        let c : length s.ciphertext ≡ wrapped_dek_len =
          omega (arith, sound.length-encrypt s.kek s.nonce aad dek s.ciphertext s.sealed, len) in
        let slice : crypto.decode_slice wrapped_dek_len w ≡ bytes s.ciphertext =
          rw (sym s.encoded) (sound.decode-encode s.ciphertext c) in
        rw
          (
            s.salt_lem,
            s.nonce_lem,
            s.kek_lem,
            slice,
            c,
            sound.decrypt-encrypt s.kek s.nonce aad dek s.ciphertext s.sealed,
            len,
          )
          refl

    -- Unwrapping gives a key exactly when that key has 32 bytes and wrapping it, for the same wallet,
    -- network, password and parameters, gives the text; the libraries do what `Sound` says.
    pub unwrap_dek-wrap_dek :
        Sound crypto
        → (unwrap_dek crypto wallet_id network password kdf aead w ≡ done dek) ↔ (
            (wrap_dek crypto wallet_id network password kdf aead dek ≡ done w)
            × (length dek ≡ dek_len))
    unwrap_dek-wrap_dek sound = (
      λ h. let s = unwrap-Steps sound h in (Steps-wrap s.0, s.1),
      λ h. Steps-unwrap sound h.1 (wrap-Steps h.0),
    )
