-- ===== src/Examples/Toy.antt =====
-- Libraries that stand in for base64, Argon2 and the cipher: text is its own encoding, the key is the
-- password, and the tag is sixteen zeros in front.
use zbag_app_tauri.Base.{
  ℕ, zero, suc, ◌+◌, ◌≡◌, refl, ap, List, [], ◌∷◌, true, Option, none, some, arith, Text, text,
  ◌==◌, some_eq, subst, length, if◌then◌else◌,
}
use zbag_app_tauri.Encryption.{Crypto, Decoded, bytes, too_small, WalletKdfParams, WalletAeadParams}
use zbag_app_tauri.Encryption.Wrapping.{Sound}

unfoldable pub seal : ℕ → List ℕ → List ℕ
seal zero m = m
seal (suc n) m = 0 ∷ seal n m

unfoldable pub unseal : ℕ → List ℕ → Option (List ℕ)
unseal zero c = some c
unseal (suc n) [] = none
unseal (suc n) (b ∷ c) = let rest = unseal n c in if b == 0 then rest else none

abbrev pub decode : ℕ → Text → Decoded
decode n s = if length s == n then bytes s else too_small

unfoldable pub crypto : Crypto
unfolding seal unseal
crypto = record {
  decode_salt = λ s. some s;
  decode_slice = decode;
  encode = λ b. b;
  params = λ m t p. true;
  hash_password = λ m t p password salt. some password;
  encrypt = λ key nonce aad m. some (seal 16 m);
  decrypt = λ key nonce aad c. unseal 16 c;
  uuid_text = λ id. id ∷ [];
}

unseal-seal : (n : ℕ) (m : List ℕ) → unseal n (seal n m) ≡ some m
unfolding seal unseal
unseal-seal zero m = refl
unseal-seal (suc n) m = unseal-seal n m

seal-unseal : (n : ℕ) (m c : List ℕ) → unseal n c ≡ some m → seal n m ≡ c
unfolding seal unseal
seal-unseal zero m c h = cc
seal-unseal (suc n) m [] h = cc
seal-unseal (suc n) m (b ∷ c) h = ground (arith, h, seal-unseal n m c)

length-seal : (n : ℕ) (m : List ℕ) → length (seal n m) ≡ length m + n
unfolding seal
length-seal zero m = omega arith
length-seal (suc n) m = omega (arith, length-seal n m)

pub crypto-Sound : Sound crypto
unfolding crypto
crypto-Sound = record {
  decode-encode = λ b e. rw e refl;
  encode-decode = λ s b h. ground (arith, h);
  decrypt-encrypt = λ key nonce aad m c h.
      subst (λ (t : List ℕ). unseal 16 t ≡ some m) (some_eq (seal 16 m) c h) (unseal-seal 16 m);
  encrypt-decrypt = λ key nonce aad m c h. ap some (seal-unseal 16 m c h);
  length-encrypt = λ key nonce aad m c h.
      subst (λ (t : List ℕ). length t ≡ length m + 16) (some_eq (seal 16 m) c h) (length-seal 16 m);
}

abbrev pub zeros : ℕ → List ℕ
zeros zero = []
zeros (suc n) = 0 ∷ zeros n

abbrev pub kdf : WalletKdfParams
kdf = record {
  algorithm = text "argon2id";
  version = 1;
  memory_mib = 64;
  iterations = 3;
  parallelism = 1;
  salt_b64 = text "sixteen bytes in";
}

abbrev pub aead : WalletAeadParams
aead = record { scheme = text "xchacha20poly1305"; version = 1; nonce_b64 = zeros 24 }

abbrev pub dek : List ℕ
dek = 7 ∷ zeros 31
