-- ===== src/Wallets/Access.antt =====
-- What a password or a token opens: `reauth_wallet`, `consume_reauth_token`, `view_seed_phrase` and the
-- reading of the stored phrase (crates/zbag-engine/src/wallet_manager.rs).
pub mod Seed
use zbag_app_tauri.Base.{
  ℕ, ◌+◌, ◌-◌, ◌*◌, Bool, true, false, not, ◌&&◌, List, [], ◌∷◌, ◌++◌, Option, none, some, Text,
  is_whitespace, leb, ltb, ◌==◌, if◌then◌else◌,
}
use zbag_app_tauri.Base.Maps.{lookup}
use zbag_app_tauri.Base.Results.{
  Result, ok, err, ErrorCode, invalid_request, wallet_not_found, internal_error, io_error,
  reauth_token_invalid, reauth_token_expired, watch_only_no_seed, ◌>>=◌, ◌>>◌, ok_or,
}
use zbag_app_tauri.Encryption.{Fallible, done, failed}
use zbag_app_tauri.Encryption.Mnemonic.{decrypt_mnemonic_bytes}
use zbag_app_tauri.Reauth
use zbag_app_tauri.Reauth.{
  ReauthPurpose, ReauthError, invalid, expired, Tokens, issue, validate_and_consume,
}
use zbag_app_tauri.Servers.{Network}
use zbag_app_tauri.Wallets.{
  WalletInfo, Manager, World, key_of_password, require_unlocked_wallet_snapshot, watch_only_id,
}

-- `String::from_utf8`: between characters, or with bytes to come, of which the next one lies
-- between two bounds.
pub data Utf8 : Type 0 where
  ready : Utf8
  wanting : ℕ → ℕ → ℕ → ℕ → Utf8

abbrev pub first_of : ℕ → Option (Utf8 × Text)
first_of b =
    if ltb b 0x80
    then some (ready, b ∷ [])
    else (if leb 0xc2 b && leb b 0xdf
        then some (wanting 0 (b - 0xc0) 0x80 0xbf, [])
        else (if b == 0xe0
            then some (wanting 1 0 0xa0 0xbf, [])
            else (if b == 0xed
                then some (wanting 1 (b - 0xe0) 0x80 0x9f, [])
                else (if leb 0xe1 b && leb b 0xef
                    then some (wanting 1 (b - 0xe0) 0x80 0xbf, [])
                    else (if b == 0xf0
                        then some (wanting 2 0 0x90 0xbf, [])
                        else (if leb 0xf1 b && leb b 0xf3
                            then some (wanting 2 (b - 0xf0) 0x80 0xbf, [])
                            else (if b == 0xf4
                                then some (wanting 2 4 0x80 0x8f, [])
                                else none)))))))

abbrev pub next_of : ℕ → ℕ → ℕ → Option (Utf8 × Text)
next_of more acc b =
    let said = acc * 64 + (b - 0x80) in
    if more == 0 then some (ready, said ∷ []) else some (wanting (more - 1) said 0x80 0xbf, [])

abbrev pub utf8_step : Utf8 → ℕ → Option (Utf8 × Text)
utf8_step ready b = first_of b
utf8_step (wanting more acc low high) b =
    if leb low b && leb b high then next_of more acc b else none

abbrev pub joined : Text → Option Text → Option Text
joined said none = none
joined said (some rest) = some (said ++ rest)

unfoldable pub from_utf8 : Utf8 → List ℕ → Option Text
from_utf8 ready [] = some []
from_utf8 (wanting more acc low high) [] = none
from_utf8 state (b ∷ bs) = elim (utf8_step state b) [
  | none ↦ none
  | some (next, said) ↦ joined said (from_utf8 next bs)
]

abbrev pub flush : Text → List Text → List Text
flush [] words = words
flush (c ∷ word) words = (c ∷ word) ∷ words

unfoldable pub words_after : Text → Text → List Text
unfolding is_whitespace
words_after word [] = flush word []
words_after word (c ∷ s) =
    flush (if is_whitespace c then word else [])
      (words_after (if is_whitespace c then [] else word ++ (c ∷ [])) s)

unfoldable pub split_whitespace : Text → List Text
unfolding words_after
split_whitespace s = words_after [] s

abbrev pub phrase_of : Fallible (List ℕ) → Result Text
phrase_of (failed e) = err io_error
phrase_of (done plaintext) = ok_or (from_utf8 ready plaintext) internal_error

unfoldable pub decrypt_mnemonic {ℓ} :
    {S : Type ℓ} → World → Manager S → ℕ → Network → List ℕ → Result Text
unfolding lookup decrypt_mnemonic_bytes from_utf8
decrypt_mnemonic world m wallet_id network dek = do
  stored ← ok_or (lookup wallet_id m.mnemonics) internal_error
  phrase_of (decrypt_mnemonic_bytes world.crypto wallet_id network dek stored)

abbrev pub token_result : Option ReauthError → Result (Unit {0})
token_result none = ok tt
token_result (some invalid) = err reauth_token_invalid
token_result (some expired) = err reauth_token_expired

module _ {ℓ} {S : Type ℓ} where
  unfoldable pub consume_reauth_token :
      Manager S → ℕ → ℕ → ℕ → ReauthPurpose → Manager S × Result (Unit {0})
  unfolding validate_and_consume
  consume_reauth_token m wallet_id token now purpose =
      let (tokens, e) = validate_and_consume m.reauth token now wallet_id purpose in
      (record m { reauth = tokens }, token_result e)

  abbrev pub issue_token :
      Manager S → ℕ → ℕ → ℕ → ReauthPurpose → Result (List ℕ) → Manager S × Result (ℕ × ℕ)
  issue_token m wallet_id token now purpose (err e) = (m, err e)
  issue_token m wallet_id token now purpose (ok dek) =
      let (tokens, expires_at) = issue m.reauth token now wallet_id purpose in
      (record m { reauth = tokens }, ok (token, expires_at))

  abbrev pub reauth_found :
      World
      → Manager S
      → ℕ
      → Text
      → ℕ
      → ℕ
      → ReauthPurpose
      → Option (WalletInfo × Text)
      → Manager S × Result (ℕ × ℕ)
  reauth_found world m wallet_id password token now purpose none = (m, err wallet_not_found)
  reauth_found world m wallet_id password token now purpose (some (wallet, directory)) =
      issue_token m wallet_id token now purpose
        (key_of_password world m wallet_id wallet.network password)

  -- `token` is the new token, and the outcome has its expiry.
  unfoldable pub reauth_wallet :
      World → Manager S → ℕ → Text → ℕ → ℕ → ReauthPurpose → Manager S × Result (ℕ × ℕ)
  unfolding lookup key_of_password issue
  reauth_wallet world m wallet_id [] token now purpose = (m, err invalid_request)
  reauth_wallet world m wallet_id (c ∷ password) token now purpose =
      reauth_found world m wallet_id (c ∷ password) token now purpose (lookup wallet_id m.wallets)

  -- The words of the stored phrase, for the wallet that is unlocked.
  unfoldable pub stored_words : World → Manager S → ℕ → Result (List Text)
  unfolding require_unlocked_wallet_snapshot decrypt_mnemonic split_whitespace
  stored_words world m wallet_id = do
    found ← require_unlocked_wallet_snapshot m wallet_id
    phrase ← decrypt_mnemonic world m found.0.id found.0.network found.1
    ok (split_whitespace phrase)

  abbrev pub view_with_token :
      World → ℕ → Manager S × Result (Unit {0}) → Manager S × Result (List Text)
  view_with_token world wallet_id (m, err e) = (m, err e)
  view_with_token world wallet_id (m, ok u) = (m, stored_words world m wallet_id)

  unfoldable pub view_seed_phrase : World → Manager S → ℕ → ℕ → ℕ → Manager S × Result (List Text)
  unfolding consume_reauth_token stored_words
  view_seed_phrase world m wallet_id reauth_token now =
      if watch_only_id wallet_id m.active_wallet
      then (m, err watch_only_no_seed)
      else view_with_token world wallet_id
          (consume_reauth_token m wallet_id reauth_token now Reauth.view_seed_phrase)
