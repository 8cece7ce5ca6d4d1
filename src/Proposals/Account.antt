-- ===== src/Proposals/Account.antt =====
-- The account of a wallet's database that stands for a number: `resolve_wallet_account_uuid` of
-- crates/zbag-engine/src/tx_service.rs, and the key sources of account_key_source.rs. A `u32` and the id
-- of an account are numbers.
use zbag_app_tauri.Base.{
  ℕ, Bool, false, ◌||◌, List, [], ◌∷◌, ◌++◌, Option, none, some, Text, text, ◌==◌, if◌then◌else◌,
}
use zbag_app_tauri.Base.Results.{Result, err, account_not_found, io_error, ok_or}
use zbag_app_tauri.Encryption.{digits}
use zbag_app_tauri.Swap.Amounts.{parse_unsigned}

-- An account of the wallet's database, with the index of its derivation.
pub record WalletAccount : Type 0 where
  pub uuid : ℕ
  pub key_source : Option Text
  pub derivation : Option ℕ

abbrev pub u32_modulus : ℕ
u32_modulus = 4294967296

abbrev pub account_id_key_source_prefix : Text
account_id_key_source_prefix = text "zbag-account-id:"

unfoldable pub key_source_for_account_id : ℕ → Text
unfolding digits
key_source_for_account_id account_id = account_id_key_source_prefix ++ digits 10 account_id

unfoldable pub strip_prefix : Text → Text → Option Text
strip_prefix [] s = some s
strip_prefix (p ∷ ps) [] = none
strip_prefix (p ∷ ps) (c ∷ s) = if p == c then strip_prefix ps s else none

unfoldable pub parse_account_id_from_key_source : Text → Option ℕ
unfolding strip_prefix parse_unsigned
parse_account_id_from_key_source key_source =
    elim (strip_prefix account_id_key_source_prefix key_source) [
      | none ↦ none
      | some s ↦ parse_unsigned u32_modulus s
    ]

abbrev pub is_id : ℕ → Option ℕ → Bool
is_id account_id none = false
is_id account_id (some n) = n == account_id

abbrev pub named_by : ℕ → Option Text → Bool
unfolding parse_account_id_from_key_source
named_by account_id none = false
named_by account_id (some key_source) =
    is_id account_id (parse_account_id_from_key_source key_source)

unfoldable pub find_account : ℕ → List WalletAccount → Option ℕ
unfolding parse_account_id_from_key_source
find_account account_id [] = none
find_account account_id (a ∷ accounts) =
    let later = find_account account_id accounts in
    if named_by account_id a.key_source || is_id account_id a.derivation then some a.uuid else later

unfoldable pub resolve_wallet_account_uuid : Option (List WalletAccount) → ℕ → Result ℕ
unfolding find_account
resolve_wallet_account_uuid none account_id = err io_error
resolve_wallet_account_uuid (some accounts) account_id =
    ok_or (find_account account_id accounts) account_not_found
