-- ===== src/SendRules.antt =====
-- The checks before a send in crates/zbag-engine/src/tx_service.rs: what a recipient and a memo may
-- be, and which accounts may spend. A memo is the list of its UTF-8 bytes. What the database holds
-- for the wallet's backup and the account's type are arguments; `none` is a missing row, and a
-- failure of the database is left out.
pub mod Allowed
use zbag_app_tauri.Base.{
  ℕ, Bool, true, false, ◌||◌, List, Option, none, some, Text, text, text_eq, length, ltb,
  if◌then◌else◌,
}
use zbag_app_tauri.Base.Results.{
  Result, ok, err, ErrorCode, memo_not_allowed, privacy_ack_required, memo_too_long,
  backup_required, account_not_found, watch_only_cannot_spend, ◌>>=◌, ◌>>◌,
}

pub data RecipientKind : Type 0 where
  orchard sapling transparent : RecipientKind

abbrev pub check_length : Option (List ℕ) → Result (Unit {0})
check_length none = ok tt
check_length (some memo) = if ltb 512 (length memo) then err memo_too_long else ok tt

abbrev pub check_transparent : RecipientKind → Option (List ℕ) → Bool → Result (Unit {0})
check_transparent orchard memo allow = ok tt
check_transparent sapling memo allow = ok tt
check_transparent transparent (some memo) allow = err memo_not_allowed
check_transparent transparent none allow = if allow then ok tt else err privacy_ack_required

unfoldable pub enforce_privacy_and_memo_rules :
    RecipientKind → Option (List ℕ) → Bool → Result (Unit {0})
enforce_privacy_and_memo_rules recipient_kind memo allow_transparent_recipient = do
  check_transparent recipient_kind memo allow_transparent_recipient
  check_length memo

unfoldable pub hardware_signer : Text
hardware_signer = text "HardwareSigner"

unfoldable pub watch_only : Text
watch_only = text "WatchOnly"

-- A wallet without a row requires its backup.
unfoldable pub ensure_backup_complete : Option Bool → Result (Unit {0})
ensure_backup_complete none = err backup_required
ensure_backup_complete (some required) = if required then err backup_required else ok tt

abbrev pub check_account : Option Text → Result (Unit {0})
check_account none = err account_not_found
check_account (some account_type) =
    if text_eq account_type hardware_signer || text_eq account_type watch_only
    then err watch_only_cannot_spend
    else ok tt

unfoldable pub ensure_spend_allowed_conn : Option Bool → Option Text → Result (Unit {0})
unfolding ensure_backup_complete
ensure_spend_allowed_conn backup account_type = do
  ensure_backup_complete backup
  check_account account_type
