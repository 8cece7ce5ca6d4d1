-- ===== src/Proposals/Prepare.antt =====
-- A send is prepared: `prepare_send` of crates/zbag-engine/src/tx_service.rs, with what it asks of the
-- zcash libraries, for the wallet's network, as the fields of `Outside`. A memo is the list of its
-- UTF-8 bytes.
pub mod Send
pub mod Amounts
pub mod Sound
pub mod Kept
use zbag_app_tauri.Base.{
  ℕ, ◌+◌, ◌%◌, ◌/◌, min, Bool, true, false, not, ◌&&◌, ◌||◌, ◌-◌, List, [], ◌∷◌, ◌++◌, Option, none,
  some, Text, text, contains_any, trim, length, starts_with, ◌==◌, ltb, leb, if◌then◌else◌,
}
use zbag_app_tauri.Base.Int.{i64_max}
use zbag_app_tauri.Base.Maps.{Map, insert}
use zbag_app_tauri.Base.Results.{
  Result, ok, err, ErrorCode, invalid_request, invalid_recipient, memo_too_long, internal_error,
  transparent_spend_blocked, insufficient_funds, transaction_failed, account_not_found, io_error,
  ◌>>=◌, ◌>>◌, fail_if, ok_or,
}
use zbag_app_tauri.Proposals.Account.{WalletAccount}
use zbag_app_tauri.Encryption.{digits}
use zbag_app_tauri.Proposals.{ProposalRecord}
use zbag_app_tauri.SendRules.{
  RecipientKind, orchard, sapling, transparent, enforce_privacy_and_memo_rules,
  ensure_spend_allowed_conn,
}
use zbag_app_tauri.Swap.Amounts.{u64_modulus, parse_unsigned}

-- What the code looks at in a decoded address: for a unified one, whether it has a receiver for
-- Orchard, for Sapling and for transparent funds.
pub data Address : Type 0 where
  unified : (orchard sapling transparent : Bool) → Address
  sapling_address transparent_address tex_address : Address

-- A step of a proposal: its fee, and how many transparent inputs it has.
pub record Step : Type 0 where
  pub fee_required : ℕ
  pub transparent_inputs : ℕ

pub record Balance : Type 0 where
  pub shielded_spendable : Text
  pub shielded_pending : Text
  pub transparent_total : Text

-- The answer to a proposal: the text of an error, or the steps.
pub data Proposing : Type 0 where
  refused : Text → Proposing
  proposed : List Step → Proposing

-- `none` of `get_balance` is a failure of the wallet's database, and so is `none` of `accounts`, before
-- the account is found.
pub record Outside (A : Type 0) : Type 0 where
  pub max_money : ℕ
  pub decode : Text → Option A
  pub kind : A → Address
  pub memo_fits : List ℕ → Bool
  pub get_balance : Option Balance
  pub accounts : Option (List WalletAccount)
  pub propose : ℕ → A → ℕ → Option (List ℕ) → Proposing

pub record TransactionSummary : Type 0 where
  pub recipient : Text
  pub recipient_kind : RecipientKind
  pub amount : Text
  pub fee : Text
  pub memo_present : Bool
  pub total_spend : Text

-- A proposal of `zcash_client_backend` is its steps.
pub record Proposed : Type 0 where
  pub steps : List Step
  pub summary : TransactionSummary

abbrev pub is_empty : Text → Bool
is_empty [] = true
is_empty (c ∷ s) = false

-- A `Zatoshis` has at most `max_money`.
abbrev pub zatoshis : ℕ → ErrorCode → ℕ → Result ℕ
zatoshis max_money e n = if leb n max_money then ok n else err e

unfoldable pub parse_zatoshis : ℕ → Text → Result ℕ
unfolding trim parse_unsigned
parse_zatoshis max_money value = do
  fail_if (is_empty (trim value)) invalid_request
  parsed ← ok_or (parse_unsigned u64_modulus (trim value)) invalid_request
  zatoshis max_money invalid_request parsed

unfoldable pub recipient_kind_of : Address → Option RecipientKind
recipient_kind_of (unified has_orchard has_sapling has_transparent) =
    if has_orchard
    then some orchard
    else (if has_sapling
        then some sapling
        else (if has_transparent then some transparent else none))
recipient_kind_of sapling_address = some sapling
recipient_kind_of transparent_address = some transparent
recipient_kind_of tex_address = some transparent

-- `saturating_add` of a `u64`.
abbrev pub add64 : ℕ → ℕ → ℕ
add64 a b = min (a + b) (u64_modulus - 1)

unfoldable pub sum_fees : ℕ → List Step → ℕ
sum_fees total [] = total
sum_fees total (s ∷ steps) = sum_fees (add64 total s.fee_required) steps

unfoldable pub proposal_total_fee : ℕ → List Step → Result ℕ
unfolding sum_fees
proposal_total_fee max_money steps = zatoshis max_money internal_error (sum_fees 0 steps)

unfoldable pub has_transparent_inputs : List Step → Bool
has_transparent_inputs [] = false
has_transparent_inputs (s ∷ steps) = not (s.transparent_inputs == 0) || has_transparent_inputs steps

-- Transparent funds would do, if they were shielded.
abbrev pub blocked_by_transparent : (spendable transparent_total amount : ℕ) → Bool
blocked_by_transparent spendable transparent_total amount =
    ltb spendable amount
    && (ltb 0 transparent_total && leb amount (add64 spendable transparent_total))

abbrev pub only_pending : (spendable pending amount : ℕ) → Bool
only_pending spendable pending amount =
    ltb spendable amount && (ltb 0 pending && leb amount (add64 spendable pending))

abbrev pub insufficient_markers : List Text
insufficient_markers = text "Insufficient balance" ∷ text "Insufficient funds" ∷ []

unfoldable pub steps_of : Bool → Proposing → Result (List Step)
unfolding contains_any
steps_of blocked (proposed steps) = ok steps
steps_of blocked (refused error) =
    if contains_any error insufficient_markers
    then (if blocked then err transparent_spend_blocked else err insufficient_funds)
    else err transaction_failed

-- `MemoBytes::from_bytes`.
abbrev pub check_memo_bytes : (List ℕ → Bool) → Option (List ℕ) → Result (Unit {0})
check_memo_bytes fits none = ok tt
check_memo_bytes fits (some memo) = if fits memo then ok tt else err memo_too_long

abbrev pub is_present : Option (List ℕ) → Bool
is_present none = false
is_present (some memo) = true

module _ {A : Type 0} (outside : Outside A) where
  unfoldable pub parse_recipient : Text → Result (A × RecipientKind)
  unfolding recipient_kind_of
  parse_recipient recipient = do
    address ← ok_or (outside.decode recipient) invalid_recipient
    kind ← ok_or (recipient_kind_of (outside.kind address)) invalid_recipient
    ok (address, kind)
