-- ===== src/Proposals/Prepare/Send.antt =====
-- `prepare_send` of crates/zbag-engine/src/tx_service.rs.
use zbag_app_tauri.Base.{ℕ, ◌+◌, ◌%◌, Bool, List, Option, Text, ◌==◌}
use zbag_app_tauri.Base.Int.{ℤ}
use zbag_app_tauri.Base.Maps.{Map, insert}
use zbag_app_tauri.Base.Results.{
  Result, ok, err, invalid_request, internal_error, transparent_spend_blocked, insufficient_funds,
  ◌>>=◌, ◌>>◌, fail_if, ok_or,
}
use zbag_app_tauri.Encryption.{digits}
use zbag_app_tauri.Proposals.{ProposalRecord}
use zbag_app_tauri.RetryQueue.Scan.{to_unix_ms}
use zbag_app_tauri.SendRules.{
  RecipientKind, enforce_privacy_and_memo_rules, ensure_spend_allowed_conn,
}
use zbag_app_tauri.Swap.Amounts.{u64_modulus, parse_unsigned}
use zbag_app_tauri.Proposals.Account.{resolve_wallet_account_uuid}
use zbag_app_tauri.Proposals.Prepare.{
  Step, Outside, TransactionSummary, Proposed, parse_zatoshis, proposal_total_fee,
  has_transparent_inputs, blocked_by_transparent, only_pending, steps_of, check_memo_bytes,
  is_present, parse_recipient,
}

pub record PrepareSendResponse : Type 0 where
  pub proposal_id : ℕ
  pub fee : Text
  pub summary : TransactionSummary
  pub expires_at : ℤ

-- Ten minutes.
abbrev pub proposal_ttl : ℕ
proposal_ttl = 600000000000

-- The arguments of `prepare_send`, besides the wallet and what it reads in the database.
pub record SendRequest : Type 0 where
  pub account_id : ℕ
  pub recipient : Text
  pub amount_zat : Text
  pub memo : Option (List ℕ)
  pub allow_transparent_recipient : Bool

-- `to_string` of a `u64`.
unfoldable pub u64_to_string : ℕ → Text
unfolding digits
u64_to_string n = digits 20 n

unfoldable pub summarised : SendRequest → RecipientKind → ℕ → List Step → ℕ → Proposed
unfolding u64_to_string
summarised request kind amount steps fee = record {
  steps = steps;
  summary = record {
    recipient = request.recipient;
    recipient_kind = kind;
    amount = u64_to_string amount;
    fee = u64_to_string fee;
    memo_present = is_present request.memo;
    total_spend = u64_to_string ((amount + fee) % u64_modulus);
  };
}

module _ {A : Type 0} (outside : Outside A) (backup : Option Bool) (account_type : Option Text)
    (request : SendRequest) where
  -- From the balance on: the steps of the proposal.
  unfoldable pub propose_checked : A → ℕ → Result (List Step)
  unfolding parse_unsigned resolve_wallet_account_uuid steps_of
  propose_checked address amount = do
    balance ← ok_or outside.get_balance internal_error
    spendable ← ok_or (parse_unsigned u64_modulus balance.shielded_spendable) internal_error
    pending ← ok_or (parse_unsigned u64_modulus balance.shielded_pending) internal_error
    transparent_total ← ok_or (parse_unsigned u64_modulus balance.transparent_total) internal_error
    fail_if (blocked_by_transparent spendable transparent_total amount) transparent_spend_blocked
    fail_if (only_pending spendable pending amount) insufficient_funds
    account_uuid ← resolve_wallet_account_uuid outside.accounts request.account_id
    steps_of (blocked_by_transparent spendable transparent_total amount)
        (outside.propose account_uuid address amount request.memo)

  -- Up to the proposal that is kept, with its fee.
  unfoldable pub prepare : Result (Proposed × ℕ)
  unfolding ensure_spend_allowed_conn parse_zatoshis parse_recipient enforce_privacy_and_memo_rules
      propose_checked has_transparent_inputs proposal_total_fee summarised
  prepare = do
    ensure_spend_allowed_conn backup account_type
    amount ← parse_zatoshis outside.max_money request.amount_zat
    fail_if (amount == 0) invalid_request
    (address, kind) ← parse_recipient outside request.recipient
    enforce_privacy_and_memo_rules kind request.memo request.allow_transparent_recipient
    check_memo_bytes outside.memo_fits request.memo
    steps ← propose_checked address amount
    fail_if (has_transparent_inputs steps) transparent_spend_blocked
    fee ← proposal_total_fee outside.max_money steps
    ok (summarised request kind amount steps fee, fee)

unfoldable pub response_of : ℕ → Proposed → ℕ → ℤ → PrepareSendResponse
unfolding u64_to_string
response_of proposal_id proposed fee expires_at = record {
  proposal_id = proposal_id;
  fee = u64_to_string fee;
  summary = proposed.summary;
  expires_at = expires_at;
}

-- The proposal is kept before its expiry is told.
unfoldable pub keep :
    (wallet_id account_id proposal_id now : ℕ)
    → Map (ProposalRecord Proposed)
    → Result (Proposed × ℕ)
    → Map (ProposalRecord Proposed) × Result PrepareSendResponse
unfolding insert to_unix_ms
keep wallet_id account_id proposal_id now proposals (err e) = (proposals, err e)
keep wallet_id account_id proposal_id now proposals (ok (proposed, fee)) = (
  insert proposal_id
      (record {
        wallet_id = wallet_id;
        account_id = account_id;
        expires_at = now + proposal_ttl;
        proposal = proposed;
      })
      proposals,
  do
    expires_at ← to_unix_ms (now + proposal_ttl)
    ok (response_of proposal_id proposed fee expires_at),
)

-- The new id and the clock's answer are arguments.
unfoldable pub prepare_send :
    {A : Type 0}
    → Outside A
    → Option Bool
    → Option Text
    → SendRequest
    → (wallet_id proposal_id now : ℕ) → Map (ProposalRecord Proposed)
    → Map (ProposalRecord Proposed) × Result PrepareSendResponse
unfolding keep
prepare_send outside backup account_type request wallet_id proposal_id now proposals =
    keep wallet_id request.account_id proposal_id now proposals
      (prepare outside backup account_type request)
