-- ===== src/Proposals.antt =====
-- The proposals that wait for a confirmation, and the signing requests that wait for a hardware
-- signature: `TxService` of crates/zbag-engine/src/tx_service.rs. Ids are numbers, a `SystemTime` is
-- in nanoseconds since the epoch, and the clock's answer is the argument `now`. A proposal of
-- `zcash_client_backend`, with its `TransactionSummary`, is of a type `P` that nothing here looks into.
pub mod Lifecycle
pub mod Account
pub mod Prepare
pub mod Confirm
use zbag_app_tauri.Base.{
  ℕ, Bool, true, false, not, Option, none, some, Text, ◌==◌, ltb, if◌then◌else◌,
}
use zbag_app_tauri.Base.Maps.{Map, lookup, insert, remove, retain}
use zbag_app_tauri.Base.Results.{Result, ok, err, ErrorCode, proposal_not_found, proposal_expired}

pub record ProposalRecord {ℓ} (P : Type ℓ) : Type ℓ where
  pub wallet_id : ℕ
  pub account_id : ℕ
  pub expires_at : ℕ
  pub proposal : P

pub record PendingSigningRequest : Type 0 where
  pub wallet_id : ℕ
  pub pczt_with_proofs : Text
  pub expires_at : ℕ

module _ {ℓ} {P : Type ℓ} where
  abbrev pub check_proposal :
      Map (ProposalRecord P)
      → ℕ
      → ℕ
      → ℕ
      → Option (ProposalRecord P)
      → Map (ProposalRecord P) × Result ℕ
  check_proposal m proposal_id wallet_id now none = (m, err proposal_not_found)
  check_proposal m proposal_id wallet_id now (some r) =
      if not (r.wallet_id == wallet_id)
      then (m, err proposal_not_found)
      else (if ltb r.expires_at now
          then (remove proposal_id m, err proposal_expired)
          else (m, ok r.account_id))

  unfoldable pub validate_proposal_for_wallet :
      Map (ProposalRecord P) → ℕ → ℕ → ℕ → Map (ProposalRecord P) × Result ℕ
  unfolding lookup remove
  validate_proposal_for_wallet m proposal_id wallet_id now =
      check_proposal m proposal_id wallet_id now (lookup proposal_id m)

  unfoldable pub cancel_send : Map (ProposalRecord P) → ℕ → Map (ProposalRecord P) × Bool
  unfolding lookup remove
  cancel_send m proposal_id =
      (remove proposal_id m, elim (lookup proposal_id m) [ none ↦ false | some r ↦ true ])

  abbrev pub take_checked :
      Map (ProposalRecord P)
      → ℕ
      → ℕ
      → ℕ
      → Option (ProposalRecord P)
      → Map (ProposalRecord P) × Result (ProposalRecord P)
  take_checked m proposal_id wallet_id now none = (m, err proposal_not_found)
  take_checked m proposal_id wallet_id now (some r) =
      if not (r.wallet_id == wallet_id)
      then (m, err proposal_not_found)
      else (if ltb r.expires_at now
          then (remove proposal_id m, err proposal_expired)
          else (remove proposal_id m, ok r))

  -- What is taken is handed out as its record.
  unfoldable pub take_proposal_for_execution :
      Map (ProposalRecord P) → ℕ → ℕ → ℕ → Map (ProposalRecord P) × Result (ProposalRecord P)
  unfolding lookup remove
  take_proposal_for_execution m proposal_id wallet_id now =
      take_checked m proposal_id wallet_id now (lookup proposal_id m)

  unfoldable pub import_proposal_for_execution :
      Map (ProposalRecord P) → ℕ → ℕ → ℕ → ℕ → P → Map (ProposalRecord P)
  unfolding insert
  import_proposal_for_execution m proposal_id wallet_id account_id expires_at proposal =
      insert proposal_id
        (record {
          wallet_id = wallet_id;
          account_id = account_id;
          expires_at = expires_at;
          proposal = proposal;
        })
        m

  unfoldable pub clear_proposals_for_wallet : Map (ProposalRecord P) → ℕ → Map (ProposalRecord P)
  unfolding retain
  clear_proposals_for_wallet m wallet_id = retain (λ _ r. not (r.wallet_id == wallet_id)) m

-- The expiry is looked at before the wallet.
abbrev pub take_request :
    Map PendingSigningRequest
    → ℕ
    → ℕ
    → ℕ
    → Option PendingSigningRequest
    → Map PendingSigningRequest × Result PendingSigningRequest
take_request m id wallet_id now none = (m, err proposal_not_found)
take_request m id wallet_id now (some r) =
    if ltb r.expires_at now
    then (remove id m, err proposal_expired)
    else (if not (r.wallet_id == wallet_id)
        then (m, err proposal_not_found)
        else (remove id m, ok r))

unfoldable pub take_pending_signing_request_for_execution :
    Map PendingSigningRequest → ℕ → ℕ → ℕ → Map PendingSigningRequest × Result PendingSigningRequest
unfolding lookup remove
take_pending_signing_request_for_execution m id wallet_id now =
    take_request m id wallet_id now (lookup id m)

unfoldable pub import_pending_signing_request_for_execution :
    Map PendingSigningRequest → ℕ → ℕ → Text → ℕ → Map PendingSigningRequest
unfolding insert
import_pending_signing_request_for_execution m id wallet_id pczt_with_proofs expires_at =
    insert id
      (record {
        wallet_id = wallet_id;
        pczt_with_proofs = pczt_with_proofs;
        expires_at = expires_at;
      })
      m
