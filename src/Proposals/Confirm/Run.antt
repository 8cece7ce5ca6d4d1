-- ===== src/Proposals/Confirm/Run.antt =====
-- `confirm_send` of crates/zbag-engine/src/tx_service.rs, around its loop over the transactions.
use zbag_app_tauri.Base.{ℕ, Bool, List, [], ◌∷◌, Option, none, some, Text, if◌then◌else◌}
use zbag_app_tauri.Base.Maps.{Map, lookup, remove}
use zbag_app_tauri.Base.Results.{
  Result, ok, err, transaction_failed, io_error, transparent_spend_blocked, proposal_not_found,
  ◌>>◌, fail_if,
}
use zbag_app_tauri.Proposals.{ProposalRecord, validate_proposal_for_wallet}
use zbag_app_tauri.Proposals.Prepare.{Proposed, has_transparent_inputs}
use zbag_app_tauri.RetryQueue.{QueuedBroadcastMeta}
use zbag_app_tauri.RetryQueue.Scan.{Scanned, scan_queued_broadcasts}
use zbag_app_tauri.SendRules.{ensure_spend_allowed_conn}
use zbag_app_tauri.Proposals.Confirm.{
  Confirming, Service, Confirmed, Round, status_of, scanned_dir, broadcast_each, gone_on, broken,
}

module _ (to_lowercase : Text → Text) (env : Confirming) where
  unfoldable pub confirmed_as :
      ProposalRecord Proposed → ℕ → Option QueuedBroadcastMeta → Option Text → Confirmed
  unfolding status_of
  confirmed_as r txid entry primary_error =
      let (status, last_error, can_retry_broadcast) = status_of entry primary_error in
      record {
        txid = txid;
        account_id = r.account_id;
        value = r.proposal.summary.amount;
        fee = r.proposal.summary.fee;
        memo_count = if r.proposal.summary.memo_present then 1 else 0;
        status = status;
        last_error = last_error;
        can_retry_broadcast = can_retry_broadcast;
      }

  unfoldable pub after_scan :
      ProposalRecord Proposed → ℕ → Service → Map Text → Result Scanned → Service × Result Confirmed
  unfolding lookup confirmed_as
  after_scan r txid s errors (err e) = (s, err e)
  after_scan r txid s errors (ok scanned) = (
    record s { queued_broadcasts = scanned.entries; files = scanned_dir s.files scanned.files },
    ok (confirmed_as r txid (lookup txid scanned.entries) (lookup txid errors)),
  )

  unfoldable pub after_broadcasts : ProposalRecord Proposed → ℕ → Round → Service × Result Confirmed
  unfolding scan_queued_broadcasts after_scan
  after_broadcasts r txid (broken s e) = (s, err e)
  after_broadcasts r txid (gone_on s errors) =
      after_scan r txid s errors (scan_queued_broadcasts to_lowercase env.scanned_at s.files)

  unfoldable pub after_create :
      ProposalRecord Proposed → Service → Option (ℕ × List ℕ) → Service × Result Confirmed
  unfolding broadcast_each after_broadcasts
  after_create r s none = (s, err transaction_failed)
  after_create r s (some (txid, rest)) =
      after_broadcasts r txid (broadcast_each to_lowercase env (txid ∷ rest) s [])

  unfoldable pub may_send : Option Bool → Option Text → ProposalRecord Proposed → Result (Unit {0})
  unfolding ensure_spend_allowed_conn has_transparent_inputs
  may_send backup account_type r = do
    ensure_spend_allowed_conn backup account_type
    fail_if (has_transparent_inputs r.proposal.steps) transparent_spend_blocked

  unfoldable pub after_check :
      ProposalRecord Proposed → Service → Result (Unit {0}) → Service × Result Confirmed
  unfolding after_create
  after_check r s (err e) = (s, err e)
  after_check r s (ok u) = after_create r s (env.create r.proposal.steps)

  unfoldable pub with_record :
      Option Bool
      → (ℕ → Option Text)
      → Service
      → Option (ProposalRecord Proposed)
      → Service × Result Confirmed
  unfolding may_send after_check
  with_record backup account_type s none = (s, err proposal_not_found)
  with_record backup account_type s (some r) =
      after_check r s (may_send backup (account_type r.account_id) r)

  -- The database is opened before the proposal goes, and that before the account is looked at.
  unfoldable pub after_validate :
      Option Bool
      → (ℕ → Option Text)
      → ℕ
      → Service
      → Map (ProposalRecord Proposed) × Result ℕ
      → Service × Result Confirmed
  unfolding lookup remove with_record
  after_validate backup account_type proposal_id s (m, err e) = (record s { proposals = m }, err e)
  after_validate backup account_type proposal_id s (m, ok account_id) =
      if env.opens_app_db
      then with_record backup account_type (record s { proposals = remove proposal_id m })
          (lookup proposal_id m)
      else (record s { proposals = m }, err io_error)

  unfoldable pub confirm_send :
      Option Bool
      → (ℕ → Option Text)
      → (wallet_id proposal_id now : ℕ) → Service
      → Service × Result Confirmed
  unfolding validate_proposal_for_wallet after_validate
  confirm_send backup account_type wallet_id proposal_id now s =
      after_validate backup account_type proposal_id s
        (validate_proposal_for_wallet s.proposals proposal_id wallet_id now)
