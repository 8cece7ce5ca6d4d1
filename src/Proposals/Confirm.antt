-- ===== src/Proposals/Confirm.antt =====
-- A prepared send is confirmed: `confirm_send` of crates/zbag-engine/src/tx_service.rs. Building and proving,
-- the stored transactions, the relay, the writes to the queue and whether the application's database
-- opens are the answers in `Confirming`.
pub mod Run
pub mod Rounds
pub mod Sent
use zbag_app_tauri.Base.{
  ℕ, Bool, true, false, not, List, [], ◌∷◌, ◌++◌, Option, none, some, Text, text, contains, ◌==◌,
  if◌then◌else◌,
}
use zbag_app_tauri.Base.Int.{ℤ}
use zbag_app_tauri.Base.Maps.{Map, lookup, insert, remove}
use zbag_app_tauri.Base.Results.{
  Result, ok, err, ErrorCode, transaction_failed, transparent_spend_blocked, proposal_not_found,
  io_error, ◌>>◌, fail_if,
}
use zbag_app_tauri.Broadcast.{classify_broadcast_error_message, is_retryable_broadcast_error_class}
use zbag_app_tauri.Proposals.{ProposalRecord, validate_proposal_for_wallet}
use zbag_app_tauri.Proposals.Prepare.{Step, Proposed, has_transparent_inputs}
use zbag_app_tauri.RetryQueue
use zbag_app_tauri.RetryQueue.{QueuedBroadcastMeta}
use zbag_app_tauri.RetryQueue.Scan.{QueueFile, parsed, Scanned, to_unix_ms, scan_queued_broadcasts}
use zbag_app_tauri.SendRules.{ensure_spend_allowed_conn}

-- `create` says the ids of the transactions, of which there is at least one; `send` the text of an error.
-- Each transaction that is queued has the time, the drawn delay, and whether its files are written,
-- which is asked after the time.
pub record Confirming : Type 0 where
  pub opens_app_db : Bool
  pub create : List Step → Option (ℕ × List ℕ)
  pub loads : ℕ → Bool
  pub send : ℕ → Option Text
  pub queued_at : ℕ → ℕ
  pub delay_ms : ℕ → ℕ
  pub persists : ℕ → Bool
  pub scanned_at : ℕ

-- Of `TxService`, the proposals and the wallet's queue in memory; and the queue's directory, `none`
-- as long as it is not there.
pub record Service : Type 0 where
  pub proposals : Map (ProposalRecord Proposed)
  pub queued_broadcasts : Map QueuedBroadcastMeta
  pub files : Option (List QueueFile)

pub data TransactionStatus : Type 0 where
  pending failed : TransactionStatus

-- What the response and the event say of the first transaction.
pub record Confirmed : Type 0 where
  pub txid : ℕ
  pub account_id : ℕ
  pub value : Text
  pub fee : Text
  pub memo_count : ℕ
  pub status : TransactionStatus
  pub last_error : Option Text
  pub can_retry_broadcast : Bool

unfoldable pub display : Option Text → Option Text → Option Text
unfolding contains
display (some last_error) (some reason) =
    if contains last_error reason
    then some last_error
    else some (last_error ++ (text " [terminal: " ++ (reason ++ text "]")))
display (some last_error) none = some last_error
display none (some reason) = some reason
display none none = none

unfoldable pub queued_broadcast_error_for_display : QueuedBroadcastMeta → Option Text
unfolding display
queued_broadcast_error_for_display meta = display meta.last_error meta.terminal_reason

abbrev pub or_empty : Option (List QueueFile) → List QueueFile
or_empty none = []
or_empty (some files) = files

unfoldable pub without_file : ℕ → List QueueFile → List QueueFile
without_file txid [] = []
without_file txid (f ∷ files) =
    let rest = without_file txid files in if f.txid == txid then rest else f ∷ rest

unfoldable pub delete_from : ℕ → Option (List QueueFile) → Option (List QueueFile)
unfolding without_file
delete_from txid none = none
delete_from txid (some files) = some (without_file txid files)

unfoldable pub delete_queued_broadcast : ℕ → Service → Service
unfolding delete_from
delete_queued_broadcast txid s = record s { files = delete_from txid s.files }

-- The files of a transaction replace those that it has.
unfoldable pub add_file :
    ℕ → QueuedBroadcastMeta → Option (List QueueFile) → Option (List QueueFile)
unfolding without_file
add_file txid meta files = some (
    record { txid = txid; meta = parsed meta; has_bin = true } ∷ without_file txid (or_empty files))

-- One round of the loop goes on, with the errors so far, or ends the operation.
pub data Round : Type 0 where
  gone_on : Service → Map Text → Round
  broken : Service → ErrorCode → Round

unfoldable pub status_of :
    Option QueuedBroadcastMeta → Option Text → TransactionStatus × Option Text × Bool
unfolding queued_broadcast_error_for_display
status_of (some meta) primary_error =
    (failed, queued_broadcast_error_for_display meta, meta.retryable)
status_of none (some message) = (failed, some message, false)
status_of none none = (pending, none, false)

abbrev pub scanned_dir : Option (List QueueFile) → List QueueFile → Option (List QueueFile)
scanned_dir none left = none
scanned_dir (some files) left = some left

module _ (to_lowercase : Text → Text) (env : Confirming) where
  unfoldable pub first_failure : ℕ → Text → ℤ → QueuedBroadcastMeta
  unfolding RetryQueue.queue_broadcast classify_broadcast_error_message
      is_retryable_broadcast_error_class
  first_failure txid message created_at_ms =
      let class = classify_broadcast_error_message to_lowercase message in
      RetryQueue.queue_broadcast created_at_ms (env.delay_ms txid) (some message) (some class)
        (is_retryable_broadcast_error_class class)

  unfoldable pub queued : ℕ → Text → Service → Map Text → Result ℤ → Round
  unfolding first_failure add_file
  queued txid message s errors (err e) = broken s e
  queued txid message s errors (ok created_at_ms) =
      if env.persists txid
      then gone_on
          (record s { files = add_file txid (first_failure txid message created_at_ms) s.files })
          (insert txid message errors)
      else broken s io_error

  unfoldable pub after_send : ℕ → Service → Map Text → Option Text → Round
  unfolding to_unix_ms delete_queued_broadcast queued
  after_send txid s errors none = gone_on (delete_queued_broadcast txid s) errors
  after_send txid s errors (some message) =
      queued txid message s errors (to_unix_ms (env.queued_at txid))

  unfoldable pub broadcast_one : ℕ → Service → Map Text → Round
  unfolding after_send
  broadcast_one txid s errors =
      if env.loads txid
      then after_send txid s errors (env.send txid)
      else broken s transaction_failed

  unfoldable pub broadcast_each : List ℕ → Service → Map Text → Round
  unfolding broadcast_one
  broadcast_each [] s errors = gone_on s errors
  broadcast_each (txid ∷ txids) s errors = elim (broadcast_one txid s errors) [
    | broken s' e ↦ broken s' e
    | gone_on s' errors' ↦ broadcast_each txids s' errors'
  ]
