-- ===== src/Jobs/Send.antt =====
-- `run_send_job` of crates/zbag-engine/src/job_service.rs, the task of a send job, as one run over
-- the answers of what it calls: the cancellation signal at each of its three reads, the wallet
-- database, the proving (in `zcash_client_backend`), the stored transactions and the gRPC relay.
-- `run` keeps the job store with the progress events, the transactions handed to the relay, and the
-- retry records written, each oldest first. The event `tx.changed`, which goes out before the last
-- progress event, is left out; what it reports of the broadcasts is in `Broadcasts`. The abort of the
-- task by `cancel_job` is no part of a run, nor is the entry that `start_send_job` may store late.
use zbag_app_tauri.Base.{
  ℕ, Bool, false, ◌||◌, List, [], ◌∷◌, ◌++◌, Option, none, some, Text, text, if◌then◌else◌,
}
use zbag_app_tauri.Base.Int.{ℤ}
use zbag_app_tauri.Broadcast.{BroadcastErrorClass, classify_job_broadcast_failure}
use zbag_app_tauri.RetryQueue.{QueuedBroadcastMeta, queue_broadcast_for_retry}
use zbag_app_tauri.Jobs.Types.{JobType, JobProgress}
use zbag_app_tauri.Jobs.Progress
use zbag_app_tauri.Jobs.Service.{JobServiceState, emit_progress, blocking_update}

-- `create_proposed_transactions` returns at least one id; `panicked` is a panic of the closure.
pub data Created : Type 0 where
  created : ℕ → List ℕ → Created
  build_failed panicked : Text → Created

-- A stored transaction, read and serialized.
pub data TxBytes : Type 0 where
  bytes missing : TxBytes
  load_failed serialize_failed : Text → TxBytes

pub record SendEnv : Type 0 where
  pub cancelled_at_start : Bool
  pub open_wallet_db : Option Text
  pub cancelled_before_proving : Bool
  pub create : Created
  pub cancelled_after_proving : Bool
  pub get_transaction : ℕ → TxBytes
  pub relay : ℕ → Option Text
  pub persists : ℕ → Bool
  pub now_ms : ℤ
  pub delay_ms : ℕ

pub record Run : Type 0 where
  pub store : JobServiceState
  pub events : List JobProgress
  pub relayed : List ℕ
  pub queued : List (ℕ × QueuedBroadcastMeta)

pub record Broadcasts : Type 0 where
  pub broadcast_error : Option Text
  pub can_retry_broadcast : Bool
  pub relayed : List ℕ
  pub queued : List (ℕ × QueuedBroadcastMeta)

unfoldable pub open_failed_prefix : Text
open_failed_prefix = text "failed to open wallet: "

unfoldable pub build_failed_prefix : Text
build_failed_prefix = text "failed to build tx: "

unfoldable pub panicked_prefix : Text
panicked_prefix = text "task panicked: "

unfoldable pub bytes_unavailable : Text
bytes_unavailable = text "tx bytes unavailable"

unfoldable pub load_failed_prefix : Text
load_failed_prefix = text "failed to load tx: "

unfoldable pub serialize_failed_prefix : Text
serialize_failed_prefix = text "failed to serialize tx: "

module _ (to_lowercase : Text → Text) (env : SendEnv) where
  -- A transaction that was handed to the relay, and the failure that is reported for it.
  abbrev pub record_relay : ℕ → Option (Text × BroadcastErrorClass × Bool) → Broadcasts → Broadcasts
  record_relay txid none b = record b { relayed = b.relayed ++ txid ∷ [] }
  record_relay txid (some (msg, class, retryable)) b = record {
    broadcast_error = some msg;
    can_retry_broadcast = b.can_retry_broadcast || retryable;
    relayed = b.relayed ++ txid ∷ [];
    queued =
        if env.persists txid
        then b.queued
          ++ (
            txid,
            queue_broadcast_for_retry env.now_ms env.delay_ms (some msg) (some class) retryable,
          )
            ∷ []
        else b.queued;
  }

  abbrev pub with_message :
      Text → Option (BroadcastErrorClass × Bool) → Option (Text × BroadcastErrorClass × Bool)
  with_message msg none = none
  with_message msg (some (class, retryable)) = some (msg, class, retryable)

  -- What the relay answered, with a duplicate relay taken for success.
  unfoldable pub relay_failure : ℕ → Option (Text × BroadcastErrorClass × Bool)
  relay_failure txid = elim (env.relay txid) [
    | none ↦ none
    | some msg ↦ with_message msg (classify_job_broadcast_failure to_lowercase msg)
  ]

  -- The loop over the ids; a transaction that cannot be read ends it.
  unfoldable pub broadcast_all : List ℕ → Broadcasts → Broadcasts
  broadcast_all [] b = b
  broadcast_all (txid ∷ rest) b = elim (env.get_transaction txid) [
    | missing ↦ record b { broadcast_error = some bytes_unavailable }
    | load_failed e ↦ record b { broadcast_error = some (load_failed_prefix ++ e) }
    | serialize_failed e ↦ record b { broadcast_error = some (serialize_failed_prefix ++ e) }
    | bytes ↦ broadcast_all rest (record_relay txid (relay_failure txid) b)
  ]

  module _ (job_id : ℕ) where
    abbrev pub emit : JobProgress → Run → Run
    emit p r = record r { store = emit_progress r.store job_id p; events = r.events ++ p ∷ [] }

    -- Progress from inside the blocking closure.
    abbrev pub update : JobProgress → Run → Run
    update p r = record r { store = blocking_update r.store job_id p; events = r.events ++ p ∷ [] }

    unfoldable pub finish : ℕ → Broadcasts → Run → Run
    unfolding emit_progress Progress.completed Progress.failed
    finish txid b r =
        let r' = record r { relayed = b.relayed; queued = b.queued } in
        elim b.broadcast_error [
          | some e ↦ emit (Progress.failed job_id JobType.send e (some txid)) r'
          | none ↦ emit (Progress.completed job_id JobType.send txid) r'
        ]

    abbrev pub broadcast_phase : ℕ → List ℕ → Run → Run
    broadcast_phase txid rest r =
        let r' = emit (Progress.broadcasting job_id JobType.send txid) r in
        finish txid
          (broadcast_all (txid ∷ rest) (record {
            broadcast_error = none;
            can_retry_broadcast = false;
            relayed = r'.relayed;
            queued = r'.queued;
          }))
          r'

    abbrev pub after_proving : Created → Run → Run
    after_proving (build_failed e) r =
        emit (Progress.failed job_id JobType.send (build_failed_prefix ++ e) none) r
    after_proving (panicked e) r =
        emit (Progress.failed job_id JobType.send (panicked_prefix ++ e) none) r
    after_proving (created txid rest) r =
        if env.cancelled_after_proving
        then emit (Progress.cancelled job_id JobType.send) r
        else broadcast_phase txid rest r

    abbrev pub with_db : Option Text → Run → Run
    with_db (some e) r = emit (Progress.failed job_id JobType.send (open_failed_prefix ++ e) none) r
    with_db none r =
        if env.cancelled_before_proving
        then emit (Progress.cancelled job_id JobType.send) r
        else after_proving env.create (update (Progress.proving job_id JobType.send (some 50)) r)

    unfoldable pub run_send_job : JobServiceState → Run
    unfolding emit_progress blocking_update finish Progress.broadcasting Progress.failed
        Progress.cancelled
    run_send_job s =
        let r : Run = record { store = s; events = []; relayed = []; queued = [] } in
        if env.cancelled_at_start
        then emit (Progress.cancelled job_id JobType.send) r
        else with_db env.open_wallet_db (emit (Progress.proving job_id JobType.send (some 10)) r)
