-- ===== src/Retry.antt =====
-- The loop of `TxService::retry_broadcast` (crates/zbag-engine/src/tx_service.rs): send, and on a
-- transport failure fail over and send again, until the send succeeds or the failure is recorded.
-- `relay round url` is the answer of the gRPC call (`none` is success), `now` the clock in each
-- round, `delay` the jittered backoff. The guards on the queue's entry are in `start_retry`;
-- the guard on the account and the decryption of the bytes come before, outside the model. The loop
-- runs on fuel: 7 rounds are enough, since each round counts one attempt of a budget of 7.
pub mod Loop
use zbag_app_tauri.Base.{
  ℕ, zero, suc, ◌+◌, Bool, true, false, ◌&&◌, List, Option, none, some, Text, if◌then◌else◌,
}
use zbag_app_tauri.Base.Int.{ℤ}
use zbag_app_tauri.Base.Results.{
  Result, ok, err, ErrorCode, transaction_failed, queued_broadcast_not_found, ok_or, fail_if, ◌>>=◌,
  ◌>>◌,
}
use zbag_app_tauri.Broadcast.{
  BroadcastErrorClass, transient_transport, transient_server, terminal, unknown,
  classify_broadcast_error_message, is_effective_success_broadcast_error,
  is_retryable_broadcast_error_class, should_trigger_failover,
}
use zbag_app_tauri.RetryQueue.{
  QueuedBroadcastMeta, apply_retry_policy, saturating_add32, update_queued_broadcast_error,
}
use zbag_app_tauri.Servers.{
  Network, ServerInfo, Failover, not_switched, switch_failed, switched, try_failover_server,
}

-- How the loop ends: the queue entry is deleted, or its record is written anew, or the database
-- fails during a failover. Each carries the server table as it is then.
pub data Outcome : Type 0 where
  sent : List ServerInfo → Outcome
  failed : List ServerInfo → Text → QueuedBroadcastMeta → Outcome
  database_error : Outcome
  out_of_fuel : Outcome

abbrev pub is_transport : BroadcastErrorClass → Bool
is_transport transient_transport = true
is_transport transient_server = false
is_transport terminal = false
is_transport unknown = false

module _ (to_lowercase : Text → Text) (relay : ℕ → Text → Option Text) where
  abbrev pub unless_duplicate : Option Text → Option Text
  unless_duplicate none = none
  unless_duplicate (some e) =
      if is_effective_success_broadcast_error to_lowercase e then none else some e

  -- A duplicate relay counts as sent.
  unfoldable pub send_transaction_bytes : ℕ → Text → Option Text
  unfolding is_effective_success_broadcast_error
  send_transaction_bytes round grpc_url = unless_duplicate (relay round grpc_url)

module _ (to_lowercase : Text → Text) (validate probe : Text → Bool)
    (relay : ℕ → Text → Option Text) (now : ℕ → ℤ) (delay : ℕ → ℕ) (network : Network) where
  -- Record the failure, and stop.
  abbrev pub give_up :
      List ServerInfo
      → Option QueuedBroadcastMeta
      → ℕ
      → ℕ
      → ℕ
      → Text
      → BroadcastErrorClass
      → Bool
      → Outcome
  give_up rows on_disk round attempt_count streak err_msg err_class retryable =
      failed rows err_msg (
        update_queued_broadcast_error on_disk (now round) (delay round) (some err_msg)
          (some err_class) retryable attempt_count streak)

  -- After the failover of a failed round: `next` is the next round of the loop.
  unfoldable pub settle :
      (List ServerInfo → Text → ℕ → ℕ → Outcome)
      → List ServerInfo
      → Option QueuedBroadcastMeta
      → ℕ
      → ℕ
      → ℕ
      → Text
      → BroadcastErrorClass
      → Bool
      → Failover
      → Outcome
  settle next rows on_disk round attempt_count streak err_msg err_class retryable switch_failed =
      database_error
  settle next rows on_disk round attempt_count streak err_msg err_class retryable not_switched =
      give_up rows on_disk round attempt_count streak err_msg err_class retryable
  settle next rows on_disk round attempt_count streak err_msg err_class true
        (switched rows' next_grpc_url) =
      next rows' next_grpc_url attempt_count 0
  settle next rows on_disk round attempt_count streak err_msg err_class false
        (switched rows' next_grpc_url) =
      give_up rows' on_disk round attempt_count 0 err_msg err_class false

  -- One round whose send failed with `err_msg`.
  unfoldable pub on_failure :
      (List ServerInfo → Text → ℕ → ℕ → Outcome)
      → List ServerInfo
      → Option QueuedBroadcastMeta
      → ℕ
      → Text
      → ℕ
      → ℕ
      → Text
      → Outcome
  unfolding settle
  on_failure next rows on_disk round grpc_target attempt_count streak err_msg =
      let err_class = classify_broadcast_error_message to_lowercase err_msg in
      let attempt_count' = saturating_add32 attempt_count 1 in
      let retryable =
        (apply_retry_policy (is_retryable_broadcast_error_class err_class) attempt_count'
          (some err_class) none).0 in
      let streak' = if is_transport err_class then saturating_add32 streak 1 else 0 in
      let failover =
        if is_transport err_class && should_trigger_failover streak'
        then try_failover_server validate probe rows network grpc_target (now round)
        else not_switched in
      settle next rows on_disk round attempt_count' streak' err_msg err_class retryable failover

  unfoldable pub retry_loop :
      ℕ → ℕ → Option QueuedBroadcastMeta → List ServerInfo → Text → ℕ → ℕ → Outcome
  unfolding send_transaction_bytes
  retry_loop zero round on_disk rows grpc_target attempt_count streak = out_of_fuel
  retry_loop (suc fuel) round on_disk rows grpc_target attempt_count streak =
      let next = retry_loop fuel (suc round) on_disk in
      elim (send_transaction_bytes to_lowercase relay round grpc_target) [
        | none ↦ sent rows
        | some err_msg ↦ on_failure next rows on_disk round grpc_target attempt_count streak err_msg
      ]

  -- From the entry of the scanned queue: a terminal failure is refused before anything is sent.
  -- `on_disk` is the record that the loop reads again when it writes.
  unfoldable pub start_retry :
      ℕ
      → List ServerInfo
      → Option QueuedBroadcastMeta
      → Option QueuedBroadcastMeta
      → Text
      → Result Outcome
  unfolding retry_loop
  start_retry fuel rows queued on_disk grpc_url = do
    meta ← ok_or queued queued_broadcast_not_found
    fail_if (if meta.retryable then false else true) transaction_failed
    ok (retry_loop fuel 0 on_disk rows grpc_url meta.attempt_count meta.transport_failure_streak)
