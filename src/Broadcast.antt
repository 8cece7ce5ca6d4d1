-- ===== src/Broadcast.antt =====
-- crates/zbag-engine/src/broadcast.rs: how a broadcast error message is classified, and the retry
-- schedule. `str::to_lowercase` folds all of Unicode: it is the argument `to_lowercase`. The float
-- arithmetic of the jitter is in whole milliseconds: every base is a multiple of 5 ms, so rounding
-- keeps the offset in the same range; the draw is the argument `offset`, shifted to start at 0.
pub mod Classes
pub mod Backoff
use zbag_app_tauri.Base.{
  ℕ, ◌+◌, ◌-◌, ◌*◌, ◌/◌, max, Bool, true, false, ◌&&◌, List, [], ◌∷◌, Option, none, some, Text,
  text, contains_any, leb, get_elem?, if◌then◌else◌,
}

pub data BroadcastErrorClass : Type 0 where
  transient_transport transient_server terminal unknown : BroadcastErrorClass

abbrev pub failover_transport_failure_threshold : ℕ
failover_transport_failure_threshold = 2

abbrev pub max_total_broadcast_retry_attempts : ℕ
max_total_broadcast_retry_attempts = 7

abbrev pub max_unknown_broadcast_retry_attempts : ℕ
max_unknown_broadcast_retry_attempts = 3

abbrev pub retry_schedule_secs : List ℕ
retry_schedule_secs = 5 ∷ 15 ∷ 45 ∷ 120 ∷ 300 ∷ 900 ∷ 1800 ∷ []

unfoldable pub duplicate_markers : List Text
duplicate_markers =
    text "already in mempool" ∷ text "already known" ∷ text "txn-already-in-mempool" ∷ []

unfoldable pub terminal_markers : List Text
terminal_markers =
    text "broadcast rejected"
    ∷ text "non-mandatory-script-verify-flag"
    ∷ text "bad-txns"
    ∷ text "already spent"
    ∷ text "double spend"
    ∷ text "txn-mempool-conflict"
    ∷ []

unfoldable pub transport_markers : List Text
transport_markers =
    text "failed to connect"
    ∷ text "connection"
    ∷ text "transport"
    ∷ text "timed out"
    ∷ text "timeout"
    ∷ text "deadline exceeded"
    ∷ text "unavailable"
    ∷ text "broken pipe"
    ∷ text "reset by peer"
    ∷ text "refused"
    ∷ text "dns"
    ∷ text "h2"
    ∷ []

unfoldable pub server_markers : List Text
server_markers =
    text "resource exhausted"
    ∷ text "temporarily"
    ∷ text "try again"
    ∷ text "sendtransaction rpc failed"
    ∷ text "rpc failed"
    ∷ text "internal"
    ∷ []

unfoldable pub is_benign_duplicate_relay_message_lowercase : Text → Bool
is_benign_duplicate_relay_message_lowercase lower = contains_any lower duplicate_markers

module _ (to_lowercase : Text → Text) where
  unfoldable pub is_benign_duplicate_relay_message : Text → Bool
  unfolding is_benign_duplicate_relay_message_lowercase
  is_benign_duplicate_relay_message message =
      is_benign_duplicate_relay_message_lowercase (to_lowercase message)

  unfoldable pub is_effective_success_broadcast_error : Text → Bool
  unfolding is_benign_duplicate_relay_message
  is_effective_success_broadcast_error message = is_benign_duplicate_relay_message message

  unfoldable pub classify_broadcast_error_message : Text → BroadcastErrorClass
  unfolding is_benign_duplicate_relay_message_lowercase
  classify_broadcast_error_message message =
      let lower = to_lowercase message in
      if is_benign_duplicate_relay_message_lowercase lower
      then transient_server
      else (if contains_any lower terminal_markers
          then terminal
          else (if contains_any lower transport_markers
              then transient_transport
              else (if contains_any lower server_markers then transient_server else unknown)))

unfoldable pub is_retryable_broadcast_error_class : BroadcastErrorClass → Bool
is_retryable_broadcast_error_class transient_transport = true
is_retryable_broadcast_error_class transient_server = true
is_retryable_broadcast_error_class unknown = true
is_retryable_broadcast_error_class terminal = false

abbrev pub secs_or_last : Option ℕ → ℕ
secs_or_last (some secs) = secs
secs_or_last none = 1800

-- In seconds; past the end of the schedule its last entry repeats.
unfoldable pub retry_backoff_base : ℕ → ℕ
retry_backoff_base attempt_count = secs_or_last (get_elem? retry_schedule_secs attempt_count)

-- In milliseconds. `offset` is the draw of `gen_range(-jitter..=jitter)`, plus the jitter.
unfoldable pub retry_backoff_with_jitter : ℕ → ℕ → ℕ
unfolding retry_backoff_base
retry_backoff_with_jitter attempt_count offset =
    let base_ms = retry_backoff_base attempt_count * 1000 in
    let jitter_ms = base_ms / 5 in max 1 (base_ms + offset - jitter_ms)

unfoldable pub should_trigger_failover : ℕ → Bool
should_trigger_failover transport_failure_streak =
    leb failover_transport_failure_threshold transport_failure_streak

abbrev pub is_unknown : BroadcastErrorClass → Bool
is_unknown unknown = true
is_unknown transient_transport = false
is_unknown transient_server = false
is_unknown terminal = false

unfoldable pub unknown_budget_reason : Text
unknown_budget_reason = text "unknown broadcast retry budget exhausted"

unfoldable pub total_budget_reason : Text
total_budget_reason = text "broadcast retry budget exhausted"

unfoldable pub retry_budget_terminal_reason : BroadcastErrorClass → ℕ → Option Text
retry_budget_terminal_reason class attempt_count =
    if is_unknown class && leb max_unknown_broadcast_retry_attempts attempt_count
    then some unknown_budget_reason
    else (if leb max_total_broadcast_retry_attempts attempt_count
        then some total_budget_reason
        else none)

-- job_service.rs: `none` is a relay that already has the transaction.
unfoldable pub classify_job_broadcast_failure :
    (Text → Text) → Text → Option (BroadcastErrorClass × Bool)
unfolding is_effective_success_broadcast_error
classify_job_broadcast_failure to_lowercase error_message =
    let err_class = classify_broadcast_error_message to_lowercase error_message in
    if is_effective_success_broadcast_error to_lowercase error_message
    then none
    else some (err_class, is_retryable_broadcast_error_class err_class)
