-- ===== src/Examples/Sends.antt =====
-- Broadcasting: classes, delays, queue records and a retry that fails over.
use zbag_app_tauri.Base.{
  ℕ, ◌≡◌, refl, true, false, List, [], ◌∷◌, Option, none, some, Text, text, ascii_lowercase,
  text_eq, contains_any, arith, if◌then◌else◌,
}
use zbag_app_tauri.Base.Int.{pos}
use zbag_app_tauri.Broadcast.{
  terminal, unknown, terminal_markers, duplicate_markers, classify_broadcast_error_message,
  is_effective_success_broadcast_error, is_retryable_broadcast_error_class,
  classify_job_broadcast_failure,
}
use zbag_app_tauri.RetryQueue.{
  QueuedBroadcastMeta, apply_retry_policy, normalize_queued_broadcast_meta,
}
use zbag_app_tauri.RetryQueue.Policy.{IsNormal, normalize-IsNormal}
use zbag_app_tauri.Servers.{mainnet, ServerInfo}
use zbag_app_tauri.Retry.{retry_loop}
use zbag_app_tauri.Retry.Loop.{Ends, retry_loop-Ends}

abbrev refused : Text
refused = text "Double spend"

abbrev wrapped : Text
wrapped = text "send failed: Double spend (code 18)"

refused_is_terminal : classify_broadcast_error_message ascii_lowercase refused ≡ terminal
unfolding classify_broadcast_error_message contains_any duplicate_markers terminal_markers
    ascii_lowercase
refused_is_terminal = refl

wrapped_is_failure : is_effective_success_broadcast_error ascii_lowercase wrapped ≡ false
unfolding is_effective_success_broadcast_error contains_any duplicate_markers ascii_lowercase
wrapped_is_failure = refl

job_failure : classify_job_broadcast_failure ascii_lowercase refused ≡ some (terminal, false)
unfolding classify_job_broadcast_failure classify_broadcast_error_message
    is_retryable_broadcast_error_class contains_any duplicate_markers terminal_markers
    ascii_lowercase
job_failure = refl

allowed : (apply_retry_policy true 2 (some unknown) none).0 ≡ true
unfolding apply_retry_policy
allowed = refl

-- A record as the job service could have left it: a terminal error, marked as retryable.
abbrev stale : QueuedBroadcastMeta
stale = record {
  created_at_ms = pos 5;
  attempt_count = 3;
  next_attempt_at_ms = none;
  last_attempt_at_ms = some (pos 5);
  transport_failure_streak = 0;
  retryable = true;
  last_error_class = none;
  terminal_reason = none;
  last_error = some refused;
}

stale_is_ended : (normalize_queued_broadcast_meta ascii_lowercase stale (pos 9)).retryable ≡ false
unfolding normalize_queued_broadcast_meta classify_broadcast_error_message apply_retry_policy
    contains_any duplicate_markers terminal_markers ascii_lowercase
stale_is_ended = refl

normalize-IsNormal_example :
    IsNormal (normalize_queued_broadcast_meta ascii_lowercase stale (pos 9))
normalize-IsNormal_example = normalize-IsNormal ascii_lowercase stale (pos 9)

abbrev url_a : Text
url_a = text "https://a.example"

abbrev url_b : Text
url_b = text "https://b.example"

abbrev servers : List ServerInfo
servers =
    record {
      id = 1;
      name = text "a";
      grpc_url = url_a;
      network = mainnet;
      is_default = true;
      last_success_at = none;
    }
    ∷ record {
      id = 2;
      name = text "b";
      grpc_url = url_b;
      network = mainnet;
      is_default = false;
      last_success_at = none;
    }
    ∷ []

-- Server a cannot be reached, server b takes the transaction.
abbrev relay_to_b : ℕ → Text → Option Text
relay_to_b round url = if text_eq url url_a then some (text "connection refused") else none

retry_loop-Ends_example : Ends ascii_lowercase relay_to_b 1 (
    retry_loop ascii_lowercase
      (λ u. true)
      (text_eq url_b)
      relay_to_b
      (λ k. pos k)
      (λ k. 5000)
      mainnet
      6
      0
      none
      servers
      url_a
      1
      1)
retry_loop-Ends_example =
    retry_loop-Ends ascii_lowercase (λ u. true) (text_eq url_b) relay_to_b (λ k. pos k) (λ k. 5000)
      mainnet 6 0 servers none url_a 1 1 (omega arith) (omega arith) (omega arith)
