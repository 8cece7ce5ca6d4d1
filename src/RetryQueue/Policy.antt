-- ===== src/RetryQueue/Policy.antt =====
-- When `apply_retry_policy` lets a broadcast be retried, and what normalising a record gives.
use zbag_app_tauri.Base.{ℕ, ◌<◌, ◌≡◌, ◌≢◌, Bool, true, false, Option, none, some, Text, arith}
use zbag_app_tauri.Base.Int.{ℤ}
use zbag_app_tauri.Broadcast.{BroadcastErrorClass, terminal, unknown}
use zbag_app_tauri.RetryQueue.{
  QueuedBroadcastMeta, apply_retry_policy, normalize_queued_broadcast_meta,
}

-- Within the budget: no terminal error, fewer than 7 attempts, fewer than 3 for an unknown error.
pub record InBudget (class : Option BroadcastErrorClass) (attempt_count : ℕ) : Type 0 where
  pub not_terminal : class ≢ some terminal
  pub total : (c : BroadcastErrorClass) → class ≡ some c → attempt_count < 7
  pub unknown_total : class ≡ some unknown → attempt_count < 3

-- What the policy lets be retried was retryable before, is within the budget, and bears no reason.
pub apply_retry_policy-InBudget :
    (retryable : Bool) (n : ℕ) (class : Option BroadcastErrorClass) (reason : Option Text)
    → (apply_retry_policy retryable n class reason).0 ≡ true
    → (retryable ≡ true)
      × InBudget class n
      × ((apply_retry_policy retryable n class reason).1 ≡ none)
unfolding apply_retry_policy
apply_retry_policy-InBudget retryable n none reason h = (
  ground arith,
  record { not_terminal = λ e. cc; total = λ c e. cc; unknown_total = λ e. cc },
  ground arith,
)
apply_retry_policy-InBudget retryable n (some c) reason h = (
  ground arith,
  record {
    not_terminal = λ e. ground arith;
    total = λ c e. ground arith;
    unknown_total = λ e. ground arith;
  },
  ground arith,
)

-- A record at rest: one that may be retried has a time for it, is within the budget and bears no
-- reason; one that may not has no time.
pub record IsNormal (meta : QueuedBroadcastMeta) : Type 0 where
  pub scheduled : meta.retryable ≡ true → meta.next_attempt_at_ms ≢ none
  pub unscheduled : meta.retryable ≡ false → meta.next_attempt_at_ms ≡ none
  pub in_budget : meta.retryable ≡ true → InBudget meta.last_error_class meta.attempt_count
  pub no_reason : meta.retryable ≡ true → meta.terminal_reason ≡ none
  pub reason : meta.last_error_class ≡ some terminal → meta.terminal_reason ≢ none

module _ (to_lowercase : Text → Text) where
  -- Normalising makes any record a record at rest, whatever was on disk.
  pub normalize-IsNormal :
      (meta : QueuedBroadcastMeta) (now_ms : ℤ)
      → IsNormal (normalize_queued_broadcast_meta to_lowercase meta now_ms)
  unfolding normalize_queued_broadcast_meta apply_retry_policy
  normalize-IsNormal meta now_ms = record {
    scheduled = λ h. ground arith;
    unscheduled = λ h. ground arith;
    in_budget = λ h. record {
      not_terminal = λ e. ground arith;
      total = λ c e. ground arith;
      unknown_total = λ e. ground arith;
    };
    no_reason = λ h. ground arith;
    reason = λ h. ground arith;
  }

  -- Normalising again, at any later time, changes nothing.
  pub normalize_idem :
      (meta : QueuedBroadcastMeta) (now_ms later_ms : ℤ)
      → normalize_queued_broadcast_meta to_lowercase
          (normalize_queued_broadcast_meta to_lowercase meta now_ms)
          later_ms
        ≡ normalize_queued_broadcast_meta to_lowercase meta now_ms
  unfolding normalize_queued_broadcast_meta apply_retry_policy
  normalize_idem meta now_ms later_ms = ground arith
