-- ===== src/RetryQueue/Writes.antt =====
-- The three places that write a queued broadcast's record.
use zbag_app_tauri.Base.{ℕ, ◌≡◌, Bool, Option, some, Text, arith}
use zbag_app_tauri.Base.Int.{ℤ}
use zbag_app_tauri.Broadcast.{BroadcastErrorClass, is_retryable_broadcast_error_class}
use zbag_app_tauri.RetryQueue.{
  QueuedBroadcastMeta, apply_retry_policy, normalize_queued_broadcast_meta, queue_broadcast,
  queue_broadcast_for_retry, update_queued_broadcast_error,
}
use zbag_app_tauri.RetryQueue.Policy.{IsNormal}

-- The transaction service queues only records at rest.
pub queue_broadcast-IsNormal :
    (now_ms : ℤ) (delay_ms : ℕ) (e : Option Text) (class : Option BroadcastErrorClass) (r : Bool)
    → IsNormal (queue_broadcast now_ms delay_ms e class r)
unfolding queue_broadcast apply_retry_policy
queue_broadcast-IsNormal now_ms delay_ms e class r = record {
  scheduled = λ h. ground arith;
  unscheduled = λ h. ground arith;
  in_budget = λ h. record {
    not_terminal = λ q. ground arith;
    total = λ c q. ground arith;
    unknown_total = λ q. ground arith;
  };
  no_reason = λ h. ground arith;
  reason = λ h. ground arith;
}

-- A failed retry leaves a record at rest, whatever record it found.
pub update_queued_broadcast_error-IsNormal :
    (on_disk : Option QueuedBroadcastMeta) (now_ms : ℤ) (delay_ms : ℕ) (e : Option Text)
    (class : Option BroadcastErrorClass) (r : Bool) (n streak : ℕ)
    → IsNormal (update_queued_broadcast_error on_disk now_ms delay_ms e class r n streak)
unfolding update_queued_broadcast_error apply_retry_policy
update_queued_broadcast_error-IsNormal on_disk now_ms delay_ms e class r n streak = record {
  scheduled = λ h. ground arith;
  unscheduled = λ h. ground arith;
  in_budget = λ h. record {
    not_terminal = λ q. ground arith;
    total = λ c q. ground arith;
    unknown_total = λ q. ground arith;
  };
  no_reason = λ h. ground arith;
  reason = λ h. ground arith;
}

-- The job service writes its record with no policy applied. Once the queue is scanned the record is
-- the one that the transaction service writes for the same failure.
pub normalize-queue_broadcast_for_retry :
    (to_lowercase : Text → Text) (now_ms scanned_ms : ℤ) (delay_ms : ℕ) (e : Option Text)
    (class : BroadcastErrorClass)
    → normalize_queued_broadcast_meta to_lowercase
        (queue_broadcast_for_retry now_ms delay_ms e
          (some class)
          (is_retryable_broadcast_error_class class))
        scanned_ms
      ≡ queue_broadcast now_ms delay_ms e (some class) (is_retryable_broadcast_error_class class)
unfolding normalize_queued_broadcast_meta queue_broadcast_for_retry queue_broadcast
    apply_retry_policy
normalize-queue_broadcast_for_retry to_lowercase now_ms scanned_ms delay_ms e class = ground arith
