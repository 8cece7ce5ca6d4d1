-- ===== src/RetryQueue.antt =====
-- The metadata of a broadcast that waits for a retry (crates/zbag-engine/src/tx_service.rs, and
-- `queue_broadcast_for_retry` of job_service.rs): the policy that ends the retries, and each place
-- that writes a record. A delay is what `retry_backoff_with_jitter` drew, in milliseconds.
pub mod Policy
pub mod Writes
pub mod Scan
use zbag_app_tauri.Base.{
  ℕ, ◌+◌, min, Bool, true, false, not, ◌&&◌, Option, none, some, Text, text, if◌then◌else◌,
}
use zbag_app_tauri.Base.Int.{ℤ, saturating_add}
use zbag_app_tauri.Broadcast.{
  BroadcastErrorClass, transient_transport, transient_server, terminal, unknown,
  classify_broadcast_error_message, is_retryable_broadcast_error_class,
  retry_budget_terminal_reason,
}

pub record QueuedBroadcastMeta : Type 0 where
  pub created_at_ms : ℤ
  pub attempt_count : ℕ
  pub next_attempt_at_ms : Option ℤ
  pub last_attempt_at_ms : Option ℤ
  pub transport_failure_streak : ℕ
  pub retryable : Bool
  pub last_error_class : Option BroadcastErrorClass
  pub terminal_reason : Option Text
  pub last_error : Option Text

-- u32 `saturating_add`.
abbrev pub saturating_add32 : ℕ → ℕ → ℕ
saturating_add32 a b = min (a + b) 4294967295

unfoldable pub terminal_class_reason : Text
terminal_class_reason = text "broadcast error classified as terminal (Terminal)"

abbrev pub or_reason : Option Text → Text → Option Text
or_reason (some r) d = some r
or_reason none d = some d

-- The branch of `apply_retry_policy` for a class that may be retried: only the budget ends it.
abbrev pub apply_budget : Bool → Option Text → Option Text → Bool × Option Text
apply_budget false terminal_reason budget = (false, terminal_reason)
apply_budget true terminal_reason none = (true, terminal_reason)
apply_budget true terminal_reason (some reason) = (false, some reason)

abbrev pub apply_class : Bool → ℕ → Option BroadcastErrorClass → Option Text → Bool × Option Text
apply_class retryable attempt_count none terminal_reason = (retryable, terminal_reason)
apply_class retryable attempt_count (some class) terminal_reason =
    if is_retryable_broadcast_error_class class
    then apply_budget retryable terminal_reason (retry_budget_terminal_reason class attempt_count)
    else (false, or_reason terminal_reason terminal_class_reason)

abbrev pub drop_reason : Bool × Option Text → Bool × Option Text
drop_reason (true, reason) = (true, none)
drop_reason (false, reason) = (false, reason)

unfoldable pub apply_retry_policy :
    Bool → ℕ → Option BroadcastErrorClass → Option Text → Bool × Option Text
unfolding is_retryable_broadcast_error_class retry_budget_terminal_reason
apply_retry_policy retryable attempt_count last_error_class terminal_reason =
    drop_reason (apply_class retryable attempt_count last_error_class terminal_reason)

abbrev pub or_now : Option ℤ → ℤ → Option ℤ
or_now (some t) now_ms = some t
or_now none now_ms = some now_ms

module _ (to_lowercase : Text → Text) where
  abbrev pub class_or_classify :
      Option BroadcastErrorClass → Option Text → Option BroadcastErrorClass
  class_or_classify (some class) last_error = some class
  class_or_classify none none = none
  class_or_classify none (some e) = some (classify_broadcast_error_message to_lowercase e)

  unfoldable pub normalize_queued_broadcast_meta : QueuedBroadcastMeta → ℤ → QueuedBroadcastMeta
  normalize_queued_broadcast_meta meta now_ms =
      let class = class_or_classify meta.last_error_class meta.last_error in
      let (retryable, terminal_reason) =
        apply_retry_policy meta.retryable meta.attempt_count class meta.terminal_reason in
      record meta {
        last_error_class = class;
        retryable = retryable;
        terminal_reason = terminal_reason;
        next_attempt_at_ms = if retryable then or_now meta.next_attempt_at_ms now_ms else none;
      }

abbrev pub first_streak : Option BroadcastErrorClass → ℕ
first_streak (some transient_transport) = 1
first_streak (some transient_server) = 0
first_streak (some terminal) = 0
first_streak (some unknown) = 0
first_streak none = 0

-- The record that `queue_broadcast` writes for a first failure.
unfoldable pub queue_broadcast :
    ℤ → ℕ → Option Text → Option BroadcastErrorClass → Bool → QueuedBroadcastMeta
queue_broadcast created_at_ms delay_ms last_error last_error_class retryable =
    let (retryable', terminal_reason) = apply_retry_policy retryable 0 last_error_class none in
    record {
      created_at_ms = created_at_ms;
      attempt_count = 0;
      next_attempt_at_ms =
          if retryable' then some (saturating_add created_at_ms delay_ms) else none;
      last_attempt_at_ms = some created_at_ms;
      transport_failure_streak = first_streak last_error_class;
      retryable = retryable';
      last_error_class = last_error_class;
      terminal_reason = terminal_reason;
      last_error = last_error;
    }

-- job_service.rs: the record that `queue_broadcast_for_retry` writes, with no policy applied.
unfoldable pub queue_broadcast_for_retry :
    ℤ → ℕ → Option Text → Option BroadcastErrorClass → Bool → QueuedBroadcastMeta
queue_broadcast_for_retry now_ms delay_ms last_error last_error_class retryable = record {
  created_at_ms = now_ms;
  attempt_count = 0;
  next_attempt_at_ms = if retryable then some (saturating_add now_ms delay_ms) else none;
  last_attempt_at_ms = some now_ms;
  transport_failure_streak = first_streak last_error_class;
  retryable = retryable;
  last_error_class = last_error_class;
  terminal_reason = none;
  last_error = last_error;
}

-- What `update_queued_broadcast_error` takes where no readable record is on disk.
abbrev pub existing_or_new : Option QueuedBroadcastMeta → ℤ → QueuedBroadcastMeta
existing_or_new (some meta) now_ms = meta
existing_or_new none now_ms = record {
  created_at_ms = now_ms;
  attempt_count = 0;
  next_attempt_at_ms = none;
  last_attempt_at_ms = none;
  transport_failure_streak = 0;
  retryable = true;
  last_error_class = none;
  terminal_reason = none;
  last_error = none;
}

unfoldable pub update_queued_broadcast_error :
    Option QueuedBroadcastMeta
    → ℤ
    → ℕ
    → Option Text
    → Option BroadcastErrorClass
    → Bool
    → ℕ
    → ℕ
    → QueuedBroadcastMeta
update_queued_broadcast_error on_disk now_ms delay_ms last_error last_error_class retryable
      attempt_count transport_failure_streak =
    let existing = existing_or_new on_disk now_ms in
    let (retryable', terminal_reason) =
      apply_retry_policy retryable attempt_count last_error_class existing.terminal_reason in
    record {
      created_at_ms = existing.created_at_ms;
      attempt_count = attempt_count;
      next_attempt_at_ms = if retryable' then some (saturating_add now_ms delay_ms) else none;
      last_attempt_at_ms = some now_ms;
      transport_failure_streak = transport_failure_streak;
      retryable = retryable';
      last_error_class = last_error_class;
      terminal_reason = terminal_reason;
      last_error = last_error;
    }
