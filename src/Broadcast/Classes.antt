-- ===== src/Broadcast/Classes.antt =====
-- What the classes of broadcast.rs promise of an error message.
use zbag_app_tauri.Base.{
  ◌++◌, ◌≡◌, ◌↔◌, Bool, true, false, some, none, arith, Text, contains_any, contains_any-append,
}
use zbag_app_tauri.Broadcast.{
  BroadcastErrorClass, terminal, terminal_markers, classify_broadcast_error_message,
  is_effective_success_broadcast_error, is_retryable_broadcast_error_class,
  classify_job_broadcast_failure,
}

module _ (to_lowercase : Text → Text) where
  -- A message is terminal exactly if it holds a terminal marker and no duplicate marker.
  pub classify-terminal_iff :
      (m : Text)
      → (classify_broadcast_error_message to_lowercase m ≡ terminal) ↔ (
          (is_effective_success_broadcast_error to_lowercase m ≡ false)
          × (contains_any (to_lowercase m) terminal_markers ≡ true))
  unfolding classify_broadcast_error_message is_effective_success_broadcast_error
  classify-terminal_iff m = (λ h. ground arith, λ h. ground arith)

  -- Let a message `m` be classified terminal, and let a longer message hold it so that its lower
  -- case holds that of `m`. The longer one is terminal too, unless it reports a duplicate relay.
  pub classify-wrap_terminal :
      (m wrapped before after : Text)
      → to_lowercase wrapped ≡ before ++ (to_lowercase m ++ after)
      → classify_broadcast_error_message to_lowercase m ≡ terminal
      → is_effective_success_broadcast_error to_lowercase wrapped ≡ false
      → classify_broadcast_error_message to_lowercase wrapped ≡ terminal
  classify-wrap_terminal m wrapped before after e h d = ground (
    arith,
    classify-terminal_iff m,
    classify-terminal_iff wrapped,
    contains_any-append before (to_lowercase m) after terminal_markers,
  )

  -- The job service drops exactly the duplicate relays.
  pub classify_job-none_iff :
      (m : Text)
      → (classify_job_broadcast_failure to_lowercase m ≡ none)
        ↔ (is_effective_success_broadcast_error to_lowercase m ≡ true)
  unfolding classify_job_broadcast_failure
  classify_job-none_iff m = (λ h. ground arith, λ h. ground arith)

  -- What the job service reports of a failure is its class, which is not that of a duplicate
  -- relay, and it is marked as not retryable exactly if it holds a terminal marker.
  pub classify_job-some :
      (m : Text) (c : BroadcastErrorClass) (retryable : Bool)
      → classify_job_broadcast_failure to_lowercase m ≡ some (c, retryable)
      → (is_effective_success_broadcast_error to_lowercase m ≡ false)
        × (classify_broadcast_error_message to_lowercase m ≡ c)
        × ((retryable ≡ false) ↔ (contains_any (to_lowercase m) terminal_markers ≡ true))
  unfolding classify_job_broadcast_failure is_retryable_broadcast_error_class
  classify_job-some m c retryable h = (
    ground arith,
    ground arith,
    (λ e. ground (arith, classify-terminal_iff m), λ e. ground (arith, classify-terminal_iff m)),
  )
