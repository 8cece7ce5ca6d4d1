-- ===== src/Retry/Loop.antt =====
-- The retry loop ends within the budget, and what it leaves behind.
use zbag_app_tauri.Base.{
  ℕ, zero, suc, ◌+◌, ◌≤◌, ◌<◌, ◌≡◌, refl, Bool, true, false, List, Option, none, some, Text, arith,
  max,
}
use zbag_app_tauri.Base.Int.{ℤ}
use zbag_app_tauri.RetryQueue.{QueuedBroadcastMeta, saturating_add32, update_queued_broadcast_error}
use zbag_app_tauri.RetryQueue.Policy.{IsNormal, apply_retry_policy-InBudget}
use zbag_app_tauri.RetryQueue.Writes.{update_queued_broadcast_error-IsNormal}
use zbag_app_tauri.Servers.{Network, ServerInfo, Failover, switch_failed, not_switched, switched}
use zbag_app_tauri.Broadcast.{
  BroadcastErrorClass, classify_broadcast_error_message, is_retryable_broadcast_error_class,
}
use zbag_app_tauri.Retry.{
  Outcome, sent, failed, database_error, out_of_fuel, retry_loop, give_up, settle, on_failure,
  send_transaction_bytes,
}

update_attempt_count :
    (on_disk : Option QueuedBroadcastMeta) (now_ms : ℤ) (delay_ms : ℕ) (e : Option Text)
    (class : Option BroadcastErrorClass) (r : Bool) (n streak : ℕ)
    → (update_queued_broadcast_error on_disk now_ms delay_ms e class r n streak).attempt_count ≡ n
unfolding update_queued_broadcast_error
update_attempt_count on_disk now_ms delay_ms e class r n streak = refl

-- How the loop may end from an attempt count of `n`: what was sent was accepted by some server in
-- some round; a failure is recorded at rest, with more attempts than before, and no more than 7 or
-- one more.
abbrev pub Ends : (Text → Text) → (ℕ → Text → Option Text) → ℕ → Outcome → Type 0
Ends to_lowercase relay n (sent rows) =
    (round : ℕ) × (url : Text) × (send_transaction_bytes to_lowercase relay round url ≡ none)
Ends to_lowercase relay n (failed rows msg meta) =
    IsNormal meta × (n < meta.attempt_count) × (meta.attempt_count ≤ max 7 (n + 1))
Ends to_lowercase relay n database_error = Unit
Ends to_lowercase relay n out_of_fuel = ⊥

module _ (to_lowercase : Text → Text) (validate probe : Text → Bool)
    (relay : ℕ → Text → Option Text) (now : ℕ → ℤ) (delay : ℕ → ℕ) (network : Network) where
  -- How one round can end, given the later rounds.
  pub data Round (next : List ServerInfo → Text → ℕ → ℕ → Outcome) (n : ℕ) : Outcome → Type 0 where
    sends :
        (rows : List ServerInfo) (round : ℕ) (url : Text)
        → send_transaction_bytes to_lowercase relay round url ≡ none
        → Round next n (sent rows)
    breaks : Round next n database_error
    records :
        (rows : List ServerInfo) (msg : Text) (meta : QueuedBroadcastMeta)
        → IsNormal meta
        → meta.attempt_count ≡ saturating_add32 n 1
        → Round next n (failed rows msg meta)
    goes_on :
        (rows : List ServerInfo) (url : Text)
        → saturating_add32 n 1 < 7
        → Round next n (next rows url (saturating_add32 n 1) 0)

  give_up-Round :
      (next : List ServerInfo → Text → ℕ → ℕ → Outcome) (n : ℕ) (rows : List ServerInfo)
      (on_disk : Option QueuedBroadcastMeta) (round streak : ℕ) (msg : Text)
      (class : BroadcastErrorClass) (retryable : Bool)
      → Round next n (
          give_up to_lowercase validate probe relay now delay network rows on_disk round
            (saturating_add32 n 1)
            streak
            msg
            class
            retryable)
  give_up-Round next n rows on_disk round streak msg class retryable =
      records rows msg _
        (update_queued_broadcast_error-IsNormal on_disk (now round) (delay round) (some msg)
          (some class) retryable (saturating_add32 n 1) streak)
        (update_attempt_count on_disk (now round) (delay round) (some msg) (some class) retryable
          (saturating_add32 n 1) streak)

  settle-Round :
      (next : List ServerInfo → Text → ℕ → ℕ → Outcome) (n : ℕ) (rows : List ServerInfo)
      (on_disk : Option QueuedBroadcastMeta) (round streak : ℕ) (msg : Text)
      (class : BroadcastErrorClass) (retryable : Bool) (failover : Failover)
      → (retryable ≡ true → saturating_add32 n 1 < 7)
      → Round next n (
          settle to_lowercase validate probe relay now delay network next rows on_disk round
            (saturating_add32 n 1)
            streak
            msg
            class
            retryable
            failover)
  unfolding settle
  settle-Round next n rows on_disk round streak msg class retryable switch_failed b = breaks
  settle-Round next n rows on_disk round streak msg class retryable not_switched b =
      give_up-Round next n rows on_disk round streak msg class retryable
  settle-Round next n rows on_disk round streak msg class true (switched rows' url) b =
      goes_on rows' url (b refl)
  settle-Round next n rows on_disk round streak msg class false (switched rows' url) b =
      give_up-Round next n rows' on_disk round 0 msg class false

  on_failure-Round :
      (next : List ServerInfo → Text → ℕ → ℕ → Outcome) (n : ℕ) (rows : List ServerInfo)
      (on_disk : Option QueuedBroadcastMeta) (round streak : ℕ) (url msg : Text)
      → Round next n (
          on_failure to_lowercase validate probe relay now delay network next rows on_disk round url
            n streak msg)
  unfolding on_failure
  on_failure-Round next n rows on_disk round streak url msg =
      let class = classify_broadcast_error_message to_lowercase msg in
      settle-Round next n rows on_disk round _ msg class _ _ λ e.
        (apply_retry_policy-InBudget (is_retryable_broadcast_error_class class)
            (saturating_add32 n 1) (some class) none e).1.total
          class refl

  answered_Round :
      (next : List ServerInfo → Text → ℕ → ℕ → Outcome) (n : ℕ) (rows : List ServerInfo)
      (on_disk : Option QueuedBroadcastMeta) (round streak : ℕ) (url : Text) (o : Option Text)
      → send_transaction_bytes to_lowercase relay round url ≡ o
      → Round next n (
          let y : Outcome = elim o [
            | none ↦ sent rows
            | some msg ↦
                on_failure to_lowercase validate probe relay now delay network next rows on_disk
                  round url n streak msg
          ] in
          y)
  answered_Round next n rows on_disk round streak url none e = sends rows round url e
  answered_Round next n rows on_disk round streak url (some msg) e =
      on_failure-Round next n rows on_disk round streak url msg

  retry_loop-Round :
      (fuel round : ℕ) (rows : List ServerInfo) (on_disk : Option QueuedBroadcastMeta) (url : Text)
      (n streak : ℕ)
      → Round
          (retry_loop to_lowercase validate probe relay now delay network fuel (suc round) on_disk)
          n
          (retry_loop to_lowercase validate probe relay now delay network
            (suc fuel)
            round
            on_disk
            rows
            url
            n
            streak)
  unfolding retry_loop
  retry_loop-Round fuel round rows on_disk url n streak =
      answered_Round _ n rows on_disk round streak url
        (send_transaction_bytes to_lowercase relay round url) refl

  Ends-mono :
      (n m : ℕ) (o : Outcome)
      → n ≤ m
      → m < 7
      → Ends to_lowercase relay m o
      → Ends to_lowercase relay n o
  Ends-mono n m (sent rows) h l e = e
  Ends-mono n m (failed rows msg meta) h l e = (e.0, omega (arith, e.1), omega (arith, e.2))
  Ends-mono n m database_error h l e = tt
  Ends-mono n m out_of_fuel h l e = e

  Round-Ends :
      {next : List ServerInfo → Text → ℕ → ℕ → Outcome} {n : ℕ} {o : Outcome}
      → Round next n o
      → n < 4294967295
      → ((rows : List ServerInfo) (url : Text)
          → saturating_add32 n 1 < 7
          → Ends to_lowercase relay n (next rows url (saturating_add32 n 1) 0))
      → Ends to_lowercase relay n o
  Round-Ends (sends rows round url e) h k = (round, url, e)
  Round-Ends breaks h k = tt
  Round-Ends (records rows msg meta normal e) h k = (normal, omega (arith, e), omega (arith, e))
  Round-Ends (goes_on rows url l) h k = k rows url l

  -- From an attempt count below 4294967295, with some fuel and fuel for what is left of 7 attempts,
  -- the loop ends: a server accepted the transaction, or had it already, in some round; or the
  -- failure is recorded at rest with a grown attempt count of at most 7 (or one more than before,
  -- where the budget was used up already); or the database failed.
  pub retry_loop-Ends :
      (fuel round : ℕ) (rows : List ServerInfo) (on_disk : Option QueuedBroadcastMeta) (url : Text)
      (n streak : ℕ)
      → 0 < fuel
      → 7 ≤ fuel + n
      → n < 4294967295
      → Ends to_lowercase relay n (
          retry_loop to_lowercase validate probe relay now delay network fuel round on_disk rows url
            n streak)
  retry_loop-Ends zero round rows on_disk url n streak p h b = absurd (omega arith)
  retry_loop-Ends (suc fuel) round rows on_disk url n streak p h b =
      Round-Ends (retry_loop-Round fuel round rows on_disk url n streak) b λ rows' url' l.
        Ends-mono n (saturating_add32 n 1) _ (omega arith) l (
          retry_loop-Ends fuel (suc round) rows' on_disk url' (saturating_add32 n 1) 0 (omega arith)
            (omega arith) (omega arith))
