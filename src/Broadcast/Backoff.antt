-- ===== src/Broadcast/Backoff.antt =====
-- The retry schedule of broadcast.rs.
use zbag_app_tauri.Base.{ℕ, suc, ◌*◌, ◌≤◌, ◌<◌, arith}
use zbag_app_tauri.Broadcast.{retry_backoff_base, retry_backoff_with_jitter}

-- The delay never falls as the attempts grow.
pub retry_backoff_base_mono : (n m : ℕ) → n ≤ m → retry_backoff_base n ≤ retry_backoff_base m
unfolding retry_backoff_base
retry_backoff_base_mono n m h = ground arith

-- With a draw in its range the delay stays within a fifth of the scheduled one.
pub retry_backoff_with_jitter_bounds :
    (n offset : ℕ)
    → offset ≤ 2 * (retry_backoff_base n * 200)
    → (retry_backoff_base n * 800 ≤ retry_backoff_with_jitter n offset)
      × (retry_backoff_with_jitter n offset ≤ retry_backoff_base n * 1200)
unfolding retry_backoff_with_jitter
retry_backoff_with_jitter_bounds n offset h = ground arith

-- Up to the end of the schedule every delay is longer than the one before, whatever the draws in
-- their range.
pub retry_backoff_with_jitter_grows :
    (n offset offset' : ℕ)
    → n < 6
    → offset ≤ 2 * (retry_backoff_base n * 200)
    → offset' ≤ 2 * (retry_backoff_base (suc n) * 200)
    → retry_backoff_with_jitter n offset < retry_backoff_with_jitter (suc n) offset'
unfolding retry_backoff_with_jitter
retry_backoff_with_jitter_grows n offset offset' lt h k = ground arith
