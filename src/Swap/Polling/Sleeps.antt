-- ===== src/Swap/Polling/Sleeps.antt =====
-- How long the polling task sleeps.
use zbag_app_tauri.Base.{
  ℕ, ◌≤◌, ◌≡◌, refl, Bool, true, List, [], ◌∷◌, Option, none, some, arith, All, All-append, inl,
  inr, Bool-cases, by_test, Text, ◌||◌, not,
}
use zbag_app_tauri.Base.Int.{ℤ}
use zbag_app_tauri.Swap.{SwapInfo, next_state_from_remote_status}
use zbag_app_tauri.Swap.Polling.{
  Answer, status, rate_limited, other_error, Round, Poll, first_backoff, max_backoff, on_answer,
  ask, after_sleep, slept, poll_round, start_poll, poll, changes,
}

-- A rate limit that names a time names at least `m` milliseconds.
abbrev pub WaitsFor : ℕ → Answer → Type 0
WaitsFor m (status s message) = Unit {0}
WaitsFor m (rate_limited none message) = Unit {0}
WaitsFor m (rate_limited (some retry_after) message) = m ≤ retry_after
WaitsFor m (other_error message) = Unit {0}

abbrev pub IsWithin : ℕ → ℕ → Type 0
IsWithin m sleep = (m ≤ sleep) × (sleep ≤ max_backoff)

record IsPaced (m : ℕ) (p : Poll) : Type 0 where
  backoff_lem : IsWithin m p.backoff
  sleeps_lem : All (IsWithin m) p.sleeps

module _ (m : ℕ) (low : m ≤ first_backoff) where
  on_answer-IsWithin :
      (p : Poll) (confirmed : Bool) (now_ms : ℤ) (a : Answer)
      → WaitsFor m a
      → IsWithin m p.backoff
      → IsWithin m (on_answer p confirmed now_ms a).backoff
        × ((on_answer p confirmed now_ms a).sleeps ≡ p.sleeps)
  on_answer-IsWithin p confirmed now_ms (status s message) w h =
      elim (Bool-cases (changes p.swap (next_state_from_remote_status confirmed s) message)) [
        | inl e ↦ rw e ((omega (arith, low), omega arith), refl)
        | inr e ↦ rw e ((omega (arith, low), omega arith), refl)
      ]
  on_answer-IsWithin p confirmed now_ms (rate_limited none message) w h =
      ((omega (arith, h.0, low), omega arith), refl)
  on_answer-IsWithin p confirmed now_ms (rate_limited (some retry_after) message) w h =
      ((omega (arith, w, low), omega arith), refl)
  on_answer-IsWithin p confirmed now_ms (other_error message) w h =
      ((omega (arith, h.0, low), omega arith), refl)

  stop-IsPaced : (p : Poll) → IsPaced m p → IsPaced m (record p { ended = true })
  stop-IsPaced p h = record { backoff_lem = h.backoff_lem; sleeps_lem = h.sleeps_lem }

  ask-IsPaced :
      (p : Poll) (r : Round) (address : Option Text)
      → WaitsFor m r.answer
      → IsPaced m p
      → IsPaced m (ask p r address)
  ask-IsPaced p r none w h = stop-IsPaced p h
  ask-IsPaced p r (some a) w h =
      let (b, s) = on_answer-IsWithin p r.confirmed r.now_ms r.answer w h.backoff_lem in
      record { backoff_lem = b; sleeps_lem = rw s h.sleeps_lem }

  after_sleep-IsPaced :
      (p : Poll) (r : Round) → WaitsFor m r.answer → IsPaced m p → IsPaced m (after_sleep p r)
  after_sleep-IsPaced p r w h =
      by_test (IsPaced m) (r.cancelled || not r.active_after) _ _ (λ e. stop-IsPaced p h)
        (λ e. ask-IsPaced p r p.swap.deposit_address w h)

  slept-IsPaced : (p : Poll) → IsPaced m p → IsPaced m (slept p)
  slept-IsPaced p h = record {
    backoff_lem = h.backoff_lem;
    sleeps_lem = All-append (IsWithin m) p.sleeps (p.backoff ∷ []) h.sleeps_lem (h.backoff_lem, tt);
  }

  round-IsPaced :
      (p : Poll) (r : Round) → WaitsFor m r.answer → IsPaced m p → IsPaced m (poll_round p r)
  unfolding poll_round
  round-IsPaced p r w h =
      by_test (IsPaced m) p.ended _ _ (λ e. h)
        (λ e.
          by_test (IsPaced m) (not r.active_before) _ _ (λ b. stop-IsPaced p h)
            (λ b. after_sleep-IsPaced (slept p) r w (slept-IsPaced p h)))

  poll-IsPaced :
      (p : Poll) (rounds : List Round)
      → All (λ r. WaitsFor m r.answer) rounds
      → IsPaced m p
      → IsPaced m (poll p rounds)
  unfolding poll
  poll-IsPaced p [] w h = h
  poll-IsPaced p (r ∷ rounds) w h =
      poll-IsPaced (poll_round p r) rounds w.1 (round-IsPaced p r w.0 h)

-- Every sleep of a polling task lasts at most a minute. If the service never asks to wait for less
-- than `m` milliseconds, and `m` is at most five seconds, no sleep is shorter than `m`.
pub poll_sleeps :
    (m : ℕ) (swap : SwapInfo) (rounds : List Round)
    → m ≤ first_backoff
    → All (λ r. WaitsFor m r.answer) rounds
    → All (IsWithin m) (poll (start_poll swap) rounds).sleeps
unfolding start_poll
poll_sleeps m swap rounds low w =
    (poll-IsPaced m low (start_poll swap) rounds w
      (record { backoff_lem = (low, omega arith); sleeps_lem = tt })).sleeps_lem
