-- ===== src/Swap/Polling.antt =====
-- The task that polls a swap (`start_polling` of crates/zbag-engine/src/swap_service.rs). Times to
-- sleep are in milliseconds. What a round of the loop finds is a `Round`: whether the wallet is
-- active before and after the sleep, whether the task was cancelled during it, what the service
-- answers, whether the wallet shows the confirmed payment, and the clock.
pub mod Sleeps
pub mod Ends
use zbag_app_tauri.Base.{
  ℕ, ◌*◌, min, Bool, true, false, not, ◌&&◌, ◌||◌, List, [], ◌∷◌, ◌++◌, Option, none, some, Text,
  if◌then◌else◌,
}
use zbag_app_tauri.Base.Int.{ℤ}
use zbag_app_tauri.Swap.{
  SwapState, SwapInfo, RemoteStatus, is_terminal, next_state_from_remote_status, state_eq, error_eq,
}

-- A status with its message, or an error with its text; a rate limit may name a time to wait. A
-- timeout of 15 seconds is an `other_error`.
pub data Answer : Type 0 where
  status : RemoteStatus → Option Text → Answer
  rate_limited : Option ℕ → Text → Answer
  other_error : Text → Answer

pub record Round : Type 0 where
  pub active_before : Bool
  pub cancelled : Bool
  pub active_after : Bool
  pub answer : Answer
  pub confirmed : Bool
  pub now_ms : ℤ

-- The task's variables, and what it has done: the sleeps, and the swaps that it has written, the
-- latest first.
pub record Poll : Type 0 where
  pub swap : SwapInfo
  pub backoff : ℕ
  pub ended : Bool
  pub sleeps : List ℕ
  pub writes : List SwapInfo

abbrev pub first_backoff : ℕ
first_backoff = 5000

abbrev pub max_backoff : ℕ
max_backoff = 60000

-- A status that changes the state or the message is taken over.
abbrev pub take_status : SwapInfo → SwapState → Option Text → ℤ → SwapInfo
take_status swap next_state message now_ms = record swap {
  state = next_state;
  updated_at = now_ms;
  last_error = message;
}

abbrev pub changes : SwapInfo → SwapState → Option Text → Bool
changes swap next_state message =
    not (state_eq next_state swap.state) || not (error_eq message swap.last_error)

abbrev pub taken_over : Poll → SwapInfo → Poll
taken_over p swap = record p {
  backoff = first_backoff;
  swap = swap;
  ended = is_terminal swap.state;
  writes = swap ∷ p.writes;
}

abbrev pub unchanged : Poll → Poll
unchanged p = record p { backoff = first_backoff; ended = is_terminal p.swap.state }

abbrev pub on_status : Poll → SwapState → Option Text → ℤ → Poll
on_status p next_state message now_ms =
    if changes p.swap next_state message
    then taken_over p (take_status p.swap next_state message now_ms)
    else unchanged p

abbrev pub wait_for : ℕ → Option ℕ → ℕ
wait_for backoff none = min (backoff * 2) max_backoff
wait_for backoff (some retry_after) = min retry_after max_backoff

abbrev pub on_error : Poll → Text → ℤ → Poll
on_error p message now_ms =
    let swap = record p.swap { last_error = some message; updated_at = now_ms } in
    record p { backoff = min (p.backoff * 2) max_backoff; swap = swap; writes = swap ∷ p.writes }

abbrev pub on_answer : Poll → Bool → ℤ → Answer → Poll
on_answer p confirmed now_ms (status s message) =
    on_status p (next_state_from_remote_status confirmed s) message now_ms
on_answer p confirmed now_ms (rate_limited retry_after message) = record p {
  backoff = wait_for p.backoff retry_after;
}
on_answer p confirmed now_ms (other_error message) = on_error p message now_ms

abbrev pub ask : Poll → Round → Option Text → Poll
ask p r none = record p { ended = true }
ask p r (some deposit_address) = on_answer p r.confirmed r.now_ms r.answer

abbrev pub after_sleep : Poll → Round → Poll
after_sleep p r =
    if r.cancelled || not r.active_after
    then record p { ended = true }
    else ask p r p.swap.deposit_address

abbrev pub slept : Poll → Poll
slept p = record p { sleeps = p.sleeps ++ (p.backoff ∷ []) }

-- One round of the `loop`.
unfoldable pub poll_round : Poll → Round → Poll
unfolding next_state_from_remote_status
poll_round p r =
    if p.ended
    then p
    else (if not r.active_before then record p { ended = true } else after_sleep (slept p) r)

unfoldable pub start_poll : SwapInfo → Poll
start_poll initial_swap = record {
  swap = initial_swap;
  backoff = first_backoff;
  ended = false;
  sleeps = [];
  writes = [];
}

unfoldable pub poll : Poll → List Round → Poll
unfolding poll_round
poll p [] = p
poll p (r ∷ rounds) = poll (poll_round p r) rounds
