-- ===== src/Examples/Swaps.antt =====
-- A swap that is asked for, started, polled and refreshed.
use zbag_app_tauri.Base.{
  ℕ, ◌≡◌, refl, true, false, List, [], ◌∷◌, none, some, arith, text, text_eq, trim, All,
}
use zbag_app_tauri.Base.Int.{pos}
use zbag_app_tauri.Base.Maps.{lookup, has}
use zbag_app_tauri.Base.Results.{Result, ok}
use zbag_app_tauri.Servers.{mainnet}
use zbag_app_tauri.Swap.{
  to_zec, from_zec, exact_input, SwapInfo, awaiting_deposit, success, processing, completed,
  pending, next_state_from_remote_status,
}
use zbag_app_tauri.Swap.Polling.{
  Answer, status, rate_limited, other_error, Round, poll, start_poll, poll_round, take_status,
}
use zbag_app_tauri.Swap.Polling.Ends.{IsUndisturbed, some_settles, Settled, poll_ends}
use zbag_app_tauri.Swap.Polling.Sleeps.{IsWithin, poll_sleeps}
use zbag_app_tauri.Swap.Quotes.{SwapIntent, SwapQuote, SwapStore, software, Draws, start_swap}
use zbag_app_tauri.Swap.Quotes.Assets.{
  TokenCache, tokens, QuoteRequest, QuoteAnswer, request_swap_quote,
}
use zbag_app_tauri.Swap.Quotes.Started.{Outcome, start_swap-Outcome}
use zbag_app_tauri.Swap.Refresh.{Store, asks, begin_refresh, finish_refresh, refresh_swap_status}
use zbag_app_tauri.Swap.Refresh.Races.{between, refresh_reopens}
use zbag_app_tauri.Swap.Refresh.Stored.{IsKept, refresh-IsKept}

abbrev pub swap : SwapInfo
swap = record {
  id = 30;
  remote_id = some 40;
  swap_type = to_zec;
  input_asset = text "nep141:wrap.near";
  input_amount = text "1.5";
  output_asset = text "nep141:zec.omft.near";
  output_amount = some (text "0.1");
  deposit_address = some (text "near1");
  deposit_memo = none;
  destination_address = some (text "t1");
  refund_address = some (text "near2");
  state = awaiting_deposit;
  deadline = some (pos 7201000);
  last_error = none;
  created_at = pos 1000;
  updated_at = pos 1000;
}

abbrev round_of : Answer → Round
round_of answer = record {
  active_before = true;
  cancelled = false;
  active_after = true;
  answer = answer;
  confirmed = true;
  now_ms = pos 6000;
}

abbrev rounds : List Round
rounds =
    round_of (rate_limited (some 90000) (text "slow down"))
    ∷ round_of (other_error (text "timeout"))
    ∷ round_of (status success none)
    ∷ round_of (status processing none)
    ∷ []

undisturbed : All IsUndisturbed rounds
undisturbed =
    ((refl, refl, refl), ((refl, refl, refl), ((refl, refl, refl), ((refl, refl, refl), tt))))

settled : some_settles rounds ≡ true
unfolding next_state_from_remote_status
settled = refl

poll_ends_example : Settled (poll (start_poll swap) rounds)
poll_ends_example = poll_ends swap (text "near1") rounds refl undisturbed settled

poll_sleeps_example : All (IsWithin 2000) (poll (start_poll swap) rounds).sleeps
poll_sleeps_example = poll_sleeps 2000 swap rounds (omega arith) (omega arith, (tt, (tt, (tt, tt))))

slept : (poll (start_poll swap) rounds).sleeps ≡ 5000 ∷ 60000 ∷ 60000 ∷ []
unfolding poll start_poll
slept = refl

-- After a rate limit that names no time at all the backoff stays at nothing.
busy :
    (poll (start_poll swap) (
      round_of (rate_limited (some 0) (text "again"))
      ∷ round_of (other_error (text "down"))
      ∷ round_of (other_error (text "down"))
      ∷ [])).sleeps
    ≡ 5000 ∷ 0 ∷ 0 ∷ []
unfolding poll start_poll
busy = refl

abbrev table : Store
table = record { swaps = (30, (8, swap)) ∷ []; refresh_inflight = [] }

refresh-IsKept_example :
    IsKept table 8 30 (refresh_swap_status table 8 30 (status success none) true (pos 9000))
refresh-IsKept_example = refresh-IsKept table 8 30 (status success none) true (pos 9000) (refl, tt)

abbrev done_round : Round
done_round = round_of (status success none)

refresh_reopens_example :
    ((begin_refresh table 8 30).1 ≡ asks swap)
    × ((poll_round (start_poll swap) done_round).swap.state ≡ completed)
    × (lookup 30
          (finish_refresh
            (between table 8 swap (text "near1") done_round)
            8
            swap
            (status processing none)
            true
            (pos 9000)).0.swaps
        ≡ some (8, take_status swap pending none (pos 9000)))
unfolding lookup has
refresh_reopens_example =
    refresh_reopens table 8 swap (text "near1") done_round none none true (pos 9000) refl refl refl
      refl (refl, refl, refl) refl refl

abbrev intent : SwapIntent
intent = record {
  swap_type = from_zec;
  swap_mode = exact_input;
  input_asset = text "nep141:zec.omft.near";
  input_amount = text "1.5";
  output_asset = text "nep141:wrap.near";
  output_amount = none;
  destination_address = some (text "near1");
  refund_address = some (text "t1");
}

-- A service that answers every request with one quote.
abbrev ask : QuoteRequest → Result QuoteAnswer
ask request = ok (record {
  amount_in = request.amount;
  amount_in_formatted = text "1.5";
  amount_out = text "7";
  amount_out_formatted = text "7";
  min_amount_out = text "6";
  deadline_ms = none;
  time_estimate_secs = 60;
  deposit_address = some (text "t2");
  deposit_memo = none;
  correlation_id = 40;
})

abbrev empty : SwapStore
empty = record { quotes = []; jobs = []; swaps = [] }

abbrev no_cache : TokenCache
no_cache = record { token_decimals = []; token_decimals_updated_ms = none }

abbrev requested : (SwapStore × TokenCache) × Result (ℕ × SwapQuote)
requested =
    request_swap_quote (empty, no_cache) 8 mainnet intent (tokens []) ask (pos 1000) (pos 1500)

abbrev quote : SwapQuote
quote = record {
  input_asset = text "nep141:zec.omft.near";
  input_amount = text "150000000";
  input_amount_formatted = text "1.5";
  output_asset = text "nep141:wrap.near";
  output_amount = text "7";
  output_amount_formatted = text "7";
  min_output_amount = text "6";
  deadline = pos 7201000;
  time_estimate_secs = 60;
  deposit_address = some (text "t2");
  deposit_memo = none;
  correlation_id = 40;
}

quotes :
    request_swap_quote (empty, no_cache) 8 mainnet intent (tokens []) ask (pos 1000) (pos 1500)
    ≡ ((requested.0.0, requested.0.1), ok (40, quote))
unfolding request_swap_quote trim text_eq
quotes = refl

abbrev draws : Draws
draws = record {
  swap_id = 31;
  checked_at = pos 2000;
  created_at = pos 2001;
  updated_at = pos 9000;
  inserts = true;
  updates = true;
  spawns = true;
}

abbrev started : SwapStore × Result SwapInfo
started =
    start_swap (λ code. text "failed") requested.0.0 8 mainnet 40 true (some (text "token"))
      ((0, software) ∷ []) draws (λ request. ok 5)

start_swap-Outcome_example : Outcome 8 draws requested.0.0 started.0 started.1
start_swap-Outcome_example =
    start_swap-Outcome (λ code. text "failed") 8 draws (λ request. ok 5) requested.0.0 mainnet 40
      true (some (text "token")) ((0, software) ∷ [])
