-- ===== src/Swap/Refresh/Races.antt =====
-- A refresh beside the polling task of the same swap.
use zbag_app_tauri.Base.{
  ℕ, ◌≡◌, ap, ◌∙◌, Bool, true, false, ◌∷◌, Option, some, arith, ==_refl, Text,
}
use zbag_app_tauri.Base.Int.{ℤ}
use zbag_app_tauri.Base.Maps.{lookup, has}
use zbag_app_tauri.Swap.{
  SwapInfo, awaiting_deposit, completed, pending, success, processing, update_swap,
  next_state_from_remote_status, load_owned_swap,
}
use zbag_app_tauri.Swap.Polling.{status, Round, poll_round, start_poll, take_status}
use zbag_app_tauri.Swap.Polling.Ends.{IsUndisturbed}
use zbag_app_tauri.Swap.Refresh.{
  Store, RefreshStep, asks, begin_refresh, finish_refresh, try_acquire_refresh_inflight_guard,
  release_guard,
}
use zbag_app_tauri.Swap.Refresh.Stored.{lookup-update_swap}

module _ (store : Store) (wallet_id : ℕ) (swap : SwapInfo) (address : Text) (r : Round) where
  asked :
      lookup swap.id store.swaps ≡ some (wallet_id, swap)
      → swap.state ≡ awaiting_deposit
      → swap.deposit_address ≡ some address
      → has swap.id store.refresh_inflight ≡ false
      → begin_refresh store wallet_id swap.id
        ≡ (record store { refresh_inflight = swap.id ∷ store.refresh_inflight }, asks swap)
  unfolding begin_refresh load_owned_swap try_acquire_refresh_inflight_guard
  asked row s d free = ground (arith, row, s, d, free, ==_refl wallet_id)

  polled :
      (message : Option Text)
      → swap.state ≡ awaiting_deposit
      → swap.deposit_address ≡ some address
      → IsUndisturbed r
      → r.confirmed ≡ true
      → r.answer ≡ status success message
      → (poll_round (start_poll swap) r).swap ≡ take_status swap completed message r.now_ms
  unfolding poll_round start_poll next_state_from_remote_status
  polled message s d u c a = ground (arith, s, d, u, c, a)

  -- The refresh has asked, and the polling task then writes what it holds.
  abbrev pub between : Store
  between =
      let started = (begin_refresh store wallet_id swap.id).0 in
      record started {
        swaps = update_swap started.swaps wallet_id (poll_round (start_poll swap) r).swap;
      }

  reopened :
      (message older : Option Text) (confirmed : Bool) (now : ℤ) (later : Store)
      → lookup swap.id store.swaps ≡ some (wallet_id, swap)
      → swap.state ≡ awaiting_deposit
      → later.swaps
        ≡ update_swap store.swaps wallet_id (take_status swap completed message r.now_ms)
      → lookup swap.id
          (finish_refresh later wallet_id swap (status processing older) confirmed now).0.swaps
        ≡ some (wallet_id, take_status swap pending older now)
  unfolding finish_refresh next_state_from_remote_status release_guard
  reopened message older confirmed now later row s e =
      let done = take_status swap completed message r.now_ms in
      let first = lookup-update_swap store.swaps wallet_id swap.id done in
      let second =
        lookup-update_swap later.swaps wallet_id swap.id (take_status swap pending older now) in
      let found : lookup swap.id later.swaps ≡ some (wallet_id, done) =
        ap (lookup swap.id) e ∙ ground (arith, first, row) in
      ground (arith, second, found, s)

  -- A refresh that asked before the polling task saw a swap complete, and whose answer still says
  -- that the swap is processed, writes the completed swap back to pending.
  pub refresh_reopens :
      (message older : Option Text) (confirmed : Bool) (now : ℤ)
      → lookup swap.id store.swaps ≡ some (wallet_id, swap)
      → swap.state ≡ awaiting_deposit
      → swap.deposit_address ≡ some address
      → has swap.id store.refresh_inflight ≡ false
      → IsUndisturbed r
      → r.confirmed ≡ true
      → r.answer ≡ status success message
      → ((begin_refresh store wallet_id swap.id).1 ≡ asks swap)
        × ((poll_round (start_poll swap) r).swap.state ≡ completed)
        × (lookup swap.id
              (finish_refresh between wallet_id swap
                (status processing older)
                confirmed
                now).0.swaps
            ≡ some (wallet_id, take_status swap pending older now))
  refresh_reopens message older confirmed now row s d free u c a =
      let begun = asked row s d free in
      let done = polled message s d u c a in
      let swaps : between.swaps
          ≡ update_swap store.swaps wallet_id (take_status swap completed message r.now_ms) =
        ap
          (λ (t : Store × RefreshStep).
            update_swap t.0.swaps wallet_id (poll_round (start_poll swap) r).swap)
          begun
        ∙ ap (update_swap store.swaps wallet_id) done in
      (
        ap (λ (t : Store × RefreshStep). t.1) begun,
        ap (λ (t : SwapInfo). t.state) done,
        reopened message older confirmed now between row s swaps,
      )
