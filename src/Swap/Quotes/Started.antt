-- ===== src/Swap/Quotes/Started.antt =====
-- What a start leaves behind.
use zbag_app_tauri.Base.{
  ℕ, ◌≡◌, ◌⊎◌, refl, ap, ◌∙◌, Bool, true, false, not, List, Option, none, some, arith, Text, ◌==◌,
  ==_refl, by_test, inl, inr,
}
use zbag_app_tauri.Base.Int.{ℤ}
use zbag_app_tauri.Base.Maps.{lookup, has}
use zbag_app_tauri.Base.Results.{Result, ok, err, ErrorCode}
use zbag_app_tauri.Servers.{Network, testnet, network_eq}
use zbag_app_tauri.Swap.{
  SwapType, SwapState, to_zec, from_zec, SwapInfo, Swaps, draft, pending, failed, awaiting_deposit,
  is_terminal, insert_swap, update_swap, load_owned_swap,
}
use zbag_app_tauri.Swap.Quotes.{
  QuoteRecord, SwapStore, AccountType, SendRequest, Draws, check_quote, mark_job, new_swap,
  store_swap, change_swap, start_to_zec, prepare_send, after_send, start_from_zec, start_for,
  start_checked, start_swap, has_passed,
}

-- A start that succeeds has stored its swap, open, for the wallet, and a task polls it if the runtime
-- took one; one that fails has left the table and the tasks as they were, or has stored a failed swap
-- without a task, or a draft if the swap could not be updated.
abbrev pub Outcome : ℕ → Draws → SwapStore → SwapStore → Result SwapInfo → Type 0
Outcome wallet_id draws before after (ok swap) =
    (load_owned_swap after.swaps wallet_id draws.swap_id ≡ ok swap)
    × (is_terminal swap.state ≡ false)
    × ((has draws.swap_id after.jobs ≡ true) ⊎ (draws.spawns ≡ false))
Outcome wallet_id draws before after (err e) =
    (after.jobs ≡ before.jobs)
    × ((after.swaps ≡ before.swaps)
        ⊎ ((swap : SwapInfo) × (load_owned_swap after.swaps wallet_id draws.swap_id ≡ ok swap)
            × ((swap.state ≡ failed) ⊎ ((swap.state ≡ draft) × (draws.updates ≡ false)))))

mark_job-has :
    (spawns : Bool) (store : SwapStore) (id : ℕ)
    → (has id (mark_job spawns store id).jobs ≡ true) ⊎ (spawns ≡ false)
unfolding mark_job has
mark_job-has true store id = inl (ground (arith, ==_refl id))
mark_job-has false store id = inr refl

mark_job-swaps :
    (spawns : Bool) (store : SwapStore) (id : ℕ) → (mark_job spawns store id).swaps ≡ store.swaps
unfolding mark_job
mark_job-swaps spawns store id = ground arith

load-insert :
    (swaps : Swaps) (wallet_id : ℕ) (swap : SwapInfo)
    → load_owned_swap (insert_swap swaps wallet_id swap) wallet_id swap.id ≡ ok swap
unfolding load_owned_swap insert_swap lookup
load-insert swaps wallet_id swap = rw (==_refl swap.id, ==_refl wallet_id) refl

abbrev restated : SwapInfo → SwapState → ℤ → Option Text → SwapInfo
restated swap state now error = record swap { state = state; updated_at = now; last_error = error }

load-update :
    (swaps : Swaps) (wallet_id : ℕ) (swap : SwapInfo) (state : SwapState) (now : ℤ)
    (error : Option Text)
    → load_owned_swap
        (update_swap (insert_swap swaps wallet_id swap) wallet_id (restated swap state now error))
        wallet_id
        swap.id
      ≡ ok (restated swap state now error)
unfolding load_owned_swap insert_swap update_swap lookup
load-update swaps wallet_id swap state now error =
    ground (arith, ==_refl swap.id, ==_refl wallet_id)

module _ (error_text : ErrorCode → Text) (wallet_id : ℕ) (draws : Draws) where
  abbrev pub Good : SwapStore → SwapStore × Result SwapInfo → Type 0
  Good before r = Outcome wallet_id draws before r.0 r.1

  to_zec-Good :
      (store : SwapStore) (r : QuoteRecord) (address : Option Text)
      → Good store (start_to_zec store wallet_id r draws address)
  to_zec-Good store r none = (refl, inl refl)
  to_zec-Good store r (some a) =
      let swap = new_swap r a awaiting_deposit draws in
      let stored = store_swap store wallet_id swap in
      by_test (Good store) draws.inserts _ _
        (λ i. (
          ap (λ (t : Swaps). load_owned_swap t wallet_id draws.swap_id)
                (mark_job-swaps draws.spawns stored swap.id)
              ∙ load-insert store.swaps wallet_id swap,
          refl,
          mark_job-has draws.spawns stored swap.id,
        ))
        (λ i. (refl, inl refl))

  after_send-Good :
      (store : SwapStore) (r : QuoteRecord) (address : Text) (sent : Result ℕ)
      → Good store (
          after_send error_text
            (store_swap store wallet_id (new_swap r address draft draws))
            wallet_id
            (new_swap r address draft draws)
            draws
            sent)
  after_send-Good store r address (err e) =
      let swap = new_swap r address draft draws in
      by_test (λ (t : SwapStore). Good store (t, err e)) draws.updates _ _
        (λ u. (
          refl,
          inr (
            restated swap failed draws.updated_at (some (error_text e)),
            load-update store.swaps wallet_id swap failed draws.updated_at (some (error_text e)),
            inl refl,
          ),
        ))
        (λ u. (refl, inr (swap, load-insert store.swaps wallet_id swap, inr (refl, u))))
  after_send-Good store r address (ok txid) =
      let swap = new_swap r address draft draws in
      let sent = restated swap pending draws.updated_at none in
      let changed = change_swap (store_swap store wallet_id swap) wallet_id sent in
      by_test (Good store) draws.updates _ _
        (λ u. (
          ap (λ (t : Swaps). load_owned_swap t wallet_id draws.swap_id)
                (mark_job-swaps draws.spawns changed swap.id)
              ∙ load-update store.swaps wallet_id swap pending draws.updated_at none,
          refl,
          mark_job-has draws.spawns changed swap.id,
        ))
        (λ u. (refl, inr (swap, load-insert store.swaps wallet_id swap, inr (refl, u))))

  module _ (send : SendRequest → Result ℕ) where
    from_zec-Good :
        (store : SwapStore) (r : QuoteRecord) (request : Result SendRequest)
        → Good store (start_from_zec error_text store wallet_id r draws send request)
    from_zec-Good store r (err e) = (refl, inl refl)
    from_zec-Good store r (ok request) =
        by_test (Good store) draws.inserts _ _
          (λ i. after_send-Good store r request.recipient (send request)) (λ i. (refl, inl refl))

    start_for-Good :
        (allow : Bool) (token : Option Text) (accounts : List (ℕ × AccountType)) (store : SwapStore)
        (r : QuoteRecord) (t : SwapType)
        → Good store (start_for error_text store wallet_id allow token accounts draws send r t)
    start_for-Good allow token accounts store r to_zec = to_zec-Good store r r.quote.deposit_address
    start_for-Good allow token accounts store r from_zec =
        from_zec-Good store r (prepare_send r allow token accounts)

    -- Dropping a quote is no change of the table or of the tasks.
    checked-Good :
        (allow : Bool) (token : Option Text) (accounts : List (ℕ × AccountType)) (store : SwapStore)
        (quote_id : ℕ) (found : Option QuoteRecord)
        → Good store (
            start_checked error_text wallet_id allow token accounts draws send
              (check_quote store wallet_id quote_id draws.checked_at found))
    checked-Good allow token accounts store quote_id none = (refl, inl refl)
    checked-Good allow token accounts store quote_id (some r) =
        let P = λ (x : SwapStore × Result QuoteRecord).
          Good store (start_checked error_text wallet_id allow token accounts draws send x) in
        by_test P (not (r.wallet_id == wallet_id)) _ _ (λ e. (refl, inl refl))
          (λ e.
            by_test P (has_passed r.quote.deadline draws.checked_at) _ _ (λ d. (refl, inl refl))
              (λ d. start_for-Good allow token accounts store r r.intent.swap_type))

    -- A success of a start has stored the swap under the new id, for the wallet and not in a terminal
    -- state, and a task polls it unless the runtime took none; a failure has started no task, and has
    -- left the table as it was, or has stored a failed swap, or a draft where the swap could not be
    -- updated after the send.
    pub start_swap-Outcome :
        (store : SwapStore) (network : Network) (quote_id : ℕ) (allow : Bool) (token : Option Text)
        (accounts : List (ℕ × AccountType))
        → Good store
            (start_swap error_text store wallet_id network quote_id allow token accounts draws send)
    unfolding start_swap
    start_swap-Outcome store network quote_id allow token accounts =
        by_test (Good store) (network_eq network testnet) _ _ (λ e. (refl, inl refl))
          (λ e. checked-Good allow token accounts store quote_id (lookup quote_id store.quotes))
