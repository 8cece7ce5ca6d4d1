-- ===== src/Swap/Quotes/Assets/Requested.antt =====
-- Whose a quote is.
use zbag_app_tauri.Base.{
  ℕ, ◌≡◌, ◌≢◌, refl, sym, ap, ◌∙◌, subst, Bool, true, false, ◌||◌, List, Option, some, arith, Text,
  ==_refl, ==_ne, Bool-cases, inl, inr,
}
use zbag_app_tauri.Base.Int.{ℤ, saturating_add}
use zbag_app_tauri.Base.Maps.{lookup, lookup-insert, retain}
use zbag_app_tauri.Base.Results.{
  Result, ok, err, ErrorCode, quote_expired, swap_unsupported_network, ◌>>=◌,
}
use zbag_app_tauri.Servers.{Network, testnet, network_eq}
use zbag_app_tauri.Swap.Quotes.{
  SwapIntent, SwapQuote, QuoteRecord, SwapStore, AccountType, SendRequest, Draws, start_swap, blank,
}
use zbag_app_tauri.Swap.Quotes.Assets.{
  TokenCache, Listed, QuoteRequest, QuoteAnswer, quote_of, quote_ttl_ms, amount_for, request_for,
  keep_quote, keep_answer, is_live, request_swap_quote,
}

abbrev given : ℕ × SwapQuote → Result (ℕ × SwapQuote) → ℕ × SwapQuote
given d (ok q) = q
given d (err e) = d

abbrev is_ok {ℓ} : {A : Type ℓ} → Result A → Bool
is_ok (ok a) = true
is_ok (err e) = false

-- The quote stands under its id, for the wallet and the intent that asked.
kept :
    (store after : SwapStore) (wallet_id : ℕ) (intent : SwapIntent) (fallback stored_at : ℤ)
    (a : Result QuoteAnswer) (id : ℕ) (quote : SwapQuote)
    → keep_answer store wallet_id intent fallback stored_at a ≡ (after, ok (id, quote))
    → lookup id after.quotes
      ≡ some (record { wallet_id = wallet_id; intent = intent; quote = quote })
unfolding keep_quote
kept store after wallet_id intent fallback stored_at (err e) id quote h = cc
kept store after wallet_id intent fallback stored_at (ok a) id quote h =
    let new : SwapQuote = quote_of intent fallback a in
    let r : QuoteRecord = record { wallet_id = wallet_id; intent = intent; quote = new } in
    let stored : lookup a.correlation_id (keep_quote store stored_at a.correlation_id r).quotes
        ≡ some r =
      lookup-insert a.correlation_id a.correlation_id r
        (retain (λ j q. is_live stored_at q.quote.deadline) store.quotes)
      ∙ rw (==_refl a.correlation_id) refl in
    let e0 = ap (λ (x : SwapStore × Result (ℕ × SwapQuote)). x.0) h in
    let e1 = ap (λ (x : SwapStore × Result (ℕ × SwapQuote)). given (a.correlation_id, new) x.1) h in
    subst
      (λ (p : ℕ × SwapQuote).
        lookup p.0 after.quotes
        ≡ some (record { wallet_id = wallet_id; intent = intent; quote = p.1 }))
      e1 (subst (λ (s : SwapStore). lookup a.correlation_id s.quotes ≡ some r) e0 stored)

abbrev Outcome : Type 0
Outcome = (SwapStore × TokenCache) × Result (ℕ × SwapQuote)

module _ (store : SwapStore) (cache : TokenCache) (w : ℕ) (network : Network)
    (intent : SwapIntent) where
  asked :
      (listed : Listed) (ask : QuoteRequest → Result QuoteAnswer) (now stored_at : ℤ)
      (after : SwapStore) (later : TokenCache) (id : ℕ) (quote : SwapQuote)
      → request_swap_quote (store, cache) w network intent listed ask now stored_at
        ≡ ((after, later), ok (id, quote))
      → lookup id after.quotes ≡ some (record { wallet_id = w; intent = intent; quote = quote })
  unfolding request_swap_quote
  asked listed ask now stored_at after later id quote h =
      let accepted : is_ok
            (request_swap_quote (store, cache) w network intent listed ask now stored_at).1
          ≡ true =
        ap (λ (x : Outcome). is_ok x.1) h in
      elim (Bool-cases (network_eq network testnet)) [
        | inl e ↦ absurd (ground (arith, e, accepted))
        | inr e ↦ elim (Bool-cases (blank intent.input_asset || blank intent.output_asset)) [
          | inl b ↦ absurd (ground (arith, e, b, accepted))
          | inr b ↦
              let amount = (amount_for cache intent now listed intent.swap_mode).1 in
              let fallback = saturating_add now quote_ttl_ms in
              let answer = request_for intent fallback amount >>= ask in
              let r = request_swap_quote (store, cache) w network intent listed ask now stored_at in
              let same : ◌≡◌ {A = SwapStore × Result (ℕ × SwapQuote)} (r.0.0, r.1)
                  (keep_answer store w intent fallback stored_at answer) =
                rw (e, b) refl in
              kept store after w intent fallback stored_at answer id quote
                (sym same ∙ ap (λ (x : Outcome). (x.0.0, x.1)) h)
        ]
      ]

-- A quote that a wallet was given stands for it, and no other wallet can start a swap by it, whatever
-- it is given and whenever: the attempt is an error and changes nothing.
pub request-start_other :
    (store after : SwapStore) (cache later : TokenCache) (w : ℕ) (network : Network)
    (intent : SwapIntent) (listed : Listed) (ask : QuoteRequest → Result QuoteAnswer)
    (now stored_at : ℤ) (id : ℕ) (quote : SwapQuote)
    → request_swap_quote (store, cache) w network intent listed ask now stored_at
      ≡ ((after, later), ok (id, quote))
    → (lookup id after.quotes ≡ some (record { wallet_id = w; intent = intent; quote = quote }))
      × ((error_text : ErrorCode → Text) (other : ℕ) (net : Network) (allow : Bool)
            (token : Option Text) (accounts : List (ℕ × AccountType)) (draws : Draws)
            (send : SendRequest → Result ℕ)
          → w ≢ other
          → (code : ErrorCode) × (start_swap error_text after other net id allow token accounts
                draws send
              ≡ (after, err code)))
unfolding start_swap
request-start_other store after cache later w network intent listed ask now stored_at id quote h =
    let found =
      asked store cache w network intent listed ask now stored_at after later id quote h in
    (
      found,
      λ error_text other net allow token accounts draws send ne.
          elim (Bool-cases (network_eq net testnet)) [
            | inl e ↦ (swap_unsupported_network, rw e refl)
            | inr e ↦ (quote_expired, rw (e, found, ==_ne w other ne) refl)
          ],
    )
