-- ===== src/Swap/Quotes/Assets.antt =====
-- The decimals of an asset and the request of a quote (`get_static_decimals_for_asset`,
-- `resolve_asset_decimals` and `request_swap_quote` of crates/zbag-engine/src/swap_service.rs).
pub mod Requested
use zbag_app_tauri.Base.{
  ℕ, Bool, true, false, not, ◌&&◌, ◌||◌, List, [], ◌∷◌, Option, none, some, Text, text, text_eq,
  trim, contains, leb, ◌==◌, if◌then◌else◌,
}
use zbag_app_tauri.Base.Int.{ℤ, pos, lebℤ, saturating_add}
use zbag_app_tauri.Base.Maps.{Map, insert, retain}
use zbag_app_tauri.Base.Results.{
  Result, ok, err, swap_unsupported_network, invalid_asset, invalid_request, swap_failed,
  tor_not_ready, ◌>>=◌, ◌>>◌, fail_if, ok_or,
}
use zbag_app_tauri.Servers.{Network, testnet, network_eq}
use zbag_app_tauri.Swap.{SwapMode, exact_input, exact_output}
use zbag_app_tauri.Swap.Amounts.{convert_to_smallest_units}
use zbag_app_tauri.Swap.Quotes.{SwapIntent, SwapQuote, QuoteRecord, SwapStore, blank, not_blank}

unfoldable pub zec_asset : Text
zec_asset = text "nep141:zec.omft.near"

abbrev pub is_one_of : Text → List Text → Bool
is_one_of s [] = false
is_one_of s (t ∷ ts) = text_eq s t || is_one_of s ts

abbrev pub contains_one_of : Text → List Text → Bool
contains_one_of s [] = false
contains_one_of s (t ∷ ts) = contains s t || contains_one_of s ts

-- The USDC and USDT contracts, in the order of the arms.
unfoldable pub stable_coins : List Text
stable_coins =
    text "0xa0b86991c6218b36c1d19d4a2e9eb0ce3606eb48"
    ∷ text "0xdac17f958d2ee523a2206206994597c13d831ec7"
    ∷ text "0x833589fcd6edb6e08f4c7c32d4f71b54bda02913"
    ∷ text "5ce3bf3a31af18be40ba30f721101b4341690186"
    ∷ text "c800a4bd850783ccb82c2b2c7e84175443606352"
    ∷ text "17208628f84f5d6ad33f0da3bbbeb27ffcb398eac501a31bd6ad2011e36133a1"
    ∷ []

unfoldable pub get_static_decimals_for_asset : Text → Option ℕ
unfolding zec_asset stable_coins contains
get_static_decimals_for_asset asset_id =
    if text_eq asset_id zec_asset
    then some 8
    else (if is_one_of asset_id (text "nep141:eth.omft.near" ∷ (text "nep141:base.omft.near" ∷ []))
        then some 18
        else (if text_eq asset_id (text "nep141:sol.omft.near")
            then some 9
            else (if text_eq asset_id (text "nep141:wrap.near")
                then some 24
                else (if contains_one_of asset_id stable_coins then some 6 else none))))

-- The cache of the service: the decimals that it listed, the latest entry of a name first, and when.
pub record TokenCache : Type 0 where
  pub token_decimals : List (Text × ℕ)
  pub token_decimals_updated_ms : Option ℤ

-- The answer of the service that lists the tokens.
pub data Listed : Type 0 where
  tokens : List (Text × ℕ) → Listed
  not_ready : Listed
  unavailable : Listed

unfoldable pub decimals_of : Text → List (Text × ℕ) → Option ℕ
decimals_of asset_id [] = none
decimals_of asset_id ((name, decimals) ∷ rest) =
    let later = decimals_of asset_id rest in if text_eq name asset_id then some decimals else later

-- Each entry takes the place of an earlier one.
unfoldable pub collect : List (Text × ℕ) → List (Text × ℕ) → List (Text × ℕ)
collect [] cache = cache
collect (t ∷ ts) cache = collect ts (t ∷ cache)

-- Five minutes.
abbrev pub token_decimals_cache_ttl_ms : ℕ
token_decimals_cache_ttl_ms = 300000

-- `now_ms.saturating_sub(updated_ms)` is at most five minutes.
abbrev pub is_fresh : Option ℤ → ℤ → Bool
is_fresh none now_ms = false
is_fresh (some updated_ms) now_ms =
    lebℤ now_ms (saturating_add updated_ms token_decimals_cache_ttl_ms)

abbrev pub first_some : Option ℕ → Option ℕ → Option ℕ
first_some none b = b
first_some (some a) b = some a

-- A failed refresh falls back on the stale entry, then on the static table.
abbrev pub after_listing : TokenCache → Text → ℤ → Option ℕ → Listed → TokenCache × Result ℕ
after_listing cache asset_id now_ms cached (tokens ts) =
    let refreshed = collect ts [] in
    (
      record { token_decimals = refreshed; token_decimals_updated_ms = some now_ms },
      ok_or (first_some (decimals_of asset_id refreshed) (get_static_decimals_for_asset asset_id))
          invalid_asset,
    )
after_listing cache asset_id now_ms cached not_ready =
    (cache, ok_or (first_some cached (get_static_decimals_for_asset asset_id)) tor_not_ready)
after_listing cache asset_id now_ms cached unavailable =
    (cache, ok_or (first_some cached (get_static_decimals_for_asset asset_id)) swap_failed)

abbrev pub resolve_unlisted : TokenCache → Text → ℤ → Listed → Option ℕ → TokenCache × Result ℕ
resolve_unlisted cache asset_id now_ms listed (some decimals) = (cache, ok decimals)
resolve_unlisted cache asset_id now_ms listed none =
    let cached = decimals_of asset_id cache.token_decimals in
    if is_fresh cache.token_decimals_updated_ms now_ms
    then (cache, ok_or (first_some cached (get_static_decimals_for_asset asset_id)) invalid_asset)
    else after_listing cache asset_id now_ms cached listed

unfoldable pub resolve_asset_decimals : TokenCache → Text → ℤ → Listed → TokenCache × Result ℕ
unfolding get_static_decimals_for_asset decimals_of collect
resolve_asset_decimals cache asset_id now_ms listed =
    let trimmed = trim asset_id in
    if blank asset_id
    then (cache, err invalid_asset)
    else resolve_unlisted cache trimmed now_ms listed (get_static_decimals_for_asset trimmed)

-- The request to the service, without the parts that are the same for every quote; the deadline is
-- sent as text.
pub record QuoteRequest : Type 0 where
  pub origin_asset : Text
  pub destination_asset : Text
  pub amount : Text
  pub swap_type : Text
  pub refund_to : Text
  pub recipient : Text
  pub deadline : ℤ

pub record QuoteAnswer : Type 0 where
  pub amount_in : Text
  pub amount_in_formatted : Text
  pub amount_out : Text
  pub amount_out_formatted : Text
  pub min_amount_out : Text
  pub deadline_ms : Option ℤ
  pub time_estimate_secs : ℕ
  pub deposit_address : Option Text
  pub deposit_memo : Option Text
  pub correlation_id : ℕ

abbrev pub amount_of : Text → Result ℕ → Text → Result (Text × Text)
amount_of amount decimals mode = do
  d ← decimals
  units ← ok_or (convert_to_smallest_units amount d) invalid_request
  ok (units, mode)

abbrev pub trimmed_some : Option Text → Option Text
trimmed_some none = none
trimmed_some (some s) = if blank s then none else some (trim s)

abbrev pub output_amount_of :
    TokenCache → SwapIntent → ℤ → Listed → Option Text → TokenCache × Result (Text × Text)
output_amount_of cache intent now_ms listed none = (cache, err invalid_request)
output_amount_of cache intent now_ms listed (some amount) =
    let (next, decimals) = resolve_asset_decimals cache intent.output_asset now_ms listed in
    (next, amount_of amount decimals (text "EXACT_OUTPUT"))

abbrev pub input_amount_of :
    TokenCache → SwapIntent → ℤ → Listed → TokenCache × Result (Text × Text)
input_amount_of cache intent now_ms listed =
    if blank intent.input_amount
    then (cache, err invalid_request)
    else (let (next, decimals) = resolve_asset_decimals cache intent.input_asset now_ms listed in
        (next, amount_of intent.input_amount decimals (text "EXACT_INPUT")))

-- The amount in smallest units, with the mode's name.
abbrev pub amount_for :
    TokenCache → SwapIntent → ℤ → Listed → SwapMode → TokenCache × Result (Text × Text)
amount_for cache intent now_ms listed exact_input = input_amount_of cache intent now_ms listed
amount_for cache intent now_ms listed exact_output =
    output_amount_of cache intent now_ms listed (trimmed_some intent.output_amount)

-- Two hours.
abbrev pub quote_ttl_ms : ℕ
quote_ttl_ms = 7200000

abbrev pub request_for : SwapIntent → ℤ → Result (Text × Text) → Result QuoteRequest
request_for intent deadline amount = do
  chosen ← amount
  recipient ← ok_or (trimmed_some intent.destination_address) invalid_request
  refund ← ok_or (trimmed_some intent.refund_address) invalid_request
  ok (record {
    origin_asset = intent.input_asset;
    destination_asset = intent.output_asset;
    amount = chosen.0;
    swap_type = chosen.1;
    refund_to = refund;
    recipient = recipient;
    deadline = deadline;
  })

abbrev pub positive_or : Option ℤ → ℤ → ℤ
positive_or none fallback = fallback
positive_or (some ms) fallback = if lebℤ ms (pos 0) then fallback else ms

abbrev pub quote_of : SwapIntent → ℤ → QuoteAnswer → SwapQuote
quote_of intent fallback a = record {
  input_asset = intent.input_asset;
  input_amount = a.amount_in;
  input_amount_formatted = a.amount_in_formatted;
  output_asset = intent.output_asset;
  output_amount = a.amount_out;
  output_amount_formatted = a.amount_out_formatted;
  min_output_amount = a.min_amount_out;
  deadline = positive_or a.deadline_ms fallback;
  time_estimate_secs = a.time_estimate_secs;
  deposit_address = a.deposit_address;
  deposit_memo = a.deposit_memo;
  correlation_id = a.correlation_id;
}

-- `deadline == 0 || now_ms < deadline`.
abbrev pub is_live : ℤ → ℤ → Bool
is_live now_ms deadline =
    (lebℤ deadline (pos 0) && lebℤ (pos 0) deadline) || not (lebℤ deadline now_ms)

unfoldable pub keep_quote : SwapStore → ℤ → ℕ → QuoteRecord → SwapStore
unfolding retain insert
keep_quote store now_ms quote_id r = record store {
  quotes = insert quote_id r (retain (λ id q. is_live now_ms q.quote.deadline) store.quotes);
}

abbrev pub keep_answer :
    SwapStore → ℕ → SwapIntent → ℤ → ℤ → Result QuoteAnswer → SwapStore × Result (ℕ × SwapQuote)
keep_answer store wallet_id intent fallback stored_at (err e) = (store, err e)
keep_answer store wallet_id intent fallback stored_at (ok a) =
    let quote = quote_of intent fallback a in
    let r : QuoteRecord = record { wallet_id = wallet_id; intent = intent; quote = quote } in
    (keep_quote store stored_at a.correlation_id r, ok (a.correlation_id, quote))

-- `now_ms` is the clock at the check of the cache and at the deadline, `stored_at` after the answer.
unfoldable pub request_swap_quote :
    SwapStore × TokenCache
    → ℕ
    → Network
    → SwapIntent
    → Listed
    → (QuoteRequest → Result QuoteAnswer)
    → ℤ
    → ℤ
    → (SwapStore × TokenCache) × Result (ℕ × SwapQuote)
unfolding resolve_asset_decimals convert_to_smallest_units keep_quote
request_swap_quote (store, cache) wallet_id network intent listed ask now_ms stored_at =
    if network_eq network testnet
    then ((store, cache), err swap_unsupported_network)
    else (if blank intent.input_asset || blank intent.output_asset
        then ((store, cache), err invalid_asset)
        else (let (next, amount) = amount_for cache intent now_ms listed intent.swap_mode in
            let fallback = saturating_add now_ms quote_ttl_ms in
            let (after, r) =
              keep_answer store wallet_id intent fallback stored_at
                (request_for intent fallback amount >>= ask) in
            ((after, next), r)))
