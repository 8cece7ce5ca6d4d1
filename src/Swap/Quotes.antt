-- ===== src/Swap/Quotes.antt =====
-- Quotes and the start of a swap (`request_swap_quote`, `start_swap` and `start_swap_from_zec` of
-- crates/zbag-engine/src/swap_service.rs). Times are in milliseconds; the answer of the quote
-- service, the new ids and the clock are arguments. The event that tells the application of a new
-- swap and failures to open or to read the database are left out.
pub mod Assets
pub mod Started
use zbag_app_tauri.Base.{
  ℕ, Bool, true, false, not, ◌&&◌, ◌||◌, List, [], ◌∷◌, Option, none, some, Text, text, text_eq,
  trim, ◌==◌, if◌then◌else◌,
}
use zbag_app_tauri.Base.Int.{ℤ, pos, lebℤ, saturating_add}
use zbag_app_tauri.Base.Maps.{Map, lookup, insert, remove, retain, has}
use zbag_app_tauri.Base.Results.{
  Result, ok, err, ErrorCode, swap_unsupported_network, quote_expired, swap_failed, invalid_asset,
  invalid_request, io_error, privacy_ack_required, watch_only_cannot_spend, ◌>>=◌, ◌>>◌, fail_if,
  ok_or,
}
use zbag_app_tauri.Servers.{Network, mainnet, testnet, network_eq}
use zbag_app_tauri.Swap.{
  SwapType, to_zec, from_zec, SwapMode, SwapState, draft, awaiting_deposit, pending, failed,
  SwapInfo, Swaps, insert_swap, update_swap,
}

pub record SwapIntent : Type 0 where
  pub swap_type : SwapType
  pub swap_mode : SwapMode
  pub input_asset : Text
  pub input_amount : Text
  pub output_asset : Text
  pub output_amount : Option Text
  pub destination_address : Option Text
  pub refund_address : Option Text

-- The fee is always absent.
pub record SwapQuote : Type 0 where
  pub input_asset : Text
  pub input_amount : Text
  pub input_amount_formatted : Text
  pub output_asset : Text
  pub output_amount : Text
  pub output_amount_formatted : Text
  pub min_output_amount : Text
  pub deadline : ℤ
  pub time_estimate_secs : ℕ
  pub deposit_address : Option Text
  pub deposit_memo : Option Text
  pub correlation_id : ℕ

pub record QuoteRecord : Type 0 where
  pub wallet_id : ℕ
  pub intent : SwapIntent
  pub quote : SwapQuote

-- The service's `State` as far as quotes and polling tasks go, with the table of swaps.
pub record SwapStore : Type 0 where
  pub quotes : Map QuoteRecord
  pub jobs : List ℕ
  pub swaps : Swaps

pub data AccountType : Type 0 where
  software hardware_signer watch_only : AccountType

-- What `prepare_send` and the confirmation are given.
pub record SendRequest : Type 0 where
  pub account_id : ℕ
  pub recipient : Text
  pub amount : Text
  pub memo : Option Text
  pub allow_transparent : Bool
  pub reauth_token : Text

-- The new swap's id, and the clock at the check of the quote, at the creation and at the update; whether
-- the swap's row can be inserted, and then updated; and whether the runtime takes the polling task.
pub record Draws : Type 0 where
  pub swap_id : ℕ
  pub checked_at : ℤ
  pub created_at : ℤ
  pub updated_at : ℤ
  pub inserts : Bool
  pub updates : Bool
  pub spawns : Bool

abbrev pub has_passed : ℤ → ℤ → Bool
has_passed deadline now_ms = not (lebℤ deadline (pos 0)) && lebℤ deadline now_ms

abbrev pub check_quote : SwapStore → ℕ → ℕ → ℤ → Option QuoteRecord → SwapStore × Result QuoteRecord
check_quote store wallet_id quote_id now_ms none = (store, err quote_expired)
check_quote store wallet_id quote_id now_ms (some r) =
    if not (r.wallet_id == wallet_id)
    then (store, err quote_expired)
    else (if has_passed r.quote.deadline now_ms
        then (record store { quotes = remove quote_id store.quotes }, err quote_expired)
        else (store, ok r))

-- The marker of the polling task; a second one is not started, and one that is not spawned is taken
-- away. The callers do not look at what came of it.
unfoldable pub mark_job : Bool → SwapStore → ℕ → SwapStore
unfolding has
mark_job spawns store swap_id =
    if has swap_id store.jobs
    then store
    else (if spawns then record store { jobs = swap_id ∷ store.jobs } else store)

abbrev pub new_swap : QuoteRecord → Text → SwapState → Draws → SwapInfo
new_swap r deposit_address state draws = record {
  id = draws.swap_id;
  remote_id = some r.quote.correlation_id;
  swap_type = r.intent.swap_type;
  input_asset = r.intent.input_asset;
  input_amount = r.quote.input_amount_formatted;
  output_asset = r.intent.output_asset;
  output_amount = some r.quote.output_amount_formatted;
  deposit_address = some deposit_address;
  deposit_memo = r.quote.deposit_memo;
  destination_address = r.intent.destination_address;
  refund_address = r.intent.refund_address;
  state = state;
  deadline = some r.quote.deadline;
  last_error = none;
  created_at = draws.created_at;
  updated_at = draws.created_at;
}

abbrev pub store_swap : SwapStore → ℕ → SwapInfo → SwapStore
store_swap store wallet_id swap = record store { swaps = insert_swap store.swaps wallet_id swap }

abbrev pub change_swap : SwapStore → ℕ → SwapInfo → SwapStore
change_swap store wallet_id swap = record store { swaps = update_swap store.swaps wallet_id swap }

-- The user pays the deposit address by other means.
abbrev pub start_to_zec :
    SwapStore → ℕ → QuoteRecord → Draws → Option Text → SwapStore × Result SwapInfo
start_to_zec store wallet_id r draws none = (store, err swap_failed)
start_to_zec store wallet_id r draws (some deposit_address) =
    let swap = new_swap r deposit_address awaiting_deposit draws in
    if draws.inserts
    then (mark_job draws.spawns (store_swap store wallet_id swap) swap.id, ok swap)
    else (store, err io_error)

abbrev pub software_account : List (ℕ × AccountType) → Option ℕ
software_account [] = none
software_account ((id, software) ∷ rest) = some id
software_account ((id, hardware_signer) ∷ rest) = software_account rest
software_account ((id, watch_only) ∷ rest) = software_account rest

abbrev pub blank : Text → Bool
blank s = elim (trim s) [ [] ↦ true | c ∷ rest ↦ false ]

abbrev pub not_blank : Option Text → Option Text
not_blank none = none
not_blank (some s) = if blank s then none else some s

-- The checks of `start_swap_from_zec`: the send that it will make.
abbrev pub prepare_send :
    QuoteRecord → Bool → Option Text → List (ℕ × AccountType) → Result SendRequest
prepare_send r allow reauth_token accounts = do
  fail_if (not allow) privacy_ack_required
  token ← ok_or (not_blank reauth_token) invalid_request
  address ← ok_or r.quote.deposit_address swap_failed
  account ← ok_or (software_account accounts) watch_only_cannot_spend
  ok (record {
    account_id = account;
    recipient = address;
    amount = r.quote.input_amount;
    memo = r.quote.deposit_memo;
    allow_transparent = allow;
    reauth_token = token;
  })

module _ (error_text : ErrorCode → Text) where
  -- The row is written before anything is sent. A deposit that the service is not told of is only
  -- logged, and so is a failed swap that is not written.
  abbrev pub after_send : SwapStore → ℕ → SwapInfo → Draws → Result ℕ → SwapStore × Result SwapInfo
  after_send store wallet_id swap draws (err e) = (
    if draws.updates
        then change_swap store wallet_id (record swap {
          state = failed;
          updated_at = draws.updated_at;
          last_error = some (error_text e);
        })
        else store,
    err e,
  )
  after_send store wallet_id swap draws (ok txid) =
      let sent = record swap { state = pending; updated_at = draws.updated_at } in
      if draws.updates
      then (mark_job draws.spawns (change_swap store wallet_id sent) swap.id, ok sent)
      else (store, err io_error)

  -- `send` is the outcome of the preparation, confirmation and broadcast of the transaction.
  abbrev pub start_from_zec :
      SwapStore
      → ℕ
      → QuoteRecord
      → Draws
      → (SendRequest → Result ℕ)
      → Result SendRequest
      → SwapStore × Result SwapInfo
  start_from_zec store wallet_id r draws send (err e) = (store, err e)
  start_from_zec store wallet_id r draws send (ok request) =
      let swap = new_swap r request.recipient draft draws in
      if draws.inserts
      then after_send (store_swap store wallet_id swap) wallet_id swap draws (send request)
      else (store, err io_error)

  abbrev pub start_for :
      SwapStore
      → ℕ
      → Bool
      → Option Text
      → List (ℕ × AccountType)
      → Draws
      → (SendRequest → Result ℕ)
      → QuoteRecord
      → SwapType
      → SwapStore × Result SwapInfo
  start_for store wallet_id allow reauth_token accounts draws send r to_zec =
      start_to_zec store wallet_id r draws r.quote.deposit_address
  start_for store wallet_id allow reauth_token accounts draws send r from_zec =
      start_from_zec store wallet_id r draws send (prepare_send r allow reauth_token accounts)

  abbrev pub start_checked :
      ℕ
      → Bool
      → Option Text
      → List (ℕ × AccountType)
      → Draws
      → (SendRequest → Result ℕ)
      → SwapStore × Result QuoteRecord
      → SwapStore × Result SwapInfo
  start_checked wallet_id allow reauth_token accounts draws send (store, err e) = (store, err e)
  start_checked wallet_id allow reauth_token accounts draws send (store, ok r) =
      start_for store wallet_id allow reauth_token accounts draws send r r.intent.swap_type

  unfoldable pub start_swap :
      SwapStore
      → ℕ
      → Network
      → ℕ
      → Bool
      → Option Text
      → List (ℕ × AccountType)
      → Draws
      → (SendRequest → Result ℕ)
      → SwapStore × Result SwapInfo
  unfolding lookup remove insert_swap update_swap mark_job
  start_swap store wallet_id network quote_id allow reauth_token accounts draws send =
      if network_eq network testnet
      then (store, err swap_unsupported_network)
      else start_checked wallet_id allow reauth_token accounts draws send
          (check_quote store wallet_id quote_id draws.checked_at (lookup quote_id store.quotes))
