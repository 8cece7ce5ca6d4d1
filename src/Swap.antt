-- ===== src/Swap.antt =====
-- Swaps (crates/zbag-core/src/domain/swap.rs, crates/zbag-engine/src/swap_service.rs and
-- db/swap_meta.rs, and the statuses of crates/zbag-network/src/near_intents.rs): the data, what a
-- remote status means here, and the table of swaps. An id is a number, a time is in milliseconds.
pub mod Amounts
pub mod Polling
pub mod Refresh
pub mod Quotes
pub mod Confirmed
use zbag_app_tauri.Base.{
  ℕ, Bool, true, false, not, ◌&&◌, ◌||◌, List, [], ◌∷◌, Option, none, some, Text, text, text_eq,
  ◌==◌, if◌then◌else◌,
}
use zbag_app_tauri.Base.Int.{ℤ, pos, lebℤ}
use zbag_app_tauri.Base.Maps.{Map, lookup}
use zbag_app_tauri.Base.Results.{Result, ok, err, swap_failed}

pub data SwapType : Type 0 where
  to_zec from_zec : SwapType

pub data SwapMode : Type 0 where
  exact_input exact_output : SwapMode

pub data SwapState : Type 0 where
  draft awaiting_deposit pending confirming completed refunded failed : SwapState

pub record SwapInfo : Type 0 where
  pub id : ℕ
  pub remote_id : Option ℕ
  pub swap_type : SwapType
  pub input_asset : Text
  pub input_amount : Text
  pub output_asset : Text
  pub output_amount : Option Text
  pub deposit_address : Option Text
  pub deposit_memo : Option Text
  pub destination_address : Option Text
  pub refund_address : Option Text
  pub state : SwapState
  pub deadline : Option ℤ
  pub last_error : Option Text
  pub created_at : ℤ
  pub updated_at : ℤ

pub data RemoteStatus : Type 0 where
  pending_deposit known_deposit_tx incomplete_deposit processing success : RemoteStatus
  was_refunded has_failed : RemoteStatus
  unknown : Text → RemoteStatus

-- `matches!(state, Completed | Refunded | Failed)`.
abbrev pub is_terminal : SwapState → Bool
is_terminal draft = false
is_terminal awaiting_deposit = false
is_terminal pending = false
is_terminal confirming = false
is_terminal completed = true
is_terminal refunded = true
is_terminal failed = true

unfoldable pub map_remote_status_to_local_state : RemoteStatus → SwapState
map_remote_status_to_local_state pending_deposit = awaiting_deposit
map_remote_status_to_local_state known_deposit_tx = pending
map_remote_status_to_local_state incomplete_deposit = failed
map_remote_status_to_local_state processing = pending
map_remote_status_to_local_state success = confirming
map_remote_status_to_local_state was_refunded = refunded
map_remote_status_to_local_state has_failed = failed
map_remote_status_to_local_state (unknown status) = pending

abbrev pub confirm : Bool → SwapState → SwapState
confirm confirmed draft = draft
confirm confirmed awaiting_deposit = awaiting_deposit
confirm confirmed pending = pending
confirm confirmed confirming = if confirmed then completed else confirming
confirm confirmed completed = completed
confirm confirmed refunded = refunded
confirm confirmed failed = failed

-- `confirmed` is the answer of `has_confirmed_zcash_tx`.
unfoldable pub next_state_from_remote_status : Bool → RemoteStatus → SwapState
unfolding map_remote_status_to_local_state
next_state_from_remote_status confirmed remote_status =
    confirm confirmed (map_remote_status_to_local_state remote_status)

abbrev pub state_index : SwapState → ℕ
state_index draft = 0
state_index awaiting_deposit = 1
state_index pending = 2
state_index confirming = 3
state_index completed = 4
state_index refunded = 5
state_index failed = 6

abbrev pub state_eq : SwapState → SwapState → Bool
state_eq a b = state_index a == state_index b

abbrev pub error_eq : Option Text → Option Text → Bool
error_eq none none = true
error_eq none (some b) = false
error_eq (some a) none = false
error_eq (some a) (some b) = text_eq a b

-- The table `swaps`: under a swap's id its wallet and the swap.
abbrev pub Swaps : Type 0
Swaps = Map (ℕ × SwapInfo)

-- The id is a new one.
unfoldable pub insert_swap : Swaps → ℕ → SwapInfo → Swaps
insert_swap swaps wallet_id swap = (swap.id, (wallet_id, swap)) ∷ swaps

-- The `UPDATE` sets the wallet and every field but the time of creation; a missing row stays so.
unfoldable pub update_swap : Swaps → ℕ → SwapInfo → Swaps
update_swap [] wallet_id swap = []
update_swap ((id, (owner, old)) ∷ rows) wallet_id swap =
    let later = update_swap rows wallet_id swap in
    if id == swap.id
    then (id, (wallet_id, record swap { created_at = old.created_at })) ∷ later
    else (id, (owner, old)) ∷ later

abbrev pub owned_by : ℕ → Option (ℕ × SwapInfo) → Result SwapInfo
owned_by wallet_id none = err swap_failed
owned_by wallet_id (some (owner, swap)) =
    if not (owner == wallet_id) then err swap_failed else ok swap

unfoldable pub load_owned_swap : Swaps → ℕ → ℕ → Result SwapInfo
unfolding lookup
load_owned_swap swaps wallet_id swap_id = owned_by wallet_id (lookup swap_id swaps)

abbrev pub not_after : Option ℤ → ℤ → Bool
not_after none now_ms = true
not_after (some deadline) now_ms = not (lebℤ deadline now_ms)

-- `state IN ('Pending', 'Confirming') OR (state IN ('Draft', 'AwaitingDeposit') AND …)`.
abbrev pub awaits_answer : SwapState → Option ℤ → ℤ → Bool
awaits_answer draft deadline now_ms = not_after deadline now_ms
awaits_answer awaiting_deposit deadline now_ms = not_after deadline now_ms
awaits_answer pending deadline now_ms = true
awaits_answer confirming deadline now_ms = true
awaits_answer completed deadline now_ms = false
awaits_answer refunded deadline now_ms = false
awaits_answer failed deadline now_ms = false

abbrev pub is_some {ℓ} : {A : Type ℓ} → Option A → Bool
is_some none = false
is_some (some a) = true

-- The rows of `list_pollable_swaps_for_wallet`, without their order.
unfoldable pub list_pollable_swaps_for_wallet : Swaps → ℕ → ℤ → List SwapInfo
list_pollable_swaps_for_wallet [] wallet_id now_ms = []
list_pollable_swaps_for_wallet ((id, (owner, swap)) ∷ rows) wallet_id now_ms =
    let rest = list_pollable_swaps_for_wallet rows wallet_id now_ms in
    if owner == wallet_id
      && is_some swap.deposit_address
      && awaits_answer swap.state swap.deadline now_ms
    then swap ∷ rest
    else rest
