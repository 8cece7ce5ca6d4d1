-- ===== src/Swap/Confirmed/Paid.antt =====
-- A swap is confirmed by a transaction that moved its amount.
use mathlib.Core.List.{Memᴰ}
use zbag_app_tauri.Base.{ℕ, ◌+◌, ◌-◌, ◌*◌, ◌≤◌, ◌<◌, ◌≡◌, true, false, List, Option, some, Text}
use zbag_app_tauri.Base.Int.{ℤ, pos, negsuc, nonneg, lebℤ}
use zbag_app_tauri.Base.Results.{Result, ok, err}
use zbag_app_tauri.Servers.{Network}
use zbag_app_tauri.Swap.{SwapType, to_zec, from_zec, SwapInfo}
use zbag_app_tauri.Swap.Confirmed.{TxRow, or_no_fee}
use zbag_app_tauri.Wallets.{Manager}
use zbag_app_tauri.Wallets.Context.{TxOperationContext, get_tx_operation_context}

-- The transaction moved `n` zatoshis the right way; what is sent counts without the change and the fee.
pub data Moved (n : ℕ) (row : TxRow) : SwapType → Type 0 where
  received :
      (sent notes total : ℤ)
      → row.sent_note_count ≡ some sent
      → lebℤ (pos 1) sent ≡ false
      → row.received_note_count ≡ some notes
      → lebℤ (pos 1) notes ≡ true
      → row.total_received ≡ some total
      → nonneg total ≡ n
      → Moved n row to_zec
  sent :
      (sent spent change : ℤ)
      → row.sent_note_count ≡ some sent
      → lebℤ (pos 1) sent ≡ true
      → row.total_spent ≡ some spent
      → row.total_received ≡ some change
      → nonneg spent - nonneg change - or_no_fee row.fee_paid ≡ n
      → Moved n row from_zec

-- A block time, in seconds, is no more than a quarter of an hour before a creation, in milliseconds since
-- 1970, up to a second.
abbrev pub IsRecent : ℕ → ℤ → Type 0
IsRecent created_at (pos t) = created_at < 1000 * (t + 1) + 900000
IsRecent created_at (negsuc t) = created_at + 1000 * (t + 1) ≤ 900000

pub record IsPayment (swap_type : SwapType) (n : ℕ) (created_at : ℤ) (row : TxRow) : Type 0 where
  pub not_shielding : row.is_shielding ≡ some false
  pub in_time : (c : ℕ) (t : ℤ) → created_at ≡ pos c → row.block_time ≡ some t → IsRecent c t
  pub moved : Moved n row swap_type

id_or : ℕ → Result TxOperationContext → ℕ
id_or d (ok context) = context.wallet_id
id_or d (err e) = d

-- What a confirmation rests on.
pub record IsConfirmed {ℓ} {S : Type ℓ} (resolved : Network → Result Text)
    (opens : TxOperationContext → Option (List TxRow)) (m : Manager S) (wallet_id : ℕ)
    (swap : SwapInfo) (n : ℕ) : Type 0 where
  pub context : TxOperationContext
  pub rows : List TxRow
  pub row : TxRow
  pub in_session : get_tx_operation_context m resolved ≡ ok context
  pub of_wallet : context.wallet_id ≡ wallet_id
  pub shown : opens context ≡ some rows
  pub stands : Memᴰ row rows
  pub mined : row.mined ≡ true
  pub pays_it : IsPayment swap.swap_type n swap.created_at row
