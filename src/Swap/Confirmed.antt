-- ===== src/Swap/Confirmed.antt =====
-- Whether the wallet shows the payment of a swap: `has_confirmed_zcash_tx` and `parse_zatoshis` of
-- crates/zbag-engine/src/swap_service.rs. The rows are those of the view `v_transactions` of
-- zcash_client_sqlite, the latest block first; a column that cannot be read is `none`.
pub mod Paid
use zbag_app_tauri.Base.{
  ℕ, zero, suc, ◌+◌, ◌-◌, ◌*◌, ◌/◌, min, Bool, true, false, not, ◌&&◌, ◌||◌, List, [], ◌∷◌, ◌++◌,
  Option, none, some, Text, trim, length, take, leb, ltb, ◌==◌, if◌then◌else◌,
}
use zbag_app_tauri.Base.Int.{ℤ, pos, negsuc, i64_max, nonneg, lebℤ}
use zbag_app_tauri.Base.Results.{Result, ok, err}
use zbag_app_tauri.Servers.{Network}
use zbag_app_tauri.Swap.{SwapType, to_zec, from_zec, SwapInfo}
use zbag_app_tauri.Swap.Amounts.{parse_unsigned, u64_modulus, checked, and_then}
use zbag_app_tauri.Wallets.{ActiveWallet, Manager}
use zbag_app_tauri.Wallets.Context.{TxOperationContext, get_tx_operation_context}

abbrev pub prepend : ℕ → Option (Text × Text) → Option (Text × Text)
prepend c none = none
prepend c (some (before, after)) = some (c ∷ before, after)

-- `split_once` at a character.
unfoldable pub split_once : ℕ → Text → Option (Text × Text)
split_once at [] = none
split_once at (c ∷ s) =
    let rest = split_once at s in if c == at then some ([], s) else prepend c rest

unfoldable pub zeros : ℕ → Text
zeros zero = []
zeros (suc n) = 48 ∷ zeros n

-- The bytes of the fraction, filled up with zeros to eight.
unfoldable pub parse_fraction : Text → Option ℕ
unfolding parse_unsigned zeros
parse_fraction frac =
    if ltb 8 (length frac)
    then none
    else parse_unsigned u64_modulus (frac ++ zeros (8 - length frac))

abbrev pub in_zatoshis : Option ℕ → Option ℕ → Option ℕ
in_zatoshis whole frac = and_then whole (λ w. and_then frac (λ f.
    and_then (checked u64_modulus (w * 100000000))
      (λ zatoshis. checked u64_modulus (zatoshis + f))))

abbrev pub parse_split : Text → Option (Text × Text) → Option ℕ
parse_split value none = parse_unsigned u64_modulus value
parse_split value (some (whole, frac)) =
    in_zatoshis (parse_unsigned u64_modulus whole) (parse_fraction frac)

abbrev pub parse_trimmed : Text → Option ℕ
parse_trimmed [] = none
parse_trimmed (c ∷ s) = parse_split (c ∷ s) (split_once 46 (c ∷ s))

unfoldable pub parse_zatoshis : Text → Option ℕ
unfolding trim split_once parse_fraction parse_unsigned
parse_zatoshis value = parse_trimmed (trim value)

pub record TxRow : Type 0 where
  pub mined : Bool
  pub fee_paid : Option ℤ
  pub total_spent : Option ℤ
  pub total_received : Option ℤ
  pub is_shielding : Option Bool
  pub sent_note_count : Option ℤ
  pub received_note_count : Option ℤ
  pub block_time : Option ℤ

-- `WHERE mined_height IS NOT NULL`.
unfoldable pub mined_rows : List TxRow → List TxRow
mined_rows [] = []
mined_rows (row ∷ rows) = let rest = mined_rows rows in if row.mined then row ∷ rest else rest

abbrev pub expected_amount : SwapType → Option Text → Text → Option ℕ
expected_amount to_zec none input_amount = none
expected_amount to_zec (some output_amount) input_amount = parse_zatoshis output_amount
expected_amount from_zec output_amount input_amount = parse_zatoshis input_amount

abbrev pub negated : ℕ → ℤ
negated zero = pos 0
negated (suc n) = negsuc n

-- A quarter of an hour before the swap was created, in seconds: `saturating_sub`, and a division that
-- cuts towards 0.
abbrev pub min_block_time : ℤ → ℤ
min_block_time (pos ms) =
    if leb 900000 ms then pos ((ms - 900000) / 1000) else negated ((900000 - ms) / 1000)
min_block_time (negsuc ms) = negated (min (ms + 900001) (i64_max + 1) / 1000)

abbrev pub too_old : ℤ → Option ℤ → Bool
too_old earliest none = false
too_old earliest (some block_time) = not (lebℤ earliest block_time)

abbrev pub is_expected : Option ℕ → ℕ → Bool
is_expected none amount = true
is_expected (some expected) amount = amount == expected

abbrev pub or_no_fee : Option ℤ → ℕ
or_no_fee none = 0
or_no_fee (some fee) = nonneg fee

abbrev pub receives : Option ℕ → ℤ → ℤ → Option ℤ → Bool
receives expected sent received none = false
receives expected sent received (some total) =
    not (lebℤ (pos 1) sent) && lebℤ (pos 1) received && is_expected expected (nonneg total)

abbrev pub sends : Option ℕ → ℤ → Option ℤ → Option ℤ → Option ℤ → Bool
sends expected sent none total_received fee_paid = false
sends expected sent (some spent) none fee_paid = false
sends expected sent (some spent) (some received) fee_paid =
    lebℤ (pos 1) sent && is_expected expected (nonneg spent - nonneg received - or_no_fee fee_paid)

abbrev pub moves : SwapType → Option ℕ → TxRow → ℤ → ℤ → Bool
moves to_zec expected row sent received = receives expected sent received row.total_received
moves from_zec expected row sent received =
    sends expected sent row.total_spent row.total_received row.fee_paid

abbrev pub readable_pays :
    SwapType → Option ℕ → ℤ → TxRow → Option Bool → Option ℤ → Option ℤ → Bool
readable_pays swap_type expected earliest row none sent received = false
readable_pays swap_type expected earliest row (some true) sent received = false
readable_pays swap_type expected earliest row (some false) none received = false
readable_pays swap_type expected earliest row (some false) (some sent) none = false
readable_pays swap_type expected earliest row (some false) (some sent) (some received) =
    not (too_old earliest row.block_time) && moves swap_type expected row sent received

-- One turn of the loop.
abbrev pub pays : SwapType → Option ℕ → ℤ → TxRow → Bool
pays swap_type expected earliest row =
    readable_pays swap_type expected earliest row row.is_shielding row.sent_note_count
      row.received_note_count

unfoldable pub any_pays : SwapType → Option ℕ → ℤ → List TxRow → Bool
any_pays swap_type expected earliest [] = false
any_pays swap_type expected earliest (row ∷ rows) =
    pays swap_type expected earliest row || any_pays swap_type expected earliest rows

unfoldable pub pays_for : SwapInfo → List TxRow → Bool
unfolding parse_zatoshis mined_rows any_pays
pays_for swap rows =
    any_pays swap.swap_type (expected_amount swap.swap_type swap.output_amount swap.input_amount)
      (min_block_time swap.created_at) (take 200 (mined_rows rows))

abbrev pub queried : SwapInfo → Option (List TxRow) → Bool
queried swap none = false
queried swap (some rows) = pays_for swap rows

-- `opens` opens the wallet's database with the context and reads the view.
module _ (resolved : Network → Result Text) (opens : TxOperationContext → Option (List TxRow)) where
  abbrev pub in_context : SwapInfo → Result TxOperationContext → Bool
  in_context swap (err e) = false
  in_context swap (ok context) = queried swap (opens context)

  abbrev pub confirmed_by {ℓ} : {S : Type ℓ} → Manager S → ℕ → SwapInfo → Option ActiveWallet → Bool
  confirmed_by m wallet_id swap none = false
  confirmed_by m wallet_id swap (some active) =
      if not (active.wallet.id == wallet_id)
      then false
      else in_context swap (get_tx_operation_context m resolved)

  unfoldable pub has_confirmed_zcash_tx {ℓ} : {S : Type ℓ} → Manager S → ℕ → SwapInfo → Bool
  unfolding get_tx_operation_context pays_for
  has_confirmed_zcash_tx m wallet_id swap = confirmed_by m wallet_id swap m.active_wallet
