-- ===== src/Examples/Payments.antt =====
-- The payment of a swap in the wallet's transactions.
use zbag_app_tauri.Base.{◌≡◌, refl, true, false, List, [], ◌∷◌, Option, none, some, text, Text}
use zbag_app_tauri.Base.Int.{pos}
use zbag_app_tauri.Base.Results.{Result, ok}
use zbag_app_tauri.Examples.Toy.{dek}
use zbag_app_tauri.Examples.Wallets.{manager, wallet, directory}
use zbag_app_tauri.Servers.{Network}
use zbag_app_tauri.Swap.Confirmed.{TxRow, parse_zatoshis}
use zbag_app_tauri.Wallets.{Manager}
use zbag_app_tauri.Wallets.Context.{TxOperationContext}
use zbag_app_tauri.Wallets.Session.{unlocked_wallet}

abbrev tenth : TxRow
tenth = record {
  mined = true;
  fee_paid = none;
  total_spent = none;
  total_received = some (pos 10000000);
  is_shielding = some false;
  sent_note_count = some (pos 0);
  received_note_count = some (pos 1);
  block_time = some (pos 200);
}

abbrev opened : Manager (Unit {0})
opened = manager (some (unlocked_wallet wallet directory dek)) []

abbrev node : Network → Result Text
node network = ok (text "https://z")

abbrev view : TxOperationContext → Option (List TxRow)
view context = some (record tenth { mined = false } ∷ tenth ∷ [])

-- An amount without a point is one of zatoshis.
one_zatoshi : parse_zatoshis (text "1") ≡ some 1
unfolding parse_zatoshis
one_zatoshi = refl

one_zec : parse_zatoshis (text "1.0") ≡ some 100000000
unfolding parse_zatoshis
one_zec = refl
