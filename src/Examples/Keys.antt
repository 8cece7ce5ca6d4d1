-- ===== src/Examples/Keys.antt =====
-- Wrapped keys, birthdays and amounts.
use zbag_app_tauri.Base.{
  ℕ, ◌<◌, ◌≡◌, ◌↔◌, refl, ◌∷◌, ◌++◌, some, none, arith, Text, text, text_eq, trim, true, length,
  ltb, ◌==◌, if◌then◌else◌,
}
use zbag_app_tauri.Base.Int.{pos}
use zbag_app_tauri.Birthday.{estimate_birthday_height}
use zbag_app_tauri.Birthday.Estimates.{estimate_above_checkpoint}
use zbag_app_tauri.Encryption.{done, wrap_dek, unwrap_dek, dek_len, digits}
use zbag_app_tauri.Encryption.Wrapping.{unwrap_dek-wrap_dek}
use zbag_app_tauri.Examples.Toy.{crypto, crypto-Sound, kdf, aead, dek}
use zbag_app_tauri.Servers.{mainnet}
use zbag_app_tauri.Swap.Amounts.{u128_modulus, all_digits, convert_to_smallest_units}
use zbag_app_tauri.Swap.Amounts.Exact.{shifted, convert_to_smallest_units_exact}

abbrev wrapped : Text
wrapped = 0 ∷ 0 ∷ 0 ∷ 0 ∷ 0 ∷ 0 ∷ 0 ∷ 0 ∷ 0 ∷ 0 ∷ 0 ∷ 0 ∷ 0 ∷ 0 ∷ 0 ∷ 0 ∷ dek

wraps : wrap_dek crypto 8 mainnet (text "secret") kdf aead dek ≡ done wrapped
unfolding wrap_dek crypto text_eq
wraps = refl

unwrap_dek-wrap_dek_example :
    (unwrap_dek crypto 8 mainnet (text "secret") kdf aead wrapped ≡ done dek) ↔ (
      (wrap_dek crypto 8 mainnet (text "secret") kdf aead dek ≡ done wrapped)
      × (length dek ≡ dek_len))
unwrap_dek-wrap_dek_example =
    unwrap_dek-wrap_dek crypto 8 mainnet (text "secret") kdf aead dek wrapped crypto-Sound

unwraps : unwrap_dek crypto 8 mainnet (text "secret") kdf aead wrapped ≡ done dek
unwraps = unwrap_dek-wrap_dek_example.1 (wraps, refl)

-- The summer of 2018.
estimate_above_checkpoint_example :
    (height : ℕ) × (estimate_birthday_height mainnet (pos 1530000000000) ≡ some height)
    × (419200 < height)
estimate_above_checkpoint_example =
    estimate_above_checkpoint 1530000000000 (omega arith) (omega arith)

converts : convert_to_smallest_units (text " 1.5") 8 ≡ some (text "150000000")
unfolding convert_to_smallest_units trim
converts = refl

too_fine : convert_to_smallest_units (text "1.5") 0 ≡ none
unfolding convert_to_smallest_units trim
too_fine = refl

trimmed : trim (text " 1.5") ≡ text "1" ++ (46 ∷ text "5")
unfolding trim
trimmed = refl

digit : all_digits (text "1") ≡ true
unfolding all_digits
digit = refl

digit_five : all_digits (text "5") ≡ true
unfolding all_digits
digit_five = refl

convert_to_smallest_units_exact_example : convert_to_smallest_units (text " 1.5") 8 ≡ (
    if shifted 8 (text "1") (text "5") == 0
    then none
    else (if ltb (shifted 8 (text "1") (text "5")) u128_modulus
        then some (digits 39 (shifted 8 (text "1") (text "5")))
        else none))
convert_to_smallest_units_exact_example =
    convert_to_smallest_units_exact (text " 1.5") (text "1") (text "5") 8 trimmed (λ e. cc) digit
      digit_five (omega arith) (omega arith)
