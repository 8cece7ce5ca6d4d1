-- ===== src/Swap/Amounts.antt =====
-- How crates/zbag-engine/src/swap_service.rs reads amounts. `none` is an error, which the callers
-- report as an invalid request; the sums that the code leaves unchecked wrap, as they do in a release
-- build.
pub mod Exact
use zbag_app_tauri.Base.{
  ℕ, zero, suc, ◌+◌, ◌-◌, ◌*◌, ◌/◌, ◌%◌, min, Bool, true, false, ◌&&◌, not, List, [], ◌∷◌, ◌++◌,
  Option, none, some, Text, trim, after_first, length, take, leb, ltb, ◌==◌, if◌then◌else◌,
}
use zbag_app_tauri.Encryption.{digits}

abbrev pub u128_modulus : ℕ
u128_modulus = 340282366920938463463374607431768211456

abbrev pub u64_modulus : ℕ
u64_modulus = 18446744073709551616

-- `10.pow(n)`.
unfoldable pub pow10 : ℕ → ℕ
pow10 zero = 1
pow10 (suc n) = 10 * pow10 n

abbrev pub is_ascii_digit : ℕ → Bool
is_ascii_digit c = leb 48 c && leb c 57

unfoldable pub all_digits : Text → Bool
all_digits [] = true
all_digits (c ∷ s) = is_ascii_digit c && all_digits s

-- The number that the digits say after those of `acc`.
unfoldable pub value : ℕ → Text → ℕ
value acc [] = acc
value acc (c ∷ s) = value (acc * 10 + (c - 48)) s

abbrev pub checked : ℕ → ℕ → Option ℕ
checked modulus n = if ltb n modulus then some n else none

-- A plus sign at the front is passed over.
unfoldable pub without_plus : Text → Text
without_plus [] = []
without_plus (c ∷ s) = if c == 43 then s else c ∷ s

abbrev pub parse_digits : ℕ → Text → Option ℕ
parse_digits modulus [] = none
parse_digits modulus (c ∷ s) =
    if is_ascii_digit c && all_digits s then checked modulus (value 0 (c ∷ s)) else none

-- `str::parse` to an unsigned type with this many values.
unfoldable pub parse_unsigned : ℕ → Text → Option ℕ
unfolding all_digits value without_plus
parse_unsigned modulus s = parse_digits modulus (without_plus s)

abbrev pub add_to_first : ℕ → List Text → List Text
add_to_first c [] = (c ∷ []) ∷ []
add_to_first c (s ∷ parts) = (c ∷ s) ∷ parts

-- `str::split` at a character.
unfoldable pub split : ℕ → Text → List Text
split at [] = [] ∷ []
split at (c ∷ s) = let parts = split at s in if c == at then [] ∷ parts else add_to_first c parts

-- The loop that multiplies by ten, `decimals` times.
unfoldable pub scale : ℕ → ℕ → Option ℕ
scale zero result = some result
scale (suc decimals) result =
    let scaled = scale decimals (result * 10) in
    if ltb (result * 10) u128_modulus then scaled else none

abbrev pub and_then {ℓ} : {A : Type ℓ} → Option A → (A → Option A) → Option A
and_then none next = none
and_then (some a) next = next a

unfoldable pub add_fraction : Text → ℕ → ℕ → Option ℕ
unfolding parse_unsigned pow10
add_fraction [] decimals result = some result
add_fraction (c ∷ s) decimals result =
    let frac_len = min (length (c ∷ s)) decimals in
    let frac_multiplier = pow10 (decimals - frac_len) % u128_modulus in
    and_then (parse_unsigned u128_modulus (take frac_len (c ∷ s)))
      (λ frac_val. checked u128_modulus (result + (frac_val * frac_multiplier) % u128_modulus))

abbrev pub positive : ℕ → Option ℕ
positive result = if result == 0 then none else some result

unfoldable pub convert_parts : Text → Text → ℕ → Option ℕ
unfolding all_digits parse_unsigned scale add_fraction
convert_parts whole_str frac_str decimals =
    if not (all_digits whole_str)
    then none
    else (and_then (parse_unsigned u128_modulus whole_str) (λ whole.
        if not (all_digits frac_str)
        then none
        else (and_then (scale decimals whole)
            (λ scaled. and_then (add_fraction frac_str decimals scaled) positive))))

abbrev pub convert_split : List Text → ℕ → Option ℕ
convert_split [] decimals = none
convert_split (whole_str ∷ []) decimals = convert_parts whole_str [] decimals
convert_split (whole_str ∷ (frac_str ∷ [])) decimals = convert_parts whole_str frac_str decimals
convert_split (whole_str ∷ (frac_str ∷ (s ∷ parts))) decimals = none

-- `to_string` of a `u128`, which has 39 digits at most.
unfoldable pub print : Option ℕ → Option Text
unfolding digits
print none = none
print (some n) = some (digits 39 n)

abbrev pub unless_empty : Text → Option ℕ → Option ℕ
unless_empty [] r = none
unless_empty (c ∷ s) r = r

unfoldable pub convert_to_smallest_units : Text → ℕ → Option Text
unfolding split convert_parts print
convert_to_smallest_units amount decimals =
    let trimmed = trim amount in
    print (unless_empty trimmed (convert_split (split 46 trimmed) decimals))
