-- ===== src/Swap/Amounts/Exact.antt =====
-- The amount in smallest units is what moving the decimal point gives.
use native.Mathlib.Nat.{mul_assoc, mul-le-mul_right, le-mul_of_pos_right, mod-eq_of_lt}
use zbag_app_tauri.Base.{
  ℕ, zero, suc, ◌+◌, ◌-◌, ◌*◌, ◌%◌, ◌≤◌, ◌<◌, ◌≡◌, ◌≢◌, refl, sym, ap, ◌∙◌, min, true, false, [],
  ◌∷◌, ◌++◌, none, some, arith, Text, trim, length, take, ltb, ◌==◌, if◌then◌else◌, Bool-cases, inl,
  inr, ltb→lt,
}
use zbag_app_tauri.Encryption.{digits}
use zbag_app_tauri.Swap.Amounts.{
  u128_modulus, pow10, all_digits, value, checked, without_plus, parse_unsigned, split, scale,
  and_then, add_fraction, positive, convert_parts, print, convert_to_smallest_units,
}

-- The first `d` digits of a fraction, with zeros after its end.
unfoldable pub pad : ℕ → Text → Text
pad zero frac = []
pad (suc d) [] = 48 ∷ pad d []
pad (suc d) (c ∷ frac) = c ∷ pad d frac

pow10_pos : (n : ℕ) → 0 < pow10 n
unfolding pow10
pow10_pos zero = omega arith
pow10_pos (suc n) = omega (arith, pow10_pos n)

ten_pow : (r n : ℕ) → r * 10 * pow10 n ≡ r * pow10 (suc n)
unfolding pow10
ten_pow r n = mul_assoc r 10 (pow10 n)

-- A scaling gives the product, unless that overflows.
scale_lem : (d r : ℕ) → r < u128_modulus → scale d r ≡ checked u128_modulus (r * pow10 d)
unfolding scale pow10
scale_lem zero r h = ground (arith, h)
scale_lem (suc d) r h = elim (Bool-cases (ltb (r * 10) u128_modulus)) [
  | inl e ↦ rw (e, sym (ten_pow r d)) (scale_lem d (r * 10) (ground (arith, e)))
  | inr e ↦
      let grows : r * 10 ≤ r * 10 * pow10 d = le-mul_of_pos_right (r * 10) (pow10_pos d) in
      let same = ten_pow r d in ground (arith, e, grows, same)
]

-- What stands before a text of digits is shifted by its length.
value_shift : (a b : ℕ) (s : Text) → value (a + b) s ≡ a * pow10 (length s) + value b s
unfolding value pow10
value_shift a b [] = omega arith
value_shift a b (c ∷ s) =
    let step : (a + b) * 10 + (c - 48) ≡ a * 10 + (b * 10 + (c - 48)) = omega arith in
    rw (step, value_shift (a * 10) (b * 10 + (c - 48)) s, ten_pow a (length s)) refl

value_append : (a : ℕ) (s t : Text) → value a (s ++ t) ≡ value (value a s) t
unfolding value
value_append a [] t = refl
value_append a (c ∷ s) t = value_append (a * 10 + (c - 48)) s t

length-pad : (d : ℕ) (frac : Text) → length (pad d frac) ≡ d
unfolding pad
length-pad zero frac = refl
length-pad (suc d) [] = omega (arith, length-pad d [])
length-pad (suc d) (c ∷ frac) = omega (arith, length-pad d frac)

pad_nil : (a d : ℕ) → value a (pad d []) ≡ a * pow10 d
unfolding value pad pow10
pad_nil a zero = omega arith
pad_nil a (suc d) =
    let step : a * 10 + (48 - 48) ≡ a * 10 = omega arith in
    ap (λ (t : ℕ). value t (pad d [])) step ∙ (pad_nil (a * 10) d ∙ ten_pow a d)

-- Padding is cutting to `d` digits and scaling by the power that is missing.
pad-take :
    (a d : ℕ) (frac : Text)
    → value a (pad d frac)
      ≡ value a (take (min (length frac) d) frac) * pow10 (d - min (length frac) d)
unfolding value pad
pad-take a zero [] = pad_nil a 0
pad-take a zero (c ∷ frac) =
    let none_left : min (length (c ∷ frac)) 0 ≡ 0 = omega arith in rw none_left (pad_nil a 0)
pad-take a (suc d) [] =
    let no_digit : min 0 (suc d) ≡ 0 = omega arith in
    let all_left : suc d - 0 ≡ suc d = omega arith in rw (no_digit, all_left) (pad_nil a (suc d))
pad-take a (suc d) (c ∷ frac) =
    let k : min (suc (length frac)) (suc d) ≡ suc (min (length frac) d) = omega arith in
    let left : suc d - suc (min (length frac) d) ≡ d - min (length frac) d = omega arith in
    rw (k, left) (pad-take (a * 10 + (c - 48)) d frac)

-- Digits say less than the next power of ten.
value_bound : (a : ℕ) (s : Text) → all_digits s ≡ true → value a s < (a + 1) * pow10 (length s)
unfolding value all_digits pow10
value_bound a [] h = omega arith
value_bound a (c ∷ s) h =
    let digit : (c - 48 ≤ 9) × (all_digits s ≡ true) = (ground (arith, h), ground (arith, h)) in
    let next = a * 10 + (c - 48) in
    let le : next + 1 ≤ (a + 1) * 10 = omega (arith, digit.0) in
    let times : (next + 1) * pow10 (length s) ≤ (a + 1) * 10 * pow10 (length s) =
      mul-le-mul_right (pow10 (length s)) le in
    omega (arith, times, ten_pow (a + 1) (length s), value_bound next s digit.1)

pow10_mono : (d k : ℕ) → pow10 d ≤ pow10 (k + d)
unfolding pow10
pow10_mono d zero = let e : 0 + d ≡ d = omega arith in rw e (omega arith)
pow10_mono d (suc k) =
    let e : suc k + d ≡ suc (k + d) = omega arith in rw e (omega (arith, pow10_mono d k))

pow10_38 : pow10 38 < u128_modulus
unfolding pow10
pow10_38 = omega arith

-- 38 is the last exponent of ten in 128 bits.
pow10_fits : (d : ℕ) → d ≤ 38 → pow10 d < u128_modulus
pow10_fits d h =
    let e : (38 - d) + d ≡ 38 = omega (arith, h) in
    omega (arith, pow10_mono d (38 - d), ap pow10 e, pow10_38)

parse_value :
    (s : Text)
    → s ≢ []
    → all_digits s ≡ true
    → parse_unsigned u128_modulus s ≡ checked u128_modulus (value 0 s)
unfolding parse_unsigned without_plus all_digits
parse_value [] ne h = absurd (ne refl)
parse_value (c ∷ s) ne h =
    let digit : (c == 43) ≡ false = ground (arith, h) in rw digit (ground (arith, h))

take_digits : (n : ℕ) (s : Text) → all_digits s ≡ true → all_digits (take n s) ≡ true
unfolding all_digits
take_digits zero s h = refl
take_digits (suc n) [] h = refl
take_digits (suc n) (c ∷ s) h = ground (arith, h, take_digits n s)

pad_digits : (d : ℕ) (s : Text) → all_digits s ≡ true → all_digits (pad d s) ≡ true
unfolding all_digits pad
pad_digits zero s h = refl
pad_digits (suc d) [] h = ground (arith, pad_digits d [])
pad_digits (suc d) (c ∷ s) h = ground (arith, h, pad_digits d s)

split_digits : (s : Text) → all_digits s ≡ true → split 46 s ≡ s ∷ []
unfolding split all_digits
split_digits [] h = refl
split_digits (c ∷ s) h =
    let digit : (c == 46) ≡ false = ground (arith, h) in
    let rest : all_digits s ≡ true = ground (arith, h) in rw (digit, split_digits s rest) refl

split_point :
    (whole frac : Text)
    → all_digits whole ≡ true
    → all_digits frac ≡ true
    → split 46 (whole ++ (46 ∷ frac)) ≡ whole ∷ (frac ∷ [])
unfolding split all_digits
split_point [] frac w f = rw (split_digits frac f) refl
split_point (c ∷ whole) frac w f =
    let digit : (c == 46) ≡ false = ground (arith, w) in
    let rest : all_digits whole ≡ true = ground (arith, w) in
    rw (digit, split_point whole frac rest f) refl

take_some : (k c : ℕ) (s : Text) → 1 ≤ k → take k (c ∷ s) ≢ []
take_some zero c s h e = omega (arith, h)
take_some (suc k) c s h e = cc

checked-some : (n : ℕ) → n < u128_modulus → checked u128_modulus n ≡ some n
checked-some n h = ground (arith, h)

pad_bound : (d : ℕ) (frac : Text) → all_digits frac ≡ true → value 0 (pad d frac) < pow10 d
pad_bound d frac f =
    let e : pow10 (length (pad d frac)) ≡ pow10 d = ap pow10 (length-pad d frac) in
    omega (arith, value_bound 0 (pad d frac) (pad_digits d frac f), e)

-- The fraction, cut or padded to `d` digits, is added.
add_fraction_lem :
    (frac : Text) (d r : ℕ)
    → all_digits frac ≡ true
    → 1 ≤ d
    → d ≤ 38
    → r < u128_modulus
    → add_fraction frac d r ≡ checked u128_modulus (r + value 0 (pad d frac))
unfolding add_fraction
add_fraction_lem [] d r f low high fits =
    let e : value 0 (pad d []) ≡ 0 = omega (arith, pad_nil 0 d) in rw e (ground (arith, fits))
add_fraction_lem (c ∷ s) d r f low high fits =
    let k = min (length (c ∷ s)) d in
    let power : pow10 (d - k) % u128_modulus ≡ pow10 (d - k) =
      mod-eq_of_lt (pow10_fits (d - k) (omega (arith, high))) in
    let digits_said = value 0 (take k (c ∷ s)) in
    let padded : digits_said * pow10 (d - k) ≡ value 0 (pad d (c ∷ s)) =
      sym (pad-take 0 d (c ∷ s)) in
    let whole_fits : digits_said * pow10 (d - k) < u128_modulus =
      omega (arith, padded, pad_bound d (c ∷ s) f, pow10_fits d high) in
    let part_fits : digits_said < u128_modulus =
      omega (arith, whole_fits, le-mul_of_pos_right digits_said (pow10_pos (d - k))) in
    let parsed : parse_unsigned u128_modulus (take k (c ∷ s)) ≡ some digits_said =
      parse_value (take k (c ∷ s)) (take_some k c s (omega (arith, low))) (take_digits k (c ∷ s) f)
      ∙ checked-some digits_said part_fits in
    rw (parsed, power, mod-eq_of_lt whole_fits, padded) refl

-- The digits of the whole part, then `d` digits of the fraction.
abbrev pub shifted : ℕ → Text → Text → ℕ
shifted d whole frac = value 0 (whole ++ pad d frac)

shifted_lem :
    (d : ℕ) (whole frac : Text)
    → shifted d whole frac ≡ value 0 whole * pow10 d + value 0 (pad d frac)
shifted_lem d whole frac =
    let e : value 0 whole + 0 ≡ value 0 whole = omega arith in
    value_append 0 whole (pad d frac)
    ∙ (ap (λ (t : ℕ). value t (pad d frac)) (sym e)
        ∙ (value_shift (value 0 whole) 0 (pad d frac)
            ∙ ap (λ (t : ℕ). value 0 whole * pow10 t + value 0 (pad d frac)) (length-pad d frac)))

convert_parts_lem :
    (d : ℕ) (whole frac : Text)
    → 1 ≤ d
    → d ≤ 38
    → whole ≢ []
    → all_digits whole ≡ true
    → all_digits frac ≡ true
    → convert_parts whole frac d ≡ and_then (checked u128_modulus (shifted d whole frac)) positive
unfolding convert_parts
convert_parts_lem d whole frac low high ne w f =
    let n = value 0 whole in
    let grows : n ≤ n * pow10 d = le-mul_of_pos_right n (pow10_pos d) in
    let sum = shifted_lem d whole frac in
    elim (Bool-cases (ltb n u128_modulus)) [
      | inr e ↦ rw (w, parse_value whole ne w) (ground (arith, e, grows, sum))
      | inl e ↦
          let fits : n < u128_modulus = ltb→lt n u128_modulus e in
          elim (Bool-cases (ltb (n * pow10 d) u128_modulus)) [
            | inr g ↦
                rw (w, parse_value whole ne w, e, f, scale_lem d n fits) (ground (arith, g, sum))
            | inl g ↦
                rw
                  (
                    w,
                    parse_value whole ne w,
                    e,
                    f,
                    scale_lem d n fits,
                    g,
                    add_fraction_lem frac d (n * pow10 d) f low high
                        (ltb→lt (n * pow10 d) u128_modulus g),
                    sum,
                  )
                  refl
          ]
    ]

-- An amount of decimal digits with a point, for an asset of 1 to 38 decimals, is converted to the
-- number that its digits say when the point is moved that many places to the right, with digits
-- beyond cut off and missing ones zero; it is refused exactly when that number is 0 or does not fit
-- 128 bits. What surrounds the amount as white space does not count.
pub convert_to_smallest_units_exact :
    (amount whole frac : Text) (d : ℕ)
    → trim amount ≡ whole ++ (46 ∷ frac)
    → whole ≢ []
    → all_digits whole ≡ true
    → all_digits frac ≡ true
    → 1 ≤ d
    → d ≤ 38
    → convert_to_smallest_units amount d ≡ (
        if shifted d whole frac == 0
        then none
        else (if ltb (shifted d whole frac) u128_modulus
            then some (digits 39 (shifted d whole frac))
            else none))
unfolding convert_to_smallest_units print
convert_to_smallest_units_exact amount [] frac d t ne w f low high = absurd (ne refl)
convert_to_smallest_units_exact amount (c ∷ whole) frac d t ne w f low high =
    rw (t, split_point (c ∷ whole) frac w f, convert_parts_lem d (c ∷ whole) frac low high ne w f)
      (ground arith)
