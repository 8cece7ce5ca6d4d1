-- ===== src/Proposals/Prepare/Amounts.antt =====
-- The amounts and the fee of a send that is prepared.
use zbag_app_tauri.Base.{
  ℕ, ◌+◌, ◌-◌, ◌≤◌, ◌<◌, ◌≡◌, ap, ◌∙◌, Bool, false, List, [], ◌∷◌, some, Text, trim, arith, All,
}
use zbag_app_tauri.Base.Results.{
  ok, ErrorCode, ok_or, bind_ok, fail_if_ok, ok_or_ok, invalid_request,
}
use zbag_app_tauri.Proposals.Prepare.{
  Step, Proposing, refused, proposed, zatoshis, parse_zatoshis, add64, sum_fees,
  has_transparent_inputs, steps_of, is_empty,
}
use zbag_app_tauri.Swap.Amounts.{u64_modulus, parse_unsigned}

-- The fees of the steps, added without a bound.
pub exact_fees : List Step → ℕ
exact_fees [] = 0
exact_fees (s ∷ steps) = s.fee_required + exact_fees steps

sum_fees-le :
    (steps : List Step) (total : ℕ) → total ≤ u64_modulus - 1 → total ≤ sum_fees total steps
unfolding sum_fees
sum_fees-le [] total l = omega arith
sum_fees-le (s ∷ steps) total l =
    let rest = sum_fees-le steps (add64 total s.fee_required) (omega arith) in
    omega (arith, rest, l)

-- A saturated sum below the bound is the exact one.
pub sum_fees-exact :
    (steps : List Step) (total : ℕ)
    → total ≤ u64_modulus - 1
    → sum_fees total steps < u64_modulus - 1
    → sum_fees total steps ≡ total + exact_fees steps
unfolding sum_fees exact_fees
sum_fees-exact [] total l h = omega arith
sum_fees-exact (s ∷ steps) total l h =
    let grown = sum_fees-le steps (add64 total s.fee_required) (omega arith) in
    let rest = sum_fees-exact steps (add64 total s.fee_required) (omega arith) h in
    omega (arith, rest, grown, h, l)

pub zatoshis_ok :
    (max_money : ℕ) (e : ErrorCode) (n m : ℕ)
    → zatoshis max_money e n ≡ ok m
    → (n ≡ m) × (n ≤ max_money)
zatoshis_ok max_money e n m h = ground arith

pub parse_zatoshis-ok :
    (max_money : ℕ) (value : Text) (n : ℕ)
    → parse_zatoshis max_money value ≡ ok n
    → (parse_unsigned u64_modulus (trim value) ≡ some n) × (n ≤ max_money)
unfolding parse_zatoshis
parse_zatoshis-ok max_money value n h =
    let (_, h1) = fail_if_ok (is_empty (trim value)) invalid_request _ n h in
    let (parsed, p, h2) =
      bind_ok (ok_or (parse_unsigned u64_modulus (trim value)) invalid_request) _ n h1 in
    let (same, bound) = zatoshis_ok max_money invalid_request parsed n h2 in
    (ok_or_ok _ invalid_request parsed p ∙ ap (λ m. some m) same, ground (arith, same, bound))

pub all_shielded :
    (steps : List Step)
    → has_transparent_inputs steps ≡ false
    → All (λ (s : Step). s.transparent_inputs ≡ 0) steps
unfolding has_transparent_inputs
all_shielded [] h = tt
all_shielded (s ∷ steps) h = (ground arith, all_shielded steps (ground arith))

pub proposed_steps :
    (blocked : Bool) (answer : Proposing) (steps : List Step)
    → steps_of blocked answer ≡ ok steps
    → answer ≡ proposed steps
unfolding steps_of
proposed_steps blocked (proposed s) steps h = cc
proposed_steps blocked (refused e) steps h = ground arith
