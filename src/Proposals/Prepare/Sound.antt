-- ===== src/Proposals/Prepare/Sound.antt =====
-- What a send that was prepared rests on, and that its proposal is kept for its wallet.
use zbag_app_tauri.Base.{
  ℕ, ◌+◌, ◌%◌, ◌≤◌, ◌<◌, ◌≡◌, ◌≢◌, ◌⊎◌, refl, sym, ap, ◌∙◌, subst, Bool, true, false, List, Option,
  none, some, Text, trim, ◌==◌, arith, All,
}
use zbag_app_tauri.Base.Results.{
  ok, ok_or, bind_ok, fail_if_ok, then_ok, ok_or_ok, ok_injective, invalid_request,
  invalid_recipient, internal_error, transparent_spend_blocked, insufficient_funds,
}
use zbag_app_tauri.Proposals.Account.{resolve_wallet_account_uuid}
use zbag_app_tauri.Proposals.Prepare.{
  Step, Outside, proposed, Proposed, parse_zatoshis, recipient_kind_of, sum_fees,
  proposal_total_fee, has_transparent_inputs, parse_recipient, check_memo_bytes, is_present,
  blocked_by_transparent, only_pending,
}
use zbag_app_tauri.Proposals.Prepare.Send.{
  SendRequest, u64_to_string, summarised, propose_checked, prepare,
}
use zbag_app_tauri.SendRules.{
  RecipientKind, transparent, hardware_signer, watch_only, enforce_privacy_and_memo_rules,
  ensure_spend_allowed_conn,
}
use zbag_app_tauri.SendRules.Allowed.{
  memo_length, enforce_privacy_and_memo_rules-ok_iff, ensure_spend_allowed_conn-ok_iff,
}
use zbag_app_tauri.Swap.Amounts.{u64_modulus, parse_unsigned}
use zbag_app_tauri.Proposals.Prepare.Amounts.{
  exact_fees, sum_fees-exact, zatoshis_ok, parse_zatoshis-ok, all_shielded, proposed_steps,
}

-- What a proposal that is kept with this fee rests on.
pub record IsPrepared {A : Type 0} (outside : Outside A) (backup : Option Bool)
    (account_type : Option Text) (request : SendRequest) (p : Proposed) (fee : ℕ) : Type 0 where
  backed_up : backup ≡ some false
  may_spend : (t : Text) × (account_type ≡ some t) × (t ≢ hardware_signer) × (t ≢ watch_only)
  amount : ℕ
  amount_lem : parse_unsigned u64_modulus (trim request.amount_zat) ≡ some amount
  positive : 0 < amount
  bounded : (amount ≤ outside.max_money) × (fee ≤ outside.max_money)
  address : A
  decoded : outside.decode request.recipient ≡ some address
  kind_lem : recipient_kind_of (outside.kind address) ≡ some p.summary.recipient_kind
  private :
      (p.summary.recipient_kind ≢ transparent)
      ⊎ ((request.memo ≡ none) × (request.allow_transparent_recipient ≡ true))
  short : memo_length request.memo ≤ 512
  account_uuid : ℕ
  resolved : resolve_wallet_account_uuid outside.accounts request.account_id ≡ ok account_uuid
  answered : outside.propose account_uuid address amount request.memo ≡ proposed p.steps
  shielded : All (λ (s : Step). s.transparent_inputs ≡ 0) p.steps
  fee_lem : fee ≡ exact_fees p.steps
  shown :
      (p.summary.memo_present ≡ is_present request.memo)
      × (p.summary.recipient ≡ request.recipient)
      × (p.summary.amount ≡ u64_to_string amount)
      × (p.summary.fee ≡ u64_to_string fee)
      × (p.summary.total_spend ≡ u64_to_string (amount + fee))

parse_recipient-ok :
    {A : Type 0} (outside : Outside A) (recipient : Text) (a : A) (kind : RecipientKind)
    → parse_recipient outside recipient ≡ ok (a, kind)
    → (outside.decode recipient ≡ some a) × (recipient_kind_of (outside.kind a) ≡ some kind)
unfolding parse_recipient
parse_recipient-ok outside recipient a kind h =
    let (address, d, h1) =
      bind_ok (ok_or (outside.decode recipient) invalid_recipient) _ (a, kind) h in
    let (k, e, h2) =
      bind_ok (ok_or (recipient_kind_of (outside.kind address)) invalid_recipient) _ (a, kind) h1 in
    let same : address ≡ a = cc in
    let same_kind : k ≡ kind = cc in
    (
      ok_or_ok _ invalid_recipient address d ∙ ap (λ x. some x) same,
      ap (λ x. recipient_kind_of (outside.kind x)) (sym same)
          ∙ (ok_or_ok _ invalid_recipient k e ∙ ap (λ x. some x) same_kind),
    )

module _ {A : Type 0} (outside : Outside A) (backup : Option Bool) (account_type : Option Text)
    (request : SendRequest) where
  propose_checked-ok :
      (address : A) (amount : ℕ) (steps : List Step)
      → propose_checked outside backup account_type request address amount ≡ ok steps
      → (u : ℕ) × (resolve_wallet_account_uuid outside.accounts request.account_id ≡ ok u)
        × (outside.propose u address amount request.memo ≡ proposed steps)
  unfolding propose_checked
  propose_checked-ok address amount steps h =
      let (balance, _, h1) = bind_ok (ok_or outside.get_balance internal_error) _ steps h in
      let (spendable, _, h2) =
        bind_ok (ok_or (parse_unsigned u64_modulus balance.shielded_spendable) internal_error) _
          steps h1 in
      let (pending, _, h3) =
        bind_ok (ok_or (parse_unsigned u64_modulus balance.shielded_pending) internal_error) _ steps
          h2 in
      let (total, _, h4) =
        bind_ok (ok_or (parse_unsigned u64_modulus balance.transparent_total) internal_error) _
          steps h3 in
      let (_, h5) =
        fail_if_ok (blocked_by_transparent spendable total amount) transparent_spend_blocked _ steps
          h4 in
      let (_, h6) =
        fail_if_ok (only_pending spendable pending amount) insufficient_funds _ steps h5 in
      let (u, r, h7) =
        bind_ok (resolve_wallet_account_uuid outside.accounts request.account_id) _ steps h6 in
      (u, r, proposed_steps (blocked_by_transparent spendable total amount) _ steps h7)

  -- What the guards let through, put together.
  assembled :
      (amount : ℕ) (ak : A × RecipientKind) (steps : List Step) (total : ℕ)
      → outside.max_money ≤ 2100000000000000
      → ensure_spend_allowed_conn backup account_type ≡ ok tt
      → parse_zatoshis outside.max_money request.amount_zat ≡ ok amount
      → amount == 0 ≡ false
      → parse_recipient outside request.recipient ≡ ok ak
      → enforce_privacy_and_memo_rules ak.1 request.memo request.allow_transparent_recipient ≡ ok tt
      → propose_checked outside backup account_type request ak.0 amount ≡ ok steps
      → has_transparent_inputs steps ≡ false
      → proposal_total_fee outside.max_money steps ≡ ok total
      → IsPrepared outside backup account_type request
          (summarised request ak.1 amount steps total)
          total
  unfolding summarised proposal_total_fee
  assembled amount ak steps total limit allowed parsed nonzero found rules made inputs fees =
      let (backed_up, may_spend) =
        (ensure_spend_allowed_conn-ok_iff backup account_type).0 allowed in
      let (amount_lem, bound) =
        parse_zatoshis-ok outside.max_money request.amount_zat amount parsed in
      let (decoded, kind_lem) = parse_recipient-ok outside request.recipient ak.0 ak.1 found in
      let (private, short) =
        (enforce_privacy_and_memo_rules-ok_iff ak.1 request.memo
            request.allow_transparent_recipient).0
          rules in
      let (u, resolved, answered) = propose_checked-ok ak.0 amount steps made in
      let (same, fee_bound) =
        zatoshis_ok outside.max_money internal_error (sum_fees 0 steps) total fees in
      let unwrapped : (amount + total) % u64_modulus ≡ amount + total =
        omega (arith, limit, bound, same, fee_bound) in
      let exact = sum_fees-exact steps 0 (omega arith) (omega (arith, limit, fee_bound)) in
      record {
        backed_up = backed_up;
        may_spend = may_spend;
        amount = amount;
        amount_lem = amount_lem;
        positive = ground (arith, nonzero);
        bounded = (bound, omega (arith, same, fee_bound));
        address = ak.0;
        decoded = decoded;
        kind_lem = kind_lem;
        private = private;
        short = short;
        account_uuid = u;
        resolved = resolved;
        answered = answered;
        shielded = all_shielded steps inputs;
        fee_lem = omega (arith, same, exact);
        shown = (refl, refl, refl, refl, ap u64_to_string unwrapped);
      }

  pub prepare-IsPrepared :
      (p : Proposed) (fee : ℕ)
      → outside.max_money ≤ 2100000000000000
      → prepare outside backup account_type request ≡ ok (p, fee)
      → IsPrepared outside backup account_type request p fee
  unfolding prepare
  prepare-IsPrepared p fee limit h =
      let (allowed, h1) = then_ok (ensure_spend_allowed_conn backup account_type) _ (p, fee) h in
      let (amount, parsed, h2) =
        bind_ok (parse_zatoshis outside.max_money request.amount_zat) _ (p, fee) h1 in
      let (nonzero, h3) = fail_if_ok (amount == 0) invalid_request _ (p, fee) h2 in
      let (ak, found, h4) = bind_ok (parse_recipient outside request.recipient) _ (p, fee) h3 in
      let (rules, h5) =
        then_ok
          (enforce_privacy_and_memo_rules ak.1 request.memo request.allow_transparent_recipient) _
          (p, fee) h4 in
      let (_, h6) = then_ok (check_memo_bytes outside.memo_fits request.memo) _ (p, fee) h5 in
      let (steps, made, h7) =
        bind_ok (propose_checked outside backup account_type request ak.0 amount) _ (p, fee) h6 in
      let (shielded, h8) =
        fail_if_ok (has_transparent_inputs steps) transparent_spend_blocked _ (p, fee) h7 in
      let (total, fees, h9) = bind_ok (proposal_total_fee outside.max_money steps) _ (p, fee) h8 in
      let kept = summarised request ak.1 amount steps total in
      let whole =
        assembled amount ak steps total limit allowed parsed nonzero found rules made shielded
          fees in
      let same = ok_injective (kept, total) (p, fee) h9 in
      subst (λ (x : Proposed × ℕ). IsPrepared outside backup account_type request x.0 x.1) same
        whole
