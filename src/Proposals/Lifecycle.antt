-- ===== src/Proposals/Lifecycle.antt =====
-- A proposal is executed at most once, by its wallet, before it expires.
use zbag_app_tauri.Base.{
  ℕ, ◌≤◌, ◌≡◌, ◌≢◌, inl, inr, some, arith, ==_refl, ==_ne, ==→eq, Option-cases,
}
use zbag_app_tauri.Base.Maps.{Map, lookup, remove, lookup-insert, lookup-remove}
use zbag_app_tauri.Base.Results.{ok, err, proposal_not_found}
use zbag_app_tauri.Proposals.{
  ProposalRecord, validate_proposal_for_wallet, take_proposal_for_execution,
  import_proposal_for_execution,
}

module _ {P : Type 0} (m : Map (ProposalRecord P)) (id wallet_id now : ℕ) where
  -- What is taken belongs to the wallet and has not expired, and a second take finds nothing.
  pub take_proposal-ok :
      (r : ProposalRecord P) (wallet_id' later : ℕ)
      → (take_proposal_for_execution m id wallet_id now).1 ≡ ok r
      → (lookup id m ≡ some r)
        × (r.wallet_id ≡ wallet_id)
        × (now ≤ r.expires_at)
        × ((take_proposal_for_execution
              (take_proposal_for_execution m id wallet_id now).0
              id
              wallet_id'
              later).1
            ≡ err proposal_not_found)
  unfolding take_proposal_for_execution
  take_proposal-ok r wallet_id' later h = elim (Option-cases (lookup id m)) [
    | inl e ↦ ground (arith, e)
    | inr (q, e) ↦ (
      ground (arith, e),
      ground (arith, e),
      ground (arith, e),
      ground (arith, e, lookup-remove id id m, ==_refl id),
    )
  ]

  take-removes :
      (r : ProposalRecord P)
      → (take_proposal_for_execution m id wallet_id now).1 ≡ ok r
      → (take_proposal_for_execution m id wallet_id now).0 ≡ remove id m
  unfolding take_proposal_for_execution
  take-removes r h = ground arith

  -- Giving a taken proposal back restores the map as it is looked up: every other proposal is as
  -- before, and this one has its wallet, account and expiry again.
  pub import-take :
      (r : ProposalRecord P) (j : ℕ)
      → (take_proposal_for_execution m id wallet_id now).1 ≡ ok r
      → lookup j (
          import_proposal_for_execution
            (take_proposal_for_execution m id wallet_id now).0
            id
            wallet_id
            r.account_id
            r.expires_at
            r.proposal)
        ≡ lookup j m
  unfolding import_proposal_for_execution
  import-take r j h =
      let (found, owner, _, _) = take_proposal-ok r wallet_id now h in
      rw (take-removes r h) (
        ground (
          arith,
          found,
          owner,
          lookup-insert id j
              (record {
                wallet_id = wallet_id;
                account_id = r.account_id;
                expires_at = r.expires_at;
                proposal = r.proposal;
              })
              (remove id m),
          lookup-remove id j m,
          ==→eq id j,
        ))

  -- The call of another wallet finds nothing, and changes nothing.
  pub take_proposal-mismatch :
      (r : ProposalRecord P)
      → lookup id m ≡ some r
      → r.wallet_id ≢ wallet_id
      → (take_proposal_for_execution m id wallet_id now ≡ (m, err proposal_not_found))
        × (validate_proposal_for_wallet m id wallet_id now ≡ (m, err proposal_not_found))
  unfolding take_proposal_for_execution validate_proposal_for_wallet
  take_proposal-mismatch r e ne = (
    ground (arith, e, ==_ne r.wallet_id wallet_id ne),
    ground (arith, e, ==_ne r.wallet_id wallet_id ne),
  )
