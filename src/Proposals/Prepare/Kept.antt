-- ===== src/Proposals/Prepare/Kept.antt =====
-- What becomes of a send that was prepared.
use zbag_app_tauri.Base.{
  ℕ, ◌+◌, ◌/◌, ◌≤◌, ◌≡◌, ◌≢◌, ◌⊎◌, inl, inr, refl, Bool, Option, Text, arith, ==_refl,
}
use zbag_app_tauri.Base.Int.{i64_max, pos}
use zbag_app_tauri.Base.Maps.{Map, lookup, insert, lookup-insert}
use zbag_app_tauri.Base.Results.{Result, ok, err, ErrorCode}
use zbag_app_tauri.Proposals.{ProposalRecord, take_proposal_for_execution}
use zbag_app_tauri.Proposals.Prepare.{Outside, Proposed}
use zbag_app_tauri.Proposals.Prepare.Send.{
  PrepareSendResponse, proposal_ttl, SendRequest, response_of, prepare, prepare_send,
}
use zbag_app_tauri.Proposals.Prepare.Sound.{IsPrepared, prepare-IsPrepared}

module _ (m : Map (ProposalRecord Proposed)) (id : ℕ) where
  -- What was inserted last can be taken until it expires.
  take-inserted :
      (later : ℕ) (r : ProposalRecord Proposed)
      → later ≤ r.expires_at
      → (take_proposal_for_execution (insert id r m) id r.wallet_id later).1 ≡ ok r
  unfolding take_proposal_for_execution
  take-inserted later r l =
      ground (arith, l, lookup-insert id id r m, ==_refl id, ==_refl r.wallet_id)

  inserted-other :
      (j : ℕ) (r : ProposalRecord Proposed) → j ≢ id → lookup j (insert id r m) ≡ lookup j m
  inserted-other j r ne = ground (arith, lookup-insert id j r m)

module _ {A : Type 0} (outside : Outside A) (backup : Option Bool) (account_type : Option Text)
    (request : SendRequest) (wallet_id proposal_id now : ℕ)
    (m : Map (ProposalRecord Proposed)) where
  abbrev outcome : Map (ProposalRecord Proposed) × Result PrepareSendResponse
  outcome = prepare_send outside backup account_type request wallet_id proposal_id now m

  -- A success: the proposal rests on what it should, the response tells of it, and its wallet can take
  -- it until it expires; no other proposal is touched.
  pub record IsKept (response : PrepareSendResponse) : Type 0 where
    proposal : Proposed
    fee : ℕ
    prepared : IsPrepared outside backup account_type request proposal fee
    told :
        (response.proposal_id ≡ proposal_id)
        × (response.summary ≡ proposal.summary)
        × (response.expires_at ≡ pos ((now + proposal_ttl) / 1000000))
    taken :
        (later : ℕ)
        → later ≤ now + proposal_ttl
        → (take_proposal_for_execution outcome.0 proposal_id wallet_id later).1
          ≡ ok (record {
            wallet_id = wallet_id;
            account_id = request.account_id;
            expires_at = now + proposal_ttl;
            proposal = proposal;
          })
    others : (j : ℕ) → j ≢ proposal_id → lookup j outcome.0 ≡ lookup j m

  module _ (limit : outside.max_money ≤ 2100000000000000)
      (in_time : (now + proposal_ttl) / 1000000 ≤ i64_max) where
    told_lem :
        (p : Proposed) (fee : ℕ)
        → ((response_of proposal_id p fee (pos ((now + proposal_ttl) / 1000000))).proposal_id
            ≡ proposal_id)
          × ((response_of proposal_id p fee (pos ((now + proposal_ttl) / 1000000))).summary
              ≡ p.summary)
          × ((response_of proposal_id p fee (pos ((now + proposal_ttl) / 1000000))).expires_at
              ≡ pos ((now + proposal_ttl) / 1000000))
    unfolding response_of
    told_lem p fee = (refl, refl, refl)

    of_result :
        (r : Result (Proposed × ℕ))
        → prepare outside backup account_type request ≡ r
        → ((response : PrepareSendResponse) × (outcome.1 ≡ ok response) × IsKept response)
          ⊎ ((e : ErrorCode) × (outcome.1 ≡ err e) × (outcome.0 ≡ m))
    unfolding prepare_send
    of_result (err e) h = inr (e, rw h refl, rw h refl)
    of_result (ok (p, fee)) h = inl (
      response_of proposal_id p fee (pos ((now + proposal_ttl) / 1000000)),
      ground (arith, h, in_time),
      record {
        proposal = p;
        fee = fee;
        prepared = prepare-IsPrepared outside backup account_type request p fee limit h;
        told = told_lem p fee;
        taken = λ later l. rw h (
            take-inserted m proposal_id later
              (record {
                wallet_id = wallet_id;
                account_id = request.account_id;
                expires_at = now + proposal_ttl;
                proposal = p;
              })
              l);
        others = λ j ne. rw h (inserted-other m proposal_id j _ ne);
      },
    )

    -- With amounts limited to the supply and a clock whose milliseconds fit an i64, a preparation that
    -- succeeds has kept a proposal for an account that may spend, of a positive amount in range, to an
    -- address and with a memo that the rules allow, without transparent inputs, whose fee is the exact
    -- sum of its steps' fees and whose summary tells the amount, the fee and their exact sum; its
    -- wallet can take it until it expires, and no other proposal is touched. One that fails keeps
    -- nothing.
    pub prepare_send-outcome :
        ((response : PrepareSendResponse) × (outcome.1 ≡ ok response) × IsKept response)
        ⊎ ((e : ErrorCode) × (outcome.1 ≡ err e) × (outcome.0 ≡ m))
    prepare_send-outcome = of_result (prepare outside backup account_type request) refl
