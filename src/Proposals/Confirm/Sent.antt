-- ===== src/Proposals/Confirm/Sent.antt =====
-- What a send that was confirmed rests on.
use zbag_app_tauri.Base.{
  by_test, ℕ, ◌≤◌, ◌≡◌, ◌≢◌, ◌⊎◌, inl, inr, refl, sym, ap, subst, ◌∙◌, Bool, false, List, [], ◌∷◌,
  Option, none, some, Text, arith, Option-cases,
}
use zbag_app_tauri.Base.Maps.{Map, lookup, remove}
use zbag_app_tauri.Base.Results.{Result, ok, err, io_error, then_ok}
use zbag_app_tauri.Proposals.{ProposalRecord, validate_proposal_for_wallet}
use zbag_app_tauri.Proposals.Prepare.{Proposed, has_transparent_inputs}
use zbag_app_tauri.Proposals.Confirm.{
  Confirming, Service, pending, Confirmed, Round, gone_on, broken, status_of, broadcast_each,
}
use zbag_app_tauri.Proposals.Confirm.Run.{
  after_validate, with_record, after_create, after_broadcasts, after_scan, may_send, after_check,
  confirm_send,
}
use zbag_app_tauri.RetryQueue.{QueuedBroadcastMeta}
use zbag_app_tauri.RetryQueue.Scan.{Scanned, scan_queued_broadcasts}
use zbag_app_tauri.SendRules.{hardware_signer, watch_only, ensure_spend_allowed_conn}
use zbag_app_tauri.SendRules.Allowed.{ensure_spend_allowed_conn-ok_iff}
use zbag_app_tauri.Proposals.Confirm.Rounds.{
  status-pending, AtRest, NotedIn, first-NotedIn, each-AtRest,
}

-- A validation that succeeds leaves the map as it is.
validate-ok :
    (m : Map (ProposalRecord Proposed)) (id wallet_id now account_id : ℕ)
    → (validate_proposal_for_wallet m id wallet_id now).1 ≡ ok account_id
    → (r : ProposalRecord Proposed) × (lookup id m ≡ some r)
      × (r.wallet_id ≡ wallet_id)
      × (now ≤ r.expires_at)
      × ((validate_proposal_for_wallet m id wallet_id now).0 ≡ m)
unfolding validate_proposal_for_wallet
validate-ok m id wallet_id now account_id h = elim (Option-cases (lookup id m)) [
  | inl e ↦ ground (arith, e)
  | inr (r, e) ↦ (r, e, ground (arith, e), ground (arith, e), ground (arith, e))
]

module _ (to_lowercase : Text → Text) (env : Confirming) where
  -- What a success rests on: `r` is the proposal, and `service` what was there before.
  pub record IsSent (backup : Option Bool) (account_type : ℕ → Option Text)
      (wallet_id proposal_id now : ℕ) (s after : Service) (c : Confirmed) : Type 0 where
    r : ProposalRecord Proposed
    found : lookup proposal_id s.proposals ≡ some r
    owner : r.wallet_id ≡ wallet_id
    in_time : now ≤ r.expires_at
    backed_up : backup ≡ some false
    may_spend :
        (t : Text) × (account_type r.account_id ≡ some t) × (t ≢ hardware_signer) × (t ≢ watch_only)
    shielded : has_transparent_inputs r.proposal.steps ≡ false
    others : List ℕ
    built : env.create r.proposal.steps ≡ some (c.txid, others)
    taken : c.status ≡ pending → env.send c.txid ≡ none
    consumed : after.proposals ≡ remove proposal_id s.proposals

  -- From the round that ended the loop.
  Ends : ProposalRecord Proposed → Service → ℕ → Service × Result Confirmed → Type 0
  Ends r s txid (after, err e) = after.proposals ≡ s.proposals
  Ends r s txid (after, ok c) =
      (c.txid ≡ txid)
      × (c.status ≡ pending → env.send txid ≡ none)
      × (after.proposals ≡ s.proposals)

  taken_lem :
      (txid : ℕ) (s : Service) (errors : Map Text) (entry : Option QueuedBroadcastMeta)
      → (env.send txid ≢ none → NotedIn txid (gone_on s errors))
      → (status_of entry (lookup txid errors)).0 ≡ pending
      → env.send txid ≡ none
  taken_lem txid s errors entry noted e = elim (Option-cases (env.send txid)) [
    | inl n ↦ n
    | inr (message, f) ↦
        let (m, g) = noted (λ n. cc) in
        let none_noted = status-pending entry (lookup txid errors) e in cc
  ]

  scan-Ends :
      (r : ProposalRecord Proposed) (txid : ℕ) (s s' : Service) (errors : Map Text)
      (scanned : Result Scanned)
      → (env.send txid ≢ none → NotedIn txid (gone_on s' errors))
      → s'.proposals ≡ s.proposals
      → Ends r s txid (after_scan to_lowercase env r txid s' errors scanned)
  unfolding Ends after_scan
  scan-Ends r txid s s' errors (err e) noted kept = kept
  scan-Ends r txid s s' errors (ok scanned) noted kept =
      (refl, λ e. taken_lem txid s' errors (lookup txid scanned.entries) noted e, kept)

  broadcasts-Ends :
      (r : ProposalRecord Proposed) (txid : ℕ) (s : Service) (round : Round)
      → (env.send txid ≢ none → NotedIn txid round)
      → AtRest s round
      → Ends r s txid (after_broadcasts to_lowercase env r txid round)
  unfolding after_broadcasts Ends
  broadcasts-Ends r txid s (broken s' e) noted kept = kept
  broadcasts-Ends r txid s (gone_on s' errors) noted kept =
      scan-Ends r txid s s' errors (scan_queued_broadcasts to_lowercase env.scanned_at s'.files)
        noted kept

  module _ (backup : Option Bool) (account_type : ℕ → Option Text) (wallet_id proposal_id now : ℕ)
      (s : Service) where
    -- A success was sent; a failure has used the proposal up, save where it was not valid or the
    -- application's database did not open.
    pub Outcome : Service × Result Confirmed → Type 0
    Outcome (after, ok c) = IsSent backup account_type wallet_id proposal_id now s after c
    Outcome (after, err e) =
        (after.proposals ≡ remove proposal_id s.proposals)
        ⊎ (((validate_proposal_for_wallet s.proposals proposal_id wallet_id now).1 ≡ err e)
            × (after.proposals
                ≡ (validate_proposal_for_wallet s.proposals proposal_id wallet_id now).0))
        ⊎ ((env.opens_app_db ≡ false) × (e ≡ io_error) × (after.proposals ≡ s.proposals))

    module _ (r : ProposalRecord Proposed) (s' : Service)
        (found : lookup proposal_id s.proposals ≡ some r) (owner : r.wallet_id ≡ wallet_id)
        (in_time : now ≤ r.expires_at) (used : s'.proposals ≡ remove proposal_id s.proposals)
        (allowed : may_send to_lowercase env backup (account_type r.account_id) r ≡ ok tt) where
      ended :
          (txid : ℕ) (others : List ℕ) (o : Service × Result Confirmed)
          → env.create r.proposal.steps ≡ some (txid, others)
          → Ends r s' txid o
          → Outcome o
      unfolding Ends Outcome may_send
      ended txid others (after, err e) built h = inl (h ∙ used)
      ended txid others (after, ok c) built h =
          let (checked, shielded) =
            then_ok (ensure_spend_allowed_conn backup (account_type r.account_id)) _ tt allowed in
          let (backed_up, may_spend) =
            (ensure_spend_allowed_conn-ok_iff backup (account_type r.account_id)).0 checked in
          record {
            r = r;
            found = found;
            owner = owner;
            in_time = in_time;
            backed_up = backed_up;
            may_spend = may_spend;
            shielded = ground (arith, shielded);
            others = others;
            built = built ∙ ap (λ (x : ℕ). some (x, others)) (sym h.0);
            taken = λ e. rw h.0 (h.1 e);
            consumed = h.2 ∙ used;
          }

      created-Outcome :
          (o : Option (ℕ × List ℕ))
          → env.create r.proposal.steps ≡ o
          → Outcome (after_create to_lowercase env r s' o)
      unfolding after_create Outcome
      created-Outcome none h = inl used
      created-Outcome (some (txid, others)) h =
          let each = broadcast_each to_lowercase env (txid ∷ others) s' [] in
          ended txid others (after_broadcasts to_lowercase env r txid each) h (
            broadcasts-Ends r txid s' each (first-NotedIn to_lowercase env txid others s')
              (each-AtRest to_lowercase env (txid ∷ others) s' []))

    check_lem :
        (r : ProposalRecord Proposed) (s' : Service)
        → lookup proposal_id s.proposals ≡ some r
        → r.wallet_id ≡ wallet_id
        → now ≤ r.expires_at
        → s'.proposals ≡ remove proposal_id s.proposals
        → (u : Result (Unit {0}))
        → may_send to_lowercase env backup (account_type r.account_id) r ≡ u
        → Outcome (after_check to_lowercase env r s' u)
    unfolding after_check Outcome
    check_lem r s' found owner in_time used (err e) h = inl used
    check_lem r s' found owner in_time used (ok tt) h =
        created-Outcome r s' found owner in_time used h (env.create r.proposal.steps) refl

    record_Outcome :
        (account_id : ℕ) (s' : Service)
        → (validate_proposal_for_wallet s.proposals proposal_id wallet_id now).1 ≡ ok account_id
        → s'.proposals ≡ remove proposal_id s.proposals
        → Outcome
            (with_record to_lowercase env backup account_type s' (lookup proposal_id s.proposals))
    unfolding with_record Outcome
    record_Outcome account_id s' valid used =
        let (r, found, owner, in_time, same) =
          validate-ok s.proposals proposal_id wallet_id now account_id valid in
        rw found (
          check_lem r s' found owner in_time used
            (may_send to_lowercase env backup (account_type r.account_id) r) refl)

    validated-Outcome :
        (v : Map (ProposalRecord Proposed) × Result ℕ)
        → validate_proposal_for_wallet s.proposals proposal_id wallet_id now ≡ v
        → Outcome (after_validate to_lowercase env backup account_type proposal_id s v)
    unfolding after_validate Outcome
    validated-Outcome (m, err e) h = inr (inl (ap (λ x. x.1) h, sym (ap (λ x. x.0) h)))
    validated-Outcome (m, ok account_id) h =
        let valid = ap (λ x. x.1) h in
        let (r, _, _, _, kept) =
          validate-ok s.proposals proposal_id wallet_id now account_id valid in
        let same = sym kept ∙ ap (λ x. x.0) h in
        by_test Outcome env.opens_app_db _ _
          (λ o.
            subst
              (λ x. Outcome (
                with_record to_lowercase env backup account_type
                  (record s { proposals = remove proposal_id x }) (lookup proposal_id x)))
              same
              (record_Outcome account_id (record s { proposals = remove proposal_id s.proposals })
                valid refl))
          (λ o. inr (inr (o, refl, sym same)))

    -- A confirmation that succeeds had a proposal of that wallet, in time, for an account that may spend and
    -- without transparent inputs; the transaction it tells of is the first that was built of the
    -- proposal's steps, and is called pending only if the relay took it. Whether it succeeds or fails, the
    -- proposal is used up and no other is touched, save in two cases: where the proposal was not
    -- valid, the error is that of the validation and the proposals are as it leaves them; where the
    -- application's database did not open, the proposals are as they were.
    pub confirm_send-Outcome :
        Outcome (confirm_send to_lowercase env backup account_type wallet_id proposal_id now s)
    unfolding confirm_send
    confirm_send-Outcome =
        validated-Outcome (validate_proposal_for_wallet s.proposals proposal_id wallet_id now) refl
