-- ===== src/Examples/Prepared.antt =====
-- A send of 1000 zatoshis, prepared for a wallet that holds 5000, and for one that would have to shield.
use zbag_app_tauri.Base.{
  Bool, Option, ascii_lowercase, contains_any, ◌==◌, if◌then◌else◌, text_eq, ℕ, ◌≡◌, ◌⊎◌, refl,
  true, false, List, [], ◌∷◌, none, some, Text, text, arith,
}
use zbag_app_tauri.Base.Results.{Result, ok, err, ErrorCode, transparent_spend_blocked}
use zbag_app_tauri.Proposals.{ProposalRecord}
use zbag_app_tauri.Proposals.Confirm.{
  Confirming, Service, TransactionStatus, pending, failed, Confirmed,
}
use zbag_app_tauri.Proposals.Confirm.Run.{confirm_send}
use zbag_app_tauri.Proposals.Confirm.Sent.{Outcome, confirm_send-Outcome}
use zbag_app_tauri.Broadcast.{duplicate_markers, terminal_markers, transport_markers}
use zbag_app_tauri.RetryQueue.{normalize_queued_broadcast_meta, apply_retry_policy}
use zbag_app_tauri.SendRules.{orchard, hardware_signer, watch_only}
use zbag_app_tauri.Proposals.Account.{key_source_for_account_id}
use zbag_app_tauri.Proposals.Prepare.{Step, Outside, Proposed, unified, Proposing, proposed}
use zbag_app_tauri.Proposals.Prepare.Send.{
  SendRequest, PrepareSendResponse, prepare, prepare_send, u64_to_string,
}
use zbag_app_tauri.Proposals.Prepare.Kept.{IsKept, prepare_send-outcome}

abbrev one_step : List Step
one_step = record { fee_required = 10; transparent_inputs = 0 } ∷ []

abbrev library : Text → Text → Proposing → Outside ℕ
library spendable total answer = record {
  max_money = 2100000000000000;
  decode = λ encoded. some 0;
  kind = λ address. unified true false true;
  memo_fits = λ memo. true;
  get_balance = some (record {
    shielded_spendable = spendable;
    shielded_pending = text "0";
    transparent_total = total;
  });
  accounts =
      some
        (record { uuid = 7; key_source = some (text "zbag-account-id:0"); derivation = none } ∷ []);
  propose = λ account address amount memo. answer;
}

abbrev payment : SendRequest
payment = record {
  account_id = 0;
  recipient = text "u1abc";
  amount_zat = text " 1000 ";
  memo = none;
  allow_transparent_recipient = false;
}

abbrev rich : Outside ℕ
rich = library (text "5000") (text "0") (proposed one_step)

abbrev poor : Outside ℕ
poor = library (text "500") (text "800") (proposed one_step)

key_source_0 : key_source_for_account_id 0 ≡ text "zbag-account-id:0"
unfolding key_source_for_account_id
key_source_0 = refl

fee_text : u64_to_string 10 ≡ text "10"
unfolding u64_to_string
fee_text = refl

total_of_fee :
    elim (prepare rich (some false) (some (text "Software")) payment) [
      | err e ↦ []
      | ok (p, fee) ↦ p.summary.total_spend
    ]
    ≡ text "1010"
unfolding prepare text_eq hardware_signer watch_only
total_of_fee = refl

must_shield :
    prepare poor (some false) (some (text "Software")) payment ≡ err transparent_spend_blocked
unfolding prepare text_eq hardware_signer watch_only
must_shield = refl

prepare_send-outcome_example :
    ((response : PrepareSendResponse) × ((prepare_send rich
          (some false)
          (some (text "Software"))
          payment
          8
          3
          5000
          []).1
        ≡ ok response)
      × IsKept rich (some false) (some (text "Software")) payment 8 3 5000 [] response)
    ⊎ ((e : ErrorCode) × ((prepare_send rich
            (some false)
            (some (text "Software"))
            payment
            8
            3
            5000
            []).1
          ≡ err e)
        × ((prepare_send rich (some false) (some (text "Software")) payment 8 3 5000 []).0 ≡ []))
prepare_send-outcome_example =
    prepare_send-outcome rich (some false) (some (text "Software")) payment 8 3 5000 []
      (omega arith) (omega arith)

abbrev waiting : ProposalRecord Proposed
waiting = record {
  wallet_id = 8;
  account_id = 0;
  expires_at = 9000;
  proposal = record {
    steps = one_step;
    summary = record {
      recipient = text "u1abc";
      recipient_kind = orchard;
      amount = text "1000";
      fee = text "10";
      memo_present = false;
      total_spend = text "1010";
    };
  };
}

abbrev service : Service
service = record { proposals = (3, waiting) ∷ []; queued_broadcasts = []; files = none }

abbrev relayed_to : Option Text → Confirming
relayed_to answer = record {
  opens_app_db = true;
  create = λ steps. some (100, 101 ∷ []);
  loads = λ txid. true;
  send = λ txid. if txid == 100 then answer else none;
  queued_at = λ txid. 5000000;
  delay_ms = λ txid. 30000;
  persists = λ txid. true;
  scanned_at = 6000000;
}

abbrev shown : Service × Result Confirmed → Option (TransactionStatus × Bool)
shown (s, err e) = none
shown (s, ok c) = some (c.status, c.can_retry_broadcast)

abbrev confirmed_by : Option Text → Service × Result Confirmed
confirmed_by answer =
    confirm_send ascii_lowercase (relayed_to answer) (some false)
      (λ account. some (text "Software")) 8 3 5000 service

taken : shown (confirmed_by none) ≡ some (pending, false)
unfolding confirm_send text_eq hardware_signer watch_only
taken = refl

timed_out : shown (confirmed_by (some (text "Timeout"))) ≡ some (failed, true)
unfolding confirm_send text_eq hardware_signer watch_only ascii_lowercase
    normalize_queued_broadcast_meta apply_retry_policy contains_any duplicate_markers
    terminal_markers transport_markers
timed_out = refl

confirm_send-Outcome_example :
    Outcome ascii_lowercase
      (relayed_to none)
      (some false)
      (λ account. some (text "Software"))
      8
      3
      5000
      service
      (confirm_send ascii_lowercase
        (relayed_to none)
        (some false)
        (λ account. some (text "Software"))
        8
        3
        5000
        service)
confirm_send-Outcome_example =
    confirm_send-Outcome ascii_lowercase (relayed_to none) (some false)
      (λ account. some (text "Software")) 8 3 5000 service
