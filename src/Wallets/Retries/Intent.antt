-- ===== src/Wallets/Retries/Intent.antt =====
-- No transaction is sent again without the user.
use zbag_app_tauri.Base.{
  ℕ, ◌≡◌, refl, sym, ap, ◌∙◌, Bool, true, false, not, List, [], ◌∷◌, Option, none, some, arith,
  Text, Bool-cases, inl, inr,
}
use zbag_app_tauri.Base.Results.{
  Result, ErrorCode, ok, err, reauth_required, ◌>>=◌, bind_ok, fail_if_ok, wallet_locked,
}
use zbag_app_tauri.Reauth.{ReauthError, invalid, expired, spend, validate_and_consume}
use zbag_app_tauri.Servers.{Network}
use zbag_app_tauri.Wallets.{
  ActiveWallet, Manager, is_unlocked, snapshot, key_of, unlocked_wallet_dek,
}
use zbag_app_tauri.Wallets.Access.{consume_reauth_token, token_result}
use zbag_app_tauri.Wallets.Retries.{
  RetryBroadcastTask, task_of, build_retry_broadcast_task, build_with_token, prepare_for,
  prepare_retry_broadcast_task, first_task, next_for, prepare_next_queued_broadcast_retry_task,
  ensure_retry_task_wallet_state, ensure_retry_task_user_intent, validate_retry_broadcast_task,
  execute_prepared_retry_broadcast_task, execute_retry_broadcast_task,
}

-- A task is built for the transaction and the active wallet, unlocked, with its key and the server
-- that its network resolves to.
pub record IsFor (resolved : Network → Result Text) (txid : ℕ) (active : ActiveWallet)
    (task : RetryBroadcastTask) (confirmed : Bool) : Type 0 where
  pub txid_lem : task.txid ≡ txid
  pub url_lem : resolved active.wallet.network ≡ ok task.grpc_url
  pub unlocked_lem : is_unlocked active ≡ true
  pub id_lem : task.wallet_id ≡ active.wallet.id
  pub network_lem : task.wallet_network ≡ active.wallet.network
  pub directory_lem : task.wallet_dir ≡ active.wallet_dir
  pub dek_lem : active.dek ≡ some task.wallet_dek
  pub intent_lem : task.user_intent_confirmed ≡ confirmed

abbrev task_or : RetryBroadcastTask → Result RetryBroadcastTask → RetryBroadcastTask
task_or d (ok t) = t
task_or d (err e) = d

key_lem :
    (active : ActiveWallet) (dek : List ℕ)
    → key_of (snapshot active.wallet.id (some active)) ≡ ok dek
    → active.dek ≡ some dek
key_lem active dek h = ground (arith, h)

-- A task without consent is refused after the checks of the wallet, if not by them.
refused {ℓ} :
    {S : Type ℓ} (later : Manager S) (task : RetryBroadcastTask)
    (retry : RetryBroadcastTask → Result ℕ) (r : Result (Unit {0}))
    → ensure_retry_task_wallet_state later task ≡ r
    → task.user_intent_confirmed ≡ false
    → (code : ErrorCode) × (execute_retry_broadcast_task retry later task ≡ err code)
unfolding execute_retry_broadcast_task validate_retry_broadcast_task ensure_retry_task_user_intent
refused later task retry (ok u) e f = (reauth_required, rw (e, f) refl)
refused later task retry (err code) e f = (code, rw e refl)

abbrev task_result : Result RetryBroadcastTask → Bool
task_result (ok t) = true
task_result (err e) = false

module _ {ℓ} {S : Type ℓ} (m : Manager S) (resolved : Network → Result Text) where
  task-IsFor :
      (txid : ℕ) (confirmed : Bool) (task : RetryBroadcastTask) (active : ActiveWallet)
      → m.active_wallet ≡ some active
      → task_of m txid confirmed resolved (some active) ≡ ok task
      → IsFor resolved txid active task confirmed
  unfolding unlocked_wallet_dek
  task-IsFor txid confirmed task active e h =
      let (u, h1) = fail_if_ok (not (is_unlocked active)) wallet_locked _ task h in
      let (dek, k, h2) = bind_ok (key_of (snapshot active.wallet.id m.active_wallet)) _ task h1 in
      let (url, r, h3) = bind_ok (resolved active.wallet.network) _ task h2 in
      let found = ap (λ (x : Option ActiveWallet). key_of (snapshot active.wallet.id x)) e in
      let t = ap (task_or task) h3 in
      record {
        txid_lem = ap (λ (x : RetryBroadcastTask). x.txid) (sym t);
        url_lem = r ∙ ap (λ (x : RetryBroadcastTask). ok x.grpc_url) t;
        unlocked_lem = ground (arith, u);
        id_lem = ap (λ (x : RetryBroadcastTask). x.wallet_id) (sym t);
        network_lem = ap (λ (x : RetryBroadcastTask). x.wallet_network) (sym t);
        directory_lem = ap (λ (x : RetryBroadcastTask). x.wallet_dir) (sym t);
        dek_lem =
            key_lem active dek (sym found ∙ k)
            ∙ ap (λ (x : RetryBroadcastTask). some x.wallet_dek) t;
        intent_lem = ap (λ (x : RetryBroadcastTask). x.user_intent_confirmed) (sym t);
      }

  built-IsFor :
      (txid : ℕ) (confirmed : Bool) (task : RetryBroadcastTask) (o : Option ActiveWallet)
      → m.active_wallet ≡ o
      → task_of m txid confirmed resolved o ≡ ok task
      → task.user_intent_confirmed ≡ confirmed
  built-IsFor txid confirmed task none e h = cc
  built-IsFor txid confirmed task (some active) e h =
      (task-IsFor txid confirmed task active e h).intent_lem

  first_task-intent :
      (txids : List ℕ) (task : RetryBroadcastTask)
      → first_task m resolved txids ≡ ok (some task)
      → task.user_intent_confirmed ≡ false
  unfolding build_retry_broadcast_task
  first_task-intent [] task h = cc
  first_task-intent (txid ∷ txids) task h =
      let (t, b, e) = bind_ok (task_of m txid false resolved m.active_wallet) _ (some task) h in
      let same : t ≡ task = cc in
      ap (λ (x : RetryBroadcastTask). x.user_intent_confirmed) (sym same)
      ∙ built-IsFor txid false t m.active_wallet refl b

  next-intent :
      (due : Result (List ℕ)) (task : RetryBroadcastTask) (o : Option ActiveWallet)
      → next_for m due resolved o ≡ ok (some task)
      → task.user_intent_confirmed ≡ false
  next-intent due task none h = cc
  next-intent due task (some active) h = elim (Bool-cases (is_unlocked active)) [
    | inr u ↦ let none_due : ok none ≡ ok (some task) = sym (rw u refl) ∙ h in cc
    | inl u ↦
        let chain : (due >>= first_task m resolved) ≡ ok (some task) = sym (rw u refl) ∙ h in
        let (txids, d, e) = bind_ok due (first_task m resolved) (some task) chain in
        first_task-intent txids task e
  ]

  -- A task that the queue prepared is refused, by every manager, for want of the user's consent, whatever
  -- sending would answer.
  pub prepare_next-execute :
      (due : Result (List ℕ)) (task : RetryBroadcastTask) (later : Manager S)
      (retry : RetryBroadcastTask → Result ℕ)
      → prepare_next_queued_broadcast_retry_task m due resolved ≡ ok (some task)
      → (execute_prepared_retry_broadcast_task retry task ≡ err reauth_required)
        × ((code : ErrorCode) × (execute_retry_broadcast_task retry later task ≡ err code))
  unfolding prepare_next_queued_broadcast_retry_task execute_prepared_retry_broadcast_task
      ensure_retry_task_user_intent
  prepare_next-execute due task later retry h =
      let f = next-intent due task m.active_wallet h in
      (rw f refl, refused later task retry (ensure_retry_task_wallet_state later task) refl f)

module _ {ℓ} {S : Type ℓ} (m : Manager S) (resolved : Network → Result Text) where
  prepared :
      (after : Manager S) (txid token now : ℕ) (task : RetryBroadcastTask) (active : ActiveWallet)
      (e : Option ReauthError)
      → m.active_wallet ≡ some active
      → (validate_and_consume m.reauth token now active.wallet.id spend).1 ≡ e
      → build_with_token txid resolved (
        record m { reauth = (validate_and_consume m.reauth token now active.wallet.id spend).0 },
        token_result e,
      )
        ≡ (after, ok task)
      → (e ≡ none) × IsFor resolved txid active task true
  unfolding build_retry_broadcast_task
  prepared after txid token now task active none a c h =
      let spent : Manager S = record m {
        reauth = (validate_and_consume m.reauth token now active.wallet.id spend).0;
      } in
      let built : build_retry_broadcast_task spent txid true resolved ≡ ok task =
        ap (λ (r : Manager S × Result RetryBroadcastTask). r.1) h in
      (
        refl,
        task-IsFor spent resolved txid true task active a
            (ap (task_of spent txid true resolved) (sym a) ∙ built),
      )
  prepared after txid token now task active (some invalid) a c h =
      let f = ap (λ (r : Manager S × Result RetryBroadcastTask). task_result r.1) h in cc
  prepared after txid token now task active (some expired) a c h =
      let f = ap (λ (r : Manager S × Result RetryBroadcastTask). task_result r.1) h in cc

  prepared-IsFor :
      (after : Manager S) (txid token now : ℕ) (task : RetryBroadcastTask)
      (retry : RetryBroadcastTask → Result ℕ) (o : Option ActiveWallet)
      → m.active_wallet ≡ o
      → prepare_for m txid token now resolved o ≡ (after, ok task)
      → (active : ActiveWallet) × (m.active_wallet ≡ some active)
        × IsFor resolved txid active task true
        × ((validate_and_consume m.reauth token now active.wallet.id spend).1 ≡ none)
        × (execute_prepared_retry_broadcast_task retry task ≡ retry task)
  unfolding consume_reauth_token execute_prepared_retry_broadcast_task ensure_retry_task_user_intent
  prepared-IsFor after txid token now task retry none a h =
      let f = ap (λ (r : Manager S × Result RetryBroadcastTask). task_result r.1) h in cc
  prepared-IsFor after txid token now task retry (some active) a h =
      let (c, is_for) = prepared after txid token now task active _ a refl h in
      (active, a, is_for, c, rw is_for.intent_lem refl)

  -- A task that a token prepared is for the transaction that was asked for, and for the wallet that was
  -- active and unlocked then, with its key and the server of its network; the token was good for that
  -- wallet and for spending; and executing the task is sending it again, with no other check.
  pub prepare_retry-execute :
      (after : Manager S) (txid token now : ℕ) (task : RetryBroadcastTask)
      (retry : RetryBroadcastTask → Result ℕ)
      → prepare_retry_broadcast_task m txid token now resolved ≡ (after, ok task)
      → (active : ActiveWallet) × (m.active_wallet ≡ some active)
        × IsFor resolved txid active task true
        × ((validate_and_consume m.reauth token now active.wallet.id spend).1 ≡ none)
        × (execute_prepared_retry_broadcast_task retry task ≡ retry task)
  unfolding prepare_retry_broadcast_task
  prepare_retry-execute after txid token now task retry h =
      prepared-IsFor after txid token now task retry m.active_wallet refl h
