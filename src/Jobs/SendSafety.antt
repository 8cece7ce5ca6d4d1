-- ===== src/Jobs/SendSafety.antt =====
-- What the final record of a send job says of its transactions.
use mathlib.Core.List.{append-nil, append_assoc}
use zbag_app_tauri.Base.{
  ℕ, Bool, ◌≡◌, ◌≢◌, refl, sym, ap, ◌∙◌, List, [], ◌∷◌, ◌++◌, Option, none, some, Text, arith, All,
  some_eq,
}
use zbag_app_tauri.Broadcast.{BroadcastErrorClass}
use zbag_app_tauri.Jobs.Types.{JobState, JobProgress}
use zbag_app_tauri.Jobs.Progress
use zbag_app_tauri.Jobs.Service.{JobServiceState, get_progress}
use zbag_app_tauri.Jobs.Send.{
  SendEnv, created, TxBytes, bytes, missing, load_failed, serialize_failed, Broadcasts,
  relay_failure, record_relay, broadcast_all, run_send_job, bytes_unavailable, load_failed_prefix,
  serialize_failed_prefix,
}
use zbag_app_tauri.Jobs.SendRun.{
  stops, broadcasts, NothingSent, start, final_progress, run_send_job-Course,
}

module _ (to_lowercase : Text → Text) (env : SendEnv) where
  -- The transaction was read, and the relay took it or had it already.
  abbrev pub IsRelayed : ℕ → Type 0
  IsRelayed txid = (env.get_transaction txid ≡ bytes) × (relay_failure to_lowercase env txid ≡ none)

  abbrev AllRelayed : List ℕ → Broadcasts → Broadcasts → Type 0
  AllRelayed ids b after =
      (b.broadcast_error ≡ none) × All IsRelayed ids × (after.relayed ≡ b.relayed ++ ids)

  record_relay-error :
      (txid : ℕ) (o : Option (Text × BroadcastErrorClass × Bool)) (b : Broadcasts)
      → (record_relay to_lowercase env txid o b).broadcast_error ≡ none
      → (o ≡ none)
        × (b.broadcast_error ≡ none)
        × ((record_relay to_lowercase env txid o b).relayed ≡ b.relayed ++ txid ∷ [])
  record_relay-error txid none b h = (refl, h, refl)
  record_relay-error txid (some (m, c, r)) b h = cc

  -- A loop that ends with no error has relayed every transaction, in order.
  broadcast_all-none :
      (ids : List ℕ) (b : Broadcasts)
      → (broadcast_all to_lowercase env ids b).broadcast_error ≡ none
      → AllRelayed ids b (broadcast_all to_lowercase env ids b)
  unfolding broadcast_all
  broadcast_all-none [] b h = (h, tt, sym (append-nil b.relayed))
  broadcast_all-none (txid ∷ rest) b h =
      go (env.get_transaction txid) refl
        (broadcast_all-none rest
          (record_relay to_lowercase env txid (relay_failure to_lowercase env txid) b))
        h
    where
      next : Broadcasts
      next = record_relay to_lowercase env txid (relay_failure to_lowercase env txid) b

      after : TxBytes → Broadcasts
      after t = elim t [
        | missing ↦ record b { broadcast_error = some bytes_unavailable }
        | load_failed e ↦ record b { broadcast_error = some (load_failed_prefix ++ e) }
        | serialize_failed e ↦ record b { broadcast_error = some (serialize_failed_prefix ++ e) }
        | bytes ↦ broadcast_all to_lowercase env rest next
      ]

      go :
          (t : TxBytes)
          → env.get_transaction txid ≡ t
          → ((broadcast_all to_lowercase env rest next).broadcast_error ≡ none
              → AllRelayed rest next (broadcast_all to_lowercase env rest next))
          → (after t).broadcast_error ≡ none
          → AllRelayed (txid ∷ rest) b (after t)
      go missing e ih k = cc
      go (load_failed m) e ih k = cc
      go (serialize_failed m) e ih k = cc
      go bytes e ih k =
          let later = ih k in
          let first = record_relay-error txid (relay_failure to_lowercase env txid) b later.0 in
          (
            first.1,
            ((e, first.0), later.1),
            later.2 ∙ ap (λ (xs : List ℕ). xs ++ rest) first.2 ∙ append_assoc b.relayed _ rest,
          )

  final_progress-ne_cancelled :
      (job_id txid : ℕ) (o : Option Text) (p : JobProgress)
      → final_progress to_lowercase env job_id txid o ≡ p
      → p.state ≢ JobState.cancelled
  unfolding Progress.completed Progress.failed
  final_progress-ne_cancelled job_id txid none p h c = ground arith
  final_progress-ne_cancelled job_id txid (some e) p h c = ground arith

  final_progress-completed :
      (job_id txid : ℕ) (o : Option Text) (p : JobProgress)
      → final_progress to_lowercase env job_id txid o ≡ p
      → p.state ≡ JobState.completed
      → (o ≡ none) × (p.txid ≡ some txid)
  unfolding Progress.completed Progress.failed
  final_progress-completed job_id txid none p h c = (refl, ground arith)
  final_progress-completed job_id txid (some e) p h c = ground arith

  module _ (job_id : ℕ) (s : JobServiceState) (p : JobProgress) where
    -- A send job whose record says that it was cancelled has handed no transaction to the relay, and
    -- queued none.
    pub run_send_job-cancelled :
        get_progress (run_send_job to_lowercase env job_id s).store job_id ≡ some p
        → p.state ≡ JobState.cancelled
        → NothingSent to_lowercase env job_id (run_send_job to_lowercase env job_id s)
    run_send_job-cancelled h c = elim (run_send_job-Course to_lowercase env job_id s) [
      | stops q e t r u ↦ (r, u)
      | broadcasts txid rest e f r u ↦ absurd (
          final_progress-ne_cancelled job_id txid
            (broadcast_all to_lowercase env (txid ∷ rest)
              (start to_lowercase env job_id)).broadcast_error
            p (some_eq _ p (sym f ∙ h)) c)
    ]

    -- A send job whose record says that it completed was built, and each of its transactions was
    -- read and went to the relay, in order, which took it or had it already. The record bears the
    -- first one's id.
    pub run_send_job-completed :
        get_progress (run_send_job to_lowercase env job_id s).store job_id ≡ some p
        → p.state ≡ JobState.completed
        → (txid : ℕ) × (rest : List ℕ) × (env.create ≡ created txid rest)
          × All IsRelayed (txid ∷ rest)
          × ((run_send_job to_lowercase env job_id s).relayed ≡ txid ∷ rest)
          × (p.txid ≡ some txid)
    run_send_job-completed h c = elim (run_send_job-Course to_lowercase env job_id s) [
      | stops q e t r u ↦
          let same : q ≡ p = some_eq q p (sym e ∙ h) in absurd (ground (arith, t, same))
      | broadcasts txid rest e f r u ↦
          let last =
            final_progress-completed job_id txid
              (broadcast_all to_lowercase env (txid ∷ rest)
                (start to_lowercase env job_id)).broadcast_error
              p (some_eq _ p (sym f ∙ h)) c in
          let all = broadcast_all-none (txid ∷ rest) (start to_lowercase env job_id) last.0 in
          (txid, rest, e, all.1, r ∙ all.2, last.1)
    ]
