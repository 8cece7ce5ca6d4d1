-- ===== src/Examples/Jobs.antt =====
-- Jobs: cancellation, clearing and a send job.
use zbag_app_tauri.Base.{
  ℕ, zero, suc, ◌≡◌, ◌≢◌, refl, true, false, List, [], ◌∷◌, none, some, text, ascii_lowercase,
  contains_any, All, arith,
}
use zbag_app_tauri.Base.Int.{pos}
use zbag_app_tauri.Base.Maps.{lookup, Distinct}
use zbag_app_tauri.Jobs.Types.{JobType, JobState, JobProgress, is_terminal}
use zbag_app_tauri.Jobs.Progress
use zbag_app_tauri.Jobs.Service.{
  JobServiceState, get_progress, cancel_job, clear_finished_jobs, emit_progress, blocking_update,
}
use zbag_app_tauri.Jobs.Cancel.{cancel_job_overwritten}
use zbag_app_tauri.Jobs.Clear.{clear_finished_jobs-any_wallet}
use zbag_app_tauri.Jobs.Send.{SendEnv, created, bytes, broadcast_all, relay_failure, run_send_job}
use zbag_app_tauri.Broadcast.{duplicate_markers, classify_job_broadcast_failure}
use zbag_app_tauri.Jobs.SendRun.{IsEnded, NothingSent, run_send_job-IsEnded}
use zbag_app_tauri.Jobs.SendSafety.{IsRelayed, run_send_job-cancelled, run_send_job-completed}

-- Job 1 of wallet 8 proves its transaction, job 2 of wallet 9 waits.
abbrev store : JobServiceState
store = record {
  jobs = (1, record { wallet_id = 8 }) ∷ (2, record { wallet_id = 9 }) ∷ [];
  progress =
      (1, Progress.proving 1 JobType.send (some 10)) ∷ (2, Progress.queued 2 JobType.send) ∷ [];
}

abbrev proving_50 : JobProgress
proving_50 = Progress.proving 1 JobType.send (some 50)

found : get_progress store 1 ≡ some (Progress.proving 1 JobType.send (some 10))
unfolding get_progress
found = refl

cancel_accepted : (cancel_job store 1).answer ≡ true
unfolding cancel_job Progress.proving
cancel_accepted = refl

no_job_3 : (cancel_job store 3).answer ≡ false
unfolding cancel_job
no_job_3 = refl

one_ne_two : ◌≢◌ {A = ℕ} 1 2
one_ne_two e = omega (arith, e)

proving_runs : (Progress.proving 1 JobType.send (some 10)).state ≡ JobState.running
unfolding Progress.proving
proving_runs = refl

proving_50_runs : proving_50.state ≡ JobState.running
unfolding Progress.proving
proving_50_runs = refl

proving_not_over : is_terminal (Progress.proving 1 JobType.send (some 10)).state ≡ false
unfolding Progress.proving
proving_not_over = refl

proving_can_cancel : (Progress.proving 1 JobType.send (some 10)).can_cancel ≡ true
unfolding Progress.proving
proving_can_cancel = refl

entry_1 : lookup 1 store.jobs ≡ some (record { wallet_id = 8 })
unfolding lookup
entry_1 = refl

-- The task of job 1 goes on to 50 percent after the cancellation.
abbrev overwritten : JobServiceState
overwritten = blocking_update (cancel_job store 1).state 1 proving_50

cancel_job_overwritten_example :
    ((cancel_job store 1).answer ≡ true)
    × (get_progress overwritten 1 ≡ some proving_50)
    × ((cancel_job overwritten 1).answer ≡ false)
    × ((cancel_job overwritten 1).state ≡ overwritten)
cancel_job_overwritten_example =
    cancel_job_overwritten store 1 (Progress.proving 1 JobType.send (some 10)) proving_50
      (record { wallet_id = 8 }) found proving_not_over proving_can_cancel entry_1 proving_50_runs

store_Distinct : Distinct store.progress
unfolding lookup
store_Distinct = ground arith

ended_Distinct : Distinct (emit_progress store 1 (Progress.completed 1 JobType.send 77)).progress
unfolding emit_progress lookup
ended_Distinct = ground arith

completed_over : is_terminal (Progress.completed 1 JobType.send 77).state ≡ true
unfolding Progress.completed
completed_over = refl

clear_finished_jobs-any_wallet_example :
    get_progress
      (clear_finished_jobs (emit_progress store 1 (Progress.completed 1 JobType.send 77)) 9)
      1
    ≡ none
clear_finished_jobs-any_wallet_example =
    clear_finished_jobs-any_wallet store 1 9 (Progress.completed 1 JobType.send 77) ended_Distinct
      completed_over

-- Two transactions; the relay has the second one already.
abbrev env : SendEnv
env = record {
  cancelled_at_start = false;
  open_wallet_db = none;
  cancelled_before_proving = false;
  create = created 77 (78 ∷ []);
  cancelled_after_proving = false;
  get_transaction = λ txid. bytes;
  relay = λ txid. elim txid [ zero ↦ none | suc n ↦ some (text "txn-already-in-mempool") ];
  persists = λ txid. true;
  now_ms = pos 9;
  delay_ms = 5000;
}

abbrev env_cancelled : SendEnv
env_cancelled = record env { cancelled_after_proving = true }

run_send_job-IsEnded_example : IsEnded 1 (run_send_job ascii_lowercase env 1 store)
run_send_job-IsEnded_example = run_send_job-IsEnded ascii_lowercase env 1 store

sent_and_completed :
    get_progress (run_send_job ascii_lowercase env 1 store).store 1
    ≡ some (Progress.completed 1 JobType.send 77)
unfolding run_send_job get_progress Progress.completed broadcast_all relay_failure
    classify_job_broadcast_failure contains_any duplicate_markers ascii_lowercase
sent_and_completed = refl

completed_state : (Progress.completed 1 JobType.send 77).state ≡ JobState.completed
unfolding Progress.completed
completed_state = refl

run_send_job-completed_example :
    (txid : ℕ) × (rest : List ℕ) × (env.create ≡ created txid rest)
    × All (IsRelayed ascii_lowercase env) (txid ∷ rest)
    × ((run_send_job ascii_lowercase env 1 store).relayed ≡ txid ∷ rest)
    × ((Progress.completed 1 JobType.send 77).txid ≡ some txid)
run_send_job-completed_example =
    run_send_job-completed ascii_lowercase env 1 store (Progress.completed 1 JobType.send 77)
      sent_and_completed completed_state

cancelled_record :
    get_progress (run_send_job ascii_lowercase env_cancelled 1 store).store 1
    ≡ some (Progress.cancelled 1 JobType.send)
unfolding run_send_job get_progress Progress.cancelled
cancelled_record = refl

cancelled_state : (Progress.cancelled 1 JobType.send).state ≡ JobState.cancelled
unfolding Progress.cancelled
cancelled_state = refl

run_send_job-cancelled_example :
    NothingSent ascii_lowercase env_cancelled 1 (run_send_job ascii_lowercase env_cancelled 1 store)
run_send_job-cancelled_example =
    run_send_job-cancelled ascii_lowercase env_cancelled 1 store (Progress.cancelled 1 JobType.send)
      cancelled_record cancelled_state
