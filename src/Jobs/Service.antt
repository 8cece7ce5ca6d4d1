-- ===== src/Jobs/Service.antt =====
-- The operations of `JobService`, and the updates that a job's task makes, each under the lock. A
-- `JobEntry` is the wallet it is for; the cancellation signal and the abort are the outcome of
-- `cancel_job`, since the entry's sender and handle are used nowhere else.
use zbag_app_tauri.Base.{
  ℕ, Bool, true, false, not, ◌&&◌, List, [], ◌∷◌, Option, none, some, ◌==◌, if◌then◌else◌,
}
use zbag_app_tauri.Base.Maps.{Map, lookup, insert, remove}
use zbag_app_tauri.Jobs.Types.{JobType, JobProgress, is_terminal}
use zbag_app_tauri.Jobs.Progress

pub record JobEntry : Type 0 where
  pub wallet_id : ℕ

pub record JobServiceState : Type 0 where
  pub jobs : Map JobEntry
  pub progress : Map JobProgress

unfoldable pub new : JobServiceState
new = record { jobs = []; progress = [] }

unfoldable pub get_progress : JobServiceState → ℕ → Option JobProgress
unfolding lookup
get_progress s job_id = lookup job_id s.progress

abbrev pub cons_some {ℓ} : {A : Type ℓ} → Option A → List A → List A
cons_some none xs = xs
cons_some (some x) xs = x ∷ xs

abbrev pub list_entries : Map JobProgress → ℕ → Map JobEntry → List JobProgress
list_entries progress wallet_id [] = []
list_entries progress wallet_id ((job_id, entry) ∷ rest) =
    let later = list_entries progress wallet_id rest in
    if entry.wallet_id == wallet_id then cons_some (lookup job_id progress) later else later

unfoldable pub list_jobs : JobServiceState → ℕ → List JobProgress
unfolding lookup
list_jobs s wallet_id = list_entries s.progress wallet_id s.jobs

-- The state after a call of `cancel_job`, its answer, and whether it signalled the task and aborted
-- its handle.
pub record CancelOutcome : Type 0 where
  pub state : JobServiceState
  pub answer : Bool
  pub signalled : Bool

abbrev pub cancel_progress : ℕ → Option JobProgress → Map JobProgress → Map JobProgress
cancel_progress job_id none m = m
cancel_progress job_id (some p) m = insert job_id (Progress.cancelled job_id p.job_type) m

-- `state.jobs.remove(job_id)` and what follows.
abbrev pub cancel_entry : JobServiceState → ℕ → Option JobEntry → CancelOutcome
cancel_entry s job_id none = record { state = s; answer = false; signalled = false }
cancel_entry s job_id (some entry) = record {
  state = record s {
    jobs = remove job_id s.jobs;
    progress = cancel_progress job_id (lookup job_id s.progress) s.progress;
  };
  answer = true;
  signalled = true;
}

abbrev pub cancel_guard : JobServiceState → ℕ → Option JobProgress → CancelOutcome
cancel_guard s job_id none = cancel_entry s job_id (lookup job_id s.jobs)
cancel_guard s job_id (some p) =
    if is_terminal p.state
    then record { state = s; answer = true; signalled = false }
    else (if not p.can_cancel
        then record { state = s; answer = false; signalled = false }
        else cancel_entry s job_id (lookup job_id s.jobs))

unfoldable pub cancel_job : JobServiceState → ℕ → CancelOutcome
unfolding lookup insert remove Progress.cancelled
cancel_job s job_id = cancel_guard s job_id (lookup job_id s.progress)

-- `is_none_or(|e| e.wallet_id == wallet_id)`.
abbrev pub none_or_of_wallet : ℕ → Option JobEntry → Bool
none_or_of_wallet wallet_id none = true
none_or_of_wallet wallet_id (some e) = e.wallet_id == wallet_id

abbrev pub finished_ids : Map JobEntry → ℕ → Map JobProgress → List ℕ
finished_ids jobs wallet_id [] = []
finished_ids jobs wallet_id ((job_id, p) ∷ rest) =
    let later = finished_ids jobs wallet_id rest in
    if is_terminal p.state && none_or_of_wallet wallet_id (lookup job_id jobs)
    then job_id ∷ later
    else later

abbrev pub remove_all : JobServiceState → List ℕ → JobServiceState
remove_all s [] = s
remove_all s (job_id ∷ rest) =
    remove_all (record s { jobs = remove job_id s.jobs; progress = remove job_id s.progress }) rest

unfoldable pub clear_finished_jobs : JobServiceState → ℕ → JobServiceState
unfolding lookup remove
clear_finished_jobs s wallet_id = remove_all s (finished_ids s.jobs wallet_id s.progress)

-- The two critical sections of `start_send_job` and `start_shield_job`; the task is spawned between.
unfoldable pub init_progress : JobServiceState → ℕ → JobType → JobServiceState
unfolding insert Progress.queued
init_progress s job_id job_type = record s {
  progress = insert job_id (Progress.queued job_id job_type) s.progress;
}

unfoldable pub store_entry : JobServiceState → ℕ → ℕ → JobServiceState
unfolding insert
store_entry s job_id wallet_id = record s {
  jobs = insert job_id (record { wallet_id = wallet_id }) s.jobs;
}

-- The closure `emit_progress` of a task.
unfoldable pub emit_progress : JobServiceState → ℕ → JobProgress → JobServiceState
unfolding insert remove
emit_progress s job_id p = record {
  jobs = if is_terminal p.state then remove job_id s.jobs else s.jobs;
  progress = insert job_id p s.progress;
}

-- The update from inside `spawn_blocking`, which looks neither at the entry nor at the signal.
unfoldable pub blocking_update : JobServiceState → ℕ → JobProgress → JobServiceState
unfolding insert
blocking_update s job_id p = record s { progress = insert job_id p s.progress }
