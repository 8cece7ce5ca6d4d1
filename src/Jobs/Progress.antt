-- ===== src/Jobs/Progress.antt =====
-- The constructors of `JobProgress` (crates/zbag-core/src/domain/job.rs). A transaction id is a
-- number.
use zbag_app_tauri.Base.{ℕ, true, false, Option, none, some, Text}
use zbag_app_tauri.Jobs.Types.{JobType, JobState, JobPhase, JobProgress}

unfoldable pub queued : ℕ → JobType → JobProgress
queued job_id job_type = record {
  job_id = job_id;
  job_type = job_type;
  state = JobState.queued;
  phase = JobPhase.preparing;
  progress_percent = some 0;
  txid = none;
  error = none;
  can_cancel = true;
}

unfoldable pub proving : ℕ → JobType → Option ℕ → JobProgress
proving job_id job_type progress_percent = record {
  job_id = job_id;
  job_type = job_type;
  state = JobState.running;
  phase = JobPhase.proving;
  progress_percent = progress_percent;
  txid = none;
  error = none;
  can_cancel = true;
}

unfoldable pub broadcasting : ℕ → JobType → ℕ → JobProgress
broadcasting job_id job_type txid = record {
  job_id = job_id;
  job_type = job_type;
  state = JobState.running;
  phase = JobPhase.broadcasting;
  progress_percent = some 90;
  txid = some txid;
  error = none;
  can_cancel = false;
}

unfoldable pub completed : ℕ → JobType → ℕ → JobProgress
completed job_id job_type txid = record {
  job_id = job_id;
  job_type = job_type;
  state = JobState.completed;
  phase = JobPhase.done;
  progress_percent = some 100;
  txid = some txid;
  error = none;
  can_cancel = false;
}

unfoldable pub failed : ℕ → JobType → Text → Option ℕ → JobProgress
failed job_id job_type error txid = record {
  job_id = job_id;
  job_type = job_type;
  state = JobState.failed;
  phase = JobPhase.done;
  progress_percent = none;
  txid = txid;
  error = some error;
  can_cancel = false;
}

unfoldable pub cancelled : ℕ → JobType → JobProgress
cancelled job_id job_type = record {
  job_id = job_id;
  job_type = job_type;
  state = JobState.cancelled;
  phase = JobPhase.done;
  progress_percent = none;
  txid = none;
  error = none;
  can_cancel = false;
}
