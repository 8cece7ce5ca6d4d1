-- ===== src/Jobs/Types.antt =====
-- The enumerations and the progress record of crates/zbag-core/src/domain/job.rs.
use zbag_app_tauri.Base.{ℕ, Bool, true, false, Option, Text}

pub data JobType : Type 0 where
  send shield : JobType

pub data JobState : Type 0 where
  queued running completed failed cancelled : JobState

pub data JobPhase : Type 0 where
  preparing proving broadcasting done : JobPhase

pub record JobProgress : Type 0 where
  pub job_id : ℕ
  pub job_type : JobType
  pub state : JobState
  pub phase : JobPhase
  pub progress_percent : Option ℕ
  pub txid : Option ℕ
  pub error : Option Text
  pub can_cancel : Bool

-- `matches!(state, Completed | Failed | Cancelled)`.
abbrev pub is_terminal : JobState → Bool
is_terminal queued = false
is_terminal running = false
is_terminal completed = true
is_terminal failed = true
is_terminal cancelled = true
