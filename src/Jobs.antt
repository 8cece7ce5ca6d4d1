-- ===== src/Jobs.antt =====
-- Background jobs: crates/zbag-core/src/domain/job.rs and the `JobService` of
-- crates/zbag-engine/src/job_service.rs. A job id (a `Uuid` in text) and a wallet id are numbers.
-- What the mutex guards is the record `JobServiceState`; each function is one critical section.
pub mod Types
pub mod Progress
pub mod Service
pub mod Cancel
pub mod Clear
pub mod Send
pub mod SendRun
pub mod SendSafety
