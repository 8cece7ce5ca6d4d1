-- ===== src/Sync.antt =====
-- The synchronisation in crates/zbag-engine/src/sync_service.rs: how large its batches are, when a
-- wallet's sync may start, how often balances are told, the task of a sync with the channel that its
-- batches come through, and the progress that it tells. Heights and sizes are `u32`, a duration of
-- Batch is in nanoseconds.
pub mod Batch
pub mod Starts
pub mod Throttle
pub mod Task
pub mod Progress
pub mod Pipeline
