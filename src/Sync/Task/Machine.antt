-- ===== src/Sync/Task/Machine.antt =====
-- The task of crates/zbag-engine/src/sync_service.rs as a machine: its steps, its start, its runs.
use zbag_app_tauri.Base.{[], none, text}
use zbag_app_tauri.Sync.Starts.{preparing, empty_progress}
use zbag_app_tauri.Sync.Throttle.{forced_milestone}
use zbag_app_tauri.Sync.Task.{
  Place, Task, poll_interval, at, does, error_progress, stopped, TopAnswer, step_top, RangesAnswer,
  step_ranges, RangeAnswer, step_range, shows, balances, of_job, of_start, at_top, joining,
  at_ranges, at_range, at_batches, finished,
}
use zbag_app_tauri.Sync.Task.Batches.{BatchAnswer, step_batches}

-- What the task looks at in a place; one that waits or has ended looks at nothing.
abbrev pub Answer : Place → Type 0
Answer at_top = TopAnswer
Answer joining = ⊥
Answer (at_ranges tip) = RangesAnswer
Answer (at_range tip range rest) = RangeAnswer
Answer (at_batches tip wallet_tip first rest) = BatchAnswer
Answer (finished c) = ⊥

abbrev pub step_at : Task → (place : Place) → Answer place → Task
step_at t at_top answer = step_top t answer
step_at t joining answer = elim answer [ ]
step_at t (finished c) answer = elim answer [ ]
step_at t (at_ranges tip) answer = step_ranges tip t answer
step_at t (at_range tip range rest) answer = step_range tip range rest t answer
step_at t (at_batches tip wallet_tip first rest) answer =
    step_batches tip wallet_tip first rest t answer

unfoldable pub step : (t : Task) → Answer t.place → Task
unfolding step_top step_ranges step_range step_batches
step t answer = step_at t t.place answer

-- Before the first round: whether the task was cancelled while it waited for Tor or after that, and
-- whether the directory of cached blocks, its database, the wallet's database and the worker of the
-- tree sizes were had.
pub data Setup : Type 0 where
  cancelled_waiting cancelled_preparing : Setup
  no_cache_dir no_block_db no_wallet_db no_worker : Setup
  prepared : Setup

abbrev pub started : Task
started = record { place = at_top; poll_backoff = poll_interval; effects = [] }

unfoldable pub prepare : Setup → Task
prepare cancelled_waiting = at (finished of_job) (does (balances forced_milestone) started)
prepare cancelled_preparing = stopped of_start (does (shows (empty_progress preparing)) started)
prepare no_cache_dir = stopped of_start (does (shows (empty_progress preparing)) started)
prepare no_block_db = stopped of_start (does (shows (empty_progress preparing)) started)
prepare no_wallet_db = stopped of_start (does (shows (empty_progress preparing)) started)
prepare no_worker = at (finished of_start) (
    does (balances forced_milestone) (
      does (shows (error_progress 0 0 0 none (text "Sync worker failed")))
        (does (shows (empty_progress preparing)) started)))
prepare prepared = does (shows (empty_progress preparing)) started

-- A run of the task, one answer after the other.
pub data Run (t : Task) : Task → Type 0 where
  here : Run t t
  next : {u : Task} → Run t u → (answer : Answer u.place) → Run t (step u answer)
