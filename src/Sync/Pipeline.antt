-- ===== src/Sync/Pipeline.antt =====
-- The download task of a range and the channel between it and the scan, in `start_sync` of
-- crates/zbag-engine/src/sync_service.rs, as a relation of steps: the two take turns in any order.
pub mod Joined
pub mod Order
use zbag_app_tauri.Base.{ℕ, ◌+◌, ◌≤◌, ◌<◌, min, ◌≡◌, ◌≢◌, List, [], ◌∷◌, ◌++◌, length}

-- `DownloadResult`, with the blocks of a batch as their bounds.
pub data Message : Type 0 where
  batch : ℕ → ℕ → Message
  range_complete download_error download_cancelled : Message

pub data Sender : Type 0 where
  loading ended : Sender
  sending : Message → Sender

-- The scan receives; or it has left its loop and waits for the download task, with its end of the
-- channel still there; or that end was dropped with the task, which a stop of the sync aborts.
pub data Receiver : Type 0 where
  receiving left dropped : Receiver

pub record Pipe : Type 0 where
  pub range_end : ℕ
  pub current : ℕ
  pub sender : Sender
  pub receiver : Receiver
  pub queue : List Message
  pub delivered : List Message

abbrev pub lookahead_batches : ℕ
lookahead_batches = 4

-- A batch is the last message only of the next round.
abbrev pub after_message : Message → Sender
after_message (batch a b) = loading
after_message range_complete = ended
after_message download_error = ended
after_message download_cancelled = ended

abbrev pub moved_to : ℕ → Message → ℕ
moved_to current (batch a b) = b
moved_to current range_complete = current
moved_to current download_error = current
moved_to current download_cancelled = current

abbrev pub start_pipe : ℕ → ℕ → Pipe
start_pipe range_start range_end = record {
  range_end = range_end;
  current = range_start;
  sender = loading;
  receiver = receiving;
  queue = [];
  delivered = [];
}

-- `size` is the answer of the batch controller.
pub data Step (p : Pipe) : Pipe → Type 0 where
  sees_cancel :
      p.sender ≡ loading
      → p.current < p.range_end
      → Step p (record p { sender = sending download_cancelled })
  loads :
      (size : ℕ)
      → 0 < size
      → p.sender ≡ loading
      → p.current < p.range_end
      → Step p
          (record p { sender = sending (batch p.current (min (p.current + size) p.range_end)) })
  fails :
      p.sender ≡ loading
      → p.current < p.range_end
      → Step p (record p { sender = sending download_error })
  completes :
      p.sender ≡ loading
      → p.range_end ≤ p.current
      → Step p (record p { sender = sending range_complete })
  sends :
      (m : Message)
      → p.sender ≡ sending m
      → length p.queue < lookahead_batches
      → p.receiver ≢ dropped
      → Step p (record p {
        sender = after_message m;
        current = moved_to p.current m;
        queue = p.queue ++ (m ∷ []);
      })
  gives_up :
      (m : Message)
      → p.sender ≡ sending m
      → p.receiver ≡ dropped
      → Step p (record p { sender = ended })
  receives :
      (m : Message) (rest : List Message)
      → p.receiver ≡ receiving
      → p.queue ≡ m ∷ rest
      → Step p (record p { queue = rest; delivered = p.delivered ++ (m ∷ []) })
  leaves : p.receiver ≡ receiving → Step p (record p { receiver = left })
  aborts : p.receiver ≡ left → Step p (record p { receiver = dropped; queue = [] })
  drops : p.receiver ≡ receiving → Step p (record p { receiver = dropped; queue = [] })

pub data Reach (p : Pipe) : Pipe → Type 0 where
  here : Reach p p
  next : {q r : Pipe} → Reach p q → Step q r → Reach p r
