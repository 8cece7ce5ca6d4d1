-- ===== src/RetryQueue/Scan.antt =====
-- `scan_queued_broadcasts` and `list_due_retry_txids` of crates/zbag-engine/src/tx_service.rs, for
-- one wallet. The directory is the list of its metadata files `<txid>.json`, in the order in which it
-- is read, each with what is read from it and whether `<txid>.bin` exists; a name without a stem or
-- of another kind is skipped and is not in the list. A transaction id is a number in the order of
-- the texts, `now` the clock in nanoseconds since the epoch. Failures to read the directory itself
-- and to delete a file, of which the latter are only logged, are left out.
pub mod Kept
pub mod Due
use zbag_app_tauri.Base.{
  ℕ, ◌-◌, ◌*◌, ◌/◌, Bool, true, false, not, ◌&&◌, List, [], ◌∷◌, ◌++◌, Option, none, some, Text,
  ltb, leb, ◌==◌, if◌then◌else◌,
}
use zbag_app_tauri.Base.Int.{ℤ, pos, i64_max, lebℤ, nonneg}
use zbag_app_tauri.Base.Maps.{Map, insert}
use zbag_app_tauri.Base.Results.{Result, ok, err, ErrorCode, internal_error, ◌>>=◌}
use zbag_app_tauri.RetryQueue.{QueuedBroadcastMeta, normalize_queued_broadcast_meta}

pub data MetaFile : Type 0 where
  unreadable unparseable : MetaFile
  parsed : QueuedBroadcastMeta → MetaFile

pub record QueueFile : Type 0 where
  pub txid : ℕ
  pub meta : MetaFile
  pub has_bin : Bool

-- Seven days, in nanoseconds.
abbrev pub queued_broadcast_retention : ℕ
queued_broadcast_retention = 604800 * 1000000000

unfoldable pub to_unix_ms : ℕ → Result ℤ
to_unix_ms now =
    if ltb i64_max (now / 1000000) then err internal_error else ok (pos (now / 1000000))

-- `duration_since` of a later time is an error, and stands for no time.
abbrev pub is_retained : ℕ → QueuedBroadcastMeta → Bool
is_retained now meta =
    not (ltb queued_broadcast_retention (now - nonneg meta.created_at_ms * 1000000))

-- The entries in memory, and the files that are left.
pub record Scanned : Type 0 where
  pub entries : Map QueuedBroadcastMeta
  pub files : List QueueFile

abbrev pub keep_file : QueueFile → Scanned → Scanned
keep_file f s = record s { files = s.files ++ f ∷ [] }

module _ (to_lowercase : Text → Text) where
  abbrev pub scan_parsed : ℕ → ℤ → QueueFile → QueuedBroadcastMeta → Scanned → Scanned
  scan_parsed now now_ms f meta s =
      if not f.has_bin
      then s
      else (if is_retained now meta
          then keep_file f (record s { entries = insert f.txid meta s.entries })
          else s)

  abbrev pub scan_file : ℕ → ℤ → QueueFile → MetaFile → Scanned → Scanned
  scan_file now now_ms f unreadable s = keep_file f s
  scan_file now now_ms f unparseable s = s
  scan_file now now_ms f (parsed m) s =
      scan_parsed now now_ms f (normalize_queued_broadcast_meta to_lowercase m now_ms) s

  unfoldable pub scan_files : ℕ → ℤ → List QueueFile → Scanned → Scanned
  unfolding insert
  scan_files now now_ms [] s = s
  scan_files now now_ms (f ∷ rest) s = scan_files now now_ms rest (scan_file now now_ms f f.meta s)

  -- `none` is a queue that has no directory yet.
  unfoldable pub scan_queued_broadcasts : ℕ → Option (List QueueFile) → Result Scanned
  unfolding scan_files to_unix_ms
  scan_queued_broadcasts now none = ok (record { entries = []; files = [] })
  scan_queued_broadcasts now (some files) = do
    now_ms ← to_unix_ms now
    ok (scan_files now now_ms files (record { entries = []; files = [] }))

abbrev pub or_else : Option ℤ → ℤ → ℤ
or_else none d = d
or_else (some t) d = t

abbrev pub is_due : ℤ → QueuedBroadcastMeta → Bool
is_due now_ms meta = meta.retryable && lebℤ (or_else meta.next_attempt_at_ms now_ms) now_ms

-- By time, then by transaction id.
abbrev pub due_order : ℤ × ℕ → ℤ × ℕ → Bool
due_order (s, i) (t, j) = if lebℤ s t then (if lebℤ t s then leb i j else true) else false

abbrev pub sort_in : ℤ × ℕ → List (ℤ × ℕ) → List (ℤ × ℕ)
sort_in x [] = x ∷ []
sort_in x (y ∷ ys) = let later = sort_in x ys in if due_order x y then x ∷ y ∷ ys else y ∷ later

-- The retries that are due, sorted: no two are equal, so that the order says what the result is.
unfoldable pub due_retries : ℤ → Map QueuedBroadcastMeta → List (ℤ × ℕ)
due_retries now_ms [] = []
due_retries now_ms ((txid, meta) ∷ rest) =
    let later = due_retries now_ms rest in
    if is_due now_ms meta
    then sort_in (or_else meta.next_attempt_at_ms now_ms, txid) later
    else later

abbrev pub txids : List (ℤ × ℕ) → List ℕ
txids [] = []
txids ((t, txid) ∷ rest) = txid ∷ txids rest

-- The clock is read once more after the scan.
unfoldable pub list_due_retry_txids :
    (Text → Text) → ℕ → ℕ → Option (List QueueFile) → Result (List ℕ)
unfolding scan_queued_broadcasts due_retries
list_due_retry_txids to_lowercase scanned_at now files = do
  s ← scan_queued_broadcasts to_lowercase scanned_at files
  now_ms ← to_unix_ms now
  ok (txids (due_retries now_ms s.entries))
