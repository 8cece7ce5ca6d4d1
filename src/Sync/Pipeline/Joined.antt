-- ===== src/Sync/Pipeline/Joined.antt =====
-- The scan that left its loop waits for the download task.
use zbag_app_tauri.Base.{
  ℕ, ◌≡◌, ◌≢◌, refl, sym, ap, ◌∙◌, [], ◌∷◌, length, arith, min, ◌+◌, ◌*◌, ◌<◌, ◌++◌,
}
use zbag_app_tauri.Sync.Pipeline.{
  batch, loading, ended, left, dropped, Pipe, start_pipe, lookahead_batches, Step, sees_cancel,
  loads, fails, completes, sends, gives_up, receives, leaves, aborts, drops, Reach, here, next,
}

-- The scan has left, the channel is full, and the download task is not done.
pub record IsStuck (p : Pipe) : Type 0 where
  pub gone : p.receiver ≡ left
  pub full : length p.queue ≡ lookahead_batches
  pub unfinished : p.sender ≢ ended

-- A dropped end stays so.
Step-dropped : {p q : Pipe} → Step p q → p.receiver ≡ dropped → q.receiver ≡ dropped
Step-dropped (sees_cancel l c) d = d
Step-dropped (loads size z l c) d = d
Step-dropped (fails l c) d = d
Step-dropped (completes l c) d = d
Step-dropped (sends m s c n) d = d
Step-dropped (gives_up m s n) d = d
Step-dropped (receives m rest r q) d = d
Step-dropped (leaves r) d = let e = sym r ∙ d in cc
Step-dropped (aborts r) d = refl
Step-dropped (drops r) d = refl

Step-IsStuck : {p q : Pipe} → Step p q → q.receiver ≢ dropped → IsStuck p → IsStuck q
Step-IsStuck (sees_cancel l c) k h = record { gone = h.gone; full = h.full; unfinished = λ e. cc }
Step-IsStuck (loads size z l c) k h = record { gone = h.gone; full = h.full; unfinished = λ e. cc }
Step-IsStuck (fails l c) k h = record { gone = h.gone; full = h.full; unfinished = λ e. cc }
Step-IsStuck (completes l c) k h = record { gone = h.gone; full = h.full; unfinished = λ e. cc }
Step-IsStuck (sends m s c d) k h = let full = h.full in absurd (omega arith)
Step-IsStuck (gives_up m s d) k h = let e = sym h.gone ∙ d in cc
Step-IsStuck (receives m rest r q) k h = let e = sym h.gone ∙ r in cc
Step-IsStuck (leaves r) k h = let e = sym h.gone ∙ r in cc
Step-IsStuck (drops r) k h = let e = sym h.gone ∙ r in cc
Step-IsStuck (aborts r) k h = absurd (k refl)

-- Once the scan has left its loop while the channel is full and the download task is not done, the
-- download task is not done as long as the scan waits for it.
pub left_full : (p q : Pipe) → IsStuck p → Reach p q → q.receiver ≢ dropped → IsStuck q
left_full p q h here k = h
left_full p q h (next r s) k = Step-IsStuck s k (left_full p _ h r (λ d. k (Step-dropped s d)))

pub trans : {p q r : Pipe} → Reach p q → Reach q r → Reach p r
trans h here = h
trans h (next k s) = next (trans h k) s

-- The next batch of `n` blocks, downloaded and sent.
abbrev pub sent : ℕ → Pipe → Pipe
sent n p = record p {
  sender = loading;
  current = min (p.current + n) p.range_end;
  queue = p.queue ++ (batch p.current (min (p.current + n) p.range_end) ∷ []);
}

module _ (n : ℕ) (z : 0 < n) where
  send_one :
      (p : Pipe)
      → p.sender ≡ loading
      → p.current < p.range_end
      → length p.queue < lookahead_batches
      → p.receiver ≢ dropped
      → Reach p (sent n p)
  send_one p l c q d = next (next here (loads n z l c)) (sends (batch p.current _) refl q d)

module _ (a range_end n : ℕ) (z : 0 < n) (far : a + 5 * n < range_end) where
  abbrev first : Pipe
  first = sent n (start_pipe a range_end)

  abbrev taken : Pipe
  taken = record first { queue = []; delivered = batch a (min (a + n) range_end) ∷ [] }

  abbrev filled : Pipe
  filled = sent n (sent n (sent n (sent n taken)))

  fill : Reach (start_pipe a range_end) filled
  fill =
      let r1 = send_one n z (start_pipe a range_end) refl (omega arith) (omega arith) (λ e. cc) in
      let r2 = next r1 (receives (batch a _) [] refl refl) in
      let r3 = trans r2 (send_one n z taken refl (omega arith) (omega arith) (λ e. cc)) in
      let r4 = trans r3 (send_one n z (sent n taken) refl (omega arith) (omega arith) (λ e. cc)) in
      let r5 =
        trans r4
          (send_one n z (sent n (sent n taken)) refl (omega arith) (omega arith) (λ e. cc)) in
      trans r5
        (send_one n z (sent n (sent n (sent n taken))) refl (omega arith) (omega arith) (λ e. cc))

  -- In a range longer than five batches of `n` blocks, a scan that leaves its loop at the first batch,
  -- as it does after an error or a reorganisation of the chain, may come to wait for a download task
  -- that is not done, whatever happens then, until a stop of the sync aborts the waiting task.
  pub scan_left-never_ended :
      (p : Pipe) × Reach (start_pipe a range_end) p
      × (p.receiver ≡ left)
      × (p.delivered ≡ batch a (a + n) ∷ [])
      × ((q : Pipe) → Reach p q → q.receiver ≢ dropped → q.sender ≢ ended)
  scan_left-never_ended =
      let stuck : IsStuck (record filled { receiver = left }) = record {
        gone = refl;
        full = refl;
        unfinished = λ e. cc;
      } in
      (
        record filled { receiver = left },
        next fill (leaves refl),
        refl,
        ap (λ (c : ℕ). batch a c ∷ []) (omega arith),
        λ q r k. (left_full _ q stuck r k).unfinished,
      )
