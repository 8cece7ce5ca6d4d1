-- ===== src/Sync/Task/Caught.antt =====
-- Caught up is shown once for each pass that found nothing left to scan.
use zbag_app_tauri.Base.{
  ℕ, ◌+◌, ◌-◌, max, ◌≡◌, refl, Bool, true, false, List, [], ◌∷◌, Option, none, some, Text, by_test,
  ◌||◌, not, if◌then◌else◌, ◌==◌, ◌∙◌, ap,
}
use zbag_app_tauri.Sync.Starts.{SyncPhase, catching_up, downloading}
use zbag_app_tauri.Sync.Throttle.{forced_milestone}
use zbag_app_tauri.Sync.Task.{
  ScanRange, Totals, Effect, Place, Task, poll_interval, progress_at, does, TopAnswer, unreachable,
  not_updated, with_update, with_latest, step_top, error_pass, enhances, enhance_batches,
  Enhancement, complete_pass, RangesAnswer, with_ranges, step_ranges, go_on, shows, balances,
  new_iteration, sleeps, at_top, joining, at_ranges, at_range, at_batches, finished, RangeAnswer,
  with_download, with_range, step_range, wallet_tip_of,
}
use zbag_app_tauri.Sync.Task.Batches.{
  Download, ScanOutcome, ScanBatchResult, BatchAnswer, after_join, range_over, range_failed,
  with_outcome, with_scan, with_batch, received, step_batches, batch, range_complete,
  download_error, download_cancelled, success, reorg_detected, scan_error,
}
use zbag_app_tauri.Sync.Task.Machine.{
  Answer, step_at, step, Setup, prepare, Run, cancelled_waiting, cancelled_preparing, no_cache_dir,
  no_block_db, no_wallet_db, no_worker, prepared, here, next,
}

abbrev pub counting : SyncPhase → ℕ → ℕ
counting catching_up n = n + 1
counting phase n = n

-- How often caught up was shown.
abbrev pub caught_ups : List Effect → ℕ
caught_ups [] = 0
caught_ups (shows p ∷ effects) = counting p.phase (caught_ups effects)
caught_ups (balances t ∷ effects) = caught_ups effects
caught_ups (new_iteration ∷ effects) = caught_ups effects
caught_ups (sleeps s ∷ effects) = caught_ups effects

abbrev pub one_more : Option (Option (List ScanRange)) → ℕ → ℕ
one_more (some (some [])) n = n + 1
one_more suggested n = n

-- One more pass is complete if the database suggests no range to scan.
abbrev pub completes : (place : Place) → Answer place → ℕ → ℕ
completes (at_ranges tip) answer n = if answer.cancelled then n else one_more answer.suggested n
completes place answer n = n

-- How many passes the answers of the run complete.
abbrev pub completed : {s t : Task} → Run s t → ℕ
completed here = 0
completed (next {u} run answer) = completes u.place answer (completed run)

-- Caught up was shown `n` times.
abbrev Shown : ℕ → Task → Type 0
Shown n t = caught_ups t.effects ≡ n

abbrev Same : Task → Task → Type 0
Same t after = Shown (caught_ups t.effects) after

error_pass-Same :
    (tip : ℕ) (message : Text) (t : Task) (totals : Option Totals)
    → Same t (error_pass tip message t totals)
error_pass-Same tip message t none = refl
error_pass-Same tip message t (some totals) = refl

not_updated-Same : (tip : ℕ) (t : Task) (totals : Option Totals) → Same t (not_updated tip t totals)
not_updated-Same tip t none = refl
not_updated-Same tip t (some totals) = refl

with_update-Same :
    (tip : ℕ) (t : Task) (totals : Option Totals) (updated : Option Bool)
    → Same t (with_update tip t totals updated)
with_update-Same tip t totals none = refl
with_update-Same tip t totals (some false) = not_updated-Same tip t totals
with_update-Same tip t totals (some true) = refl

unreachable-Same : (t : Task) (totals : Option Totals) → Same t (unreachable t totals)
unreachable-Same t none = refl
unreachable-Same t (some totals) = refl

with_latest-Same :
    (t : Task) (answer : TopAnswer) (latest : Option ℕ) → Same t (with_latest t answer latest)
with_latest-Same t answer none = unreachable-Same t answer.totals
with_latest-Same t answer (some tip) =
    with_update-Same tip (record t { poll_backoff = poll_interval }) answer.totals answer.updated

step_top-Same : (t : Task) (answer : TopAnswer) → Same t (step_top t answer)
unfolding step_top
step_top-Same t answer =
    by_test (Same t) answer.cancelled _ _ (λ c. refl)
      (λ c. with_latest-Same (does new_iteration t) answer answer.latest)

enhance_batches-caught :
    (tip total : ℕ) (counts : List ℕ) (effects : List Effect)
    → caught_ups (enhance_batches tip total counts effects) ≡ caught_ups effects
unfolding enhance_batches
enhance_batches-caught tip total [] effects = refl
enhance_batches-caught tip total (n ∷ counts) effects = enhance_batches-caught tip total counts _

complete_pass-Shown :
    (tip : ℕ) (t : Task) (e : Enhancement)
    → Shown (caught_ups t.effects + 1) (complete_pass tip e t)
unfolding complete_pass
complete_pass-Shown tip t e =
    let now = enhances tip e.total 0 ∷ balances forced_milestone ∷ t.effects in
    ap (λ (n : ℕ). n + 1)
      (by_test (λ (effects : List Effect). caught_ups effects ≡ caught_ups t.effects) (e.total == 0)
        now (enhance_batches tip e.total e.counts now) (λ z. refl)
        (λ z. enhance_batches-caught tip e.total e.counts now))

with_ranges-Shown :
    (tip : ℕ) (t : Task) (answer : RangesAnswer) (suggested : Option (Option (List ScanRange)))
    → Shown (one_more suggested (caught_ups t.effects)) (with_ranges tip t answer suggested)
with_ranges-Shown tip t answer none = refl
with_ranges-Shown tip t answer (some none) = error_pass-Same tip _ t answer.totals
with_ranges-Shown tip t answer (some (some [])) = complete_pass-Shown tip t answer.enhancement
with_ranges-Shown tip t answer (some (some (r ∷ rs))) = refl

cancelled-or :
    (c : Bool) (n k : ℕ) (x y : Task)
    → Shown k x
    → Shown n y
    → Shown (if c then k else n) (if c then x else y)
cancelled-or true n k x y h g = h
cancelled-or false n k x y h g = g

step_ranges-Shown :
    (tip : ℕ) (t : Task) (answer : RangesAnswer)
    → Shown (completes (at_ranges tip) answer (caught_ups t.effects)) (step_ranges tip t answer)
unfolding step_ranges
step_ranges-Shown tip t answer =
    cancelled-or answer.cancelled (one_more answer.suggested (caught_ups t.effects))
      (caught_ups t.effects) _ _ refl (with_ranges-Shown tip t answer answer.suggested)

go_on-Same : (tip : ℕ) (rest : List ScanRange) (t : Task) → Same t (go_on tip rest t)
go_on-Same tip [] t = refl
go_on-Same tip (r ∷ rs) t = refl

module _ (tip : ℕ) (range : ScanRange) (rest : List ScanRange) (t : Task)
    (answer : RangeAnswer) where
  with_download-Same :
      (wallet_tip : ℕ) (totals : Option Totals)
      → Same t (with_download tip wallet_tip range rest t answer totals)
  with_download-Same wallet_tip none = refl
  with_download-Same wallet_tip (some totals) =
      let frontier = max totals.fully_scanned (range.start - 1) in
      let p = progress_at downloading frontier wallet_tip totals.progress_percent in
      by_test (Same t) answer.chain_state _ _ (λ c. refl)
        (λ c. error_pass-Same tip _ (does (shows p) t) answer.totals)

  with_range-Same : (totals : Option Totals) → Same t (with_range tip range rest t answer totals)
  with_range-Same none = refl
  with_range-Same (some totals) = with_download-Same (wallet_tip_of range totals) answer.after

  step_range-Same : Same t (step_range tip range rest t answer)
  unfolding step_range
  step_range-Same =
      by_test (Same t) answer.cancelled _ _ (λ c. refl)
        (λ c.
          by_test (Same t) range.ignored _ _ (λ i. go_on-Same tip rest t)
            (λ i. with_range-Same answer.before))

module _ (tip wallet_tip : ℕ) (rest : List ScanRange) (t : Task) (answer : BatchAnswer) where
  after_join-Same : (after : Task) → Same t after → Same t (after_join t answer after)
  after_join-Same after h = by_test (Same t) answer.joined _ _ (λ j. h) (λ j. refl)

  range_over-Same : (totals : Option Totals) → Same t (range_over tip wallet_tip rest t totals)
  range_over-Same none = refl
  range_over-Same (some totals) = go_on-Same tip rest _

  over-Same : Same t (after_join t answer (range_over tip wallet_tip rest t answer.totals))
  over-Same = after_join-Same _ (range_over-Same answer.totals)

  range_failed-Same : (message : Text) → Same t (range_failed tip message t answer)
  range_failed-Same message = after_join-Same _ (error_pass-Same tip message t answer.totals)

  with_outcome-Same :
      (scan : ScanBatchResult) (outcome : ScanOutcome)
      → Same t (with_outcome tip wallet_tip rest t answer scan outcome)
  with_outcome-Same scan success = refl
  with_outcome-Same scan (reorg_detected height) = over-Same
  with_outcome-Same scan (scan_error message) = range_failed-Same _

  with_scan-Same :
      (scanned : Option ScanBatchResult) → Same t (with_scan tip wallet_tip rest t answer scanned)
  with_scan-Same none = refl
  with_scan-Same (some scan) = with_outcome-Same scan scan.scan_outcome

  with_batch-Same : (first : Bool) → Same t (with_batch tip wallet_tip first rest t answer)
  with_batch-Same first =
      by_test (Same t) (not answer.cached) _ _ (λ c. refl)
        (λ c.
          by_test (Same t) (first || answer.chain_state) _ _ (λ s. with_scan-Same answer.scanned)
            (λ s. range_failed-Same _))

  received-Same :
      (first : Bool) (download : Option Download)
      → Same t (received tip wallet_tip first rest t answer download)
  received-Same first none = over-Same
  received-Same first (some batch) =
      by_test (Same t) answer.cancelled _ _ (λ c. after_join-Same _ refl)
        (λ c. with_batch-Same first)
  received-Same first (some range_complete) = over-Same
  received-Same first (some download_error) = range_failed-Same _
  received-Same first (some download_cancelled) = after_join-Same _ refl

step_at-Shown :
    (t : Task) (place : Place) (answer : Answer place)
    → Shown (completes place answer (caught_ups t.effects)) (step_at t place answer)
unfolding step_batches
step_at-Shown t at_top answer = step_top-Same t answer
step_at-Shown t joining answer = elim answer [ ]
step_at-Shown t (finished c) answer = elim answer [ ]
step_at-Shown t (at_ranges tip) answer = step_ranges-Shown tip t answer
step_at-Shown t (at_range tip range rest) answer = step_range-Same tip range rest t answer
step_at-Shown t (at_batches tip wallet_tip first rest) answer =
    received-Same tip wallet_tip rest t answer first answer.received

prepare-caught : (setup : Setup) → caught_ups (prepare setup).effects ≡ 0
unfolding prepare
prepare-caught cancelled_waiting = refl
prepare-caught no_worker = refl
prepare-caught prepared = refl
prepare-caught cancelled_preparing = refl
prepare-caught no_cache_dir = refl
prepare-caught no_block_db = refl
prepare-caught no_wallet_db = refl

-- Caught up was shown as often as an answer of the run completed a pass.
pub run-caught :
    (setup : Setup) (t : Task) (run : Run (prepare setup) t) → caught_ups t.effects ≡ completed run
unfolding step
run-caught setup t here = prepare-caught setup
run-caught setup t (next {u} run answer) =
    let before = run-caught setup u run in
    let now = step_at-Shown u u.place answer in
    now ∙ ap (λ (n : ℕ). completes u.place answer n) before
