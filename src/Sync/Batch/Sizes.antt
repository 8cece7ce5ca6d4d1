-- ===== src/Sync/Batch/Sizes.antt =====
-- The sizes that the controller can reach.
use zbag_app_tauri.Base.{ℕ, ◌≤◌, ◌<◌, ◌≡◌, ◌⊎◌, List, [], ◌∷◌, arith}
use zbag_app_tauri.Sync.Batch.{ScanBatchActivity, AdaptiveBatchController, new, record_scan_result}

-- A controller of a run over the range from `range_start`: its limits are those of a sandblasting range,
-- from 1,710,000 to 2,050,000, or of any other one, and its size lies within them.
pub record IsRunning (range_start : ℕ) (c : AdaptiveBatchController) : Type 0 where
  pub sandblasting :
      1710000 ≤ range_start → range_start ≤ 2050000 → (c.min_size ≡ 100) × (c.max_size ≡ 100)
  pub other :
      (range_start < 1710000) ⊎ (2050000 < range_start) → (c.min_size ≡ 125) × (c.max_size ≡ 2000)
  pub lower : c.min_size ≤ c.current_size
  pub upper : c.current_size ≤ c.max_size

new-IsRunning : (range_start : ℕ) → IsRunning range_start (new range_start)
unfolding new
new-IsRunning range_start = record {
  sandblasting = λ l h. ground (arith, l, h);
  other = λ o. ground (arith, o);
  lower = ground arith;
  upper = ground arith;
}

record_scan_result-IsRunning :
    (range_start : ℕ) (c : AdaptiveBatchController) (start elapsed : ℕ) (a : ScanBatchActivity)
    → IsRunning range_start c
    → IsRunning range_start (record_scan_result c start elapsed a).0
unfolding record_scan_result
record_scan_result-IsRunning range_start c start elapsed a v = record {
  sandblasting = λ l h. let same = v.sandblasting l h in ground (arith, same);
  other = λ o. let same = v.other o in ground (arith, same);
  lower = ground (arith, v);
  upper = ground (arith, v);
}

-- The results of the batches: where each began, how long it took, and what it touched.
abbrev pub after_results :
    AdaptiveBatchController → List (ℕ × ℕ × ScanBatchActivity) → AdaptiveBatchController
unfolding record_scan_result
after_results c [] = c
after_results c ((start, elapsed, a) ∷ results) =
    after_results (record_scan_result c start elapsed a).0 results

results-IsRunning :
    (range_start : ℕ) (c : AdaptiveBatchController) (results : List (ℕ × ℕ × ScanBatchActivity))
    → IsRunning range_start c
    → IsRunning range_start (after_results c results)
unfolding after_results
results-IsRunning range_start c [] v = v
results-IsRunning range_start c ((start, elapsed, a) ∷ results) v =
    results-IsRunning range_start (record_scan_result c start elapsed a).0 results
      (record_scan_result-IsRunning range_start c start elapsed a v)

-- The controller of a range, after any scan results, keeps the limits of its range, 100 in a
-- sandblasting one and 125 to 2000 in any other, and its size lies within them.
pub new_results-IsRunning :
    (range_start : ℕ) (results : List (ℕ × ℕ × ScanBatchActivity))
    → IsRunning range_start (after_results (new range_start) results)
new_results-IsRunning range_start results =
    results-IsRunning range_start (new range_start) results (new-IsRunning range_start)
