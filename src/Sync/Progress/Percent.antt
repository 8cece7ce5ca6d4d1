-- ===== src/Sync/Progress/Percent.antt =====
-- The percentage of a scan.
use zbag_app_tauri.Base.{
  ℕ, ◌-◌, ◌*◌, ◌/◌, ◌≤◌, ◌<◌, min, max, ◌≡◌, refl, subst, sym, ap, ◌∙◌, true, by_test, List, [],
  ◌∷◌, Option, none, some, arith, leb, ltb, ◌&&◌, ◌||◌, ◌==◌, if◌then◌else◌,
}
use zbag_app_tauri.Sync.Starts.{
  SyncPhase, idle, preparing, downloading, scanning, enhancing, catching_up, offline, error,
  SyncProgress,
}
use zbag_app_tauri.Sync.Progress.{
  Estimate, without_eta, or_zero, height_percent, with_percent, went_back, with_rate, observed,
  estimated, keep, in_phase, with_eta,
}

abbrev pub IsScan : SyncPhase → Type 0
IsScan downloading = Unit {0}
IsScan scanning = Unit {0}
IsScan phase = ⊥

-- The start of the scan is known, the target lies above it, and the frontier has not fallen below it.
abbrev pub IsAbove : Option ℕ → Option ℕ → ℕ → Type 0
IsAbove none target frontier = ⊥
IsAbove (some start) none frontier = ⊥
IsAbove (some start) (some target) frontier = (start < target) × (start ≤ frontier)

abbrev pub after : Estimate → SyncProgress → Option ℕ → Estimate
after e p eta = (estimated e p eta).0

-- Each progress is one of the scan, above its start by then.
abbrev pub IsForward : Estimate → List (SyncProgress × Option ℕ) → Type 0
IsForward e [] = Unit {0}
IsForward e ((p, eta) ∷ updates) =
    IsScan p.phase
    × IsAbove (observed e p).start_height (observed e p).target_height p.scan_frontier_height
    × IsForward (after e p eta) updates

-- The percentages that are shown.
unfoldable pub percents : Option Estimate → List (SyncProgress × Option ℕ) → List ℕ
unfolding with_eta
percents e [] = []
percents e ((p, eta) ∷ updates) =
    let (next, q) = with_eta e p eta in q.progress_percent ∷ percents next updates

abbrev pub IsRising : ℕ → List ℕ → Type 0
IsRising low [] = Unit {0}
IsRising low (n ∷ ns) = (low ≤ n) × (n ≤ 99) × IsRising n ns

with_rate_lem :
    (e : Estimate) (p : SyncProgress) (eta target : Option ℕ)
    → ((with_rate (e, p) eta target).1.progress_percent ≡ p.progress_percent)
      × ((with_rate (e, p) eta target).0.last_percent ≡ e.last_percent)
with_rate_lem e p eta none = (refl, refl)
with_rate_lem e p eta (some target) =
    by_test
      (λ (w : Estimate × SyncProgress).
        (w.1.progress_percent ≡ p.progress_percent) × (w.0.last_percent ≡ e.last_percent))
      (target == 0 || p.scan_frontier_height == 0 || leb target p.scan_frontier_height)
      (e, without_eta p) _ (λ c. (refl, refl))
      (λ c.
        by_test
          (λ (w : Estimate × SyncProgress).
            (w.1.progress_percent ≡ p.progress_percent) × (w.0.last_percent ≡ e.last_percent))
          (went_back e.last_frontier_height p.scan_frontier_height) _ _ (λ b. (refl, refl))
          (λ b. (refl, refl)))

capped_lem :
    (last raw : ℕ)
    → last ≤ 99
    → (last ≤ max (if leb 100 (min raw 100) then 99 else min raw 100) last)
      × (max (if leb 100 (min raw 100) then 99 else min raw 100) last ≤ 99)
capped_lem last raw h = ground arith

height_percent_lem :
    (start target frontier : ℕ) (last : Option ℕ)
    → or_zero last ≤ 99
    → (or_zero last ≤ height_percent start target frontier last)
      × (height_percent start target frontier last ≤ 99)
height_percent_lem start target frontier none h =
    let (low, high) = capped_lem 0 ((frontier - start) * 100 / (target - start)) (omega arith) in
    (omega arith, omega arith)
height_percent_lem start target frontier (some last) h =
    capped_lem last ((frontier - start) * 100 / (target - start)) h

with_percent_lem :
    (e : Estimate) (p : SyncProgress) (start target : Option ℕ)
    → or_zero e.last_percent ≤ 99
    → IsAbove start target p.scan_frontier_height
    → (or_zero e.last_percent ≤ (with_percent e p start target).1.progress_percent)
      × ((with_percent e p start target).1.progress_percent ≤ 99)
      × ((with_percent e p start target).0.last_percent
          ≡ some (with_percent e p start target).1.progress_percent)
with_percent_lem e p none target h a = elim a [ ]
with_percent_lem e p (some start) none h a = elim a [ ]
with_percent_lem e p (some start) (some target) h a =
    let c : (ltb start target && leb start p.scan_frontier_height) ≡ true = ground arith in
    let (low, high) = height_percent_lem start target p.scan_frontier_height e.last_percent h in
    rw c (low, high, refl)

step_lem :
    (e : Estimate) (p : SyncProgress) (eta : Option ℕ)
    → or_zero e.last_percent ≤ 99
    → IsAbove (observed e p).start_height (observed e p).target_height p.scan_frontier_height
    → (or_zero e.last_percent ≤ (estimated e p eta).1.progress_percent)
      × ((estimated e p eta).1.progress_percent ≤ 99)
      × (or_zero (after e p eta).last_percent ≡ (estimated e p eta).1.progress_percent)
step_lem e p eta h a =
    let o = observed e p in
    let w = with_percent o p o.start_height o.target_height in
    let (low, high, same) = with_percent_lem o p o.start_height o.target_height h a in
    let (k, l) = with_rate_lem w.0 w.1 eta w.0.target_height in
    (omega arith, omega arith, ap or_zero (l ∙ same) ∙ sym k)

scan_with_eta :
    (phase : SyncPhase) (e : Estimate) (p : SyncProgress) (eta : Option ℕ)
    → IsScan phase
    → in_phase phase (some e) p eta ≡ keep (estimated e p eta)
scan_with_eta downloading e p eta h = refl
scan_with_eta scanning e p eta h = refl
scan_with_eta idle e p eta h = elim h [ ]
scan_with_eta preparing e p eta h = elim h [ ]
scan_with_eta enhancing e p eta h = elim h [ ]
scan_with_eta catching_up e p eta h = elim h [ ]
scan_with_eta offline e p eta h = elim h [ ]
scan_with_eta error e p eta h = elim h [ ]

-- While a scan goes on above its start and below its target, the percentages that are shown never fall,
-- below the last one of the estimate neither, and stay below 100, whatever the heights and rates.
pub percents-IsRising :
    (e : Estimate) (updates : List (SyncProgress × Option ℕ))
    → or_zero e.last_percent ≤ 99
    → IsForward e updates
    → IsRising (or_zero e.last_percent) (percents (some e) updates)
unfolding percents with_eta
percents-IsRising e [] h f = tt
percents-IsRising e ((p, eta) ∷ updates) h (scan, above, later) =
    let (low, high, same) = step_lem e p eta h above in
    rw (scan_with_eta p.phase e p eta scan) (
      low,
      high,
      subst (λ (n : ℕ). IsRising n (percents (some (after e p eta)) updates)) same
          (percents-IsRising (after e p eta) updates (omega arith) later),
    )
