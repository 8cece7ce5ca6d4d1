-- ===== src/Sync/Progress.antt =====
-- What `update` makes of a progress: `with_eta` of crates/zbag-engine/src/sync_service.rs. `eta` is the
-- remaining time that its floating-point rates come to. The estimate has the heights, the percentage
-- and the remaining time; its instants and rates go into `eta` only.
pub mod Percent
use zbag_app_tauri.Base.{
  ℕ, ◌+◌, ◌-◌, ◌*◌, ◌/◌, min, max, Bool, true, false, ◌&&◌, ◌||◌, List, [], ◌∷◌, Option, none, some,
  leb, ltb, ◌==◌, if◌then◌else◌,
}
use zbag_app_tauri.Base.Maps.{Map, lookup, insert, remove}
use zbag_app_tauri.Sync.Starts.{
  SyncPhase, idle, preparing, downloading, scanning, enhancing, catching_up, offline, error,
  SyncProgress, State,
}

pub record Estimate : Type 0 where
  pub start_height : Option ℕ
  pub target_height : Option ℕ
  pub last_frontier_height : Option ℕ
  pub last_percent : Option ℕ
  pub last_eta_seconds : Option ℕ

abbrev pub empty_estimate : Estimate
empty_estimate = record {
  start_height = none;
  target_height = none;
  last_frontier_height = none;
  last_percent = none;
  last_eta_seconds = none;
}

abbrev pub or_default : Option Estimate → Estimate
or_default none = empty_estimate
or_default (some e) = e

abbrev pub without_eta : SyncProgress → SyncProgress
without_eta p = record p { eta_seconds = none }

abbrev pub started_at : Option ℕ → ℕ → Option ℕ
started_at none frontier = if ltb 0 frontier then some frontier else none
started_at (some start) frontier = some start

abbrev pub or_zero : Option ℕ → ℕ
or_zero none = 0
or_zero (some n) = n

-- The highest tip that was seen.
abbrev pub target_of : Option ℕ → ℕ → Option ℕ
target_of target tip = if ltb 0 tip then some (max (or_zero target) tip) else target

abbrev pub at_least : Option ℕ → ℕ → ℕ
at_least none pct = pct
at_least (some last) pct = max pct last

-- A percentage of 100 is for the end.
abbrev pub height_percent : ℕ → ℕ → ℕ → Option ℕ → ℕ
height_percent start target frontier last =
    let raw = min ((frontier - start) * 100 / (target - start)) 100 in
    at_least last (if leb 100 raw then 99 else raw)

abbrev pub with_percent : Estimate → SyncProgress → Option ℕ → Option ℕ → Estimate × SyncProgress
with_percent e p none target = (e, p)
with_percent e p (some start) none = (e, p)
with_percent e p (some start) (some target) =
    if ltb start target && leb start p.scan_frontier_height
    then (let pct = height_percent start target p.scan_frontier_height e.last_percent in
        (record e { last_percent = some pct }, record p { progress_percent = pct }))
    else (e, p)

abbrev pub went_back : Option ℕ → ℕ → Bool
went_back none frontier = false
went_back (some last) frontier = ltb frontier last

abbrev pub with_rate : Estimate × SyncProgress → Option ℕ → Option ℕ → Estimate × SyncProgress
with_rate (e, p) eta none = (e, without_eta p)
with_rate (e, p) eta (some target) =
    if target == 0 || p.scan_frontier_height == 0 || leb target p.scan_frontier_height
    then (e, without_eta p)
    else (if went_back e.last_frontier_height p.scan_frontier_height
        then (
          record e {
            start_height = some p.scan_frontier_height;
            last_frontier_height = some p.scan_frontier_height;
            last_eta_seconds = none;
          },
          without_eta p,
        )
        else (
          record e { last_frontier_height = some p.scan_frontier_height; last_eta_seconds = eta },
          record p { eta_seconds = eta },
        ))

abbrev pub observed : Estimate → SyncProgress → Estimate
observed e p = record e {
  start_height = started_at e.start_height p.scan_frontier_height;
  target_height = target_of e.target_height p.wallet_tip_height;
}

abbrev pub estimated : Estimate → SyncProgress → Option ℕ → Estimate × SyncProgress
estimated e p eta =
    let o = observed e p in
    let w = with_percent o p o.start_height o.target_height in with_rate w eta w.0.target_height

abbrev pub keep : Estimate × SyncProgress → Option Estimate × SyncProgress
keep (e, p) = (some e, p)

abbrev pub no_eta : Option Estimate → Option Estimate
no_eta none = none
no_eta (some e) = some (record e { last_eta_seconds = none })

abbrev pub in_phase :
    SyncPhase → Option Estimate → SyncProgress → Option ℕ → Option Estimate × SyncProgress
in_phase idle estimate p eta = (none, without_eta p)
in_phase offline estimate p eta = (none, without_eta p)
in_phase error estimate p eta = (none, without_eta p)
in_phase preparing estimate p eta = (no_eta estimate, without_eta p)
in_phase enhancing estimate p eta = (no_eta estimate, without_eta p)
in_phase catching_up estimate p eta =
    if ltb 0 p.wallet_tip_height && leb p.wallet_tip_height p.scan_frontier_height
    then (none, record p { progress_percent = 100; eta_seconds = none })
    else keep (estimated (or_default estimate) p eta)
in_phase downloading estimate p eta = keep (estimated (or_default estimate) p eta)
in_phase scanning estimate p eta = keep (estimated (or_default estimate) p eta)

unfoldable pub with_eta : Option Estimate → SyncProgress → Option ℕ → Option Estimate × SyncProgress
with_eta estimate p eta = in_phase p.phase estimate p eta

abbrev pub put_estimate : ℕ → Option Estimate → Map Estimate → Map Estimate
put_estimate wallet_id none m = remove wallet_id m
put_estimate wallet_id (some e) m = insert wallet_id e m

-- `update`: the progress that is stored and told.
unfoldable pub update : ℕ → SyncProgress → Option ℕ → State Estimate → State Estimate × SyncProgress
unfolding with_eta lookup insert remove
update wallet_id progress eta s =
    let (estimate, p) = with_eta (lookup wallet_id s.progress_estimates) progress eta in
    (
      record s {
        progress = insert wallet_id p s.progress;
        progress_estimates = put_estimate wallet_id estimate s.progress_estimates;
      },
      p,
    )
