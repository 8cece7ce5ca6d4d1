-- ===== src/Swap/Refresh.antt =====
-- `refresh_swap_status` of crates/zbag-engine/src/swap_service.rs. No lock is held while the service
-- is asked, so a refresh is two steps, and others may act between them; a failure of the database is
-- left out, and so is the event that tells the application of a change.
pub mod Stored
pub mod Races
use zbag_app_tauri.Base.{
  ℕ, Bool, true, false, List, [], ◌∷◌, Option, none, some, Text, ◌==◌, if◌then◌else◌,
}
use zbag_app_tauri.Base.Int.{ℤ}
use zbag_app_tauri.Base.Maps.{lookup, has}
use zbag_app_tauri.Base.Results.{Result, ok, err}
use zbag_app_tauri.Swap.{
  SwapState, SwapInfo, Swaps, is_terminal, next_state_from_remote_status, load_owned_swap,
  update_swap,
}
use zbag_app_tauri.Swap.Polling.{Answer, status, rate_limited, other_error, take_status, changes}

pub record Store : Type 0 where
  pub swaps : Swaps
  pub refresh_inflight : List ℕ

unfoldable pub without : ℕ → List ℕ → List ℕ
without k [] = []
without k (j ∷ js) = let rest = without k js in if j == k then rest else j ∷ rest

-- `HashSet::insert`, which says whether the id is new.
unfoldable pub try_acquire_refresh_inflight_guard : Store → ℕ → Option Store
unfolding has
try_acquire_refresh_inflight_guard store swap_id =
    if has swap_id store.refresh_inflight
    then none
    else some (record store { refresh_inflight = swap_id ∷ store.refresh_inflight })

-- `drop` of the guard.
unfoldable pub release_guard : Store → ℕ → Store
unfolding without
release_guard store swap_id = record store {
  refresh_inflight = without swap_id store.refresh_inflight;
}

-- The refresh answers at once, or asks about the swap as it was loaded.
pub data RefreshStep : Type 0 where
  answers : Result SwapInfo → RefreshStep
  asks : SwapInfo → RefreshStep

abbrev pub guarded : Store → SwapInfo → Option Store → Store × RefreshStep
guarded store swap none = (store, answers (ok swap))
guarded store swap (some acquired) = (acquired, asks swap)

abbrev pub with_address : Store → ℕ → SwapInfo → Option Text → Store × RefreshStep
with_address store swap_id swap none = (store, answers (ok swap))
with_address store swap_id swap (some address) =
    guarded store swap (try_acquire_refresh_inflight_guard store swap_id)

abbrev pub begin_loaded : Store → ℕ → Result SwapInfo → Store × RefreshStep
begin_loaded store swap_id (err e) = (store, answers (err e))
begin_loaded store swap_id (ok swap) =
    if is_terminal swap.state
    then (store, answers (ok swap))
    else with_address store swap_id swap swap.deposit_address

-- Up to the question to the service.
unfoldable pub begin_refresh : Store → ℕ → ℕ → Store × RefreshStep
unfolding load_owned_swap try_acquire_refresh_inflight_guard
begin_refresh store wallet_id swap_id =
    begin_loaded store swap_id (load_owned_swap store.swaps wallet_id swap_id)

-- The swap after the answer, and whether it is written.
abbrev pub answered : SwapInfo → Answer → Bool → ℤ → SwapInfo × Bool
answered swap (status s message) confirmed now_ms =
    let next_state = next_state_from_remote_status confirmed s in
    if changes swap next_state message
    then (take_status swap next_state message now_ms, true)
    else (swap, false)
answered swap (rate_limited retry_after message) confirmed now_ms =
    (record swap { last_error = some message; updated_at = now_ms }, true)
answered swap (other_error message) confirmed now_ms =
    (record swap { last_error = some message; updated_at = now_ms }, true)

abbrev pub write_if : Swaps → ℕ → SwapInfo × Bool → Swaps
write_if swaps wallet_id (swap, written) =
    if written then update_swap swaps wallet_id swap else swaps

-- From the answer on; the guard is dropped at the end.
unfoldable pub finish_refresh : Store → ℕ → SwapInfo → Answer → Bool → ℤ → Store × SwapInfo
unfolding update_swap next_state_from_remote_status release_guard
finish_refresh store wallet_id swap answer confirmed now_ms =
    let next = answered swap answer confirmed now_ms in
    (release_guard (record store { swaps = write_if store.swaps wallet_id next }) swap.id, next.0)

abbrev pub finish_step : Store × RefreshStep → ℕ → Answer → Bool → ℤ → Store × Result SwapInfo
finish_step (store, answers r) wallet_id answer confirmed now_ms = (store, r)
finish_step (store, asks swap) wallet_id answer confirmed now_ms =
    let (next, refreshed) = finish_refresh store wallet_id swap answer confirmed now_ms in
    (next, ok refreshed)

-- A refresh that nothing interrupts.
unfoldable pub refresh_swap_status : Store → ℕ → ℕ → Answer → Bool → ℤ → Store × Result SwapInfo
unfolding begin_refresh finish_refresh
refresh_swap_status store wallet_id swap_id answer confirmed now_ms =
    finish_step (begin_refresh store wallet_id swap_id) wallet_id answer confirmed now_ms
