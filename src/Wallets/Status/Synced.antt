-- ===== src/Wallets/Status/Synced.antt =====
-- The status that the manager has of a sync, from what its task shows.
use zbag_app_tauri.Base.{◌≡◌, refl, List, [], ◌∷◌, Option, none, some}
use zbag_app_tauri.Sync.Starts.{SyncProgress}
use zbag_app_tauri.Sync.Task.{Effect, shows, balances, new_iteration, sleeps}
use zbag_app_tauri.Sync.Task.Machine.{
  Setup, no_cache_dir, no_block_db, no_wallet_db, cancelled_waiting, cancelled_preparing, no_worker,
  prepared, prepare,
}
use zbag_app_tauri.Wallets.Status.{synced}
use zbag_app_tauri.Wallets.Status.Observers.{sync_status_of}

unfoldable pub last_shown : List Effect → Option SyncProgress
last_shown [] = none
last_shown (shows p ∷ effects) = some p
last_shown (balances t ∷ effects) = last_shown effects
last_shown (new_iteration ∷ effects) = last_shown effects
last_shown (sleeps s ∷ effects) = last_shown effects

-- A failure of the setup of a sync: the directory of cached blocks, its database, or the wallet's.
abbrev pub IsFailure : Setup → Type 0
IsFailure no_cache_dir = Unit {0}
IsFailure no_block_db = Unit {0}
IsFailure no_wallet_db = Unit {0}
IsFailure setup = ⊥

-- A sync that could not be set up, since the cache or the wallet's database did not open, makes the
-- manager call the wallet synced.
pub prepare_synced :
    (setup : Setup)
    → IsFailure setup
    → (p : SyncProgress) × (last_shown (prepare setup).effects ≡ some p)
      × (sync_status_of p ≡ synced)
unfolding last_shown prepare
prepare_synced no_cache_dir h = (_, refl, refl)
prepare_synced no_block_db h = (_, refl, refl)
prepare_synced no_wallet_db h = (_, refl, refl)
prepare_synced cancelled_waiting h = elim h [ ]
prepare_synced cancelled_preparing h = elim h [ ]
prepare_synced no_worker h = elim h [ ]
prepare_synced prepared h = elim h [ ]
