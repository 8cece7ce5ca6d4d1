-- ===== src/Wallets/Status/Emitted.antt =====
-- Which statuses are told.
use zbag_app_tauri.Base.{
  ℕ, Bool, false, none, ◌&&◌, List, [], ◌∷◌, ◌++◌, Option, some, ◌==◌, if◌then◌else◌,
}
use zbag_app_tauri.Base.Maps.{lookup}
use zbag_app_tauri.Base.Results.{Result, ok, err}
use zbag_app_tauri.Wallets.{Manager, ActiveWallet}
use zbag_app_tauri.Wallets.Status.{
  SyncStatus, WalletStatus, Speaker, Summary, compute_wallet_status,
}
use zbag_app_tauri.Wallets.Status.Observers.{
  status_eq, changed_from, maybe_emit_wallet_status, logout_status,
}

-- What is called, with the manager as it is by then: `maybe_emit_wallet_status` or `logout_wallet`.
pub data Call : Type 0 where
  tells logs_out : ℕ → Manager SyncStatus → Call

unfoldable pub call : Summary → Speaker → Call → Speaker
unfolding maybe_emit_wallet_status logout_status
call summary s (tells wallet_id m) =
    maybe_emit_wallet_status summary (record s { manager = m }) wallet_id
call summary s (logs_out wallet_id m) = logout_status (record s { manager = m }) wallet_id

unfoldable pub tell_all : Summary → Speaker → List Call → Speaker
unfolding call
tell_all summary s [] = s
tell_all summary s (c ∷ calls) = tell_all summary (call summary s c) calls

unfoldable pub of_wallet : ℕ → List (ℕ × WalletStatus) → List WalletStatus
of_wallet wallet_id [] = []
of_wallet wallet_id ((owner, status) ∷ events) =
    let rest = of_wallet wallet_id events in if owner == wallet_id then status ∷ rest else rest

-- A status that was computed; `none` stands for a logout.
abbrev pub cons_ok : Result WalletStatus → List (Option WalletStatus) → List (Option WalletStatus)
cons_ok (err e) statuses = statuses
cons_ok (ok status) statuses = some status ∷ statuses

abbrev pub is_active : ℕ → Option ActiveWallet → Bool
is_active wallet_id none = false
is_active wallet_id (some active) = active.wallet.id == wallet_id

-- The statuses that the calls compute for the wallet, and the logouts from it while it is active.
unfoldable pub computed : Summary → ℕ → List Call → List (Option WalletStatus)
unfolding compute_wallet_status
computed summary wallet_id [] = []
computed summary wallet_id (tells owner m ∷ calls) =
    let rest = computed summary wallet_id calls in
    if owner == wallet_id then cons_ok (compute_wallet_status summary m owner) rest else rest
computed summary wallet_id (logs_out owner m ∷ calls) =
    let rest = computed summary wallet_id calls in
    if owner == wallet_id && is_active owner m.active_wallet then none ∷ rest else rest

-- Each status that differs from the one before it, where none is before it after a logout.
unfoldable pub changes : Option WalletStatus → List (Option WalletStatus) → List WalletStatus
unfolding status_eq
changes last [] = []
changes last (none ∷ statuses) = changes none statuses
changes last (some status ∷ statuses) =
    let told = changes (some status) statuses in
    let same = changes last statuses in if changed_from last status then status ∷ told else same

module _ (w : ℕ) where
  abbrev so_far : Speaker → List (Option WalletStatus) → List WalletStatus
  so_far s rest = of_wallet w s.events ++ changes (lookup w s.last_emitted_status) rest
