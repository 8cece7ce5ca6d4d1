-- ===== src/Wallets/Session/Sealed.antt =====
-- What can happen to the manager, and that no key outlives a lock.
use zbag_app_tauri.Base.{
  ℕ, ◌≡◌, sym, ap, ◌∙◌, Bool, true, List, [], ◌∷◌, Option, none, some, arith, Text, ◌==◌, ==→eq,
  Bool-cases, inl, inr, ◌⊎◌, some_eq, if◌then◌else◌,
}
use zbag_app_tauri.Base.Int.{ℤ}
use zbag_app_tauri.Base.Maps.{Map, lookup, insert, lookup-insert}
use zbag_app_tauri.Base.Results.{ok}
use zbag_app_tauri.Reauth.{ReauthPurpose}
use zbag_app_tauri.Wallets.{
  WalletInfo, ActiveWallet, WalletLockStatus, locked, unlocked, Manager, World, is_some,
  find_wallet, checked_directory, key_of_password,
}
use zbag_app_tauri.Wallets.Access.{reauth_wallet, view_seed_phrase}
use zbag_app_tauri.Wallets.Backup.{get_backup_challenge, verify_backup}
use zbag_app_tauri.Wallets.Creation.{
  Request, Draws, create_wallet, restore_wallet, create_keystone_wallet,
}
use zbag_app_tauri.Wallets.Session.{load_wallet, unlock_wallet, lock_wallet, logout_wallet}

-- The operations of the manager that open or close a wallet, its creations included, and those on
-- passwords, the phrase and the backup, with what they are given.
pub data Action : Type 0 where
  loads : (wallet_id : ℕ) → (now_ms : ℤ) → (scanned : Bool) → Action
  unlocks : (wallet_id : ℕ) → (password : Text) → (scanned : Bool) → Action
  locks : (wallet_id : ℕ) → Action
  logs_out : (wallet_id : ℕ) → Action
  reauths : (wallet_id : ℕ) → (password : Text) → (token now : ℕ) → ReauthPurpose → Action
  views : (wallet_id token now : ℕ) → Action
  asks_challenge : (wallet_id : ℕ) → (pool : List ℕ) → (challenge_id : ℕ) → (now_ms : ℤ) → Action
  verifies : (wallet_id challenge_id : ℕ) → (answers : Map Text) → (now_ms : ℤ) → Action
  creates restores creates_keystone : Request → Draws → Action

module _ {ℓ} {S : Type ℓ} (world : World) where
  abbrev pub act : Manager S → Action → Manager S
  act m (loads w now scanned) = (load_wallet world m w now scanned).0
  act m (unlocks w password scanned) = (unlock_wallet world m w password scanned).0
  act m (locks w) = (lock_wallet m w).0
  act m (logs_out w) = (logout_wallet {P = Unit {0}} m [] w).0.0
  act m (reauths w password token now purpose) =
      (reauth_wallet world m w password token now purpose).0
  act m (views w token now) = (view_seed_phrase world m w token now).0
  act m (asks_challenge w pool challenge_id now) =
      (get_backup_challenge m w pool challenge_id now).0
  act m (verifies w challenge_id answers now) = (verify_backup world m w challenge_id answers now).0
  act m (creates request draws) = (create_wallet world m request draws).0
  act m (restores request draws) = (restore_wallet world m request draws).0
  act m (creates_keystone request draws) = (create_keystone_wallet world m request draws).0

  unfoldable pub run : Manager S → List Action → Manager S
  run m [] = m
  run m (a ∷ actions) = run (act m a) actions

abbrev pub SealedAs : WalletLockStatus → Option (List ℕ) → Option Text → Text → Type 0
SealedAs locked dek wallet_db directory = (dek ≡ none) × (wallet_db ≡ none)
SealedAs unlocked dek wallet_db directory = (is_some dek ≡ true) × (wallet_db ≡ some directory)

-- A locked wallet has neither a key nor a connection; an unlocked one has a key and a connection to its
-- own database.
abbrev pub Sealed : Option ActiveWallet → Type 0
Sealed none = Unit {0}
Sealed (some active) = SealedAs active.lock_status active.dek active.wallet_db active.wallet_dir

abbrev pub Keyed : Map (WalletInfo × Text) → Type 0
Keyed wallets =
    (key : ℕ) → (row : WalletInfo × Text) → lookup key wallets ≡ some row → row.0.id ≡ key

-- Rows stand under their wallets' ids, and the active wallet is sealed.
pub record IsSealed {ℓ} {S : Type ℓ} (m : Manager S) : Type 0 where
  pub keyed : Keyed m.wallets
  pub sealed : Sealed m.active_wallet

checked_row :
    (world : World) (row : Option (WalletInfo × Text)) (wallet : WalletInfo) (directory : Text)
    → checked_directory world row ≡ ok (wallet, directory)
    → row ≡ some (wallet, directory)
checked_row world none wallet directory h = cc
checked_row world (some (w, d)) wallet directory h = ground (arith, h)

pub find_row {ℓ} :
    {S : Type ℓ} (world : World) (m : Manager S) (wallet_id : ℕ) (wallet : WalletInfo)
    (directory : Text)
    → find_wallet world m wallet_id ≡ ok (wallet, directory)
    → lookup wallet_id m.wallets ≡ some (wallet, directory)
unfolding find_wallet
find_row world m wallet_id wallet directory h =
    checked_row world (lookup wallet_id m.wallets) wallet directory h

pub insert-Keyed :
    (wallets : Map (WalletInfo × Text)) (wallet_id : ℕ) (wallet : WalletInfo) (directory : Text)
    → wallet.id ≡ wallet_id
    → Keyed wallets
    → Keyed (insert wallet_id (wallet, directory) wallets)
insert-Keyed wallets wallet_id wallet directory i h key row e =
    let l = lookup-insert wallet_id key (wallet, directory) wallets in
    elim (Bool-cases (wallet_id == key)) [
      | inl t ↦
          let same : (wallet, directory) ≡ row =
            some_eq (wallet, directory) row (ground (arith, l, e, t)) in
          ap (λ (r : WalletInfo × Text). r.0.id) (sym same) ∙ (i ∙ ==→eq wallet_id key t)
      | inr t ↦ h key row (ground (arith, l, e, t))
    ]

-- The three states that a session can be in.
pub data Session : Type 0 where
  closed : Session
  locked_as unlocked_as : ℕ → Session

abbrev pub view_as : WalletLockStatus → ℕ → Session
view_as locked wallet_id = locked_as wallet_id
view_as unlocked wallet_id = unlocked_as wallet_id

abbrev pub view : Option ActiveWallet → Session
view none = closed
view (some active) = view_as active.lock_status active.wallet.id

-- Opening a wallet anew leaves it as it is only if it is the unlocked one.
abbrev pub reopened : Session → ℕ → Session
reopened closed w = locked_as w
reopened (locked_as v) w = locked_as w
reopened (unlocked_as v) w = if v == w then unlocked_as w else locked_as w

abbrev pub relocked : Session → ℕ → Session
relocked closed w = closed
relocked (locked_as v) w = locked_as v
relocked (unlocked_as v) w = if v == w then locked_as w else unlocked_as v

abbrev pub left : Session → ℕ → Session
left closed w = closed
left (locked_as v) w = if v == w then closed else locked_as v
left (unlocked_as v) w = if v == w then closed else unlocked_as v

-- The password gives a key that opens the wallet's database.
abbrev pub Opens {ℓ} : {S : Type ℓ} → World → Manager S → ℕ → Text → Type 0
Opens world m w password =
    (wallet : WalletInfo) × (directory : Text) × (dek : List ℕ) × (find_wallet world m w
      ≡ ok (wallet, directory))
    × (key_of_password world m w wallet.network password ≡ ok dek)
    × (world.opens_db directory wallet.network dek ≡ true)

-- What each operation may do to the session.
abbrev pub Spec {ℓ} : {S : Type ℓ} → World → Manager S → Action → Session → Session → Type 0
Spec world m (loads w now scanned) s t = (t ≡ s) ⊎ (t ≡ reopened s w)
Spec world m (unlocks w password scanned) s t =
    (t ≡ s) ⊎ (Opens world m w password × (t ≡ unlocked_as w))
Spec world m (locks w) s t = t ≡ relocked s w
Spec world m (logs_out w) s t = t ≡ left s w
Spec world m (reauths w password token now purpose) s t = t ≡ s
Spec world m (views w token now) s t = t ≡ s
Spec world m (asks_challenge w pool challenge_id now) s t = t ≡ s
Spec world m (verifies w challenge_id answers now) s t = t ≡ s
Spec world m (creates request draws) s t = (t ≡ s) ⊎ (t ≡ unlocked_as draws.wallet_id)
Spec world m (restores request draws) s t = (t ≡ s) ⊎ (t ≡ unlocked_as draws.wallet_id)
Spec world m (creates_keystone request draws) s t = (t ≡ s) ⊎ (t ≡ unlocked_as draws.wallet_id)
