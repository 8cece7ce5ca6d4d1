-- ===== src/Wallets/Session/Machine.antt =====
-- The manager does what the session allows.
use zbag_app_tauri.Base.{
  ℕ, ◌≡◌, refl, sym, ap, ◌∙◌, subst, Bool, true, false, List, [], ◌∷◌, Option, none, some, arith,
  Text, ◌==◌, ==→eq, Bool-cases, inl, inr,
}
use zbag_app_tauri.Base.Int.{ℤ}
use zbag_app_tauri.Base.Maps.{Map}
use zbag_app_tauri.Base.Results.{Result, ok, err}
use zbag_app_tauri.Reauth.{ReauthPurpose}
use zbag_app_tauri.Wallets.Access.{reauth_wallet, view_seed_phrase, consume_reauth_token}
use zbag_app_tauri.Wallets.Backup.{get_backup_challenge, verify_backup, issue_backup_challenge}
use zbag_app_tauri.Wallets.{
  WalletInfo, ActiveWallet, WalletLockStatus, locked, unlocked, Manager, World, find_wallet,
  key_of_password,
}
use zbag_app_tauri.Wallets.Session.{
  update_row, stays_open, load_locked, load_found, load_checked, unlock_with, unlock_checked,
  lock_active, logout_active, cleared,
}
use zbag_app_tauri.Wallets.Session.Sealed.{
  Action, loads, unlocks, locks, logs_out, SealedAs, Sealed, Keyed, IsSealed, find_row,
  insert-Keyed, closed, locked_as, unlocked_as, view_as, view, reopened, relocked, left, Spec,
}

-- The active wallet stays open, or was not unlocked under this id.
not_open :
    (w : ℕ) (active : ActiveWallet) (status : WalletLockStatus)
    → active.lock_status ≡ status
    → SealedAs status active.dek active.wallet_db active.wallet_dir
    → stays_open w active ≡ false
    → locked_as w ≡ reopened (view_as status active.wallet.id) w
not_open w active locked e s h = refl
not_open w active unlocked e s h = ground (arith, e, s, h)

is_open :
    (w : ℕ) (active : ActiveWallet)
    → stays_open w active ≡ true
    → (active.lock_status ≡ unlocked) × (active.wallet.id ≡ w)
is_open w active h = ground (arith, h)

relocked_other :
    (status : WalletLockStatus) (v w : ℕ)
    → (v == w) ≡ false
    → view_as status v ≡ relocked (view_as status v) w
relocked_other locked v w c = refl
relocked_other unlocked v w c = rw c refl

relocked_same :
    (status : WalletLockStatus) (v w : ℕ)
    → (v == w) ≡ true
    → locked_as v ≡ relocked (view_as status v) w
relocked_same locked v w c = refl
relocked_same unlocked v w c = rw c (ap locked_as (==→eq v w c))

left_other :
    (status : WalletLockStatus) (v w : ℕ)
    → (v == w) ≡ false
    → view_as status v ≡ left (view_as status v) w
left_other locked v w c = rw c refl
left_other unlocked v w c = rw c refl

left_same :
    (status : WalletLockStatus) (v w : ℕ) → (v == w) ≡ true → closed ≡ left (view_as status v) w
left_same locked v w c = rw c refl
left_same unlocked v w c = rw c refl

-- The state stays sealed, and the session does what the operation may do to it.
abbrev pub Good {ℓ} : {S : Type ℓ} → World → Manager S → Action → Manager S → Type 0
Good world m a after =
    IsSealed after × Spec world m a (view m.active_wallet) (view after.active_wallet)

module _ {ℓ} {S : Type ℓ} (world : World) (m : Manager S) (h : IsSealed m) where
  module _ (w : ℕ) (wallet : WalletInfo) (directory : Text) where
    row_id : find_wallet world m w ≡ ok (wallet, directory) → wallet.id ≡ w
    row_id e = h.keyed w (wallet, directory) (find_row world m w wallet directory e)

    load_locked-Good :
        (now : ℤ) (scanned : Bool) (row : WalletInfo)
        → wallet.id ≡ w
        → row.id ≡ w
        → locked_as w ≡ reopened (view m.active_wallet) w
        → Good world m
            (loads w now scanned)
            (load_locked (update_row m w row directory) wallet directory scanned).0
    load_locked-Good now scanned row i r e = (
      record { keyed = insert-Keyed m.wallets w row directory r h.keyed; sealed = (refl, refl) },
      inr (ap locked_as i ∙ e),
    )

    load_found-Good :
        (now : ℤ) (scanned : Bool) (row : WalletInfo)
        → wallet.id ≡ w
        → row.id ≡ w
        → (o : Option ActiveWallet) → m.active_wallet ≡ o
        → Good world m
            (loads w now scanned)
            (load_found (update_row m w row directory) w wallet directory scanned o).0
    load_found-Good now scanned row i r none e = load_locked-Good now scanned row i r (rw e refl)
    load_found-Good now scanned row i r (some active) e =
        let s : Sealed (some active) = subst Sealed e h.sealed in
        elim (Bool-cases (stays_open w active)) [
          | inr c ↦ rw c (
              load_locked-Good now scanned row i r
                (rw e (not_open w active active.lock_status refl s c)))
          | inl c ↦
              let (u, same) = is_open w active c in
              rw c (
                record { keyed = insert-Keyed m.wallets w row directory r h.keyed; sealed = s },
                inl (rw (e, u) (ap unlocked_as (i ∙ sym same))),
              )
        ]

  pub load_checked-Good :
      (w : ℕ) (now : ℤ) (scanned : Bool) (r : Result (WalletInfo × Text))
      → find_wallet world m w ≡ r
      → Good world m (loads w now scanned) (load_checked m w now scanned r).0
  load_checked-Good w now scanned (err c) e = (h, inl refl)
  load_checked-Good w now scanned (ok (wallet, directory)) e =
      let i = row_id w wallet directory e in
      load_found-Good w wallet directory now scanned (record wallet { last_opened_at = some now }) i
        i m.active_wallet refl

  unlock_with-Good :
      (w : ℕ) (password : Text) (scanned : Bool) (wallet : WalletInfo) (directory : Text)
      → find_wallet world m w ≡ ok (wallet, directory)
      → (r : Result (List ℕ)) → key_of_password world m w wallet.network password ≡ r
      → Good world m
          (unlocks w password scanned)
          (unlock_with world m w wallet directory scanned r).0
  unlock_with-Good w password scanned wallet directory e (err c) k = (h, inl refl)
  unlock_with-Good w password scanned wallet directory e (ok dek) k =
      let i = row_id w wallet directory e in
      elim (Bool-cases (world.opens_db directory wallet.network dek)) [
        | inr o ↦ rw o (h, inl refl)
        | inl o ↦ rw o (
          record {
            keyed =
                insert-Keyed m.wallets w (record wallet { remember_unlock_enabled = false })
                  directory i h.keyed;
            sealed = (refl, refl);
          },
          inr ((wallet, directory, dek, e, k, o), ap unlocked_as i),
        )
      ]

  pub unlock_checked-Good :
      (w : ℕ) (password : Text) (scanned : Bool) (r : Result (WalletInfo × Text))
      → find_wallet world m w ≡ r
      → Good world m (unlocks w password scanned) (unlock_checked world m w password scanned r).0
  unlock_checked-Good w password scanned (err c) e = (h, inl refl)
  unlock_checked-Good w password scanned (ok (wallet, directory)) e =
      unlock_with-Good w password scanned wallet directory e
        (key_of_password world m w wallet.network password) refl

  pub lock-Good :
      (w : ℕ) (o : Option ActiveWallet)
      → m.active_wallet ≡ o
      → Good world m (locks w) (lock_active m w o).0
  lock-Good w none e = (h, rw e refl)
  lock-Good w (some active) e = elim (Bool-cases (active.wallet.id == w)) [
    | inr c ↦ rw c (h, rw e (relocked_other active.lock_status active.wallet.id w c))
    | inl c ↦ rw c (
      record { keyed = h.keyed; sealed = (refl, refl) },
      rw e (relocked_same active.lock_status active.wallet.id w c),
    )
  ]

  pub logout-Good :
      (w : ℕ) (o : Option ActiveWallet)
      → m.active_wallet ≡ o
      → Good world m (logs_out w) (logout_active {P = Unit {0}} m [] w o).0.0
  unfolding cleared
  logout-Good w none e = (h, rw e refl)
  logout-Good w (some active) e = elim (Bool-cases (active.wallet.id == w)) [
    | inr c ↦ rw c (h, rw e (left_other active.lock_status active.wallet.id w c))
    | inl c ↦ rw c (
      record { keyed = h.keyed; sealed = tt },
      rw e (left_same active.lock_status active.wallet.id w c),
    )
  ]

  -- An operation that touches neither the rows nor the active wallet.
  pub same-Good :
      (after : Manager S)
      → after.wallets ≡ m.wallets
      → after.active_wallet ≡ m.active_wallet
      → IsSealed after × (view after.active_wallet ≡ view m.active_wallet)
  same-Good after r a = (
    record { keyed = subst Keyed (sym r) h.keyed; sealed = subst Sealed (sym a) h.sealed },
    ap view a,
  )

-- The operations that open nothing.
abbrev pub Stays {ℓ} : {S : Type ℓ} → Manager S → Manager S → Type 0
Stays m after = (after.wallets ≡ m.wallets) × (after.active_wallet ≡ m.active_wallet)

module _ {ℓ} {S : Type ℓ} (world : World) (m : Manager S) where
  pub reauth-Stays :
      (w : ℕ) (password : Text) (token now : ℕ) (purpose : ReauthPurpose)
      → Stays m (reauth_wallet world m w password token now purpose).0
  unfolding reauth_wallet
  reauth-Stays w [] token now purpose = (refl, refl)
  reauth-Stays w (c ∷ password) token now purpose = (ground arith, ground arith)

  pub view-Stays : (w token now : ℕ) → Stays m (view_seed_phrase world m w token now).0
  unfolding view_seed_phrase consume_reauth_token
  view-Stays w token now = (ground arith, ground arith)

  pub challenge-Stays :
      (w : ℕ) (pool : List ℕ) (challenge_id : ℕ) (now : ℤ)
      → Stays m (get_backup_challenge m w pool challenge_id now).0
  unfolding get_backup_challenge issue_backup_challenge
  challenge-Stays w pool challenge_id now = (ground arith, ground arith)

  pub verify-Stays :
      (w challenge_id : ℕ) (answers : Map Text) (now : ℤ)
      → Stays m (verify_backup world m w challenge_id answers now).0
  unfolding verify_backup
  verify-Stays w challenge_id answers now = (ground arith, ground arith)
