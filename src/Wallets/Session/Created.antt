-- ===== src/Wallets/Session/Created.antt =====
-- A creation leaves the session, or opens the new wallet.
use zbag_app_tauri.Base.{ℕ, ◌≡◌, ◌⊎◌, refl, ◌∙◌, true, false, List, [], ◌∷◌, arith, inl, inr}
use zbag_app_tauri.Base.Results.{Result, ok, err}
use zbag_app_tauri.Encryption.{done, failed}
use zbag_app_tauri.Wallets.{WalletInfo, software, watch_only, Manager, World}
use zbag_app_tauri.Wallets.Backup.{issue_backup_challenge}
use zbag_app_tauri.Wallets.Creation.{
  Request, Draws, Step, needs, puts_wallet, puts_backup, puts_encryption, encrypts, puts_mnemonic,
  puts_challenge, new_wallet, perform, go_on, run_steps, activated, create_steps, restore_steps,
  keystone_steps, create_wallet, restore_wallet, create_keystone_wallet,
}
use zbag_app_tauri.Wallets.Session.Sealed.{IsSealed, insert-Keyed, unlocked_as, view}

module _ {ℓ} {S : Type ℓ} where
  -- The rows stay keyed and the active wallet is the same one.
  abbrev Held : Manager S → Manager S → Type 0
  Held m after = IsSealed after × (view after.active_wallet ≡ view m.active_wallet)

  challenge-Held :
      (m : Manager S) (draws : Draws) → IsSealed m → Held m (perform (puts_challenge draws) m).0
  unfolding perform issue_backup_challenge
  challenge-Held m draws h = ground (arith, h)

  perform-Held : (step : Step) (m : Manager S) → IsSealed m → Held m (perform step m).0
  unfolding perform
  perform-Held (needs true e) m h = (h, refl)
  perform-Held (needs false e) m h = (h, refl)
  perform-Held (puts_wallet true wallet directory) m h = (
    record {
      keyed = insert-Keyed m.wallets wallet.id wallet directory refl h.keyed;
      sealed = h.sealed;
    },
    refl,
  )
  perform-Held (puts_wallet false wallet directory) m h = (h, refl)
  perform-Held (puts_backup true w required) m h =
      (record { keyed = h.keyed; sealed = h.sealed }, refl)
  perform-Held (puts_backup false w required) m h = (h, refl)
  perform-Held (puts_encryption inserts draws (failed e)) m h = (h, refl)
  perform-Held (puts_encryption false draws (done wrapped)) m h = (h, refl)
  perform-Held (puts_encryption true draws (done wrapped)) m h =
      (record { keyed = h.keyed; sealed = h.sealed }, refl)
  perform-Held (encrypts (failed e)) m h = (h, refl)
  perform-Held (encrypts (done stored)) m h = (h, refl)
  perform-Held (puts_mnemonic stores w (failed e)) m h = (h, refl)
  perform-Held (puts_mnemonic false w (done stored)) m h = (h, refl)
  perform-Held (puts_mnemonic true w (done stored)) m h =
      (record { keyed = h.keyed; sealed = h.sealed }, refl)
  perform-Held (puts_challenge draws) m h = challenge-Held m draws h

  go_on-Held :
      (m : Manager S) (r : Manager S × Result (Unit {0}))
      (later : Manager S → Manager S × Result (Unit {0}))
      → ((after : Manager S) → IsSealed after → Held after (later after).0)
      → Held m r.0
      → Held m (go_on r later).0
  go_on-Held m (after, err e) later k h = h
  go_on-Held m (after, ok u) later k h = let (s, v) = k after h.0 in (s, v ∙ h.1)

  steps-Held : (steps : List Step) (m : Manager S) → IsSealed m → Held m (run_steps steps m).0
  unfolding run_steps
  steps-Held [] m h = (h, refl)
  steps-Held (step ∷ steps) m h =
      go_on-Held m (perform step m) (run_steps steps) (steps-Held steps) (perform-Held step m h)

  -- The session is as it was, or the wallet is open.
  abbrev pub Created : Manager S → ℕ → Manager S → Type 0
  Created m w after =
      IsSealed after
      × ((view after.active_wallet ≡ view m.active_wallet)
          ⊎ (view after.active_wallet ≡ unlocked_as w))

  activated-Created :
      (world : World) (wallet : WalletInfo) (draws : Draws) (m : Manager S)
      (r : Manager S × Result (Unit {0}))
      → Held m r.0
      → Created m wallet.id (activated world wallet draws r).0
  activated-Created world wallet draws m (after, err e) h = (h.0, inl h.1)
  activated-Created world wallet draws m (after, ok u) h =
      (record { keyed = h.0.keyed; sealed = (refl, refl) }, inr refl)

  module _ (world : World) (m : Manager S) (request : Request) (draws : Draws)
      (h : IsSealed m) where
    pub create-Created : Created m draws.wallet_id (create_wallet world m request draws).0
    unfolding create_wallet
    create-Created =
        activated-Created world (new_wallet software request draws) draws m _
          (steps-Held (create_steps world request draws) m h)

    pub restore-Created : Created m draws.wallet_id (restore_wallet world m request draws).0
    unfolding restore_wallet
    restore-Created =
        activated-Created world (new_wallet software request draws) draws m _
          (steps-Held (restore_steps world request draws) m h)

    pub keystone-Created :
        Created m draws.wallet_id (create_keystone_wallet world m request draws).0
    unfolding create_keystone_wallet
    keystone-Created =
        activated-Created world (new_wallet watch_only request draws) draws m _
          (steps-Held (keystone_steps world request draws) m h)
