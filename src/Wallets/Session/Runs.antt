-- ===== src/Wallets/Session/Runs.antt =====
-- Sequences of the manager's operations.
use zbag_app_tauri.Base.{ℕ, ◌≡◌, ◌⊎◌, refl, sym, ap, ◌∙◌, List, [], ◌∷◌, arith, inl, inr}
use zbag_app_tauri.Wallets.{Manager, World}
use zbag_app_tauri.Wallets.Session.{load_wallet, unlock_wallet, lock_wallet, logout_wallet}
use zbag_app_tauri.Wallets.Session.Sealed.{
  Action, loads, unlocks, locks, logs_out, creates, restores, creates_keystone, reauths, views,
  asks_challenge, verifies, act, run, IsSealed, Session, closed, locked_as, unlocked_as, view,
  reopened, relocked, left, Opens, Spec,
}
use zbag_app_tauri.Wallets.Session.Created.{create-Created, restore-Created, keystone-Created}
use zbag_app_tauri.Wallets.Session.Machine.{
  Good, load_checked-Good, unlock_checked-Good, lock-Good, logout-Good, same-Good, reauth-Stays,
  view-Stays, challenge-Stays, verify-Stays,
}

-- A session that is unlocked after a change was unlocked for the same wallet before.
reopened-unlocked : (s : Session) (v w : ℕ) → reopened s v ≡ unlocked_as w → s ≡ unlocked_as w
reopened-unlocked closed v w h = cc
reopened-unlocked (locked_as u) v w h = cc
reopened-unlocked (unlocked_as u) v w h = ground (arith, h)

relocked-unlocked : (s : Session) (v w : ℕ) → relocked s v ≡ unlocked_as w → s ≡ unlocked_as w
relocked-unlocked closed v w h = cc
relocked-unlocked (locked_as u) v w h = cc
relocked-unlocked (unlocked_as u) v w h = ground (arith, h)

left-unlocked : (s : Session) (v w : ℕ) → left s v ≡ unlocked_as w → s ≡ unlocked_as w
left-unlocked closed v w h = cc
left-unlocked (locked_as u) v w h = ground (arith, h)
left-unlocked (unlocked_as u) v w h = ground (arith, h)

abbrev wallet_of : Session → ℕ
wallet_of closed = 0
wallet_of (locked_as w) = w
wallet_of (unlocked_as w) = w

module _ {ℓ} {S : Type ℓ} (world : World) where
  act-Good : (m : Manager S) (a : Action) → IsSealed m → Good world m a (act world m a)
  unfolding load_wallet unlock_wallet lock_wallet logout_wallet
  act-Good m (loads w now scanned) h = load_checked-Good world m h w now scanned _ refl
  act-Good m (unlocks w password scanned) h =
      unlock_checked-Good world m h w password scanned _ refl
  act-Good m (locks w) h = lock-Good world m h w m.active_wallet refl
  act-Good m (logs_out w) h = logout-Good world m h w m.active_wallet refl
  act-Good m (reauths w password token now purpose) h =
      let s = reauth-Stays world m w password token now purpose in same-Good world m h _ s.0 s.1
  act-Good m (views w token now) h =
      let s = view-Stays world m w token now in same-Good world m h _ s.0 s.1
  act-Good m (asks_challenge w pool challenge_id now) h =
      let s = challenge-Stays world m w pool challenge_id now in same-Good world m h _ s.0 s.1
  act-Good m (verifies w challenge_id answers now) h =
      let s = verify-Stays world m w challenge_id answers now in same-Good world m h _ s.0 s.1
  act-Good m (creates request draws) h = create-Created world m request draws h
  act-Good m (restores request draws) h = restore-Created world m request draws h
  act-Good m (creates_keystone request draws) h = keystone-Created world m request draws h

  -- In any run of the manager's operations a locked wallet has neither a key nor a connection, an
  -- unlocked one has a key and a connection to the database in its own directory, and rows stay under
  -- their wallets' ids.
  pub run-IsSealed :
      (m : Manager S) (actions : List Action) → IsSealed m → IsSealed (run world m actions)
  unfolding run
  run-IsSealed m [] h = h
  run-IsSealed m (a ∷ actions) h = run-IsSealed (act world m a) actions (act-Good m a h).0

  -- Each operation of the run is a step of the session.
  abbrev pub Refines : Manager S → List Action → Type 0
  Refines m [] = Unit {0}
  Refines m (a ∷ actions) =
      Spec world m a (view m.active_wallet) (view (act world m a).active_wallet)
      × Refines (act world m a) actions

  -- Every run of the manager is a run of the session: loading leaves it or opens the wallet locked,
  -- unless it is the unlocked one; unlocking leaves it, or unlocks the wallet whose database the
  -- password's key opens; creating, restoring or importing a wallet leaves it, or unlocks the new
  -- wallet; locking and leaving act on the wallet named and on no other; viewing the phrase,
  -- reauthenticating, asking for a challenge and verifying a backup change nothing of it.
  pub run-Refines : (m : Manager S) (actions : List Action) → IsSealed m → Refines m actions
  run-Refines m [] h = tt
  run-Refines m (a ∷ actions) h =
      let good = act-Good m a h in (good.1, run-Refines (act world m a) actions good.0)

  -- A step that unlocks the wallet is an unlocking with a password that opens it, or creates it.
  abbrev pub UnlocksBy : Manager S → ℕ → Action → Type 0
  UnlocksBy m w (creates request draws) = draws.wallet_id ≡ w
  UnlocksBy m w (restores request draws) = draws.wallet_id ≡ w
  UnlocksBy m w (creates_keystone request draws) = draws.wallet_id ≡ w
  UnlocksBy m w (unlocks v password scanned) = (v ≡ w) × Opens world m v password
  UnlocksBy m w a = ⊥

  abbrev pub SomeUnlock : Manager S → ℕ → List Action → Type 0
  SomeUnlock m w [] = ⊥
  SomeUnlock m w (a ∷ actions) = UnlocksBy m w a ⊎ SomeUnlock (act world m a) w actions

  step-unlocked :
      (m : Manager S) (w : ℕ) (a : Action) (s t : Session)
      → Spec world m a s t
      → t ≡ unlocked_as w
      → (s ≡ unlocked_as w) ⊎ UnlocksBy m w a
  step-unlocked m w (loads v now scanned) s t (inl e) h = inl (sym e ∙ h)
  step-unlocked m w (loads v now scanned) s t (inr e) h = inl (reopened-unlocked s v w (sym e ∙ h))
  step-unlocked m w (unlocks v password scanned) s t (inl e) h = inl (sym e ∙ h)
  step-unlocked m w (unlocks v password scanned) s t (inr (o, e)) h =
      inr (ap wallet_of (sym e ∙ h), o)
  step-unlocked m w (locks v) s t e h = inl (relocked-unlocked s v w (sym e ∙ h))
  step-unlocked m w (logs_out v) s t e h = inl (left-unlocked s v w (sym e ∙ h))
  step-unlocked m w (reauths v password token now purpose) s t e h = inl (sym e ∙ h)
  step-unlocked m w (views v token now) s t e h = inl (sym e ∙ h)
  step-unlocked m w (asks_challenge v pool challenge_id now) s t e h = inl (sym e ∙ h)
  step-unlocked m w (verifies v challenge_id answers now) s t e h = inl (sym e ∙ h)
  step-unlocked m w (creates request draws) s t (inl e) h = inl (sym e ∙ h)
  step-unlocked m w (creates request draws) s t (inr e) h = inr (ap wallet_of (sym e ∙ h))
  step-unlocked m w (restores request draws) s t (inl e) h = inl (sym e ∙ h)
  step-unlocked m w (restores request draws) s t (inr e) h = inr (ap wallet_of (sym e ∙ h))
  step-unlocked m w (creates_keystone request draws) s t (inl e) h = inl (sym e ∙ h)
  step-unlocked m w (creates_keystone request draws) s t (inr e) h = inr (ap wallet_of (sym e ∙ h))

  -- A wallet is unlocked at the end of a run only if it was at its start, or some operation of the run
  -- is an unlocking of that wallet with a password whose key opened its database at that point, or the
  -- creation, restoration or import of that wallet.
  pub run-unlocked :
      (m : Manager S) (w : ℕ) (actions : List Action)
      → IsSealed m
      → view (run world m actions).active_wallet ≡ unlocked_as w
      → (view m.active_wallet ≡ unlocked_as w) ⊎ SomeUnlock m w actions
  unfolding run
  run-unlocked m w [] h e = inl e
  run-unlocked m w (a ∷ actions) h e =
      let good = act-Good m a h in
      elim (run-unlocked (act world m a) w actions good.0 e) [
        | inr later ↦ inr (inr later)
        | inl now ↦ elim (step-unlocked m w a (view m.active_wallet) _ good.1 now) [
          | inl before ↦ inl before
          | inr here ↦ inr (inl here)
        ]
      ]
