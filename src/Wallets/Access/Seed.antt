-- ===== src/Wallets/Access/Seed.antt =====
-- Who sees the seed phrase, and how often.
use zbag_app_tauri.Base.{
  ℕ, ◌+◌, ◌≤◌, ◌≡◌, refl, sym, ap, ◌∙◌, Bool, true, false, List, [], ◌∷◌, Option, none, some, arith,
  Text, All, Bool-cases, inl, inr,
}
use zbag_app_tauri.Base.Maps.{lookup}
use zbag_app_tauri.Base.Results.{Result, ok, err}
use zbag_app_tauri.Reauth
use zbag_app_tauri.Reauth.{
  ReauthPurpose, ReauthError, invalid, expired, token_ttl, Tokens, issue, validate_and_consume,
}
use zbag_app_tauri.Reauth.Tokens.{Event, Avoids, run, issue-validate, validate_once}
use zbag_app_tauri.Wallets.{
  WalletInfo, Manager, World, key_of_password, watch_only_id, require_unlocked_wallet_snapshot,
}
use zbag_app_tauri.Wallets.Access.{
  consume_reauth_token, token_result, issue_token, reauth_found, reauth_wallet, stored_words,
  view_with_token, view_seed_phrase, decrypt_mnemonic,
}

abbrev pub is_ok {ℓ} : {A : Type ℓ} → Result A → Bool
is_ok (ok a) = true
is_ok (err e) = false

module _ {ℓ} {S : Type ℓ} (world : World) (m : Manager S) (w token now : ℕ) where
  abbrev pub checked : Tokens × Option ReauthError
  checked = validate_and_consume m.reauth token now w Reauth.view_seed_phrase

  -- The tokens do not matter to the phrase.
  stored_words_lem :
      (tokens : Tokens)
      → stored_words world (record m { reauth = tokens }) w ≡ stored_words world m w
  unfolding stored_words require_unlocked_wallet_snapshot decrypt_mnemonic
  stored_words_lem tokens = refl

  -- A view, by what the token check says.
  view_lem :
      (e : Option ReauthError)
      → checked.1 ≡ e
      → watch_only_id w m.active_wallet ≡ false
      → view_seed_phrase world m w token now
        ≡ view_with_token world w (record m { reauth = checked.0 }, token_result e)
  unfolding view_seed_phrase consume_reauth_token
  view_lem e c k = rw (k, c) refl

  watched :
      watch_only_id w m.active_wallet ≡ true
      → is_ok (view_seed_phrase world m w token now).1 ≡ false
  unfolding view_seed_phrase
  watched k = rw k refl

  refused : checked.1 ≡ some invalid → is_ok (view_seed_phrase world m w token now).1 ≡ false
  refused c = elim (Bool-cases (watch_only_id w m.active_wallet)) [
    | inl k ↦ watched k
    | inr k ↦ ap (λ (r : Manager S × Result (List Text)). is_ok r.1) (view_lem (some invalid) c k)
  ]

  viewed_with :
      (after : Manager S) (words : List Text) (e : Option ReauthError)
      → view_with_token world w (record m { reauth = checked.0 }, token_result e)
        ≡ (after, ok words)
      → (e ≡ none) × (after ≡ record m { reauth = checked.0 }) × (stored_words world m w ≡ ok words)
  viewed_with after words none h = (
    refl,
    sym (ap (λ (r : Manager S × Result (List Text)). r.0) h),
    sym (stored_words_lem checked.0) ∙ ap (λ (r : Manager S × Result (List Text)). r.1) h,
  )
  viewed_with after words (some invalid) h =
      let f = ap (λ (r : Manager S × Result (List Text)). is_ok r.1) h in cc
  viewed_with after words (some expired) h =
      let f = ap (λ (r : Manager S × Result (List Text)). is_ok r.1) h in cc

  viewed :
      (after : Manager S) (words : List Text)
      → view_seed_phrase world m w token now ≡ (after, ok words)
      → (watch_only_id w m.active_wallet ≡ false)
        × (checked.1 ≡ none)
        × (after ≡ record m { reauth = checked.0 })
        × (stored_words world m w ≡ ok words)
  viewed after words h = elim (Bool-cases (watch_only_id w m.active_wallet)) [
    | inl k ↦
        let f : is_ok (view_seed_phrase world m w token now).1 ≡ true =
          ap (λ (r : Manager S × Result (List Text)). is_ok r.1) h in
        let g = watched k in cc
    | inr k ↦
        let (e, a, s) = viewed_with after words checked.1 (sym (view_lem checked.1 refl k) ∙ h) in
        (k, e, a, s)
  ]

-- Whoever was shown the seed phrase had a token that was good at that time for that wallet and for this
-- purpose, the wallet is not watch-only, and what was shown is its stored phrase; the token is spent, so
-- that no later call with it shows any wallet's phrase, as long as the tokens are not changed by
-- another draw of the same token.
pub view_seed_phrase_once {ℓ} :
    {S : Type ℓ} (world : World) (m after : Manager S) (w token now : ℕ) (words : List Text)
    → view_seed_phrase world m w token now ≡ (after, ok words)
    → ((validate_and_consume m.reauth token now w Reauth.view_seed_phrase).1 ≡ none)
      × (watch_only_id w m.active_wallet ≡ false)
      × (stored_words world m w ≡ ok words)
      × ((events : List Event) (later : Manager S) (w' now' : ℕ)
          → All (Avoids token) events
          → later.reauth ≡ run after.reauth events
          → is_ok (view_seed_phrase world later w' token now').1 ≡ false)
view_seed_phrase_once world m after w token now words h =
    let (k, c, a, s) = viewed world m w token now after words h in
    (
      c,
      k,
      s,
      λ events later w' now' avoid same. refused world later w' token now' (
          ap (λ (t : Tokens). (validate_and_consume t token now' w' Reauth.view_seed_phrase).1)
            (same ∙ ap (λ (x : Manager _). run x.reauth events) a)
          ∙ validate_once m.reauth token now w Reauth.view_seed_phrase events now' w'
              Reauth.view_seed_phrase c avoid),
    )

module _ {ℓ} {S : Type ℓ} (world : World) (m after : Manager S) (w : ℕ) where
  issued :
      (token now expiry : ℕ) (k : Result (List ℕ))
      → issue_token m w token now Reauth.view_seed_phrase k ≡ (after, ok (token, expiry))
      → after ≡ record m { reauth = (issue m.reauth token now w Reauth.view_seed_phrase).0 }
  issued token now expiry (ok dek) h = sym (ap (λ (r : Manager S × Result (ℕ × ℕ)). r.0) h)
  issued token now expiry (err e) h =
      let f = ap (λ (r : Manager S × Result (ℕ × ℕ)). is_ok r.1) h in cc

  found-issue :
      (password : Text) (token now expiry : ℕ) (row : Option (WalletInfo × Text))
      → reauth_found world m w password token now Reauth.view_seed_phrase row
        ≡ (after, ok (token, expiry))
      → after ≡ record m { reauth = (issue m.reauth token now w Reauth.view_seed_phrase).0 }
  found-issue password token now expiry none h =
      let f = ap (λ (r : Manager S × Result (ℕ × ℕ)). is_ok r.1) h in cc
  found-issue password token now expiry (some (wallet, directory)) h =
      issued token now expiry (key_of_password world m w wallet.network password) h

  reauth-issue :
      (password : Text) (token now expiry : ℕ)
      → reauth_wallet world m w password token now Reauth.view_seed_phrase
        ≡ (after, ok (token, expiry))
      → after ≡ record m { reauth = (issue m.reauth token now w Reauth.view_seed_phrase).0 }
  unfolding reauth_wallet
  reauth-issue [] token now expiry h =
      let f = ap (λ (r : Manager S × Result (ℕ × ℕ)). is_ok r.1) h in cc
  reauth-issue (c ∷ password) token now expiry h =
      found-issue (c ∷ password) token now expiry (lookup w m.wallets) h

-- A token that a password just gave shows the phrase of that wallet for two minutes, if the wallet is
-- not watch-only, is unlocked and has a stored phrase.
pub reauth-view {ℓ} :
    {S : Type ℓ} (world : World) (m after : Manager S) (w : ℕ) (password : Text)
    (token expiry now later : ℕ) (words : List Text)
    → reauth_wallet world m w password token now Reauth.view_seed_phrase
      ≡ (after, ok (token, expiry))
    → later ≤ now + token_ttl
    → watch_only_id w m.active_wallet ≡ false
    → stored_words world m w ≡ ok words
    → (view_seed_phrase world after w token later).1 ≡ ok words
reauth-view {S} world m after w password token expiry now later words h t k s =
    let tokens = (issue m.reauth token now w Reauth.view_seed_phrase).0 in
    let given : Manager S = record m { reauth = tokens } in
    let same = reauth-issue world m after w password token now expiry h in
    let good : (validate_and_consume tokens token later w Reauth.view_seed_phrase).1 ≡ none =
      issue-validate m.reauth token now later w Reauth.view_seed_phrase ∙ ground (arith, t) in
    let spent = (validate_and_consume tokens token later w Reauth.view_seed_phrase).0 in
    ap (λ (x : Manager S). (view_seed_phrase world x w token later).1) same
    ∙ (ap (λ (r : Manager S × Result (List Text)). r.1)
          (view_lem world given w token later none good k)
        ∙ (stored_words_lem world given w token later spent
            ∙ (stored_words_lem world m w token later tokens ∙ s)))
