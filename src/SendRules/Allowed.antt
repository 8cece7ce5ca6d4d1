-- ===== src/SendRules/Allowed.antt =====
-- Which sends the checks let through.
use zbag_app_tauri.Base.{
  ℕ, ◌≤◌, ◌≡◌, ◌≢◌, ◌↔◌, ◌⊎◌, inl, inr, refl, Bool, true, false, List, Option, none, some, Text,
  text_eq→eq, text_eq_refl, length, arith,
}
use zbag_app_tauri.Base.Results.{ok}
use zbag_app_tauri.SendRules.{
  RecipientKind, orchard, sapling, transparent, enforce_privacy_and_memo_rules, hardware_signer,
  watch_only, ensure_spend_allowed_conn,
}

abbrev pub memo_length : Option (List ℕ) → ℕ
memo_length none = 0
memo_length (some memo) = length memo

-- The rules let a send through exactly if its recipient is shielded, or there is no memo and the
-- transparent recipient was acknowledged, and a memo has at most 512 bytes.
pub enforce_privacy_and_memo_rules-ok_iff :
    (kind : RecipientKind) (memo : Option (List ℕ)) (allow : Bool)
    → (enforce_privacy_and_memo_rules kind memo allow ≡ ok tt)
      ↔ (((kind ≢ transparent) ⊎ ((memo ≡ none) × (allow ≡ true))) × (memo_length memo ≤ 512))
unfolding enforce_privacy_and_memo_rules
enforce_privacy_and_memo_rules-ok_iff orchard none allow =
    (λ h. (inl (λ e. cc), omega arith), λ h. refl)
enforce_privacy_and_memo_rules-ok_iff orchard (some m) allow =
    (λ h. (inl (λ e. cc), ground arith), λ h. ground arith)
enforce_privacy_and_memo_rules-ok_iff sapling none allow =
    (λ h. (inl (λ e. cc), omega arith), λ h. refl)
enforce_privacy_and_memo_rules-ok_iff sapling (some m) allow =
    (λ h. (inl (λ e. cc), ground arith), λ h. ground arith)
enforce_privacy_and_memo_rules-ok_iff transparent none allow =
    (λ h. (inr (refl, ground arith), omega arith), λ h. ground arith)
enforce_privacy_and_memo_rules-ok_iff transparent (some m) allow =
    (λ h. ground arith, λ h. ground arith)

-- An account may spend exactly if the wallet's backup is recorded as not required, the account is
-- known, and it is neither a hardware signer's nor a watch-only one.
pub ensure_spend_allowed_conn-ok_iff :
    (backup : Option Bool) (account : Option Text)
    → (ensure_spend_allowed_conn backup account ≡ ok tt) ↔ (
        (backup ≡ some false)
        × ((t : Text) × (account ≡ some t) × (t ≢ hardware_signer) × (t ≢ watch_only)))
unfolding ensure_spend_allowed_conn
ensure_spend_allowed_conn-ok_iff none account = (λ h. ground arith, λ h. ground arith)
ensure_spend_allowed_conn-ok_iff (some true) account = (λ h. ground arith, λ h. ground arith)
ensure_spend_allowed_conn-ok_iff (some false) none = (λ h. ground arith, λ h. ground arith)
ensure_spend_allowed_conn-ok_iff (some false) (some t) = (
  λ h. (
    refl,
    (t, refl, (λ e. ground (arith, e, text_eq_refl t)), (λ e. ground (arith, e, text_eq_refl t))),
  ),
  λ h. ground (arith, text_eq→eq t hardware_signer, text_eq→eq t watch_only),
)
