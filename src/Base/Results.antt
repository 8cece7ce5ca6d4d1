-- ===== src/Base/Results.antt =====
-- Fallible code: `anyhow::Result` with the error codes of crates/zbag-core/src/errors.rs.
use mathlib.Core.Bool.{Bool, true, false}
use mathlib.Core.Option.{Option, none, some}
use mathlib.Core.Path.{◌≡◌, refl}

-- The codes that the modelled operations return; `io_error` is an error of the file system, of the
-- database or of a decoder, which carries no code.
pub data ErrorCode : Type 0 where
  wallet_not_found wallet_locked invalid_wallet_password backup_required backup_challenge_invalid :
      ErrorCode
  backup_challenge_expired backup_challenge_too_many_attempts : ErrorCode
  reauth_token_invalid reauth_token_expired reauth_required : ErrorCode
  watch_only_no_seed watch_only_no_backup tor_not_ready : ErrorCode
  account_not_found watch_only_cannot_spend transaction_failed memo_too_long : ErrorCode
  proposal_not_found proposal_expired queued_broadcast_not_found : ErrorCode
  privacy_ack_required memo_not_allowed sync_in_progress : ErrorCode
  transparent_spend_blocked insufficient_funds invalid_recipient : ErrorCode
  quote_expired swap_failed invalid_asset swap_unsupported_network : ErrorCode
  invalid_seed_phrase invalid_ufvk : ErrorCode
  invalid_request internal_error io_error : ErrorCode

pub data Result {ℓ} (A : Type ℓ) : Type ℓ where
  ok : A → Result A
  err : ErrorCode → Result A

-- `?`: the error of the first step is the error of the whole.
abbrev pub ◌>>=◌ {ℓ ℓ'} : {A : Type ℓ} {B : Type ℓ'} → Result A → (A → Result B) → Result B
◌>>=◌ r next = elim r [ err code ↦ err code | ok a ↦ next a ]

abbrev pub ◌>>◌ {ℓ} : {A : Type ℓ} → Result (Unit {0}) → Result A → Result A
◌>>◌ r next = elim r [ err code ↦ err code | ok u ↦ next ]

infixl 5 ◌>>=◌ ◌>>◌
-- Fails with `e` if the test holds.
abbrev pub fail_if : Bool → ErrorCode → Result (Unit {0})
fail_if true e = err e
fail_if false e = ok tt

-- `ok_or_else`.
abbrev pub ok_or {ℓ} : {A : Type ℓ} → Option A → ErrorCode → Result A
ok_or none e = err e
ok_or (some a) e = ok a

-- What the first step of a successful chain was.
pub bind_ok {ℓ ℓ'} :
    {A : Type ℓ} {B : Type ℓ'} (r : Result A) (f : A → Result B) (b : B)
    → (r >>= f) ≡ ok b
    → (a : A) × (r ≡ ok a) × (f a ≡ ok b)
bind_ok (ok a) f b h = (a, refl, h)
bind_ok (err e) f b h = cc

pub fail_if_ok {ℓ} :
    {A : Type ℓ} (b : Bool) (e : ErrorCode) (r : Result A) (a : A)
    → (fail_if b e >> r) ≡ ok a
    → (b ≡ false) × (r ≡ ok a)
fail_if_ok true e r a h = cc
fail_if_ok false e r a h = (refl, h)

pub then_ok {ℓ} :
    {A : Type ℓ} (s : Result (Unit {0})) (r : Result A) (a : A)
    → (s >> r) ≡ ok a
    → (s ≡ ok tt) × (r ≡ ok a)
then_ok (ok tt) r a h = (refl, h)
then_ok (err e) r a h = cc

pub ok_or_ok {ℓ} :
    {A : Type ℓ} (o : Option A) (e : ErrorCode) (a : A) → ok_or o e ≡ ok a → o ≡ some a
ok_or_ok none e a h = cc
ok_or_ok (some b) e a h = cc

pub ok_injective {ℓ} : {A : Type ℓ} (a b : A) → ok a ≡ ok b → a ≡ b
ok_injective a b h = cc
