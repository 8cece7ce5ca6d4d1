-- ===== src/Reauth.antt =====
-- crates/zbag-engine/src/reauth.rs: the tokens that a fresh password check gives out. A token (a
-- `Uuid` in text) and a wallet id are numbers, a `SystemTime` is in nanoseconds since the epoch; the
-- clock's answer and the new token are arguments.
pub mod Tokens
use zbag_app_tauri.Base.{
  ℕ, ◌+◌, ◌*◌, Bool, true, false, not, ◌||◌, [], Option, none, some, ◌==◌, ltb, if◌then◌else◌,
}
use zbag_app_tauri.Base.Maps.{Map, lookup, insert}

pub data ReauthPurpose : Type 0 where
  spend view_seed_phrase : ReauthPurpose

abbrev pub purpose_eq : ReauthPurpose → ReauthPurpose → Bool
purpose_eq view_seed_phrase view_seed_phrase = true
purpose_eq view_seed_phrase spend = false
purpose_eq spend view_seed_phrase = false
purpose_eq spend spend = true

pub record TokenRecord : Type 0 where
  pub wallet_id : ℕ
  pub purpose : ReauthPurpose
  pub expires_at : ℕ
  pub used : Bool

pub data ReauthError : Type 0 where
  invalid expired : ReauthError

-- 120 seconds.
abbrev pub token_ttl : ℕ
token_ttl = 120 * 1000000000

abbrev pub Tokens : Type 0
Tokens = Map TokenRecord

unfoldable pub issue : Tokens → ℕ → ℕ → ℕ → ReauthPurpose → Tokens × ℕ
unfolding insert
issue tokens token issued_at wallet_id purpose =
    let expires_at = issued_at + token_ttl in
    (
      insert token
          (record {
            wallet_id = wallet_id;
            purpose = purpose;
            expires_at = expires_at;
            used = false;
          })
          tokens,
      expires_at,
    )

-- `none` is success.
abbrev pub consume :
    Tokens → ℕ → ℕ → ℕ → ReauthPurpose → Option TokenRecord → Tokens × Option ReauthError
consume tokens token now wallet_id purpose none = (tokens, some invalid)
consume tokens token now wallet_id purpose (some r) =
    if r.used
    then (tokens, some invalid)
    else (if not (r.wallet_id == wallet_id) || not (purpose_eq r.purpose purpose)
        then (tokens, some invalid)
        else (if ltb r.expires_at now
            then (tokens, some expired)
            else (insert token (record r { used = true }) tokens, none)))

unfoldable pub validate_and_consume :
    Tokens → ℕ → ℕ → ℕ → ReauthPurpose → Tokens × Option ReauthError
unfolding lookup insert
validate_and_consume tokens token now wallet_id purpose =
    consume tokens token now wallet_id purpose (lookup token tokens)
