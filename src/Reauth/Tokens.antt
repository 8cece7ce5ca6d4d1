-- ===== src/Reauth/Tokens.antt =====
-- A token is good once, for its wallet and purpose, for two minutes.
use zbag_app_tauri.Base.{
  ℕ, ◌+◌, ◌≡◌, ◌≢◌, refl, Bool, true, false, List, [], ◌∷◌, Option, none, some, arith, ==_refl,
  ==_ne, All, Option-cases, inl, inr, ltb, if◌then◌else◌,
}
use zbag_app_tauri.Base.Maps.{lookup, lookup-insert}
use zbag_app_tauri.Reauth.{
  ReauthPurpose, spend, view_seed_phrase, purpose_eq, TokenRecord, invalid, expired, token_ttl,
  Tokens, issue, validate_and_consume,
}

purpose_eq_refl : (p : ReauthPurpose) → purpose_eq p p ≡ true
purpose_eq_refl spend = refl
purpose_eq_refl view_seed_phrase = refl

-- A token just issued is accepted for its wallet and purpose as long as the clock has not passed two
-- minutes, and is reported as expired from then on.
pub issue-validate :
    (tokens : Tokens) (token issued_at now wallet_id : ℕ) (purpose : ReauthPurpose)
    → (validate_and_consume
        (issue tokens token issued_at wallet_id purpose).0
        token
        now
        wallet_id
        purpose).1
      ≡ (if ltb (issued_at + token_ttl) now then some expired else none)
unfolding validate_and_consume issue
issue-validate tokens token issued_at now wallet_id purpose =
    rw
      (
        lookup-insert token token
            (record {
              wallet_id = wallet_id;
              purpose = purpose;
              expires_at = issued_at + token_ttl;
              used = false;
            })
            tokens,
        ==_refl token,
      )
      (ground (arith, ==_refl wallet_id, purpose_eq_refl purpose))

-- The token is spent.
abbrev pub is_used : Option TokenRecord → Bool
is_used none = false
is_used (some r) = r.used

-- A call that accepts a token spends it.
validate-is_used :
    (tokens : Tokens) (token now wallet_id : ℕ) (purpose : ReauthPurpose)
    → (validate_and_consume tokens token now wallet_id purpose).1 ≡ none
    → is_used (lookup token (validate_and_consume tokens token now wallet_id purpose).0) ≡ true
unfolding validate_and_consume
validate-is_used tokens token now wallet_id purpose h = elim (Option-cases (lookup token tokens)) [
  | inl e ↦ ground (arith, e)
  | inr (r, e) ↦
      ground (arith, e, lookup-insert token token (record r { used = true }) tokens, ==_refl token)
]

-- What can happen to the tokens; `issues` draws a new token.
pub data Event : Type 0 where
  issues : (token issued_at wallet_id : ℕ) → ReauthPurpose → Event
  validates : (token now wallet_id : ℕ) → ReauthPurpose → Event

unfoldable pub run : Tokens → List Event → Tokens
run tokens [] = tokens
run tokens (issues token t w p ∷ rest) = run (issue tokens token t w p).0 rest
run tokens (validates token t w p ∷ rest) = run (validate_and_consume tokens token t w p).0 rest

-- The event does not draw this token.
abbrev pub Avoids : ℕ → Event → Type 0
Avoids token (issues other t w p) = other ≢ token
Avoids token (validates other t w p) = Unit {0}

issue-is_used :
    (tokens : Tokens) (token other t w : ℕ) (p : ReauthPurpose)
    → other ≢ token
    → is_used (lookup token tokens) ≡ true
    → is_used (lookup token (issue tokens other t w p).0) ≡ true
unfolding issue
issue-is_used tokens token other t w p ne h =
    rw
      (
        lookup-insert other token
            (record { wallet_id = w; purpose = p; expires_at = t + token_ttl; used = false })
            tokens,
        ==_ne other token ne,
      )
      h

validate-keeps_used :
    (tokens : Tokens) (token other t w : ℕ) (p : ReauthPurpose)
    → is_used (lookup token tokens) ≡ true
    → is_used (lookup token (validate_and_consume tokens other t w p).0) ≡ true
unfolding validate_and_consume
validate-keeps_used tokens token other t w p h = elim (Option-cases (lookup other tokens)) [
  | inl e ↦ ground (arith, e)
  | inr (r, e) ↦ ground (arith, e, lookup-insert other token (record r { used = true }) tokens)
]

run-is_used :
    (tokens : Tokens) (token : ℕ) (events : List Event)
    → All (Avoids token) events
    → is_used (lookup token tokens) ≡ true
    → is_used (lookup token (run tokens events)) ≡ true
unfolding run
run-is_used tokens token [] a h = h
run-is_used tokens token (issues other t w p ∷ rest) a h =
    run-is_used (issue tokens other t w p).0 token rest a.1
      (issue-is_used tokens token other t w p a.0 h)
run-is_used tokens token (validates other t w p ∷ rest) a h =
    run-is_used (validate_and_consume tokens other t w p).0 token rest a.1
      (validate-keeps_used tokens token other t w p h)

validate_of_used :
    (tokens : Tokens) (token now wallet_id : ℕ) (purpose : ReauthPurpose)
    → is_used (lookup token tokens) ≡ true
    → validate_and_consume tokens token now wallet_id purpose ≡ (tokens, some invalid)
unfolding validate_and_consume
validate_of_used tokens token now wallet_id purpose h = ground arith

-- Once a token was accepted it is never accepted again, for any wallet and purpose, whatever
-- happens in between, as long as no later draw gives the same token.
pub validate_once :
    (tokens : Tokens) (token now wallet_id : ℕ) (purpose : ReauthPurpose) (events : List Event)
    (later wallet_id' : ℕ) (purpose' : ReauthPurpose)
    → (validate_and_consume tokens token now wallet_id purpose).1 ≡ none
    → All (Avoids token) events
    → (validate_and_consume
        (run (validate_and_consume tokens token now wallet_id purpose).0 events)
        token
        later
        wallet_id'
        purpose').1
      ≡ some invalid
validate_once tokens token now wallet_id purpose events later wallet_id' purpose' h a = rw (
    validate_of_used _ token later wallet_id' purpose'
      (run-is_used _ token events a (validate-is_used tokens token now wallet_id purpose h)))
