-- ===== src/Wallets/Backup/Attempts.antt =====
-- How often a challenge can be answered wrongly.
use zbag_app_tauri.Base.{
  ℕ, suc, ◌+◌, ◌<◌, ◌≡◌, refl, ap, ◌∙◌, min, true, false, List, [], ◌∷◌, Option, none, some, arith,
  Text, length, All, ==_refl, ltb, leb, by_test, leb→gt, if◌then◌else◌,
}
use zbag_app_tauri.Base.Int.{ℤ, lebℤ}
use zbag_app_tauri.Base.Maps.{Map, lookup, lookup-insert, lookup-remove}
use zbag_app_tauri.Base.Results.{Result, ok, err, backup_challenge_invalid}
use zbag_app_tauri.Wallets.{
  BackupChallengeState, Manager, World, watch_only_id, require_unlocked_wallet_snapshot,
}
use zbag_app_tauri.Wallets.Access.{stored_words, decrypt_mnemonic}
use zbag_app_tauri.Wallets.Backup.{
  check_words, max_failed_attempts, count_failure, verify_backup, drop_challenge, set_challenge,
}

-- In time, and wrong.
abbrev pub IsWrong : List Text → BackupChallengeState → Map Text × ℤ → Type 0
IsWrong words state call =
    (check_words words call.0 state.indices ≡ false) × (lebℤ call.1 state.expires_at ≡ true)

-- The challenge after so many more failures.
abbrev pub failed_more : BackupChallengeState → ℕ → Option BackupChallengeState
failed_more state n =
    if ltb (state.failed_attempts + n) max_failed_attempts
    then some (record state { failed_attempts = state.failed_attempts + n })
    else none

abbrev pub one_more : BackupChallengeState → BackupChallengeState
one_more state = record state { failed_attempts = min (state.failed_attempts + 1) 255 }

failed_more-suc :
    (state : BackupChallengeState) (n : ℕ)
    → state.failed_attempts < max_failed_attempts
    → failed_more (one_more state) n ≡ failed_more state (suc n)
failed_more-suc state n a =
    let one : min (state.failed_attempts + 1) 255 ≡ state.failed_attempts + 1 = omega (arith, a) in
    let sum : state.failed_attempts + 1 + n ≡ state.failed_attempts + suc n = omega arith in
    rw (one, sum) refl

module _ {ℓ} {S : Type ℓ} (world : World) (wallet_id challenge_id : ℕ) where
  -- The calls one after the other, each with its answers and the time.
  unfoldable pub verify_all : Manager S → List (Map Text × ℤ) → Manager S
  unfolding verify_backup
  verify_all m [] = m
  verify_all m ((answers, now_ms) ∷ calls) =
      verify_all (verify_backup world m wallet_id challenge_id answers now_ms).0 calls

  abbrev pub challenge : Manager S → Option BackupChallengeState
  challenge m = lookup wallet_id m.backup_challenges

  -- The challenge stands for an unlocked wallet with a phrase of these 24 words.
  record IsOpen (m : Manager S) (words : List Text) : Type 0 where
    seed_kept : watch_only_id wallet_id m.active_wallet ≡ false
    words_lem : stored_words world m wallet_id ≡ ok words
    length_lem : length words ≡ 24

  no_challenge :
      (m : Manager S) (answers : Map Text) (now_ms : ℤ)
      → watch_only_id wallet_id m.active_wallet ≡ false
      → challenge m ≡ none
      → verify_backup world m wallet_id challenge_id answers now_ms
        ≡ (m, err backup_challenge_invalid)
  unfolding verify_backup
  no_challenge m answers now_ms k e = rw (k, e) refl

  gone :
      (m : Manager S) (calls : List (Map Text × ℤ))
      → watch_only_id wallet_id m.active_wallet ≡ false
      → challenge m ≡ none
      → challenge (verify_all m calls) ≡ none
  unfolding verify_all
  gone m [] k e = e
  gone m ((answers, now_ms) ∷ calls) k e =
      ap (λ (r : Manager S × Result (Unit {0})). challenge (verify_all r.0 calls))
        (no_challenge m answers now_ms k e)
      ∙ gone m calls k e

  -- One wrong answer.
  one_wrong :
      (m : Manager S) (words : List Text) (state : BackupChallengeState) (call : Map Text × ℤ)
      → IsOpen m words
      → challenge m ≡ some state
      → state.challenge_id ≡ challenge_id
      → state.failed_attempts < max_failed_attempts
      → IsWrong words state call
      → verify_backup world m wallet_id challenge_id call.0 call.1 ≡ count_failure m wallet_id state
  unfolding verify_backup
  one_wrong m words state call o e i a w =
      rw (o.seed_kept, e, i, ==_refl challenge_id, w.1, o.words_lem, o.length_lem, w.0)
        (ground (arith, a))

  set-IsOpen :
      (m : Manager S) (words : List Text) (state : BackupChallengeState)
      → IsOpen m words
      → IsOpen (set_challenge m wallet_id state) words
  unfolding stored_words require_unlocked_wallet_snapshot decrypt_mnemonic
  set-IsOpen m words state o = record {
    seed_kept = o.seed_kept;
    words_lem = o.words_lem;
    length_lem = o.length_lem;
  }

  dropped : (m : Manager S) → challenge (drop_challenge m wallet_id) ≡ none
  dropped m = lookup-remove wallet_id wallet_id m.backup_challenges ∙ rw (==_refl wallet_id) refl

  kept :
      (m : Manager S) (state : BackupChallengeState)
      → challenge (set_challenge m wallet_id state) ≡ some state
  kept m state =
      lookup-insert wallet_id wallet_id state m.backup_challenges ∙ rw (==_refl wallet_id) refl

  wrong_answers_lem :
      (m : Manager S) (words : List Text) (state : BackupChallengeState)
      (calls : List (Map Text × ℤ))
      → IsOpen m words
      → challenge m ≡ some state
      → state.challenge_id ≡ challenge_id
      → state.failed_attempts < max_failed_attempts
      → All (IsWrong words state) calls
      → challenge (verify_all m calls) ≡ failed_more state (length calls)
  unfolding verify_all
  wrong_answers_lem m words state [] o e i a w =
      let same : state.failed_attempts + 0 ≡ state.failed_attempts = omega arith in
      e ∙ ground (arith, a, same)
  wrong_answers_lem m words state ((answers, now_ms) ∷ calls) o e i a w =
      let step : (verify_backup world m wallet_id challenge_id answers now_ms).0
          ≡ (count_failure m wallet_id state).0 =
        ap (λ (r : Manager S × Result (Unit {0})). r.0)
          (one_wrong m words state (answers, now_ms) o e i a w.0) in
      ap (λ (x : Manager S). challenge (verify_all x calls)) step
      ∙ by_test
          (λ (r : Manager S × Result (Unit {0})).
            challenge (verify_all r.0 calls) ≡ failed_more state (suc (length calls)))
          (leb max_failed_attempts (min (state.failed_attempts + 1) 255)) _ _
          (λ b. gone (drop_challenge m wallet_id) calls o.seed_kept (dropped m) ∙ ground (arith, b))
          (λ b.
            let next = one_more state in
            wrong_answers_lem (set_challenge m wallet_id next) words next calls
              (set-IsOpen m words next o) (kept m next) i (leb→gt 5 _ b) w.1
            ∙ failed_more-suc state (length calls) a)

  -- Wrong answers to an open challenge, for an unlocked wallet with a phrase of 24 words, are counted one
  -- by one; the challenge stands with its count as long as that is below five, and is gone from
  -- the fifth on.
  pub wrong_answers :
      (m : Manager S) (words : List Text) (state : BackupChallengeState)
      (calls : List (Map Text × ℤ))
      → watch_only_id wallet_id m.active_wallet ≡ false
      → stored_words world m wallet_id ≡ ok words
      → length words ≡ 24
      → challenge m ≡ some state
      → state.challenge_id ≡ challenge_id
      → state.failed_attempts < max_failed_attempts
      → All (IsWrong words state) calls
      → challenge (verify_all m calls) ≡ failed_more state (length calls)
  wrong_answers m words state calls k w l e i a wrong =
      wrong_answers_lem m words state calls
        (record { seed_kept = k; words_lem = w; length_lem = l }) e i a wrong
