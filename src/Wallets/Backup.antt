-- ===== src/Wallets/Backup.antt =====
-- The proof that a phrase was written down: `get_backup_challenge`, `issue_backup_challenge` and
-- `verify_backup` of crates/zbag-engine/src/wallet_manager.rs. The shuffled pool, the new id and the
-- clock are arguments.
pub mod Verified
pub mod Attempts
use zbag_app_tauri.Base.{
  ℕ, zero, suc, ◌+◌, ◌-◌, min, Bool, true, false, not, ◌&&◌, List, [], ◌∷◌, Option, none, some,
  Text, trim, text_eq, ascii_lowercase, length, get_elem?, take, leb, ltb, ◌==◌, if◌then◌else◌,
}
use zbag_app_tauri.Base.Int.{ℤ, saturating_add, lebℤ}
use zbag_app_tauri.Base.Maps.{Map, lookup, insert, remove}
use zbag_app_tauri.Base.Results.{
  Result, ok, err, wallet_not_found, internal_error, watch_only_no_backup, backup_challenge_invalid,
  backup_challenge_expired, backup_challenge_too_many_attempts,
}
use zbag_app_tauri.Wallets.{WalletInfo, BackupChallengeState, Manager, World, watch_only_id}
use zbag_app_tauri.Wallets.Access.{stored_words}

abbrev pub sorted_insert : ℕ → List ℕ → List ℕ
sorted_insert n [] = n ∷ []
sorted_insert n (k ∷ ks) =
    let later = sorted_insert n ks in if leb n k then n ∷ (k ∷ ks) else k ∷ later

unfoldable pub sort : List ℕ → List ℕ
sort [] = []
sort (n ∷ ns) = sorted_insert n (sort ns)

-- Ten minutes.
abbrev pub challenge_ttl_ms : ℕ
challenge_ttl_ms = 600000

abbrev pub max_failed_attempts : ℕ
max_failed_attempts = 5

-- `actual.trim().eq_ignore_ascii_case(expected)`.
unfoldable pub same_word : Text → Text → Bool
unfolding trim text_eq ascii_lowercase
same_word actual expected = text_eq (ascii_lowercase (trim actual)) (ascii_lowercase expected)

abbrev pub same_words : Option Text → Option Text → Bool
same_words none actual = false
same_words (some expected) none = false
same_words (some expected) (some actual) = same_word actual expected

-- `checked_sub(1)` and the word at that place.
abbrev pub expected_word : List Text → ℕ → Option Text
expected_word words zero = none
expected_word words (suc i) = get_elem? words i

-- The loop over the indices: every one is looked at.
unfoldable pub check_words : List Text → Map Text → List ℕ → Bool
unfolding lookup same_word
check_words words word_challenges [] = true
check_words words word_challenges (index ∷ indices) =
    same_words (expected_word words index) (lookup index word_challenges)
    && check_words words word_challenges indices

module _ {ℓ} {S : Type ℓ} where
  abbrev pub issue_challenge :
      Manager S
      → ℕ
      → List ℕ
      → ℕ
      → ℤ
      → Option (WalletInfo × Text)
      → Manager S × Result BackupChallengeState
  issue_challenge m wallet_id pool challenge_id now_ms none = (m, err wallet_not_found)
  issue_challenge m wallet_id pool challenge_id now_ms (some row) =
      let state : BackupChallengeState = record {
        challenge_id = challenge_id;
        indices = sort (take 4 pool);
        expires_at = saturating_add now_ms challenge_ttl_ms;
        failed_attempts = 0;
      } in
      (record m { backup_challenges = insert wallet_id state m.backup_challenges }, ok state)

  unfoldable pub issue_backup_challenge :
      Manager S → ℕ → List ℕ → ℕ → ℤ → Manager S × Result BackupChallengeState
  unfolding lookup insert sort
  issue_backup_challenge m wallet_id pool challenge_id now_ms =
      issue_challenge m wallet_id pool challenge_id now_ms (lookup wallet_id m.wallets)

  unfoldable pub get_backup_challenge :
      Manager S → ℕ → List ℕ → ℕ → ℤ → Manager S × Result BackupChallengeState
  unfolding issue_backup_challenge
  get_backup_challenge m wallet_id pool challenge_id now_ms =
      if watch_only_id wallet_id m.active_wallet
      then (m, err watch_only_no_backup)
      else issue_backup_challenge m wallet_id pool challenge_id now_ms

  abbrev pub drop_challenge : Manager S → ℕ → Manager S
  drop_challenge m wallet_id = record m { backup_challenges = remove wallet_id m.backup_challenges }

  abbrev pub set_challenge : Manager S → ℕ → BackupChallengeState → Manager S
  set_challenge m wallet_id state = record m {
    backup_challenges = insert wallet_id state m.backup_challenges;
  }

  abbrev pub complete : Manager S → ℕ → Manager S
  complete m wallet_id = record (drop_challenge m wallet_id) {
    backup_required = insert wallet_id false m.backup_required;
  }

  -- A wrong answer counts, and the fifth ends the challenge.
  abbrev pub count_failure : Manager S → ℕ → BackupChallengeState → Manager S × Result (Unit {0})
  count_failure m wallet_id state =
      let attempts = min (state.failed_attempts + 1) 255 in
      if leb max_failed_attempts attempts
      then (drop_challenge m wallet_id, err backup_challenge_too_many_attempts)
      else (
        set_challenge m wallet_id (record state { failed_attempts = attempts }),
        err backup_challenge_invalid,
      )

  abbrev pub judge :
      Manager S
      → ℕ
      → BackupChallengeState
      → Map Text
      → Result (List Text)
      → Manager S × Result (Unit {0})
  judge m wallet_id state word_challenges (err e) = (m, err e)
  judge m wallet_id state word_challenges (ok words) =
      if not (length words == 24)
      then (m, err internal_error)
      else (if check_words words word_challenges state.indices
          then (complete m wallet_id, ok tt)
          else count_failure m wallet_id state)

  abbrev pub answer_challenge :
      World
      → Manager S
      → ℕ
      → ℕ
      → Map Text
      → ℤ
      → Option BackupChallengeState
      → Manager S × Result (Unit {0})
  answer_challenge world m wallet_id challenge_id word_challenges now_ms none =
      (m, err backup_challenge_invalid)
  answer_challenge world m wallet_id challenge_id word_challenges now_ms (some state) =
      if not (state.challenge_id == challenge_id)
      then (m, err backup_challenge_invalid)
      else (if not (lebℤ now_ms state.expires_at)
          then (drop_challenge m wallet_id, err backup_challenge_expired)
          else (if leb max_failed_attempts state.failed_attempts
              then (drop_challenge m wallet_id, err backup_challenge_too_many_attempts)
              else judge m wallet_id state word_challenges (stored_words world m wallet_id)))

  unfoldable pub verify_backup :
      World → Manager S → ℕ → ℕ → Map Text → ℤ → Manager S × Result (Unit {0})
  unfolding lookup insert remove check_words stored_words
  verify_backup world m wallet_id challenge_id word_challenges now_ms =
      if watch_only_id wallet_id m.active_wallet
      then (m, err watch_only_no_backup)
      else answer_challenge world m wallet_id challenge_id word_challenges now_ms
          (lookup wallet_id m.backup_challenges)
