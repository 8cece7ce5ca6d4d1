-- ===== src/Wallets/Backup/Verified.antt =====
-- What a backup that counts as verified was.
use zbag_app_tauri.Base.{
  ℕ, ◌<◌, ◌≡◌, refl, Bool, true, false, List, [], ◌∷◌, Option, none, some, arith, Text, length, All,
  ==→eq, ==_refl, leb, leb→gt, ◌==◌, Bool-cases, inl, inr, ap, sym, ◌∙◌,
}
use zbag_app_tauri.Base.Int.{ℤ, lebℤ}
use zbag_app_tauri.Base.Maps.{Map, lookup, lookup-insert, lookup-remove}
use zbag_app_tauri.Base.Results.{Result, ok, err}
use zbag_app_tauri.Wallets.{BackupChallengeState, Manager, World, watch_only_id}
use zbag_app_tauri.Wallets.Access.{stored_words}
use zbag_app_tauri.Wallets.Backup.{
  same_word, same_words, expected_word, check_words, max_failed_attempts, count_failure, judge,
  answer_challenge, verify_backup, complete,
}

-- An answer for the place was given, and it is the phrase's word at that place.
abbrev pub IsAnswered : List Text → Map Text → ℕ → Type 0
IsAnswered words answers index =
    (expected : Text) × (actual : Text) × (expected_word words index ≡ some expected)
    × (lookup index answers ≡ some actual)
    × (same_word actual expected ≡ true)

same_words_lem :
    (expected actual : Option Text)
    → same_words expected actual ≡ true
    → (e : Text) × (a : Text) × (expected ≡ some e) × (actual ≡ some a) × (same_word a e ≡ true)
same_words_lem none actual h = cc
same_words_lem (some e) none h = cc
same_words_lem (some e) (some a) h = (e, a, refl, refl, h)

check_words_lem :
    (words : List Text) (answers : Map Text) (indices : List ℕ)
    → check_words words answers indices ≡ true
    → All (IsAnswered words answers) indices
unfolding check_words
check_words_lem words answers [] h = tt
check_words_lem words answers (index ∷ indices) h = (
  same_words_lem (expected_word words index) (lookup index answers) (ground (arith, h)),
  check_words_lem words answers indices (ground (arith, h)),
)

abbrev pub is_ok {ℓ} : {A : Type ℓ} → Result A → Bool
is_ok (ok a) = true
is_ok (err e) = false

count_failure_err {ℓ} :
    {S : Type ℓ} (m : Manager S) (wallet_id : ℕ) (state : BackupChallengeState)
    → is_ok (count_failure m wallet_id state).1 ≡ false
count_failure_err m wallet_id state = ground arith

-- What a judged answer was, if it is accepted.
judge-ok {ℓ} :
    {S : Type ℓ} (m after : Manager S) (wallet_id : ℕ) (state : BackupChallengeState)
    (answers : Map Text) (words : List Text)
    → judge m wallet_id state answers (ok words) ≡ (after, ok tt)
    → (length words ≡ 24)
      × (check_words words answers state.indices ≡ true)
      × (after ≡ complete m wallet_id)
judge-ok {S} m after wallet_id state answers words h =
    let accepted : is_ok (judge m wallet_id state answers (ok words)).1 ≡ true =
      ap (λ (r : Manager S × Result (Unit {0})). is_ok r.1) h in
    let kept = ap (λ (r : Manager S × Result (Unit {0})). r.0) h in
    elim (Bool-cases (length words == 24)) [
      | inr e ↦ absurd (ground (arith, accepted, e))
      | inl e ↦ elim (Bool-cases (check_words words answers state.indices)) [
        | inr f ↦ absurd (ground (arith, accepted, e, f, count_failure_err m wallet_id state))
        | inl f ↦ (==→eq (length words) 24 e, f, sym kept ∙ rw (e, f) refl)
      ]
    ]

module _ {ℓ} {S : Type ℓ} (world : World) (m : Manager S) (wallet_id challenge_id : ℕ) where
  -- What was true when the call was made, and what it leaves.
  pub record IsVerified (answers : Map Text) (now_ms : ℤ) (after : Manager S) : Type ℓ where
    pub state : BackupChallengeState
    pub words : List Text
    pub state_lem : lookup wallet_id m.backup_challenges ≡ some state
    pub id_lem : state.challenge_id ≡ challenge_id
    pub in_time : lebℤ now_ms state.expires_at ≡ true
    pub attempts_left : state.failed_attempts < max_failed_attempts
    pub words_lem : stored_words world m wallet_id ≡ ok words
    pub length_lem : length words ≡ 24
    pub answered : All (IsAnswered words answers) state.indices
    pub seed_kept : watch_only_id wallet_id m.active_wallet ≡ false
    pub after_lem : after ≡ complete m wallet_id
    pub no_longer_required : lookup wallet_id after.backup_required ≡ some false
    pub challenge_gone : lookup wallet_id after.backup_challenges ≡ none

  judge-IsVerified :
      (answers : Map Text) (now_ms : ℤ) (after : Manager S) (state : BackupChallengeState)
      → lookup wallet_id m.backup_challenges ≡ some state
      → (r : Result (List Text)) → stored_words world m wallet_id ≡ r
      → state.challenge_id ≡ challenge_id
      → lebℤ now_ms state.expires_at ≡ true
      → state.failed_attempts < max_failed_attempts
      → watch_only_id wallet_id m.active_wallet ≡ false
      → judge m wallet_id state answers r ≡ (after, ok tt)
      → IsVerified answers now_ms after
  judge-IsVerified answers now_ms after state s (err e) w i t a k h = cc
  judge-IsVerified answers now_ms after state s (ok words) w i t a k h =
      let (len, checks, same) = judge-ok m after wallet_id state answers words h in
      record {
        state = state;
        words = words;
        state_lem = s;
        id_lem = i;
        in_time = t;
        attempts_left = a;
        words_lem = w;
        length_lem = len;
        answered = check_words_lem words answers state.indices checks;
        seed_kept = k;
        after_lem = same;
        no_longer_required =
            ap (λ (x : Manager S). lookup wallet_id x.backup_required) same
            ∙ (lookup-insert wallet_id wallet_id false m.backup_required
                ∙ rw (==_refl wallet_id) refl);
        challenge_gone =
            ap (λ (x : Manager S). lookup wallet_id x.backup_challenges) same
            ∙ (lookup-remove wallet_id wallet_id m.backup_challenges ∙ rw (==_refl wallet_id) refl);
      }

  answer-IsVerified :
      (answers : Map Text) (now_ms : ℤ) (after : Manager S)
      → watch_only_id wallet_id m.active_wallet ≡ false
      → (challenge : Option BackupChallengeState) → lookup wallet_id m.backup_challenges ≡ challenge
      → answer_challenge world m wallet_id challenge_id answers now_ms challenge ≡ (after, ok tt)
      → IsVerified answers now_ms after
  answer-IsVerified answers now_ms after k none s h =
      let accepted = ap (λ (r : Manager S × Result (Unit {0})). is_ok r.1) h in cc
  answer-IsVerified answers now_ms after k (some state) s h =
      let accepted : is_ok
            (answer_challenge world m wallet_id challenge_id answers now_ms (some state)).1
          ≡ true =
        ap (λ (r : Manager S × Result (Unit {0})). is_ok r.1) h in
      elim (Bool-cases (state.challenge_id == challenge_id)) [
        | inr e ↦ absurd (ground (arith, accepted, e))
        | inl e ↦ elim (Bool-cases (lebℤ now_ms state.expires_at)) [
          | inr t ↦ absurd (ground (arith, accepted, e, t))
          | inl t ↦ elim (Bool-cases (leb max_failed_attempts state.failed_attempts)) [
            | inl a ↦ absurd (ground (arith, accepted, e, t, a))
            | inr a ↦
                judge-IsVerified answers now_ms after state s (stored_words world m wallet_id) refl
                  (==→eq state.challenge_id challenge_id e) t
                  (leb→gt max_failed_attempts state.failed_attempts a) k ((rw (e, t, a) refl) ∙ h)
          ]
        ]
      ]

  -- A call that accepts the backup had, for a wallet that is not watch-only and is unlocked, a challenge
  -- under the id given, in time and with fewer than five failures, a stored phrase of 24 words, and for
  -- each of the challenge's places the phrase's word, up to white space around it and the case of ASCII
  -- letters; the backup is then no longer required, the challenge is gone, and nothing else changed.
  pub verify_backup-IsVerified :
      (answers : Map Text) (now_ms : ℤ) (after : Manager S)
      → verify_backup world m wallet_id challenge_id answers now_ms ≡ (after, ok tt)
      → IsVerified answers now_ms after
  unfolding verify_backup
  verify_backup-IsVerified answers now_ms after h =
      elim (Bool-cases (watch_only_id wallet_id m.active_wallet)) [
        | inl e ↦
            let accepted = ap (λ (r : Manager S × Result (Unit {0})). is_ok r.1) h in
            absurd (ground (arith, accepted, e))
        | inr e ↦
            let found = lookup wallet_id m.backup_challenges in
            let same : verify_backup world m wallet_id challenge_id answers now_ms
                ≡ answer_challenge world m wallet_id challenge_id answers now_ms found =
              rw e refl in
            answer-IsVerified answers now_ms after e found refl (sym same ∙ h)
      ]
