-- ===== src/Examples/Backups.antt =====
-- A challenge that is answered, rightly and wrongly.
use zbag_app_tauri.Base.{
  ◌≡◌, refl, List, [], ◌∷◌, arith, Text, text, text_eq, trim, length, ascii_lowercase,
}
use zbag_app_tauri.Base.Int.{ℤ, pos}
use zbag_app_tauri.Base.Maps.{Map, lookup}
use zbag_app_tauri.Base.Results.{ok}
use zbag_app_tauri.Examples.Toy.{crypto}
use zbag_app_tauri.Examples.Wallets.{world, manager, open_wallet, words}
use zbag_app_tauri.Wallets.{BackupChallengeState, Manager}
use zbag_app_tauri.Wallets.Access.{stored_words}
use zbag_app_tauri.Wallets.Backup.{verify_backup, check_words}
use zbag_app_tauri.Wallets.Backup.Attempts.{verify_all, IsWrong, failed_more, wrong_answers}
use zbag_app_tauri.Wallets.Backup.Verified.{IsVerified, verify_backup-IsVerified}

abbrev state : BackupChallengeState
state = record {
  challenge_id = 77;
  indices = 2 ∷ 9 ∷ 13 ∷ 24 ∷ [];
  expires_at = pos 600000;
  failed_attempts = 1;
}

abbrev asked : Manager (Unit {0})
asked = record (manager open_wallet []) { backup_challenges = (8, state) ∷ [] }

abbrev right : Map Text
right = (2, text " A") ∷ (9, text "a") ∷ (13, text "A ") ∷ (24, text "a") ∷ []

abbrev verified : Manager (Unit {0})
verified = (verify_backup world asked 8 77 right (pos 5000)).0

verifies : verify_backup world asked 8 77 right (pos 5000) ≡ (verified, ok tt)
unfolding verify_backup crypto trim text_eq ascii_lowercase
verifies = refl

verify_backup-IsVerified_example : IsVerified world asked 8 77 right (pos 5000) verified
verify_backup-IsVerified_example =
    verify_backup-IsVerified world asked 8 77 right (pos 5000) verified verifies

abbrev wrong : Map Text × ℤ
wrong = ((2, text "b") ∷ [], pos 5000)

abbrev calls : List (Map Text × ℤ)
calls = wrong ∷ wrong ∷ wrong ∷ wrong ∷ []

read : stored_words world asked 8 ≡ ok words
unfolding stored_words crypto
read = refl

is_wrong : IsWrong words state wrong
unfolding check_words trim text_eq ascii_lowercase
is_wrong = (refl, refl)

wrong_answers_example :
    lookup 8 (verify_all world 8 77 asked calls).backup_challenges
    ≡ failed_more state (length calls)
unfolding lookup
wrong_answers_example =
    wrong_answers world 8 77 asked words state calls refl read refl refl refl (omega arith)
      (is_wrong, (is_wrong, (is_wrong, (is_wrong, tt))))
