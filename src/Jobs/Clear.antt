-- ===== src/Jobs/Clear.antt =====
-- What `clear_finished_jobs` removes.
use zbag_app_tauri.Base.{
  ℕ, ◌≡◌, ◌∙◌, refl, Bool, true, false, ◌&&◌, List, [], ◌∷◌, Option, none, some, arith, ==_refl,
  if◌then◌else◌,
}
use zbag_app_tauri.Base.Maps.{
  Map, lookup, remove, has, Distinct, IsAbsent, lookup-insert, lookup-remove,
}
use zbag_app_tauri.Jobs.Types.{JobProgress, is_terminal}
use zbag_app_tauri.Jobs.Service.{
  JobEntry, JobServiceState, get_progress, emit_progress, clear_finished_jobs, finished_ids,
  remove_all, none_or_of_wallet,
}

emit_progress-recorded :
    (s : JobServiceState) (job_id : ℕ) (p : JobProgress)
    → get_progress (emit_progress s job_id p) job_id ≡ some p
unfolding get_progress emit_progress
emit_progress-recorded s job_id p = rw (lookup-insert job_id job_id p s.progress, ==_refl job_id)

emit_progress-no_entry :
    (s : JobServiceState) (job_id : ℕ) (p : JobProgress)
    → is_terminal p.state ≡ true
    → lookup job_id (emit_progress s job_id p).jobs ≡ none
unfolding emit_progress
emit_progress-no_entry s job_id p t = rw (t, lookup-remove job_id job_id s.jobs, ==_refl job_id)

lookup-remove_all :
    (ids : List ℕ) (s : JobServiceState) (j : ℕ)
    → lookup j (remove_all s ids).progress ≡ (if has j ids then none else lookup j s.progress)
unfolding has
lookup-remove_all [] s j = refl
lookup-remove_all (i ∷ ids) s j =
    lookup-remove_all ids (record s { jobs = remove i s.jobs; progress = remove i s.progress }) j
    ∙ ground (arith, lookup-remove i j s.progress)

-- A job that is cleared for a wallet: it is over, and it has no entry or one for that wallet.
abbrev pub is_cleared : Map JobEntry → ℕ → ℕ → Option JobProgress → Bool
is_cleared jobs wallet_id j none = false
is_cleared jobs wallet_id j (some p) =
    is_terminal p.state && none_or_of_wallet wallet_id (lookup j jobs)

has-absent :
    (jobs : Map JobEntry) (wallet_id j : ℕ) (m : Map JobProgress)
    → IsAbsent (lookup j m)
    → has j (finished_ids jobs wallet_id m) ≡ false
unfolding lookup has
has-absent jobs wallet_id j [] h = refl
has-absent jobs wallet_id j ((i, p) ∷ m) h = ground (arith, has-absent jobs wallet_id j m)

has-finished_ids :
    (jobs : Map JobEntry) (wallet_id j : ℕ) (m : Map JobProgress)
    → Distinct m
    → has j (finished_ids jobs wallet_id m) ≡ is_cleared jobs wallet_id j (lookup j m)
unfolding lookup has
has-finished_ids jobs wallet_id j [] d = refl
has-finished_ids jobs wallet_id j ((i, p) ∷ m) d =
    ground (arith, has-finished_ids jobs wallet_id j m d.1, has-absent jobs wallet_id i m d.0)

-- With one record to an id, clearing for a wallet removes exactly the records of the jobs that are
-- over and have no entry or an entry of that wallet; every other record stays.
pub get_progress-clear_finished_jobs :
    (s : JobServiceState) (wallet_id j : ℕ)
    → Distinct s.progress
    → get_progress (clear_finished_jobs s wallet_id) j
      ≡ (if is_cleared s.jobs wallet_id j (get_progress s j) then none else get_progress s j)
unfolding clear_finished_jobs get_progress
get_progress-clear_finished_jobs s wallet_id j d =
    lookup-remove_all (finished_ids s.jobs wallet_id s.progress) s j
    ∙ rw (has-finished_ids s.jobs wallet_id j s.progress d) refl

-- With one record to an id, a job whose task has just ended it has no entry, so that clearing for any
-- wallet, also one that the job was not for, removes its record.
pub clear_finished_jobs-any_wallet :
    (s : JobServiceState) (job_id wallet_id : ℕ) (p : JobProgress)
    → Distinct (emit_progress s job_id p).progress
    → is_terminal p.state ≡ true
    → get_progress (clear_finished_jobs (emit_progress s job_id p) wallet_id) job_id ≡ none
clear_finished_jobs-any_wallet s job_id wallet_id p d t =
    get_progress-clear_finished_jobs (emit_progress s job_id p) wallet_id job_id d
    ∙ rw (emit_progress-recorded s job_id p, t, emit_progress-no_entry s job_id p t)
