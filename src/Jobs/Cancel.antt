-- ===== src/Jobs/Cancel.antt =====
-- What `cancel_job` does, and the race that it leaves open.
use zbag_app_tauri.Base.{
  ℕ, ◌≡◌, ◌≢◌, ◌∙◌, refl, ◌⊎◌, inl, inr, Bool, true, false, not, Option, none, some, arith, ==_refl,
  ==_ne, Option-cases,
}
use zbag_app_tauri.Base.Maps.{lookup, lookup-insert, lookup-remove}
use zbag_app_tauri.Jobs.Types.{JobState, JobProgress, is_terminal}
use zbag_app_tauri.Jobs.Progress
use zbag_app_tauri.Jobs.Service.{
  JobEntry, JobServiceState, get_progress, cancel_job, blocking_update, cancel_guard,
}

-- The job has a record, and it is over.
abbrev pub is_over : Option JobProgress → Bool
is_over none = false
is_over (some p) = is_terminal p.state

module _ (s : JobServiceState) (job_id : ℕ) where
  -- Where the job has a record and the call answers true, the job is over. The task was signalled
  -- exactly if the job was not over before, and then the job's entry is gone.
  pub cancel_job-answer :
      (p : JobProgress)
      → get_progress s job_id ≡ some p
      → (cancel_job s job_id).answer ≡ true
      → (is_over (get_progress (cancel_job s job_id).state job_id) ≡ true)
        × ((cancel_job s job_id).signalled ≡ not (is_terminal p.state))
        × ((is_terminal p.state ≡ true) ⊎ (lookup job_id (cancel_job s job_id).state.jobs ≡ none))
  unfolding get_progress cancel_job
  cancel_job-answer p h a =
      let q = Progress.cancelled job_id p.job_type in
      let e = lookup-insert job_id job_id q s.progress in
      let r = lookup-remove job_id job_id s.jobs in
      (ground (arith, e, ==_refl job_id), ground arith, ground (arith, r, ==_refl job_id))

  -- When it answers false nothing has changed.
  pub cancel_job-refused :
      (cancel_job s job_id).answer ≡ false
      → ((cancel_job s job_id).state ≡ s) × ((cancel_job s job_id).signalled ≡ false)
  unfolding cancel_job
  cancel_job-refused a = (ground arith, ground arith)

  -- Every other job keeps its record and its entry.
  pub cancel_job-other :
      (j : ℕ)
      → job_id ≢ j
      → (get_progress (cancel_job s job_id).state j ≡ get_progress s j)
        × (lookup j (cancel_job s job_id).state.jobs ≡ lookup j s.jobs)
  unfolding get_progress cancel_job
  cancel_job-other j ne = elim (Option-cases (lookup job_id s.progress)) [
    | inl e ↦
        rw (e, cancel_guard) (ground (arith, lookup-remove job_id j s.jobs, ==_ne job_id j ne))
    | inr (p, e) ↦
        rw (e, cancel_guard)
          (ground (
            arith,
            e,
            lookup-remove job_id j s.jobs,
            lookup-insert job_id j (Progress.cancelled job_id p.job_type) s.progress,
            ==_ne job_id j ne,
          ))
  ]

  -- A job that runs without an entry cannot be cancelled.
  pub cancel_job-no_entry :
      (q : JobProgress)
      → get_progress s job_id ≡ some q
      → is_terminal q.state ≡ false
      → lookup job_id s.jobs ≡ none
      → ((cancel_job s job_id).answer ≡ false) × ((cancel_job s job_id).state ≡ s)
  unfolding get_progress cancel_job
  cancel_job-no_entry q h t e = (ground arith, ground arith)

  -- A job that runs, may be cancelled and has an entry is cancelled.
  pub cancel_job-accepted :
      (p : JobProgress) (entry : JobEntry)
      → get_progress s job_id ≡ some p
      → is_terminal p.state ≡ false
      → p.can_cancel ≡ true
      → lookup job_id s.jobs ≡ some entry
      → ((cancel_job s job_id).answer ≡ true)
        × (lookup job_id (cancel_job s job_id).state.jobs ≡ none)
        × (get_progress (cancel_job s job_id).state job_id
            ≡ some (Progress.cancelled job_id p.job_type))
  unfolding get_progress cancel_job
  cancel_job-accepted p entry h t c e = (
    ground arith,
    ground (arith, lookup-remove job_id job_id s.jobs, ==_refl job_id),
    ground (
      arith,
      lookup-insert job_id job_id (Progress.cancelled job_id p.job_type) s.progress,
      ==_refl job_id,
    ),
  )

blocking_update-recorded :
    (s : JobServiceState) (job_id : ℕ) (q : JobProgress)
    → (get_progress (blocking_update s job_id q) job_id ≡ some q)
      × (lookup job_id (blocking_update s job_id q).jobs ≡ lookup job_id s.jobs)
unfolding get_progress blocking_update
blocking_update-recorded s job_id q =
    (rw (lookup-insert job_id job_id q s.progress, ==_refl job_id), refl)

-- The race: a job can be cancelled, so its task may stand in the blocking closure, which the abort
-- does not stop. If the closure's progress update comes after the cancellation, the job's record says
-- that it is running, it has no entry, and every later cancellation answers false.
pub cancel_job_overwritten :
    (s : JobServiceState) (job_id : ℕ) (p q : JobProgress) (entry : JobEntry)
    → get_progress s job_id ≡ some p
    → is_terminal p.state ≡ false
    → p.can_cancel ≡ true
    → lookup job_id s.jobs ≡ some entry
    → q.state ≡ JobState.running
    → let s' = blocking_update (cancel_job s job_id).state job_id q in
      ((cancel_job s job_id).answer ≡ true)
      × (get_progress s' job_id ≡ some q)
      × ((cancel_job s' job_id).answer ≡ false)
      × ((cancel_job s' job_id).state ≡ s')
cancel_job_overwritten s job_id p q entry h t c e k =
    let first = cancel_job-accepted s job_id p entry h t c e in
    let s1 = (cancel_job s job_id).state in
    let recorded = blocking_update-recorded s1 job_id q in
    let again =
      cancel_job-no_entry (blocking_update s1 job_id q) job_id q recorded.0 (ground (arith, k))
        (recorded.1 ∙ first.1) in
    (first.0, recorded.0, again.0, again.1)
