-- ===== src/Jobs/SendRun.antt =====
-- What every run of a send job ends with.
use zbag_app_tauri.Base.{
  ℕ, ◌≡◌, refl, ◌⊎◌, inl, inr, Bool, true, false, List, [], ◌∷◌, ◌++◌, Option, none, some, Text,
  arith, ==_refl, if◌then◌else◌, ap, ◌∙◌, Option-cases,
}
use zbag_app_tauri.Base.Maps.{lookup, lookup-insert, lookup-remove}
use zbag_app_tauri.Jobs.Types.{JobType, JobState, JobProgress, is_terminal}
use zbag_app_tauri.Jobs.Progress
use zbag_app_tauri.Jobs.Service.{JobServiceState, get_progress, emit_progress}
use zbag_app_tauri.Jobs.Send.{
  SendEnv, Created, created, build_failed, panicked, Run, Broadcasts, broadcast_all, emit, update,
  finish, broadcast_phase, after_proving, with_db, run_send_job, build_failed_prefix,
  panicked_prefix, open_failed_prefix,
}

-- The job is over: its record is terminal, its entry is gone, and its last event said so.
pub record IsEnded (job_id : ℕ) (r : Run) : Type 0 where
  pub final : JobProgress
  pub recorded : get_progress r.store job_id ≡ some final
  pub terminal : is_terminal final.state ≡ true
  pub no_entry : lookup job_id r.store.jobs ≡ none
  pub before : List JobProgress
  pub announced : r.events ≡ before ++ final ∷ []

module _ (to_lowercase : Text → Text) (env : SendEnv) (job_id : ℕ) where
  emit-IsEnded :
      (p : JobProgress) (r : Run)
      → is_terminal p.state ≡ true
      → IsEnded job_id (emit to_lowercase env job_id p r)
  unfolding emit_progress get_progress
  emit-IsEnded p r t = record {
    final = p;
    recorded = rw (lookup-insert job_id job_id p r.store.progress, ==_refl job_id);
    terminal = t;
    no_entry = rw (t, lookup-remove job_id job_id r.store.jobs, ==_refl job_id);
    before = r.events;
    announced = refl;
  }

  -- No transaction was handed to the relay, and none was queued.
  abbrev pub NothingSent : Run → Type 0
  NothingSent r = (r.relayed ≡ []) × (r.queued ≡ [])

  abbrev pub start : Broadcasts
  start = record { broadcast_error = none; can_retry_broadcast = false; relayed = []; queued = [] }

  abbrev pub final_progress : ℕ → Option Text → JobProgress
  final_progress txid none = Progress.completed job_id JobType.send txid
  final_progress txid (some e) = Progress.failed job_id JobType.send e (some txid)

  -- The two ways a run can go: it stops before the broadcast phase, or goes through it.
  pub data Course (r : Run) : Type 0 where
    stops :
        (p : JobProgress)
        → get_progress r.store job_id ≡ some p
        → (p.state ≡ JobState.cancelled) ⊎ (p.state ≡ JobState.failed)
        → r.relayed ≡ []
        → r.queued ≡ []
        → Course r
    broadcasts :
        (txid : ℕ) (rest : List ℕ)
        → env.create ≡ created txid rest
        → get_progress r.store job_id
          ≡ some (
              final_progress txid
                (broadcast_all to_lowercase env (txid ∷ rest) start).broadcast_error)
        → r.relayed ≡ (broadcast_all to_lowercase env (txid ∷ rest) start).relayed
        → r.queued ≡ (broadcast_all to_lowercase env (txid ∷ rest) start).queued
        → Course r

  emit-recorded :
      (p : JobProgress) (r : Run)
      → get_progress (emit to_lowercase env job_id p r).store job_id ≡ some p
  unfolding emit_progress get_progress
  emit-recorded p r = rw (lookup-insert job_id job_id p r.store.progress, ==_refl job_id)

  finish-IsEnded :
      (txid : ℕ) (b : Broadcasts) (r : Run)
      → IsEnded job_id (finish to_lowercase env job_id txid b r)
  unfolding finish
  finish-IsEnded txid b r = elim (Option-cases b.broadcast_error) [
    | inl e ↦ rw (e, finish) (emit-IsEnded _ _ refl)
    | inr (m, e) ↦ rw (e, finish) (emit-IsEnded _ _ refl)
  ]

  finish-recorded :
      (txid : ℕ) (b : Broadcasts) (r : Run)
      → (get_progress (finish to_lowercase env job_id txid b r).store job_id
          ≡ some (final_progress txid b.broadcast_error))
        × ((finish to_lowercase env job_id txid b r).relayed ≡ b.relayed)
        × ((finish to_lowercase env job_id txid b r).queued ≡ b.queued)
  unfolding finish
  finish-recorded txid b r = elim (Option-cases b.broadcast_error) [
    | inl e ↦
        rw (e, finish) (emit-recorded (Progress.completed job_id JobType.send txid) r', refl, refl)
    | inr (m, e) ↦
        rw (e, finish)
          (emit-recorded (Progress.failed job_id JobType.send m (some txid)) r', refl, refl)
  ]
    where
      r' : Run
      r' = record r { relayed = b.relayed; queued = b.queued }

  abbrev StopsAt : JobProgress → Type 0
  StopsAt p = (p.state ≡ JobState.cancelled) ⊎ (p.state ≡ JobState.failed)

  -- A property of a run follows from the two places where one can end.
  module _ (P : Run → Type 0)
      (stop : (p : JobProgress) (r : Run)
        → StopsAt p
        → NothingSent r
        → P (emit to_lowercase env job_id p r))
      (go : (txid : ℕ) (rest : List ℕ) (r : Run)
        → env.create ≡ created txid rest
        → NothingSent r
        → P (broadcast_phase to_lowercase env job_id txid rest r)) where
    if_both : (b : Bool) (x y : Run) → P x → P y → P (if b then x else y)
    if_both true x y p q = p
    if_both false x y p q = q

    cancels :
        (r : Run)
        → NothingSent r
        → P (emit to_lowercase env job_id (Progress.cancelled job_id JobType.send) r)
    unfolding Progress.cancelled
    cancels r h = stop (Progress.cancelled job_id JobType.send) r (inl refl) h

    fails :
        (m : Text) (r : Run)
        → NothingSent r
        → P (emit to_lowercase env job_id (Progress.failed job_id JobType.send m none) r)
    unfolding Progress.failed
    fails m r h = stop (Progress.failed job_id JobType.send m none) r (inr refl) h

    after_proving_cases :
        (c : Created) (r : Run)
        → env.create ≡ c
        → NothingSent r
        → P (after_proving to_lowercase env job_id c r)
    after_proving_cases (build_failed m) r e h = fails (build_failed_prefix ++ m) r h
    after_proving_cases (panicked m) r e h = fails (panicked_prefix ++ m) r h
    after_proving_cases (created txid rest) r e h =
        if_both env.cancelled_after_proving
          (emit to_lowercase env job_id (Progress.cancelled job_id JobType.send) r)
          (broadcast_phase to_lowercase env job_id txid rest r) (cancels r h) (go txid rest r e h)

    with_db_cases :
        (o : Option Text) (r : Run) → NothingSent r → P (with_db to_lowercase env job_id o r)
    with_db_cases (some m) r h = fails (open_failed_prefix ++ m) r h
    with_db_cases none r h =
        let r' =
          update to_lowercase env job_id (Progress.proving job_id JobType.send (some 50)) r in
        if_both env.cancelled_before_proving
          (emit to_lowercase env job_id (Progress.cancelled job_id JobType.send) r)
          (after_proving to_lowercase env job_id env.create r') (cancels r h)
          (after_proving_cases env.create r' refl h)

    run_send_job_cases : (s : JobServiceState) → P (run_send_job to_lowercase env job_id s)
    unfolding run_send_job
    run_send_job_cases s =
        let r : Run = record { store = s; events = []; relayed = []; queued = [] } in
        let r' = emit to_lowercase env job_id (Progress.proving job_id JobType.send (some 10)) r in
        if_both env.cancelled_at_start
          (emit to_lowercase env job_id (Progress.cancelled job_id JobType.send) r)
          (with_db to_lowercase env job_id env.open_wallet_db r') (cancels r (refl, refl))
          (with_db_cases env.open_wallet_db r' (refl, refl))

  StopsAt-terminal : (p : JobProgress) → StopsAt p → is_terminal p.state ≡ true
  StopsAt-terminal p h = ground arith

  -- A run of a send job that goes to its end, which is one that no cancellation aborts, leaves a
  -- terminal record, announced last, and no entry that was in the store when it ended.
  pub run_send_job-IsEnded :
      (s : JobServiceState) → IsEnded job_id (run_send_job to_lowercase env job_id s)
  run_send_job-IsEnded =
      run_send_job_cases (IsEnded job_id) (λ p r t h. emit-IsEnded p r (StopsAt-terminal p t))
        (λ txid rest r e h. finish-IsEnded txid _ _)

  emit-Course :
      (p : JobProgress) (r : Run)
      → StopsAt p
      → NothingSent r
      → Course (emit to_lowercase env job_id p r)
  emit-Course p r t h = stops p (emit-recorded p r) t h.0 h.1

  broadcast_phase-Course :
      (txid : ℕ) (rest : List ℕ) (r : Run)
      → env.create ≡ created txid rest
      → NothingSent r
      → Course (broadcast_phase to_lowercase env job_id txid rest r)
  broadcast_phase-Course txid rest r e h =
      let r' = emit to_lowercase env job_id (Progress.broadcasting job_id JobType.send txid) r in
      let b = broadcast_all to_lowercase env (txid ∷ rest) (record {
        broadcast_error = none;
        can_retry_broadcast = false;
        relayed = r.relayed;
        queued = r.queued;
      }) in
      let f = finish-recorded txid b r' in
      let same : b ≡ broadcast_all to_lowercase env (txid ∷ rest) start = rw (h.0, h.1) refl in
      broadcasts txid rest e
        (f.0 ∙ ap (λ (c : Broadcasts). some (final_progress txid c.broadcast_error)) same)
        (f.1 ∙ ap (λ (c : Broadcasts). c.relayed) same)
        (f.2 ∙ ap (λ (c : Broadcasts). c.queued) same)

  pub run_send_job-Course : (s : JobServiceState) → Course (run_send_job to_lowercase env job_id s)
  run_send_job-Course = run_send_job_cases Course emit-Course broadcast_phase-Course
