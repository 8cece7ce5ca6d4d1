-- ===== src/Sync/Starts/Guards.antt =====
-- The count of blocking scans, and what it keeps from starting.
use zbag_app_tauri.Base.{
  ℕ, ◌+◌, ◌-◌, ◌<◌, ◌≡◌, ◌∙◌, refl, List, [], ◌∷◌, Option, none, some, arith, ◌==◌, ==_refl,
  if◌then◌else◌, Bool-cases, inl, inr,
}
use zbag_app_tauri.Base.Maps.{lookup, lookup-insert, lookup-remove}
use zbag_app_tauri.Base.Results.{ok, err, sync_in_progress}
use zbag_app_tauri.Sync.Starts.{
  State, acquire, drop_guard, start_sync, store_job, remove_finished, finish_task, stop_sync,
}

-- How many guards of a wallet are held.
abbrev pub held : ℕ → List ℕ → ℕ
held w [] = 0
held w (g ∷ gs) = (if g == w then 1 else 0) + held w gs

abbrev pub count_entry : ℕ → Option ℕ
count_entry n = if n == 0 then none else some n

-- A guard is given back, whichever it is.
pub data Without (w : ℕ) : List ℕ → List ℕ → Type 0 where
  here : (gs : List ℕ) → Without w (w ∷ gs) gs
  there : (g : ℕ) (gs rest : List ℕ) → Without w gs rest → Without w (g ∷ gs) (g ∷ rest)

held-Without :
    (w j : ℕ) (gs rest : List ℕ)
    → Without w gs rest
    → held j gs ≡ (if w == j then 1 else 0) + held j rest
held-Without w j _ _ (here gs) = refl
held-Without w j _ _ (there g gs rest x) = ground (arith, held-Without w j gs rest x)

module _ {E : Type 0} where
  -- What can happen to the state, in any order, with the guards that are held.
  pub data Reach : State E → List ℕ → Type 0 where
    begins : (s : State E) → s.blocking_scans ≡ [] → Reach s []
    acquires : (w : ℕ) (s : State E) (gs : List ℕ) → Reach s gs → Reach (acquire w s) (w ∷ gs)
    releases :
        (w : ℕ) (s : State E) (gs rest : List ℕ)
        → Reach s gs
        → Without w gs rest
        → Reach (drop_guard w s) rest
    starts : (w now : ℕ) (s : State E) (gs : List ℕ) → Reach s gs → Reach (start_sync w now s).0 gs
    stores : (w task : ℕ) (s : State E) (gs : List ℕ) → Reach s gs → Reach (store_job w task s) gs
    forgets : (w : ℕ) (s : State E) (gs : List ℕ) → Reach s gs → Reach (remove_finished w s) gs
    finishes : (w : ℕ) (s : State E) (gs : List ℕ) → Reach s gs → Reach (finish_task w s) gs
    stops : (w : ℕ) (s : State E) (gs : List ℕ) → Reach s gs → Reach (stop_sync w s) gs

  lookup-acquire :
      (w j n : ℕ) (s : State E)
      → lookup w s.blocking_scans ≡ count_entry n
      → lookup j (acquire w s).blocking_scans
        ≡ (if w == j then some (n + 1) else lookup j s.blocking_scans)
  unfolding acquire
  lookup-acquire w j n s h = elim (Bool-cases (n == 0)) [
    | inl e ↦ ground (arith, lookup-insert w j 1 s.blocking_scans)
    | inr e ↦ ground (arith, lookup-insert w j (n + 1) s.blocking_scans)
  ]

  lookup-drop_guard :
      (w j n : ℕ) (s : State E)
      → lookup w s.blocking_scans ≡ some n
      → lookup j (drop_guard w s).blocking_scans
        ≡ (if w == j then count_entry (n - 1) else lookup j s.blocking_scans)
  unfolding drop_guard
  lookup-drop_guard w j n s h =
      ground (arith, lookup-insert w j (n - 1) s.blocking_scans, lookup-remove w j s.blocking_scans)

  start_sync-scans :
      (w now : ℕ) (s : State E) → (start_sync w now s).0.blocking_scans ≡ s.blocking_scans
  unfolding start_sync
  start_sync-scans w now s = ground arith

  stop_sync-scans : (w : ℕ) (s : State E) → (stop_sync w s).blocking_scans ≡ s.blocking_scans
  unfolding stop_sync
  stop_sync-scans w s = ground arith

  -- Whatever starts, stops and finishes, the table holds for each wallet the number of its guards
  -- that are held, and no entry where there is none.
  pub blocking_scans-held :
      (s : State E) (gs : List ℕ) (j : ℕ)
      → Reach s gs
      → lookup j s.blocking_scans ≡ count_entry (held j gs)
  unfolding lookup store_job remove_finished finish_task
  blocking_scans-held s _ j (begins _ e) = rw e
  blocking_scans-held _ _ j (acquires w s gs r) =
      lookup-acquire w j (held w gs) s (blocking_scans-held s gs w r)
      ∙ ground (arith, blocking_scans-held s gs j r)
  blocking_scans-held _ _ j (releases w s gs rest r x) =
      let here_w = held-Without w w gs rest x in
      let here_j = held-Without w j gs rest x in
      let e : lookup w s.blocking_scans ≡ some (held w gs) =
        blocking_scans-held s gs w r ∙ ground (arith, ==_refl w) in
      lookup-drop_guard w j (held w gs) s e ∙ ground (arith, blocking_scans-held s gs j r)
  blocking_scans-held _ _ j (starts w now s gs r) =
      rw (start_sync-scans w now s) (blocking_scans-held s gs j r)
  blocking_scans-held _ _ j (stores w task s gs r) = blocking_scans-held s gs j r
  blocking_scans-held _ _ j (forgets w s gs r) = blocking_scans-held s gs j r
  blocking_scans-held _ _ j (finishes w s gs r) = blocking_scans-held s gs j r
  blocking_scans-held _ _ j (stops w s gs r) =
      rw (stop_sync-scans w s) (blocking_scans-held s gs j r)

  -- A stop removes the job at once, but as long as a scan of the wallet still holds its guard, no
  -- new sync of it starts.
  pub start_sync_stopped :
      (s : State E) (gs : List ℕ) (w now : ℕ)
      → Reach s gs
      → 0 < held w gs
      → (lookup w (stop_sync w s).jobs ≡ none)
        × (start_sync w now (stop_sync w s) ≡ (stop_sync w s, err sync_in_progress))
  unfolding stop_sync start_sync
  start_sync_stopped s gs w now r p =
      let e = blocking_scans-held s gs w r in
      (ground (arith, lookup-remove w w s.jobs, ==_refl w), ground arith)

  -- Where a start is let through, another start of the same wallet that comes before the job of the
  -- first one is stored is let through as well.
  pub start_sync_twice :
      (s : State E) (w now later : ℕ)
      → (start_sync w now s).1 ≡ ok tt
      → (start_sync w later (start_sync w now s).0).1 ≡ ok tt
  unfolding start_sync
  start_sync_twice s w now later h = ground arith
