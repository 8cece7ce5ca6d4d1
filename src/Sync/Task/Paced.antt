-- ===== src/Sync/Task/Paced.antt =====
-- What a run of the task shows and how long it sleeps.
use zbag_app_tauri.Base.{
  ℕ, ◌≤◌, ◌≡◌, refl, Bool, true, false, List, [], ◌∷◌, Option, none, some, arith, Text, by_test,
  ◌⊎◌, inl, inr, ap, ◌==◌,
}
use zbag_app_tauri.Sync.Starts.{SyncPhase, idle, offline, error, SyncProgress}
use zbag_app_tauri.Sync.Throttle.{BalanceEmitTrigger, forced_milestone}
use zbag_app_tauri.Sync.Task.{
  ScanRange, Totals, Effect, Place, Task, poll_interval, max_poll_backoff, does, worker_failed,
  stopped, backed_off, TopAnswer, unreachable, not_updated, with_update, with_latest, step_top,
  error_pass, enhances, enhance_batches, Enhancement, complete_pass, RangesAnswer, with_ranges,
  step_ranges, go_on, shows, balances, new_iteration, sleeps, of_job, of_start, of_all, at_top,
  joining, finished,
}

-- What may be shown: a time of a retry while offline or after an error, which is the shortest one
-- after an error.
abbrev pub IsShownAs : SyncPhase → SyncProgress → Type 0
IsShownAs offline p = (s : ℕ) × (p.retry_in_seconds ≡ some s)
IsShownAs error p = (p.retry_in_seconds ≡ none) ⊎ (p.retry_in_seconds ≡ some poll_interval)
IsShownAs phase p = p.retry_in_seconds ≡ none

abbrev pub retry_or : ℕ → Option ℕ → ℕ
retry_or d none = d
retry_or d (some s) = s

-- The time of the retry that was shown last, or the poll interval.
abbrev pub announced : List Effect → ℕ
announced [] = poll_interval
announced (shows p ∷ effects) = retry_or poll_interval p.retry_in_seconds
announced (balances t ∷ effects) = announced effects
announced (new_iteration ∷ effects) = announced effects
announced (sleeps s ∷ effects) = announced effects

-- Every sleep lasts as long as was announced, from twenty seconds to five minutes.
abbrev pub Paced : List Effect → Type 0
Paced [] = Unit {0}
Paced (shows p ∷ effects) = IsShownAs p.phase p × Paced effects
Paced (balances t ∷ effects) = Paced effects
Paced (new_iteration ∷ effects) = Paced effects
Paced (sleeps s ∷ effects) =
    (s ≡ announced effects) × (poll_interval ≤ s) × (s ≤ max_poll_backoff) × Paced effects

abbrev pub IsEnd : SyncPhase → Type 0
IsEnd idle = Unit {0}
IsEnd error = Unit {0}
IsEnd phase = ⊥

-- What was shown last is an idle sync, or an error that is not tried again.
abbrev pub IsOver : List Effect → Type 0
IsOver (shows p ∷ effects) = IsEnd p.phase × (p.retry_in_seconds ≡ none)
IsOver (balances t ∷ effects) = IsOver effects
IsOver effects = ⊥

-- Within a pass the next error waits for the shortest time. A task that ended shows that it did,
-- save one that was cancelled before it had shown anything.
abbrev pub Standing : Place → Task → Type 0
Standing at_top t = Unit {0}
Standing joining t = Unit {0}
Standing (finished of_job) t = t.effects ≡ balances forced_milestone ∷ []
Standing (finished of_start) t = IsOver t.effects
Standing (finished of_all) t = IsOver t.effects
Standing place t = t.poll_backoff ≡ poll_interval

pub record IsSteady (t : Task) : Type 0 where
  pub paced : Paced t.effects
  pub low : poll_interval ≤ t.poll_backoff
  pub high : t.poll_backoff ≤ max_poll_backoff
  pub standing : Standing t.place t

-- Apart from the place.
pub record IsLive (t : Task) : Type 0 where
  pub paced : Paced t.effects
  pub low : poll_interval ≤ t.poll_backoff
  pub high : t.poll_backoff ≤ max_poll_backoff

pub live : (t : Task) → IsSteady t → IsLive t
live t h = record { paced = h.paced; low = h.low; high = h.high }

pub shown :
    (t : Task) (p : SyncProgress) → IsLive t → IsShownAs p.phase p → IsLive (does (shows p) t)
shown t p h s = record { paced = (s, h.paced); low = h.low; high = h.high }

told : (t : Task) (b : BalanceEmitTrigger) → IsLive t → IsLive (does (balances b) t)
told t b h = record { paced = h.paced; low = h.low; high = h.high }

begun : (t : Task) → IsLive t → IsLive (does new_iteration t)
begun t h = record { paced = h.paced; low = h.low; high = h.high }

pub worker_failed-IsSteady : (tip : ℕ) (t : Task) → IsLive t → IsSteady (worker_failed tip t)
worker_failed-IsSteady tip t h = record {
  paced = (inl refl, h.paced);
  low = h.low;
  high = h.high;
  standing = (tt, refl);
}

pub stopped-IsSteady : (t : Task) → IsLive t → IsSteady (stopped of_all t)
stopped-IsSteady t h = record {
  paced = (refl, h.paced);
  low = h.low;
  high = h.high;
  standing = (tt, refl);
}

backed_off-IsSteady :
    (t : Task) → IsLive t → t.poll_backoff ≡ announced t.effects → IsSteady (backed_off t)
backed_off-IsSteady t h e =
    let low = h.low in
    let high = h.high in
    record { paced = (e, low, high, h.paced); low = omega arith; high = omega arith; standing = tt }

module _ (tip : ℕ) where
  pub error_pass-IsSteady :
      (message : Text) (t : Task) (totals : Option Totals)
      → IsLive t
      → t.poll_backoff ≡ poll_interval
      → IsSteady (error_pass tip message t totals)
  error_pass-IsSteady message t none h e = worker_failed-IsSteady tip t h
  error_pass-IsSteady message t (some totals) h e =
      backed_off-IsSteady _ (told _ forced_milestone (shown t _ h (inr (ap (λ (n : ℕ). some n) e))))
        refl

  not_updated-IsSteady :
      (t : Task) (totals : Option Totals)
      → IsLive t
      → t.poll_backoff ≡ poll_interval
      → IsSteady (not_updated tip t totals)
  not_updated-IsSteady t none h e = worker_failed-IsSteady tip t h
  not_updated-IsSteady t (some totals) h e =
      backed_off-IsSteady _ (shown t _ h (inr (ap (λ (n : ℕ). some n) e))) refl

  with_update-IsSteady :
      (t : Task) (totals : Option Totals) (updated : Option Bool)
      → IsLive t
      → t.poll_backoff ≡ poll_interval
      → IsSteady (with_update tip t totals updated)
  with_update-IsSteady t totals none h e = worker_failed-IsSteady tip t h
  with_update-IsSteady t totals (some false) h e = not_updated-IsSteady t totals h e
  with_update-IsSteady t totals (some true) h e = record {
    paced = h.paced;
    low = h.low;
    high = h.high;
    standing = e;
  }

unreachable-IsSteady :
    (t : Task) (totals : Option Totals) → IsLive t → IsSteady (unreachable t totals)
unreachable-IsSteady t none h = worker_failed-IsSteady 0 t h
unreachable-IsSteady t (some totals) h =
    backed_off-IsSteady _ (shown t _ h (t.poll_backoff, refl)) refl

with_latest-IsSteady :
    (t : Task) (answer : TopAnswer) (latest : Option ℕ)
    → IsLive t
    → IsSteady (with_latest t answer latest)
with_latest-IsSteady t answer none h = unreachable-IsSteady t answer.totals h
with_latest-IsSteady t answer (some tip) h =
    with_update-IsSteady tip (record t { poll_backoff = poll_interval }) answer.totals
      answer.updated (record { paced = h.paced; low = omega arith; high = omega arith }) refl

pub step_top-IsSteady : (t : Task) (answer : TopAnswer) → IsLive t → IsSteady (step_top t answer)
unfolding step_top
step_top-IsSteady t answer h =
    by_test IsSteady answer.cancelled _ _ (λ c. stopped-IsSteady _ (begun t h))
      (λ c. with_latest-IsSteady _ answer answer.latest (begun t h))

module _ (tip : ℕ) where
  enhance_batches-Paced :
      (total : ℕ) (counts : List ℕ) (effects : List Effect)
      → Paced effects
      → Paced (enhance_batches tip total counts effects)
  unfolding enhance_batches
  enhance_batches-Paced total [] effects h = h
  enhance_batches-Paced total (n ∷ counts) effects h =
      enhance_batches-Paced total counts _ (refl, h)

  complete_pass-IsSteady :
      (t : Task) (e : Enhancement) → IsLive t → IsSteady (complete_pass tip e t)
  unfolding complete_pass
  complete_pass-IsSteady t e h =
      let before : Paced (enhances tip e.total 0 ∷ balances forced_milestone ∷ t.effects) =
        (refl, h.paced) in
      let after =
        by_test Paced (e.total == 0) _ (enhance_batches tip e.total e.counts _) (λ z. before)
          (λ z. enhance_batches-Paced e.total e.counts _ before) in
      record {
        paced = (refl, omega arith, omega arith, (refl, after));
        low = h.low;
        high = h.high;
        standing = tt;
      }

  with_ranges-IsSteady :
      (t : Task) (answer : RangesAnswer) (suggested : Option (Option (List ScanRange)))
      → IsLive t
      → t.poll_backoff ≡ poll_interval
      → IsSteady (with_ranges tip t answer suggested)
  with_ranges-IsSteady t answer none h e = worker_failed-IsSteady tip t h
  with_ranges-IsSteady t answer (some none) h e = error_pass-IsSteady tip _ t answer.totals h e
  with_ranges-IsSteady t answer (some (some [])) h e = complete_pass-IsSteady t answer.enhancement h
  with_ranges-IsSteady t answer (some (some (r ∷ rs))) h e = record {
    paced = h.paced;
    low = h.low;
    high = h.high;
    standing = e;
  }

  pub step_ranges-IsSteady :
      (t : Task) (answer : RangesAnswer)
      → IsLive t
      → t.poll_backoff ≡ poll_interval
      → IsSteady (step_ranges tip t answer)
  unfolding step_ranges
  step_ranges-IsSteady t answer h e =
      by_test IsSteady answer.cancelled _ _ (λ c. stopped-IsSteady t h)
        (λ c. with_ranges-IsSteady t answer answer.suggested h e)

  pub go_on-IsSteady :
      (rest : List ScanRange) (t : Task)
      → IsLive t
      → t.poll_backoff ≡ poll_interval
      → IsSteady (go_on tip rest t)
  go_on-IsSteady [] t h e = record { paced = h.paced; low = h.low; high = h.high; standing = e }
  go_on-IsSteady (r ∷ rs) t h e = record {
    paced = h.paced;
    low = h.low;
    high = h.high;
    standing = e;
  }
