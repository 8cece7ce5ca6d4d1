-- ===== src/Proposals/Confirm/Rounds.antt =====
-- What the loop over the transactions notes, and what it leaves alone.
use zbag_app_tauri.Base.{
  ℕ, ◌≡◌, ◌≢◌, ◌⊎◌, inl, inr, refl, ◌∙◌, List, [], ◌∷◌, Option, none, some, Text, arith, ◌==◌,
  ==_refl, Bool-cases,
}
use zbag_app_tauri.Base.Int.{ℤ}
use zbag_app_tauri.Base.Maps.{Map, lookup, insert, lookup-insert}
use zbag_app_tauri.Base.Results.{Result, ok, err}
use zbag_app_tauri.Proposals.Confirm.{
  Confirming, Service, pending, Round, gone_on, broken, status_of, queued, after_send,
  broadcast_one, broadcast_each,
}
use zbag_app_tauri.RetryQueue.{QueuedBroadcastMeta}
use zbag_app_tauri.RetryQueue.Scan.{to_unix_ms}

pub status-pending :
    (entry : Option QueuedBroadcastMeta) (primary_error : Option Text)
    → (status_of entry primary_error).0 ≡ pending
    → primary_error ≡ none
unfolding status_of
status-pending (some meta) primary_error h = cc
status-pending none (some message) h = cc
status-pending none none h = refl

-- The loop leaves the proposals alone.
abbrev pub AtRest : Service → Round → Type 0
AtRest s (gone_on s' errors) = s'.proposals ≡ s.proposals
AtRest s (broken s' e) = s'.proposals ≡ s.proposals

-- An error of the transaction is noted, if the loop went on.
abbrev pub NotedIn : ℕ → Round → Type 0
NotedIn k (gone_on s errors) = (message : Text) × (lookup k errors ≡ some message)
NotedIn k (broken s e) = Unit

insert-noted :
    (k txid : ℕ) (message : Text) (errors : Map Text)
    → (k ≡ txid) ⊎ ((m : Text) × (lookup k errors ≡ some m))
    → (m : Text) × (lookup k (insert txid message errors) ≡ some m)
insert-noted k txid message errors (inl e) =
    (message, ground (arith, e, lookup-insert txid k message errors, ==_refl txid))
insert-noted k txid message errors (inr (m, e)) = elim (Bool-cases (txid == k)) [
  | inl t ↦ (message, ground (arith, t, lookup-insert txid k message errors))
  | inr t ↦ (m, ground (arith, t, e, lookup-insert txid k message errors))
]

module _ (to_lowercase : Text → Text) (env : Confirming) where
  queued-NotedIn :
      (k txid : ℕ) (message : Text) (s : Service) (errors : Map Text) (time : Result ℤ)
      → (k ≡ txid) ⊎ ((m : Text) × (lookup k errors ≡ some m))
      → NotedIn k (queued to_lowercase env txid message s errors time)
  unfolding queued
  queued-NotedIn k txid message s errors (err e) noted = tt
  queued-NotedIn k txid message s errors (ok t) noted = elim (Bool-cases (env.persists txid)) [
    | inr p ↦ rw p tt
    | inl p ↦ rw p (insert-noted k txid message errors noted)
  ]

  after_send-NotedIn :
      (k txid : ℕ) (s : Service) (errors : Map Text) (answer : Option Text)
      → ((k ≡ txid) × (answer ≢ none)) ⊎ ((m : Text) × (lookup k errors ≡ some m))
      → NotedIn k (after_send to_lowercase env txid s errors answer)
  unfolding after_send
  after_send-NotedIn k txid s errors none (inl (e, ne)) = absurd (ne refl)
  after_send-NotedIn k txid s errors none (inr noted) = noted
  after_send-NotedIn k txid s errors (some message) (inl (e, ne)) =
      queued-NotedIn k txid message s errors (to_unix_ms (env.queued_at txid)) (inl e)
  after_send-NotedIn k txid s errors (some message) (inr noted) =
      queued-NotedIn k txid message s errors (to_unix_ms (env.queued_at txid)) (inr noted)

  one-NotedIn :
      (k txid : ℕ) (s : Service) (errors : Map Text)
      → ((k ≡ txid) × (env.send txid ≢ none)) ⊎ ((m : Text) × (lookup k errors ≡ some m))
      → NotedIn k (broadcast_one to_lowercase env txid s errors)
  unfolding broadcast_one
  one-NotedIn k txid s errors noted = elim (Bool-cases (env.loads txid)) [
    | inr l ↦ rw l tt
    | inl l ↦ rw l (after_send-NotedIn k txid s errors (env.send txid) noted)
  ]

  -- The rest of the loop after a round.
  rest_of : List ℕ → Round → Round
  rest_of txids (broken s e) = broken s e
  rest_of txids (gone_on s errors) = broadcast_each to_lowercase env txids s errors

  rest-NotedIn :
      (k : ℕ) (txids : List ℕ) (r : Round)
      → ((s : Service) (errors : Map Text) (m : Text)
          → lookup k errors ≡ some m
          → NotedIn k (broadcast_each to_lowercase env txids s errors))
      → NotedIn k r
      → NotedIn k (rest_of txids r)
  unfolding rest_of
  rest-NotedIn k txids (broken s e) later noted = tt
  rest-NotedIn k txids (gone_on s errors) later noted = later s errors noted.0 noted.1

  -- What is noted stays so to the end of the loop.
  pub each-NotedIn :
      (k : ℕ) (txids : List ℕ) (s : Service) (errors : Map Text) (m : Text)
      → lookup k errors ≡ some m
      → NotedIn k (broadcast_each to_lowercase env txids s errors)
  unfolding broadcast_each rest_of
  each-NotedIn k [] s errors m noted = (m, noted)
  each-NotedIn k (txid ∷ txids) s errors m noted =
      rest-NotedIn k txids (broadcast_one to_lowercase env txid s errors) (each-NotedIn k txids)
        (one-NotedIn k txid s errors (inr (m, noted)))

  pub first-NotedIn :
      (txid : ℕ) (txids : List ℕ) (s : Service)
      → env.send txid ≢ none
      → NotedIn txid (broadcast_each to_lowercase env (txid ∷ txids) s [])
  unfolding broadcast_each rest_of
  first-NotedIn txid txids s ne =
      rest-NotedIn txid txids (broadcast_one to_lowercase env txid s []) (each-NotedIn txid txids)
        (one-NotedIn txid txid s [] (inl (refl, ne)))

  queued-AtRest :
      (txid : ℕ) (message : Text) (s : Service) (errors : Map Text) (time : Result ℤ)
      → AtRest s (queued to_lowercase env txid message s errors time)
  unfolding queued
  queued-AtRest txid message s errors (err e) = refl
  queued-AtRest txid message s errors (ok t) = elim (Bool-cases (env.persists txid)) [
    | inr p ↦ rw p refl
    | inl p ↦ rw p refl
  ]

  after_send-AtRest :
      (txid : ℕ) (s : Service) (errors : Map Text) (answer : Option Text)
      → AtRest s (after_send to_lowercase env txid s errors answer)
  unfolding after_send
  after_send-AtRest txid s errors none = refl
  after_send-AtRest txid s errors (some message) =
      queued-AtRest txid message s errors (to_unix_ms (env.queued_at txid))

  one-AtRest :
      (txid : ℕ) (s : Service) (errors : Map Text)
      → AtRest s (broadcast_one to_lowercase env txid s errors)
  unfolding broadcast_one
  one-AtRest txid s errors = elim (Bool-cases (env.loads txid)) [
    | inr l ↦ rw l refl
    | inl l ↦ rw l (after_send-AtRest txid s errors (env.send txid))
  ]

  moved :
      (s s' : Service) (round : Round)
      → s'.proposals ≡ s.proposals
      → AtRest s' round
      → AtRest s round
  moved s s' (broken t e) kept r = r ∙ kept
  moved s s' (gone_on t errors) kept r = r ∙ kept

  rest-AtRest :
      (txids : List ℕ) (s : Service) (round : Round)
      → ((t : Service) (errors : Map Text)
          → AtRest t (broadcast_each to_lowercase env txids t errors))
      → AtRest s round
      → AtRest s (rest_of txids round)
  unfolding rest_of
  rest-AtRest txids s (broken t e) later kept = kept
  rest-AtRest txids s (gone_on t errors) later kept =
      moved s t (broadcast_each to_lowercase env txids t errors) kept (later t errors)

  pub each-AtRest :
      (txids : List ℕ) (s : Service) (errors : Map Text)
      → AtRest s (broadcast_each to_lowercase env txids s errors)
  unfolding broadcast_each rest_of
  each-AtRest [] s errors = refl
  each-AtRest (txid ∷ txids) s errors =
      rest-AtRest txids s (broadcast_one to_lowercase env txid s errors) (each-AtRest txids)
        (one-AtRest txid s errors)
