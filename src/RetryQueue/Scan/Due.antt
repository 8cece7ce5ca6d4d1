-- ===== src/RetryQueue/Scan/Due.antt =====
-- What is listed as due, and in which order.
use zbag_app_tauri.Base.{
  ℕ, ◌/◌, ◌≡◌, ◌↔◌, ◌⊎◌, refl, sym, ap, ◌∙◌, Bool, true, false, List, [], ◌∷◌, Option, none, some,
  Text, ltb, ◌==◌, if◌then◌else◌, arith, Bool-cases, Option-cases, inl, inr,
}
use zbag_app_tauri.Base.Int.{ℤ, pos, negsuc, i64_max, lebℤ}
use zbag_app_tauri.Base.Maps.{Map, lookup, has, Distinct, IsAbsent}
use zbag_app_tauri.Base.Results.{ok}
use zbag_app_tauri.RetryQueue.{QueuedBroadcastMeta}
use zbag_app_tauri.RetryQueue.Policy.{InBudget}
use zbag_app_tauri.RetryQueue.Scan.{
  QueueFile, scan_files, or_else, is_due, sort_in, due_retries, txids, list_due_retry_txids,
}
use zbag_app_tauri.RetryQueue.Scan.Kept.{
  IsKept, scan_files-Distinct, scan_files-FromFiles, empty-FromFiles, IsKept-IsNormal,
}

has-sort_in :
    (j i : ℕ) (t : ℤ) (xs : List (ℤ × ℕ))
    → has j (txids (sort_in (t, i) xs)) ≡ (if i == j then true else has j (txids xs))
unfolding has
has-sort_in j i t [] = refl
has-sort_in j i t ((s, k) ∷ xs) = ground (arith, has-sort_in j i t xs)

-- What is due of a lookup.
abbrev pub is_due_entry : ℤ → Option QueuedBroadcastMeta → Bool
is_due_entry now_ms none = false
is_due_entry now_ms (some meta) = is_due now_ms meta

has-due_absent :
    (now_ms : ℤ) (j : ℕ) (m : Map QueuedBroadcastMeta)
    → IsAbsent (lookup j m)
    → has j (txids (due_retries now_ms m)) ≡ false
unfolding lookup has due_retries
has-due_absent now_ms j [] h = refl
has-due_absent now_ms j ((i, meta) ∷ m) h = elim (Bool-cases (is_due now_ms meta)) [
  | inl e ↦ ground (
    arith,
    has-due_absent now_ms j m,
    has-sort_in j i (or_else meta.next_attempt_at_ms now_ms) (due_retries now_ms m),
  )
  | inr e ↦ ground (arith, has-due_absent now_ms j m)
]

has-due_retries :
    (now_ms : ℤ) (j : ℕ) (m : Map QueuedBroadcastMeta)
    → Distinct m
    → has j (txids (due_retries now_ms m)) ≡ is_due_entry now_ms (lookup j m)
unfolding lookup has due_retries
has-due_retries now_ms j [] d = refl
has-due_retries now_ms j ((i, meta) ∷ m) d = ground (
  arith,
  has-due_retries now_ms j m d.1,
  has-due_absent now_ms i m d.0,
  has-sort_in j i (or_else meta.next_attempt_at_ms now_ms) (due_retries now_ms m),
)

-- A record may be retried, and its time has come, if it has one.
pub record IsDue (now_ms : ℤ) (meta : QueuedBroadcastMeta) : Type 0 where
  pub may_retry : meta.retryable ≡ true
  pub in_time :
      (meta.next_attempt_at_ms ≡ none)
      ⊎ ((t : ℤ) × (meta.next_attempt_at_ms ≡ some t) × (lebℤ t now_ms ≡ true))

lebℤ_refl : (a : ℤ) → lebℤ a a ≡ true
lebℤ_refl (pos a) = ground arith
lebℤ_refl (negsuc a) = ground arith

entry-IsDue :
    (now_ms : ℤ) (entry : Option QueuedBroadcastMeta)
    → is_due_entry now_ms entry ≡ true
    → (meta : QueuedBroadcastMeta) × (entry ≡ some meta) × IsDue now_ms meta
entry-IsDue now_ms none h = cc
entry-IsDue now_ms (some meta) h = (
  meta,
  refl,
  record {
    may_retry = ground (arith, h);
    in_time = elim (Option-cases meta.next_attempt_at_ms) [
      | inl n ↦ inl n
      | inr (t, e) ↦ inr (t, e, ground (arith, h, e))
    ];
  },
)

IsDue-entry :
    (now_ms : ℤ) (meta : QueuedBroadcastMeta)
    → IsDue now_ms meta
    → is_due_entry now_ms (some meta) ≡ true
IsDue-entry now_ms meta d = elim d.in_time [
  | inl n ↦ rw (d.may_retry, n) (lebℤ_refl now_ms)
  | inr (t, e, l) ↦ rw (d.may_retry, e) l
]

-- Each pair comes no later than the next one.
abbrev pub IsSorted : List (ℤ × ℕ) → Type 0
IsSorted [] = Unit {0}
IsSorted (x ∷ []) = Unit {0}
IsSorted (x ∷ y ∷ ys) = (lebℤ x.0 y.0 ≡ true) × IsSorted (y ∷ ys)

lebℤ_total : (a b : ℤ) → lebℤ a b ≡ false → lebℤ b a ≡ true
lebℤ_total (pos a) (pos b) h = ground arith
lebℤ_total (pos a) (negsuc b) h = refl
lebℤ_total (negsuc a) (pos b) h = cc
lebℤ_total (negsuc a) (negsuc b) h = ground arith

sort_in-IsSorted : (x : ℤ × ℕ) (ys : List (ℤ × ℕ)) → IsSorted ys → IsSorted (sort_in x ys)
sort_in-IsSorted x [] h = tt
sort_in-IsSorted (s, i) ((t, j) ∷ []) h = ground (arith, lebℤ_total s t)
sort_in-IsSorted (s, i) ((t, j) ∷ (u, k) ∷ ys) h =
    ground (arith, lebℤ_total s t, sort_in-IsSorted (s, i) ((u, k) ∷ ys) h.1)

-- The retries that are due are listed by time, the earliest first.
pub due_retries-IsSorted :
    (now_ms : ℤ) (m : Map QueuedBroadcastMeta) → IsSorted (due_retries now_ms m)
unfolding due_retries
due_retries-IsSorted now_ms [] = tt
due_retries-IsSorted now_ms ((i, meta) ∷ m) =
    let later = due_retries-IsSorted now_ms m in
    ground (
      arith,
      sort_in-IsSorted (or_else meta.next_attempt_at_ms now_ms, i) (due_retries now_ms m) later,
    )

module _ (to_lowercase : Text → Text) (scanned_at now : ℕ) (files : List QueueFile) where
  -- The entries after a scan.
  abbrev pub scanned : Map QueuedBroadcastMeta
  scanned =
      (scan_files to_lowercase scanned_at (pos (scanned_at / 1000000)) files
        (record { entries = []; files = [] })).entries

  list_due_retry_txids-ok :
      (ids : List ℕ)
      → list_due_retry_txids to_lowercase scanned_at now (some files) ≡ ok ids
      → txids (due_retries (pos (now / 1000000)) scanned) ≡ ids
  unfolding list_due_retry_txids
  list_due_retry_txids-ok ids h = elim (Bool-cases (ltb i64_max (scanned_at / 1000000))) [
    | inl e ↦ ground arith
    | inr e ↦ elim (Bool-cases (ltb i64_max (now / 1000000))) [
      | inl d ↦ ground arith
      | inr d ↦ ground arith
    ]
  ]

  has_list-due :
      (ids : List ℕ) (j : ℕ)
      → list_due_retry_txids to_lowercase scanned_at now (some files) ≡ ok ids
      → has j ids ≡ is_due_entry (pos (now / 1000000)) (lookup j scanned)
  has_list-due ids j h = rw (← list_due_retry_txids-ok ids h) (
      has-due_retries (pos (now / 1000000)) j scanned (
        scan_files-Distinct to_lowercase scanned_at (pos (scanned_at / 1000000)) files
          (record { entries = []; files = [] }) tt))

  -- A listing that succeeds lists a transaction exactly if the scan has an entry for it that may be
  -- retried, and that has no time for its next attempt or one that has come.
  pub has-list_due_retry_txids :
      (ids : List ℕ) (j : ℕ)
      → list_due_retry_txids to_lowercase scanned_at now (some files) ≡ ok ids
      → (has j ids ≡ true) ↔ (
          (meta : QueuedBroadcastMeta) × (lookup j scanned ≡ some meta)
          × IsDue (pos (now / 1000000)) meta)
  has-list_due_retry_txids ids j h = (
    λ e. entry-IsDue (pos (now / 1000000)) (lookup j scanned) (sym (has_list-due ids j h) ∙ e),
    λ (meta, f, d).
        has_list-due ids j h
        ∙ (ap (is_due_entry (pos (now / 1000000))) f ∙ IsDue-entry (pos (now / 1000000)) meta d),
  )

  -- A transaction that is listed has a metadata file that could be read and is not too old, and has
  -- its bytes; its record, normalised, is within the retry budget, and its time has come.
  pub list_due_retry_txids-InBudget :
      (ids : List ℕ) (j : ℕ)
      → list_due_retry_txids to_lowercase scanned_at now (some files) ≡ ok ids
      → has j ids ≡ true
      → (meta : QueuedBroadcastMeta) × IsKept to_lowercase scanned_at
          (pos (scanned_at / 1000000))
          j
          files
          meta
        × InBudget meta.last_error_class meta.attempt_count
        × (is_due (pos (now / 1000000)) meta ≡ true)
  list_due_retry_txids-InBudget ids j h e = elim (Option-cases (lookup j scanned)) [
    | inl n ↦ absurd (ground (arith, has_list-due ids j h, n))
    | inr (meta, f) ↦
        let due : is_due (pos (now / 1000000)) meta ≡ true =
          ground (arith, has_list-due ids j h, f) in
        let kept =
          scan_files-FromFiles to_lowercase scanned_at (pos (scanned_at / 1000000)) files files
            (record { entries = []; files = [] }) (λ g k. k)
            (empty-FromFiles to_lowercase scanned_at (pos (scanned_at / 1000000)) files) j meta f in
        let normal =
          IsKept-IsNormal to_lowercase scanned_at (pos (scanned_at / 1000000)) j files meta kept in
        (meta, kept, normal.in_budget (ground arith), due)
  ]
