-- ===== src/Swap/Refresh/Stored.antt =====
-- What a refresh leaves in the table.
use zbag_app_tauri.Base.{
  ℕ, ◌≡◌, ◌≢◌, refl, sym, ap, ◌∙◌, Bool, true, false, List, [], ◌∷◌, Option, none, some, arith,
  ◌==◌, ==_refl, ==→eq, if◌then◌else◌, Bool-cases, inl, inr, Text, by_test,
}
use zbag_app_tauri.Base.Int.{ℤ}
use zbag_app_tauri.Base.Maps.{lookup, has}
use zbag_app_tauri.Base.Results.{Result, ok, err}
use zbag_app_tauri.Swap.{
  SwapInfo, Swaps, is_terminal, next_state_from_remote_status, load_owned_swap, owned_by,
  update_swap,
}
use zbag_app_tauri.Swap.Polling.{Answer, status, rate_limited, other_error, take_status, changes}
use zbag_app_tauri.Swap.Refresh.{
  Store, without, release_guard, RefreshStep, answers, asks, with_address, begin_loaded,
  begin_refresh, answered, write_if, finish_refresh, finish_step, refresh_swap_status,
  try_acquire_refresh_inflight_guard,
}

-- Every row stands under its swap's id.
abbrev pub IsKeyed : Swaps → Type 0
IsKeyed [] = Unit {0}
IsKeyed ((id, (owner, swap)) ∷ rows) = (swap.id ≡ id) × IsKeyed rows

abbrev pub updated : ℕ → SwapInfo → Option (ℕ × SwapInfo) → Option (ℕ × SwapInfo)
updated wallet_id swap none = none
updated wallet_id swap (some (owner, old)) =
    some (wallet_id, record swap { created_at = old.created_at })

-- An update changes the row of its swap only.
pub lookup-update_swap :
    (swaps : Swaps) (wallet_id key : ℕ) (swap : SwapInfo)
    → lookup key (update_swap swaps wallet_id swap)
      ≡ (if swap.id == key then updated wallet_id swap (lookup key swaps) else lookup key swaps)
unfolding lookup update_swap
lookup-update_swap [] wallet_id key swap = ground arith
lookup-update_swap ((id, (owner, old)) ∷ rows) wallet_id key swap =
    let ih = lookup-update_swap rows wallet_id key swap in ground (arith, ih)

lookup-IsKeyed :
    (swaps : Swaps) (key owner : ℕ) (swap : SwapInfo)
    → IsKeyed swaps
    → lookup key swaps ≡ some (owner, swap)
    → swap.id ≡ key
unfolding lookup
lookup-IsKeyed [] key owner swap h e = cc
lookup-IsKeyed ((id, (other, s)) ∷ rows) key owner swap h e = elim (Bool-cases (id == key)) [
  | inl t ↦ ground (arith, t, e, h.0)
  | inr t ↦ lookup-IsKeyed rows key owner swap h.1 (ground (arith, t, e))
]

owned-ok :
    (wallet_id : ℕ) (row : Option (ℕ × SwapInfo)) (swap : SwapInfo)
    → owned_by wallet_id row ≡ ok swap
    → row ≡ some (wallet_id, swap)
owned-ok wallet_id none swap h = cc
owned-ok wallet_id (some (owner, s)) swap h = ground (arith, ==→eq owner wallet_id)

has-without : (k : ℕ) (js : List ℕ) → has k js ≡ false → without k js ≡ js
unfolding has without
has-without k [] h = refl
has-without k (j ∷ js) h = ground (arith, h, has-without k js)

-- An answer changes neither the id nor the time of creation, and what is not written is the swap as
-- it was.
answered_same :
    (swap : SwapInfo) (a : Answer) (confirmed : Bool) (now : ℤ)
    → ((answered swap a confirmed now).0.id ≡ swap.id)
      × ((answered swap a confirmed now).0.created_at ≡ swap.created_at)
      × ((answered swap a confirmed now).1 ≡ false → (answered swap a confirmed now).0 ≡ swap)
answered_same swap (status s message) confirmed now =
    by_test
      (λ (x : SwapInfo × Bool).
        (x.0.id ≡ swap.id) × (x.0.created_at ≡ swap.created_at) × (x.1 ≡ false → x.0 ≡ swap))
      (changes swap (next_state_from_remote_status confirmed s) message)
      (take_status swap (next_state_from_remote_status confirmed s) message now, true) (swap, false)
      (λ e. (refl, refl, λ f. cc)) (λ e. (refl, refl, λ f. refl))
answered_same swap (rate_limited retry_after message) confirmed now = (refl, refl, λ f. cc)
answered_same swap (other_error message) confirmed now = (refl, refl, λ f. cc)

-- A refresh returns what is then stored, leaves the other rows alone, and releases its guard.
abbrev pub IsKept : Store → ℕ → ℕ → Store × Result SwapInfo → Type 0
IsKept store wallet_id swap_id r =
    (load_owned_swap r.0.swaps wallet_id swap_id ≡ r.1)
    × ((other : ℕ) → other ≢ swap_id → lookup other r.0.swaps ≡ lookup other store.swaps)
    × (r.0.refresh_inflight ≡ store.refresh_inflight)

load-row :
    (swaps : Swaps) (wallet_id swap_id : ℕ) (swap : SwapInfo)
    → lookup swap_id swaps ≡ some (wallet_id, swap)
    → load_owned_swap swaps wallet_id swap_id ≡ ok swap
unfolding load_owned_swap
load-row swaps wallet_id swap_id swap e = rw (e, ==_refl wallet_id) refl

written-row :
    (swaps : Swaps) (wallet_id key : ℕ) (swap : SwapInfo) (next : SwapInfo × Bool)
    → swap.id ≡ key
    → lookup key swaps ≡ some (wallet_id, swap)
    → next.0.id ≡ swap.id
    → next.0.created_at ≡ swap.created_at
    → (next.1 ≡ false → next.0 ≡ swap)
    → lookup key (write_if swaps wallet_id next) ≡ some (wallet_id, next.0)
written-row swaps wallet_id key swap (next, true) k row i c f =
    let found : (next.id == key) ≡ true = ground (arith, i, k) in
    let changed : (if next.id == key
          then updated wallet_id next (lookup key swaps)
          else lookup key swaps)
        ≡ some (wallet_id, record next { created_at = swap.created_at }) =
      ground (arith, found, row) in
    lookup-update_swap swaps wallet_id key next
    ∙ (changed ∙ ap (λ (t : ℤ). some (wallet_id, record next { created_at = t })) (sym c))
written-row swaps wallet_id key swap (next, false) k row i c f = rw (f refl) row

written-other :
    (swaps : Swaps) (wallet_id other : ℕ) (next : SwapInfo × Bool)
    → other ≢ next.0.id
    → lookup other (write_if swaps wallet_id next) ≡ lookup other swaps
written-other swaps wallet_id other (next, true) ne =
    ground (arith, lookup-update_swap swaps wallet_id other next, ne)
written-other swaps wallet_id other (next, false) ne = refl

module _ (store : Store) (wallet_id swap_id : ℕ) (a : Answer) (confirmed : Bool) (now : ℤ) where
  at_once :
      (r : Result SwapInfo)
      → load_owned_swap store.swaps wallet_id swap_id ≡ r
      → IsKept store wallet_id swap_id (finish_step (store, answers r) wallet_id a confirmed now)
  at_once r e = (e, λ other ne. refl, refl)

  after_answer :
      (swap : SwapInfo)
      → swap.id ≡ swap_id
      → lookup swap_id store.swaps ≡ some (wallet_id, swap)
      → has swap_id store.refresh_inflight ≡ false
      → IsKept store wallet_id swap_id (
          finish_step
            (record store { refresh_inflight = swap_id ∷ store.refresh_inflight }, asks swap)
            wallet_id
            a
            confirmed
            now)
  unfolding finish_refresh release_guard without
  after_answer swap k row free =
      let next = answered swap a confirmed now in
      let (i, c, f) = answered_same swap a confirmed now in
      (
        load-row _ wallet_id swap_id next.0
            (written-row store.swaps wallet_id swap_id swap next k row i c f),
        λ other ne. written-other store.swaps wallet_id other next (ground (arith, ne, i, k)),
        ground (arith, k, has-without swap_id store.refresh_inflight free),
      )

  with_address-IsKept :
      (swap : SwapInfo) (address : Option Text)
      → swap.id ≡ swap_id
      → lookup swap_id store.swaps ≡ some (wallet_id, swap)
      → IsKept store wallet_id swap_id
          (finish_step (with_address store swap_id swap address) wallet_id a confirmed now)
  unfolding try_acquire_refresh_inflight_guard
  with_address-IsKept swap none k row =
      at_once (ok swap) (load-row store.swaps wallet_id swap_id swap row)
  with_address-IsKept swap (some address) k row =
      elim (Bool-cases (has swap_id store.refresh_inflight)) [
        | inl e ↦ rw e (at_once (ok swap) (load-row store.swaps wallet_id swap_id swap row))
        | inr e ↦ rw e (after_answer swap k row e)
      ]

  begin-IsKept :
      (r : Result SwapInfo)
      → IsKeyed store.swaps
      → load_owned_swap store.swaps wallet_id swap_id ≡ r
      → IsKept store wallet_id swap_id
          (finish_step (begin_loaded store swap_id r) wallet_id a confirmed now)
  unfolding load_owned_swap
  begin-IsKept (err c) keyed e = at_once (err c) e
  begin-IsKept (ok swap) keyed e =
      let row = owned-ok wallet_id (lookup swap_id store.swaps) swap e in
      let k = lookup-IsKeyed store.swaps swap_id wallet_id swap keyed row in
      by_test
        (λ (s : Store × RefreshStep).
          IsKept store wallet_id swap_id (finish_step s wallet_id a confirmed now))
        (is_terminal swap.state) _ _ (λ t. at_once (ok swap) e)
        (λ t. with_address-IsKept swap swap.deposit_address k row)

  -- A refresh that nothing interrupts returns what is stored for the wallet's swap afterwards, an error
  -- included, leaves every other row as it was, and leaves no guard behind; rows stand under the ids
  -- of their swaps.
  pub refresh-IsKept :
      IsKeyed store.swaps
      → IsKept store wallet_id swap_id (refresh_swap_status store wallet_id swap_id a confirmed now)
  unfolding refresh_swap_status begin_refresh
  refresh-IsKept keyed = begin-IsKept (load_owned_swap store.swaps wallet_id swap_id) keyed refl
