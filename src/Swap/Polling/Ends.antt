-- ===== src/Swap/Polling/Ends.antt =====
-- When the polling task ends, and what it leaves in the table.
use zbag_app_tauri.Base.{
  ◌≡◌, ◌⊎◌, refl, Bool, true, false, not, ◌||◌, List, [], ◌∷◌, Option, none, some, arith, All, inl,
  inr, Bool-cases, subst, by_test, ap, sym, ◌∙◌, Text, text_eq→eq,
}
use zbag_app_tauri.Base.Int.{ℤ}
use zbag_app_tauri.Swap.{
  SwapState, SwapInfo, is_terminal, error_eq, next_state_from_remote_status, state_eq,
}
use zbag_app_tauri.Swap.Polling.{
  Answer, status, rate_limited, other_error, Round, Poll, on_status, on_answer, ask, poll_round,
  start_poll, poll, slept, changes, taken_over, take_status, unchanged,
}

-- The wallet stays active and the task is not cancelled in the round.
abbrev pub IsUndisturbed : Round → Type 0
IsUndisturbed r = (r.active_before ≡ true) × (r.cancelled ≡ false) × (r.active_after ≡ true)

-- The answer, with what the wallet shows, means a terminal state.
abbrev pub settles : Bool → Answer → Bool
settles confirmed (status s message) = is_terminal (next_state_from_remote_status confirmed s)
settles confirmed (rate_limited retry_after message) = false
settles confirmed (other_error message) = false

abbrev pub some_settles : List Round → Bool
some_settles [] = false
some_settles (r ∷ rounds) = settles r.confirmed r.answer || some_settles rounds

abbrev pub Settled : Poll → Type 0
Settled p = (p.ended ≡ true) × (is_terminal p.swap.state ≡ true)

-- Has settled, or polls on for a swap that has an address.
abbrev pub OnTrack : Text → Poll → Type 0
OnTrack address p = Settled p ⊎ ((p.ended ≡ false) × (p.swap.deposit_address ≡ some address))

error_same : (a b : Option Text) → error_eq a b ≡ true → a ≡ b
error_same none none h = refl
error_same none (some b) h = cc
error_same (some a) none h = cc
error_same (some a) (some b) h = ap some (text_eq→eq a b h)

state_terminal : (a b : SwapState) → state_eq a b ≡ true → is_terminal a ≡ is_terminal b
state_terminal a b h = ground arith

-- After a status the task has ended exactly when the swap's state is then terminal, which is when the
-- status says so.
status_ends :
    (p : Poll) (next : SwapState) (message : Option Text) (now : ℤ)
    → ((on_status p next message now).ended ≡ is_terminal next)
      × (is_terminal (on_status p next message now).swap.state ≡ is_terminal next)
      × ((on_status p next message now).swap.deposit_address ≡ p.swap.deposit_address)
status_ends p next message now =
    by_test
      (λ (q : Poll).
        (q.ended ≡ is_terminal next)
        × (is_terminal q.swap.state ≡ is_terminal next)
        × (q.swap.deposit_address ≡ p.swap.deposit_address))
      (changes p.swap next message) _ _ (λ e. (refl, refl, refl))
      (λ e.
        let same : state_eq next p.swap.state ≡ true = ground (arith, e) in
        let t = sym (state_terminal next p.swap.state same) in (t, t, refl))

-- A task that has ended does nothing more.
stays : (p : Poll) (rounds : List Round) → Settled p → Settled (poll p rounds)
unfolding poll poll_round
stays p [] h = h
stays p (r ∷ rounds) h =
    let same : poll_round p r ≡ p = ground (arith, h.0) in
    stays (poll_round p r) rounds (subst Settled (sym same) h)

module _ (address : Text) where
  answer-OnTrack :
      (p : Poll) (confirmed : Bool) (now : ℤ) (a : Answer)
      → p.ended ≡ false
      → p.swap.deposit_address ≡ some address
      → OnTrack address (on_answer p confirmed now a)
        × (settles confirmed a ≡ true → Settled (on_answer p confirmed now a))
  answer-OnTrack p confirmed now (status s message) e d =
      let next = next_state_from_remote_status confirmed s in
      let (x, y, z) = status_ends p next message now in
      elim (Bool-cases (is_terminal next)) [
        | inl t ↦ (inl (x ∙ t, y ∙ t), λ h. (x ∙ t, y ∙ t))
        | inr t ↦ (inr (x ∙ t, z ∙ d), λ h. cc)
      ]
  answer-OnTrack p confirmed now (rate_limited retry_after message) e d = (inr (e, d), λ h. cc)
  answer-OnTrack p confirmed now (other_error message) e d = (inr (e, d), λ h. cc)

  -- A round of a running task, with the wallet active and no cancellation.
  running_round :
      (p : Poll) (r : Round)
      → IsUndisturbed r
      → p.ended ≡ false
      → p.swap.deposit_address ≡ some address
      → poll_round p r ≡ on_answer (slept p) r.confirmed r.now_ms r.answer
  unfolding poll_round
  running_round p r u e d = ground (arith, u, e, d)

  round-OnTrack :
      (p : Poll) (r : Round)
      → IsUndisturbed r
      → OnTrack address p
      → OnTrack address (poll_round p r)
        × (settles r.confirmed r.answer ≡ true → Settled (poll_round p r))
  unfolding poll_round
  round-OnTrack p r u (inl h) =
      let same : poll_round p r ≡ p = ground (arith, h.0) in
      (subst (OnTrack address) (sym same) (inl h), λ s. subst Settled (sym same) h)
  round-OnTrack p r u (inr (e, d)) =
      let same = sym (running_round p r u e d) in
      let (track, settled) = answer-OnTrack (slept p) r.confirmed r.now_ms r.answer e d in
      (subst (OnTrack address) same track, λ s. subst Settled same (settled s))

  poll-Settled :
      (p : Poll) (rounds : List Round)
      → All IsUndisturbed rounds
      → OnTrack address p
      → some_settles rounds ≡ true
      → Settled (poll p rounds)
  unfolding poll
  poll-Settled p [] u h s = cc
  poll-Settled p (r ∷ rounds) u h s =
      let (track, settled) = round-OnTrack p r u.0 h in
      elim (Bool-cases (settles r.confirmed r.answer)) [
        | inl e ↦ stays (poll_round p r) rounds (settled e)
        | inr e ↦ poll-Settled (poll_round p r) rounds u.1 track (ground (arith, s, e))
      ]

-- A polling task for a swap with a deposit address, whose wallet stays active and which is not
-- cancelled, has ended with the swap in a terminal state as soon as one answer means one, whatever
-- errors, rate limits and other answers came before and whatever would come after.
pub poll_ends :
    (swap : SwapInfo) (address : Text) (rounds : List Round)
    → swap.deposit_address ≡ some address
    → All IsUndisturbed rounds
    → some_settles rounds ≡ true
    → Settled (poll (start_poll swap) rounds)
unfolding start_poll
poll_ends swap address rounds d u s =
    poll-Settled address (start_poll swap) rounds u (inr (refl, d)) s

-- What the task holds is what it wrote last, and the swap's own data are those it started with.
abbrev pub latest : SwapInfo → List SwapInfo → SwapInfo
latest initial [] = initial
latest initial (swap ∷ older) = swap

abbrev pub restate : SwapInfo → SwapInfo → SwapInfo
restate initial swap = record initial {
  state = swap.state;
  last_error = swap.last_error;
  updated_at = swap.updated_at;
}

abbrev pub InStep : SwapInfo → Poll → Type 0
InStep initial p = (latest initial p.writes ≡ p.swap) × (p.swap ≡ restate initial p.swap)

module _ (initial : SwapInfo) where
  answer-InStep :
      (p : Poll) (confirmed : Bool) (now : ℤ) (a : Answer)
      → InStep initial p
      → InStep initial (on_answer p confirmed now a)
  answer-InStep p confirmed now (status s message) h =
      let next = next_state_from_remote_status confirmed s in
      by_test (InStep initial) (changes p.swap next message)
        (taken_over p (take_status p.swap next message now)) (unchanged p)
        (λ e. (refl, ap (λ (t : SwapInfo). take_status t next message now) h.1)) (λ e. h)
  answer-InStep p confirmed now (rate_limited retry_after message) h = h
  answer-InStep p confirmed now (other_error message) h =
      (refl, ap (λ (t : SwapInfo). record t { updated_at = now; last_error = some message }) h.1)

  ask-InStep :
      (p : Poll) (r : Round) (a : Option Text) → InStep initial p → InStep initial (ask p r a)
  ask-InStep p r none h = h
  ask-InStep p r (some a) h = answer-InStep p r.confirmed r.now_ms r.answer h

  round-InStep : (p : Poll) (r : Round) → InStep initial p → InStep initial (poll_round p r)
  unfolding poll_round
  round-InStep p r h =
      by_test (InStep initial) p.ended _ _ (λ e. h)
        (λ e.
          by_test (InStep initial) (not r.active_before) _ _ (λ b. h)
            (λ b.
              by_test (InStep initial) (r.cancelled || not r.active_after) _ _ (λ c. h)
                (λ c. ask-InStep (slept p) r p.swap.deposit_address h)))

  poll-InStep : (p : Poll) (rounds : List Round) → InStep initial p → InStep initial (poll p rounds)
  unfolding poll
  poll-InStep p [] h = h
  poll-InStep p (r ∷ rounds) h = poll-InStep (poll_round p r) rounds (round-InStep p r h)

-- After any rounds the swap that the task holds is the one it wrote last, or the initial one if it
-- wrote none, and differs from the initial one at most in its state, message and time of update.
pub poll_writes :
    (initial : SwapInfo) (rounds : List Round) → InStep initial (poll (start_poll initial) rounds)
unfolding start_poll
poll_writes initial rounds = poll-InStep initial (start_poll initial) rounds (refl, refl)
