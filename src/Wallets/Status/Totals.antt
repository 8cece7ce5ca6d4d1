-- ===== src/Wallets/Status/Totals.antt =====
-- The total does not depend on the order of the map.
use mathlib.Core.List.{Permᴰ}
use mathlib.Core.List.Permᴰ.{nil, cons, swap, trans}
use zbag_app_tauri.Base.{
  ℕ, ◌+◌, ◌≤◌, min, ◌≡◌, refl, sym, ap, ◌∙◌, Bool, true, false, ◌||◌, List, [], ◌∷◌, Option, none,
  some, Bool-cases, inl, inr, Text, arith, ◌==◌, if◌then◌else◌,
}
use zbag_app_tauri.Wallets.{Manager}
use zbag_app_tauri.Wallets.Status.{
  SyncStatus, u64_max, amount_of, sum_cached, cached_transparent_total_zat,
}

abbrev Entry : Type 0
Entry = (ℕ × ℕ) × Text

abbrev is_of : ℕ → Entry → Bool
is_of wallet_id e = e.0.0 == wallet_id

abbrev share : ℕ → Entry → ℕ
share wallet_id e = if is_of wallet_id e then amount_of e.1 else 0

-- The entries of the wallet without the saturation.
summed : ℕ → List Entry → ℕ
summed wallet_id [] = 0
summed wallet_id (e ∷ rest) = share wallet_id e + summed wallet_id rest

seen_in : ℕ → List Entry → Bool
seen_in wallet_id [] = false
seen_in wallet_id (e ∷ rest) = is_of wallet_id e || seen_in wallet_id rest

abbrev total_if : Bool → ℕ → Option ℕ
total_if b n = if b then some (min n u64_max) else none

total_if-min :
    (b : Bool) (total v rest : ℕ)
    → total_if (b || true) (min (total + v) u64_max + rest)
      ≡ some (min (total + (v + rest)) u64_max)
total_if-min true total v rest = ap (λ (n : ℕ). some n) (omega arith)
total_if-min false total v rest = ap (λ (n : ℕ). some n) (omega arith)

sum_cached_lem :
    (wallet_id total : ℕ) (seen : Bool) (balances : List Entry)
    → total ≤ u64_max
    → sum_cached wallet_id total seen balances
      ≡ total_if (seen_in wallet_id balances || seen) (total + summed wallet_id balances)
unfolding sum_cached summed seen_in
sum_cached_lem wallet_id total true [] h = ap (λ (n : ℕ). some n) (omega arith)
sum_cached_lem wallet_id total false [] h = refl
sum_cached_lem wallet_id total seen (((owner, account), value) ∷ rest) h =
    elim (Bool-cases (owner == wallet_id)) [
      | inl c ↦
          let step =
            sum_cached_lem wallet_id (min (total + amount_of value) u64_max) true rest
              (omega arith) in
          rw c (step ∙ total_if-min (seen_in wallet_id rest) total (amount_of value) _)
      | inr c ↦
          let same : total + summed wallet_id rest ≡ total + (0 + summed wallet_id rest) =
            omega arith in
          rw c (
            sum_cached_lem wallet_id total seen rest h
            ∙ ap (total_if (seen_in wallet_id rest || seen)) same)
    ]

or_swap : (x y z : Bool) → (x || (y || z)) ≡ (y || (x || z))
or_swap true true z = refl
or_swap true false z = refl
or_swap false true z = refl
or_swap false false z = refl

module _ (wallet_id : ℕ) where
  Perm-summed :
      {b c : List Entry}
      → Permᴰ b c
      → (summed wallet_id b ≡ summed wallet_id c) × (seen_in wallet_id b ≡ seen_in wallet_id c)
  unfolding summed seen_in
  Perm-summed nil = (refl, refl)
  Perm-summed (cons {a} {b} e h) =
      let (s, k) = Perm-summed h in
      let same = ap (share wallet_id) e in
      let of = ap (is_of wallet_id) e in
      (omega arith, rw of (ap (λ (x : Bool). is_of wallet_id b || x) k))
  Perm-summed (swap {a} {b} {a'} {b'} {l} e f) =
      let same = ap (share wallet_id) e in
      let other = ap (share wallet_id) f in
      let of = ap (is_of wallet_id) e in
      let off = ap (is_of wallet_id) f in
      (
        omega arith,
        rw of (rw off (or_swap (is_of wallet_id b') (is_of wallet_id a') (seen_in wallet_id l))),
      )
  Perm-summed (trans h k) =
      let (s, i) = Perm-summed h in let (t, j) = Perm-summed k in (s ∙ t, i ∙ j)

  -- The transparent total of a wallet does not depend on the order in which the cached balances are
  -- gone through, though the sum saturates.
  pub Perm-cached_transparent_total :
      (m : Manager SyncStatus) (balances : List Entry)
      → Permᴰ m.cached_balances balances
      → cached_transparent_total_zat m wallet_id
        ≡ cached_transparent_total_zat (record m { cached_balances = balances }) wallet_id
  unfolding cached_transparent_total_zat
  Perm-cached_transparent_total m balances h =
      let (s, k) = Perm-summed h in
      sum_cached_lem wallet_id 0 false m.cached_balances (omega arith)
      ∙ ap (λ (b : Bool). total_if (b || false) (0 + summed wallet_id m.cached_balances)) k
      ∙ ap (λ (n : ℕ). total_if (seen_in wallet_id balances || false) (0 + n)) s
      ∙ sym (sum_cached_lem wallet_id 0 false balances (omega arith))
