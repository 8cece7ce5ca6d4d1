-- ===== src/Base/Maps.antt =====
-- Hash maps as association lists keyed by identifiers (a `Uuid` or its text is a number here).
use Prim.Native.Nat.{ℕ}
use mathlib.Core.Path.{◌≡◌}
use mathlib.Core.Bool.{Bool, true, false}
use mathlib.Core.List.{List, [], ◌∷◌}
use mathlib.Core.Option.{Option, none, some}
use native.Mathlib.Omega.{arith}
use zbag_app_tauri.Base.Tests.{◌==◌, if◌then◌else◌}

abbrev pub Map {ℓ} : Type ℓ → Type ℓ
Map V = List (ℕ × V)

abbrev pub IsAbsent {ℓ} : {V : Type ℓ} → Option V → Type 0
IsAbsent none = Unit {0}
IsAbsent (some v) = ⊥

module _ {ℓ} {V : Type ℓ} where
  unfoldable pub lookup : ℕ → Map V → Option V
  lookup key [] = none
  lookup key ((other, value) ∷ rest) =
      let later = lookup key rest in if other == key then some value else later

  unfoldable pub remove : ℕ → Map V → Map V
  remove k [] = []
  remove k ((j, w) ∷ m) = let rest = remove k m in if j == k then rest else (j, w) ∷ rest

  -- The new entry takes the place of any old one.
  unfoldable pub insert : ℕ → V → Map V → Map V
  unfolding remove
  insert key value m = (key, value) ∷ remove key m

  -- `retain` keeps the entries that pass the test.
  unfoldable pub retain : (ℕ → V → Bool) → Map V → Map V
  retain p [] = []
  retain p ((j, w) ∷ m) = let rest = retain p m in if p j w then (j, w) ∷ rest else rest

  pub lookup-remove :
      (k j : ℕ) (m : Map V) → lookup j (remove k m) ≡ (if k == j then none else lookup j m)
  unfolding lookup remove
  lookup-remove k j [] = ground arith
  lookup-remove k j ((i, w) ∷ m) = ground (arith, lookup-remove k j m)

  pub lookup-insert :
      (key other : ℕ) (value : V) (m : Map V)
      → lookup other (insert key value m) ≡ (if key == other then some value else lookup other m)
  unfolding lookup insert
  lookup-insert key other value m = ground (arith, lookup-remove key other m)

  -- What `retain` keeps under a key whose entry is the first one.
  pub lookup-retain_keep :
      (p : ℕ → V → Bool) (k : ℕ) (v : V) (m : Map V)
      → lookup k m ≡ some v
      → p k v ≡ true
      → lookup k (retain p m) ≡ some v
  unfolding lookup retain
  lookup-retain_keep p k v [] h t = cc
  lookup-retain_keep p k v ((i, w) ∷ m) h t = ground (arith, lookup-retain_keep p k v m)

  -- No key twice.
  abbrev pub Distinct : Map V → Type 0
  Distinct [] = Unit {0}
  Distinct ((k, v) ∷ m) = IsAbsent (lookup k m) × Distinct m

-- Whether a list of keys holds one.
unfoldable pub has : ℕ → List ℕ → Bool
has k [] = false
has k (j ∷ js) = let rest = has k js in if j == k then true else rest
