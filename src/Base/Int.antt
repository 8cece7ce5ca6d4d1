-- ===== src/Base/Int.antt =====
-- Signed 64-bit values as integers, with the comparisons and saturating sums that the code makes.
use Prim.Native.Nat.{ℕ, ◌+◌, ◌-◌, min}
use mathlib.Core.Path.{◌≡◌, refl}
use mathlib.Core.Bool.{Bool, true, false}
use native.Mathlib.Omega.{arith}
use zbag_app_tauri.Base.Tests.{leb, if◌then◌else◌}

-- `negsuc n` is -(n + 1).
pub data ℤ : Type 0 where
  pos : ℕ → ℤ
  negsuc : ℕ → ℤ

abbrev pub i64_max : ℕ
i64_max = 9223372036854775807

abbrev pub lebℤ : ℤ → ℤ → Bool
lebℤ (pos a) (pos b) = leb a b
lebℤ (pos a) (negsuc b) = false
lebℤ (negsuc a) (pos b) = true
lebℤ (negsuc a) (negsuc b) = leb b a

-- `x.max(0)`.
abbrev pub nonneg : ℤ → ℕ
nonneg (pos a) = a
nonneg (negsuc a) = 0

-- `x.saturating_add(d)` for a `d` that is not negative.
abbrev pub saturating_add : ℤ → ℕ → ℤ
saturating_add (pos a) d = pos (min (a + d) i64_max)
saturating_add (negsuc a) d = if leb d a then negsuc (a - d) else pos (min (d - a - 1) i64_max)

pub lebℤ_refl : (a : ℤ) → lebℤ a a ≡ true
lebℤ_refl (pos a) = ground arith
lebℤ_refl (negsuc a) = ground arith

pub lebℤ_trans : (a b c : ℤ) → lebℤ a b ≡ true → lebℤ b c ≡ true → lebℤ a c ≡ true
lebℤ_trans (pos a) (pos b) (pos c) h k = ground arith
lebℤ_trans (pos a) (pos b) (negsuc c) h k = cc
lebℤ_trans (pos a) (negsuc b) c h k = cc
lebℤ_trans (negsuc a) b (pos c) h k = refl
lebℤ_trans (negsuc a) (pos b) (negsuc c) h k = cc
lebℤ_trans (negsuc a) (negsuc b) (negsuc c) h k = ground arith
