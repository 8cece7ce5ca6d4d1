-- ===== src/Birthday/Estimates.antt =====
-- What the estimates are worth.
use zbag_app_tauri.Base.{
  ℕ, ◌+◌, ◌-◌, ◌/◌, ◌≡◌, ◌≤◌, ◌<◌, min, refl, some, arith, leb, if◌then◌else◌, Bool-cases, leb→le,
  leb→gt, inl, inr,
}
use zbag_app_tauri.Base.Int.{ℤ, pos, negsuc, nonneg, i64_max}
use zbag_app_tauri.Servers.{mainnet}
use zbag_app_tauri.Birthday.{
  estimate_birthday_height, estimate_from_checkpoints, partition_point, u32_max, genesis_ms,
  with_margin,
}

-- The height and time of the last checkpoint that is not after the date.
abbrev pub last_checkpoint : ℕ → ℕ × ℕ
last_checkpoint date =
    if leb 1654041600000 date
    then (1654041600000, 1687104)
    else (if leb 1609459200000 date
        then (1609459200000, 1046400)
        else (if leb 1546300800000 date then (1546300800000, 419200) else (genesis_ms, 0)))

mainnet_estimate :
    (date : ℕ)
    → genesis_ms < date
    → estimate_birthday_height mainnet (pos date)
      ≡ some (
          with_margin
            (min ((last_checkpoint date).1 + (date - (last_checkpoint date).0) / 75000) i64_max))
unfolding estimate_birthday_height estimate_from_checkpoints partition_point
mainnet_estimate date h = ground (arith, h)

mainnet_early :
    (date : ℕ) → date ≤ genesis_ms → estimate_birthday_height mainnet (pos date) ≡ some 0
unfolding estimate_birthday_height estimate_from_checkpoints
mainnet_early date h = ground (arith, h)

-- The mainnet estimate is always given, is below 2^32, and lies at most 300 blocks below the
-- height of the last checkpoint that is not after the date.
pub estimate_birthday_bounds :
    (date : ℤ)
    → (height : ℕ) × (estimate_birthday_height mainnet date ≡ some height)
      × (height ≤ u32_max)
      × ((last_checkpoint (nonneg date)).1 ≤ height + 300)
unfolding estimate_birthday_height estimate_from_checkpoints
estimate_birthday_bounds (negsuc n) = (0, refl, omega arith, omega arith)
estimate_birthday_bounds (pos date) = elim (Bool-cases (leb date genesis_ms)) [
  | inl e ↦ (0, mainnet_early date (leb→le date genesis_ms e), omega arith, ground (arith, e))
  | inr e ↦ (_, mainnet_estimate date (leb→gt date genesis_ms e), omega arith, ground (arith, e))
]

-- From 2017-10-27 to the end of 2018 the mainnet estimate is above 419,200, the height that the
-- code's own table gives to the first day of 2019.
pub estimate_above_checkpoint :
    (date : ℕ)
    → 1509075375000 ≤ date
    → date < 1546300800000
    → (height : ℕ) × (estimate_birthday_height mainnet (pos date) ≡ some height) × (419200 < height)
estimate_above_checkpoint date low high =
    (_, mainnet_estimate date (omega (arith, low)), ground (arith, low, high))
