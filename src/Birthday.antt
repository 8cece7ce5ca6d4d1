-- ===== src/Birthday.antt =====
-- crates/zbag-engine/src/birthday.rs: the height from which a restored wallet is scanned, estimated
-- from a date in milliseconds since the epoch. `none` is an index out of range, which would panic.
pub mod Estimates
use zbag_app_tauri.Base.{
  ℕ, suc, ◌+◌, ◌-◌, ◌/◌, min, Bool, true, false, List, [], ◌∷◌, Option, none, some, get_elem?, leb,
  if◌then◌else◌,
}
use zbag_app_tauri.Base.Int.{ℤ, pos, negsuc, i64_max, nonneg, lebℤ}
use zbag_app_tauri.Servers.{Network, mainnet, testnet}

abbrev pub average_block_time_ms : ℕ
average_block_time_ms = 75000

abbrev pub safety_margin_blocks : ℕ
safety_margin_blocks = 300

abbrev pub genesis_ms : ℕ
genesis_ms = 1477612800000

-- A time and the height that the chain has at that time at least.
abbrev pub mainnet_checkpoints : List (ℕ × ℕ)
mainnet_checkpoints =
    (genesis_ms, 0)
    ∷ (1546300800000, 419200)
    ∷ (1609459200000, 1046400)
    ∷ (1654041600000, 1687104)
    ∷ []

abbrev pub u32_max : ℕ
u32_max = 4294967295

-- `saturating_sub` of the margin and `clamp(0, u32::MAX)`: what falls below 0 is 0 at once.
abbrev pub with_margin : ℕ → ℕ
with_margin estimated = min (estimated - safety_margin_blocks) u32_max

-- The length of the longest prefix of checkpoints that are not after the date.
unfoldable pub partition_point : List (ℕ × ℕ) → ℕ → ℕ
partition_point [] date = 0
partition_point ((ts, height) ∷ rest) date =
    let later = partition_point rest date in if leb ts date then suc later else 0

-- From the last checkpoint on, a block every 75 seconds.
abbrev pub from_checkpoint : Option (ℕ × ℕ) → ℕ → Option ℕ
from_checkpoint none date = none
from_checkpoint (some (base_ts, base_height)) date =
    some (with_margin (min (base_height + (date - base_ts) / average_block_time_ms) i64_max))

unfoldable pub estimate_from_checkpoints : List (ℕ × ℕ) → ℤ → Option ℕ
unfolding partition_point
estimate_from_checkpoints [] birthday_date_ms = some 0
estimate_from_checkpoints ((first_ts, height) ∷ rest) birthday_date_ms =
    let checkpoints = (first_ts, height) ∷ rest in
    let date = nonneg birthday_date_ms in
    if lebℤ birthday_date_ms (pos first_ts)
    then some 0
    else from_checkpoint (get_elem? checkpoints (partition_point checkpoints date - 1)) date

unfoldable pub estimate_linear : ℕ → ℤ → ℕ
estimate_linear genesis birthday_date_ms =
    if lebℤ birthday_date_ms (pos genesis)
    then 0
    else with_margin ((nonneg birthday_date_ms - genesis) / average_block_time_ms)

unfoldable pub estimate_birthday_height : Network → ℤ → Option ℕ
unfolding estimate_from_checkpoints estimate_linear
estimate_birthday_height mainnet birthday_date_ms =
    estimate_from_checkpoints mainnet_checkpoints birthday_date_ms
estimate_birthday_height testnet birthday_date_ms =
    some (estimate_linear genesis_ms birthday_date_ms)
