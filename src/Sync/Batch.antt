-- ===== src/Sync/Batch.antt =====
-- `AdaptiveBatchController`: how many blocks the next download asks for.
pub mod Sizes
use zbag_app_tauri.Base.{
  ℕ, ◌+◌, ◌*◌, ◌/◌, min, max, Bool, true, false, ◌&&◌, Option, none, some, ◌==◌, ltb, leb,
  if◌then◌else◌,
}

abbrev pub batch_size : ℕ
batch_size = 250

abbrev pub batch_size_sandblasting : ℕ
batch_size_sandblasting = 100

abbrev pub adaptive_batch_min_size : ℕ
adaptive_batch_min_size = 125

abbrev pub adaptive_batch_max_size : ℕ
adaptive_batch_max_size = 2000

abbrev pub slow_scan : ℕ
slow_scan = 2000000000

abbrev pub fast_scan : ℕ
fast_scan = 800000000

abbrev pub u32_max : ℕ
u32_max = 4294967295

abbrev pub saturate : ℕ → ℕ
saturate n = min n u32_max

abbrev pub clamp : ℕ → ℕ → ℕ → ℕ
clamp lo hi x = if ltb x lo then lo else (if ltb hi x then hi else x)

-- The range 1,710,000 to 2,050,000 has the large blocks.
unfoldable pub effective_batch_size : ℕ → ℕ
effective_batch_size height =
    if leb 1710000 height && leb height 2050000 then batch_size_sandblasting else batch_size

pub record ScanBatchActivity : Type 0 where
  pub scanned_blocks : ℕ
  pub spent_sapling : ℕ
  pub spent_orchard : ℕ
  pub received_sapling : ℕ
  pub received_orchard : ℕ

unfoldable pub touched_notes : ScanBatchActivity → ℕ
touched_notes a = saturate (
    saturate (saturate (a.spent_sapling + a.spent_orchard) + a.received_sapling)
    + a.received_orchard)

pub record AdaptiveBatchController : Type 0 where
  pub min_size : ℕ
  pub max_size : ℕ
  pub current_size : ℕ

pub data AdaptiveBatchDecision : Type 0 where
  grew shrunk : AdaptiveBatchDecision

pub record AdaptiveBatchAdjustment : Type 0 where
  pub previous : ℕ
  pub current : ℕ
  pub decision : AdaptiveBatchDecision

unfoldable pub new : ℕ → AdaptiveBatchController
unfolding effective_batch_size
new range_start =
    let base = effective_batch_size range_start in
    if base == batch_size_sandblasting
    then record { min_size = base; max_size = base; current_size = base }
    else record {
      min_size = min adaptive_batch_min_size batch_size;
      max_size = max adaptive_batch_max_size batch_size;
      current_size = base;
    }

unfoldable pub next_download_size : AdaptiveBatchController → ℕ → ℕ
unfolding effective_batch_size
next_download_size c height =
    if effective_batch_size height == batch_size_sandblasting
    then batch_size_sandblasting
    else clamp c.min_size c.max_size c.current_size

abbrev pub scaled_size : ℕ → ℕ → ℕ → ℕ
scaled_size current elapsed touched =
    if leb slow_scan elapsed
    then saturate (current * 3) / 4
    else (if leb elapsed fast_scan && touched == 0 then saturate (current * 3) / 2 else current)

abbrev pub adjustment : ℕ → ℕ → Option AdaptiveBatchAdjustment
adjustment previous current =
    if current == previous
    then none
    else some (record {
      previous = previous;
      current = current;
      decision = if ltb previous current then grew else shrunk;
    })

unfoldable pub record_scan_result :
    AdaptiveBatchController
    → ℕ
    → ℕ
    → ScanBatchActivity
    → AdaptiveBatchController × Option AdaptiveBatchAdjustment
unfolding effective_batch_size touched_notes
record_scan_result c batch_start elapsed activity =
    let current =
      clamp c.min_size c.max_size (scaled_size c.current_size elapsed (touched_notes activity)) in
    if activity.scanned_blocks == 0
    then (c, none)
    else (if effective_batch_size batch_start == batch_size_sandblasting
        then (c, none)
        else (if elapsed == 0
            then (c, none)
            else (record c { current_size = current }, adjustment c.current_size current)))
