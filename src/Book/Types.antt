-- ===== src/Book/Types.antt =====
-- include/ob.h: the full-depth book snapshot (MBO). The blob holds a header, one index entry for
-- each price level in ascending order, and the levels' orders. Here a level is its index entry and
-- its orders together, so that `level_count` and the number of levels really written are two things.
use tiltyard.Base.{ℕ, ◌+◌, ◌*◌, List}

-- `MBOEntry`
pub record Entry : Type 0 where
  pub order_id : ℕ
  pub quantity : ℕ

-- `MBOIndex` with the `MBOLevel` at its `byte_offset`; `order_count` is the length of `entries`.
pub record Level : Type 0 where
  pub price : ℕ
  pub byte_offset : ℕ
  pub quantity : ℕ
  pub entries : List Entry

-- `MBO`
pub record Book : Type 0 where
  pub hi_bid_index : ℕ
  pub level_count : ℕ
  pub levels : List Level

-- `sizeof(MBO)` is 4, `sizeof(MBOIndex)` 12, `sizeof(MBOLevel)` 4 and `sizeof(MBOEntry)` 8.
unfoldable pub data_start_offset : ℕ → ℕ
data_start_offset level_count = 4 + level_count * 12

unfoldable pub level_size : ℕ → ℕ
level_size order_count = 4 + order_count * 8

-- An `MBORunner` that writes: the levels behind it, the offset of `level` from `data_start`, `index`.
pub record Writer : Type 0 where
  pub levels : List Level
  pub level : ℕ
  pub index : ℕ
