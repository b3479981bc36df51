-- ===== src/Feed.antt =====
-- src/mbp.c and include/mbp.h: the price-aggregated views of the book (MBP, MBP10, MBP1), as the
-- values that the server's last blobs of each kind hold.
pub mod InStep
pub mod Slots
use tiltyard.Base.{
  ℕ, zero, suc, ◌+◌, ◌-◌, ◌*◌, Bool, true, false, ◌&&◌, ◌||◌, not, List, [], ◌∷◌, get_or, take, u16,
  u32, sub16, ltb, ◌==◌, if◌then◌else◌,
}
use tiltyard.Book.Types.{Level, Book}

-- `MBPIndex`
pub record Slot : Type 0 where
  pub price : ℕ
  pub quantity : ℕ

-- `MBP`
pub record PriceBook : Type 0 where
  pub hi_bid_index : ℕ
  pub level_count : ℕ
  pub levels : List Slot

-- What the server's `last_mbp`, `last_mbp10` and `last_mbp1` name. Of `MBP10` and `MBP1` these are
-- the 20 levels, and the best bid and the best ask.
pub record Feed : Type 0 where
  pub mbp : PriceBook
  pub mbp10 : List Slot
  pub hi_bid : Slot
  pub lo_ask : Slot

abbrev pub no_slot : Slot
no_slot = record { price = 0; quantity = 0 }

-- `mbp_derive_size`
unfoldable pub derive_size : Book → ℕ
derive_size mbo = 4 + mbo.level_count * 8

-- The index copy of `mbp_derive`.
unfoldable pub squash_levels : List Level → List Slot
squash_levels [] = []
squash_levels (level ∷ levels) =
    record { price = level.price; quantity = level.quantity } ∷ squash_levels levels

unfoldable pub squash : Book → PriceBook
unfolding squash_levels
squash mbo = record {
  hi_bid_index = mbo.hi_bid_index;
  level_count = mbo.level_count;
  levels = squash_levels (take mbo.level_count mbo.levels);
}

-- `i < (i16)(9 - hi_bid_index)`
unfoldable pub before_bids : ℕ → ℕ → Bool
before_bids hi i = let d = sub16 9 hi in ltb d 32768 && ltb i d

-- Slot `i` of the ten levels on either side: `new_quantity` is a u16.
unfoldable pub slot_at : PriceBook → ℕ → Slot
unfolding before_bids
slot_at mbp i =
    if before_bids mbp.hi_bid_index i
    then no_slot
    else if ltb (mbp.level_count + 8) (i + mbp.hi_bid_index)
    then no_slot
    else (let level = get_or mbp.levels (i + mbp.hi_bid_index - 9) no_slot in
        record { price = level.price; quantity = u16 level.quantity })

-- The slots `i`, …, `i + n - 1`.
unfoldable pub window_from : PriceBook → ℕ → ℕ → List Slot
unfolding slot_at
window_from mbp i zero = []
window_from mbp i (suc n) = slot_at mbp i ∷ window_from mbp (suc i) n

unfoldable pub window : PriceBook → List Slot
unfolding window_from
window mbp = window_from mbp 0 20

unfoldable pub slot_differs : Slot → Slot → Bool
slot_differs old new = not (new.quantity == old.quantity) || not (new.price == old.price)

-- `mbp1_derive`
unfoldable pub mbp1_derive : Feed → Feed
mbp1_derive feed = record feed {
  hi_bid = get_or feed.mbp10 9 no_slot;
  lo_ask = get_or feed.mbp10 10 no_slot;
}

-- `mbp10_derive`
unfoldable pub mbp10_derive : Feed → Feed
unfolding window slot_differs mbp1_derive
mbp10_derive feed =
    let new = window feed.mbp in
    let hi_bid_changed = slot_differs (get_or feed.mbp10 9 no_slot) (get_or new 9 no_slot) in
    let lo_ask_changed = slot_differs (get_or feed.mbp10 10 no_slot) (get_or new 10 no_slot) in
    let feed' = record feed { mbp10 = new } in
    if hi_bid_changed || lo_ask_changed then mbp1_derive feed' else feed'

-- The scan of `mbp_derive` over the old slots, from slot `i`, that stops at a difference.
unfoldable pub scan : PriceBook → ℕ → List Slot → Bool
unfolding slot_at slot_differs
scan mbp i [] = false
scan mbp i (old ∷ rest) = if slot_differs old (slot_at mbp i) then true else scan mbp (suc i) rest

-- `mbp10_update` of `mbp_derive`.
unfoldable pub needs_mbp10 : PriceBook → PriceBook → List Slot → Bool
unfolding scan
needs_mbp10 old mbp old_mbp10 =
    let hi = mbp.hi_bid_index in
    let previous_ask_count = sub16 (sub16 old.level_count 1) hi in
    let new_ask_count = sub16 (sub16 mbp.level_count 1) hi in
    let previous_bid_count = u16 (old.hi_bid_index + 1) in
    let new_bid_count = u16 (hi + 1) in
    if not (previous_ask_count == new_ask_count)
      && (ltb previous_ask_count 10 || ltb new_ask_count 10)
    then true
    else if not (previous_bid_count == new_bid_count)
        && (ltb previous_bid_count 10 || ltb new_bid_count 10)
    then true
    else scan mbp 0 old_mbp10

-- `mbp_derive`
unfoldable pub mbp_derive : Feed → Book → Feed
unfolding squash needs_mbp10 mbp10_derive
mbp_derive feed mbo =
    let mbp = squash mbo in
    let feed' = record feed { mbp = mbp } in
    if needs_mbp10 feed.mbp mbp feed.mbp10 then mbp10_derive feed' else feed'
