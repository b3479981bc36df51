-- ===== src/Book/Expire.antt =====
-- src/ob.c, `ob_expire`: take a sorted batch of resting orders out of the book in one snapshot.
-- A cancel is `price << 32 | order_id`.
pub mod Search
pub mod Batch
pub mod Written
pub mod Counts
pub mod Correct
use tiltyard.Base.{
  ℕ, zero, suc, ◌+◌, ◌/◌, ◌%◌, Bool, true, false, ◌&&◌, not, List, [], ◌∷◌, length, take, drop,
  get_or, max_u16, u16, u32, sub16, ltb, leb, ◌==◌, if◌then◌else◌,
}
use tiltyard.Book.Types.{Entry, Level, Book, Writer, data_start_offset}
use tiltyard.Book.Level.{copy_level, jump, start}

abbrev pub cancel_id : ℕ → ℕ
cancel_id c = c % 4294967296

abbrev pub cancel_price : ℕ → ℕ
cancel_price c = u16 (c / 4294967296)

-- The binary search of `cancels_hit`, on fuel.
unfoldable pub hit_loop : ℕ → List ℕ → ℕ → ℕ → ℕ → Bool
hit_loop zero cancels order_id lo hi = false
hit_loop (suc fuel) cancels order_id lo hi = elim (ltb lo hi) [
  | false ↦ false
  | true ↦
      let mid = (lo + hi) / 2 in
      let mid_id = cancel_id (get_or cancels mid 0) in
      elim (mid_id == order_id) [
        | true ↦ true
        | false ↦ elim (ltb mid_id order_id) [
          | true ↦ hit_loop fuel cancels order_id (mid + 1) hi
          | false ↦ hit_loop fuel cancels order_id lo mid
        ]
      ]
]

-- `cancels_hit` over a whole run.
unfoldable pub cancels_hit : List ℕ → ℕ → Bool
unfolding hit_loop
cancels_hit cancels order_id = hit_loop (length cancels + 1) cancels order_id 0 (length cancels)

-- The loop of `mbo_prune_level`: the entries kept and their quantity.
unfoldable pub prune_entries : List ℕ → List Entry → ℕ → ℕ × List Entry
prune_entries cancels [] kept = (kept, [])
prune_entries cancels (e ∷ es) kept = elim (cancels_hit cancels e.order_id) [
  | true ↦ prune_entries cancels es kept
  | false ↦ let rest = prune_entries cancels es (u32 (kept + e.quantity)) in (rest.0, e ∷ rest.1)
]

-- `mbo_prune_level`
unfoldable pub prune_level : Level → ℕ → List ℕ → Level
unfolding prune_entries
prune_level old at cancels =
    let pruned = prune_entries cancels old.entries 0 in
    record { price = old.price; byte_offset = at; quantity = pruned.0; entries = pruned.1 }

-- `level_hits`: the cancels left once those below the price are passed. The cursor `*c` is the rest
-- of the sorted array.
unfoldable pub skip_below : ℕ → List ℕ → List ℕ
skip_below price [] = []
skip_below price (c ∷ cs) = if ltb (cancel_price c) price then skip_below price cs else c ∷ cs

-- How many cancels at the front sit exactly at the price.
unfoldable pub count_at : ℕ → List ℕ → ℕ
count_at price [] = 0
count_at price (c ∷ cs) = if cancel_price c == price then suc (count_at price cs) else 0

-- What pass one counts: the levels that survive, and those of them that are bids.
pub record Survivors : Type 0 where
  pub levels : ℕ
  pub bids : ℕ

-- Pass one, from old level `i` on.
unfoldable pub count_survivors : ℕ → List Level → ℕ → List ℕ → Survivors → Survivors
count_survivors old_hi_bid [] i cs s = s
count_survivors old_hi_bid (l ∷ ls) i cs s =
    let cursor = skip_below l.price cs in
    let hits = count_at l.price cursor in
    count_survivors old_hi_bid ls (suc i) (drop hits cursor) (
      if ltb hits (length l.entries)
      then record {
        levels = u16 (s.levels + 1);
        bids = if not (old_hi_bid == max_u16) && leb i old_hi_bid then u16 (s.bids + 1) else s.bids;
      }
      else s)

-- Pass two.
unfoldable pub expire_levels : (ℕ → Entry) → List Level → List ℕ → Writer → Writer
expire_levels stale [] cs w = w
expire_levels stale (l ∷ ls) cs w =
    let cursor = skip_below l.price cs in
    let hits = count_at l.price cursor in
    expire_levels stale ls (drop hits cursor) (
      if hits == 0
      then jump w (copy_level stale l w.level)
      else if ltb hits (length l.entries)
      then jump w (prune_level l w.level (take hits cursor))
      else w)

-- `ob_expire`: the new snapshot and its size in bytes.
unfoldable pub ob_expire : (ℕ → Entry) → List ℕ → Book → Book × ℕ
unfolding count_survivors expire_levels data_start_offset
ob_expire stale cancels old =
    let s =
      count_survivors old.hi_bid_index old.levels 0 cancels (record { levels = 0; bids = 0 }) in
    let w = expire_levels stale old.levels cancels start in
    (
      record {
        hi_bid_index = if s.bids == 0 then max_u16 else sub16 s.bids 1;
        level_count = s.levels;
        levels = w.levels;
      },
      data_start_offset s.levels + w.level,
    )
