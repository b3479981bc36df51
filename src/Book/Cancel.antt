-- ===== src/Book/Cancel.antt =====
-- src/ob.c, `ob_cancel`: take one resting order out of the book.
pub mod Written
pub mod Counts
pub mod Correct
use tiltyard.Base.{
  ℕ, suc, ◌+◌, ◌≡◌, Bool, true, false, ◌&&◌, not, List, [], ◌∷◌, Option, none, some, get_elem?,
  max_u16, sub16, leb, ◌==◌, if◌then◌else◌,
}
use tiltyard.Order.{Order}
use tiltyard.Book.Types.{Entry, Level, Book, Writer, data_start_offset}
use tiltyard.Book.Level.{copy_level, splice_level, jump, start}

-- The index of the first level at a price, counting from `i`; the number of levels where none is.
unfoldable pub find_price : ℕ → List Level → ℕ → ℕ
find_price price [] i = i
find_price price (l ∷ ls) i = if l.price == price then i else find_price price ls (suc i)

-- Does the order make up the whole level at index `i`?
unfoldable pub is_wiped : ℕ → List Level → ℕ → Bool
is_wiped quantity levels i = elim (get_elem? levels i) [
  | none ↦ false
  | some l ↦ l.quantity == quantity
]

-- The copying loop, from old level `j` on.
unfoldable pub cancel_levels : (ℕ → Entry) → ℕ → Bool → ℕ → List Level → ℕ → Writer → Writer
cancel_levels stale i wipe cancel_id [] j w = w
cancel_levels stale i wipe cancel_id (l ∷ ls) j w =
    cancel_levels stale i wipe cancel_id ls (suc j) (
      if j == i
      then (if wipe then w else jump w (splice_level l w.level cancel_id))
      else jump w (copy_level stale l w.level))

-- `ob_cancel`: the new snapshot and its size in bytes.
unfoldable pub ob_cancel : (ℕ → Entry) → Order → ℕ → Book → Book × ℕ
unfolding find_price is_wiped cancel_levels data_start_offset
ob_cancel stale to_cancel cancel_id old =
    let i = find_price to_cancel.price old.levels 0 in
    let wipe = is_wiped to_cancel.quantity old.levels i in
    let count = if wipe then sub16 old.level_count 1 else old.level_count in
    let w = cancel_levels stale i wipe cancel_id old.levels 0 start in
    (
      record {
        hi_bid_index =
            if wipe && not (old.hi_bid_index == max_u16) && leb i old.hi_bid_index
            then sub16 old.hi_bid_index 1
            else old.hi_bid_index;
        level_count = count;
        levels = w.levels;
      },
      data_start_offset count + w.level,
    )
