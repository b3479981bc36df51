-- ===== src/Book/Position.antt =====
-- src/ob.c, `ob_queue_position`: the quantity ahead of an order at its price.
pub mod Correct
use tiltyard.Base.{ℕ, ◌+◌, List, [], ◌∷◌, max_u32, u32, ◌==◌, if◌then◌else◌}
use tiltyard.Book.Types.{Entry, Level, Book}

unfoldable pub quantity_before : ℕ → List Entry → ℕ → ℕ
quantity_before order_id [] before = max_u32
quantity_before order_id (e ∷ es) before =
    if e.order_id == order_id
    then before
    else quantity_before order_id es (u32 (before + e.quantity))

unfoldable pub position_in : ℕ → ℕ → List Level → ℕ
position_in price order_id [] = max_u32
position_in price order_id (l ∷ ls) =
    let rest = position_in price order_id ls in
    if l.price == price then quantity_before order_id l.entries 0 else rest

-- `ob_queue_position`
unfoldable pub queue_position : ℕ → ℕ → Book → ℕ
unfolding quantity_before position_in
queue_position price order_id book = position_in price order_id book.levels
