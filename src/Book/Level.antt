-- ===== src/Book/Level.antt =====
-- src/ob.c, the helpers that write one level of a new snapshot. Each takes the offset `at` where the
-- writer stands, which becomes the level's `byte_offset`.
pub mod Copies
pub mod Fills
use tiltyard.Base.{
  ℕ, zero, suc, ◌+◌, ◌-◌, ◌*◌, ◌/◌, ◌%◌, Bool, true, false, ◌||◌, List, [], ◌∷◌, ◌++◌, Option, none,
  some, length, take, u16, u32, sub32, ltb, ◌==◌, if◌then◌else◌,
}
use tiltyard.Order.{Fill}
use tiltyard.Book.Types.{Entry, Level, Writer, level_size}

-- The entries from position `i` on that nothing was written to: `stale` is the memory's content.
unfoldable pub stale_from : (ℕ → Entry) → ℕ → ℕ → List Entry
stale_from stale i zero = []
stale_from stale i (suc n) = stale i ∷ stale_from stale (suc i) n

-- `mbo_copy_level`: the byte count is a u16, so it wraps at 8192 orders, and the entries past it are
-- whatever the new block held.
unfoldable pub copy_level : (ℕ → Entry) → Level → ℕ → Level
unfolding level_size stale_from
copy_level stale old at =
    let copied = (u16 (level_size (length old.entries)) - 4) / 8 in
    record {
      price = old.price;
      byte_offset = at;
      quantity = old.quantity;
      entries = take copied old.entries ++ stale_from stale copied (length old.entries - copied);
    }

-- `mbo_app_level`; `none` is the `exit(1)` on a quantity that ends up 0.
unfoldable pub app_level : Level → ℕ → ℕ → Option Level
app_level new order_id quantity =
    let total = u32 (new.quantity + quantity) in
    if total == 0
    then none
    else some (record new {
      quantity = total;
      entries = new.entries ++ record { order_id = order_id; quantity = quantity } ∷ [];
    })

-- The loop of `mbo_shrink_level`: the first entry with the id, and the level's quantity.
unfoldable pub shrink_entries : List Entry → ℕ → ℕ → ℕ → ℕ → ℕ × List Entry
shrink_entries [] order_id quantity new_id total = (total, [])
shrink_entries (e ∷ es) order_id quantity new_id total =
    let rest = shrink_entries es order_id quantity new_id total in
    if e.order_id == order_id
    then (
      sub32 total (sub32 e.quantity quantity),
      record { order_id = new_id; quantity = quantity } ∷ es,
    )
    else (rest.0, e ∷ rest.1)

unfoldable pub shrink_level : Level → ℕ → ℕ → ℕ → Level
unfolding shrink_entries
shrink_level new order_id quantity new_id =
    let shrunk = shrink_entries new.entries order_id quantity new_id new.quantity in
    record new { quantity = shrunk.0; entries = shrunk.1 }

-- `mbo_insert_level`
unfoldable pub insert_level : ℕ → ℕ → ℕ → ℕ → Level
insert_level order_id price quantity at = record {
  price = price;
  byte_offset = at;
  quantity = quantity;
  entries = record { order_id = order_id; quantity = quantity } ∷ [];
}

-- What the loop of `mbo_fill_remove` leaves: the entries kept, the level's quantity, the fills, and
-- the quantity that the taker still has.
pub record Bitten : Type 0 where
  pub kept : List Entry
  pub quantity : ℕ
  pub fills : List Fill
  pub remaining : ℕ

abbrev pub keep_entry : Entry → Bitten → Bitten
keep_entry e b = record b { kept = e ∷ b.kept }

-- One round for each entry, in queue order.
unfoldable pub fill_entries : ℕ → ℕ → List Entry → ℕ → ℕ → List Fill → Bitten
fill_entries cancel_id cancel_id2 [] remaining quantity fills = record {
  kept = [];
  quantity = quantity;
  fills = fills;
  remaining = remaining;
}
fill_entries cancel_id cancel_id2 (e ∷ es) remaining quantity fills =
    elim (e.order_id == cancel_id || e.order_id == cancel_id2) [
      | true ↦ fill_entries cancel_id cancel_id2 es remaining (sub32 quantity e.quantity) fills
      | false ↦ elim (remaining == 0) [
        | true ↦ keep_entry e (fill_entries cancel_id cancel_id2 es remaining quantity fills)
        | false ↦ elim (ltb remaining e.quantity) [
          | true ↦
              keep_entry (record e { quantity = e.quantity - remaining })
                (fill_entries cancel_id cancel_id2 es 0 (sub32 quantity remaining) (
                  fills
                  ++ record { order_id = e.order_id; quantity_filled = remaining; partial = 1 }
                    ∷ []))
          | false ↦
              fill_entries cancel_id cancel_id2 es (remaining - e.quantity)
                (sub32 quantity e.quantity)
                (fills
                  ++ record { order_id = e.order_id; quantity_filled = e.quantity; partial = 0 }
                    ∷ [])
        ]
      ]
    ]

-- `mbo_fill_remove`: the level that is left, and the fills queued behind those given.
unfoldable pub fill_remove : Level → ℕ → ℕ → ℕ → ℕ → List Fill → Level × List Fill
unfolding fill_entries
fill_remove old at remaining cancel_id cancel_id2 fills =
    let b = fill_entries cancel_id cancel_id2 old.entries remaining old.quantity fills in
    (
      record { price = old.price; byte_offset = at; quantity = b.quantity; entries = b.kept },
      b.fills,
    )

-- The loop of `mbo_splice_level`: every entry but the cancelled id, and the level's quantity.
unfoldable pub splice_entries : List Entry → ℕ → ℕ → ℕ × List Entry
splice_entries [] cancel_id quantity = (quantity, [])
splice_entries (e ∷ es) cancel_id quantity = elim (e.order_id == cancel_id) [
  | true ↦ splice_entries es cancel_id (sub32 quantity e.quantity)
  | false ↦ let rest = splice_entries es cancel_id quantity in (rest.0, e ∷ rest.1)
]

-- `mbo_splice_level`
unfoldable pub splice_level : Level → ℕ → ℕ → Level
unfolding splice_entries
splice_level old at cancel_id =
    let spliced = splice_entries old.entries cancel_id old.quantity in
    record { price = old.price; byte_offset = at; quantity = spliced.0; entries = spliced.1 }

-- `mbo_jump` on a writer, over the level just written.
unfoldable pub jump : Writer → Level → Writer
unfolding level_size
jump w l = record {
  levels = w.levels ++ l ∷ [];
  level = w.level + level_size (length l.entries);
  index = u16 (w.index + 1);
}

-- `mbor_init` for a new snapshot.
abbrev pub start : Writer
start = record { levels = []; level = 0; index = 0 }
