-- ===== src/Book/Range.antt =====
-- src/ob.c, `ob_affected_range`: which old levels one side of a change touches. Indices are u16:
-- 65535 stands for "one before level 0".
pub mod Ends
pub mod Places
pub mod Passive
use tiltyard.Base.{
  ℕ, zero, suc, ◌+◌, ◌-◌, Bool, true, false, ◌&&◌, ◌||◌, not, List, [], ◌∷◌, ◌++◌, Option, none,
  some, length, get_or, max_u16, max_u32, u16, sub16, sub32, bit, ltb, leb, ◌==◌, if◌then◌else◌,
}
use tiltyard.Order.{
  Order, Fill, fok_bit, ioc_bit, can_rep_bit, cancel_bit, buy_direction_bit, is_market_bit,
}
use tiltyard.Book.Types.{Entry, Level, Book}
use tiltyard.Book.Cancel.{find_price, is_wiped}

-- What is done to the affected levels: the constants `NEW` to `OP_TYPE_INVALID`.
pub data Op : Type 0 where
  new append rest_remainder fill_some can_rep exact can_no_wipe can_wipe shrink invalid : Op

-- `OBSide`, as far as `ob_side_init` fills it in.
pub record Side : Type 0 where
  pub rep : Order
  pub order_id : ℕ
  pub is_can_rep : Bool
  pub is_cancel : Bool
  pub cancel_id : ℕ
  pub cancel_price : ℕ
  pub cancel_index : ℕ
  pub cancel_was_sole : Bool

-- What `ob_affected_range` fills in, with the fills queue behind it.
pub record Touched : Type 0 where
  pub lui : ℕ
  pub hui : ℕ
  pub op_type : Op
  pub modified_level : ℕ
  pub remaining : ℕ
  pub fills : List Fill

-- What is read past the end of the levels; only a branch that uses no level reads there.
abbrev pub no_level : Level
no_level = record { price = 0; byte_offset = 0; quantity = 0; entries = [] }

-- One level towards deeper opponents (`+ multiplier`), and back (`- multiplier`).
abbrev pub deeper : Bool → ℕ → ℕ
deeper buy i = if buy then u16 (i + 1) else sub16 i 1

abbrev pub back : Bool → ℕ → ℕ
back buy i = if buy then sub16 i 1 else u16 (i + 1)

-- `multiplier * a < multiplier * b`
abbrev pub worse : Bool → ℕ → ℕ → Bool
worse buy a b = if buy then ltb a b else ltb b a

abbrev pub is_buy : Order → Bool
is_buy o = bit o.status buy_direction_bit

abbrev pub is_market : Order → Bool
is_market o = bit o.status is_market_bit

abbrev pub is_gtc : Order → Bool
is_gtc o = not (bit o.status ioc_bit || bit o.status fok_bit)

-- The size of a level without what this order replaces, and what the other leg pulls.
unfoldable pub effective_quantity : Level → Option Order → Option Order → ℕ
effective_quantity level can co_can =
    let own : ℕ = elim can [
      | none ↦ level.quantity
      | some c ↦ if level.price == c.price then sub32 level.quantity c.quantity else level.quantity
    ] in
    elim co_can [
      | none ↦ own
      | some c ↦ if level.price == c.price then sub32 own c.quantity else own
    ]

-- The fills of a level that is eaten whole, cancelled orders left out.
unfoldable pub level_fills : List Entry → Option ℕ → ℕ → List Fill
level_fills [] own co_cancel_id = []
level_fills (e ∷ es) own co_cancel_id =
    let rest = level_fills es own co_cancel_id in
    let pulled : Bool = elim own [ none ↦ false | some id ↦ e.order_id == id ] in
    if pulled || e.order_id == co_cancel_id
    then rest
    else record { order_id = e.order_id; quantity_filled = e.quantity; partial = 0 } ∷ rest

-- How the walk over the opponents ends.
pub record Crossed : Type 0 where
  pub op_type : Op
  pub above : ℕ
  pub modified_level : ℕ
  pub remaining : ℕ
  pub fills : List Fill

-- The walk over the opponents. `own` is the replaced order and its id, where there is one.
unfoldable pub cross :
    ℕ → Book → Order → Option Order → Option ℕ → Option Order → ℕ → ℕ → ℕ → ℕ → List Fill → Crossed
unfolding effective_quantity level_fills
cross zero book rep can own co_can co_id current remaining above fills = record {
  op_type = invalid;
  above = above;
  modified_level = 0;
  remaining = remaining;
  fills = fills;
}
cross (suc fuel) book rep can own co_can co_id current remaining above fills =
    let buy = is_buy rep in
    let level = get_or book.levels current no_level in
    let top = if buy then sub16 book.level_count 1 else 0 in
    let leftover = if is_gtc rep then rest_remainder else exact in
    elim (not (is_market rep) && ltb 0 remaining && worse buy rep.price level.price) [
      | true ↦ record {
        op_type = leftover;
        above = back buy current;
        modified_level = 0;
        remaining = remaining;
        fills = fills;
      }
      | false ↦
          let size = effective_quantity level can co_can in
          let above' = if leb remaining size then current else above in
          elim (ltb remaining size) [
            | true ↦ record {
              op_type = fill_some;
              above = above';
              modified_level = current;
              remaining = remaining;
              fills = fills;
            }
            | false ↦
                let fills' = fills ++ level_fills level.entries own co_id in
                elim (size == remaining) [
                  | true ↦ record {
                    op_type = exact;
                    above = above';
                    modified_level = 0;
                    remaining = 0;
                    fills = fills';
                  }
                  | false ↦ elim (current == top) [
                    | true ↦ record {
                      op_type = leftover;
                      above = top;
                      modified_level = 0;
                      remaining = remaining - size;
                      fills = fills';
                    }
                    | false ↦
                        cross fuel book rep can own co_can co_id (deeper buy current)
                          (remaining - size) above' fills'
                  ]
                ]
          ]
    ]

-- Where an order that rests goes: the operation, `untouched_below` and `untouched_above`.
pub record Place : Type 0 where
  pub op_type : Op
  pub below : ℕ
  pub above : ℕ

-- The search from the best level of its own side outwards, to `bottom`.
unfoldable pub place : ℕ → List Level → Bool → ℕ → ℕ → ℕ → Place
place zero levels buy price bottom at = record { op_type = invalid; below = at; above = at }
place (suc fuel) levels buy price bottom at = elim (at == bottom) [
  | true ↦ record { op_type = new; below = bottom; above = back buy bottom }
  | false ↦
      let next = back buy at in
      let level_price = (get_or levels next no_level).price in
      elim (price == level_price) [
        | true ↦ record { op_type = append; below = next; above = next }
        | false ↦ elim (worse buy level_price price) [
          | true ↦ record { op_type = new; below = at; above = next }
          | false ↦ place fuel levels buy price bottom next
        ]
      ]
]

-- The branch for an order that trades with nobody and may rest.
unfoldable pub rest_place : Book → Bool → ℕ → Place
unfolding place
rest_place book buy price =
    let hi = book.hi_bid_index in
    if buy && not (hi == max_u16) && ltb (get_or book.levels hi no_level).price price
    then record { op_type = new; below = u16 (hi + 1); above = hi }
    else place (length book.levels + 1) book.levels buy price
        (if buy then 0 else sub16 book.level_count 1) (if buy then u16 (hi + 1) else hi)

-- The branch for an order that is no plain cancel and no replace in place.
unfoldable pub incoming_range :
    Book → Order → Option Order → Option ℕ → Option Order → ℕ → List Fill → Touched
unfolding cross rest_place
incoming_range book rep can own co_can co_id fills =
    let buy = is_buy rep in
    let hi = book.hi_bid_index in
    let first = if buy then u16 (hi + 1) else hi in
    let top = if buy then sub16 book.level_count 1 else 0 in
    let opponents = if buy then ltb first book.level_count else not (hi == max_u16) in
    let reachable = not (worse buy rep.price (get_or book.levels first no_level).price) in
    elim (opponents && (is_market rep || reachable)) [
      | true ↦
          let c =
            cross (length book.levels + 1) book rep can own co_can co_id first rep.quantity top
              fills in
          record {
            lui = if buy then first else c.above;
            hui = if buy then c.above else first;
            op_type = c.op_type;
            modified_level = c.modified_level;
            remaining = c.remaining;
            fills = c.fills;
          }
      | false ↦ elim (is_market rep || not (is_gtc rep)) [
        | true ↦ record {
          lui = if buy then first else back buy first;
          hui = if buy then back buy first else first;
          op_type = exact;
          modified_level = 0;
          remaining = rep.quantity;
          fills = fills;
        }
        | false ↦
            let p = rest_place book buy rep.price in
            record {
              lui = if buy then p.below else p.above;
              hui = if buy then p.above else p.below;
              op_type = p.op_type;
              modified_level = 0;
              remaining = rep.quantity;
              fills = fills;
            }
      ]
    ]

-- `ob_affected_range`. `can` is the order that the side cancels; it is read only if there is one.
unfoldable pub affected_range : Book → Side → Order → Option Order → ℕ → List Fill → Touched
unfolding incoming_range
affected_range book s can co_can co_id fills = elim (not s.is_can_rep && s.is_cancel) [
  | true ↦ record {
    lui = s.cancel_index;
    hui = s.cancel_index;
    op_type = if s.cancel_was_sole then can_wipe else can_no_wipe;
    modified_level = 0;
    remaining = s.rep.quantity;
    fills = fills;
  }
  | false ↦
      elim (s.is_can_rep
        && s.rep.price == can.price
        && (if is_buy s.rep then is_buy can else not (is_buy can))) [
          | true ↦ record {
            lui = s.cancel_index;
            hui = s.cancel_index;
            op_type = if leb can.quantity s.rep.quantity then can_rep else shrink;
            modified_level = 0;
            remaining = s.rep.quantity;
            fills = fills;
          }
          | false ↦
              incoming_range book s.rep (if s.is_can_rep then some can else none)
                (if s.is_can_rep then some s.cancel_id else none) co_can co_id fills
        ]
]

-- `ob_locate_cancel` gives the index and whether the order was alone; with no such level the zeroed
-- fields stay.
unfoldable pub locate_cancel : List Level → Order → ℕ × Bool
unfolding find_price is_wiped
locate_cancel levels can =
    let i = find_price can.price levels 0 in
    if ltb i (length levels) then (i, is_wiped can.quantity levels i) else (0, false)

-- `ob_side_init`. `orders` is the order store, read by `fl_get`.
unfoldable pub side_init : (ℕ → Order) → Book → ℕ → Side
unfolding locate_cancel
side_init orders book order_id =
    let rep = orders order_id in
    let pulls = bit rep.status can_rep_bit || bit rep.status cancel_bit in
    let can = orders rep.other_id in
    let found = locate_cancel book.levels can in
    record {
      rep = rep;
      order_id = order_id;
      is_can_rep = bit rep.status can_rep_bit;
      is_cancel = bit rep.status cancel_bit;
      cancel_id = rep.other_id;
      cancel_price = if pulls then can.price else 0;
      cancel_index = if pulls then found.0 else 0;
      cancel_was_sole = if pulls then found.1 else false;
    }

abbrev pub pulls : Side → Bool
pulls s = s.is_can_rep || s.is_cancel

-- `ob_side_range` with the pair's other leg, or with none.
unfoldable pub side_range : (ℕ → Order) → Book → Side → Option Side → List Fill → Touched
unfolding affected_range
side_range orders book s co fills = elim co [
  | none ↦ affected_range book s (orders s.cancel_id) none max_u32 fills
  | some c ↦
      if pulls c
      then affected_range book s (orders s.cancel_id) (some (orders c.cancel_id)) c.cancel_id fills
      else affected_range book s (orders s.cancel_id) none max_u32 fills
]
