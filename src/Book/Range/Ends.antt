-- ===== src/Book/Range/Ends.antt =====
-- The walks of `ob_affected_range` end, and always with an operation.
use tiltyard.Base.{
  ℕ, zero, suc, ◌+◌, ◌-◌, ◌<◌, ◌≡◌, Bool, true, false, List, ◌++◌, Option, none, some, length,
  get_or, u16, sub16, leb, if◌then◌else◌, arith, Bool-cases, inl, inr,
}
use tiltyard.Order.{Order, Fill}
use tiltyard.Book.Types.{Level, Book}
use tiltyard.Book.Shape.{IsBook}
use tiltyard.Book.Range.{
  Op, Side, no_level, deeper, is_buy, effective_quantity, level_fills, cross, place, rest_place,
  incoming_range, affected_range, side_range, pulls,
}

abbrev pub is_invalid : Op → Bool
is_invalid Op.invalid = true
is_invalid _ = false

-- How many levels are left to walk over.
abbrev to_go : Book → Bool → ℕ → ℕ
to_go book buy current = if buy then sub16 book.level_count 1 - current else current

cross_ends :
    (fuel : ℕ) (book : Book) (rep : Order) (can : Option Order) (own : Option ℕ)
    (co_can : Option Order) (co_id current remaining above : ℕ) (fills : List Fill)
    → current < book.level_count
    → book.level_count < 65536
    → to_go book (is_buy rep) current < fuel
    → is_invalid (cross fuel book rep can own co_can co_id current remaining above fills).op_type
      ≡ false
unfolding cross
cross_ends zero book rep can own co_can co_id current remaining above fills c b f =
    absurd (omega arith)
cross_ends (suc fuel) book rep can own co_can co_id current remaining above fills c b f =
    let buy = is_buy rep in
    let level = get_or book.levels current no_level in
    let size = effective_quantity level can co_can in
    let above' = if leb remaining size then current else above in
    let next =
      cross_ends fuel book rep can own co_can co_id (deeper buy current) (remaining - size) above'
        (fills ++ level_fills level.entries own co_id) in
    elim (Bool-cases buy) [ inl y ↦ ground (arith, next) | inr n ↦ ground (arith, next) ]

place_ends :
    (fuel : ℕ) (levels : List Level) (buy : Bool) (price bottom at : ℕ)
    → at < 65536
    → bottom < 65536
    → (if buy then sub16 at bottom else sub16 bottom at) < fuel
    → is_invalid (place fuel levels buy price bottom at).op_type ≡ false
unfolding place
place_ends zero levels buy price bottom at a b f = absurd (omega arith)
place_ends (suc fuel) levels true price bottom at a b f =
    ground (arith, place_ends fuel levels true price bottom (sub16 at 1))
place_ends (suc fuel) levels false price bottom at a b f =
    ground (arith, place_ends fuel levels false price bottom (u16 (at + 1)))

rest_ends :
    (book : Book) (buy : Bool) (price : ℕ)
    → IsBook book
    → is_invalid (rest_place book buy price).op_type ≡ false
unfolding rest_place
rest_ends book true price v = ground (
  arith,
  v.word,
  v.boundary,
  v.few,
  place_ends (length book.levels + 1) book.levels true price 0 (u16 (book.hi_bid_index + 1)),
)
rest_ends book false price v = ground (
  arith,
  v.word,
  v.boundary,
  v.few,
  v.counted,
  place_ends (length book.levels + 1) book.levels false price (sub16 book.level_count 1)
      book.hi_bid_index,
)

incoming_ends :
    (book : Book) (rep : Order) (can : Option Order) (own : Option ℕ) (co_can : Option Order)
    (co_id : ℕ) (fills : List Fill)
    → IsBook book
    → is_invalid (incoming_range book rep can own co_can co_id fills).op_type ≡ false
unfolding incoming_range
incoming_ends book rep can own co_can co_id fills v =
    let buy = is_buy rep in
    let first = if buy then u16 (book.hi_bid_index + 1) else book.hi_bid_index in
    let top = if buy then sub16 book.level_count 1 else 0 in
    let walk =
      cross_ends (length book.levels + 1) book rep can own co_can co_id first rep.quantity top
        fills in
    let rest = rest_ends book buy rep.price v in
    elim (Bool-cases buy) [
      | inl y ↦ ground (arith, walk, rest, v.word, v.boundary, v.few, v.counted)
      | inr n ↦ ground (arith, walk, rest, v.word, v.boundary, v.few, v.counted)
    ]

affected_ends :
    (book : Book) (s : Side) (can : Order) (co_can : Option Order) (co_id : ℕ) (fills : List Fill)
    → IsBook book
    → is_invalid (affected_range book s can co_can co_id fills).op_type ≡ false
unfolding affected_range
affected_ends book s can co_can co_id fills v = ground (
  arith,
  incoming_ends book s.rep (if s.is_can_rep then some can else none)
      (if s.is_can_rep then some s.cancel_id else none) co_can co_id fills v,
)

-- On a sound book the range of either side of a change is found: the walk over the opponents and the
-- search for a place to rest end within the levels of the book, and the operation is never
-- `OP_TYPE_INVALID`, whatever the order, the order store, the other leg of a pair and the fills so far.
pub side_range_lem :
    (orders : ℕ → Order) (book : Book) (s : Side) (co : Option Side) (fills : List Fill)
    → IsBook book
    → is_invalid (side_range orders book s co fills).op_type ≡ false
unfolding side_range
side_range_lem orders book s none fills v =
    affected_ends book s (orders s.cancel_id) none 4294967295 fills v
side_range_lem orders book s (some c) fills v = elim (Bool-cases (pulls c)) [
  | inl y ↦
      rw y
        (affected_ends book s (orders s.cancel_id) (some (orders c.cancel_id)) c.cancel_id fills v)
  | inr n ↦ rw n (affected_ends book s (orders s.cancel_id) none 4294967295 fills v)
]
