-- ===== src/Book/Range/Passive.antt =====
-- `ob_affected_range` of a limit order that reaches no opponent and may rest.
use tiltyard.Base.{
  ℕ, ◌+◌, ◌≡◌, refl, Bool, true, false, ◌&&◌, not, List, Option, none, max_u16, max_u32, u16, bit,
  ltb, ◌==◌, if◌then◌else◌, arith, Bool-cases, inl, inr,
}
use tiltyard.Order.{Order, Fill, can_rep_bit, cancel_bit}
use tiltyard.Book.Types.{Book}
use tiltyard.Book.Shape.{IsBook, bid_count}
use tiltyard.Book.Range.{
  worse, is_buy, is_market, is_gtc, rest_place, incoming_range, affected_range, side_init,
  side_range,
}
use tiltyard.Book.Range.Places.{price_at, IsPlace, IsPassive, rest_place_lem}

-- A good-till-cancelled limit order that replaces and cancels nothing.
pub record IsPlain (o : Order) : Type 0 where
  pub no_replace : bit o.status can_rep_bit ≡ false
  pub no_cancel : bit o.status cancel_bit ≡ false
  pub limit : is_market o ≡ false
  pub rests : is_gtc o ≡ true

-- The test for an opponent within reach fails.
out_of_reach :
    (book : Book) (buy : Bool) (price : ℕ)
    → IsBook book
    → IsPassive book buy price
    → let hi = book.hi_bid_index in
      let first = if buy then u16 (hi + 1) else hi in
      ((if buy then ltb first book.level_count else not (hi == max_u16))
        && not (worse buy price (price_at book.levels first)))
      ≡ false
out_of_reach book true price v far = ground (arith, far (bid_count book), v.counted)
out_of_reach book false price v far = ground (arith, far book.hi_bid_index, v.word)

no_opponent :
    (book : Book) (rep : Order) (own : Option Order) (id : Option ℕ) (co : Option Order) (co_id : ℕ)
    (fills : List Fill)
    → IsBook book
    → is_market rep ≡ false
    → is_gtc rep ≡ true
    → IsPassive book (is_buy rep) rep.price
    → let p = rest_place book (is_buy rep) rep.price in
      incoming_range book rep own id co co_id fills ≡ record {
        lui = if is_buy rep then p.below else p.above;
        hui = if is_buy rep then p.above else p.below;
        op_type = p.op_type;
        modified_level = 0;
        remaining = rep.quantity;
        fills = fills;
      }
unfolding incoming_range
no_opponent book rep own id co co_id fills v limit rests far = elim (Bool-cases (is_buy rep)) [
  | inl y ↦ ground (arith, limit, rests, out_of_reach book (is_buy rep) rep.price v far)
  | inr n ↦ ground (arith, limit, rests, out_of_reach book (is_buy rep) rep.price v far)
]

-- `ob_affected_range` on a sound book, for a plain limit order that reaches no opponent: nothing is
-- filled and the whole quantity is left; the operation is APPEND with `lui` and `hui` at the level
-- that has the price, or NEW with the untouched levels split at a gap, the ones below it cheaper and
-- the ones above it dearer, `hui` one below `lui` modulo 2 ^ 16.
pub side_range-passive :
    (orders : ℕ → Order) (book : Book) (order_id : ℕ) (fills : List Fill)
    → IsBook book
    → IsPlain (orders order_id)
    → IsPassive book (is_buy (orders order_id)) (orders order_id).price
    → let t = side_range orders book (side_init orders book order_id) none fills in
      IsPlace book.levels (orders order_id).price t.op_type t.lui t.hui
      × (t.fills ≡ fills)
      × (t.remaining ≡ (orders order_id).quantity)
unfolding side_range affected_range side_init
side_range-passive orders book order_id fills v plain far =
    let rep = orders order_id in
    let r = no_opponent book rep none none none max_u32 fills v plain.limit plain.rests far in
    let place = rest_place_lem book (is_buy rep) rep.price v far in
    rw (plain.no_replace, plain.no_cancel, r) (place, refl, refl)
