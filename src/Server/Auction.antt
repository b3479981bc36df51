-- ===== src/Server/Auction.antt =====
-- src/server.c, the call auction: `auction_hold` to `server_auction_order` here, the curves of demand
-- and supply in Curves, the fills in Fills, and the cross in Cross.
pub mod Curves
pub mod Sums
pub mod Sources
pub mod Choices
pub mod Climb
pub mod Fills
pub mod Cross
use tiltyard.Base.{
  ℕ, ◌+◌, ◌-◌, ◌*◌, ◌^◌, Bool, true, false, ◌&&◌, ◌||◌, not, Option, some, u32, sub32, bit, ltb,
  ◌==◌, if◌then◌else◌, ◌>>=◌, pos, ◌-ℤ◌, ltb_ℤ,
}
use tiltyard.Order.{
  Order, set_bit, auction_bit, wake_bit, iceberg_bit, ask_bid_pair_bit, can_rep_bit, cancel_bit,
  has_stop_bit, oco_bit, reject_bit,
}
use tiltyard.Book.Range.{is_buy, is_market}
use tiltyard.Ring.{queue}
use tiltyard.Scheduler.{now_ns}
use tiltyard.Server.State.{ClientSettings, Server, client, set_client, order_at, set_order}
use tiltyard.Server.Replies.{schedule_response}
use tiltyard.Server.Reasons

-- The cash that a parked buy holds: a market order counts at the mark.
abbrev pub parked_cash : Order → ℕ → ℕ
parked_cash o mark = u32 (o.quantity * (if is_market o then mark else o.price))

-- `auction_hold`
unfoldable pub auction_hold : ClientSettings → Order → ℕ → ClientSettings
auction_hold cs o mark =
    if is_buy o
    then record cs { reserved_cash = u32 (cs.reserved_cash + parked_cash o mark) }
    else record cs { reserved_shares = u32 (cs.reserved_shares + o.quantity) }

-- `auction_release`
unfoldable pub auction_release : ClientSettings → Order → ℕ → ClientSettings
auction_release cs o mark =
    if is_buy o
    then record cs { reserved_cash = sub32 cs.reserved_cash (parked_cash o mark) }
    else record cs { reserved_shares = sub32 cs.reserved_shares o.quantity }

-- The order gets the reject bit and its client the reason.
unfoldable pub turn_down : ℕ → ℕ → ℕ → Server → Option Server
unfolding order_at set_order set_bit schedule_response
turn_down order_id status reason sc =
    let in_ = order_at sc order_id in
    schedule_response in_.client_id status 0 order_id 0 reason
      (set_order order_id (record in_ { status = set_bit reject_bit in_.status }) sc)

-- Why a cancel is refused.
unfoldable pub cancel_reason : Server → Order → ℕ
unfolding order_at
cancel_reason sc in_ =
    let tgt = order_at sc in_.other_id in
    if sc.auction_frozen
    then Reasons.rej_bad_qualifier
    else if not (tgt.client_id == in_.client_id)
    then Reasons.rej_not_your_order
    else if tgt.quantity == 0 || bit tgt.status reject_bit
    then Reasons.rej_order_already_done
    else Reasons.reason_none

-- The running totals of the imbalance, with an order or without it.
unfoldable pub count_in : Order → Server → Server
count_in o sc =
    if is_buy o
    then record sc { imbalance_buy = u32 (sc.imbalance_buy + o.quantity) }
    else record sc { imbalance_sell = u32 (sc.imbalance_sell + o.quantity) }

unfoldable pub count_out : Order → Server → Server
count_out o sc =
    if is_buy o
    then record sc { imbalance_buy = sub32 sc.imbalance_buy o.quantity }
    else record sc { imbalance_sell = sub32 sc.imbalance_sell o.quantity }

-- A cancel: the parked order keeps its place, dead.
unfoldable pub cancel_parked : ℕ → Server → Option Server
unfolding order_at set_order set_bit auction_release count_out schedule_response turn_down
    cancel_reason
cancel_parked order_id sc =
    let in_ = order_at sc order_id in
    let reason = cancel_reason sc in_ in
    let tgt = order_at sc in_.other_id in
    let released = auction_release (client sc tgt.client_id) tgt sc.mark in
    let counted = count_out tgt (set_client tgt.client_id released sc) in
    let dead = record tgt { quantity = 0; status = set_bit reject_bit tgt.status } in
    if not (reason == 0)
    then turn_down order_id (2 ^ cancel_bit + 2 ^ reject_bit) reason sc
    else schedule_response in_.client_id (2 ^ cancel_bit) 0 order_id 0 Reasons.reason_none
        (set_order in_.other_id dead counted)

-- Why an order may not park, whoever sends it.
unfoldable pub park_shape : Order → ℕ
park_shape in_ =
    let disallowed =
      bit in_.status has_stop_bit
      || bit in_.status wake_bit
      || bit in_.status ask_bid_pair_bit
      || bit in_.status iceberg_bit
      || bit in_.status can_rep_bit
      || bit in_.status oco_bit in
    if disallowed
    then Reasons.rej_bad_qualifier
    else if in_.quantity == 0
    then Reasons.rej_invalid_quantity
    else if not (is_market in_) && in_.price == 0
    then Reasons.rej_invalid_price
    else Reasons.reason_none

-- In the closing window an order must be on the lighter side; then it must be funded.
unfoldable pub park_reason : Server → Order → ℕ
unfolding park_shape
park_reason sc in_ =
    let cs = client sc in_.client_id in
    let one_sided = sc.auctioning && sc.is_open && not (sc.imbalance_buy == sc.imbalance_sell) in
    let buy_heavy = ltb sc.imbalance_sell sc.imbalance_buy in
    let grows = if is_buy in_ then buy_heavy else not buy_heavy in
    if not (park_shape in_ == 0)
    then park_shape in_
    else if one_sided && grows
    then Reasons.rej_offset_only
    else if is_buy in_
    then (if ltb_ℤ (cs.cash -ℤ pos cs.reserved_cash) (pos (parked_cash in_ sc.mark))
        then Reasons.rej_no_buying_power
        else Reasons.reason_none)
    else if ltb_ℤ (cs.shares -ℤ pos cs.reserved_shares) (pos in_.quantity)
    then Reasons.rej_no_shares
    else Reasons.reason_none

-- An add: it holds its funds, counts in the imbalance and waits.
unfoldable pub park : ℕ → Server → Option Server
unfolding order_at set_order auction_hold count_in schedule_response turn_down park_reason
park order_id sc =
    let in_ = order_at sc order_id in
    let reason = park_reason sc in_ in
    let held = auction_hold (client sc in_.client_id) in_ sc.mark in
    let counted = count_in in_ (set_client in_.client_id held sc) in
    let stamped = set_order order_id (record in_ { ns = now_ns sc.sch }) counted in
    if not (reason == 0)
    then turn_down order_id (2 ^ reject_bit) reason sc
    else (queue stamped.auction_arrivals order_id >>= λ cb.
        schedule_response in_.client_id (2 ^ auction_bit) 0 order_id in_.price Reasons.reason_none
          (record stamped { auction_arrivals = cb }))

-- `server_auction_order`
unfoldable pub server_auction_order : ℕ → Server → Option Server
unfolding order_at cancel_parked park
server_auction_order order_id sc =
    if bit (order_at sc order_id).status cancel_bit
    then cancel_parked order_id sc
    else park order_id sc
