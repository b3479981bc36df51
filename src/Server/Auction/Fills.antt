-- ===== src/Server/Auction/Fills.antt =====
-- src/server.c, `auction_fill_side` and `auction_consume_book`: who gets the matched shares.
use tiltyard.Base.{
  ℕ, zero, suc, ◌+◌, ◌-◌, ◌*◌, ◌^◌, Bool, true, false, ◌&&◌, not, List, [], ◌∷◌, Option, some,
  max_u32, u16, u32, u64, sub16, sub32, ltb, ◌==◌, if◌then◌else◌, ◌>>=◌, pos, ◌+ℤ◌, ◌-ℤ◌, ◌*ℤ◌,
}
use tiltyard.Order.{
  Order, Fill, zero_order, auction_bit, ioc_bit, partial_fill_bit, buy_direction_bit, fill_bit,
}
use tiltyard.Book.Range.{is_buy}
use tiltyard.Book.Change.{ob_canrep}
use tiltyard.Ring.{count, deque, is_empty}
use tiltyard.FreeList.{insert, release}
use tiltyard.Blobs.{resize, meta_at}
use tiltyard.Blobs.{get as bs_get}
use tiltyard.Server.State.{ClientSettings, Server, client, set_client, order_at, set_order, word}
use tiltyard.Server.Replies.{new_blob, schedule_response}
use tiltyard.Server.Stops.{entry_price, entry_id}
use tiltyard.Server.Auction.Curves.{flat}
use tiltyard.Server.Reasons

-- Shares that change hands at the clearing price.
unfoldable pub settle : ClientSettings → Bool → ℕ → ℕ → ClientSettings
settle cs buy q clearing =
    let cost = pos q *ℤ pos clearing in
    if buy
    then record cs { cash = cs.cash -ℤ cost; shares = cs.shares +ℤ pos q }
    else record cs { cash = cs.cash +ℤ cost; shares = cs.shares -ℤ pos q }

abbrev fill_status : Bool → ℕ
fill_status partial = 2 ^ fill_bit + 2 ^ auction_bit + (if partial then 2 ^ partial_fill_bit else 0)

-- One order takes what it can of the shares: those left, and the state.
unfoldable pub fill_one : ℕ → ℕ → ℕ → Bool → Server → Option (ℕ × Server)
unfolding order_at set_order settle schedule_response
fill_one id shares clearing buy sc =
    let o = order_at sc id in
    let q = if ltb o.quantity shares then o.quantity else shares in
    let left : Order = record o { quantity = o.quantity - q } in
    let paid = settle (client sc o.client_id) buy q clearing in
    schedule_response o.client_id (fill_status (ltb 0 left.quantity)) q id clearing
      Reasons.reason_none (set_client o.client_id paid (set_order id left sc))
    >>= λ sc'. some (shares - q, sc')

-- The market orders of a side, first come first served; the fuel is their number.
unfoldable pub fill_markets : ℕ → ℕ → ℕ → Bool → Server → Option (ℕ × Server)
unfolding fill_one
fill_markets zero shares clearing buy sc = some (shares, sc)
fill_markets (suc fuel) shares clearing buy sc =
    let market = if buy then sc.auction_market_bids else sc.auction_market_asks in
    elim (ltb 0 shares && not (is_empty market)) [
      | true ↦
          let taken = deque market in
          let sc' : Server =
            if buy
            then record sc { auction_market_bids = taken.1 }
            else record sc { auction_market_asks = taken.1 } in
          fill_one (word sc taken.0) shares clearing buy sc' >>= λ r.
          fill_markets fuel r.0 clearing buy r.1
      | false ↦ some (shares, sc)
    ]

-- The limit orders of a side, best price first, `n` of them from the `k`-th best on.
unfoldable pub fill_limits : ℕ → ℕ → ℕ → ℕ → Bool → Server → Option Server
unfolding fill_one
fill_limits zero k shares clearing buy sc = some sc
fill_limits (suc n) k shares clearing buy sc =
    let entry = if buy then flat sc sc.auction_bid_sorted n else flat sc sc.auction_ask_sorted k in
    let price = entry_price entry in
    let index = if buy then max_u32 - entry_id entry else entry_id entry in
    let stops = if buy then ltb price clearing else ltb clearing price in
    elim (ltb 0 shares && not stops) [
      | true ↦ fill_one (flat sc sc.auction_arrivals index) shares clearing buy sc >>= λ r.
          fill_limits n (k + 1) r.0 clearing buy r.1
      | false ↦ some sc
    ]

-- `auction_fill_side`
unfoldable pub auction_fill_side : ℕ → ℕ → Bool → Server → Option Server
unfolding fill_markets fill_limits
auction_fill_side shares clearing buy sc =
    let market = if buy then sc.auction_market_bids else sc.auction_market_asks in
    let sorted = if buy then sc.auction_bid_sorted else sc.auction_ask_sorted in
    fill_markets (count market) shares clearing buy sc >>= λ r.
    if r.0 == 0 then some r.1 else fill_limits (count sorted) 0 r.0 clearing buy r.1

-- One resting order that the cross fills.
unfoldable pub settle_maker : ℕ → Fill → Server → Option Server
unfolding order_at set_order settle schedule_response
settle_maker clearing fill sc =
    let maker = order_at sc fill.order_id in
    let q = fill.quantity_filled in
    let cs = client sc maker.client_id in
    let freed : ClientSettings =
      if is_buy maker
      then record cs { reserved_cash = sub32 cs.reserved_cash (u32 (q * maker.price)) }
      else record cs { reserved_shares = sub32 cs.reserved_shares q } in
    let paid = settle freed (is_buy maker) q clearing in
    let left : Order = record maker { quantity = sub16 maker.quantity (u16 q) } in
    schedule_response maker.client_id (fill_status (not (fill.partial == 0))) q fill.order_id
      clearing Reasons.reason_none
      (set_client maker.client_id paid (set_order fill.order_id left sc))

unfoldable pub settle_makers : ℕ → List Fill → Server → Option Server
unfolding settle_maker
settle_makers clearing [] sc = some sc
settle_makers clearing (f ∷ fs) sc = settle_maker clearing f sc >>= settle_makers clearing fs

-- `auction_consume_book`. The quantity of the order that eats the book is a u16.
unfoldable pub auction_consume_book : Bool → ℕ → ℕ → Server → Option Server
unfolding order_at ob_canrep settle_makers
auction_consume_book buy shares clearing sc = do
  taker ← insert sc.memory.junk sc.orders (record zero_order {
    price = clearing;
    quantity = u16 shares;
    status = 2 ^ ioc_bit + (if buy then 2 ^ buy_direction_bit else 0);
  })
  let sc1 = record sc { orders = taker.1 }
  made ← new_blob sc1 sc1.mbo_bs (meta_at sc1.mbo_bs sc.last_mbo).size
  change ← ob_canrep sc.memory.stale (order_at sc1) taker.0 sc1.mbo sc1.fills
  let sc2 = record sc1 {
    mbo = change.book;
    last_mbo = made.0;
    mbo_bs = (resize made.1 change.size).1;
    fills = [];
    book_version = u64 (sc1.book_version + 1);
  }
  sc3 ← settle_makers clearing change.fills sc2
  some (record sc3 {
    mbo_bs = (bs_get sc3.mbo_bs sc.last_mbo).1;
    orders = (release sc3.orders taker.0).1;
  })
