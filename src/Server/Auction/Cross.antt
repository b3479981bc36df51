-- ===== src/Server/Auction/Cross.antt =====
-- src/server.c, `server_auction`: the cross at one price, and what becomes of the rest.
use tiltyard.Base.{
  ℕ, zero, suc, ◌+◌, ◌-◌, ◌^◌, Bool, true, false, Option, some, get_or, max_u32, u32, bit, ltb, leb,
  ◌==◌, if◌then◌else◌, ◌>>=◌,
}
use tiltyard.Order.{Order, set_bit, clear_bit, auction_only_bit, is_market_bit, reject_bit}
use tiltyard.Book.Types.{Book}
use tiltyard.Book.Range.{is_market, no_level}
use tiltyard.Ring.{count, deque, clear, is_empty}
use tiltyard.Candles.{update_trade}
use tiltyard.Event.{build_event}
use tiltyard.Scheduler.{now_ns}
use tiltyard.Server.State.{Server, order_at, set_order, word, post, convert}
use tiltyard.Server.Replies.{schedule_response}
use tiltyard.Server.Auction.Curves.{ask_start, auction_walk}
use tiltyard.Server.Auction.Fills.{auction_fill_side, auction_consume_book}
use tiltyard.Server.Reasons

-- `CONVERT_SENTINEL_VALUE`
abbrev pub convert_sentinel_value : ℕ
convert_sentinel_value = max_u32

-- `SERVER_TYPE` and `EXEC_TO_SW_ID`
abbrev pub server_type : ℕ
server_type = 0

abbrev pub exec_to_sw_id : ℕ
exec_to_sw_id = 1073741820

-- The quantity of the levels `i`, …, `i + n - 1` that trade at the clearing price.
unfoldable pub crossing_total : ℕ → Book → Bool → ℕ → ℕ → ℕ → ℕ
crossing_total zero mbo bids clearing i total = total
crossing_total (suc n) mbo bids clearing i total =
    let level = get_or mbo.levels i no_level in
    let trades = if bids then leb clearing level.price else leb level.price clearing in
    crossing_total n mbo bids clearing (i + 1)
      (if trades then u32 (total + level.quantity) else total)

-- The cap of a batch of orders on their way back to the software queue, and its drain.
unfoldable pub cap_batch : Server → Option Server
unfolding convert post
cap_batch sc =
    convert convert_sentinel_value sc >>= post (build_event server_type exec_to_sw_id) 100

-- What becomes of one parked order; true if it goes on.
unfoldable pub drain_one : ℕ → ℕ → Bool → Server → Option (Bool × Server)
unfolding order_at set_order set_bit clear_bit schedule_response convert
drain_one id clearing queued sc =
    let o = order_at sc id in
    let dead : Order = record o { status = set_bit reject_bit o.status; quantity = 0 } in
    let limited : Order =
      if is_market o
      then record o { price = clearing; status = clear_bit is_market_bit o.status }
      else o in
    if o.quantity == 0
    then some (queued, sc)
    else if bit o.status auction_only_bit
    then (schedule_response o.client_id (2 ^ reject_bit) 0 id 0 Reasons.cxl_ioc_unfilled
          (set_order id dead sc)
        >>= λ s. some (queued, s))
    else (convert id (set_order id limited sc) >>= λ s. some (true, s))

-- The parked orders in the order of arrival; true if one goes on. The fuel is their number.
unfoldable pub drain_parked : ℕ → ℕ → Bool → Server → Option (Bool × Server)
unfolding drain_one
drain_parked zero clearing queued sc = some (queued, sc)
drain_parked (suc fuel) clearing queued sc =
    let taken = deque sc.auction_arrivals in
    elim (is_empty sc.auction_arrivals) [
      | true ↦ some (queued, sc)
      | false ↦
          drain_one (word sc taken.0) clearing queued (record sc { auction_arrivals = taken.1 })
          >>= λ r. drain_parked fuel clearing r.0 r.1
    ]

-- The print of the cross.
unfoldable pub print_cross : ℕ → ℕ → Server → Option Server
unfolding update_trade
print_cross matched clearing sc =
    if ltb 0 matched
    then (update_trade (now_ns sc.sch) sc.tape matched clearing 0 >>= λ tape.
        some (record sc { mark = clearing; tape = tape }))
    else some sc

-- The orders of the cross, the book's side first.
unfoldable pub fill_cross : ℕ → ℕ → Server → Option Server
unfolding crossing_total auction_consume_book auction_fill_side
fill_cross clearing matched sc = do
  let mbo = sc.mbo
  let first_ask = ask_start mbo
  let book_bids_ge = crossing_total first_ask mbo true clearing 0 0
  let book_asks_le = crossing_total (mbo.level_count - first_ask) mbo false clearing first_ask 0
  let book_bid_fill = if ltb book_bids_ge matched then book_bids_ge else matched
  let book_ask_fill = if ltb book_asks_le matched then book_asks_le else matched
  sc1 ←
      (if ltb 0 book_bid_fill
        then auction_consume_book false book_bid_fill clearing sc
        else some sc)
  sc2 ←
      (if ltb 0 book_ask_fill
        then auction_consume_book true book_ask_fill clearing sc1
        else some sc1)
  sc3 ← auction_fill_side (matched - book_bid_fill) clearing true sc2
  auction_fill_side (matched - book_ask_fill) clearing false sc3

-- The work space of the walk, empty again.
unfoldable pub clear_workspace : Server → Server
clear_workspace sc = record sc {
  auction_bid_sorted = clear sc.auction_bid_sorted;
  auction_ask_sorted = clear sc.auction_ask_sorted;
  auction_market_bids = clear sc.auction_market_bids;
  auction_market_asks = clear sc.auction_market_asks;
}

-- `server_auction`
unfoldable pub server_auction : Server → Option Server
unfolding auction_walk fill_cross print_cross clear_workspace drain_parked cap_batch
server_auction sc = do
  walked ← auction_walk true sc
  filled ← fill_cross walked.clearing walked.matched walked.sc
  printed ← print_cross walked.matched walked.clearing filled
  let clean = clear_workspace printed
  let reset = record clean {
    imbalance_buy = 0;
    imbalance_sell = 0;
    imbalances = clear clean.imbalances;
  }
  drained ← drain_parked (count reset.auction_arrivals) walked.clearing false reset
  if drained.0 then cap_batch drained.1 else some drained.1
