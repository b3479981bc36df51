-- ===== src/Server/Work/Trade.antt =====
-- src/server.c, `server_order`: the new snapshot of the book, and the fills that it brought, one by one.
use tiltyard.Base.{
  ℕ, ◌+◌, ◌-◌, ◌*◌, ◌/◌, ◌^◌, Bool, true, false, ◌&&◌, not, List, [], ◌∷◌, Option, none, some,
  get_or, max_u16, u32, u64, sub16, sub32, bit, ltb, leb, ◌==◌, if◌then◌else◌, ◌>>=◌, pos, ◌+ℤ◌,
  ◌-ℤ◌,
}
use tiltyard.Order.{Order, Fill, clear_bit, iceberg_bit, partial_fill_bit, oco_bit, fill_bit}
use tiltyard.Book.Range.{is_buy, no_level}
use tiltyard.Book.Change.{Change, ob_canrep, ob_pair}
use tiltyard.Ring.{queue}
use tiltyard.Blobs.{resize, meta_at}
use tiltyard.Candles.{update_trade}
use tiltyard.Server.State.{ClientSettings, LogRec, Server, client, set_client, order_at, set_order}
use tiltyard.Server.Replies.{new_blob, schedule_response, schedule_pair_response}
use tiltyard.Server.Stops.{iceberg_replenish, oco_pull}
use tiltyard.Server.Job.{Job}
use tiltyard.Server.Reasons

-- `TAKER_FEE_MILLS`, `MAKER_REBATE_MILLS` and `MILLS_PER_DOLLAR`
abbrev pub taker_fee_mills : ℕ
taker_fee_mills = 3

abbrev pub maker_rebate_mills : ℕ
maker_rebate_mills = 2

abbrev pub mills_per_dollar : ℕ
mills_per_dollar = 1000

-- The order that trades: its id, and whether it buys.
unfoldable pub taker_of : Job → Server → ℕ × Bool
unfolding order_at
taker_of j sc =
    let in_ = order_at sc j.exec_order_id in
    let ask_in = order_at sc j.ask_order_id in
    let om = sc.mbo in
    let hbi = om.hi_bid_index in
    let lo_ask = if hbi == max_u16 then 0 else hbi + 1 in
    if not j.is_pair
    then (j.exec_order_id, j.is_buy)
    else if ltb lo_ask om.level_count && leb (get_or om.levels lo_ask no_level).price in_.price
    then (j.exec_order_id, true)
    else if not (hbi == max_u16) && leb ask_in.price (get_or om.levels hbi no_level).price
    then (j.ask_order_id, false)
    else (j.exec_order_id, j.is_buy)

-- The fees of `q` shares.
unfoldable pub taker_fee : ℕ → ℕ
taker_fee q = q * taker_fee_mills / mills_per_dollar

unfoldable pub maker_rebate : ℕ → ℕ
maker_rebate q = q * maker_rebate_mills / mills_per_dollar

-- What the client of the order that trades pays and gets.
unfoldable pub taker_side : ClientSettings → Bool → ℕ → ℕ → ClientSettings
taker_side cs taker_is_buy q cost =
    if taker_is_buy
    then record cs { cash = cs.cash -ℤ pos cost; shares = cs.shares +ℤ pos q }
    else record cs { cash = cs.cash +ℤ pos cost; shares = cs.shares -ℤ pos q }

-- What the client of the resting order gets and pays, and what no longer needs to be reserved.
unfoldable pub maker_side : ClientSettings → Bool → ℕ → ℕ → ClientSettings
maker_side mcs taker_is_buy q cost =
    if taker_is_buy
    then record mcs {
      cash = mcs.cash +ℤ pos cost;
      shares = mcs.shares -ℤ pos q;
      reserved_shares = sub32 mcs.reserved_shares q;
    }
    else record mcs {
      cash = mcs.cash -ℤ pos cost;
      shares = mcs.shares +ℤ pos q;
      reserved_cash = sub32 mcs.reserved_cash cost;
    }

-- The money of one fill: the shares, then the fees. Taker and maker can be the same client.
unfoldable pub settle_fill : ℕ → ℕ → Bool → ℕ → ℕ → Server → Server
unfolding taker_side maker_side taker_fee maker_rebate
settle_fill taker_client maker_client taker_is_buy q cost sc =
    let sc1 =
      set_client taker_client (taker_side (client sc taker_client) taker_is_buy q cost) sc in
    let sc2 =
      set_client maker_client (maker_side (client sc1 maker_client) taker_is_buy q cost) sc1 in
    let cs = client sc2 taker_client in
    let sc3 = set_client taker_client (record cs { cash = cs.cash -ℤ pos (taker_fee q) }) sc2 in
    let mcs = client sc3 maker_client in
    let sc4 =
      set_client maker_client (record mcs { cash = mcs.cash +ℤ pos (maker_rebate q) }) sc3 in
    record sc4 { exchange_cash = u64 (sc4.exchange_cash + (taker_fee q - maker_rebate q)) }

-- The line of the log and the print.
unfoldable pub log_trade : Job → Fill → Bool → Order → Server → Option Server
unfolding update_trade
log_trade j fill taker_is_buy order sc =
    let tr : LogRec = record {
      now_ns = j.now_ns;
      cash = pos 0;
      shares = pos 0;
      order_id = fill.order_id;
      client_id = 0;
      reserved_cash = 0;
      reserved_shares = 0;
      other_id = 0;
      status = 0;
      quantity_filled = fill.quantity_filled;
      price = order.price;
      quantity = 0;
      stop_price = 0;
      second_quantity = 0;
      kind = 1;
      second_direction = 0;
      partial = fill.partial;
      taker_is_buy = taker_is_buy;
    } in
    queue sc.log tr >>= λ log.
    update_trade j.now_ns sc.tape fill.quantity_filled order.price (if taker_is_buy then 1 else 0)
    >>= λ tape. some (record sc { log = log; tape = tape })

-- The maker is told; an iceberg slice that is used up shows the next one first.
unfoldable pub answer_maker : Fill → Server → Option Server
unfolding order_at iceberg_replenish schedule_response schedule_pair_response
answer_maker fill sc =
    let order = order_at sc fill.order_id in
    let q = fill.quantity_filled in
    let fstatus = 2 ^ fill_bit + (if fill.partial == 0 then 0 else 2 ^ partial_fill_bit) in
    if bit order.status iceberg_bit && order.quantity == 0
    then (iceberg_replenish order.second_id (is_buy order) sc >>= λ slice.
        schedule_pair_response order.client_id (fstatus + 2 ^ iceberg_bit) fill.order_id order.price
          q slice.0 0 0 Reasons.reason_none slice.1)
    else schedule_response order.client_id fstatus q fill.order_id order.price Reasons.reason_none
        sc

-- A resting half of a bracket that is filled pulls the other.
unfoldable pub release_partner : ℕ → Server → Option Server
unfolding order_at set_order clear_bit oco_pull
release_partner order_id sc =
    let order = order_at sc order_id in
    if order.quantity == 0 && bit order.status oco_bit
    then oco_pull order_id
        (set_order order_id (record order { status = clear_bit oco_bit order.status }) sc)
    else some sc

-- One fill; `none` also where it is for more than the taker has left.
unfoldable pub take_fill : Job → ℕ × Bool → Fill → Server → Option Server
unfolding order_at set_order settle_fill log_trade answer_maker release_partner
take_fill j taker fill sc =
    let order = order_at sc fill.order_id in
    let q = fill.quantity_filled in
    let cost = u32 (order.price * q) in
    let taker_client = (order_at sc j.exec_order_id).client_id in
    log_trade j fill taker.1 order sc >>= λ logged.
    let maker_left = record order { quantity = sub16 order.quantity q } in
    let sc1 = set_order fill.order_id maker_left logged in
    let t = order_at sc1 taker.0 in
    let sc2 = set_order taker.0 (record t { quantity = sub16 t.quantity q }) sc1 in
    if ltb (order_at sc taker.0).quantity q
    then none
    else (answer_maker fill (settle_fill taker_client order.client_id taker.1 q cost sc2)
        >>= release_partner fill.order_id)

-- The fills in turn, and the price of the last trade: `MAX_U32` for none.
unfoldable pub take_fills : Job → ℕ × Bool → List Fill → ℕ → Server → Option (ℕ × Server)
unfolding order_at take_fill
take_fills j taker [] last_trade_price sc = some (last_trade_price, sc)
take_fills j taker (f ∷ fs) last_trade_price sc =
    take_fill j taker f sc >>= take_fills j taker fs (order_at sc f.order_id).price

-- The new snapshot, with room for one more level, or for two.
unfoldable pub write_book : Job → Server → Option (Change × Server)
unfolding order_at ob_canrep ob_pair
write_book j sc = do
  let old_size = (meta_at sc.mbo_bs sc.last_mbo).size
  let levels_added = if j.is_pair then 2 else 1
  made ← new_blob sc sc.mbo_bs (u32 (old_size + levels_added * 24))
  change ←
      (if j.is_pair
        then ob_pair sc.memory.stale (order_at sc) j.exec_order_id j.ask_order_id sc.mbo sc.fills
        else ob_canrep sc.memory.stale (order_at sc) j.exec_order_id sc.mbo sc.fills)
  some (
    change,
    record sc {
      mbo = change.book;
      last_mbo = made.0;
      mbo_bs = (resize made.1 change.size).1;
      fills = [];
      book_version = u64 (sc.book_version + 1);
    },
  )
