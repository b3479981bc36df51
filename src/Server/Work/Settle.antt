-- ===== src/Server/Work/Settle.antt =====
-- src/server.c, `server_order`, once the fills are settled: what rests is reserved and remembered, what
-- was replaced is retired, and the print fires what waited for it.
use tiltyard.Base.{
  ℕ, ◌+◌, ◌-◌, ◌*◌, Bool, ◌&&◌, ◌||◌, not, Option, some, max_u32, u16, u32, sub32, bit, ltb, ◌==◌,
  if◌then◌else◌, ◌>>=◌,
}
use tiltyard.Order.{
  Order, set_bit, clear_bit, iceberg_bit, fok_bit, partial_fill_bit, oco_bit, fill_bit, reject_bit,
}
use tiltyard.Book.Range.{is_buy}
use tiltyard.FreeList.{release}
use tiltyard.Blobs.{get as bs_get}
use tiltyard.Ring.{count}
use tiltyard.Server.State.{
  ClientSettings, Server, client, set_client, order_at, set_order, iceberg_at,
}
use tiltyard.Server.Replies.{schedule_response, schedule_pair_response, server_stream}
use tiltyard.Server.Stops.{remember, oco_pull, check_stops, oco_sweep, check_wakes}
use tiltyard.Server.Job.{Job}
use tiltyard.Server.Reasons

-- What an order has lost, if it has lost anything.
abbrev pub lost : ℕ → ℕ → ℕ
lost before now = if ltb now before then before - now else 0

-- How much of the order was filled, and what is left of it: nothing, where nothing may rest. An order
-- of that kind that found nothing counts as rejected.
unfoldable pub outcome : Job → Server → Job × ℕ × Server
unfolding order_at set_order set_bit
outcome j sc =
    let in_ = order_at sc j.exec_order_id in
    let filled = lost j.before_quantity in_.quantity in
    let left = if j.is_gtc then in_.quantity else 0 in
    let told =
      if filled == 0
      then j.status
      else if ltb 0 left
      then set_bit partial_fill_bit (set_bit fill_bit j.status)
      else set_bit fill_bit j.status in
    let dropped = not j.is_gtc && filled == 0 in
    let in' : Order = record in_ {
      quantity = left;
      status = if dropped then set_bit reject_bit in_.status else in_.status;
    } in
    (
      record j {
        status = if dropped then set_bit reject_bit told else told;
        rej_reason =
            if dropped
            then (if bit in_.status fok_bit
                then Reasons.cxl_fok_killed
                else Reasons.cxl_ioc_unfilled)
            else j.rej_reason;
      },
      filled,
      set_order j.exec_order_id in' sc,
    )

-- The reserve of what rests: of an iceberg the hidden half too.
unfoldable pub reserve_rest : Job → Server → Server
unfolding order_at
reserve_rest j sc =
    let in_ = order_at sc j.exec_order_id in
    let cs = client sc in_.client_id in
    let hidden = if j.is_iceberg then sub32 in_.second_quantity j.before_quantity else 0 in
    let reserve_q = u32 (in_.quantity + hidden) in
    if j.is_cancel || j.is_iceberg_replenish
    then sc
    else if j.is_buy
    then set_client in_.client_id
        (record cs { reserved_cash = u32 (cs.reserved_cash + u32 (reserve_q * in_.price)) }) sc
    else set_client in_.client_id
        (record cs { reserved_shares = u32 (cs.reserved_shares + reserve_q) }) sc

-- The time in force of what rests.
unfoldable pub remember_rest : Job → Server → Option Server
unfolding order_at remember
remember_rest j sc =
    let in_ = order_at sc j.exec_order_id in
    if ltb 0 in_.quantity
      && not j.is_cancel
      && not j.is_can_rep
      && not j.is_pair
      && not j.is_iceberg_replenish
    then remember j.exec_order_id in_.status in_.second_id sc
    else some sc

-- The half of a bracket that was filled as it came pulls its stop.
unfoldable pub pull_bracket : Job → Server → Option Server
unfolding order_at set_order clear_bit oco_pull
pull_bracket j sc =
    let in_ = order_at sc j.exec_order_id in
    if bit in_.status oco_bit && in_.quantity == 0 && not j.is_cancel
    then oco_pull j.exec_order_id
        (set_order j.exec_order_id (record in_ { status = clear_bit oco_bit in_.status }) sc)
    else some sc

-- The reserve of the other leg of a pair.
unfoldable pub reserve_ask : Job → Server → Server
unfolding order_at
reserve_ask j sc =
    let ask_in = order_at sc j.ask_order_id in
    let client_id = (order_at sc j.exec_order_id).client_id in
    let cs = client sc client_id in
    if j.is_pair && not j.is_cancel
    then set_client client_id
        (record cs { reserved_shares = u32 (cs.reserved_shares + ask_in.quantity) }) sc
    else sc

-- What an order gives back of its side's reserve.
unfoldable pub unreserve : ClientSettings → Bool → ℕ → ℕ → ClientSettings
unreserve cs buy cash shares =
    if buy
    then record cs { reserved_cash = sub32 cs.reserved_cash cash }
    else record cs { reserved_shares = sub32 cs.reserved_shares shares }

-- The hidden half of an iceberg is given back too.
unfoldable pub drop_iceberg : ℕ → Order → Server → Server
unfolding iceberg_at unreserve
drop_iceberg client_id o sc =
    let ice = iceberg_at sc o.second_id in
    let cs =
      unreserve (client sc client_id) (is_buy o) (u32 (ice.remaining * ice.price))
        (u32 ice.remaining) in
    if bit o.status iceberg_bit
    then record (set_client client_id cs sc) { icebergs = (release sc.icebergs o.second_id).1 }
    else sc

-- The order that was replaced or pulled.
unfoldable pub retire : Job → Server → Server
unfolding order_at set_order set_bit unreserve drop_iceberg
retire j sc =
    let in_ = order_at sc j.exec_order_id in
    let o = order_at sc in_.other_id in
    let cs =
      unreserve (client sc in_.client_id) (is_buy o) (u32 (o.quantity * o.price)) o.quantity in
    let freed = drop_iceberg in_.client_id o (set_client in_.client_id cs sc) in
    let dead : Order = record o { quantity = 0; status = set_bit reject_bit o.status } in
    let sc' = set_order in_.other_id dead freed in
    if j.is_can_rep || j.is_cancel
    then record sc' { orders = (release sc'.orders in_.other_id).1 }
    else sc

-- The order that the other leg replaced or pulled.
unfoldable pub retire_ask : Job → Server → Server
unfolding order_at set_order set_bit unreserve
retire_ask j sc =
    let client_id = (order_at sc j.exec_order_id).client_id in
    let old_id = (order_at sc j.ask_order_id).other_id in
    let o = order_at sc old_id in
    let cs = unreserve (client sc client_id) (is_buy o) (u32 (o.quantity * o.price)) o.quantity in
    let dead : Order = record o { quantity = 0; status = set_bit reject_bit o.status } in
    let sc' = set_order old_id dead (set_client client_id cs sc) in
    if not (j.is_pair && (j.ask_is_can_rep || j.is_cancel))
    then sc
    else if bit o.status reject_bit
    then sc'
    else record sc' { orders = (release sc'.orders old_id).1 }

-- A print moves the mark and fires the stops and the wakes that it reached. Whoever it puts under
-- maintenance is only printed.
unfoldable pub move_mark : ℕ → Server → Option Server
unfolding check_stops oco_sweep check_wakes
move_mark last_trade_price sc =
    let marked = record sc { mark = last_trade_price } in
    if last_trade_price == max_u32
    then some sc
    else (check_stops (u16 last_trade_price) marked
        >>= oco_sweep (count marked.convert_holder)
        >>= check_wakes (u16 last_trade_price))

-- The answer to the order's own client.
unfoldable pub answer : Job → ℕ → ℕ → Server → Option Server
unfolding order_at schedule_response schedule_pair_response
answer j filled ask_filled sc =
    let in_ = order_at sc j.exec_order_id in
    if j.is_pair
    then schedule_pair_response in_.client_id j.status j.exec_order_id in_.price filled
        j.ask_order_id (order_at sc j.ask_order_id).price ask_filled j.rej_reason sc
    else if j.is_stop
    then schedule_pair_response in_.client_id j.status j.exec_order_id in_.price filled
        j.stop_order_id in_.stop_price 0 j.rej_reason sc
    else schedule_response in_.client_id j.status filled j.exec_order_id in_.price j.rej_reason sc

-- All that follows the fills.
unfoldable pub conclude : Job → ℕ → ℕ → Server → Option Server
unfolding order_at outcome reserve_rest remember_rest pull_bracket reserve_ask retire retire_ask
    move_mark answer server_stream
conclude j prev_last_mbo last_trade_price sc = do
  let ask_left = (order_at sc j.ask_order_id).quantity
  let ask_filled = if j.is_pair then lost j.before_ask_quantity ask_left else 0
  let ended = outcome j sc
  let j' = ended.0
  kept ← remember_rest j' (reserve_rest j' ended.2)
  pulled ← pull_bracket j' kept
  let retired = retire_ask j' (retire j' (reserve_ask j' pulled))
  let old = record retired { mbo_bs = (bs_get retired.mbo_bs prev_last_mbo).1 }
  moved ← move_mark last_trade_price old
  answered ← answer j' ended.1 ask_filled moved
  server_stream answered
