-- ===== src/Server/Work/Accept.antt =====
-- src/server.c, `server_order`, once an order has passed its checks: the iceberg that it makes, the log,
-- and the stops and wakes that it pulls or leaves behind.
use tiltyard.Base.{
  ℕ, ◌+◌, ◌-◌, ◌^◌, true, false, ◌&&◌, not, Option, none, some, bit, ltb, ◌==◌, if◌then◌else◌,
  ◌>>=◌,
}
use tiltyard.Order.{
  Order, zero_order, set_bit, clear_bit, wake_bit, gtd_bit, day_bit, iceberg_bit, stop_limit_bit,
  can_rep_bit, cancel_bit, buy_direction_bit, has_stop_bit, oco_bit, reject_bit,
}
use tiltyard.Ring.{queue}
use tiltyard.FreeList.{insert}
use tiltyard.Server.State.{Iceberg, Server, client, order_at, set_order}
use tiltyard.Server.Replies.{schedule_response}
use tiltyard.Server.Stops.{stop_rest}
use tiltyard.Server.Job.{Job}
use tiltyard.Server.Reasons

-- How much of a fresh iceberg shows: what it crosses and one chunk, if it has that much.
abbrev pub visible_quantity : ℕ → ℕ → ℕ → ℕ
visible_quantity fillable chunk total =
    if ltb (fillable + chunk) total then fillable + chunk else total

-- A fresh iceberg: the hidden half is kept where something is left to rest.
unfoldable pub make_iceberg : Job → Server → Option (Job × Server)
unfolding order_at set_order
make_iceberg j sc =
    let in_ = order_at sc j.exec_order_id in
    let total = in_.second_quantity in
    let visible = visible_quantity j.fillable in_.quantity total in
    let ice : Iceberg = record {
      client_id = in_.client_id;
      remaining = total - visible;
      price = in_.price;
      chunk = in_.quantity;
    } in
    let shown : Order = record in_ { quantity = visible } in
    let j' = record j { before_quantity = visible } in
    if ltb j.fillable total
    then (insert sc.memory.junk sc.icebergs ice >>= λ made. some (
      j',
      set_order j.exec_order_id (record shown { second_id = made.0 })
          (record sc { icebergs = made.1 }),
    ))
    else some (j', set_order j.exec_order_id shown sc)

-- The line of the log.
unfoldable pub log_order : Job → Server → Option Server
unfolding order_at
log_order j sc =
    let in_ = order_at sc j.exec_order_id in
    let cs = client sc in_.client_id in
    queue sc.log (record {
      now_ns = j.now_ns;
      cash = cs.cash;
      shares = cs.shares;
      order_id = j.exec_order_id;
      client_id = in_.client_id;
      reserved_cash = cs.reserved_cash;
      reserved_shares = cs.reserved_shares;
      other_id = in_.other_id;
      status = in_.status;
      quantity_filled = 0;
      price = in_.price;
      quantity = in_.quantity;
      stop_price = in_.stop_price;
      second_quantity = in_.second_quantity;
      kind = 0;
      second_direction = in_.second_direction;
      partial = 0;
      taker_is_buy = false;
    })
    >>= λ cb. some (record sc { log = cb })

-- The arrival stamp, the iceberg and the log.
unfoldable pub accept : Job → Server → Option (Job × Server)
unfolding order_at set_order set_bit make_iceberg log_order
accept j sc = do
  let in_ = order_at sc j.exec_order_id
  let stamped = set_order j.exec_order_id (record in_ { ns = j.now_ns }) sc
  let j1 = if j.is_iceberg then record j { status = set_bit iceberg_bit j.status } else j
  let fresh = j.is_iceberg && not j.is_iceberg_replenish
  let untouched : Job × Server = (j1, stamped)
  made ← (if fresh then make_iceberg j1 stamped else some untouched)
  logged ← log_order made.0 made.1
  some (made.0, logged)

-- The pull of an armed stop or of a wake, which needs no new snapshot. `none` is an order in the book.
unfoldable pub pull_waiting : Job → Server → Option (Option Server)
unfolding order_at set_order set_bit schedule_response
pull_waiting j sc =
    let in_ = order_at sc j.exec_order_id in
    let o = order_at sc in_.other_id in
    let spent : Order = record o { quantity = 0 } in
    let dead : Order = record o { status = set_bit reject_bit o.status } in
    if bit o.status has_stop_bit
    then some (
        schedule_response in_.client_id j.status 0 j.exec_order_id o.stop_price Reasons.reason_none
          (set_order in_.other_id spent sc))
    else if bit o.status wake_bit
    then some (
        schedule_response in_.client_id j.status 0 j.exec_order_id o.price Reasons.reason_none
          (set_order in_.other_id dead sc))
    else none

-- A replacement of an armed stop goes on as a fresh order.
unfoldable pub replace_stop : Job → Server → Job × Server
unfolding order_at set_order clear_bit
replace_stop j sc =
    let in_ = order_at sc j.exec_order_id in
    let cancelled = order_at sc in_.other_id in
    let gone = set_order in_.other_id (record cancelled { quantity = 0 }) sc in
    let in' = order_at gone j.exec_order_id in
    let plain = record in' { status = clear_bit can_rep_bit in'.status } in
    if j.is_can_rep && bit cancelled.status has_stop_bit
    then (record j { is_can_rep = false }, set_order j.exec_order_id plain gone)
    else (j, sc)

-- A replacement that is a stop and nothing else goes on as a cancel.
unfoldable pub demote : Job → Server → Job × Server
unfolding order_at set_order set_bit clear_bit
demote j sc =
    let in_ = order_at sc j.exec_order_id in
    let status = set_bit cancel_bit (clear_bit can_rep_bit in_.status) in
    if j.is_stop && j.is_can_rep && in_.quantity == 0
    then (
      record j { is_can_rep = false; is_cancel = true; canrep_stop_leg = true },
      set_order j.exec_order_id (record in_ { status = status }) sc,
    )
    else (j, sc)

abbrev kept_bit : ℕ → ℕ → ℕ
kept_bit status k = if bit status k then 2 ^ k else 0

-- The stop half of an order as an order of its own.
abbrev pub stop_leg : Order → Order
stop_leg in_ = record zero_order {
  client_id = in_.client_id;
  quantity = in_.second_quantity;
  price = in_.second_price;
  stop_price = in_.stop_price;
  second_id = in_.second_id;
  ns = in_.ns;
  status =
      2 ^ has_stop_bit
      + (if in_.second_direction == 0 then 0 else 2 ^ buy_direction_bit)
      + kept_bit in_.status stop_limit_bit
      + kept_bit in_.status day_bit
      + kept_bit in_.status gtd_bit;
}

-- The two halves of a bracket name each other.
unfoldable pub link : ℕ → ℕ → Server → Server
unfolding order_at set_order set_bit
link now_id leg_id sc =
    let leg = order_at sc leg_id in
    let in_ = order_at sc now_id in
    let wired = set_order now_id (record in_ { other_id = leg_id }) sc in
    if bit in_.status oco_bit && ltb 0 in_.quantity
    then set_order leg_id (record leg { status = set_bit oco_bit leg.status; other_id = now_id })
        wired
    else sc

-- The stop half moves to its own slot and rests there.
unfoldable pub split_stop : Job → Server → Option (Job × Server)
unfolding order_at set_order clear_bit link stop_rest
split_stop j sc = do
  let in_ = order_at sc j.exec_order_id
  leg ← insert sc.memory.junk sc.orders (stop_leg in_)
  let plain = record in_ { status = clear_bit stop_limit_bit (clear_bit has_stop_bit in_.status) }
  let parted = set_order j.exec_order_id plain (record sc { orders = leg.1 })
  rested ← stop_rest leg.0 (link j.exec_order_id leg.0 parted)
  some (record j { stop_order_id = leg.0 }, rested)

-- A stop and nothing else rests in the slot it came in.
unfoldable pub rest_stop : Job → Server → Option Server
unfolding order_at set_order set_bit clear_bit stop_rest schedule_response
rest_stop j sc =
    let in_ = order_at sc j.exec_order_id in
    let turned : Order = record in_ {
      quantity = in_.second_quantity;
      price = in_.second_price;
      status =
          if in_.second_direction == 0
          then clear_bit buy_direction_bit in_.status
          else set_bit buy_direction_bit in_.status;
    } in
    stop_rest j.exec_order_id (set_order j.exec_order_id turned sc)
    >>= schedule_response in_.client_id j.status 0 j.exec_order_id in_.stop_price
        Reasons.reason_none
