-- ===== src/Server/Work.antt =====
-- src/server.c, `server_order`: the driver of the book. What an accepted order leaves behind is in
-- Accept, the book and the fills in Trade, what follows them in Settle.
pub mod Accept
pub mod Trade
pub mod Settle
pub mod Conserved
use tiltyard.Base.{
  ℕ, ◌+◌, ◌-◌, ◌*◌, ◌^◌, Bool, true, false, ◌&&◌, ◌||◌, not, Option, none, some, max_u32, bit, ltb,
  ◌==◌, if◌then◌else◌, ◌>>=◌,
}
use tiltyard.Order.{
  Order, zero_order, set_bit, clear_bit, auction_only_bit, wake_bit, iceberg_bit, control_bit,
  ask_bid_pair_bit, can_rep_bit, cancel_bit, buy_direction_bit, has_stop_bit, ws_bit, ping_bit,
  reject_bit,
}
use tiltyard.FreeList.{insert, release}
use tiltyard.Scheduler.{now_ns}
use tiltyard.Server.State.{Server, client, set_client, order_at, set_order}
use tiltyard.Server.Replies.{
  tier_free, stream_roster_rebuild, schedule_response, schedule_pair_response,
}
use tiltyard.Server.Checks.{
  cancel_precheck, add_precheck, stop_precheck, canrep_precheck, pair_precheck,
}
use tiltyard.Server.Stops.{wake_rest}
use tiltyard.Server.Auction.{server_auction_order, turn_down}
use tiltyard.Server.Job.{Job, read_flags}
use tiltyard.Server.Reasons
use Accept.{accept, pull_waiting, replace_stop, demote, split_stop, rest_stop}
use Trade.{taker_of, write_book, take_fills}
use Settle.{conclude}

-- The web socket of a client turned on or off.
unfoldable pub toggle_ws : ℕ → Server → Option Server
unfolding stream_roster_rebuild
toggle_ws client_id sc =
    let cs = client sc client_id in
    stream_roster_rebuild (set_client client_id (record cs { ws = not cs.ws }) sc)

-- A ping or a socket toggle, which was never an order.
unfoldable pub control : ℕ → Server → Option Server
unfolding order_at toggle_ws schedule_response
control order_id sc =
    let pending = order_at sc order_id in
    let ping = if bit pending.status ping_bit then 2 ^ ping_bit else 0 in
    let ctl = 2 ^ control_bit + ping in
    let pending_ws = bit pending.status ws_bit in
    if pending_ws && (client sc pending.client_id).sub_tier == tier_free
    then schedule_response pending.client_id (ctl + 2 ^ reject_bit) 0 order_id 0
        Reasons.rej_no_ws_access sc
    else if pending_ws
    then (toggle_ws pending.client_id sc
        >>= schedule_response pending.client_id (ctl + 2 ^ ws_bit) 0 order_id 0 Reasons.reason_none)
    else schedule_response pending.client_id ctl 0 order_id 0 Reasons.reason_none sc

abbrev pub is_control : Order → Bool
is_control o =
    (bit o.status ws_bit || bit o.status ping_bit)
    && o.quantity == 0
    && not (bit o.status ask_bid_pair_bit || bit o.status cancel_bit || bit o.status can_rep_bit)

abbrev fresh_job : ℕ → ℕ → Job
fresh_job order_id now = record {
  exec_order_id = order_id;
  ask_order_id = max_u32;
  stop_order_id = max_u32;
  status = 0;
  rej_reason = 0;
  now_ns = now;
  fillable = 0;
  before_quantity = 0;
  before_ask_quantity = 0;
  is_pair = false;
  is_can_rep = false;
  is_cancel = false;
  ask_is_can_rep = false;
  is_iceberg = false;
  is_iceberg_replenish = false;
  is_stop = false;
  is_gtc = false;
  is_buy = false;
  canrep_stop_leg = false;
}

-- The toggle and the ping that ride on an order.
unfoldable pub ride_along : Job → Server → Option (Job × Server)
unfolding order_at set_bit toggle_ws
ride_along j sc =
    let in_ = order_at sc j.exec_order_id in
    let toggles = bit in_.status ws_bit in
    let free = (client sc in_.client_id).sub_tier == tier_free in
    let pinged = λ (j : Job).
      if bit in_.status ping_bit then record j { status = set_bit ping_bit j.status } else j in
    if toggles && free
    then some (
      pinged (record j {
        status = set_bit reject_bit j.status;
        rej_reason = Reasons.rej_no_ws_access;
      }),
      sc,
    )
    else if toggles
    then (toggle_ws in_.client_id sc >>= λ sc'.
        some (pinged (record j { status = set_bit ws_bit j.status }), sc'))
    else some (pinged j, sc)

-- The ask of a pair as an order of its own.
abbrev pub ask_seed : Order → Order
ask_seed in_ = record zero_order {
  client_id = in_.client_id;
  price = in_.second_price;
  quantity = in_.second_quantity;
  other_id = in_.second_id;
  status = clear_bit ask_bid_pair_bit (clear_bit buy_direction_bit in_.status);
}

unfoldable pub split_pair : Job → Server → Option (Job × Server)
unfolding order_at set_bit
split_pair j sc =
    let in_ = order_at sc j.exec_order_id in
    if bit in_.status ask_bid_pair_bit
    then (insert sc.memory.junk sc.orders (ask_seed in_) >>= λ made. some (
      record j {
        is_pair = true;
        ask_order_id = made.0;
        status = set_bit ask_bid_pair_bit j.status;
      },
      record sc { orders = made.1 },
    ))
    else some (j, sc)

-- A wake rests in its heap; whatever else it asks for is a contradiction.
unfoldable pub take_wake : Job → Server → Option Server
unfolding order_at wake_rest schedule_response turn_down
take_wake j sc =
    let in_ = order_at sc j.exec_order_id in
    let conflict = j.is_cancel || j.is_can_rep || j.is_pair || j.is_stop || j.is_iceberg in
    if conflict || in_.price == 0
    then turn_down j.exec_order_id (2 ^ wake_bit + 2 ^ reject_bit)
        (if conflict then Reasons.rej_bad_qualifier else Reasons.rej_invalid_price) sc
    else (wake_rest j.exec_order_id sc
        >>= schedule_response in_.client_id (2 ^ wake_bit) 0 j.exec_order_id in_.price
            Reasons.reason_none)

-- The check that fits the order, and the bits that its answer gets.
unfoldable pub precheck : Job → Server → Job
unfolding order_at set_bit cancel_precheck add_precheck stop_precheck canrep_precheck pair_precheck
precheck j sc =
    let in_ = order_at sc j.exec_order_id in
    let ask_in = order_at sc j.ask_order_id in
    let cs = client sc in_.client_id in
    let mbo = sc.mbo in
    let added = add_precheck in_ cs mbo sc.mark 0 0 in
    let with_stop =
      λ (j : Job). if j.is_stop then record j { status = set_bit has_stop_bit j.status } else j in
    if not sc.is_open
    then record j { rej_reason = Reasons.rej_market_closed }
    else if j.is_pair
    then record j { rej_reason = pair_precheck in_ ask_in cs (order_at sc) mbo sc.mark }
    else if j.is_can_rep
    then with_stop (record j {
      rej_reason = canrep_precheck in_ cs (order_at sc) mbo sc.mark;
      status = set_bit can_rep_bit j.status;
    })
    else if j.is_cancel
    then record j {
      rej_reason = cancel_precheck in_ (order_at sc) mbo;
      status = set_bit cancel_bit j.status;
      is_stop = false;
    }
    else if j.is_iceberg_replenish
    then j
    else if j.is_stop
    then with_stop (
        if not (stop_precheck in_ == 0)
        then record j { rej_reason = stop_precheck in_ }
        else if ltb 0 in_.quantity
        then record j { rej_reason = added.0; fillable = added.1 }
        else record j { rej_reason = 0 })
    else record j { rej_reason = added.0; fillable = added.1 }

-- An order that its check refused.
unfoldable pub refuse : Job → Server → Option Server
unfolding order_at set_order set_bit schedule_response schedule_pair_response
refuse j sc =
    let in_ = order_at sc j.exec_order_id in
    let status = set_bit reject_bit j.status in
    let dead : Order = record in_ { quantity = 0; status = set_bit reject_bit in_.status } in
    let sc' = set_order j.exec_order_id dead sc in
    if j.is_pair
    then schedule_pair_response in_.client_id status j.exec_order_id 0 0 max_u32 0 0 j.rej_reason
        (record sc' { orders = (release sc'.orders j.ask_order_id).1 })
    else schedule_response in_.client_id status 0 j.exec_order_id 0 j.rej_reason sc'

-- The book, the fills and what follows them.
unfoldable pub work_book : Job → Server → Option Server
unfolding taker_of write_book take_fills conclude
work_book j sc = do
  let taker = taker_of j sc
  written ← write_book j sc
  traded ← take_fills j taker written.0.fills max_u32 written.1
  conclude j sc.last_mbo traded.0 traded.1

-- An order that passed its check.
unfoldable pub work : Job → Server → Option Server
unfolding order_at accept pull_waiting replace_stop demote split_stop rest_stop work_book
work j sc = do
  taken ← accept j sc
  let waiting = if taken.0.is_cancel then pull_waiting taken.0 taken.1 else none
  elim waiting [
    | some done ↦ done
    | none ↦ do
      let replaced = replace_stop taken.0 taken.1
      let d = demote replaced.0 replaced.1
      let j' = d.0
      let now = ltb 0 (order_at d.1 j'.exec_order_id).quantity
      elim (j'.is_stop && not (now || j'.canrep_stop_leg)) [
        | true ↦ rest_stop j' d.1
        | false ↦ do
          parted ← (if j'.is_stop then split_stop j' d.1 else some d)
          work_book parted.0 parted.1
      ]
  ]

-- `server_order`
unfoldable pub server_order : ℕ → Server → Option Server
unfolding order_at control server_auction_order ride_along split_pair read_flags take_wake precheck
    refuse work
server_order order_id sc =
    let pending = order_at sc order_id in
    if is_control pending
    then control order_id sc
    else if bit pending.status auction_only_bit || (sc.auctioning && not sc.is_open)
    then server_auction_order order_id sc
    else (do
      ridden ← ride_along (fresh_job order_id (now_ns sc.sch)) sc
      pair ← split_pair ridden.0 ridden.1
      let j = read_flags pair.0 pair.1
      let checked = precheck j pair.1
      let wakes = bit pending.status wake_bit
      let passed = checked.rej_reason == 0
      if wakes
          then take_wake j pair.1
          else if passed
          then work checked pair.1
          else refuse checked pair.1)
