-- ===== src/Server/Stops/Firing.antt =====
-- src/server.c, `stop_batch_insert` to `check_stops`: stops that a print fires, and brackets.
use tiltyard.Base.{
  ℕ, zero, suc, ◌+◌, ◌-◌, ◌%◌, ◌^◌, Bool, true, false, ◌&&◌, ◌||◌, not, Option, some, u32, bit, ltb,
  leb, ◌==◌, if◌then◌else◌, ◌>>=◌,
}
use tiltyard.Order.{
  Order, zero_order, set_bit, clear_bit, control_bit, stop_limit_bit, fok_bit, ioc_bit, cancel_bit,
  is_market_bit, has_stop_bit, oco_bit, reject_bit,
}
use tiltyard.Book.Range.{is_buy}
use tiltyard.Ring.{CircularBuffer, queue, count, set_entry}
use tiltyard.Ring.{at as cb_at}
use tiltyard.MinQueue.{pop, peek, is_empty}
use tiltyard.MaxQueue.{pop as pop_max, peek as peek_max, is_empty as is_empty_max}
use tiltyard.Server.State.{Server, order_at, set_order, word, convert}
use tiltyard.Server.Stops.Resting.{entry_price, entry_id, new_order}

-- `*(u32*)cb_at(cb, i) = id`
abbrev pub cb_set : CircularBuffer ℕ → ℕ → ℕ → CircularBuffer ℕ
cb_set cb i id = set_entry cb (u32 (cb.start + i) % cb.capacity) id

-- The loop that slides later orders up, `n` cells above the start of the batch.
unfoldable pub slide : ℕ → Server → ℕ → ℕ → CircularBuffer ℕ → CircularBuffer ℕ
unfolding order_at
slide zero sc order_id gap ch = cb_set ch gap order_id
slide (suc n) sc order_id gap ch =
    let prev = word sc (cb_at ch (gap - 1)) in
    elim (leb (order_at sc prev).ns (order_at sc order_id).ns) [
      | true ↦ cb_set ch gap order_id
      | false ↦ slide n sc order_id (gap - 1) (cb_set ch gap prev)
    ]

-- `stop_batch_insert`
unfoldable pub stop_batch_insert : ℕ → ℕ → Server → Option Server
unfolding order_at slide convert
stop_batch_insert batch_start order_id sc =
    let ch = sc.convert_holder in
    let n = count ch in
    let start = if ltb n batch_start then n else batch_start in
    let last = word sc (cb_at ch (n - 1)) in
    if ltb start n && ltb (order_at sc order_id).ns (order_at sc last).ns
    then (queue ch last >>= λ grown.
        some (record sc { convert_holder = slide (n - 1 - start) sc order_id (n - 1) grown }))
    else convert order_id sc

-- A fired stop as a plain order: a limit if it has one, otherwise a market order that does not rest.
unfoldable pub fired : Order → Order
unfolding set_bit clear_bit
fired o =
    let disarmed = clear_bit has_stop_bit o.status in
    let market = set_bit is_market_bit disarmed in
    record o {
      status =
          if bit disarmed stop_limit_bit
          then clear_bit stop_limit_bit disarmed
          else if bit market fok_bit
          then market
          else set_bit ioc_bit market;
    }

-- The stop that a heap entry was pushed for is still there, live, armed and unchanged.
unfoldable pub is_armed : Order → ℕ → Bool → Bool
is_armed o entry buy =
    not (o.quantity == 0)
    && not (bit o.status reject_bit)
    && bit o.status has_stop_bit
    && o.stop_price == entry_price entry
    && (if buy then is_buy o else not (is_buy o))

-- `stop_fire`
unfoldable pub stop_fire : ℕ → Bool → ℕ → Server → Option Server
unfolding order_at is_armed fired set_order stop_batch_insert
stop_fire entry buy batch_start sc =
    let order_id = entry_id entry in
    let o = order_at sc order_id in
    if is_armed o entry buy
    then stop_batch_insert batch_start order_id (set_order order_id (fired o) sc)
    else some sc

-- `oco_pull`
unfoldable pub oco_pull : ℕ → Server → Option Server
unfolding order_at convert
oco_pull done_id sc =
    let done = order_at sc done_id in
    let partner = order_at sc done.other_id in
    let cxl : Order = record zero_order {
      client_id = done.client_id;
      status = 2 ^ cancel_bit + 2 ^ control_bit;
      other_id = done.other_id;
    } in
    if partner.quantity == 0 || bit partner.status reject_bit || ltb done.ns partner.ns
    then some sc
    else (new_order cxl sc >>= λ made. convert made.0 made.1)

-- The loop of `oco_sweep`, over the `n` orders from position `i` on.
unfoldable pub sweep : ℕ → ℕ → Server → Option Server
unfolding order_at set_order clear_bit oco_pull
sweep zero i sc = some sc
sweep (suc n) i sc =
    let fired_id = word sc (cb_at sc.convert_holder i) in
    let o = order_at sc fired_id in
    (if bit o.status oco_bit
      then oco_pull fired_id
          (set_order fired_id (record o { status = clear_bit oco_bit o.status }) sc)
      else some sc)
    >>= sweep n (i + 1)

-- `oco_sweep`
unfoldable pub oco_sweep : ℕ → Server → Option Server
unfolding sweep
oco_sweep batch_start sc = sweep (count sc.convert_holder - batch_start) batch_start sc

-- The buy stops at one trigger price; the fuel is the size of the heap.
unfoldable pub fire_buys : ℕ → ℕ → ℕ → Server → Option Server
unfolding stop_fire
fire_buys zero price batch_start sc = some sc
fire_buys (suc fuel) price batch_start sc =
    elim (is_empty sc.buy_stops || not (entry_price (peek sc.buy_stops) == price)) [
      | true ↦ some sc
      | false ↦
          let popped = pop sc.buy_stops in
          stop_fire popped.0 true batch_start (record sc { buy_stops = popped.1 })
          >>= fire_buys fuel price batch_start
    ]

unfoldable pub fire_sells : ℕ → ℕ → ℕ → Server → Option Server
unfolding stop_fire
fire_sells zero price batch_start sc = some sc
fire_sells (suc fuel) price batch_start sc =
    elim (is_empty_max sc.sell_stops || not (entry_price (peek_max sc.sell_stops) == price)) [
      | true ↦ some sc
      | false ↦
          let popped = pop_max sc.sell_stops in
          stop_fire popped.0 false batch_start (record sc { sell_stops = popped.1 })
          >>= fire_sells fuel price batch_start
    ]

-- One trigger price after the other, as far as the print reached.
unfoldable pub buy_groups : ℕ → ℕ → Server → Option Server
unfolding fire_buys
buy_groups zero last sc = some sc
buy_groups (suc fuel) last sc =
    let price = entry_price (peek sc.buy_stops) in
    elim (is_empty sc.buy_stops || ltb last price) [
      | true ↦ some sc
      | false ↦
          fire_buys sc.buy_stops.current price (count sc.convert_holder) sc >>= buy_groups fuel last
    ]

unfoldable pub sell_groups : ℕ → ℕ → Server → Option Server
unfolding fire_sells
sell_groups zero last sc = some sc
sell_groups (suc fuel) last sc =
    let price = entry_price (peek_max sc.sell_stops) in
    elim (is_empty_max sc.sell_stops || ltb price last) [
      | true ↦ some sc
      | false ↦
          fire_sells sc.sell_stops.current price (count sc.convert_holder) sc
          >>= sell_groups fuel last
    ]

-- `check_stops`
unfoldable pub check_stops : ℕ → Server → Option Server
unfolding buy_groups sell_groups
check_stops last sc =
    buy_groups sc.buy_stops.current last sc >>= λ sc'. sell_groups sc'.sell_stops.current last sc'
