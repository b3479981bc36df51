-- ===== src/Server/Stops/Resting.antt =====
-- src/server.c, `iceberg_replenish` and `stop_rest`: the entries of the trigger heaps, and what rests.
use tiltyard.Base.{
  ℕ, ◌+◌, ◌-◌, ◌*◌, ◌/◌, ◌%◌, ◌^◌, Bool, Option, some, max_u32, u16, bit, ltb, ◌==◌, if◌then◌else◌,
  ◌>>=◌,
}
use tiltyard.Order.{Order, zero_order, set_bit, gtd_bit, day_bit, iceberg_bit, buy_direction_bit}
use tiltyard.Book.Range.{is_buy}
use tiltyard.Ring.{queue}
use tiltyard.MinQueue.{push}
use tiltyard.MaxQueue.{push as push_max}
use tiltyard.FreeList.{insert, release}
use tiltyard.Server.State.{Server, Iceberg, order_at, iceberg_at, set_iceberg, convert}

-- `(price << 32) | id`, and the two parts of an entry.
abbrev pub heap_entry : ℕ → ℕ → ℕ
heap_entry price id = price * 2 ^ 32 + id

abbrev pub entry_price : ℕ → ℕ
entry_price entry = u16 (entry / 2 ^ 32)

abbrev pub entry_id : ℕ → ℕ
entry_id entry = entry % 2 ^ 32

abbrev pub new_order : Order → Server → Option (ℕ × Server)
new_order o sc =
    insert sc.memory.junk sc.orders o >>= λ made. some (made.0, record sc { orders = made.1 })

-- `iceberg_replenish`: the next slice, or the id that stands for none.
unfoldable pub iceberg_replenish : ℕ → Bool → Server → Option (ℕ × Server)
unfolding iceberg_at set_iceberg convert
iceberg_replenish ice_id buy sc =
    let ice = iceberg_at sc ice_id in
    let next = if ltb ice.remaining ice.chunk then u16 ice.remaining else ice.chunk in
    let left : Iceberg = record ice { remaining = ice.remaining - next } in
    let synth : Order = record zero_order {
      client_id = ice.client_id;
      price = ice.price;
      quantity = next;
      status = set_bit iceberg_bit (if buy then 2 ^ buy_direction_bit else 0);
      second_id = ice_id;
    } in
    if ice.remaining == 0
    then some (max_u32, record sc { icebergs = (release sc.icebergs ice_id).1 })
    else (new_order synth (set_iceberg ice_id left sc) >>= λ made.
        convert made.0 made.1 >>= λ sc'. some (made.0, sc'))

-- A time in force that is remembered: the end of the session, or a date.
unfoldable pub remember : ℕ → ℕ → ℕ → Server → Option Server
remember order_id status date sc =
    if bit status day_bit
    then (queue sc.day_orders order_id >>= λ cb. some (record sc { day_orders = cb }))
    else if bit status gtd_bit
    then (push sc.memory.junk sc.gtd (heap_entry date order_id) >>= λ pq.
        some (record sc { gtd = pq }))
    else some sc

-- `stop_rest`
unfoldable pub stop_rest : ℕ → Server → Option Server
unfolding order_at remember
stop_rest order_id sc =
    let o = order_at sc order_id in
    let entry = heap_entry o.stop_price order_id in
    let rested =
      if is_buy o
      then (push sc.memory.junk sc.buy_stops entry >>= λ pq. some (record sc { buy_stops = pq }))
      else (push_max sc.memory.junk sc.sell_stops entry >>= λ pq.
          some (record sc { sell_stops = pq })) in
    rested >>= remember order_id o.status o.second_id
