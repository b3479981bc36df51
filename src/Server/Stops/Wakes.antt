-- ===== src/Server/Stops/Wakes.antt =====
-- src/server.c, `wake_rest` to `check_wakes`: the price alerts.
use tiltyard.Base.{
  ℕ, zero, suc, ◌+◌, ◌^◌, Bool, true, false, ◌&&◌, ◌||◌, not, Option, some, bit, ltb, ◌==◌,
  if◌then◌else◌, ◌>>=◌,
}
use tiltyard.Order.{wake_bit, control_bit, reject_bit}
use tiltyard.Book.Range.{is_buy}
use tiltyard.MinQueue.{push, pop, peek, is_empty}
use tiltyard.MaxQueue.{push as push_max, pop as pop_max, peek as peek_max, is_empty as is_empty_max}
use tiltyard.Server.State.{Server, order_at}
use tiltyard.Server.Replies.{schedule_response}
use tiltyard.Server.Reasons
use tiltyard.Server.Stops.Resting.{heap_entry, entry_price, entry_id}

-- `wake_rest`
unfoldable pub wake_rest : ℕ → Server → Option Server
unfolding order_at
wake_rest order_id sc =
    let o = order_at sc order_id in
    let entry = heap_entry o.price order_id in
    if is_buy o
    then (push sc.memory.junk sc.wake_above entry >>= λ pq. some (record sc { wake_above = pq }))
    else (push_max sc.memory.junk sc.wake_below entry >>= λ pq.
        some (record sc { wake_below = pq }))

-- `wake_fire`
unfoldable pub wake_fire : ℕ → Bool → Server → Option Server
unfolding order_at schedule_response
wake_fire entry above sc =
    let order_id = entry_id entry in
    let o = order_at sc order_id in
    let live =
      not (bit o.status reject_bit)
      && bit o.status wake_bit
      && o.price == entry_price entry
      && (if above then is_buy o else not (is_buy o)) in
    if live
    then schedule_response o.client_id (2 ^ wake_bit + 2 ^ control_bit) 0 order_id o.price
        Reasons.reason_none sc
    else some sc

unfoldable pub wakes_above : ℕ → ℕ → Server → Option Server
unfolding wake_fire
wakes_above zero last sc = some sc
wakes_above (suc fuel) last sc =
    elim (is_empty sc.wake_above || ltb last (entry_price (peek sc.wake_above))) [
      | true ↦ some sc
      | false ↦
          let popped = pop sc.wake_above in
          wake_fire popped.0 true (record sc { wake_above = popped.1 }) >>= wakes_above fuel last
    ]

unfoldable pub wakes_below : ℕ → ℕ → Server → Option Server
unfolding wake_fire
wakes_below zero last sc = some sc
wakes_below (suc fuel) last sc =
    elim (is_empty_max sc.wake_below || ltb (entry_price (peek_max sc.wake_below)) last) [
      | true ↦ some sc
      | false ↦
          let popped = pop_max sc.wake_below in
          wake_fire popped.0 false (record sc { wake_below = popped.1 }) >>= wakes_below fuel last
    ]

-- `check_wakes`
unfoldable pub check_wakes : ℕ → Server → Option Server
unfolding wakes_above wakes_below
check_wakes last sc =
    wakes_above sc.wake_above.current last sc >>= λ sc'. wakes_below sc'.wake_below.current last sc'
