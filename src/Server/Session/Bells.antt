-- ===== src/Server/Session/Bells.antt =====
-- src/server.c, `server_auction_accumulate` to `server_market_close`: the chain of the bells.
use tiltyard.Base.{
  ℕ, zero, suc, ◌+◌, ◌-◌, ◌/◌, ◌%◌, ◌^◌, true, false, ◌||◌, Option, some, u32, ltb, ◌==◌,
  if◌then◌else◌, ◌>>=◌,
}
use tiltyard.Order.{gtd_bit, day_bit}
use tiltyard.MinQueue.{pop, peek, is_empty}
use tiltyard.Ring.{count, deque}
use tiltyard.Ring.{is_empty as ring_empty}
use tiltyard.Event.{s_to_ns, day_to_ns, control_type, control_param_auction_freeze, build_event}
use tiltyard.Scheduler.{now_ns}
use tiltyard.Server.State.{Server, word, post}
use tiltyard.Server.Stops.{entry_id}
use tiltyard.Server.Auction.Cross.{server_auction}
use tiltyard.Server.Session.Expiry.{
  control_param_open, control_param_close, control_param_auction_open, control_param_auction_close,
  control_param_candle, open_to_close_ns, close_to_open_ns, auction_open_window_ns,
  auction_close_window_ns, auction_open_freeze_ns, auction_close_freeze_ns, weekend_ns,
  collect_expire, server_prune_book,
}

-- `server_auction_accumulate`
unfoldable pub server_auction_accumulate : Server → Option Server
unfolding post
server_auction_accumulate sc =
    let window = if sc.is_open then auction_close_window_ns else auction_open_window_ns in
    let freeze = if sc.is_open then auction_close_freeze_ns else auction_open_freeze_ns in
    post (build_event control_type control_param_auction_freeze) (window - freeze)
      (record sc { auctioning = true; auction_frozen = false })

-- `server_auction_freeze`
unfoldable pub server_auction_freeze : Server → Option Server
unfolding post
server_auction_freeze sc =
    let bell = if sc.is_open then control_param_close else control_param_open in
    let freeze = if sc.is_open then auction_close_freeze_ns else auction_open_freeze_ns in
    post (build_event control_type bell) freeze (record sc { auction_frozen = true })

-- `server_market_open`
unfoldable pub server_market_open : Server → Option Server
unfolding server_auction post
server_market_open sc = do
  crossed ← server_auction sc
  let opened = record crossed { auctioning = false; auction_frozen = false; is_open = true }
  bell ←
      post (build_event control_type control_param_auction_close)
        (open_to_close_ns - auction_close_window_ns) opened
  post (build_event control_type control_param_candle) s_to_ns bell

-- The orders of the day; the fuel is their number.
unfoldable pub expire_day : ℕ → Server → Option Server
unfolding collect_expire
expire_day zero sc = some sc
expire_day (suc fuel) sc =
    let taken = deque sc.day_orders in
    elim (ring_empty sc.day_orders) [
      | true ↦ some sc
      | false ↦
          collect_expire (word sc taken.0) day_bit 0 (record sc { day_orders = taken.1 })
          >>= expire_day fuel
    ]

-- The orders whose date is here; the fuel is the size of the heap.
unfoldable pub expire_dates : ℕ → ℕ → Server → Option Server
unfolding collect_expire
expire_dates zero today sc = some sc
expire_dates (suc fuel) today sc =
    let popped = pop sc.gtd in
    elim (is_empty sc.gtd || ltb today (peek sc.gtd / 2 ^ 32)) [
      | true ↦ some sc
      | false ↦
          collect_expire (entry_id popped.0) gtd_bit (popped.0 / 2 ^ 32)
            (record sc { gtd = popped.1 })
          >>= expire_dates fuel today
    ]

-- The time from a close to the next opening accumulation.
unfoldable pub overnight : ℕ → ℕ
overnight today =
    close_to_open_ns - auction_open_window_ns + (if today % 7 == 1 then weekend_ns else 0)

-- `server_market_close`
unfoldable pub server_market_close : Server → Option Server
unfolding server_auction expire_day expire_dates server_prune_book overnight post
server_market_close sc = do
  crossed ← server_auction sc
  let closed = record crossed { auctioning = false; auction_frozen = false; is_open = false }
  let today = u32 (now_ns closed.sch / day_to_ns)
  day ← expire_day (count closed.day_orders) closed
  dated ← expire_dates day.gtd.current today day
  pruned ← (if is_empty dated.price_pq then some dated else server_prune_book dated)
  post (build_event control_type control_param_auction_open) (overnight today) pruned
