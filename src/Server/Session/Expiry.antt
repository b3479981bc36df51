-- ===== src/Server/Session/Expiry.antt =====
-- src/server.c, `collect_expire` and `server_prune_book`, with the times of the session from
-- include/constants.h: the orders that run out.
use tiltyard.Base.{
  ℕ, zero, suc, ◌+◌, ◌-◌, ◌*◌, ◌^◌, Bool, ◌&&◌, not, List, [], ◌∷◌, Option, some, max_u32, u32, u64,
  bit, ◌==◌, if◌then◌else◌, ◌>>=◌,
}
use tiltyard.Order.{Order, set_bit, gtd_bit, cancel_bit, has_stop_bit, reject_bit}
use tiltyard.Book.Range.{is_buy}
use tiltyard.Book.Expire.{ob_expire}
use tiltyard.Book.Position.{queue_position}
use tiltyard.MinQueue.{MinQueue, push, pop}
use tiltyard.Blobs.{resize, meta_at}
use tiltyard.Blobs.{get as bs_get}
use tiltyard.Server.State.{Server, client, set_client, order_at, set_order}
use tiltyard.Server.Replies.{new_blob, schedule_response}
use tiltyard.Server.Stops.{heap_entry}
use tiltyard.Server.Work.Settle.{unreserve, drop_iceberg}
use tiltyard.Server.Reasons

-- The bells: `CONTROL_PARAM_OPEN` and the others, and `CONTROL_PARAM_CANDLE`.
abbrev pub control_param_open : ℕ
control_param_open = 1073741823

abbrev pub control_param_close : ℕ
control_param_close = 1073741822

abbrev pub control_param_auction_open : ℕ
control_param_auction_open = 1073741821

abbrev pub control_param_auction_close : ℕ
control_param_auction_close = 1073741820

abbrev pub control_param_candle : ℕ
control_param_candle = 1073741813

-- `MIN_TO_NS` and `H_TO_NS`
abbrev pub min_to_ns : ℕ
min_to_ns = 60000000000

abbrev pub h_to_ns : ℕ
h_to_ns = 3600000000000

-- `OPEN_TO_CLOSE_NS` and `CLOSE_TO_OPEN_NS`
abbrev pub open_to_close_ns : ℕ
open_to_close_ns = 23400000000000

abbrev pub close_to_open_ns : ℕ
close_to_open_ns = 63000000000000

-- `AUCTION_OPEN_WINDOW_NS` to `AUCTION_CLOSE_FREEZE_NS`
abbrev pub auction_open_window_ns : ℕ
auction_open_window_ns = 10800000000000

abbrev pub auction_close_window_ns : ℕ
auction_close_window_ns = 600000000000

abbrev pub auction_open_freeze_ns : ℕ
auction_open_freeze_ns = 5000000000

abbrev pub auction_close_freeze_ns : ℕ
auction_close_freeze_ns = 60000000000

-- `WEEKEND_NS`
abbrev pub weekend_ns : ℕ
weekend_ns = 172800000000000

abbrev pub expired_status : ℕ
expired_status = 2 ^ reject_bit + 2 ^ cancel_bit

-- The order still lives and carries the time in force that ran out.
abbrev pub runs_out : Order → ℕ → ℕ → Bool
runs_out o tif_bit date =
    not (o.quantity == 0)
    && not (bit o.status reject_bit)
    && bit o.status tif_bit
    && not (tif_bit == gtd_bit && not (o.second_id == date))

-- `collect_expire`
unfoldable pub collect_expire : ℕ → ℕ → ℕ → Server → Option Server
unfolding order_at set_order set_bit unreserve drop_iceberg schedule_response queue_position
collect_expire order_id tif_bit date sc =
    let o = order_at sc order_id in
    let dead : Order = record o { status = set_bit reject_bit o.status; quantity = 0 } in
    let bury = λ (sc : Server). some (set_order order_id dead sc) in
    let cs = unreserve (client sc o.client_id) (is_buy o) (u32 (o.quantity * o.price)) o.quantity in
    let freed = drop_iceberg o.client_id o (set_client o.client_id cs sc) in
    if not (runs_out o tif_bit date)
    then some sc
    else if bit o.status has_stop_bit
    then (schedule_response o.client_id (expired_status + 2 ^ has_stop_bit) 0 order_id o.stop_price
          Reasons.cxl_session_close sc
        >>= bury)
    else if queue_position o.price order_id sc.mbo == max_u32
    then some sc
    else (push sc.memory.junk freed.price_pq (heap_entry o.price order_id) >>= λ pq.
        schedule_response o.client_id expired_status 0 order_id o.price Reasons.cxl_session_close
          (record freed { price_pq = pq })
        >>= bury)

-- `n` entries of a heap, least first.
unfoldable pub pop_all : ℕ → MinQueue → List ℕ × MinQueue
pop_all zero pq = ([], pq)
pop_all (suc n) pq =
    let popped = pop pq in let rest = pop_all n popped.1 in (popped.0 ∷ rest.0, rest.1)

-- `server_prune_book`
unfoldable pub server_prune_book : Server → Option Server
unfolding pop_all ob_expire
server_prune_book sc = do
  let expiries = pop_all (sc.price_pq.current - 1) sc.price_pq
  made ← new_blob sc sc.mbo_bs (meta_at sc.mbo_bs sc.last_mbo).size
  let pruned = ob_expire sc.memory.stale expiries.0 sc.mbo
  let resized = (resize made.1 pruned.1).1
  some (record sc {
    price_pq = expiries.1;
    mbo = pruned.0;
    last_mbo = made.0;
    mbo_bs = (bs_get resized sc.last_mbo).1;
    book_version = u64 (sc.book_version + 1);
  })
