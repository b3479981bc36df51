-- ===== src/Server/Session/Candles.antt =====
-- src/server.c, `emit_closed_candle` and `server_candle_close`: the tick of each second.
use tiltyard.Base.{
  ℕ, zero, suc, ◌+◌, ◌-◌, ◌%◌, Bool, true, false, ◌&&◌, Option, none, some, get_or, u64, ltb, leb,
  ◌==◌, if◌then◌else◌, ◌>>=◌,
}
use tiltyard.Ring.{CircularBuffer, queue, count, last}
use tiltyard.Ring.{at as cb_at}
use tiltyard.Candles.{Candle}
use tiltyard.Event.{s_to_ns, day_to_ns, control_type, build_event}
use tiltyard.Scheduler.{now_ns}
use tiltyard.Server.State.{Server, client, word, post, num_clients}
use tiltyard.Server.Replies.{schedule_stream_response}
use tiltyard.Server.Auction.Curves.{auction_walk}
use tiltyard.Server.Auction.Cross.{clear_workspace}
use tiltyard.Server.Session.Expiry.{control_param_candle, min_to_ns, h_to_ns}

-- The listeners of a tier from position `i` of the roster on.
unfoldable pub emit_to : ℕ → ℕ → ℕ → ℕ → Server → Option Server
unfolding schedule_stream_response
emit_to zero i tier offset sc = some sc
emit_to (suc n) i tier offset sc =
    schedule_stream_response (word sc (cb_at sc.live_roster i)) tier offset sc
    >>= emit_to n (i + 1) tier offset

-- `emit_closed_candle`
unfoldable pub emit_closed_candle : CircularBuffer Candle → ℕ → ℕ → Server → Option Server
unfolding emit_to
emit_closed_candle candles duration tier sc =
    let i = get_or sc.live_offset tier 0 in
    let end = get_or sc.live_offset (tier + 1) 0 in
    elim (last candles) [
      | none ↦ some sc
      | some bar ↦
          if u64 (bar.time + duration) == now_ns sc.sch
          then emit_to (end - i) i tier (count candles - 1) sc
          else some sc
    ]

-- The clients that pay for the imbalance feed, `n` of them from `c` on.
unfoldable pub emit_imbalance : ℕ → ℕ → ℕ → Server → Option Server
unfolding schedule_stream_response
emit_imbalance zero c offset sc = some sc
emit_imbalance (suc n) c offset sc =
    (if (client sc c).noii && (client sc c).ws
      then schedule_stream_response c 9 offset sc
      else some sc)
    >>= emit_imbalance n (c + 1) offset

-- The imbalance that is published in a closing window, with the price and the shares of a cross that
-- is not carried out.
unfoldable pub publish_imbalance : Server → Option Server
unfolding auction_walk clear_workspace emit_imbalance
publish_imbalance sc = do
  let buy = sc.imbalance_buy
  let sell = sc.imbalance_sell
  walked ← auction_walk false sc
  let clean = clear_workspace walked.sc
  cb ← queue clean.imbalances (record {
    ns = now_ns sc.sch;
    ref_price = sc.mark;
    clearing = walked.clearing;
    paired = walked.matched;
    imbalance = if ltb sell buy then buy - sell else sell - buy;
    buy_side = leb sell buy;
  })
  let published = record clean { imbalances = cb }
  emit_imbalance (num_clients published) 0 (count cb - 1) published

-- `server_candle_close`
unfoldable pub server_candle_close : Server → Option Server
unfolding emit_closed_candle publish_imbalance post
server_candle_close sc = do
  let now = now_ns sc.sch
  let tape = sc.tape
  let emit = λ (due : Bool). λ (cb : CircularBuffer Candle).
      λ (d : ℕ). λ (t : ℕ). λ (s : Server). if due then emit_closed_candle cb d t s else some s
  elim sc.is_open [
    | false ↦ some sc
    | true ↦ do
      sec ← emit true tape.candles_sec s_to_ns 5 sc
      min ← emit (now % min_to_ns == 0) tape.candles_min min_to_ns 6 sec
      hr ← emit (now % h_to_ns == 0) tape.candles_hr h_to_ns 7 min
      day ← emit (now % day_to_ns == 0) tape.candles_day day_to_ns 8 hr
      noii ← (if day.auctioning then publish_imbalance day else some day)
      post (build_event control_type control_param_candle) (s_to_ns - now % s_to_ns) noii
  ]
