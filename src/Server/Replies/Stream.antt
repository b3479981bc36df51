-- ===== src/Server/Replies/Stream.antt =====
-- src/server.c, `server_stream`: the new book and the last trade to all that listen.
use tiltyard.Base.{
  ℕ, zero, suc, ◌+◌, ◌-◌, true, false, Option, some, get_or, u64, ◌==◌, if◌then◌else◌, ◌>>=◌,
}
use tiltyard.Ring.{count, clear, is_empty}
use tiltyard.Ring.{at as cb_at}
use tiltyard.Scheduler.{now_ns}
use tiltyard.Server.State.{Server, client, set_client, word}
use tiltyard.Server.Replies.Views.{tier_mbo, tier_trade, tier_blob_id}
use tiltyard.Server.Replies.Deliver.{pin, unpin, draw_jitter, schedule_stream_response}

-- The newest snapshot takes the place of the one that was to follow the delivery in flight.
unfoldable pub conflate : ℕ → ℕ → ℕ → Server → Server
unfolding pin unpin draw_jitter
conflate cid t blob sc =
    let cs = client sc cid in
    let freed =
      if cs.stream_pending_valid
      then unpin cs.stream_pending_tier cs.stream_pending_snapshot sc
      else sc in
    let drawn = draw_jitter cid (pin t blob freed) in
    set_client cid
      (record cs {
        stream_pending_valid = true;
        stream_pending_tier = t;
        stream_pending_snapshot = blob;
        stream_pending_arrival = u64 (now_ns sc.sch + drawn.0);
      })
      drawn.1

-- One subscriber of a blob tier.
unfoldable pub stream_to : ℕ → ℕ → ℕ → Server → Option Server
unfolding schedule_stream_response conflate
stream_to cid t blob sc =
    let cs = client sc cid in
    if cs.will_notify
    then some sc
    else if cs.stream_in_flight
    then some (conflate cid t blob sc)
    else schedule_stream_response cid t blob
        (set_client cid (record cs { stream_in_flight = true }) sc)

-- The subscribers of a blob tier from position `i` of the roster on.
unfoldable pub stream_tier : ℕ → ℕ → ℕ → ℕ → Server → Option Server
unfolding stream_to
stream_tier zero i t blob sc = some sc
stream_tier (suc n) i t blob sc =
    stream_to (word sc (cb_at sc.live_roster i)) t blob sc >>= stream_tier n (i + 1) t blob

-- The blob tiers from `t` on; a tier that nobody listens to is not derived.
unfoldable pub stream_books : ℕ → ℕ → Server → Option Server
unfolding stream_tier tier_blob_id
stream_books zero t sc = some sc
stream_books (suc n) t sc =
    let i = get_or sc.live_offset t 0 in
    let end = get_or sc.live_offset (t + 1) 0 in
    (if i == end
      then some sc
      else tier_blob_id t sc >>= λ blob. stream_tier (end - i) i t blob.0 blob.1)
    >>= stream_books n (t + 1)

-- The subscribers of the trades.
unfoldable pub stream_trades : ℕ → ℕ → ℕ → Server → Option Server
unfolding schedule_stream_response
stream_trades zero i offset sc = some sc
stream_trades (suc n) i offset sc =
    let cid = word sc (cb_at sc.live_roster i) in
    (if (client sc cid).will_notify
      then some sc
      else schedule_stream_response cid tier_trade offset sc)
    >>= stream_trades n (i + 1) offset

-- The flags of the clients that were notified.
unfoldable pub unflag : ℕ → ℕ → Server → Server
unflag zero i sc = sc
unflag (suc n) i sc =
    let cid = word sc (cb_at sc.notified i) in
    let cs = client sc cid in
    unflag n (i + 1) (set_client cid (record cs { will_notify = false }) sc)

-- `server_stream`
unfoldable pub server_stream : Server → Option Server
unfolding stream_books stream_trades unflag
server_stream sc = do
  books ← stream_books 4 tier_mbo sc
  let i = get_or books.live_offset tier_trade 0
  let end = get_or books.live_offset (tier_trade + 1) 0
  sent ←
      (if is_empty books.tape.trades
        then some books
        else stream_trades (end - i) i (count books.tape.trades - 1) books)
  let clean = unflag (count sent.notified) 0 sent
  some (record clean { notified = clear clean.notified })
