-- ===== src/Candles.antt =====
-- src/trade.c and include/trade.h: candles over four durations, kept in circular buffers, and the
-- trades.
pub mod Roll
use tiltyard.Base.{
  ℕ, ◌+◌, ◌-◌, ◌*◌, ◌/◌, ◌%◌, Bool, true, false, List, Option, none, some, u32, ltb, ◌==◌,
  if◌then◌else◌, ◌>>=◌,
}
use tiltyard.Event.{s_to_ns, day_to_ns}
use tiltyard.Ring.{CircularBuffer, set_entry, last, queue}

-- `Candle`
pub record Candle : Type 0 where
  pub duration : ℕ
  pub time : ℕ
  pub open_price : ℕ
  pub hi : ℕ
  pub lo : ℕ
  pub close : ℕ
  pub volume : ℕ

-- `Trade`
pub record Trade : Type 0 where
  pub ns : ℕ
  pub quantity : ℕ
  pub price : ℕ
  pub direction : ℕ

-- The server's four candle buffers and its trades.
pub record Tape : Type 0 where
  pub candles_sec : CircularBuffer Candle
  pub candles_min : CircularBuffer Candle
  pub candles_hr : CircularBuffer Candle
  pub candles_day : CircularBuffer Candle
  pub trades : CircularBuffer Trade

-- `update_candle`
unfoldable pub update_candle : Candle → ℕ → ℕ → Candle
update_candle candle price quantity =
    let rest = record candle { close = price; volume = u32 (candle.volume + quantity) } in
    if ltb candle.hi price
    then record rest { hi = price }
    else if ltb price candle.lo
    then record rest { lo = price }
    else rest

-- A write through the pointer of `cb_last`.
unfoldable pub write_last : CircularBuffer Candle → Candle → CircularBuffer Candle
unfolding set_entry
write_last candles candle =
    set_entry candles (u32 (candles.end + candles.capacity - 1) % candles.capacity) candle

-- `update_or_add_candle`
unfoldable pub update_or_add_candle :
    CircularBuffer Candle → Candle → ℕ → ℕ → Option (CircularBuffer Candle)
unfolding last queue update_candle write_last
update_or_add_candle candles c ns duration =
    let bucket = ns / duration * duration in
    let added = queue candles (record c { duration = duration; time = bucket }) in
    elim (last candles) [
      | none ↦ added
      | some cur ↦
          if cur.time == bucket
          then some (write_last candles (update_candle cur c.close c.volume))
          else added
    ]

-- `update_sec_candle`: the duration and the time of the candle that is copied are set for each buffer.
unfoldable pub update_sec_candle : Tape → Trade → Option Tape
unfolding update_or_add_candle
update_sec_candle sc t =
    let c : Candle = record {
      duration = 0;
      time = 0;
      open_price = t.price;
      hi = t.price;
      lo = t.price;
      close = t.price;
      volume = t.quantity;
    } in
    update_or_add_candle sc.candles_sec c t.ns s_to_ns >>= λ sec.
    update_or_add_candle sc.candles_min c t.ns (60 * s_to_ns) >>= λ min.
    update_or_add_candle sc.candles_hr c t.ns (3600 * s_to_ns) >>= λ hr.
    update_or_add_candle sc.candles_day c t.ns day_to_ns >>= λ day.
    some (record sc { candles_sec = sec; candles_min = min; candles_hr = hr; candles_day = day })

-- `update_trade`, at the scheduler's time.
unfoldable pub update_trade : ℕ → Tape → ℕ → ℕ → ℕ → Option Tape
unfolding update_sec_candle queue
update_trade now sc quantity price direction =
    let t : Trade = record {
      ns = now;
      quantity = quantity;
      price = price;
      direction = direction;
    } in
    update_sec_candle sc t >>= λ sc'.
    queue sc'.trades t >>= λ trades. some (record sc' { trades = trades })
